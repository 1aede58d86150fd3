-- ===== src/Objd/Grow.antt =====
-- Growth of the table of object descriptors, and what a lookup depends on.
use lttng_ust.Common.{
  ℕ, zero, suc, ◌-◌, ◌*◌, ◌%◌, ◌^◌, ◌≤◌, ◌<◌, ◌≡◌, refl, Bool, true, false, List, [], ◌∷◌, ◌++◌,
  ltb, leb, ◌==◌, length, get_elem?, arith, some, length-append, length-replicate, replicate,
  if◌then◌else◌, Bool-cases, ◌⊎◌, ltb_false→le, inl, inr,
}
use lttng_ust.Objd.{Obj, Table, objd_get, grow, zero_obj}
use lttng_ust.Objd.Free.{Chain-grow, IsTable}

pub get_elem?-++_left :
    (xs ys : List Obj) (i : ℕ) → i < length xs → get_elem? (xs ++ ys) i ≡ get_elem? xs i
get_elem?-++_left [] ys i h = ground arith
get_elem?-++_left (x ∷ xs) ys zero h = refl
get_elem?-++_left (x ∷ xs) ys (suc i) h = get_elem?-++_left xs ys i (omega arith)

-- What a lookup depends on.
pub objd_get-cong :
    (t u : Table) (j : ℕ)
    → u.len ≡ t.len
    → (j < t.len → get_elem? u.array j ≡ get_elem? t.array j)
    → objd_get u j ≡ objd_get t j
unfolding objd_get
objd_get-cong t u j hl he = elim (Bool-cases (leb t.len j)) [
  | inl out ↦ rw (hl, out) refl
  | inr in_use ↦ rw (hl, in_use, he (ground arith)) refl
]

pub record Grown (t u : Table) : Type 0 where
  pub table : IsTable u
  pub same_len : u.len ≡ t.len
  pub same_head : u.freelist_head ≡ t.freelist_head
  pub room : u.len < u.allocated_len
  pub lookup : (j : ℕ) → objd_get u j ≡ objd_get t j

abbrev doubled : Table → Table
doubled t =
    let new_allocated_len = if t.allocated_len == 0 then 1 else t.allocated_len * 2 % 2 ^ 32 in
    record t {
      array = t.array ++ replicate (new_allocated_len - t.allocated_len) zero_obj;
      allocated_len = new_allocated_len;
    }

grow-cases :
    (zmalloc : ℕ → Bool) (t : Table) {u : Table}
    → grow zmalloc t ≡ some u
    → (ltb t.len t.allocated_len ≡ true) × (u ≡ t)
      ⊎ ((ltb t.len t.allocated_len ≡ false) × (u ≡ doubled t))
unfolding grow
grow-cases zmalloc t e = ground arith

doubled_len : ℕ → ℕ
doubled_len n = if n == 0 then 1 else n * 2 % 2 ^ 32

doubled_len-room : (n : ℕ) → n < 2 ^ 30 → (n < doubled_len n) × (doubled_len n ≤ 2 ^ 31)
unfolding doubled_len
doubled_len-room n h = ground arith

doubled-Grown :
    (t : Table) → IsTable t → t.len < 2 ^ 30 → t.allocated_len ≤ t.len → Grown t (doubled t)
unfolding doubled_len
doubled-Grown t v h full =
    let (room, bounded) = doubled_len-room t.allocated_len (omega arith) in
    let more = replicate (doubled_len t.allocated_len - t.allocated_len) zero_obj in
    record {
      table = record {
        free = v.free;
        chained = Chain-grow more t.len (omega arith) v.chained;
        allocated = omega (
          arith,
          v.allocated,
          length-append t.array more,
          length-replicate (doubled_len t.allocated_len - t.allocated_len) zero_obj,
          room,
        );
        used = omega (arith, v.used, room);
        bounded = bounded;
      };
      same_len = refl;
      same_head = refl;
      room = omega (arith, v.used, room);
      lookup = λ j.
          objd_get-cong t (doubled t) j refl
            (λ hj. get_elem?-++_left t.array more j (omega (arith, v.used, v.allocated)));
    }

pub grow-Grown :
    (zmalloc : ℕ → Bool) (t : Table) {u : Table}
    → IsTable t
    → t.len < 2 ^ 30
    → grow zmalloc t ≡ some u
    → Grown t u
grow-Grown zmalloc t v h e = elim (grow-cases zmalloc t e) [
  | inl (room, same) ↦ rw same record {
    table = v;
    same_len = refl;
    same_head = refl;
    room = ground arith;
    lookup = λ j. refl;
  }
  | inr (full, same) ↦ rw same (doubled-Grown t v h (ltb_false→le _ _ full))
]
