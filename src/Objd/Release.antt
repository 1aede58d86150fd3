-- ===== src/Objd/Release.antt =====
-- Releasing object descriptors: `lttng_ust_abi_objd_unref` and `objd_free`.
use lttng_ust.Common.{
  ℕ, ◌+◌, ◌-◌, ◌%◌, ◌^◌, ◌<◌, ◌≡◌, ◌≢◌, refl, sym, ◌∙◌, Bool, true, false, ◌&&◌, List, ◌∷◌, ◌==◌,
  length, get_elem?, set, arith, some, none, get_elem?-set_self, length-set, Option-cases,
  Bool-cases, inl, inr, ◌⊎◌,
}
use mathlib.Core.Path.{subst}
use lttng_ust.Objd.{
  Obj, Table, list_end, set_freelist_next, objd_get, place, objd_alloc, objd_free, objd_unref,
  Unref, drop_owner,
}
use lttng_ust.Objd.Free.{Chain, link, Chain-set, Chain-head, Apart-used, IsTable}

-- What a lookup that finds an object says.
record Found (t : Table) (id : ℕ) (o : Obj) : Type 0 where
  at : get_elem? t.array id ≡ some o
  counted : o.f_count ≢ 0
  in_use : id < t.len

objd_get-Found : (t : Table) (id : ℕ) {o : Obj} → objd_get t id ≡ some o → Found t id o
unfolding objd_get
objd_get-Found t id e = record { at = ground arith; counted = ground arith; in_use = ground arith }

place-IsTable :
    (t : Table) (id : ℕ) (o o' : Obj) → IsTable t → objd_get t id ≡ some o → IsTable (place id o' t)
place-IsTable t id o o' v e =
    let f = objd_get-Found t id e in
    record {
      free = v.free;
      chained = Chain-set id o' (Apart-used id o f.at f.counted v.chained) v.chained;
      allocated = v.allocated ∙ sym (length-set t.array id o');
      used = v.used;
      bounded = v.bounded;
    }

objd_get-place :
    (t : Table) (id : ℕ) (o o' : Obj)
    → IsTable t
    → objd_get t id ≡ some o
    → o'.f_count ≢ 0
    → objd_get (place id o' t) id ≡ some o'
unfolding objd_get
objd_get-place t id o o' v e n =
    let f = objd_get-Found t id e in
    rw (get_elem?-set_self t.array id o' (omega (arith, f.in_use, v.used, v.allocated)))
      (ground (arith, f.in_use))

next_of_set : (pd head : ℕ) → head < 2 ^ 32 → (pd - pd % 2 ^ 32 + head) % 2 ^ 32 ≡ head
next_of_set pd head h = omega arith

objd_get-freed :
    (array : List Obj) (len allocated_len head id : ℕ) (o : Obj)
    → get_elem? array id ≡ some o
    → o.f_count ≡ 0
    → objd_get
        record { array = array; len = len; allocated_len = allocated_len; freelist_head = head }
        id
      ≡ none
unfolding objd_get
objd_get-freed array len allocated_len head id o e z = rw e (ground arith)

record Freed (t : Table) (id : ℕ) (u : Table) : Type 0 where
  table : IsTable u
  gone : objd_get u id ≡ none

objd_free-Freed :
    (t : Table) (id : ℕ) (o : Obj)
    → IsTable t
    → objd_get t id ≡ some o
    → Freed t id (objd_free id t)
unfolding objd_free
objd_free-Freed t id o v e =
    rw (e, objd_free)
      (let f = objd_get-Found t id e in
        let apart = Apart-used id o f.at f.counted v.chained in
        let freed : Obj = record (set_freelist_next t.freelist_head o) { f_count = 0 } in
        let inside : id < length t.array = omega (arith, f.in_use, v.used, v.allocated) in
        let next =
          next_of_set o.private_data t.freelist_head
            (Chain-head (omega (arith, v.used, v.bounded)) v.chained) in
        record {
          table = record {
            free = id ∷ v.free;
            chained = link freed (get_elem?-set_self t.array id freed inside) refl f.in_use apart (
                subst (λ n. Chain (set t.array id freed) t.len n v.free) (sym next)
                  (Chain-set id freed apart v.chained));
            allocated = v.allocated ∙ sym (length-set t.array id freed);
            used = v.used;
            bounded = v.bounded;
          };
          gone =
              objd_get-freed (set t.array id freed) t.len t.allocated_len id id freed
                (get_elem?-set_self t.array id freed inside) refl;
        })

-- What the release of an object may do to the table: anything that keeps the invariant and leaves
-- the object itself.
pub record KeepsObject (release : ℕ → Table → Table) : Type 0 where
  pub table : (id : ℕ) (t : Table) → IsTable t → IsTable (release id t)
  pub object :
      (id : ℕ) (t : Table) {o : Obj}
      → IsTable t
      → objd_get t id ≡ some o
      → objd_get (release id t) id ≡ some o

abbrev pub counted_down : Bool → Obj → Obj
counted_down is_owner o = record (drop_owner is_owner o) { f_count = o.f_count - 1 }

-- The outcomes of giving back a reference.
pub data Released (t : Table) (id : ℕ) (is_owner : Bool) : Unref → Type 0 where
  unknown : objd_get t id ≡ none → Released t id is_owner record { ok = false; table = t }
  refused :
      (o : Obj)
      → objd_get t id ≡ some o
      → (o.f_count ≡ 1) ⊎ ((is_owner ≡ true) × (o.owner_ref ≡ 0))
      → Released t id is_owner record { ok = false; table = t }
  counted :
      (o : Obj) (u : Table)
      → objd_get t id ≡ some o
      → 2 < o.f_count
      → IsTable u
      → objd_get u id ≡ some (counted_down is_owner o)
      → Released t id is_owner record { ok = true; table = u }
  freed :
      (o : Obj) (u : Table)
      → objd_get t id ≡ some o
      → o.f_count ≡ 2
      → IsTable u
      → objd_get u id ≡ none
      → Released t id is_owner record { ok = true; table = u }

freed-Released :
    {release : ℕ → Table → Table}
    → KeepsObject release
    → (t : Table) (id : ℕ) (is_owner : Bool) (o : Obj) → IsTable t
    → objd_get t id ≡ some o
    → o.f_count ≡ 2
    → Released t id is_owner record {
      ok = true;
      table = objd_free id (release id (place id (counted_down is_owner o) t));
    }
freed-Released {release} k t id is_owner o v e two =
    let placed = place-IsTable t id o (counted_down is_owner o) v e in
    let there = objd_get-place t id o (counted_down is_owner o) v e (omega (arith, two)) in
    let f =
      objd_free-Freed (release id (place id (counted_down is_owner o) t)) id
        (counted_down is_owner o) (k.table id _ placed) (k.object id _ placed there) in
    freed o _ e two f.table f.gone

counted-Released :
    (t : Table) (id : ℕ) (is_owner : Bool) (o : Obj)
    → IsTable t
    → objd_get t id ≡ some o
    → 2 < o.f_count
    → Released t id is_owner record { ok = true; table = place id (counted_down is_owner o) t }
counted-Released t id is_owner o v e more =
    counted o _ e more (place-IsTable t id o (counted_down is_owner o) v e)
      (objd_get-place t id o (counted_down is_owner o) v e (omega arith))

-- In a table that keeps its invariant, where the releases of objects keep it too and leave the
-- object itself, giving back a reference has one of four outcomes. It is an error that changes
-- nothing, for a descriptor that is not in use, or for an object with one count left or, where
-- the owner gives back, without the owner's reference; it takes one count from an object with
-- more than two; or the object had two, and its descriptor is in use no longer. The invariant is
-- kept.
pub objd_unref-Released :
    {release : ℕ → Table → Table}
    → KeepsObject release
    → (t : Table) (id : ℕ) (is_owner : Bool) → IsTable t
    → Released t id is_owner (objd_unref release id is_owner t)
unfolding objd_unref
objd_unref-Released k t id is_owner v = elim (Option-cases (objd_get t id)) [
  | inl e ↦ rw (e, objd_unref) (unknown e)
  | inr (o, e) ↦
      rw (e, objd_unref)
        (elim (Bool-cases (o.f_count == 1)) [
          | inl one ↦ rw one (refused o e (inl (ground arith)))
          | inr more ↦
              let used : o.f_count ≢ 0 = (objd_get-Found t id e).counted in
              rw more (elim (Bool-cases (is_owner && o.owner_ref == 0)) [
                | inl none_owned ↦ rw none_owned (refused o e (inr (ground arith)))
                | inr owned ↦ rw owned (elim (Bool-cases (o.f_count - 1 == 1)) [
                  | inl last ↦ rw last (freed-Released k t id is_owner o v e (ground arith))
                  | inr not_last ↦
                      rw not_last (counted-Released t id is_owner o v e (ground (arith, used)))
                ])
              ])
        ])
]

-- In a table that keeps its invariant, an allocation after an object was freed gives the same
-- descriptor again, whether there is memory or not, and leaves the free list where it was before.
pub objd_alloc-reuses :
    (zmalloc : ℕ → Bool) (new : Obj) (t : Table) (id : ℕ) (o : Obj)
    → IsTable t
    → objd_get t id ≡ some o
    → (u : Table) × (objd_alloc zmalloc new (objd_free id t) ≡ some (id, u))
      × (u.freelist_head ≡ t.freelist_head)
unfolding objd_alloc objd_free
objd_alloc-reuses zmalloc new t id o v e =
    let f = objd_get-Found t id e in
    let freed : Obj = record (set_freelist_next t.freelist_head o) { f_count = 0 } in
    let inside : id < length t.array = omega (arith, f.in_use, v.used, v.allocated) in
    let next =
      next_of_set o.private_data t.freelist_head
        (Chain-head (omega (arith, v.used, v.bounded)) v.chained) in
    let listed : (id == list_end) ≡ false = ground (arith, f.in_use, v.used, v.bounded) in
    rw (e, objd_free) (rw listed (_, refl, rw (get_elem?-set_self t.array id freed inside) next))
