-- ===== src/Objd/Alloc.antt =====
-- Allocation of object descriptors: `objd_alloc`.
use lttng_ust.Common.{
  ℕ, ◌+◌, ◌%◌, ◌^◌, ◌<◌, ◌≡◌, ◌≢◌, refl, sym, ◌∙◌, Bool, List, ◌==◌, length, get_elem?, arith,
  Option, some, none, get_elem?-set_ne, get_elem?-set_self, length-set, Bool-cases, ◌⊎◌, inl, inr,
}
use lttng_ust.Objd.{
  Obj, Table, list_end, freelist_next, objd_get, grow, place, objd_alloc, next_of, extend,
}
use lttng_ust.Objd.Free.{Apart, Chain, stop, link, Chain-set, Chain-len, Apart-len, IsTable}
use lttng_ust.Objd.Grow.{objd_get-cong, Grown, grow-Grown}

-- What an allocation does to the table.
pub record Allocated (t : Table) (new : Obj) (id : ℕ) (u : Table) : Type 0 where
  pub table : IsTable u
  pub fresh : objd_get t id ≡ none
  pub got : objd_get u id ≡ some new
  pub others : (j : ℕ) → j ≢ id → objd_get u j ≡ objd_get t j

-- The free list's first entry.
record FreeHead (array : List Obj) (len head : ℕ) : Type 0 where
  object : Obj
  rest : List ℕ
  at : get_elem? array head ≡ some object
  unused : object.f_count ≡ 0
  in_use : head < len
  apart : Apart head rest
  chained : Chain array len (freelist_next object) rest

Chain-FreeHead :
    {array : List Obj} {len head : ℕ} {js : List ℕ}
    → Chain array len head js
    → head ≢ list_end
    → FreeHead array len head
Chain-FreeHead stop h = absurd (h refl)
Chain-FreeHead (link {i} {js} p e z lt d c) h = record {
  object = p;
  rest = js;
  at = e;
  unused = z;
  in_use = lt;
  apart = d;
  chained = c;
}

reuse-Allocated :
    (new : Obj) (t : Table)
    → new.f_count ≢ 0
    → IsTable t
    → t.freelist_head ≢ list_end
    → Allocated t new t.freelist_head (
        place t.freelist_head new
          (record t { freelist_head = next_of (get_elem? t.array t.freelist_head) }))
unfolding objd_get
reuse-Allocated new t hn v h =
    let f = Chain-FreeHead v.chained h in
    let inside : t.freelist_head < length t.array = omega (arith, f.in_use, v.used, v.allocated) in
    record {
      table = record {
        free = f.rest;
        chained = rw f.at (Chain-set t.freelist_head new f.apart f.chained);
        allocated = v.allocated ∙ sym (length-set t.array t.freelist_head new);
        used = v.used;
        bounded = v.bounded;
      };
      fresh = rw f.at (ground (arith, f.unused));
      got = rw (get_elem?-set_self t.array t.freelist_head new inside) (ground (arith, f.in_use));
      others = λ j hj.
          objd_get-cong t
            (place t.freelist_head new
              (record t { freelist_head = next_of (get_elem? t.array t.freelist_head) }))
            j refl (λ _. get_elem?-set_ne t.array new (λ e. hj (sym e)));
    }

extend-Allocated :
    (new : Obj) (t : Table)
    → new.f_count ≢ 0
    → IsTable t
    → t.len < t.allocated_len
    → Allocated t new t.len (place t.len new (record t { len = (t.len + 1) % 2 ^ 32 }))
unfolding objd_get
extend-Allocated new t hn v h =
    let next : (t.len + 1) % 2 ^ 32 ≡ t.len + 1 = omega (arith, v.bounded) in
    let inside : t.len < length t.array = omega (arith, v.allocated) in
    rw next record {
      table = record {
        free = v.free;
        chained =
            Chain-len (t.len + 1) (omega arith)
              (Chain-set t.len new (Apart-len t.len (omega arith) v.chained) v.chained);
        allocated = v.allocated ∙ sym (length-set t.array t.len new);
        used = omega arith;
        bounded = v.bounded;
      };
      fresh = ground arith;
      got = rw (get_elem?-set_self t.array t.len new inside) (ground arith);
      others = λ j hj. rw (get_elem?-set_ne t.array new (λ e. hj (sym e))) (ground arith);
    }

Allocated-after :
    {t u w : Table} {new : Obj} {id : ℕ} → Grown t u → Allocated u new id w → Allocated t new id w
Allocated-after {t} {u} {w} {new} {id} g a = record {
  table = a.table;
  fresh = sym (g.lookup id) ∙ a.fresh;
  got = a.got;
  others = λ j hj. a.others j hj ∙ g.lookup j;
}

abbrev reused : Obj → Table → Table
reused new t =
    place t.freelist_head new
      (record t { freelist_head = next_of (get_elem? t.array t.freelist_head) })

abbrev extended : Obj → Table → Table
extended new t = place t.len new (record t { len = (t.len + 1) % 2 ^ 32 })

alloc_grown :
    (grown : Option Table) (new : Obj) {id : ℕ} {u : Table}
    → extend new grown ≡ some (id, u)
    → (g : Table) × (grown ≡ some g) × (id ≡ g.len) × (u ≡ extended new g)
alloc_grown none new e = ground arith
alloc_grown (some g) new e = (g, refl, ground arith, ground arith)

reuse_or_extend :
    (zmalloc : ℕ → Bool) (new : Obj) (t : Table) {id : ℕ} {u : Table}
    → objd_alloc zmalloc new t ≡ some (id, u)
    → (t.freelist_head ≢ list_end) × (id ≡ t.freelist_head) × (u ≡ reused new t)
      ⊎ ((g : Table) × (grow zmalloc t ≡ some g) × (id ≡ g.len) × (u ≡ extended new g))
unfolding objd_alloc
reuse_or_extend zmalloc new t {id} {u} e = elim (Bool-cases (t.freelist_head == list_end)) [
  | inl empty ↦ inr (alloc_grown (grow zmalloc t) new (ground arith))
  | inr some_free ↦ inl (ground arith)
]

-- In a table that keeps its invariant and has less than 2 ^ 30 entries, an allocation that gives a
-- descriptor keeps the invariant; the descriptor was not in use, it now gives the new object, and
-- every other descriptor gives what it gave.
pub objd_alloc-Allocated :
    (zmalloc : ℕ → Bool) (new : Obj) (t : Table) {id : ℕ} {u : Table}
    → new.f_count ≢ 0
    → IsTable t
    → t.len < 2 ^ 30
    → objd_alloc zmalloc new t ≡ some (id, u)
    → Allocated t new id u
unfolding objd_alloc
objd_alloc-Allocated zmalloc new t hn v h e = elim (reuse_or_extend zmalloc new t e) [
  | inl (some_free, same_id, same) ↦ rw (same_id, same) (reuse-Allocated new t hn v some_free)
  | inr (grown, e', same_id, same) ↦
      let g = grow-Grown zmalloc t v h e' in
      rw (same_id, same) (Allocated-after g (extend-Allocated new grown hn g.table g.room))
]
