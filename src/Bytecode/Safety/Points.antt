-- ===== src/Bytecode/Safety/Points.antt =====
-- The merge points of the validator, and the machines that are on their way to one.
use lttng_ust.Common.{
  ℕ, ◌≡◌, ◌≢◌, ◌==◌, not, ◌⊎◌, inl, inr, if◌then◌else◌, refl, sym, ap, ◌∙◌, arith, Option, some,
  none, Bool, true, false, Bool-cases, Option-cases, List, length,
}
use lttng_ust.Bytecode.{Op, EntryType}
use lttng_ust.Bytecode.Validator.Table.{Table, IsTable}
use lttng_ust.Bytecode.Validator.Context.{Program, validate_instruction_context}
use lttng_ust.Bytecode.Validator.Exec.{
  merge_points_compare, merged, merge_point_add_check, validate_instruction_all_contexts,
}
use lttng_ust.Bytecode.Validator.Heights.{merge_points_compare-length}

if-some {ℓ} :
    {A : Type ℓ} (b : Bool) {x y : A} → (if b then some x else none) ≡ some y → (b ≡ true) × (x ≡ y)
if-some true e = (refl, ground arith)
if-some false e = ground arith

if_not-some {ℓ} :
    {A : Type ℓ} (b : Bool) {x : Option A} {y : A}
    → (if not b then none else x) ≡ some y
    → x ≡ some y
if_not-some true e = e
if_not-some false e = ground arith

module _ {T : Type 0} where
  -- A stack that comes to a merge point has its height.
  merged-length :
      (stack : List EntryType) (new same : T) {after : T} {o : Option (List EntryType)}
      {old : List EntryType}
      → merged stack new same o ≡ some after
      → o ≡ some old
      → (length stack ≡ length old) × (after ≡ same)
  merged-length stack new same {o = none} e f = ground arith
  merged-length stack new same {o = some old'} {old} e f =
      let (c, d) = if-some (merge_points_compare stack old') e in
      (merge_points_compare-length stack old' c ∙ ap length (ground arith), sym d)

  merged-new :
      (stack : List EntryType) (new same : T) {after : T} {o : Option (List EntryType)}
      → merged stack new same o ≡ some after
      → o ≡ none
      → after ≡ new
  merged-new stack new same {o = none} e f = ground arith
  merged-new stack new same {o = some old} e f = ground arith

-- A merge point at `q` for a stack of `k` entries.
pub record Waits {T : Type 0} (h : Table T) (points : T) (q k : ℕ) : Type 0 where
  pub types : List EntryType
  pub found : h.lookup q points ≡ some types
  pub height : length types ≡ k

module _ {T : Type 0} (h : Table T) (law : IsTable h) where
  Waits-del :
      (pc : ℕ) (points : T) {q k : ℕ} → q ≢ pc → Waits h points q k → Waits h (h.del pc points) q k
  Waits-del pc points {q} apart w = record {
    types = w.types;
    found = law.lookup_del_ne pc q points (λ e. apart (sym e)) ∙ w.found;
    height = w.height;
  }

  Waits-add :
      (target : ℕ) (stack : List EntryType) (points : T)
      → h.lookup target points ≡ none
      → {q k : ℕ} → Waits h points q k
      → Waits h (h.add target stack points) q k
  Waits-add target stack points fresh {q} w = record {
    types = w.types;
    found = law.lookup_add_ne target q stack points (λ e. cc (rw e at fresh)) ∙ w.found;
    height = w.height;
  }

  contexts-apart :
      (pc : ℕ) (stack : List EntryType) (points : T) {after : T} {q k : ℕ}
      → merged stack points (h.del pc points) (h.lookup pc points) ≡ some after
      → q ≢ pc
      → Waits h points q k
      → Waits h after q k
  contexts-apart pc stack points m apart w = elim (Option-cases (h.lookup pc points)) [
    | inl free ↦ rw (merged-new stack points _ m free) w
    | inr (old, taken) ↦ rw ((merged-length stack points _ m taken).1) (Waits-del pc points apart w)
  ]

  -- A merge point that is not at the instruction stays; at the instruction, the stack has its height.
  pub contexts-Waits :
      (zmalloc : ℕ → Bool) (prog : Program) (pc : ℕ) (stack : List EntryType) (op : Op) (points : T)
      {after : T} (q k : ℕ)
      → validate_instruction_all_contexts h zmalloc prog pc stack op points ≡ some after
      → Waits h points q k
      → (q ≡ pc) × (length stack ≡ k) ⊎ Waits h after q k
  unfolding validate_instruction_all_contexts
  contexts-Waits zmalloc prog pc stack op points q k e w =
      let m = if_not-some (validate_instruction_context prog pc stack op) e in
      elim (Bool-cases (q == pc)) [
        | inl at ↦
            let same : q ≡ pc = ground (arith, at) in
            inl (same, (merged-length stack points _ m (rw same at w.found)).0 ∙ w.height)
        | inr apart ↦ inr (contexts-apart pc stack points m (ground (arith, apart)) w)
      ]

  -- The target of a jump has a merge point of the stack's height, and the others stay.
  pub add_check-Waits :
      (zmalloc : ℕ → Bool) (target : ℕ) (stack : List EntryType) (points : T) {after : T}
      → merge_point_add_check h zmalloc target stack points ≡ some after
      → Waits h after target (length stack) × ((q k : ℕ) → Waits h points q k → Waits h after q k)
  unfolding merge_point_add_check
  add_check-Waits zmalloc target stack points e =
      let m = if_not-some (zmalloc target) e in
      elim (Option-cases (h.lookup target points)) [
        | inl free ↦ rw (merged-new stack _ points m free) (
          record { types = stack; found = law.lookup_add target stack points; height = refl },
          λ q k w. Waits-add target stack points free w,
        )
        | inr (old, taken) ↦
            let (same, kept) = merged-length stack _ points m taken in
            rw kept (record { types = old; found = taken; height = sym same }, λ q k w. w)
      ]
