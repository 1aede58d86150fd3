-- ===== src/Bytecode/Specializer/Ends.antt =====
-- The specializer's loop ends.
use lttng_ust.Common.{
  ℕ, zero, suc, ◌+◌, ◌<◌, ◌≡◌, refl, arith, Bool, true, false, if◌then◌else◌, leb, List, Option,
  some, none, length,
}
use lttng_ust.Bytecode.{Op, size_of, op_at}
use lttng_ust.Bytecode.Specializer.Data.{Area}
use lttng_ust.Bytecode.Specializer.Area.{IsArea}
use lttng_ust.Bytecode.Specializer.Types.{VEntry}
use lttng_ust.Bytecode.Specializer.Lookup.{Event, Contexts}
use lttng_ust.Bytecode.Specializer.Insn.{State, Spec, failed, crashed, stopped, next}
use lttng_ust.Bytecode.Specializer.Run.{
  specialize_insn, Result, unfinished, refused, crash, specialized, after, at_op, specialize_from,
  lttng_bytecode_specialize,
}
use lttng_ust.Bytecode.Specializer.Moves.{After}
use lttng_ust.Bytecode.Specializer.Keeps.{Keeps, specialize_insn-After}

-- The pass has ended, and where it succeeds, with the condition.
abbrev pub Ends : (State → Type 0) → Result → Type 0
Ends P unfinished = ⊥
Ends P refused = Unit
Ends P crash = Unit
Ends P (specialized s) = P s

size_of_pos : (code : List ℕ) (pc : ℕ) (op : Op) → 0 < size_of code pc op
unfolding size_of
size_of_pos code pc op = ground arith

module _ (P : State → Type 0) (rest : State → Result) where
  after-Ends :
      (r : Spec) → ((s : State) → P s → Ends P (rest s)) → After P r → Ends P (after rest r)
  after-Ends failed go k = tt
  after-Ends crashed go k = tt
  after-Ends (stopped s) go k = k
  after-Ends (next s) go k = go s k

Ends-if :
    (P : State → Type 0) (b : Bool) (x y : Result)
    → (b ≡ true → Ends P x)
    → (b ≡ false → Ends P y)
    → Ends P (if b then x else y)
Ends-if P true x y f g = f refl
Ends-if P false x y f g = g refl

module _ (ev : Event) (n : ℕ) where
  abbrev Kept : State → Type 0
  Kept s = Keeps n s.code s.area

  at_op-Ends :
      (s : State) (pc : ℕ) (rest : ℕ → State → Result) (o : Option Op)
      → ((q : ℕ) (s' : State) → pc < q → Kept s' → Ends Kept (rest q s'))
      → Kept s
      → Ends Kept (at_op ev s pc rest o)
  at_op-Ends s pc rest none go k = tt
  at_op-Ends s pc rest (some op) go k =
      after-Ends Kept _ (specialize_insn ev s pc op)
        (λ s' k'. go _ s' (omega (arith, size_of_pos s.code pc op)) k')
        (specialize_insn-After n ev s pc op k)

  specialize_from-Ends :
      (f pc : ℕ) (s : State) → 0 < f → n < f + pc → Kept s → Ends Kept (specialize_from f ev pc s)
  unfolding specialize_from
  specialize_from-Ends zero pc s h h' k = elim h [ ]
  specialize_from-Ends (suc f) pc s h h' k =
      Ends-if Kept (leb (length s.code) pc) _ _ (λ _. Ends-if Kept s.done _ _ (λ _. k) (λ _. tt))
        (λ more.
          let inside : pc < n = ground (arith, more, k.len) in
          at_op-Ends s pc (specialize_from f ev) (op_at s.code pc)
            (λ q s' le k'. specialize_from-Ends f q s' (omega arith) (omega arith) k') k)

-- Whatever the program, its event, its contexts and what the stack's memory holds: the loop ends
-- within as many steps as the code has bytes, and one. Where the pass succeeds on a data area of
-- which the allocation is as long as it says and the data in use inside it and below the limit, the
-- code has as many bytes as before, and the data area is such an area.
pub lttng_bytecode_specialize-Ends :
    (ev : Event) (code : List ℕ) (area : Area) (ctx : Contexts) (memory : List VEntry)
    → IsArea area
    → Ends
        (λ s. Keeps (length code) s.code s.area)
        (lttng_bytecode_specialize ev code area ctx memory)
unfolding lttng_bytecode_specialize
lttng_bytecode_specialize-Ends ev code area ctx memory ok =
    specialize_from-Ends ev (length code) (suc (length code)) 0 _ (omega arith) (omega arith)
      record { len = refl; area = ok }
