-- ===== src/Bytecode/Specializer/Leads.antt =====
-- What the pass makes of an instruction leads the interpreter to where the static types say: operations
-- on the stack.
use lttng_ust.Common.{
  ℕ, ◌+◌, ◌<◌, ◌≡◌, ◌≢◌, refl, arith, true, Bool, List, [], ◌∷◌, length, some, none,
}
use lttng_ust.Bytecode.{Op, Cmp, Operands, EntryType, s64, u64, op_at}
use lttng_ust.Bytecode.Interpreter.Machine.{Machine, Env}
use lttng_ust.Bytecode.Interpreter.Compare.{is_integer}
use lttng_ust.Bytecode.Interpreter.Run.{exec}
use lttng_ust.Bytecode.Specializer.Types.{VEntry, Loaded, vstack_pushed, vstack_push}
use lttng_ust.Bytecode.Specializer.Insn.{
  State, put, typed, pop_typed, Choice, refused, null, kept, chosen, compare_with, compared,
  specialize_compare,
}
use lttng_ust.Bytecode.Specializer.Run.{retyped, on_top, pushed_on, push}
use lttng_ust.Bytecode.Specializer.Moves.{After, IfChosen}
use lttng_ust.Bytecode.Specializer.Choices.{
  Covers, any, s64_s64, s64_u64, u64_s64, u64_u64, double_double, double_ptr, string_string,
  string_ptr, glob_glob, ptr_ptr, Encoded, choice-Encoded, choice-none,
}
use lttng_ust.Bytecode.Specializer.Agree.{op_at-set}
use lttng_ust.Bytecode.Specializer.Typed.{IsTyped, OnRun}
use lttng_ust.Bytecode.Specializer.Steps.{Next, compare-Next}

module _ (env : Env) (capture : Bool) (n pc : ℕ) (m : Machine) where
  -- An instruction stands at the offset; where the machine goes on after it, it does so behind it, and
  -- its stack has the static types.
  abbrev pub Leads : ℕ → List ℕ → List VEntry → Type 0
  Leads size code live =
      (op' : Op) × (op_at code pc ≡ some op')
      × OnRun (Next n (pc + size) live) (exec env capture n code pc m op')

  abbrev pub LeadsTo : ℕ → State → Type 0
  LeadsTo size s' = Leads size s'.code s'.stack.live

  pub integer-u64 : {a t : EntryType} → Covers a t → is_integer t ≡ true → Covers a u64
  integer-u64 any e = any
  integer-u64 s64_s64 e = s64_u64
  integer-u64 s64_u64 e = s64_u64
  integer-u64 u64_s64 e = u64_u64
  integer-u64 u64_u64 e = u64_u64
  integer-u64 double_double e = ground arith
  integer-u64 double_ptr e = ground arith
  integer-u64 string_string e = ground arith
  integer-u64 string_ptr e = ground arith
  integer-u64 glob_glob e = ground arith
  integer-u64 ptr_ptr e = ground arith

  pub compared-Leads :
      (c : Cmp)
      → c ≢ Cmp.le
      → (a b : VEntry) (live : List VEntry) → IsTyped n (a ∷ b ∷ live) m
      → (s : State) (k : Operands) → op_at s.code pc ≡ some (Op.compare c k)
      → After (LeadsTo 1) (compared c s (a ∷ b ∷ live))
  unfolding compared
  compared-Leads Cmp.le plain a b live t s k e = absurd (plain refl)
  compared-Leads Cmp.eq plain a b live t s k e = (
    Op.compare Cmp.eq k,
    e,
    compare-Next env n pc m a b live t s64 capture s.code Cmp.eq k s64_s64,
  )
  compared-Leads Cmp.ne plain a b live t s k e = (
    Op.compare Cmp.ne k,
    e,
    compare-Next env n pc m a b live t s64 capture s.code Cmp.ne k s64_s64,
  )
  compared-Leads Cmp.gt plain a b live t s k e = (
    Op.compare Cmp.gt k,
    e,
    compare-Next env n pc m a b live t s64 capture s.code Cmp.gt k s64_s64,
  )
  compared-Leads Cmp.lt plain a b live t s k e = (
    Op.compare Cmp.lt k,
    e,
    compare-Next env n pc m a b live t s64 capture s.code Cmp.lt k s64_s64,
  )
  compared-Leads Cmp.ge plain a b live t s k e = (
    Op.compare Cmp.ge k,
    e,
    compare-Next env n pc m a b live t u64 capture s.code Cmp.ge k u64_s64,
  )

  pub compare_with-Leads :
      (c : Cmp) (plain : c ≢ Cmp.le) (a b : VEntry) (live : List VEntry)
      (t : IsTyped n (a ∷ b ∷ live) m) (s : State) (h : Choice)
      → op_at s.code pc ≡ some (Op.compare c Operands.any)
      → pc < length s.code
      → IfChosen (λ k. Encoded (Op.compare c k)) h
      → After (LeadsTo 1) (compare_with c s pc (a ∷ b ∷ live) h)
  compare_with-Leads c plain a b live t s refused e i w = tt
  compare_with-Leads c plain a b live t s null e i w = tt
  compare_with-Leads c plain a b live t s kept e i w =
      compared-Leads c plain a b live t s Operands.any e
  compare_with-Leads c plain a b live t s (chosen k) e i w =
      compared-Leads c plain a b live t (put s pc (some (Op.compare c k))) k
        (op_at-set s.code pc (Op.compare c k) i w)

  pub alone-Leads :
      (c : Cmp) → c ≢ Cmp.le → (a : VEntry) (s : State) → After (LeadsTo 1) (compared c s (a ∷ []))
  unfolding compared
  alone-Leads Cmp.le plain a s = absurd (plain refl)
  alone-Leads Cmp.eq plain a s = tt
  alone-Leads Cmp.ne plain a s = tt
  alone-Leads Cmp.gt plain a s = tt
  alone-Leads Cmp.lt plain a s = tt
  alone-Leads Cmp.ge plain a s = tt

  pub unchosen-Leads :
      (c : Cmp) (plain : c ≢ Cmp.le) (a : VEntry) (s : State) (h : Choice)
      → IfChosen (λ k. ⊥) h
      → After (LeadsTo 1) (compare_with c s pc (a ∷ []) h)
  unchosen-Leads c plain a s refused w = tt
  unchosen-Leads c plain a s null w = tt
  unchosen-Leads c plain a s kept w = alone-Leads c plain a s
  unchosen-Leads c plain a s (chosen k) w = absurd w

  pub specialize_compare-Leads :
      (c : Cmp) (plain : c ≢ Cmp.le) (s : State) (live : List VEntry)
      → IsTyped n live m
      → op_at s.code pc ≡ some (Op.compare c Operands.any)
      → pc < length s.code
      → After (LeadsTo 1) (specialize_compare c s pc live)
  unfolding specialize_compare
  specialize_compare-Leads c plain s [] t e i = tt
  specialize_compare-Leads c plain s (a ∷ []) t e i =
      unchosen-Leads c plain a s _ (choice-none _ c a.type)
  specialize_compare-Leads c plain s (a ∷ b ∷ live) t e i =
      compare_with-Leads c plain a b live t s _ e i (choice-Encoded c a.type (some b.type))

  -- Two operands, of types known or not asked for.
  pub pop_typed-Leads :
      (s : State) (op : Op) (live : List VEntry)
      → op_at s.code pc ≡ some op
      → ((a b : VEntry) (rest : List VEntry)
          → IsTyped n (a ∷ b ∷ rest) m
          → OnRun (Next n (pc + 1) (typed s64 b ∷ rest)) (exec env capture n s.code pc m op))
      → IsTyped n live m
      → After (LeadsTo 1) (pop_typed s s64 live)
  pop_typed-Leads s op [] e f t = tt
  pop_typed-Leads s op (a ∷ []) e f t = tt
  pop_typed-Leads s op (a ∷ b ∷ live) e f t = (op, e, f a b live t)

  -- The entry at the top.
  abbrev pub Leaves : List ℕ → ℕ → VEntry → List VEntry → EntryType → Op → Type 0
  Leaves code size x live T op =
      OnRun (Next n (pc + size) (typed T x ∷ live)) (exec env capture n code pc m op)

  abbrev pub Retypes : State → Op → VEntry → List VEntry → Loaded → Type 0
  Retypes s op x live none = Unit
  Retypes s op x live (some (T, none)) = Leaves s.code 1 x live T op
  Retypes s op x live (some (T, some op')) =
      Encoded op' × ((code : List ℕ) → Leaves code 1 x live T op')

  pub retyped-Leads :
      (s : State) (op : Op) (x : VEntry) (live : List VEntry) (l : Loaded)
      → op_at s.code pc ≡ some op
      → pc < length s.code
      → Retypes s op x live l
      → After (LeadsTo 1) (retyped s pc x live l)
  retyped-Leads s op x live none e i w = tt
  retyped-Leads s op x live (some (T, none)) e i w = (op, e, w)
  retyped-Leads s op x live (some (T, some op')) e i w = (op', op_at-set s.code pc op' i w.0, w.1 _)

  pub on_top-Leads :
      (s : State) (op : Op) (f : VEntry → Loaded) (live : List VEntry)
      → op_at s.code pc ≡ some op
      → pc < length s.code
      → ((x : VEntry) (rest : List VEntry) → IsTyped n (x ∷ rest) m → Retypes s op x rest (f x))
      → IsTyped n live m
      → After (LeadsTo 1) (on_top s pc f live)
  on_top-Leads s op f [] e i w t = tt
  on_top-Leads s op f (x ∷ live) e i w t = retyped-Leads s op x live (f x) e i (w x live t)

  -- A push, on what is left of the stack's memory.
  pub pushed_on-Leads :
      (s : State) (op : Op) (size : ℕ) (f : VEntry → VEntry) (dead : List VEntry)
      → op_at s.code pc ≡ some op
      → ((x : VEntry)
          → OnRun (Next n (pc + size) (f x ∷ s.stack.live)) (exec env capture n s.code pc m op))
      → After (LeadsTo size) (pushed_on s f (vstack_pushed s.stack dead))
  pushed_on-Leads s op size f [] e k = tt
  pushed_on-Leads s op size f (x ∷ dead) e k = (op, e, k x)

  pub push-Leads :
      (s : State) (op : Op) (size : ℕ) (f : VEntry → VEntry)
      → op_at s.code pc ≡ some op
      → ((x : VEntry)
          → OnRun (Next n (pc + size) (f x ∷ s.stack.live)) (exec env capture n s.code pc m op))
      → After (LeadsTo size) (push s f)
  unfolding vstack_push
  push-Leads s op size f e k = pushed_on-Leads s op size f s.stack.dead e k
