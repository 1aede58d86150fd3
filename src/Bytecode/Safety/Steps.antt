-- ===== src/Bytecode/Safety/Steps.antt =====
-- A step of the interpreter and of the validator's loop, and the end of a run.
use lttng_ust.Common.{
  ℕ, zero, suc, ◌+◌, ◌≤◌, ◌<◌, ◌≡◌, not, if◌then◌else◌, refl, arith, Option, some, none, Bool, true,
  false, List, [], ◌∷◌, length, length-replicate,
}
use lttng_ust.Bytecode.{Op, op_at, size_of}
use lttng_ust.Bytecode.Validator.Context.{Program, bytecode_validate_overflow}
use lttng_ust.Bytecode.Validator.Exec.{with_points}
use lttng_ust.Bytecode.Validator.Load.{overflow_of-le}
use lttng_ust.Bytecode.Interpreter.Machine.{Machine, Env, Outcome, running, start}
use lttng_ust.Bytecode.Interpreter.Run.{exec, step, run}
use lttng_ust.Bytecode.Safety.Stack.{Post, reads_over, fails, ends, goes_on, Holds}

-- The run is over, and no fault ended it.
abbrev pub IsSafe : Outcome → Type 0
IsSafe o = Post (λ _ _. ⊥) o

pub if_not-true : (b x : Bool) → (if not b then false else x) ≡ true → (b ≡ true) × (x ≡ true)
if_not-true true x e = (refl, e)
if_not-true false x e = ground arith

pub overflow-le :
    (prog : Program) (pc : ℕ) {op : Op}
    → op_at prog.code pc ≡ some op
    → bytecode_validate_overflow prog pc ≡ true
    → pc + size_of prog.code pc op ≤ length prog.code
unfolding bytecode_validate_overflow
overflow-le prog pc {op} e f = overflow_of-le prog pc op (rw (e, bytecode_validate_overflow) at f)

pub with_points-true :
    {T : Type 0} (o : Option T) (f : T → Bool)
    → with_points o f ≡ true
    → (t : T) × (o ≡ some t) × (f t ≡ true)
with_points-true none f e = ground arith
with_points-true (some t) f e = (t, refl, e)

op_at-lt : (code : List ℕ) (pc : ℕ) {op : Op} → op_at code pc ≡ some op → pc < length code
unfolding op_at
op_at-lt [] pc e = ground arith
op_at-lt (b ∷ code) zero e = omega arith
op_at-lt (b ∷ code) (suc pc) e = omega (arith, op_at-lt code pc e)

module _ (env : Env) (capture : Bool) (n : ℕ) (code : List ℕ) where
  pub run-IsSafe : (g : ℕ) (o : Outcome) → IsSafe o → IsSafe (run g env capture n code o)
  unfolding run
  run-IsSafe zero o p = p
  run-IsSafe (suc g) _ reads_over = reads_over
  run-IsSafe (suc g) _ fails = fails
  run-IsSafe (suc g) _ ends = ends
  run-IsSafe (suc g) _ (goes_on e) = absurd e

  pub run-Post :
      {P : ℕ → Machine → Type 0} (g : ℕ) (o : Outcome)
      → ((q : ℕ) (m : Machine) → P q m → IsSafe (run g env capture n code (running q m)))
      → Post P o
      → IsSafe (run g env capture n code o)
  run-Post g _ p reads_over = run-IsSafe g _ reads_over
  run-Post g _ p fails = run-IsSafe g _ fails
  run-Post g _ p ends = run-IsSafe g _ ends
  run-Post g _ p (goes_on e) = p _ _ e

  pub step-op :
      (pc : ℕ) (m : Machine) {op : Op}
      → op_at code pc ≡ some op
      → pc + size_of code pc op ≤ length code
      → step env capture n code pc m ≡ exec env capture n code pc m op
  unfolding step
  step-op pc m e le = rw e (ground (arith, op_at-lt code pc e))

pub start-Holds : (n : ℕ) → Holds n 0 (start n)
unfolding start
start-Holds n = record { top = refl; places = length-replicate n _ }
