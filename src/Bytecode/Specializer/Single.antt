-- ===== src/Bytecode/Specializer/Single.antt =====
-- Returns, unary operations and casts under the static types.
use lttng_ust.Common.{ℕ, ◌+◌, ◌<◌, ◌≡◌, ◌≢◌, refl, arith, true, Bool, List, [], ◌∷◌, length, some}
use mathlib.Core.Path.{subst}
use lttng_ust.Bytecode.{
  Op, Unary, Operand, EntryType, s64, u64, double, string, star_glob_string, unknown, ptr, op_at,
}
use lttng_ust.Bytecode.Interpreter.Machine.{Machine, Env}
use lttng_ust.Bytecode.Interpreter.Compare.{is_integer}
use lttng_ust.Bytecode.Interpreter.Arith.{unary_op, bit_not_op, return_op, return_by, captured}
use lttng_ust.Bytecode.Interpreter.Load.{cast_op}
use lttng_ust.Bytecode.Interpreter.Run.{exec}
use lttng_ust.Bytecode.Safety.Stack.{Holds-registers}
use lttng_ust.Bytecode.Specializer.Types.{VEntry}
use lttng_ust.Bytecode.Specializer.Insn.{State, opcode, put}
use lttng_ust.Bytecode.Specializer.Run.{
  unary_choice, cast_choice, return_choice, specialize_return, integer_return,
  specialize_return_s64,
}
use lttng_ust.Bytecode.Specializer.Moves.{After}
use lttng_ust.Bytecode.Specializer.Choices.{Covers, s64_s64, u64_s64}
use lttng_ust.Bytecode.Specializer.Agree.{op_at-set}
use lttng_ust.Bytecode.Specializer.Typed.{IsTyped, OnRun, OnRun-if}
use lttng_ust.Bytecode.Specializer.Steps.{
  Next, with_ax-Next, same-Next, unary_by-Next, unary_s64-Next, unary_double-Next,
  double_to_s64-Next, cast_by-Next,
}
use lttng_ust.Bytecode.Specializer.Leads.{LeadsTo, Retypes, integer-u64}

module _ (env : Env) (capture : Bool) (n pc : ℕ) (m : Machine) where
  captured-OnRun : (P : ℕ → Machine → Type 0) → OnRun P (captured capture m)
  captured-OnRun P = OnRun-if P capture _ _ (λ _. tt) (λ _. tt)

  return_by-OnRun : (P : ℕ → Machine → Type 0) (d : EntryType) → OnRun P (return_by capture m d)
  return_by-OnRun P s64 = tt
  return_by-OnRun P u64 = tt
  return_by-OnRun P double = captured-OnRun P
  return_by-OnRun P string = captured-OnRun P
  return_by-OnRun P ptr = captured-OnRun P
  return_by-OnRun P star_glob_string = tt
  return_by-OnRun P unknown = tt

  pub stopped-Leads :
      (s : State)
      → op_at s.code pc ≡ some Op.return
      → pc < length s.code
      → (T : EntryType)
      → LeadsTo env capture n pc m 1 (record (put s pc (return_choice T)) { done = true })
  unfolding exec return_op opcode
  stopped-Leads s e i s64 = (Op.return_s64, op_at-set s.code pc Op.return_s64 i refl, tt)
  stopped-Leads s e i u64 = (Op.return_s64, op_at-set s.code pc Op.return_s64 i refl, tt)
  stopped-Leads s e i double = (Op.return, e, return_by-OnRun _ m.ax_t)
  stopped-Leads s e i string = (Op.return, e, return_by-OnRun _ m.ax_t)
  stopped-Leads s e i star_glob_string = (Op.return, e, return_by-OnRun _ m.ax_t)
  stopped-Leads s e i unknown = (Op.return, e, return_by-OnRun _ m.ax_t)
  stopped-Leads s e i ptr = (Op.return, e, return_by-OnRun _ m.ax_t)

  pub return-Leads :
      (s : State) (live : List VEntry)
      → op_at s.code pc ≡ some Op.return
      → pc < length s.code
      → After (LeadsTo env capture n pc m 1) (specialize_return s pc live)
  return-Leads s [] e i = tt
  return-Leads s (x ∷ live) e i = stopped-Leads s e i x.type

  pub integer_return-Leads :
      (s : State) (T : EntryType)
      → op_at s.code pc ≡ some Op.return_s64
      → After (LeadsTo env capture n pc m 1) (integer_return s T)
  unfolding exec
  integer_return-Leads s s64 e = (Op.return_s64, e, tt)
  integer_return-Leads s u64 e = (Op.return_s64, e, tt)
  integer_return-Leads s double e = tt
  integer_return-Leads s string e = tt
  integer_return-Leads s star_glob_string e = tt
  integer_return-Leads s unknown e = tt
  integer_return-Leads s ptr e = tt

  pub return_s64-Leads :
      (s : State) (live : List VEntry)
      → op_at s.code pc ≡ some Op.return_s64
      → After (LeadsTo env capture n pc m 1) (specialize_return_s64 s live)
  return_s64-Leads s [] e = tt
  return_s64-Leads s (x ∷ live) e = integer_return-Leads s x.type e

  pub unary-Retypes :
      (s : State) (o : Unary) (x : VEntry) (live : List VEntry)
      → o ≢ Unary.not
      → IsTyped n (x ∷ live) m
      → (T : EntryType) → x.type ≡ T
      → Retypes env capture n pc m s (Op.unary o Operand.any) x live (unary_choice o T)
  unfolding exec unary_op unary_choice opcode
  unary-Retypes s o x live plain t s64 e = (
    ground arith,
    λ code. unary_s64-Next env n pc m x live t s64 o (subst (λ T. Covers T m.ax_t) e t.1.0) s64_s64,
  )
  unary-Retypes s o x live plain t u64 e = (
    ground arith,
    λ code. unary_s64-Next env n pc m x live t u64 o (subst (λ T. Covers T m.ax_t) e t.1.0) u64_s64,
  )
  unary-Retypes s o x live plain t double e = (
    ground arith,
    λ code.
        unary_double-Next env n pc m x live t double o (subst (λ T. Covers T m.ax_t) e t.1.0)
          (λ is. absurd (plain is)),
  )
  unary-Retypes s o x live plain t unknown e = unary_by-Next env n pc m x live t o m.ax_t
  unary-Retypes s o x live plain t string e = tt
  unary-Retypes s o x live plain t star_glob_string e = tt
  unary-Retypes s o x live plain t ptr e = tt

  pub cast-Retypes :
      (s : State) (x : VEntry) (live : List VEntry)
      → IsTyped n (x ∷ live) m
      → (T : EntryType) → x.type ≡ T
      → Retypes env capture n pc m s Op.cast_to_s64 x live (cast_choice T)
  unfolding exec cast_op cast_choice opcode
  cast-Retypes s x live t s64 e =
      (refl, λ code. same-Next env n pc m x live t s64 (subst (λ T. Covers T m.ax_t) e t.1.0))
  cast-Retypes s x live t double e = (refl, λ code. double_to_s64-Next env n pc m x live t)
  cast-Retypes s x live t unknown e = cast_by-Next env n pc m x live t m.ax_t refl
  cast-Retypes s x live t u64 e = cast_by-Next env n pc m x live t m.ax_t refl
  cast-Retypes s x live t string e = tt
  cast-Retypes s x live t star_glob_string e = tt
  cast-Retypes s x live t ptr e = tt

  pub bit_not-Next :
      (live : List VEntry) → IsTyped n live m → OnRun (Next n (pc + 1) live) (bit_not_op pc m)
  unfolding bit_not_op
  bit_not-Next [] t =
      OnRun-if _ (is_integer m.ax_t) _ _ (λ _. (refl, (Holds-registers m t.0 _ _, tt))) (λ _. tt)
  bit_not-Next (x ∷ live) t =
      OnRun-if _ (is_integer m.ax_t) _ _
        (λ e.
          with_ax-Next env n pc m x live t x.type u64 _ (integer-u64 env capture n pc m t.1.0 e))
        (λ _. tt)
