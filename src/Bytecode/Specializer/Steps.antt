-- ===== src/Bytecode/Specializer/Steps.antt =====
-- The instructions of the interpreter, on a stack of which the static types are known.
use lttng_ust.Common.{ℕ, ◌+◌, ◌≡◌, refl, sym, arith, Bool, ◌&&◌, List, ◌∷◌, Option, some, none}
use mathlib.Core.Path.{subst}
use lttng_ust.Bytecode.{
  Op, Cmp, Operands, Unary, Bitwise, EntryType, s64, u64, double, string, star_glob_string, unknown,
  ptr,
}
use lttng_ust.Bytecode.Interpreter.Machine.{Machine, Env, estack_ax, estack_bx}
use lttng_ust.Bytecode.Interpreter.Compare.{
  give, give_compared, compare_op, compare_by, compare_any, compare_strings, with_ax, is_integer,
}
use lttng_ust.Bytecode.Interpreter.Arith.{
  give_bits, bitwise_op, bitwise_of, unary_s64, unary_double, unary_by,
}
use lttng_ust.Bytecode.Interpreter.Load.{double_to_s64_op, cast_by}
use lttng_ust.Bytecode.Interpreter.Run.{exec}
use lttng_ust.Bytecode.Safety.Stack.{Holds-registers, Holds-memory}
use lttng_ust.Bytecode.Specializer.Types.{VEntry}
use lttng_ust.Bytecode.Specializer.Insn.{typed}
use lttng_ust.Bytecode.Specializer.Choices.{Covers, any, s64_s64}
use lttng_ust.Bytecode.Specializer.Typed.{
  Under-set_ax, Under-registers, IsTyped, OnRun, OnRun-bind, OnRun-if, Typed-pop,
}

-- At an offset, with a stack of these types.
abbrev pub Next : ℕ → ℕ → List VEntry → ℕ → Machine → Type 0
Next n pc live q m = (q ≡ pc) × IsTyped n live m

module _ (env : Env) (n pc : ℕ) (m : Machine) where
  module _ (a b : VEntry) (live : List VEntry) (t : IsTyped n (a ∷ b ∷ live) m)
      (T : EntryType) where
    give-Next :
        (d : EntryType) (v : ℕ)
        → Covers T d
        → OnRun (Next n (pc + 1) (typed T b ∷ live)) (give d v pc m)
    give-Next d v c =
        Typed-pop _ a b live m _ t
          (λ m' t'. (refl, (Holds-registers m' t'.0 v d, (c, Under-registers live m' v d t'.1.1))))

    give_compared-Next :
        Covers T s64
        → (o : Option Bool) → OnRun (Next n (pc + 1) (typed T b ∷ live)) (give_compared pc m o)
    give_compared-Next c none = tt
    give_compared-Next c (some r) = give-Next s64 _ c

    compare_op-Next :
        (c : Cmp) (k : Operands)
        → Covers T s64
        → OnRun (Next n (pc + 1) (typed T b ∷ live)) (compare_op env c k pc m)
    unfolding compare_op
    compare_op-Next c Operands.any h = tt
    compare_op-Next c Operands.string h = OnRun-bind _ (estack_bx m) _ (λ bx _.
        OnRun-bind _ (estack_ax m) _ (λ ax _. give_compared-Next h (compare_strings env c bx ax)))
    compare_op-Next c Operands.star_glob h =
        OnRun-bind _ (estack_bx m) _
          (λ bx _. OnRun-bind _ (estack_ax m) _ (λ ax _. give-Next s64 _ h))
    compare_op-Next c Operands.s64 h = give-Next s64 _ h
    compare_op-Next c Operands.double h =
        OnRun-bind _ (estack_bx m) _
          (λ bx _. OnRun-bind _ (estack_ax m) _ (λ ax _. give-Next s64 _ h))
    compare_op-Next c Operands.double_s64 h =
        OnRun-bind _ (estack_bx m) _ (λ bx _. give-Next s64 _ h)
    compare_op-Next c Operands.s64_double h =
        OnRun-bind _ (estack_ax m) _ (λ ax _. give-Next s64 _ h)

    compare_by-Next :
        (c : Cmp) (o : Option Operands)
        → Covers T s64
        → OnRun (Next n (pc + 1) (typed T b ∷ live)) (compare_by env c pc m o)
    compare_by-Next c none h = tt
    compare_by-Next c (some k) h = compare_op-Next c k h

    pub compare-Next :
        (capture : Bool) (code : List ℕ) (c : Cmp) (k : Operands)
        → Covers T s64
        → OnRun (Next n (pc + 1) (typed T b ∷ live)) (exec env capture n code pc m (Op.compare c k))
    unfolding exec compare_any
    compare-Next capture code c Operands.any h = compare_by-Next c _ h
    compare-Next capture code c Operands.string h = compare_op-Next c _ h
    compare-Next capture code c Operands.star_glob h = compare_op-Next c _ h
    compare-Next capture code c Operands.s64 h = compare_op-Next c _ h
    compare-Next capture code c Operands.double h = compare_op-Next c _ h
    compare-Next capture code c Operands.double_s64 h = compare_op-Next c _ h
    compare-Next capture code c Operands.s64_double h = compare_op-Next c _ h

    give_bits-Next :
        Covers T u64
        → (o : Option ℕ) → OnRun (Next n (pc + 1) (typed T b ∷ live)) (give_bits pc m o)
    give_bits-Next c none = tt
    give_bits-Next c (some v) = give-Next u64 v c

    pub bitwise_op-Next :
        (o : Bitwise)
        → Covers T u64
        → OnRun (Next n (pc + 1) (typed T b ∷ live)) (bitwise_op o pc m)
    unfolding bitwise_op
    bitwise_op-Next o c =
        OnRun-if _ (is_integer m.ax_t && is_integer m.bx_t) _ _
          (λ _. give_bits-Next c (bitwise_of o m.bx m.ax)) (λ _. tt)

  -- Operations on the top.
  module _ (x : VEntry) (live : List VEntry) (t : IsTyped n (x ∷ live) m) where
    pub with_ax-Next :
        (T d : EntryType) (v : ℕ)
        → Covers T d
        → OnRun (Next n (pc + 1) (typed T x ∷ live)) (with_ax d v pc m)
    with_ax-Next T d v c =
        (refl, (Holds-registers m t.0 v d, (c, Under-registers live m v d t.1.1)))

    pub same-Next :
        (T : EntryType) → Covers T m.ax_t → Next n (pc + 1) (typed T x ∷ live) (pc + 1) m
    same-Next T c = (refl, (t.0, (c, t.1.1)))

    pub unary_s64-Next :
        (T : EntryType) (o : Unary)
        → Covers T m.ax_t
        → Covers T s64
        → OnRun (Next n (pc + 1) (typed T x ∷ live)) (unary_s64 o pc m)
    unfolding unary_s64
    unary_s64-Next T Unary.plus c h = same-Next T c
    unary_s64-Next T Unary.minus c h = with_ax-Next T m.ax_t _ c
    unary_s64-Next T Unary.not c h = with_ax-Next T s64 _ h

    -- The negation of a double leaves an integer.
    pub unary_double-Next :
        (T : EntryType) (o : Unary)
        → Covers T m.ax_t
        → (o ≡ Unary.not → Covers T s64)
        → OnRun (Next n (pc + 1) (typed T x ∷ live)) (unary_double env o pc m)
    unfolding unary_double
    unary_double-Next T Unary.plus c h = same-Next T c
    unary_double-Next T Unary.minus c h = OnRun-bind _ (estack_ax m) _ (λ y _. (
      refl,
      (Holds-memory m t.0 m.ax m.ax_t _, (c, Under-set_ax live m _ (omega (arith, t.0.top)) t.1.1)),
    ))
    unary_double-Next T Unary.not c h =
        OnRun-bind _ (estack_ax m) _ (λ y _. with_ax-Next T s64 _ (h refl))

    pub unary_by-Next :
        (o : Unary) (d : EntryType)
        → OnRun (Next n (pc + 1) (typed unknown x ∷ live)) (unary_by env o pc m d)
    unary_by-Next o s64 = unary_s64-Next unknown o any any
    unary_by-Next o u64 = unary_s64-Next unknown o any any
    unary_by-Next o double = unary_double-Next unknown o any (λ _. any)
    unary_by-Next o string = tt
    unary_by-Next o star_glob_string = tt
    unary_by-Next o unknown = tt
    unary_by-Next o ptr = tt

    pub double_to_s64-Next :
        OnRun (Next n (pc + 1) (typed s64 x ∷ live)) (double_to_s64_op env pc m)
    unfolding double_to_s64_op
    double_to_s64-Next = OnRun-bind _ (estack_ax m) _ (λ y _. with_ax-Next s64 s64 _ s64_s64)

    pub cast_by-Next :
        (d : EntryType)
        → m.ax_t ≡ d
        → OnRun (Next n (pc + 1) (typed s64 x ∷ live)) (cast_by env pc m d)
    cast_by-Next s64 e = (refl, (t.0, (subst (Covers s64) (sym e) s64_s64, t.1.1)))
    cast_by-Next double e = double_to_s64-Next
    cast_by-Next u64 e = tt
    cast_by-Next string e = tt
    cast_by-Next star_glob_string e = tt
    cast_by-Next unknown e = tt
    cast_by-Next ptr e = tt
