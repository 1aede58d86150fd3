-- ===== src/Bytecode/Safety/Ops.antt =====
-- The other operations of the interpreter, on a machine of which the stack's height is known.
use lttng_ust.Common.{
  ℕ, suc, ◌+◌, ◌<◌, ◌⊎◌, inl, inr, not, ◌==◌, ◌&&◌, refl, arith, Option, some, none, Bool, List,
}
use lttng_ust.Bytecode.{
  EntryType, s64, u64, double, string, star_glob_string, unknown, ptr, Operand, Operands, Unary,
  Bitwise, Cmp, number_at,
}
use lttng_ust.Bytecode.Interpreter.Machine.{
  Entry, Machine, Env, Outcome, estack_ax, estack_bx, ◌>>=◌,
}
use lttng_ust.Bytecode.Interpreter.Compare.{
  give, give_compared, compare_op, compare_by, compare_any, compare_strings, operands_of,
  is_integer,
}
use lttng_ust.Bytecode.Interpreter.Arith.{
  give_bits, bitwise_op, bitwise_of, unary_s64, unary_double, unary_by, unary_op, bit_not_op,
  logical, and_op, or_op, captured, return_by, return_op,
}
use lttng_ust.Bytecode.Safety.Stack.{
  Post, reads_over, fails, ends, goes_on, Holds, At, Post-pop, Post-ax, Post-bx, Post-if,
  Holds-registers, Holds-memory,
}

-- Operations on the two entries at the top.
module _ (env : Env) {n h : ℕ} (m : Machine) (at : Holds n (suc (suc h)) m) (inside : h + 3 < n)
    (pc : ℕ) where
  give-Post : (t : EntryType) (v : ℕ) → Post (At n (pc + 1) (suc h)) (give t v pc m)
  give-Post t v =
      Post-pop m _ at (omega arith) (λ m' at'. goes_on (refl, Holds-registers m' at' v t))

  in_ax :
      {P : ℕ → Machine → Type 0} (f : Entry → Outcome)
      → ((x : Entry) → Post P (f x))
      → Post P (estack_ax m >>= f)
  in_ax f = Post-ax m at f (omega arith) (omega arith)

  in_bx :
      {P : ℕ → Machine → Type 0} (f : Entry → Outcome)
      → ((x : Entry) → Post P (f x))
      → Post P (estack_bx m >>= f)
  in_bx f = Post-bx m at f (omega arith) (omega arith)

  give_compared-Post : (r : Option Bool) → Post (At n (pc + 1) (suc h)) (give_compared pc m r)
  give_compared-Post none = reads_over
  give_compared-Post (some r) = give-Post _ _

  pub compare_op-Post :
      (c : Cmp) (k : Operands) → Post (At n (pc + 1) (suc h)) (compare_op env c k pc m)
  unfolding compare_op
  compare_op-Post c Operands.any = fails
  compare_op-Post c Operands.string =
      in_bx _ (λ bx. in_ax _ (λ ax. give_compared-Post (compare_strings env c bx ax)))
  compare_op-Post c Operands.star_glob = in_bx _ (λ bx. in_ax _ (λ ax. give-Post _ _))
  compare_op-Post c Operands.s64 = give-Post _ _
  compare_op-Post c Operands.double = in_bx _ (λ bx. in_ax _ (λ ax. give-Post _ _))
  compare_op-Post c Operands.double_s64 = in_bx _ (λ bx. give-Post _ _)
  compare_op-Post c Operands.s64_double = in_ax _ (λ ax. give-Post _ _)

  compare_by-Post :
      (c : Cmp) (o : Option Operands) → Post (At n (pc + 1) (suc h)) (compare_by env c pc m o)
  compare_by-Post c none = fails
  compare_by-Post c (some k) = compare_op-Post c k

  pub compare_any-Post : (c : Cmp) → Post (At n (pc + 1) (suc h)) (compare_any env c pc m)
  unfolding compare_any
  compare_any-Post c = compare_by-Post c (operands_of c m.ax_t m.bx_t)

  give_bits-Post : (o : Option ℕ) → Post (At n (pc + 1) (suc h)) (give_bits pc m o)
  give_bits-Post none = fails
  give_bits-Post (some v) = give-Post _ _

  pub bitwise_op-Post : (o : Bitwise) → Post (At n (pc + 1) (suc h)) (bitwise_op o pc m)
  unfolding bitwise_op
  bitwise_op-Post o =
      Post-if (is_integer m.ax_t && is_integer m.bx_t) (give_bits-Post (bitwise_of o m.bx m.ax))
        fails

-- Operations on the entry at the top.
module _ (env : Env) {n h : ℕ} (m : Machine) (at : Holds n (suc h) m) (inside : h + 2 < n)
    (pc : ℕ) where
  unary_s64-Post : (o : Unary) → Post (At n (pc + 1) (suc h)) (unary_s64 o pc m)
  unfolding unary_s64
  unary_s64-Post Unary.plus = goes_on (refl, at)
  unary_s64-Post Unary.minus = goes_on (refl, Holds-registers m at _ _)
  unary_s64-Post Unary.not = goes_on (refl, Holds-registers m at _ _)

  unary_double-Post : (o : Unary) → Post (At n (pc + 1) (suc h)) (unary_double env o pc m)
  unfolding unary_double
  unary_double-Post Unary.plus = goes_on (refl, at)
  unary_double-Post Unary.minus =
      Post-ax m at _ (omega arith) (omega arith) (λ x. goes_on (refl, Holds-memory m at _ _ _))
  unary_double-Post Unary.not =
      Post-ax m at _ (omega arith) (omega arith) (λ x. goes_on (refl, Holds-registers m at _ _))

  unary_by-Post : (o : Unary) (t : EntryType) → Post (At n (pc + 1) (suc h)) (unary_by env o pc m t)
  unary_by-Post o s64 = unary_s64-Post o
  unary_by-Post o u64 = unary_s64-Post o
  unary_by-Post o double = unary_double-Post o
  unary_by-Post o string = fails
  unary_by-Post o star_glob_string = fails
  unary_by-Post o unknown = fails
  unary_by-Post o ptr = fails

  pub unary_op-Post :
      (o : Unary) (k : Operand) → Post (At n (pc + 1) (suc h)) (unary_op env o k pc m)
  unfolding unary_op
  unary_op-Post o Operand.any = unary_by-Post o m.ax_t
  unary_op-Post o Operand.s64 = unary_s64-Post o
  unary_op-Post o Operand.double = unary_double-Post o

  pub bit_not_op-Post : Post (At n (pc + 1) (suc h)) (bit_not_op pc m)
  unfolding bit_not_op
  bit_not_op-Post = Post-if (is_integer m.ax_t) (goes_on (refl, Holds-registers m at _ _)) fails

-- A logical operation goes on with a lower stack, or at its target with the same.
abbrev pub Forks : ℕ → List ℕ → ℕ → ℕ → ℕ → ℕ → Machine → Type 0
Forks n code pc size h q m = At n (pc + size) h q m ⊎ At n (number_at 2 code (pc + 1)) (suc h) q m

module _ {n h : ℕ} (m : Machine) (at : Holds n (suc h) m) (inside : h + 2 < n) (code : List ℕ)
    (pc : ℕ) where
  logical-Post :
      (jump : Bool) (jumped : ℕ) → Post (Forks n code pc 3 h) (logical code pc jump jumped m)
  logical-Post jump jumped =
      Post-if (is_integer m.ax_t)
        (Post-if jump (goes_on (inr (refl, Holds-registers m at jumped m.ax_t)))
          (Post-pop m _ at (omega arith) (λ m' at'. goes_on (inl (refl, at')))))
        fails

  pub and_op-Post : Post (Forks n code pc 3 h) (and_op code pc m)
  unfolding and_op
  and_op-Post = logical-Post (m.ax == 0) 0

  pub or_op-Post : Post (Forks n code pc 3 h) (or_op code pc m)
  unfolding or_op
  or_op-Post = logical-Post (not (m.ax == 0)) 1

captured-Post :
    (P : ℕ → Machine → Type 0) (capture : Bool) (m : Machine) → Post P (captured capture m)
captured-Post P capture m = Post-if capture ends fails

module _ (P : ℕ → Machine → Type 0) (capture : Bool) (m : Machine) where
  return_by-Post : (t : EntryType) → Post P (return_by capture m t)
  return_by-Post s64 = ends
  return_by-Post u64 = ends
  return_by-Post double = captured-Post P capture m
  return_by-Post string = captured-Post P capture m
  return_by-Post ptr = captured-Post P capture m
  return_by-Post star_glob_string = fails
  return_by-Post unknown = fails

  pub return_op-Post : Post P (return_op capture m)
  unfolding return_op
  return_op-Post = return_by-Post m.ax_t
