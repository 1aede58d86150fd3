-- ===== src/Bytecode/Safety/Agree.antt =====
-- An instruction of the interpreter does to the height of the stack what the validator says.
use lttng_ust.Common.{
  ℕ, suc, ◌+◌, ◌≤◌, ◌<◌, ◌≡◌, leb, if◌then◌else◌, refl, arith, Option, some, none, Bool, true,
  false, List, [], ◌∷◌, length,
}
use lttng_ust.Bytecode.{
  Op, EntryType, s64, u64, double, string, star_glob_string, unknown, ptr, Operands, Cmp, Ref,
  size_of,
}
use lttng_ust.Bytecode.Validator.Exec.{
  Exec, failed, stop, next, branch, push, replaced, replace, combine, not_ptr, exec_logical,
  exec_return, exec_return_s64, end_with, exec_insn,
}
use lttng_ust.Bytecode.Interpreter.Machine.{Machine, Env, Outcome}
use lttng_ust.Bytecode.Interpreter.Run.{exec}
use lttng_ust.Bytecode.Safety.Stack.{Post, fails, ends, goes_on, Holds, At}
use lttng_ust.Bytecode.Safety.Loads.{
  push_string-Post, push_s64-Post, push_double-Post, field_ref_op-Post, context_ref_op-Post,
  root_op-Post, double_to_s64_op-Post, cast_op-Post, symbol_op-Post, entry_op-Post, sized_op-Post,
}
use lttng_ust.Bytecode.Safety.Ops.{
  compare_op-Post, compare_any-Post, bitwise_op-Post, unary_op-Post, bit_not_op-Post, Forks,
  and_op-Post, or_op-Post, return_op-Post,
}

-- What may follow the instruction of `size` bytes at `pc`, by what the validator leaves.
abbrev pub Agrees : ℕ → List ℕ → ℕ → ℕ → Exec → Outcome → Type 0
Agrees n code pc size failed o = Unit
Agrees n code pc size stop o = Post (λ _ _. ⊥) o
Agrees n code pc size (next stack) o = Post (At n (pc + size) (length stack)) o
Agrees n code pc size (branch stack) o = Post (Forks n code pc size (length stack)) o

module _ (n : ℕ) (code : List ℕ) (pc : ℕ) (o : Outcome) where
  replaced-Agrees :
      (size : ℕ) (stack : List EntryType) (t : Option EntryType)
      → Post (At n (pc + size) (suc (length stack))) o
      → Agrees n code pc size (replaced stack t) o
  replaced-Agrees size stack none p = tt
  replaced-Agrees size stack (some b) p = p

  if-Agrees :
      (size : ℕ) (b : Bool) (e : Exec)
      → (b ≡ false → Agrees n code pc size e o)
      → Agrees n code pc size (if b then failed else e) o
  if-Agrees size true e p = tt
  if-Agrees size false e p = p refl

  return-Agrees :
      (size : ℕ) (stack : List EntryType)
      → Post (λ _ _. ⊥) o
      → Agrees n code pc size (end_with exec_return stack) o
  return-Agrees size [] p = tt
  return-Agrees size (s64 ∷ stack) p = p
  return-Agrees size (u64 ∷ stack) p = p
  return-Agrees size (double ∷ stack) p = p
  return-Agrees size (string ∷ stack) p = p
  return-Agrees size (star_glob_string ∷ stack) p = tt
  return-Agrees size (unknown ∷ stack) p = p
  return-Agrees size (ptr ∷ stack) p = p

  return_s64-Agrees :
      (size : ℕ) (stack : List EntryType)
      → Post (λ _ _. ⊥) o
      → Agrees n code pc size (end_with exec_return_s64 stack) o
  return_s64-Agrees size [] p = tt
  return_s64-Agrees size (s64 ∷ stack) p = p
  return_s64-Agrees size (u64 ∷ stack) p = p
  return_s64-Agrees size (double ∷ stack) p = tt
  return_s64-Agrees size (string ∷ stack) p = tt
  return_s64-Agrees size (star_glob_string ∷ stack) p = tt
  return_s64-Agrees size (unknown ∷ stack) p = tt
  return_s64-Agrees size (ptr ∷ stack) p = tt

module _ (n len : ℕ) (room : len + 2 ≤ n) (code : List ℕ) (pc : ℕ) (m : Machine) (o : Outcome) where
  push-Agrees :
      (size : ℕ) (t : EntryType) (stack : List EntryType)
      → (length stack + 2 < n → Post (At n (pc + size) (suc (length stack))) o)
      → Agrees n code pc size (push len t stack) o
  push-Agrees size t stack p =
      if-Agrees n code pc o size (leb len (length stack)) (next (t ∷ stack)) (λ e. p (ground arith))

  replace-Agrees :
      (size : ℕ) (f : EntryType → Option EntryType) (stack : List EntryType)
      → Holds n (length stack) m
      → length stack ≤ len
      → ((h : ℕ) → Holds n (suc h) m → h + 2 < n → Post (At n (pc + size) (suc h)) o)
      → Agrees n code pc size (replace f stack) o
  replace-Agrees size f [] at le p = tt
  replace-Agrees size f (a ∷ stack) at le p =
      replaced-Agrees n code pc o size stack (f a) (p (length stack) at (omega arith))

  combine-Agrees :
      (t : EntryType) (stack : List EntryType)
      → Holds n (length stack) m
      → length stack ≤ len
      → ((h : ℕ) → Holds n (suc (suc h)) m → h + 3 < n → Post (At n (pc + 1) (suc h)) o)
      → Agrees n code pc 1 (combine t stack) o
  combine-Agrees t [] at le p = tt
  combine-Agrees t (a ∷ []) at le p = tt
  combine-Agrees t (a ∷ b ∷ stack) at le p =
      replaced-Agrees n code pc o 1 stack (not_ptr t b) (p (length stack) at (omega arith))

  exec_logical-Agrees :
      (size : ℕ) (stack : List EntryType)
      → Holds n (length stack) m
      → length stack ≤ len
      → ((h : ℕ) → Holds n (suc h) m → h + 2 < n → Post (Forks n code pc size h) o)
      → Agrees n code pc size (exec_logical stack) o
  exec_logical-Agrees size [] at le p = tt
  exec_logical-Agrees size (s64 ∷ stack) at le p = p (length stack) at (omega arith)
  exec_logical-Agrees size (u64 ∷ stack) at le p = p (length stack) at (omega arith)
  exec_logical-Agrees size (double ∷ stack) at le p = tt
  exec_logical-Agrees size (string ∷ stack) at le p = tt
  exec_logical-Agrees size (star_glob_string ∷ stack) at le p = tt
  exec_logical-Agrees size (unknown ∷ stack) at le p = tt
  exec_logical-Agrees size (ptr ∷ stack) at le p = tt

module _ (env : Env) (capture : Bool) (n len : ℕ) (room : len + 2 ≤ n) (code : List ℕ) (pc : ℕ)
    (m : Machine) where
  module _ (stack : List EntryType) (at : Holds n (length stack) m) (le : length stack ≤ len) where
    pushes :
        (size : ℕ) (t : EntryType) (o : Outcome)
        → (length stack + 2 < n → Post (At n (pc + size) (suc (length stack))) o)
        → Agrees n code pc size (push len t stack) o
    pushes size t o p = push-Agrees n len room code pc m o size t stack p

    replaces :
        (size : ℕ) (f : EntryType → Option EntryType) (o : Outcome)
        → ((h : ℕ) → Holds n (suc h) m → h + 2 < n → Post (At n (pc + size) (suc h)) o)
        → Agrees n code pc size (replace f stack) o
    replaces size f o p = replace-Agrees n len room code pc m o size f stack at le p

    combines :
        (t : EntryType) (o : Outcome)
        → ((h : ℕ) → Holds n (suc (suc h)) m → h + 3 < n → Post (At n (pc + 1) (suc h)) o)
        → Agrees n code pc 1 (combine t stack) o
    combines t o p = combine-Agrees n len room code pc m o t stack at le p

    compare-Agrees :
        (c : Cmp) (k : Operands)
        → Agrees n code pc 1 (combine s64 stack) (exec env capture n code pc m (Op.compare c k))
    unfolding exec
    compare-Agrees c Operands.any = combines _ _ (λ h a i. compare_any-Post env m a i pc c)
    compare-Agrees c Operands.string = combines _ _ (λ h a i. compare_op-Post env m a i pc c _)
    compare-Agrees c Operands.star_glob = combines _ _ (λ h a i. compare_op-Post env m a i pc c _)
    compare-Agrees c Operands.s64 = combines _ _ (λ h a i. compare_op-Post env m a i pc c _)
    compare-Agrees c Operands.double = combines _ _ (λ h a i. compare_op-Post env m a i pc c _)
    compare-Agrees c Operands.double_s64 = combines _ _ (λ h a i. compare_op-Post env m a i pc c _)
    compare-Agrees c Operands.s64_double = combines _ _ (λ h a i. compare_op-Post env m a i pc c _)

    field_ref-Agrees :
        (r : Ref)
        → Agrees n code pc 3
            (exec_insn len stack (Op.load_field_ref r))
            (exec env capture n code pc m (Op.load_field_ref r))
    unfolding exec exec_insn
    field_ref-Agrees Ref.untyped = tt
    field_ref-Agrees Ref.string = pushes 3 _ _ (λ i. field_ref_op-Post env m at i _ _ _)
    field_ref-Agrees Ref.sequence = pushes 3 _ _ (λ i. field_ref_op-Post env m at i _ _ _)
    field_ref-Agrees Ref.s64 = pushes 3 _ _ (λ i. field_ref_op-Post env m at i _ _ _)
    field_ref-Agrees Ref.double = pushes 3 _ _ (λ i. field_ref_op-Post env m at i _ _ _)

    pub exec-Agrees :
        (op : Op)
        → Agrees n code pc
            (size_of code pc op)
            (exec_insn len stack op)
            (exec env capture n code pc m op)
    unfolding exec exec_insn size_of
    exec-Agrees Op.return = return-Agrees n code pc _ 1 stack (return_op-Post _ capture m)
    exec-Agrees Op.return_s64 = return_s64-Agrees n code pc _ 1 stack ends
    exec-Agrees Op.unsupported = tt
    exec-Agrees (Op.compare c k) = compare-Agrees c k
    exec-Agrees (Op.bitwise o) = combines u64 _ (λ h a i. bitwise_op-Post env m a i pc o)
    exec-Agrees (Op.unary o k) = replaces 1 _ _ (λ h a i. unary_op-Post env m a i pc o k)
    exec-Agrees Op.unary_bit_not = replaces 1 _ _ (λ h a i. bit_not_op-Post env m a i pc)
    exec-Agrees Op.logical_and =
        exec_logical-Agrees n len room code pc m _ 3 stack at le
          (λ h a i. and_op-Post m a i code pc)
    exec-Agrees Op.logical_or =
        exec_logical-Agrees n len room code pc m _ 3 stack at le (λ h a i. or_op-Post m a i code pc)
    exec-Agrees (Op.load_field_ref r) = field_ref-Agrees r
    exec-Agrees (Op.get_context_ref r) = pushes 3 _ _ (λ i. context_ref_op-Post env m at i _ r _)
    exec-Agrees Op.load_string = pushes _ _ _ (λ i. push_string-Post env m at i _ _ _ _ _)
    exec-Agrees Op.load_star_glob_string = pushes _ _ _ (λ i. push_string-Post env m at i _ _ _ _ _)
    exec-Agrees Op.load_s64 = pushes 9 _ _ (λ i. push_s64-Post env m at i _ _)
    exec-Agrees Op.load_double = pushes 9 _ _ (λ i. push_double-Post env m at i _ _)
    exec-Agrees Op.cast_to_s64 = replaces 1 _ _ (λ h a i. cast_op-Post env m a i pc)
    exec-Agrees Op.cast_double_to_s64 = replaces 1 _ _ (λ h a i. double_to_s64_op-Post env m a i pc)
    exec-Agrees Op.cast_nop = goes_on (refl, at)
    exec-Agrees (Op.get_root r) = pushes 1 _ _ (λ i. root_op-Post env m at i pc r)
    exec-Agrees Op.get_symbol = replaces 3 _ _ (λ h a i. symbol_op-Post env m a i pc)
    exec-Agrees Op.get_symbol_field = replaces 3 _ _ (λ h a i. fails)
    exec-Agrees Op.get_index_u16 = replaces 3 _ _ (λ h a i. entry_op-Post env m a i _ _)
    exec-Agrees Op.get_index_u64 = replaces 9 _ _ (λ h a i. entry_op-Post env m a i _ _)
    exec-Agrees Op.load_field = replaces 1 _ _ (λ h a i. entry_op-Post env m a i _ _)
    exec-Agrees (Op.load_field_sized w) = replaces 1 _ _ (λ h a i. sized_op-Post env m a i pc w)
