-- ===== src/Bytecode/Specializer/Held.antt =====
-- The static types of the specializer hold of the interpreter's stack from one instruction to the next.
use lttng_ust.Common.{ℕ, ◌<◌, ◌≡◌, refl, arith, true, false, Bool, length, some}
use lttng_ust.Bytecode.{
  Op, Cmp, Operands, Unary, Operand, Ref, s64, double, string, star_glob_string, op_at, size_of,
}
use lttng_ust.Bytecode.Interpreter.Machine.{Machine, Env}
use lttng_ust.Bytecode.Interpreter.Run.{exec}
use lttng_ust.Bytecode.Specializer.Lookup.{Event}
use lttng_ust.Bytecode.Specializer.Insn.{State, typed}
use lttng_ust.Bytecode.Specializer.Run.{unary_choice, cast_choice, as_is, at_root, specialize_insn}
use lttng_ust.Bytecode.Specializer.Moves.{After}
use lttng_ust.Bytecode.Specializer.Choices.{
  s64_s64, s64_u64, double_double, string_string, glob_glob, ptr_ptr,
}
use lttng_ust.Bytecode.Specializer.Typed.{IsTyped}
use lttng_ust.Bytecode.Specializer.Steps.{compare-Next, bitwise_op-Next, double_to_s64-Next}
use lttng_ust.Bytecode.Specializer.Pushes.{
  push_s64-Next, push_double-Next, push_string-Next, root_op-Next, field_ref_op-Next,
  context_ref_op-Next,
}
use lttng_ust.Bytecode.Specializer.Leads.{
  LeadsTo, specialize_compare-Leads, pop_typed-Leads, on_top-Leads, push-Leads,
}
use lttng_ust.Bytecode.Specializer.Single.{
  return-Leads, return_s64-Leads, unary-Retypes, cast-Retypes, bit_not-Next,
}

-- The instructions of which the pass knows what they leave: they do not jump, they are not for types
-- known before, and they traverse nothing. Not among them are `<=` and the negation, whose results the
-- pass does not follow.
abbrev pub is_tracked : Op → Bool
is_tracked Op.return = true
is_tracked Op.return_s64 = true
is_tracked (Op.compare Cmp.le Operands.any) = false
is_tracked (Op.compare _ _) = true
is_tracked (Op.bitwise _) = true
is_tracked (Op.unary Unary.plus Operand.any) = true
is_tracked (Op.unary Unary.minus Operand.any) = true
is_tracked Op.unary_bit_not = true
is_tracked (Op.load_field_ref _) = true
is_tracked (Op.get_context_ref _) = true
is_tracked Op.load_string = true
is_tracked Op.load_star_glob_string = true
is_tracked Op.load_s64 = true
is_tracked Op.load_double = true
is_tracked Op.cast_to_s64 = true
is_tracked Op.cast_double_to_s64 = true
is_tracked Op.cast_nop = true
is_tracked (Op.get_root _) = true
is_tracked _ = false

module _ (env : Env) (capture : Bool) (n pc : ℕ) (m : Machine) where
  -- Let the interpreter's stack be as high as the static one, whose types cover those of its entries,
  -- and let an instruction stand at the offset that neither jumps, nor traverses composed types, nor is
  -- a unary operation or a load for a type known before, nor is `<=` or a negation. Where the
  -- specializer goes on behind it, an instruction stands there again; where the machine goes on after that, it goes on at the next
  -- instruction, and its stack is as high as the new static one, whose types cover those of its entries.
  pub specialize_insn-Leads :
      (ev : Event) (s : State) (op : Op)
      → op_at s.code pc ≡ some op
      → pc < length s.code
      → is_tracked op ≡ true
      → IsTyped n s.stack.live m
      → After (LeadsTo env capture n pc m (size_of s.code pc op)) (specialize_insn ev s pc op)
  unfolding specialize_insn size_of exec
  specialize_insn-Leads ev s Op.return e i h t = return-Leads env capture n pc m s s.stack.live e i
  specialize_insn-Leads ev s Op.return_s64 e i h t =
      return_s64-Leads env capture n pc m s s.stack.live e
  specialize_insn-Leads ev s (Op.compare Cmp.eq Operands.any) e i h t =
      specialize_compare-Leads env capture n pc m Cmp.eq (λ is. ground arith) s s.stack.live t e i
  specialize_insn-Leads ev s (Op.compare Cmp.ne Operands.any) e i h t =
      specialize_compare-Leads env capture n pc m Cmp.ne (λ is. ground arith) s s.stack.live t e i
  specialize_insn-Leads ev s (Op.compare Cmp.gt Operands.any) e i h t =
      specialize_compare-Leads env capture n pc m Cmp.gt (λ is. ground arith) s s.stack.live t e i
  specialize_insn-Leads ev s (Op.compare Cmp.lt Operands.any) e i h t =
      specialize_compare-Leads env capture n pc m Cmp.lt (λ is. ground arith) s s.stack.live t e i
  specialize_insn-Leads ev s (Op.compare Cmp.ge Operands.any) e i h t =
      specialize_compare-Leads env capture n pc m Cmp.ge (λ is. ground arith) s s.stack.live t e i
  specialize_insn-Leads ev s (Op.compare Cmp.le Operands.any) e i h t = ground arith
  specialize_insn-Leads ev s (Op.compare c Operands.string) e i h t =
      pop_typed-Leads env capture n pc m s _ s.stack.live e
        (λ a b rest u.
          compare-Next env n pc m a b rest u s64 capture s.code c Operands.string s64_s64)
        t
  specialize_insn-Leads ev s (Op.compare c Operands.star_glob) e i h t =
      pop_typed-Leads env capture n pc m s _ s.stack.live e
        (λ a b rest u.
          compare-Next env n pc m a b rest u s64 capture s.code c Operands.star_glob s64_s64)
        t
  specialize_insn-Leads ev s (Op.compare c Operands.s64) e i h t =
      pop_typed-Leads env capture n pc m s _ s.stack.live e
        (λ a b rest u. compare-Next env n pc m a b rest u s64 capture s.code c Operands.s64 s64_s64)
        t
  specialize_insn-Leads ev s (Op.compare c Operands.double) e i h t =
      pop_typed-Leads env capture n pc m s _ s.stack.live e
        (λ a b rest u.
          compare-Next env n pc m a b rest u s64 capture s.code c Operands.double s64_s64)
        t
  specialize_insn-Leads ev s (Op.compare c Operands.double_s64) e i h t =
      pop_typed-Leads env capture n pc m s _ s.stack.live e
        (λ a b rest u.
          compare-Next env n pc m a b rest u s64 capture s.code c Operands.double_s64 s64_s64)
        t
  specialize_insn-Leads ev s (Op.compare c Operands.s64_double) e i h t =
      pop_typed-Leads env capture n pc m s _ s.stack.live e
        (λ a b rest u.
          compare-Next env n pc m a b rest u s64 capture s.code c Operands.s64_double s64_s64)
        t
  specialize_insn-Leads ev s (Op.bitwise o) e i h t =
      pop_typed-Leads env capture n pc m s _ s.stack.live e
        (λ a b rest u. bitwise_op-Next env n pc m a b rest u s64 o s64_u64) t
  specialize_insn-Leads ev s (Op.unary Unary.plus Operand.any) e i h t =
      on_top-Leads env capture n pc m s _ (λ x. unary_choice Unary.plus x.type) s.stack.live e i
        (λ x rest u.
          unary-Retypes env capture n pc m s Unary.plus x rest (λ is. ground arith) u x.type refl)
        t
  specialize_insn-Leads ev s (Op.unary Unary.minus Operand.any) e i h t =
      on_top-Leads env capture n pc m s _ (λ x. unary_choice Unary.minus x.type) s.stack.live e i
        (λ x rest u.
          unary-Retypes env capture n pc m s Unary.minus x rest (λ is. ground arith) u x.type refl)
        t
  specialize_insn-Leads ev s (Op.unary Unary.not Operand.any) e i h t = ground arith
  specialize_insn-Leads ev s (Op.unary Unary.plus Operand.s64) e i h t = ground arith
  specialize_insn-Leads ev s (Op.unary Unary.plus Operand.double) e i h t = ground arith
  specialize_insn-Leads ev s (Op.unary Unary.minus Operand.s64) e i h t = ground arith
  specialize_insn-Leads ev s (Op.unary Unary.minus Operand.double) e i h t = ground arith
  specialize_insn-Leads ev s (Op.unary Unary.not Operand.s64) e i h t = ground arith
  specialize_insn-Leads ev s (Op.unary Unary.not Operand.double) e i h t = ground arith
  specialize_insn-Leads ev s Op.unary_bit_not e i h t =
      (Op.unary_bit_not, e, bit_not-Next env capture n pc m s.stack.live t)
  specialize_insn-Leads ev s Op.unsupported e i h t = ground arith
  specialize_insn-Leads ev s Op.logical_and e i h t = ground arith
  specialize_insn-Leads ev s Op.logical_or e i h t = ground arith
  specialize_insn-Leads ev s Op.load_field e i h t = ground arith
  specialize_insn-Leads ev s Op.get_symbol e i h t = ground arith
  specialize_insn-Leads ev s Op.get_symbol_field e i h t = ground arith
  specialize_insn-Leads ev s Op.get_index_u16 e i h t = ground arith
  specialize_insn-Leads ev s Op.get_index_u64 e i h t = ground arith
  specialize_insn-Leads ev s (Op.load_field_sized w) e i h t = ground arith
  specialize_insn-Leads ev s (Op.load_field_ref Ref.untyped) e i h t = tt
  specialize_insn-Leads ev s (Op.load_field_ref Ref.string) e i h t =
      push-Leads env capture n pc m s _ 3 _ e
        (λ x. field_ref_op-Next env n pc m s.stack.live t x Ref.string _ _)
  specialize_insn-Leads ev s (Op.load_field_ref Ref.sequence) e i h t =
      push-Leads env capture n pc m s _ 3 _ e
        (λ x. field_ref_op-Next env n pc m s.stack.live t x Ref.sequence _ _)
  specialize_insn-Leads ev s (Op.load_field_ref Ref.s64) e i h t =
      push-Leads env capture n pc m s _ 3 _ e
        (λ x. field_ref_op-Next env n pc m s.stack.live t x Ref.s64 _ _)
  specialize_insn-Leads ev s (Op.load_field_ref Ref.double) e i h t =
      push-Leads env capture n pc m s _ 3 _ e
        (λ x. field_ref_op-Next env n pc m s.stack.live t x Ref.double _ _)
  specialize_insn-Leads ev s (Op.get_context_ref Ref.sequence) e i h t = tt
  specialize_insn-Leads ev s (Op.get_context_ref Ref.untyped) e i h t =
      push-Leads env capture n pc m s _ 3 _ e
        (λ x. context_ref_op-Next env n pc m s.stack.live t x Ref.untyped _ _)
  specialize_insn-Leads ev s (Op.get_context_ref Ref.string) e i h t =
      push-Leads env capture n pc m s _ 3 _ e
        (λ x. context_ref_op-Next env n pc m s.stack.live t x Ref.string _ _)
  specialize_insn-Leads ev s (Op.get_context_ref Ref.s64) e i h t =
      push-Leads env capture n pc m s _ 3 _ e
        (λ x. context_ref_op-Next env n pc m s.stack.live t x Ref.s64 _ _)
  specialize_insn-Leads ev s (Op.get_context_ref Ref.double) e i h t =
      push-Leads env capture n pc m s _ 3 _ e
        (λ x. context_ref_op-Next env n pc m s.stack.live t x Ref.double _ _)
  specialize_insn-Leads ev s Op.load_string e i h t =
      push-Leads env capture n pc m s _ _ _ e
        (λ x. push_string-Next env n pc m s.stack.live t (typed string x) _ _ _ _ _ string_string)
  specialize_insn-Leads ev s Op.load_star_glob_string e i h t =
      push-Leads env capture n pc m s _ _ _ e (λ x.
        push_string-Next env n pc m s.stack.live t (typed star_glob_string x) _ _ _ _ _ glob_glob)
  specialize_insn-Leads ev s Op.load_s64 e i h t =
      push-Leads env capture n pc m s _ 9 _ e
        (λ x. push_s64-Next env n pc m s.stack.live t (typed s64 x) _ _ s64_s64)
  specialize_insn-Leads ev s Op.load_double e i h t =
      push-Leads env capture n pc m s _ 9 _ e
        (λ x. push_double-Next env n pc m s.stack.live t (typed double x) _ _ double_double)
  specialize_insn-Leads ev s (Op.get_root r) e i h t =
      push-Leads env capture n pc m s _ 1 _ e
        (λ x. root_op-Next env n pc m s.stack.live t (at_root r x) r ptr_ptr)
  specialize_insn-Leads ev s Op.cast_to_s64 e i h t =
      on_top-Leads env capture n pc m s _ (λ x. cast_choice x.type) s.stack.live e i
        (λ x rest u. cast-Retypes env capture n pc m s x rest u x.type refl) t
  specialize_insn-Leads ev s Op.cast_double_to_s64 e i h t =
      on_top-Leads env capture n pc m s _ (as_is s64) s.stack.live e i
        (λ x rest u. double_to_s64-Next env n pc m x rest u) t
  specialize_insn-Leads ev s Op.cast_nop e i h t = (Op.cast_nop, e, (refl, t))
