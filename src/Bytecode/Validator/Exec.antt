-- ===== src/Bytecode/Validator/Exec.antt =====
-- What an instruction leaves on the validation stack (`exec_insn`), the merge points, and the two
-- passes over a program.
use lttng_ust.Common.{
  ℕ, zero, suc, ◌+◌, Bool, true, false, not, ◌&&◌, List, [], ◌∷◌, ◌==◌, leb, if◌then◌else◌, length,
  Option, some, none,
}
use lttng_ust.Bytecode.{
  Op, Ref, Width, Unary, Operand, EntryType, op_at, with_op, number_at, size_of, s64, u64, double,
  string, star_glob_string, unknown, ptr,
}
use lttng_ust.Bytecode.Validator.Table.{Table}
use lttng_ust.Bytecode.Validator.Context.{
  Program, bytecode_validate_overflow, validate_instruction_context,
}

abbrev same_type : EntryType → EntryType → Bool
same_type s64 s64 = true
same_type u64 u64 = true
same_type double double = true
same_type string string = true
same_type star_glob_string star_glob_string = true
same_type ptr ptr = true
same_type unknown _ = true
same_type _ unknown = true
same_type _ _ = false

-- The stacks have as many entries, and where both types are known they are the same. True is the
-- code's 0.
unfoldable pub merge_points_compare : List EntryType → List EntryType → Bool
merge_points_compare [] [] = true
merge_points_compare (a ∷ s) (b ∷ t) = same_type a b && merge_points_compare s t
merge_points_compare _ _ = false

-- What an instruction does to the stack: an error, the program's end, or the next stack. The merge
-- point of a logical operation keeps the stack from before.
pub data Exec : Type 0 where
  failed : Exec
  stop : Exec
  next : List EntryType → Exec
  branch : List EntryType → Exec

-- `vstack_push`, for a stack of the given length, and the type set at the top.
abbrev pub push : ℕ → EntryType → List EntryType → Exec
push stack_len a stack = if leb stack_len (length stack) then failed else next (a ∷ stack)

-- The top replaced, after a test of its type.
abbrev pub replaced : List EntryType → Option EntryType → Exec
replaced stack none = failed
replaced stack (some b) = next (b ∷ stack)

abbrev pub replace : (EntryType → Option EntryType) → List EntryType → Exec
replace f [] = failed
replace f (a ∷ stack) = replaced stack (f a)

-- The top popped, and the entry below replaced.
abbrev pub not_ptr : EntryType → EntryType → Option EntryType
not_ptr b ptr = none
not_ptr b _ = some b

abbrev pub combine : EntryType → List EntryType → Exec
combine b [] = failed
combine b (_ ∷ stack) = replace (not_ptr b) stack

abbrev pub exec_return : EntryType → Exec
exec_return star_glob_string = failed
exec_return _ = stop

abbrev pub exec_return_s64 : EntryType → Exec
exec_return_s64 s64 = stop
exec_return_s64 u64 = stop
exec_return_s64 _ = failed

abbrev pub end_with : (EntryType → Exec) → List EntryType → Exec
end_with f [] = failed
end_with f (a ∷ _) = f a

abbrev unary_type : Unary → Operand → EntryType → Option EntryType
unary_type Unary.not Operand.any s64 = some s64
unary_type Unary.not Operand.any u64 = some u64
unary_type Unary.not Operand.any double = some double
unary_type Unary.not Operand.any unknown = some unknown
unary_type _ Operand.any s64 = some unknown
unary_type _ Operand.any u64 = some unknown
unary_type _ Operand.any double = some unknown
unary_type _ Operand.any unknown = some unknown
unary_type _ Operand.s64 s64 = some s64
unary_type _ Operand.s64 u64 = some u64
unary_type Unary.not Operand.double double = some s64
unary_type _ Operand.double double = some double
unary_type _ _ _ = none

abbrev bit_not_type : EntryType → Option EntryType
bit_not_type unknown = some u64
bit_not_type s64 = some u64
bit_not_type u64 = some u64
bit_not_type _ = none

-- A logical operation wants an integer, keeps the stack for its target, and pops.
abbrev pub exec_logical : List EntryType → Exec
exec_logical (s64 ∷ stack) = branch stack
exec_logical (u64 ∷ stack) = branch stack
exec_logical _ = failed

abbrev cast_type : EntryType → Option EntryType
cast_type s64 = some s64
cast_type u64 = some s64
cast_type double = some s64
cast_type unknown = some s64
cast_type _ = none

abbrev load_type : EntryType → EntryType → Option EntryType
load_type a ptr = some a
load_type a _ = none

abbrev ref_type : Ref → EntryType
ref_type Ref.untyped = unknown
ref_type Ref.string = string
ref_type Ref.sequence = string
ref_type Ref.s64 = s64
ref_type Ref.double = double

abbrev width_type : Width → EntryType
width_type Width.i8 = s64
width_type Width.i16 = s64
width_type Width.i32 = s64
width_type Width.i64 = s64
width_type Width.u8 = u64
width_type Width.u16 = u64
width_type Width.u32 = u64
width_type Width.u64 = u64
width_type Width.string = string
width_type Width.sequence = string
width_type Width.double = double

unfoldable pub exec_insn : ℕ → List EntryType → Op → Exec
exec_insn len stack Op.return = end_with exec_return stack
exec_insn len stack Op.return_s64 = end_with exec_return_s64 stack
exec_insn len stack Op.unsupported = failed
exec_insn len stack (Op.compare _ _) = combine s64 stack
exec_insn len stack (Op.bitwise _) = combine u64 stack
exec_insn len stack (Op.unary o k) = replace (unary_type o k) stack
exec_insn len stack Op.unary_bit_not = replace bit_not_type stack
exec_insn len stack Op.logical_and = exec_logical stack
exec_insn len stack Op.logical_or = exec_logical stack
exec_insn len stack (Op.load_field_ref Ref.untyped) = failed
exec_insn len stack (Op.load_field_ref r) = push len (ref_type r) stack
exec_insn len stack (Op.get_context_ref r) = push len (ref_type r) stack
exec_insn len stack Op.load_string = push len string stack
exec_insn len stack Op.load_star_glob_string = push len star_glob_string stack
exec_insn len stack Op.load_s64 = push len s64 stack
exec_insn len stack Op.load_double = push len double stack
exec_insn len stack Op.cast_to_s64 = replace cast_type stack
exec_insn len stack Op.cast_double_to_s64 = replace cast_type stack
exec_insn len stack Op.cast_nop = next stack
exec_insn len stack (Op.get_root _) = push len ptr stack
exec_insn len stack Op.get_symbol = replace (load_type ptr) stack
exec_insn len stack Op.get_symbol_field = replace (load_type ptr) stack
exec_insn len stack Op.get_index_u16 = replace (load_type ptr) stack
exec_insn len stack Op.get_index_u64 = replace (load_type ptr) stack
exec_insn len stack Op.load_field = replace (load_type unknown) stack
exec_insn len stack (Op.load_field_sized w) = replace (load_type (width_type w)) stack

-- What is left of a table where a stack comes to a merge point: `new` where there is none yet, `same`
-- where its stack is the same, and nothing otherwise.
abbrev pub merged : {T : Type 0} → List EntryType → T → T → Option (List EntryType) → Option T
merged stack new same none = some new
merged stack new same (some old) = if merge_points_compare stack old then some same else none

abbrev pub with_points : {T : Type 0} → Option T → (T → Bool) → Bool
with_points none f = false
with_points (some points) f = f points

module _ {T : Type 0} (h : Table T) (zmalloc : ℕ → Bool) where
  -- The table with a merge point, or nothing where there is no memory or the stacks differ.
  unfoldable pub merge_point_add_check : ℕ → List EntryType → T → Option T
  merge_point_add_check target stack points =
      if not (zmalloc target)
      then none
      else merged stack (h.add target stack points) points (h.lookup target points)

  -- `validate_instruction_all_contexts`: the stack here, and the merge point at this offset, which
  -- is taken out.
  unfoldable pub validate_instruction_all_contexts :
      Program → ℕ → List EntryType → Op → T → Option T
  validate_instruction_all_contexts prog pc stack op points =
      if not (validate_instruction_context prog pc stack op)
      then none
      else merged stack points (h.del pc points) (h.lookup pc points)

  -- What follows an instruction; `rest` goes on with the loop.
  unfoldable pub after_exec :
      Program → ℕ → Op → List EntryType → T → (ℕ → List EntryType → T → Bool) → Exec → Bool
  after_exec prog pc op stack points rest failed = false
  after_exec prog pc op stack points rest stop = h.count points == 0
  after_exec prog pc op stack points rest (next stack') =
      rest (pc + size_of prog.code pc op) stack' points
  after_exec prog pc op stack points rest (branch stack') =
      with_points (merge_point_add_check (number_at 2 prog.code (pc + 1)) stack points)
        (rest (pc + size_of prog.code pc op) stack')

  -- One instruction of the loop of `lttng_bytecode_validate`.
  unfoldable pub validate_insn :
      ℕ → Program → ℕ → List EntryType → T → (ℕ → List EntryType → T → Bool) → Op → Bool
  validate_insn len prog pc stack points rest op =
      if not (bytecode_validate_overflow prog pc)
      then false
      else with_points (validate_instruction_all_contexts prog pc stack op points)
          (λ points'. after_exec prog pc op stack points' rest (exec_insn len stack op))

  -- The loop, on fuel. A program that ends without a return is not accepted: then the code returns 1.
  unfoldable pub validate_from : ℕ → ℕ → Program → ℕ → List EntryType → T → Bool
  validate_from zero len prog pc stack points = false
  validate_from (suc f) len prog pc stack points =
      let rest = validate_from f len prog in
      with_op (op_at prog.code pc) (validate_insn len prog pc stack points rest)

  -- `lttng_bytecode_validate`: true is the code's 0. Every instruction takes a byte at least.
  unfoldable pub lttng_bytecode_validate : ℕ → Program → Bool
  lttng_bytecode_validate len prog = validate_from (length prog.code) len prog 0 [] h.new
