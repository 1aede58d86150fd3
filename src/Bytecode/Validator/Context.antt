-- ===== src/Bytecode/Validator/Context.antt =====
-- The tests before an instruction: `bytecode_validate_overflow`, on the code's end, and
-- `validate_instruction_context`, on the types at the top of the stack.
use lttng_ust.Common.{
  ℕ, ◌+◌, ◌-◌, Bool, true, false, not, ◌&&◌, List, [], ◌∷◌, ◌==◌, leb, ltb, if◌then◌else◌, length,
  drop,
}
use lttng_ust.Bytecode.{
  Op, Cmp, Operands, Operand, Ref, EntryType, op_at, with_op, number_at, str_len, size_of, s64, u64,
  double, string, star_glob_string, unknown,
}

-- A runtime: its code, and the symbols behind it in the bytecode that it was made of.
pub record Program : Type 0 where
  pub code : List ℕ
  pub symbols : List ℕ

-- The symbol starts in the table and ends there, with a NUL.
unfoldable pub validate_get_symbol : List ℕ → ℕ → Bool
validate_get_symbol symbols offset =
    if leb (length symbols) offset
    then false
    else not (str_len (drop offset symbols) == length (drop offset symbols))

abbrev fits : Program → ℕ → ℕ → Bool
fits prog pc size = leb (pc + size) (length prog.code)

-- The string ends before the code does.
abbrev validate_string : Program → ℕ → Bool
validate_string prog pc =
    fits prog pc 1 && ltb (str_len (drop (pc + 1) prog.code)) (length prog.code - pc - 1)

unfoldable pub overflow_of : Program → ℕ → Op → Bool
overflow_of prog pc Op.unsupported = false
overflow_of prog pc Op.load_string = validate_string prog pc
overflow_of prog pc Op.load_star_glob_string = validate_string prog pc
overflow_of prog pc Op.get_symbol =
    fits prog pc 3 && validate_get_symbol prog.symbols (number_at 2 prog.code (pc + 1))
overflow_of prog pc Op.get_symbol_field = false
overflow_of prog pc op = fits prog pc (size_of prog.code pc op)

unfoldable pub bytecode_validate_overflow : Program → ℕ → Bool
bytecode_validate_overflow prog pc = with_op (op_at prog.code pc) (overflow_of prog pc)

abbrev is_integer : EntryType → Bool
is_integer s64 = true
is_integer u64 = true
is_integer _ = false

abbrev is_number : EntryType → Bool
is_number s64 = true
is_number u64 = true
is_number double = true
is_number _ = false

abbrev pub is_eq : Cmp → Bool
is_eq Cmp.eq = true
is_eq Cmp.ne = true
is_eq _ = false

-- `bin_op_compare_check` for the types of the top and of the entry below it; an unknown type is no
-- error.
unfoldable pub compare_types : Cmp → EntryType → EntryType → Bool
compare_types c unknown _ = true
compare_types c string unknown = true
compare_types c string string = true
compare_types c string star_glob_string = is_eq c
compare_types c star_glob_string unknown = true
compare_types c star_glob_string string = is_eq c
compare_types c s64 unknown = true
compare_types c s64 b = is_number b
compare_types c u64 unknown = true
compare_types c u64 b = is_number b
compare_types c double unknown = true
compare_types c double b = is_number b
compare_types c _ _ = false

-- `bin_op_bitwise_check`.
unfoldable pub bitwise_types : EntryType → EntryType → Bool
bitwise_types unknown _ = true
bitwise_types a unknown = is_integer a
bitwise_types a b = is_integer a && is_integer b

-- The comparisons that name the types of their operands.
unfoldable pub typed_compare : Operands → EntryType → EntryType → Bool
typed_compare Operands.any a b = true
typed_compare Operands.string string string = true
typed_compare Operands.string _ _ = false
typed_compare Operands.star_glob star_glob_string _ = true
typed_compare Operands.star_glob _ star_glob_string = true
typed_compare Operands.star_glob _ _ = false
typed_compare Operands.s64 a b = is_integer a && is_integer b
typed_compare Operands.double double _ = true
typed_compare Operands.double _ double = true
typed_compare Operands.double _ _ = false
typed_compare Operands.double_s64 a double = is_integer a
typed_compare Operands.double_s64 _ _ = false
typed_compare Operands.s64_double double b = is_integer b
typed_compare Operands.s64_double _ _ = false

unfoldable pub unary_types : Operand → EntryType → Bool
unary_types Operand.any unknown = true
unary_types Operand.any a = is_number a
unary_types Operand.s64 a = is_integer a
unary_types Operand.double double = true
unary_types Operand.double _ = false

abbrev integer_or_unknown : EntryType → Bool
integer_or_unknown unknown = true
integer_or_unknown a = is_integer a

abbrev number_or_unknown : EntryType → Bool
number_or_unknown unknown = true
number_or_unknown a = is_number a

abbrev is_double : EntryType → Bool
is_double double = true
is_double _ = false

-- A test of the top entry, and of the two top entries: nothing below is an error.
abbrev top_is : (EntryType → Bool) → List EntryType → Bool
top_is test [] = false
top_is test (a ∷ _) = test a

abbrev top_two_are : (EntryType → EntryType → Bool) → List EntryType → Bool
top_two_are test [] = false
top_two_are test (_ ∷ []) = false
top_two_are test (a ∷ b ∷ _) = test a b

unfoldable pub validate_instruction_context : Program → ℕ → List EntryType → Op → Bool
validate_instruction_context prog pc stack Op.unsupported = false
validate_instruction_context prog pc stack (Op.compare c Operands.any) =
    top_two_are (compare_types c) stack
validate_instruction_context prog pc stack (Op.compare c k) = top_two_are (typed_compare k) stack
validate_instruction_context prog pc stack (Op.bitwise _) = top_two_are bitwise_types stack
validate_instruction_context prog pc stack (Op.unary _ k) = top_is (unary_types k) stack
validate_instruction_context prog pc stack Op.unary_bit_not = top_is integer_or_unknown stack
validate_instruction_context prog pc stack Op.logical_and =
    top_is integer_or_unknown stack && ltb pc (number_at 2 prog.code (pc + 1))
validate_instruction_context prog pc stack Op.logical_or =
    top_is integer_or_unknown stack && ltb pc (number_at 2 prog.code (pc + 1))
validate_instruction_context prog pc stack (Op.load_field_ref Ref.untyped) = false
validate_instruction_context prog pc stack Op.cast_to_s64 = top_is number_or_unknown stack
validate_instruction_context prog pc stack Op.cast_double_to_s64 = top_is is_double stack
validate_instruction_context prog pc stack (Op.load_field_sized _) = false
validate_instruction_context prog pc stack _ = true
