-- ===== src/Bytecode.antt =====
-- src/lib/lttng-ust/bytecode.h and lttng-bytecode.h: the instructions of the filter and capture
-- bytecode, on a little-endian machine. The code is a list of bytes and a position in it an offset.
pub mod Validator
pub mod Interpreter
pub mod Safety
pub mod Specializer
mod Tests
use lttng_ust.Common.{
  ℕ, zero, suc, ◌+◌, ◌*◌, ◌-◌, Bool, true, false, List, [], ◌∷◌, ◌==◌, if◌then◌else◌, length,
  get_elem?, drop, Option, some, none, ◌≡◌, refl, arith,
}

pub data Cmp : Type 0 where
  eq ne gt lt ge le : Cmp

-- The operand types that a comparison is for: `any` for those found when it runs.
pub data Operands : Type 0 where
  any string star_glob s64 double double_s64 s64_double : Operands

pub data Bitwise : Type 0 where
  rshift lshift and or xor : Bitwise

pub data Unary : Type 0 where
  plus minus not : Unary

-- The operand type that a unary operation is for.
pub data Operand : Type 0 where
  any s64 double : Operand

-- What a reference to a field or a context names.
pub data Ref : Type 0 where
  untyped string sequence s64 double : Ref

pub data Root : Type 0 where
  context app_context payload : Root

-- What a specialized load of a field reads.
pub data Width : Type 0 where
  i8 i16 i32 i64 u8 u16 u32 u64 string sequence double : Width

-- `enum bytecode_op`. The arithmetic that no part supports is one constructor.
pub data Op : Type 0 where
  return return_s64 unsupported : Op
  compare : Cmp → Operands → Op
  bitwise : Bitwise → Op
  unary : Unary → Operand → Op
  unary_bit_not logical_and logical_or : Op
  load_field_ref : Ref → Op
  get_context_ref : Ref → Op
  load_string load_star_glob_string load_s64 load_double : Op
  cast_to_s64 cast_double_to_s64 cast_nop : Op
  get_root : Root → Op
  get_symbol get_symbol_field get_index_u16 get_index_u64 load_field : Op
  load_field_sized : Width → Op

-- The operations by number; those that no `switch` has a case for are `none`.
abbrev comparisons : Operands → List (Option Op) → List (Option Op)
comparisons k rest =
    some (compare eq k)
    ∷ some (compare ne k)
    ∷ some (compare gt k)
    ∷ some (compare lt k)
    ∷ some (compare ge k)
    ∷ some (compare le k)
    ∷ rest

abbrev unaries : Operand → List (Option Op) → List (Option Op)
unaries k rest = some (unary plus k) ∷ some (unary minus k) ∷ some (unary not k) ∷ rest

abbrev bytecode_op : List (Option Op)
bytecode_op =
    none
    ∷ some return
    ∷ some unsupported
    ∷ some unsupported
    ∷ some unsupported
    ∷ some unsupported
    ∷ some unsupported
    ∷ some (bitwise rshift)
    ∷ some (bitwise lshift)
    ∷ some (bitwise and)
    ∷ some (bitwise or)
    ∷ some (bitwise xor)
    ∷ comparisons any (
        comparisons string (
          comparisons s64 (
            comparisons double (
              comparisons double_s64 (
                comparisons s64_double (
                  unaries any (
                    unaries s64 (
                      unaries double (
                        some logical_and
                        ∷ some logical_or
                        ∷ some (load_field_ref untyped)
                        ∷ some (load_field_ref string)
                        ∷ some (load_field_ref sequence)
                        ∷ some (load_field_ref s64)
                        ∷ some (load_field_ref double)
                        ∷ some load_string
                        ∷ some load_s64
                        ∷ some load_double
                        ∷ some cast_to_s64
                        ∷ some cast_double_to_s64
                        ∷ some cast_nop
                        ∷ some (get_context_ref untyped)
                        ∷ some (get_context_ref string)
                        ∷ some (get_context_ref s64)
                        ∷ some (get_context_ref double)
                        ∷ none
                        ∷ none
                        ∷ some load_star_glob_string
                        ∷ some (compare eq star_glob)
                        ∷ some (compare ne star_glob)
                        ∷ some (get_root context)
                        ∷ some (get_root app_context)
                        ∷ some (get_root payload)
                        ∷ some get_symbol
                        ∷ some get_symbol_field
                        ∷ some get_index_u16
                        ∷ some get_index_u64
                        ∷ some load_field
                        ∷ some (load_field_sized i8)
                        ∷ some (load_field_sized i16)
                        ∷ some (load_field_sized i32)
                        ∷ some (load_field_sized i64)
                        ∷ some (load_field_sized u8)
                        ∷ some (load_field_sized u16)
                        ∷ some (load_field_sized u32)
                        ∷ some (load_field_sized u64)
                        ∷ some (load_field_sized string)
                        ∷ some (load_field_sized sequence)
                        ∷ some (load_field_sized double)
                        ∷ some unary_bit_not
                        ∷ some return_s64
                        ∷ [])))))))))

-- The operation at an offset.
unfoldable pub op_at : List ℕ → ℕ → Option Op
op_at code pc = elim (get_elem? code pc) [
  | none ↦ none
  | some b ↦ elim (get_elem? bytecode_op b) [ none ↦ none | some op ↦ op ]
]

abbrev pub byte_at : List ℕ → ℕ → ℕ
byte_at code i = elim (get_elem? code i) [ none ↦ 0 | some b ↦ b ]

-- An operand of `n` bytes.
unfoldable pub number_at : ℕ → List ℕ → ℕ → ℕ
number_at zero code i = 0
number_at (suc n) code i = byte_at code i + 256 * number_at n code (i + 1)

-- `strnlen` to the end of the bytes.
unfoldable pub str_len : List ℕ → ℕ
str_len [] = 0
str_len (c ∷ s) = let rest = str_len s in if c == 0 then 0 else suc rest

-- The bytes that an instruction takes: its `sizeof` of `load_op` and the like, and of its operand.
unfoldable pub size_of : List ℕ → ℕ → Op → ℕ
size_of code pc logical_and = 3
size_of code pc logical_or = 3
size_of code pc (load_field_ref _) = 3
size_of code pc (get_context_ref _) = 3
size_of code pc load_string = 1 + str_len (drop (pc + 1) code) + 1
size_of code pc load_star_glob_string = 1 + str_len (drop (pc + 1) code) + 1
size_of code pc load_s64 = 9
size_of code pc load_double = 9
size_of code pc get_symbol = 3
size_of code pc get_symbol_field = 3
size_of code pc get_index_u16 = 3
size_of code pc get_index_u64 = 9
size_of code pc _ = 1

-- An unknown operation is an error.
abbrev pub with_op : Option Op → (Op → Bool) → Bool
with_op none f = false
with_op (some op) f = f op

pub with_op-true :
    (o : Option Op) (f : Op → Bool) → with_op o f ≡ true → (op : Op) × (o ≡ some op) × (f op ≡ true)
with_op-true none f e = ground arith
with_op-true (some op) f e = (op, refl, e)

-- `enum entry_type`
pub data EntryType : Type 0 where
  s64 u64 double string star_glob_string unknown ptr : EntryType

abbrev pub interpreter_stack_len : ℕ
interpreter_stack_len = 10

abbrev pub interpreter_stack_empty : ℕ
interpreter_stack_empty = 1
