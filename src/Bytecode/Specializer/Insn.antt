-- ===== src/Bytecode/Specializer/Insn.antt =====
-- The instructions of `lttng_bytecode_specialize` and its loop.
use lttng_ust.Common.{
  ℕ, zero, suc, ◌+◌, ◌/◌, ◌%◌, Bool, true, false, if◌then◌else◌, List, [], ◌∷◌, Option, some, none,
  set,
}
use lttng_ust.Bytecode.{
  Op, Cmp, Operands, Unary, Operand, Width, EntryType, s64, u64, double, string, star_glob_string,
  unknown, ptr,
}
use lttng_ust.Bytecode.Specializer.Data.{Area}
use lttng_ust.Bytecode.Specializer.Types.{VEntry, VStack}
use lttng_ust.Bytecode.Specializer.Lookup.{Contexts}

-- What the pass changes: the code, the data, the contexts and the stack; `done` where `ret` is 0.
pub record State : Type 0 where
  pub code : List ℕ
  pub area : Area
  pub ctx : Contexts
  pub stack : VStack
  pub done : Bool

-- An instruction ends the pass with an error, through a NULL pointer or a failed assertion, or with 0;
-- or the pass goes on.
pub data Spec : Type 0 where
  failed crashed : Spec
  stopped : State → Spec
  next : State → Spec

-- The place of a comparison among the six.
abbrev cmp_index : Cmp → ℕ
cmp_index Cmp.eq = 0
cmp_index Cmp.ne = 1
cmp_index Cmp.gt = 2
cmp_index Cmp.lt = 3
cmp_index Cmp.ge = 4
cmp_index Cmp.le = 5

abbrev compare_opcode : Cmp → Operands → ℕ
compare_opcode c Operands.any = 12 + cmp_index c
compare_opcode c Operands.string = 18 + cmp_index c
compare_opcode c Operands.s64 = 24 + cmp_index c
compare_opcode c Operands.double = 30 + cmp_index c
compare_opcode c Operands.double_s64 = 36 + cmp_index c
compare_opcode c Operands.s64_double = 42 + cmp_index c
compare_opcode c Operands.star_glob = 77 + cmp_index c

abbrev unary_index : Unary → ℕ
unary_index Unary.plus = 0
unary_index Unary.minus = 1
unary_index Unary.not = 2

abbrev unary_opcode : Unary → Operand → ℕ
unary_opcode o Operand.any = 48 + unary_index o
unary_opcode o Operand.s64 = 51 + unary_index o
unary_opcode o Operand.double = 54 + unary_index o

abbrev width_index : Width → ℕ
width_index Width.i8 = 0
width_index Width.i16 = 1
width_index Width.i32 = 2
width_index Width.i64 = 3
width_index Width.u8 = 4
width_index Width.u16 = 5
width_index Width.u32 = 6
width_index Width.u64 = 7
width_index Width.string = 8
width_index Width.sequence = 9
width_index Width.double = 10

-- The number of an operation that the pass writes; the others it never does.
unfoldable pub opcode : Op → ℕ
opcode (Op.compare c k) = compare_opcode c k
opcode (Op.unary o k) = unary_opcode o k
opcode (Op.load_field_sized w) = 87 + width_index w
opcode Op.return_s64 = 99
opcode Op.cast_double_to_s64 = 68
opcode Op.cast_nop = 69
opcode Op.get_index_u16 = 84
opcode _ = 0

abbrev pub put_number : ℕ → List ℕ → ℕ → ℕ → List ℕ
put_number zero code i v = code
put_number (suc n) code i v = put_number n (set code i (v % 256)) (suc i) (v / 256)

-- An instruction written over the one at an offset, where there is one to write.
abbrev pub put : State → ℕ → Option Op → State
put s pc none = s
put s pc (some op) = record s { code = set s.code pc (opcode op) }

-- The stack after it has changed.
abbrev pub with_stack : State → List VEntry → List VEntry → State
with_stack s live dead = record s { stack = record { live = live; dead = dead } }

abbrev pub typed : EntryType → VEntry → VEntry
typed t x = record x { type = t }

-- What a comparison of `ax` and `bx` becomes; `null` where there is no `bx` to look at.
pub data Choice : Type 0 where
  refused null kept : Choice
  chosen : Operands → Choice

unfoldable pub integer_choice : Option EntryType → Choice
integer_choice none = null
integer_choice (some unknown) = kept
integer_choice (some s64) = chosen Operands.s64
integer_choice (some u64) = chosen Operands.s64
integer_choice (some _) = chosen Operands.double_s64

unfoldable pub double_choice : Option EntryType → Choice
double_choice none = null
double_choice (some unknown) = kept
double_choice (some s64) = chosen Operands.s64_double
double_choice (some u64) = chosen Operands.s64_double
double_choice (some _) = chosen Operands.double

abbrev pub is_equality : Cmp → Bool
is_equality Cmp.eq = true
is_equality Cmp.ne = true
is_equality _ = false

unfoldable pub string_choice : Cmp → Option EntryType → Choice
string_choice c none = null
string_choice c (some unknown) = kept
string_choice c (some star_glob_string) =
    chosen (if is_equality c then Operands.star_glob else Operands.string)
string_choice c (some _) = chosen Operands.string

abbrev pub glob_choice : Option EntryType → Choice
glob_choice none = null
glob_choice (some unknown) = kept
glob_choice (some _) = chosen Operands.star_glob

unfoldable pub choice : Cmp → EntryType → Option EntryType → Choice
choice c string bx = string_choice c bx
choice c star_glob_string bx = if is_equality c then glob_choice bx else refused
choice c s64 bx = integer_choice bx
choice c u64 bx = integer_choice bx
choice c double bx = double_choice bx
choice c unknown bx = kept
choice c ptr bx = refused

abbrev pub type_of_top : List VEntry → Option EntryType
type_of_top [] = none
type_of_top (x ∷ live) = some x.type

-- Pop 2, push 1. Nothing is left to hold the result where there was one entry only.
abbrev pub pop_typed : State → EntryType → List VEntry → Spec
pop_typed s t [] = failed
pop_typed s t (a ∷ []) = crashed
pop_typed s t (a ∷ b ∷ live) = next (with_stack s (typed t b ∷ live) (a ∷ s.stack.dead))

-- The stack after a comparison for operands not known before: `<=` pops nothing.
unfoldable pub compared : Cmp → State → List VEntry → Spec
compared Cmp.le s [] = crashed
compared Cmp.le s (a ∷ live) = next (with_stack s (typed s64 a ∷ live) s.stack.dead)
compared Cmp.ge s live = pop_typed s u64 live
compared c s live = pop_typed s s64 live

abbrev pub compare_with : Cmp → State → ℕ → List VEntry → Choice → Spec
compare_with c s pc live refused = failed
compare_with c s pc live null = crashed
compare_with c s pc live kept = compared c s live
compare_with c s pc live (chosen k) = compared c (put s pc (some (Op.compare c k))) live

unfoldable pub specialize_compare : Cmp → State → ℕ → List VEntry → Spec
specialize_compare c s pc [] = crashed
specialize_compare c s pc (a ∷ live) =
    compare_with c s pc (a ∷ live) (choice c a.type (type_of_top live))
