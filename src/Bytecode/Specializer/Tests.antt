-- ===== src/Bytecode/Specializer/Tests.antt =====
-- Programs that are specialized, and what they give before and after.
use lttng_ust.Common.{
  ℕ, ◌+◌, ◌==◌, ◌≡◌, refl, arith, List, [], ◌∷◌, ◌^◌, Option, some, none, true, false, replicate,
  length,
}
use lttng_ust.Bytecode.{Op, Cmp, Operands, s64, unknown, op_at, number_at, size_of}
use lttng_ust.Bytecode.Interpreter.Machine.{
  Machine, Env, none_selected, finished, estack_push, estack_pop, estack_ax, estack_bx, start,
}
use lttng_ust.Bytecode.Interpreter.Compare.{
  compare_any, compare_op, operands_of, compare_double, compare_s64,
}
use lttng_ust.Bytecode.Interpreter.Arith.{return_op, unary_op, unary_double}
use lttng_ust.Bytecode.Interpreter.Run.{lttng_bytecode_interpret, run, step, exec}
use lttng_ust.RingBuffer.Order.{get_count_order, lttng_ust_fls, fls_shifted}
use lttng_ust.RingBuffer.Reserve.{offset_align}
use lttng_ust.Bytecode.Specializer.Data.{
  Area, new_alloc_len, bytecode_reserve_data, write, bytecode_push_data,
}
use lttng_ust.Bytecode.Specializer.Area.{IsArea, Stores, bytecode_push_data-Stores}
use lttng_ust.Bytecode.Specializer.Types.{
  ObjectType, LoadType, FieldType, Field, VEntry, vstack_push, loaded, specialize_load_field,
  specialize_load_object,
}
use lttng_ust.Bytecode.Specializer.Lookup.{
  Event, payload_from, field_size, specialize_payload_lookup, specialize_symbol,
}
use lttng_ust.Bytecode.Specializer.Insn.{
  State, opcode, integer_choice, double_choice, choice, compared, specialize_compare,
}
use lttng_ust.Bytecode.Specializer.Run.{
  unary_choice, specialize_insn, specialized, specialize_from, lttng_bytecode_specialize,
}
use lttng_ust.Bytecode.Specializer.Moves.{After}
use lttng_ust.Bytecode.Specializer.Keeps.{Keeps}
use lttng_ust.Bytecode.Specializer.Ends.{Ends, lttng_bytecode_specialize-Ends}
use lttng_ust.Bytecode.Specializer.Choices.{s64_s64}
use lttng_ust.Bytecode.Specializer.Typed.{IsTyped}
use lttng_ust.Bytecode.Specializer.Leads.{LeadsTo}
use lttng_ust.Bytecode.Specializer.Held.{specialize_insn-Leads}
use lttng_ust.Bytecode.Specializer.Agree.{Stands, specialize_insn-Stands}

abbrev empty_area : Area
empty_area = record { data_len = 0; data_alloc_len = 0; bytes = [] }

empty_area-IsArea : IsArea empty_area
empty_area-IsArea = record { whole = refl; inside = omega arith; below = omega arith }

-- Six bytes, and one at the next multiple of 8.
abbrev six : Area
six = record { data_len = 6; data_alloc_len = 8; bytes = 1 ∷ 2 ∷ 3 ∷ 4 ∷ 5 ∷ 6 ∷ 0 ∷ 0 ∷ [] }

abbrev seven : Area
seven = record {
  data_len = 9;
  data_alloc_len = 16;
  bytes = 1 ∷ 2 ∷ 3 ∷ 4 ∷ 5 ∷ 6 ∷ 0 ∷ 0 ∷ 7 ∷ 0 ∷ 0 ∷ 0 ∷ 0 ∷ 0 ∷ 0 ∷ 0 ∷ [];
}

push_data-six : bytecode_push_data (λ n. true) six (7 ∷ []) 8 ≡ some (8, seven)
unfolding bytecode_push_data bytecode_reserve_data new_alloc_len get_count_order lttng_ust_fls
    fls_shifted offset_align write
push_data-six = refl

bytecode_push_data-Stores_example : Stores six (7 ∷ []) 8 8 seven
bytecode_push_data-Stores_example =
    bytecode_push_data-Stores (λ n. true) six (7 ∷ []) 8 (2 ^ 61)
      (record { whole = refl; inside = omega arith; below = omega arith }) refl push_data-six

-- A word field `f` and an enumeration `e`; every symbol is `e`.
abbrev field_of : ℕ → FieldType → Field
field_of name type = record { name = name ∷ []; nofilter = false; type = type }

abbrev event : Event
event = record {
  alloc = λ n. true;
  image = λ gid. gid.offset ∷ [];
  symbol = λ i. b'e' ∷ [];
  fields =
      field_of b'f'
        (FieldType.integer record { size = 64; signedness = true; reverse_byte_order = false })
      ∷ field_of b'e'
          (FieldType.enum record { size = 64; signedness = true; reverse_byte_order = false })
      ∷ [];
  add_app_context = λ name ctx. none;
}

abbrev memory : List VEntry
memory = replicate 10 record {
  type = unknown;
  load = record {
    type = LoadType.object;
    object_type = ObjectType.dynamic;
    field = none;
    rev_bo = false;
  };
}

-- The code after the pass; nothing where it fails.
abbrev code_after : List ℕ → List ℕ
code_after code = elim (lttng_bytecode_specialize event code empty_area [] memory) [
  | specialized s ↦ s.code
  | _ ↦ []
]

-- The bits of an integer are not those of the double that is equal to it.
abbrev env : Env
env = record {
  bytes_at = λ a len. [];
  load = λ size a. 0;
  code_address = 4096;
  payload_address = 8192;
  ctx_selected = λ i. none_selected;
  ctx_value = λ i. 0;
  get_index = λ i x. none;
  load_field = λ x. none;
  double_eq = λ a b. a == b;
  double_lt = λ a b. false;
  double_le = λ a b. a == b;
  double_neg = λ a. a;
  double_of_s64 = λ a. a + 1000;
  s64_of_double = λ a. a;
}

abbrev value_of : List ℕ → Option ℕ
value_of code = elim (lttng_bytecode_interpret env false 10 code) [
  | finished v m ↦ some v
  | _ ↦ none
]

abbrev constant : ℕ → ℕ → List ℕ → List ℕ
constant op v code = op ∷ v ∷ 0 ∷ 0 ∷ 0 ∷ 0 ∷ 0 ∷ 0 ∷ 0 ∷ code

-- `1 == (2.0 <= 2.0)`: the comparison before the return.
abbrev le : ℕ → ℕ → ℕ → List ℕ
le le_op eq_op return_op =
    constant 65 1 (constant 66 2 (constant 66 2 (le_op ∷ eq_op ∷ return_op ∷ [])))

-- The specializer pops nothing for `<=`, and takes the second double for the operand below.
specialize-le : code_after (le 17 12 1) ≡ le 35 36 99
unfolding lttng_bytecode_specialize specialize_from specialize_insn op_at size_of vstack_push
    specialize_compare choice integer_choice double_choice compared opcode
specialize-le = refl

interpret-le_before : value_of (le 17 12 1) ≡ some 1
unfolding lttng_bytecode_interpret run step exec op_at number_at size_of estack_push estack_pop
    estack_ax estack_bx start compare_any compare_op operands_of compare_double compare_s64
    return_op
interpret-le_before = refl

interpret-le_after : value_of (le 35 36 99) ≡ some 0
unfolding lttng_bytecode_interpret run step exec op_at number_at size_of estack_push estack_pop
    estack_ax estack_bx start compare_any compare_op operands_of compare_double compare_s64
    return_op
interpret-le_after = refl

-- `!2.0 == 0`: what the negation leaves is an integer, and static typing still says a double.
abbrev negated : ℕ → ℕ → ℕ → List ℕ
negated not_op eq_op return_op = constant 66 2 (not_op ∷ constant 65 0 (eq_op ∷ return_op ∷ []))

specialize-negated : code_after (negated 50 12 1) ≡ negated 56 36 99
unfolding lttng_bytecode_specialize specialize_from specialize_insn op_at size_of vstack_push
    specialize_compare choice integer_choice double_choice compared opcode unary_choice
specialize-negated = refl

interpret-negated_before : value_of (negated 50 12 1) ≡ some 1
unfolding lttng_bytecode_interpret run step exec op_at number_at size_of estack_push estack_pop
    estack_ax estack_bx start compare_any compare_op operands_of compare_double compare_s64
    return_op unary_op unary_double
interpret-negated_before = refl

interpret-negated_after : value_of (negated 56 36 99) ≡ some 0
unfolding lttng_bytecode_interpret run step exec op_at number_at size_of estack_push estack_pop
    estack_ax estack_bx start compare_any compare_op operands_of compare_double compare_s64
    return_op unary_op unary_double
interpret-negated_after = refl

-- `e == 1` for an enumeration becomes a comparison of a double with an integer.
abbrev enumerated : ℕ → ℕ → ℕ → List ℕ
enumerated symbol_op eq_op return_op =
    81 ∷ symbol_op ∷ 0 ∷ 0 ∷ 86 ∷ constant 65 1 (eq_op ∷ return_op ∷ [])

specialize-enumerated : code_after (enumerated 82 12 1) ≡ enumerated 84 36 99
unfolding lttng_bytecode_specialize specialize_from specialize_insn op_at size_of vstack_push
    specialize_compare choice integer_choice compared opcode specialize_load_field loaded number_at
    specialize_symbol specialize_payload_lookup payload_from field_size specialize_load_object
    bytecode_push_data bytecode_reserve_data new_alloc_len get_count_order lttng_ust_fls fls_shifted
    offset_align write
specialize-enumerated = refl

lttng_bytecode_specialize-Ends_example :
    Ends
      (λ s. Keeps (length (le 17 12 1)) s.code s.area)
      (lttng_bytecode_specialize event (le 17 12 1) empty_area [] memory)
lttng_bytecode_specialize-Ends_example =
    lttng_bytecode_specialize-Ends event (le 17 12 1) empty_area [] memory empty_area-IsArea

-- A comparison of two words.
abbrev word_entry : VEntry
word_entry = record {
  type = s64;
  load = record {
    type = LoadType.object;
    object_type = ObjectType.s64;
    field = none;
    rev_bo = false;
  };
}

abbrev compares : State
compares = record {
  code = 12 ∷ 1 ∷ [];
  area = empty_area;
  ctx = [];
  stack = record { live = word_entry ∷ word_entry ∷ []; dead = [] };
  done = false;
}

abbrev two_words : Machine
two_words = record { top = 3; ax = 5; bx = 5; ax_t = s64; bx_t = s64; e = (start 10).e }

compares-found : op_at compares.code 0 ≡ some (Op.compare Cmp.eq Operands.any)
unfolding op_at
compares-found = refl

specialize_insn-Stands_example :
    After
      (λ s'. Stands env false 10 0 two_words compares.code (Op.compare Cmp.eq Operands.any) s'.code)
      (specialize_insn event compares 0 (Op.compare Cmp.eq Operands.any))
specialize_insn-Stands_example =
    specialize_insn-Stands env false 10 0 two_words event compares (Op.compare Cmp.eq Operands.any)
      compares-found (omega arith) refl (s64_s64, s64_s64)

two_words-IsTyped : IsTyped 10 compares.stack.live two_words
unfolding start
two_words-IsTyped = (record { top = refl; places = refl }, (s64_s64, (s64_s64, tt)))

specialize_insn-Leads_example :
    After
      (LeadsTo env false 10 0 two_words 1)
      (specialize_insn event compares 0 (Op.compare Cmp.eq Operands.any))
unfolding size_of
specialize_insn-Leads_example =
    specialize_insn-Leads env false 10 0 two_words event compares (Op.compare Cmp.eq Operands.any)
      compares-found (omega arith) refl two_words-IsTyped
