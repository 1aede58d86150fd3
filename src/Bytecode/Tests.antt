-- ===== src/Bytecode/Tests.antt =====
-- Programs that are validated and run, with the table of merge points as a list.
use lttng_ust.Common.{
  ℕ, ◌≡◌, ◌≢◌, ◌<◌, ◌++◌, ◌↔◌, ◌==◌, if◌then◌else◌, refl, ◌∙◌, arith, Option, some, none, true,
  false, Bool-cases, inl, inr, List, [], ◌∷◌, length,
}
use lttng_ust.Bytecode.{EntryType, Op, op_at, number_at, size_of}
use lttng_ust.Strutils.{backslash}
use lttng_ust.Bytecode.Validator.Table.{Table, IsTable}
use lttng_ust.Bytecode.Validator.Context.{
  Program, bytecode_validate_overflow, overflow_of, validate_instruction_context, bitwise_types,
}
use lttng_ust.Bytecode.Validator.Exec.{
  lttng_bytecode_validate, validate_from, validate_insn, validate_instruction_all_contexts,
  after_exec, exec_insn, merge_point_add_check, merge_points_compare,
}
use lttng_ust.Bytecode.Validator.Load.{
  lttng_bytecode_validate_load, validate_load_from, validate_load, Splits, validate_load-Splits,
}
use lttng_ust.Bytecode.Interpreter.Strings.{
  Order, stack_strcmp, strcmp_from, compare_chars, parse_char,
}
use lttng_ust.Bytecode.Interpreter.Strcmp.{
  IsVerbatim, stack_strcmp-equal, stack_strcmp-verbatim, stack_strcmp-prefix,
}
use lttng_ust.Bytecode.Safety.Agree.{Agrees, exec-Agrees}
use lttng_ust.Bytecode.Safety.Trip.{estack_pop-estack_push}
use lttng_ust.Bytecode.Interpreter.Machine.{
  Env, none_selected, fault, error, finished, Outcome, estack_ax, estack_bx, estack_push,
  estack_pop, pushed, start,
}
use lttng_ust.Bytecode.Interpreter.Compare.{compare_any, compare_op, operands_of, compare_double}
use lttng_ust.Bytecode.Interpreter.Arith.{bitwise_op, bitwise_of, return_op}
use lttng_ust.Bytecode.Interpreter.Load.{cast_op}
use lttng_ust.Bytecode.Interpreter.Run.{lttng_bytecode_interpret, run, step, exec}
use lttng_ust.Bytecode.Safety.Steps.{IsSafe, start-Holds}
use lttng_ust.Bytecode.Safety.Simulation.{validate-IsSafe}

abbrev Points : Type 0
Points = List (ℕ × List EntryType)

abbrev lookup : ℕ → Points → Option (List EntryType)
lookup k [] = none
lookup k ((j, s) ∷ t) = let rest = lookup k t in if k == j then some s else rest

abbrev del : ℕ → Points → Points
del k [] = []
del k ((j, s) ∷ t) = let rest = del k t in if k == j then rest else (j, s) ∷ rest

abbrev points : Table Points
points = record { new = []; lookup = lookup; add = λ k s t. (k, s) ∷ t; del = del; count = length }

lookup-del_ne : (k j : ℕ) (t : Points) → k ≢ j → lookup j (del k t) ≡ lookup j t
lookup-del_ne k j [] apart = refl
lookup-del_ne k j ((i, s) ∷ t) apart =
    let ih = lookup-del_ne k j t apart in
    elim (Bool-cases (k == i)) [
      | inl same ↦ rw (same) (ih ∙ ground (arith, same))
      | inr other ↦ rw (other) (ground (arith, ih))
    ]

lookup-none : (t : Points) → length t ≡ 0 → (k : ℕ) → lookup k t ≡ none
lookup-none [] e k = refl
lookup-none (x ∷ t) e k = ground arith

points-IsTable : IsTable points
points-IsTable = record {
  lookup_new = λ k. refl;
  lookup_add = λ k s t. ground arith;
  lookup_add_ne = λ k j s t apart. ground arith;
  lookup_del_ne = lookup-del_ne;
  count_none = lookup-none;
}

-- Nothing is behind an address.
abbrev env : Env
env = record {
  bytes_at = λ a len. [];
  load = λ size a. 0;
  code_address = 4096;
  payload_address = 8192;
  ctx_selected = λ i. none_selected;
  ctx_value = λ i. 0;
  get_index = λ i x. none;
  load_field = λ x. none;
  double_eq = λ a b. a == b;
  double_lt = λ a b. false;
  double_le = λ a b. a == b;
  double_neg = λ a. a;
  double_of_s64 = λ a. a;
  s64_of_double = λ a. a;
}

abbrev load_s64 : ℕ → List ℕ → List ℕ
load_s64 v code = 65 ∷ v ∷ 0 ∷ 0 ∷ 0 ∷ 0 ∷ 0 ∷ 0 ∷ 0 ∷ code

-- A word is loaded; where it is not 0, it goes and another is loaded; the top is returned.
abbrev both : Program
both = record { code = load_s64 1 (57 ∷ 21 ∷ 0 ∷ load_s64 2 (1 ∷ [])); symbols = [] }

validate-both : lttng_bytecode_validate points (λ _. true) 8 both ≡ true
unfolding lttng_bytecode_validate validate_from validate_insn bytecode_validate_overflow overflow_of
    validate_instruction_all_contexts validate_instruction_context after_exec exec_insn
    merge_point_add_check merge_points_compare op_at number_at size_of
validate-both = refl

abbrev nine : Program
nine = record {
  code = load_s64 0 (
      load_s64 0 (
        load_s64 0
          (load_s64 0 (load_s64 0 (load_s64 0 (load_s64 0 (load_s64 0 (load_s64 0 (1 ∷ [])))))))));
  symbols = [];
}

validate-nine : lttng_bytecode_validate points (λ _. true) 10 nine ≡ true
unfolding lttng_bytecode_validate validate_from validate_insn bytecode_validate_overflow overflow_of
    validate_instruction_all_contexts validate_instruction_context after_exec exec_insn op_at
    size_of
validate-nine = refl

interpret-nine : lttng_bytecode_interpret env false 10 nine.code ≡ fault
unfolding lttng_bytecode_interpret run step exec op_at number_at estack_push start size_of
interpret-nine = refl

-- A cast of the unsigned result of a bit operation is an error.
abbrev cast : Program
cast = record { code = load_s64 1 (load_s64 1 (9 ∷ 67 ∷ 1 ∷ [])); symbols = [] }

validate-cast : lttng_bytecode_validate points (λ _. true) 8 cast ≡ true
unfolding lttng_bytecode_validate validate_from validate_insn bytecode_validate_overflow overflow_of
    validate_instruction_all_contexts validate_instruction_context bitwise_types after_exec
    exec_insn op_at size_of
validate-cast = refl

interpret-cast : lttng_bytecode_interpret env false 10 cast.code ≡ error
unfolding lttng_bytecode_interpret run step exec op_at number_at estack_push estack_pop start
    size_of bitwise_op bitwise_of cast_op
interpret-cast = refl

abbrev value_of : Outcome → Option ℕ
value_of (finished v m) = some v
value_of _ = none

-- The double 5 is below two words, 5 and 5, of which the bits in common are 5: it is overwritten.
abbrev double_below : Program
double_below = record {
  code = 66 ∷ 5 ∷ 0 ∷ 0 ∷ 0 ∷ 0 ∷ 0 ∷ 0 ∷ 0 ∷ load_s64 5 (load_s64 5 (9 ∷ 12 ∷ 1 ∷ []));
  symbols = [];
}

interpret-double_below : value_of (lttng_bytecode_interpret env false 10 double_below.code) ≡ some 0
unfolding lttng_bytecode_interpret run step exec op_at number_at estack_push estack_pop estack_ax
    estack_bx start size_of bitwise_op bitwise_of compare_any compare_op operands_of compare_double
    return_op
interpret-double_below = refl

validate-IsSafe_example : IsSafe (lttng_bytecode_interpret env false 10 both.code)
validate-IsSafe_example =
    validate-IsSafe points (λ _. true) points-IsTable env false 10 8 (omega arith) both
      validate-both

validate_load-both : lttng_bytecode_validate_load both ≡ true
unfolding lttng_bytecode_validate_load validate_load_from validate_load overflow_of op_at size_of
validate_load-both = refl

validate_load-Splits_example : (0 < length both.code) × Splits both 0
validate_load-Splits_example = validate_load-Splits both validate_load-both

exec-Agrees_example :
    Agrees 10 both.code 0 9
      (exec_insn 8 [] Op.load_s64)
      (exec env false 10 both.code 0 (start 10) Op.load_s64)
unfolding size_of
exec-Agrees_example =
    exec-Agrees env false 10 8 (omega arith) both.code 0 (start 10) [] (start-Holds 10)
      (omega arith) Op.load_s64

estack_pop-estack_push_example :
    (estack_push 10 (start 10) ≡ some (pushed (start 10)))
    × (estack_pop (pushed (start 10)) ≡ some (record (start 10) { e = (pushed (start 10)).e }))
estack_pop-estack_push_example =
    estack_pop-estack_push {n = 10} {h = 0} (start 10) (start-Holds 10) (omega arith)

abbrev word : List ℕ
word = b'a' ∷ b'b' ∷ []

word-IsVerbatim : IsVerbatim word
word-IsVerbatim =
    ((λ e. omega arith), (λ e. omega arith), ((λ e. omega arith), (λ e. omega arith), tt))

stack_strcmp-equal_example :
    (stack_strcmp false false word (b'a' ∷ []) ≡ Order.equal) ↔ (word ≡ (b'a' ∷ []))
stack_strcmp-equal_example = stack_strcmp-equal word (b'a' ∷ []) (omega arith, (omega arith, tt))

stack_strcmp-verbatim_example :
    stack_strcmp true false word word ≡ stack_strcmp false false word word
stack_strcmp-verbatim_example =
    stack_strcmp-verbatim true false word word word-IsVerbatim word-IsVerbatim

stack_strcmp-prefix_example :
    ((stack_strcmp true false (word ++ b'*' ∷ []) (word ++ word) ≡ Order.equal)
      ↔ ((t : List ℕ) × (word ++ word ≡ word ++ t)))
    × ((stack_strcmp false true (word ++ word) (word ++ b'*' ∷ []) ≡ Order.equal)
        ↔ ((t : List ℕ) × (word ++ word ≡ word ++ t)))
stack_strcmp-prefix_example =
    stack_strcmp-prefix word [] (word ++ word) word-IsVerbatim (omega arith, (omega arith, tt))

-- Behind a backslash at the end of both literals, the comparison goes on past the NUL.
stack_strcmp-backslash : stack_strcmp true true (backslash ∷ []) (backslash ∷ []) ≡ Order.overread
unfolding stack_strcmp strcmp_from compare_chars parse_char
stack_strcmp-backslash = refl
