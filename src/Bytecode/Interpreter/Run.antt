-- ===== src/Bytecode/Interpreter/Run.antt =====
-- The dispatch on an instruction, and the run.
use lttng_ust.Common.{
  ℕ, zero, suc, ◌+◌, Bool, List, ◌==◌, not, if◌then◌else◌, length, leb, ltb, Option, some, none,
}
use lttng_ust.Bytecode.{Op, Operands, star_glob_string, string, op_at, number_at, size_of}
use lttng_ust.Bytecode.Interpreter.Machine.{
  plain_literal, star_glob_literal, Machine, Env, Outcome, fault, error, finished, running, start,
}
use lttng_ust.Bytecode.Interpreter.Compare.{compare_op, compare_any, bit}
use lttng_ust.Bytecode.Interpreter.Arith.{
  bitwise_op, unary_op, bit_not_op, and_op, or_op, return_op,
}
use lttng_ust.Bytecode.Interpreter.Load.{
  field_ref_op, context_ref_op, push_string, push_s64, push_double, cast_op, double_to_s64_op,
  root_op, symbol_op, entry_op, sized_op, size_max,
}

-- `n` is the length of the stack.
unfoldable pub exec : Env → Bool → ℕ → List ℕ → ℕ → Machine → Op → Outcome
exec env capture n code pc m Op.return = return_op capture m
exec env capture n code pc m Op.return_s64 = finished (bit (not (m.ax == 0))) m
exec env capture n code pc m Op.unsupported = error
exec env capture n code pc m (Op.compare c Operands.any) = compare_any env c pc m
exec env capture n code pc m (Op.compare c k) = compare_op env c k pc m
exec env capture n code pc m (Op.bitwise o) = bitwise_op o pc m
exec env capture n code pc m (Op.unary o k) = unary_op env o k pc m
exec env capture n code pc m Op.unary_bit_not = bit_not_op pc m
exec env capture n code pc m Op.logical_and = and_op code pc m
exec env capture n code pc m Op.logical_or = or_op code pc m
exec env capture n code pc m (Op.load_field_ref r) =
    field_ref_op env n r (number_at 2 code (pc + 1)) (pc + 3) m
exec env capture n code pc m (Op.get_context_ref r) =
    context_ref_op env n r (number_at 2 code (pc + 1)) (pc + 3) m
exec env capture n code pc m Op.load_string =
    push_string n string plain_literal (env.code_address + pc + 1) size_max
      (pc + size_of code pc Op.load_string) m
exec env capture n code pc m Op.load_star_glob_string =
    push_string n star_glob_string star_glob_literal (env.code_address + pc + 1) size_max
      (pc + size_of code pc Op.load_star_glob_string) m
exec env capture n code pc m Op.load_s64 = push_s64 n (number_at 8 code (pc + 1)) (pc + 9) m
exec env capture n code pc m Op.load_double = push_double n (number_at 8 code (pc + 1)) (pc + 9) m
exec env capture n code pc m Op.cast_to_s64 = cast_op env pc m
exec env capture n code pc m Op.cast_double_to_s64 = double_to_s64_op env pc m
exec env capture n code pc m Op.cast_nop = running (pc + 1) m
exec env capture n code pc m (Op.get_root r) = root_op env n r pc m
exec env capture n code pc m Op.get_symbol = symbol_op pc m
exec env capture n code pc m Op.get_symbol_field = error
exec env capture n code pc m Op.get_index_u16 =
    entry_op (env.get_index (number_at 2 code (pc + 1))) (pc + 3) m
exec env capture n code pc m Op.get_index_u64 =
    entry_op (env.get_index (number_at 8 code (pc + 1))) (pc + 9) m
exec env capture n code pc m Op.load_field = entry_op env.load_field (pc + 1) m
exec env capture n code pc m (Op.load_field_sized w) = sized_op env w pc m

-- An operation that the code does not know is an error; one that goes past the code's end is a fault.
abbrev pub exec_known : Env → Bool → ℕ → List ℕ → ℕ → Machine → Option Op → Outcome
exec_known env capture n code pc m none = error
exec_known env capture n code pc m (some op) =
    if leb (pc + size_of code pc op) (length code) then exec env capture n code pc m op else fault

-- The instruction at an offset; behind the code's end there is none, which is a fault.
unfoldable pub step : Env → Bool → ℕ → List ℕ → ℕ → Machine → Outcome
step env capture n code pc m =
    if ltb pc (length code) then exec_known env capture n code pc m (op_at code pc) else fault

-- The run from an offset, on fuel; what is still `running` at the end has run out of it.
unfoldable pub run : ℕ → Env → Bool → ℕ → List ℕ → Outcome → Outcome
run zero env capture n code o = o
run (suc f) env capture n code (running pc m) =
    run f env capture n code (step env capture n code pc m)
run (suc f) env capture n code o = o

-- `lttng_bytecode_interpret` up to its output: an empty program is an error.
unfoldable pub lttng_bytecode_interpret : Env → Bool → ℕ → List ℕ → Outcome
lttng_bytecode_interpret env capture n code =
    if length code == 0 then error else run (length code) env capture n code (running 0 (start n))
