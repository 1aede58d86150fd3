-- ===== src/Bytecode/Interpreter/Arith.antt =====
-- The bit operations, the unary and the logical operations of `lttng_bytecode_interpret`, and its
-- returns.
use Prim.Native.Nat.{bit_and, bit_or, bit_xor}
use lttng_ust.Common.{
  ℕ, ◌+◌, ◌-◌, ◌*◌, ◌/◌, ◌%◌, ◌^◌, Bool, not, ◌&&◌, List, ◌==◌, ltb, if◌then◌else◌, Option, some,
  none,
}
use lttng_ust.Bytecode.{
  Operand, Unary, Bitwise, EntryType, s64, u64, double, string, ptr, number_at,
}
use lttng_ust.Bytecode.Interpreter.Machine.{
  Machine, Env, Outcome, error, finished, running, estack_pop, estack_ax, set_ax, ◌>>=◌,
}
use lttng_ust.Bytecode.Interpreter.Compare.{bit, is_integer, give, with_ax}

abbrev pub shift_by : ℕ → ℕ → Option ℕ
shift_by count v = if ltb count 64 then some v else none

-- A bit operation on `bx` and `ax`; a shift by 64 or more, or by a negative count, is an error.
unfoldable pub bitwise_of : Bitwise → ℕ → ℕ → Option ℕ
bitwise_of Bitwise.rshift b a = shift_by a (b / 2 ^ a)
bitwise_of Bitwise.lshift b a = shift_by a (b * 2 ^ a % 2 ^ 64)
bitwise_of Bitwise.and b a = some (bit_and b a)
bitwise_of Bitwise.or b a = some (bit_or b a)
bitwise_of Bitwise.xor b a = some (bit_xor b a)

abbrev pub give_bits : ℕ → Machine → Option ℕ → Outcome
give_bits pc m none = error
give_bits pc m (some v) = give u64 v pc m

unfoldable pub bitwise_op : Bitwise → ℕ → Machine → Outcome
bitwise_op o pc m =
    if is_integer m.ax_t && is_integer m.bx_t
    then give_bits pc m (bitwise_of o m.bx m.ax)
    else error

unfoldable pub unary_s64 : Unary → ℕ → Machine → Outcome
unary_s64 Unary.plus pc m = running (pc + 1) m
unary_s64 Unary.minus pc m = with_ax m.ax_t ((2 ^ 64 - m.ax) % 2 ^ 64) pc m
unary_s64 Unary.not pc m = with_ax s64 (bit (m.ax == 0)) pc m

unfoldable pub unary_double : Env → Unary → ℕ → Machine → Outcome
unary_double env Unary.plus pc m = running (pc + 1) m
unary_double env Unary.minus pc m =
    estack_ax m >>= λ x. running (pc + 1) (set_ax (record x { first = env.double_neg x.first }) m)
unary_double env Unary.not pc m =
    estack_ax m >>= λ x. with_ax s64 (bit (env.double_eq x.first 0)) pc m

abbrev pub unary_by : Env → Unary → ℕ → Machine → EntryType → Outcome
unary_by env o pc m s64 = unary_s64 o pc m
unary_by env o pc m u64 = unary_s64 o pc m
unary_by env o pc m double = unary_double env o pc m
unary_by env o pc m _ = error

unfoldable pub unary_op : Env → Unary → Operand → ℕ → Machine → Outcome
unary_op env o Operand.s64 pc m = unary_s64 o pc m
unary_op env o Operand.double pc m = unary_double env o pc m
unary_op env o Operand.any pc m = unary_by env o pc m m.ax_t

unfoldable pub bit_not_op : ℕ → Machine → Outcome
bit_not_op pc m = if is_integer m.ax_t then with_ax u64 (2 ^ 64 - 1 - m.ax) pc m else error

-- The jump keeps the top, which is then what `jumped` gives.
abbrev pub logical : List ℕ → ℕ → Bool → ℕ → Machine → Outcome
logical code pc jump jumped m =
    if is_integer m.ax_t
    then if jump
      then running (number_at 2 code (pc + 1)) (record m { ax = jumped })
      else (estack_pop m >>= running (pc + 3))
    else error

unfoldable pub and_op : List ℕ → ℕ → Machine → Outcome
and_op code pc m = logical code pc (m.ax == 0) 0 m

unfoldable pub or_op : List ℕ → ℕ → Machine → Outcome
or_op code pc m = logical code pc (not (m.ax == 0)) 1 m

-- What only a capture can return.
abbrev pub captured : Bool → Machine → Outcome
captured capture m = if capture then finished 0 m else error

-- `!!ax` for an integer.
abbrev pub return_by : Bool → Machine → EntryType → Outcome
return_by capture m s64 = finished (bit (not (m.ax == 0))) m
return_by capture m u64 = finished (bit (not (m.ax == 0))) m
return_by capture m double = captured capture m
return_by capture m string = captured capture m
return_by capture m ptr = captured capture m
return_by capture m _ = error

unfoldable pub return_op : Bool → Machine → Outcome
return_op capture m = return_by capture m m.ax_t
