-- ===== src/Bytecode/Interpreter/Compare.antt =====
-- The comparisons of `lttng_bytecode_interpret`.
use lttng_ust.Common.{
  ℕ, ◌+◌, ◌%◌, ◌^◌, Bool, true, false, not, ◌==◌, leb, ltb, if◌then◌else◌, Option, some, none,
}
use lttng_ust.Strutils.{Bytes, star_glob_match}
use lttng_ust.Bytecode.{Cmp, Operands, EntryType, s64, u64, double, string, star_glob_string}
use lttng_ust.Bytecode.Interpreter.Strings.{Order, less, equal, greater, overread, stack_strcmp}
use lttng_ust.Bytecode.Interpreter.Machine.{
  over, Literal, plain_literal, star_glob_literal, Entry, Machine, Env, Outcome, error, running,
  estack_pop, estack_ax, estack_bx, ◌>>=◌,
}

abbrev pub bit : Bool → ℕ
bit b = if b then 1 else 0

abbrev pub is_integer : EntryType → Bool
is_integer s64 = true
is_integer u64 = true
is_integer _ = false

-- The order of two words as `int64_t`.
abbrev signed : ℕ → ℕ
signed v = (v + 2 ^ 63) % 2 ^ 64

unfoldable pub compare_s64 : Cmp → ℕ → ℕ → Bool
compare_s64 Cmp.eq a b = a == b
compare_s64 Cmp.ne a b = not (a == b)
compare_s64 Cmp.gt a b = ltb (signed b) (signed a)
compare_s64 Cmp.lt a b = ltb (signed a) (signed b)
compare_s64 Cmp.ge a b = leb (signed b) (signed a)
compare_s64 Cmp.le a b = leb (signed a) (signed b)

unfoldable pub compare_double : Env → Cmp → ℕ → ℕ → Bool
compare_double env Cmp.eq a b = env.double_eq a b
compare_double env Cmp.ne a b = not (env.double_eq a b)
compare_double env Cmp.gt a b = env.double_lt b a
compare_double env Cmp.lt a b = env.double_lt a b
compare_double env Cmp.ge a b = env.double_le b a
compare_double env Cmp.le a b = env.double_le a b

-- The result of a string comparison against 0.
unfoldable pub order_is : Cmp → Order → Bool
order_is Cmp.eq Order.equal = true
order_is Cmp.ne Order.less = true
order_is Cmp.ne Order.greater = true
order_is Cmp.gt Order.greater = true
order_is Cmp.lt Order.less = true
order_is Cmp.ge Order.equal = true
order_is Cmp.ge Order.greater = true
order_is Cmp.le Order.equal = true
order_is Cmp.le Order.less = true
order_is _ _ = false

abbrev is_plain : Literal → Bool
is_plain plain_literal = true
is_plain _ = false

abbrev is_glob : Literal → Bool
is_glob star_glob_literal = true
is_glob _ = false

abbrev text : Env → Entry → Bytes
text env x = env.bytes_at x.first x.second

-- Entries are compared, `bx` against `ax`, unless the code reads behind a string's end.
unfoldable pub compare_strings : Env → Cmp → Entry → Entry → Option Bool
compare_strings env c bx ax =
    elim (stack_strcmp (is_plain bx.literal) (is_plain ax.literal) (text env bx) (text env ax)) [
      | overread ↦ none
      | less ↦ some (order_is c Order.less)
      | equal ↦ some (order_is c Order.equal)
      | greater ↦ some (order_is c Order.greater)
    ]

-- `stack_star_glob_match`: the pattern is the literal that says so, `ax` first.
unfoldable pub stack_star_glob_match : Env → Entry → Entry → Bool
stack_star_glob_match env bx ax =
    if is_glob ax.literal
    then star_glob_match (text env ax) ax.second (text env bx) bx.second
    else star_glob_match (text env bx) bx.second (text env ax) ax.second

-- What a binary instruction leaves: the result in place of both operands.
abbrev pub give : EntryType → ℕ → ℕ → Machine → Outcome
give t v pc m = estack_pop m >>= λ m'. running (pc + 1) (record m' { ax = v; ax_t = t })

abbrev pub give_compared : ℕ → Machine → Option Bool → Outcome
give_compared pc m none = over
give_compared pc m (some r) = give s64 (bit r) pc m

-- A comparison for operands of known types.
unfoldable pub compare_op : Env → Cmp → Operands → ℕ → Machine → Outcome
compare_op env c Operands.any pc m = error
compare_op env c Operands.s64 pc m = give s64 (bit (compare_s64 c m.bx m.ax)) pc m
compare_op env c Operands.string pc m =
    estack_bx m >>= λ bx. estack_ax m >>= λ ax. give_compared pc m (compare_strings env c bx ax)
compare_op env c Operands.star_glob pc m = estack_bx m >>= λ bx. estack_ax m >>= λ ax.
    give s64 (bit (compare_s64 c (bit (stack_star_glob_match env bx ax)) 1)) pc m
compare_op env c Operands.double pc m = estack_bx m >>= λ bx.
    estack_ax m >>= λ ax. give s64 (bit (compare_double env c bx.first ax.first)) pc m
compare_op env c Operands.double_s64 pc m = estack_bx m >>= λ bx.
    give s64 (bit (compare_double env c bx.first (env.double_of_s64 m.ax))) pc m
compare_op env c Operands.s64_double pc m = estack_ax m >>= λ ax.
    give s64 (bit (compare_double env c (env.double_of_s64 m.bx) ax.first)) pc m

abbrev glob_operands : Cmp → Option Operands
glob_operands Cmp.eq = some Operands.star_glob
glob_operands Cmp.ne = some Operands.star_glob
glob_operands _ = none

-- The comparison that dynamic typing jumps to, for the types of `ax` and `bx`.
unfoldable pub operands_of : Cmp → EntryType → EntryType → Option Operands
operands_of c s64 s64 = some Operands.s64
operands_of c s64 u64 = some Operands.s64
operands_of c s64 double = some Operands.double_s64
operands_of c u64 s64 = some Operands.s64
operands_of c u64 u64 = some Operands.s64
operands_of c u64 double = some Operands.double_s64
operands_of c double s64 = some Operands.s64_double
operands_of c double u64 = some Operands.s64_double
operands_of c double double = some Operands.double
operands_of c string string = some Operands.string
operands_of c string star_glob_string = glob_operands c
operands_of c star_glob_string string = glob_operands c
operands_of c _ _ = none

abbrev pub compare_by : Env → Cmp → ℕ → Machine → Option Operands → Outcome
compare_by env c pc m none = error
compare_by env c pc m (some k) = compare_op env c k pc m

unfoldable pub compare_any : Env → Cmp → ℕ → Machine → Outcome
compare_any env c pc m = compare_by env c pc m (operands_of c m.ax_t m.bx_t)

abbrev pub with_ax : EntryType → ℕ → ℕ → Machine → Outcome
with_ax t v pc m = running (pc + 1) (record m { ax = v; ax_t = t })
