-- ===== src/Bytecode/Interpreter/Machine.antt =====
-- The interpreter's state, what it takes from outside, and the moves on its stack.
use lttng_ust.Common.{
  ℕ, ◌+◌, ◌-◌, Bool, List, ltb, if◌then◌else◌, get_elem?, modify, replicate, Option, some, none,
}
use lttng_ust.Bytecode.{EntryType, unknown, interpreter_stack_empty}

-- `enum estack_string_literal_type`
pub data Literal : Type 0 where
  none_literal plain_literal star_glob_literal : Literal

pub record Entry : Type 0 where
  pub type : EntryType
  pub first : ℕ
  pub second : ℕ
  pub literal : Literal

pub record Machine : Type 0 where
  pub top : ℕ
  pub ax : ℕ
  pub bx : ℕ
  pub ax_t : EntryType
  pub bx_t : EntryType
  pub e : List Entry

-- A context's value by the kind that it says it has.
pub data Selected : Type 0 where
  none_selected s64_selected double_selected string_selected other_selected : Selected

-- What the run reads and calls. The bytes at an address are those before the NUL, or as many as the
-- length says; a number is read from memory at an address. The traversal of contexts, payloads and
-- composed types is a call.
pub record Env : Type 0 where
  pub bytes_at : ℕ → ℕ → List ℕ
  pub load : ℕ → ℕ → ℕ
  pub code_address : ℕ
  pub payload_address : ℕ
  pub ctx_selected : ℕ → Selected
  pub ctx_value : ℕ → ℕ
  pub get_index : ℕ → Entry → Option Entry
  pub load_field : Entry → Option Entry
  pub double_eq : ℕ → ℕ → Bool
  pub double_lt : ℕ → ℕ → Bool
  pub double_le : ℕ → ℕ → Bool
  pub double_neg : ℕ → ℕ
  pub double_of_s64 : ℕ → ℕ
  pub s64_of_double : ℕ → ℕ

-- A failed assertion, or a read outside the stack or the program; a read behind a string's end;
-- `ret` as an error; the value returned; or the state at the next instruction.
pub data Outcome : Type 0 where
  fault : Outcome
  over : Outcome
  error : Outcome
  finished : ℕ → Machine → Outcome
  running : ℕ → Machine → Outcome

abbrev blank : Entry
blank = record { type = unknown; first = 0; second = 0; literal = none_literal }

-- The state at the start. The stack's memory holds what it held; here, zeros.
unfoldable pub start : ℕ → Machine
start stack_len = record {
  top = interpreter_stack_empty;
  ax = 0;
  bx = 0;
  ax_t = unknown;
  bx_t = unknown;
  e = replicate stack_len blank;
}

abbrev pub spill : ℕ → EntryType → Entry → Entry
spill v t x = record x { type = t; first = v }

abbrev pub pushed : Machine → Machine
pushed m = record m {
  e = modify m.e (m.top - 1) (spill m.bx m.bx_t);
  bx = m.ax;
  bx_t = m.ax_t;
  top = m.top + 1;
}

abbrev pub popped : Entry → Machine → Machine
popped x m = record m { ax = m.bx; ax_t = m.bx_t; bx = x.first; bx_t = x.type; top = m.top - 1 }

-- `estack_push`, for a stack of the given length: `bx` goes to its place in memory.
unfoldable pub estack_push : ℕ → Machine → Option Machine
estack_push stack_len m = if ltb m.top (stack_len - 1) then some (pushed m) else none

-- `estack_pop`: the new `bx` comes from memory.
unfoldable pub estack_pop : Machine → Option Machine
estack_pop m =
    if ltb interpreter_stack_empty m.top
    then elim (get_elem? m.e (m.top - 2)) [ none ↦ none | some x ↦ some (popped x m) ]
    else none

-- `estack_ax` and `estack_bx`: the entries in memory.
unfoldable pub estack_ax : Machine → Option Entry
estack_ax m = if ltb interpreter_stack_empty m.top then get_elem? m.e m.top else none

unfoldable pub estack_bx : Machine → Option Entry
estack_bx m = if ltb (interpreter_stack_empty + 1) m.top then get_elem? m.e (m.top - 1) else none

abbrev pub set_ax : Entry → Machine → Machine
set_ax x m = record m { e = modify m.e m.top (λ _. x) }

-- Registers loaded from the entry at the top.
abbrev pub reload : Entry → Machine → Machine
reload x m = record (set_ax x m) { ax = x.first; ax_t = x.type }

infixl 5 ◌>>=◌
abbrev pub ◌>>=◌ {ℓ} : {A : Type ℓ} → Option A → (A → Outcome) → Outcome
none >>= f = fault
some a >>= f = f a
