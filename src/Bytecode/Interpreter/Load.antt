-- ===== src/Bytecode/Interpreter/Load.antt =====
-- The loads of `lttng_bytecode_interpret`.
use lttng_ust.Common.{ℕ, ◌+◌, ◌-◌, ◌/◌, ◌%◌, ◌^◌, ◌==◌, ltb, if◌then◌else◌, Option, some, none}
use lttng_ust.Bytecode.{Ref, Root, payload, Width, EntryType, s64, u64, double, string, ptr}
use lttng_ust.Bytecode.Interpreter.Machine.{
  Literal, none_literal, Entry, Machine, Env, Outcome, error, running, Selected, s64_selected,
  double_selected, string_selected, estack_push, estack_ax, set_ax, reload, ◌>>=◌,
}
use lttng_ust.Bytecode.Interpreter.Compare.{with_ax}

abbrev pub size_max : ℕ
size_max = 2 ^ 64 - 1

-- A string pushed: its address, which must not be null, and its length.
abbrev pub push_string : ℕ → EntryType → Literal → ℕ → ℕ → ℕ → Machine → Outcome
push_string n t literal address len pc m = estack_push n m >>= λ m'. estack_ax m' >>= λ x.
    if address == 0
    then error
    else running pc
        (record (set_ax (record x { first = address; second = len; literal = literal }) m') {
          ax_t = t;
        })

abbrev pub push_s64 : ℕ → ℕ → ℕ → Machine → Outcome
push_s64 n v pc m = estack_push n m >>= λ m'. running pc (record m' { ax = v; ax_t = s64 })

-- A double goes to memory only.
abbrev pub push_double : ℕ → ℕ → ℕ → Machine → Outcome
push_double n v pc m = estack_push n m >>= λ m'.
    estack_ax m' >>= λ x. running pc (record (set_ax (record x { first = v }) m') { ax_t = double })

abbrev pub push_nothing : ℕ → Machine → Outcome
push_nothing n m = estack_push n m >>= λ _. error

unfoldable pub field_ref_op : Env → ℕ → Ref → ℕ → ℕ → Machine → Outcome
field_ref_op env n Ref.untyped at pc m = error
field_ref_op env n Ref.string at pc m =
    push_string n string none_literal (env.load 8 (env.payload_address + at)) size_max pc m
field_ref_op env n Ref.sequence at pc m =
    push_string n string none_literal (env.load 8 (env.payload_address + at + 8))
      (env.load 8 (env.payload_address + at)) pc m
field_ref_op env n Ref.s64 at pc m = push_s64 n (env.load 8 (env.payload_address + at)) pc m
field_ref_op env n Ref.double at pc m = push_double n (env.load 8 (env.payload_address + at)) pc m

-- A context's value, by what it is found to be.
abbrev pub selected_op : Env → ℕ → ℕ → ℕ → Machine → Selected → Outcome
selected_op env n at pc m s64_selected = push_s64 n (env.ctx_value at) pc m
selected_op env n at pc m double_selected = push_double n (env.ctx_value at) pc m
selected_op env n at pc m string_selected =
    push_string n string none_literal (env.ctx_value at) size_max pc m
selected_op env n at pc m _ = push_nothing n m

unfoldable pub context_ref_op : Env → ℕ → Ref → ℕ → ℕ → Machine → Outcome
context_ref_op env n Ref.string at pc m =
    push_string n string none_literal (env.ctx_value at) size_max pc m
context_ref_op env n Ref.sequence at pc m = error
context_ref_op env n Ref.s64 at pc m = push_s64 n (env.ctx_value at) pc m
context_ref_op env n Ref.double at pc m = push_double n (env.ctx_value at) pc m
context_ref_op env n Ref.untyped at pc m = selected_op env n at pc m (env.ctx_selected at)

unfoldable pub double_to_s64_op : Env → ℕ → Machine → Outcome
double_to_s64_op env pc m = estack_ax m >>= λ x. with_ax s64 (env.s64_of_double x.first) pc m

-- The case of `u64` falls through to the error.
abbrev pub cast_by : Env → ℕ → Machine → EntryType → Outcome
cast_by env pc m s64 = running (pc + 1) m
cast_by env pc m double = double_to_s64_op env pc m
cast_by env pc m _ = error

unfoldable pub cast_op : Env → ℕ → Machine → Outcome
cast_op env pc m = cast_by env pc m m.ax_t

-- `enum load_type`
abbrev load_type : Root → ℕ
load_type Root.context = 0
load_type Root.app_context = 1
load_type Root.payload = 2

abbrev root_entry : Env → Root → Entry → Entry
root_entry env r x = record x {
  first = x.first - x.first % 2 ^ 32 + load_type r;
  second = elim r [ payload ↦ env.payload_address | _ ↦ x.second ];
}

unfoldable pub root_op : Env → ℕ → Root → ℕ → Machine → Outcome
root_op env n r pc m = estack_push n m >>= λ m'.
    estack_ax m' >>= λ x. running (pc + 1) (record (set_ax (root_entry env r x) m') { ax_t = ptr })

-- The look-up of a symbol was left to the specialization: any of the four pointer types is an error.
unfoldable pub symbol_op : ℕ → Machine → Outcome
symbol_op pc m = estack_ax m >>= λ x. if ltb (x.first % 2 ^ 32) 4 then error else running (pc + 3) m

abbrev pub give_entry : ℕ → Machine → Option Entry → Outcome
give_entry pc m none = error
give_entry pc m (some y) = running pc (reload y m)

unfoldable pub entry_op : (Entry → Option Entry) → ℕ → Machine → Outcome
entry_op f pc m = estack_ax m >>= λ x. give_entry pc m (f x)

abbrev width : Width → ℕ
width Width.i8 = 1
width Width.i16 = 2
width Width.i32 = 4
width Width.i64 = 8
width Width.u8 = 1
width Width.u16 = 2
width Width.u32 = 4
width Width.u64 = 8
width _ = 8

abbrev sign_extend : ℕ → ℕ → ℕ
sign_extend k v = if ltb v (256 ^ k / 2) then v else 2 ^ 64 - 256 ^ k + v

abbrev pub load_integer : Env → Width → ℕ → Machine → Outcome
load_integer env w pc m =
    estack_ax m >>= λ x. with_ax s64 (sign_extend (width w) (env.load (width w) x.second)) pc m

abbrev pub load_unsigned : Env → Width → ℕ → Machine → Outcome
load_unsigned env w pc m = estack_ax m >>= λ x. with_ax u64 (env.load (width w) x.second) pc m

-- A string at an address, with its length; only memory has its type.
abbrev pub load_text : ℕ → ℕ → Entry → ℕ → Machine → Outcome
load_text address len x pc m =
    if address == 0
    then error
    else running (pc + 1) (
        set_ax (record x { type = string; first = address; second = len; literal = none_literal })
          m)

unfoldable pub sized_op : Env → Width → ℕ → Machine → Outcome
sized_op env Width.u8 pc m = load_unsigned env Width.u8 pc m
sized_op env Width.u16 pc m = load_unsigned env Width.u16 pc m
sized_op env Width.u32 pc m = load_unsigned env Width.u32 pc m
sized_op env Width.u64 pc m = load_unsigned env Width.u64 pc m
sized_op env Width.string pc m = estack_ax m >>= λ x. load_text x.second size_max x pc m
sized_op env Width.sequence pc m =
    estack_ax m >>= λ x. load_text (env.load 8 (x.second + 8)) (env.load 8 x.second) x pc m
sized_op env Width.double pc m = estack_ax m >>= λ x.
    running (pc + 1) (set_ax (record x { type = double; first = env.load 8 x.second }) m)
sized_op env w pc m = load_integer env w pc m
