-- ===== src/Counter.antt =====
-- src/common/counter (counter.c, counter-api.h, counter-internal.h) and src/common/bitmap.h: the
-- counters of a channel. A value of `int64_t` or of a counter's own size is its two's complement
-- word. The loops on an exchange are one pass, as they are where no other thread writes.
pub mod Index
pub mod Columns
pub mod Total
pub mod Read
pub mod Flags
mod Tests
use Prim.Native.Nat.{bit_and, bit_or}
use lttng_ust.Common.{
  ℕ, zero, suc, ◌+◌, ◌-◌, ◌*◌, ◌/◌, ◌%◌, ◌^◌, Bool, true, false, not, ◌&&◌, ◌||◌, List, [], ◌∷◌,
  ◌==◌, leb, ltb, if◌then◌else◌, length, get_elem?, get_or, set, Option, some, none, field_at,
}

-- `counter_size`
pub data Size : Type 0 where
  size_8 size_16 size_32 size_64 : Size

abbrev pub bits : Size → ℕ
bits size_8 = 8
bits size_16 = 16
bits size_32 = 32
bits size_64 = 64

-- The sets of flags of `lib_counter_config_alloc` that the switches know.
pub data Alloc : Type 0 where
  per_cpu per_channel per_cpu_and_channel : Alloc

pub record Dimension : Type 0 where
  pub max_nr_elem : ℕ
  pub stride : ℕ

-- `mapped`: its memory is there (`counters` is not null).
pub record Layout : Type 0 where
  pub mapped : Bool
  pub counters : List ℕ
  pub overflow_bitmap : List ℕ
  pub underflow_bitmap : List ℕ

pub record Counter : Type 0 where
  pub size : Size
  pub alloc : Alloc
  pub dimensions : List Dimension
  pub global_sum_step : ℕ
  pub channel_counters : Layout
  pub percpu_counters : List Layout

pub data Error : Type 0 where
  eoverflow enodev einval : Error

pub data Result {ℓ} (A : Type ℓ) : Type ℓ where
  ok : A → Result A
  err : Error → Result A

abbrev pub bind {ℓ κ} : {A : Type ℓ} {B : Type κ} → Result A → (A → Result B) → Result B
bind (ok a) f = f a
bind (err e) f = err e

-- `1U << bit`. From 32 on C leaves it open: what the processor gives is a parameter.
abbrev pub one_shl : (ℕ → ℕ) → ℕ → ℕ
one_shl wide bit = if ltb bit 32 then 2 ^ bit else wide bit

abbrev pub word_at : ℕ → List ℕ → ℕ
word_at i words = get_or words i 0

unfoldable pub lttng_bitmap_set_bit : (ℕ → ℕ) → ℕ → List ℕ → List ℕ
lttng_bitmap_set_bit wide index p =
    set p (index / 64) (bit_or (word_at (index / 64) p) (one_shl wide (index % 64)))

-- The complement is of an `unsigned int`.
unfoldable pub lttng_bitmap_clear_bit : (ℕ → ℕ) → ℕ → List ℕ → List ℕ
lttng_bitmap_clear_bit wide index p =
    set p (index / 64) (bit_and (word_at (index / 64) p) (2 ^ 32 - 1 - one_shl wide (index % 64)))

unfoldable pub lttng_bitmap_test_bit : ℕ → List ℕ → Bool
lttng_bitmap_test_bit index p = word_at (index / 64) p / 2 ^ (index % 64) % 2 == 1

-- The order of words as signed values of a size.
abbrev pub biased : ℕ → ℕ → ℕ
biased w a = (a + 2 ^ (w - 1)) % 2 ^ w

abbrev pub slt : ℕ → ℕ → ℕ → Bool
slt w a b = ltb (biased w a) (biased w b)

-- One step of the loop of `lttng_counter_init_stride`, from the last dimension on: the dimensions
-- behind it with their stride, and the stride before them.
abbrev pub add_stride : ℕ → Option (List Dimension × ℕ) → Option (List Dimension × ℕ)
add_stride nr_elem none = none
add_stride nr_elem (some (dims, stride)) =
    if nr_elem == 0
    then none
    else if ltb ((2 ^ 64 - 1) / nr_elem) (stride * nr_elem % 2 ^ 64)
    then none
    else some (record { max_nr_elem = nr_elem; stride = stride } ∷ dims, stride * nr_elem % 2 ^ 64)

unfoldable pub lttng_counter_init_stride : List ℕ → Option (List Dimension × ℕ)
lttng_counter_init_stride [] = some ([], 1)
lttng_counter_init_stride (nr_elem ∷ rest) = add_stride nr_elem (lttng_counter_init_stride rest)

-- There is an index for each dimension.
unfoldable pub lttng_counter_validate_indexes : List Dimension → List ℕ → Bool
lttng_counter_validate_indexes [] [] = true
lttng_counter_validate_indexes (d ∷ dims) (i ∷ indexes) =
    if leb d.max_nr_elem i then false else lttng_counter_validate_indexes dims indexes
lttng_counter_validate_indexes _ _ = false

unfoldable pub lttng_counter_get_index : List Dimension → List ℕ → ℕ
lttng_counter_get_index [] _ = 0
lttng_counter_get_index (d ∷ dims) [] = 0
lttng_counter_get_index (d ∷ dims) (i ∷ indexes) =
    (i * d.stride + lttng_counter_get_index dims indexes) % 2 ^ 64

-- `move_sum` for the new word of a per-CPU counter: up, down or nothing to move.
unfoldable pub move_of : ℕ → ℕ → ℕ → ℕ
move_of w step n =
    if step == 0
    then 0
    else if slt w step n
    then step / 2
    else if slt w n ((2 ^ w - step) % 2 ^ w)
    then (2 ^ 64 - step / 2) % 2 ^ 64
    else 0

-- The limit of the quick tests, which the 64-bit counters have not.
abbrev pub limit : Size → ℕ
limit size_64 = 2 ^ 64
limit s = 2 ^ bits s - 1

-- `v > 0 && (v >= UINT_MAX || n < old)`, and the same down.
abbrev pub is_overflow : Size → ℕ → ℕ → ℕ → Bool
is_overflow s v old n = (ltb 0 v && ltb v (2 ^ 63)) && (leb (limit s) v || slt (bits s) n old)

abbrev pub is_underflow : Size → ℕ → ℕ → ℕ → Bool
is_underflow s v old n = leb (2 ^ 63) v && (leb (limit s) (2 ^ 64 - v) || slt (bits s) old n)

abbrev pub flag : (ℕ → ℕ) → ℕ → Bool → List ℕ → List ℕ
flag wide index b p =
    if b && not (lttng_bitmap_test_bit index p) then lttng_bitmap_set_bit wide index p else p

-- A counter of a layout set, with the flags that this raises.
abbrev pub store : (ℕ → ℕ) → Size → ℕ → ℕ → ℕ → ℕ → Layout → Layout
store wide s index v old n l = record l {
  counters = set l.counters index n;
  overflow_bitmap = flag wide index (is_overflow s v old n) l.overflow_bitmap;
  underflow_bitmap =
      if is_overflow s v old n
      then l.underflow_bitmap
      else flag wide index (is_underflow s v old n) l.underflow_bitmap;
}

-- `__lttng_counter_add` on a layout, with the step of a per-CPU one or 0: the layout after it, and
-- what is to move.
unfoldable pub add_to : (ℕ → ℕ) → Size → ℕ → ℕ → ℕ → Layout → Result (Layout × ℕ)
add_to wide s step index v l =
    if not l.mapped
    then err enodev
    else let old = word_at index l.counters in
      let sum = (old + v) % 2 ^ bits s in
      let move = move_of (bits s) step sum in
      ok (store wide s index v old ((sum + 2 ^ 64 - move) % 2 ^ bits s) l, move)

abbrev pub set_channel : Counter → Layout × ℕ → Counter
set_channel c r = record c { channel_counters = r.0 }

-- `__lttng_counter_add` for `COUNTER_ALLOC_PER_CHANNEL`.
unfoldable pub add_channel : (ℕ → ℕ) → ℕ → ℕ → Counter → Result Counter
add_channel wide index v c =
    bind (add_to wide c.size 0 index v c.channel_counters) (λ r. ok (set_channel c r))

abbrev pub set_cpu : Counter → ℕ → Layout → Counter
set_cpu c cpu l = record c { percpu_counters = set c.percpu_counters cpu l }

-- What is to move goes to the channel's counter.
abbrev pub and_move : (ℕ → ℕ) → ℕ → ℕ → Counter → Layout × ℕ → Result Counter
and_move wide index cpu c r =
    if r.1 == 0 then ok (set_cpu c cpu r.0) else add_channel wide index r.1 (set_cpu c cpu r.0)

-- `__lttng_counter_add_percpu` past the test of the indexes. The processor is one of the possible.
unfoldable pub add_percpu : (ℕ → ℕ) → ℕ → ℕ → ℕ → Counter → Option Layout → Result Counter
add_percpu wide index cpu v c none = err enodev
add_percpu wide index cpu v c (some l) =
    bind (add_to wide c.size c.global_sum_step index v l) (and_move wide index cpu c)

abbrev pub add_at : (ℕ → ℕ) → ℕ → ℕ → ℕ → Counter → Alloc → Result Counter
add_at wide index cpu v c per_channel = add_channel wide index v c
add_at wide index cpu v c _ = add_percpu wide index cpu v c (get_elem? c.percpu_counters cpu)

unfoldable pub lttng_counter_add : (ℕ → ℕ) → ℕ → List ℕ → ℕ → Counter → Result Counter
lttng_counter_add wide cpu indexes v c =
    if not (lttng_counter_validate_indexes c.dimensions indexes)
    then err eoverflow
    else add_at wide (lttng_counter_get_index c.dimensions indexes) cpu v c c.alloc
