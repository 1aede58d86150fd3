-- ===== src/Counter/Tests.antt =====
-- A counter of signed bytes over three by two elements, two processors and a step of 100.
use lttng_ust.Common.{
  ◌-◌, ℕ, ◌+◌, ◌%◌, ◌^◌, ◌<◌, ◌≡◌, ◌↔◌, ◌≤◌, refl, arith, some, true, false, List, [], ◌∷◌,
  replicate,
}
use lttng_ust.Counter.{
  size_8, per_cpu_and_channel, Dimension, Layout, Counter, ok, biased, is_overflow, is_underflow,
  move_of, add_to, add_channel, add_percpu, lttng_bitmap_clear_bit, lttng_bitmap_test_bit,
  lttng_bitmap_set_bit, lttng_counter_init_stride, lttng_counter_validate_indexes,
  lttng_counter_get_index, lttng_counter_add,
}
use lttng_ust.Counter.Index.{get_index-lt, get_index_unique, product}
use lttng_ust.Counter.Total.{IsSized, Sums, lttng_counter_add-Sums}
use lttng_ust.Counter.Flags.{is_overflow_iff, is_underflow_iff}
use lttng_ust.Counter.Read.{
  Reading, lttng_counter_read, aggregate_cpus, lttng_counter_aggregate, clear_cpus,
  lttng_counter_clear,
}
use lttng_ust.Counter.Read.Sum.{lttng_counter_add-aggregate}
use lttng_ust.Counter.Read.Clear.{Zeroed, lttng_counter_clear-Zeroed}

abbrev dims : List Dimension
dims = record { max_nr_elem = 3; stride = 2 } ∷ record { max_nr_elem = 2; stride = 1 } ∷ []

strides : lttng_counter_init_stride (3 ∷ 2 ∷ []) ≡ some (dims, 6)
unfolding lttng_counter_init_stride
strides = refl

-- The number of elements wraps to 0, which no test sees.
strides-wrap :
    lttng_counter_init_stride (2 ^ 40 ∷ 2 ^ 30 ∷ [])
    ≡ some (
      record { max_nr_elem = 2 ^ 40; stride = 2 ^ 30 }
          ∷ record { max_nr_elem = 2 ^ 30; stride = 1 }
          ∷ [],
      0,
    )
unfolding lttng_counter_init_stride
strides-wrap = refl

-- Clearing the flag of element 0 clears that of element 40.
clear_bit-upper : lttng_bitmap_clear_bit (λ bit. 0) 0 (2 ^ 40 ∷ []) ≡ 0 ∷ []
unfolding lttng_bitmap_clear_bit
clear_bit-upper = refl

abbrev empty : Layout
empty = record {
  mapped = true;
  counters = replicate 6 0;
  overflow_bitmap = 0 ∷ [];
  underflow_bitmap = 0 ∷ [];
}

abbrev full : Layout
full = record empty { counters = 0 ∷ 0 ∷ 0 ∷ 100 ∷ 0 ∷ 0 ∷ [] }

abbrev counter : Counter
counter = record {
  size = size_8;
  alloc = per_cpu_and_channel;
  dimensions = dims;
  global_sum_step = 100;
  channel_counters = empty;
  percpu_counters = empty ∷ full ∷ [];
}

-- One more on the second processor passes the step: 50 move, and an overflow is flagged.
abbrev after : Counter
after = record counter {
  channel_counters = record empty { counters = 0 ∷ 0 ∷ 0 ∷ 50 ∷ 0 ∷ 0 ∷ [] };
  percpu_counters =
      empty
      ∷ record empty { counters = 0 ∷ 0 ∷ 0 ∷ 51 ∷ 0 ∷ 0 ∷ []; overflow_bitmap = 8 ∷ [] }
      ∷ [];
}

abbrev indexes : List ℕ
indexes = 1 ∷ 1 ∷ []

add-move : lttng_counter_add (λ bit. 0) 1 indexes 1 counter ≡ ok after
unfolding lttng_counter_add lttng_counter_validate_indexes lttng_counter_get_index add_percpu
    add_channel add_to move_of lttng_bitmap_test_bit lttng_bitmap_set_bit
add-move = refl

counter-IsSized : IsSized (lttng_counter_get_index dims indexes) counter
unfolding lttng_counter_get_index
counter-IsSized = record {
  step = omega arith;
  channel = omega arith;
  cpus = (omega arith, (omega arith, tt));
}

get_index-lt_example : (6 ≡ product (3 ∷ 2 ∷ [])) × (lttng_counter_get_index dims indexes < 6)
unfolding lttng_counter_validate_indexes
get_index-lt_example = get_index-lt (3 ∷ 2 ∷ []) strides (omega arith) indexes refl

get_index_unique_example : indexes ≡ indexes
unfolding lttng_counter_validate_indexes
get_index_unique_example =
    get_index_unique (3 ∷ 2 ∷ []) strides (omega arith) indexes indexes refl refl refl

lttng_counter_add-Sums_example : Sums (lttng_counter_get_index dims indexes) 1 counter after
lttng_counter_add-Sums_example =
    lttng_counter_add-Sums (λ bit. 0) 1 indexes 1 counter counter-IsSized add-move

abbrev sum_before : Reading
sum_before = record { value = 100; overflow = false; underflow = false }

abbrev sum_after : Reading
sum_after = record { value = 101; overflow = true; underflow = false }

aggregate-before : lttng_counter_aggregate counter indexes ≡ ok sum_before
unfolding lttng_counter_aggregate aggregate_cpus lttng_counter_read lttng_counter_validate_indexes
    lttng_counter_get_index lttng_bitmap_test_bit
aggregate-before = refl

aggregate-after : lttng_counter_aggregate after indexes ≡ ok sum_after
unfolding lttng_counter_aggregate aggregate_cpus lttng_counter_read lttng_counter_validate_indexes
    lttng_counter_get_index lttng_bitmap_test_bit
aggregate-after = refl

lttng_counter_add-aggregate_example : 101 % 2 ^ 8 ≡ (100 % 2 ^ 8 + 1) % 2 ^ 8
lttng_counter_add-aggregate_example =
    lttng_counter_add-aggregate (λ bit. 0) 1 indexes 1 counter refl counter-IsSized add-move
      aggregate-before aggregate-after

lttng_counter_clear-Zeroed_example :
    Zeroed
      (lttng_counter_get_index dims indexes)
      counter
      (lttng_counter_clear (λ bit. 0) indexes counter).0
unfolding lttng_counter_clear lttng_counter_validate_indexes clear_cpus
lttng_counter_clear-Zeroed_example =
    lttng_counter_clear-Zeroed (λ bit. 0) indexes counter refl counter-IsSized refl

is_overflow_iff_example :
    (is_overflow size_8 1 127 ((127 + 1) % 2 ^ 8) ≡ true) ↔ (2 ^ 8 ≤ biased 8 127 + 1)
is_overflow_iff_example =
    is_overflow_iff size_8 1 127 (omega arith) (omega arith) (omega arith) (omega arith)

is_underflow_iff_example :
    (is_underflow size_8 (2 ^ 64 - 1) 128 ((128 + (2 ^ 64 - 1)) % 2 ^ 8) ≡ true)
    ↔ (biased 8 128 < 1)
is_underflow_iff_example =
    is_underflow_iff size_8 1 128 (omega arith) (omega arith) (omega arith) (omega arith)
