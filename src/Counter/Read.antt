-- ===== src/Counter/Read.antt =====
-- src/common/counter/counter.c: reading, aggregating and clearing a counter, and the tests on a new
-- one's arguments.
pub mod Sum
pub mod Clear
use lttng_ust.Common.{
  ℕ, zero, suc, ◌+◌, ◌-◌, ◌*◌, ◌/◌, ◌%◌, ◌^◌, Bool, true, false, not, ◌&&◌, ◌||◌, List, [], ◌∷◌,
  ◌==◌, leb, ltb, if◌then◌else◌, length, get_elem?, set, Option, some, none,
}
use lttng_ust.Counter.{
  Size, size_8, size_16, size_32, size_64, bits, Alloc, per_cpu, per_channel, per_cpu_and_channel,
  Layout, Counter, Error, eoverflow, enodev, einval, Result, ok, err, bind, word_at, slt,
  lttng_bitmap_test_bit, lttng_bitmap_clear_bit, lttng_counter_validate_indexes,
  lttng_counter_get_index,
}

pub record Reading : Type 0 where
  pub value : ℕ
  pub overflow : Bool
  pub underflow : Bool

-- A word of a counter's size as `int64_t`.
abbrev pub sign_extend : ℕ → ℕ → ℕ
sign_extend w x = if ltb x (2 ^ (w - 1)) then x else (x + 2 ^ 64 - 2 ^ w) % 2 ^ 64

abbrev pub found : Option Layout → Result Layout
found none = err einval
found (some l) = ok l

-- The layout for a processor, or for the channel where there is none (a negative number).
abbrev pub layout_for : Counter → Alloc → Option ℕ → Result Layout
layout_for c per_cpu none = err einval
layout_for c per_cpu (some cpu) = found (get_elem? c.percpu_counters cpu)
layout_for c per_cpu_and_channel none = ok c.channel_counters
layout_for c per_cpu_and_channel (some cpu) = found (get_elem? c.percpu_counters cpu)
layout_for c per_channel none = ok c.channel_counters
layout_for c per_channel (some cpu) = err einval

abbrev pub reading : Size → ℕ → Layout → Reading
reading s index l = record {
  value = sign_extend (bits s) (word_at index l.counters);
  overflow = lttng_bitmap_test_bit index l.overflow_bitmap;
  underflow = lttng_bitmap_test_bit index l.underflow_bitmap;
}

abbrev pub read_layout : Size → ℕ → Layout → Result Reading
read_layout s index l = if not l.mapped then err enodev else ok (reading s index l)

unfoldable pub lttng_counter_read : Counter → List ℕ → Option ℕ → Result Reading
lttng_counter_read c indexes cpu =
    if not (lttng_counter_validate_indexes c.dimensions indexes)
    then err eoverflow
    else bind (layout_for c c.alloc cpu)
        (read_layout c.size (lttng_counter_get_index c.dimensions indexes))

-- A processor's reading added to the sum.
abbrev pub add_reading : Reading → Reading → Reading
add_reading acc r =
    let sum = (acc.value + r.value) % 2 ^ 64 in
    let up = ltb 0 r.value && ltb r.value (2 ^ 63) in
    let raised = up && slt 64 sum acc.value in
    record {
      value = sum;
      overflow = acc.overflow || r.overflow || raised;
      underflow =
          acc.underflow
          || r.underflow
          || (not raised && leb (2 ^ 63) r.value && slt 64 acc.value sum);
    }

-- The loop over the processors from `cpu` on, of which there are `n` more.
unfoldable pub aggregate_cpus : Counter → List ℕ → ℕ → ℕ → Reading → Result Reading
aggregate_cpus c indexes zero cpu acc = ok acc
aggregate_cpus c indexes (suc n) cpu acc =
    let rest = aggregate_cpus c indexes n in
    bind (lttng_counter_read c indexes (some cpu)) (λ r. rest (suc cpu) (add_reading acc r))

-- The sum as the counter's size keeps it, with a flag where that cuts it.
abbrev pub truncate : Size → Reading → Reading
truncate size_64 r = r
truncate s r = record {
  value = sign_extend (bits s) (r.value % 2 ^ bits s);
  overflow = r.overflow || slt 64 (2 ^ (bits s - 1) - 1) r.value;
  underflow = r.underflow || slt 64 r.value (2 ^ 64 - 2 ^ (bits s - 1));
}

abbrev pub nothing_read : Reading
nothing_read = record { value = 0; overflow = false; underflow = false }

abbrev pub aggregate_channel : Counter → List ℕ → Alloc → Result Reading
aggregate_channel c indexes per_cpu = ok nothing_read
aggregate_channel c indexes _ = lttng_counter_read c indexes none

abbrev pub aggregate_rest : Counter → List ℕ → Alloc → Reading → Result Reading
aggregate_rest c indexes per_channel acc = ok acc
aggregate_rest c indexes _ acc = aggregate_cpus c indexes (length c.percpu_counters) 0 acc

unfoldable pub lttng_counter_aggregate : Counter → List ℕ → Result Reading
lttng_counter_aggregate c indexes =
    bind (aggregate_channel c indexes c.alloc)
      (λ r. bind (aggregate_rest c indexes c.alloc r) (λ sum. ok (truncate c.size sum)))

abbrev pub cleared : (ℕ → ℕ) → ℕ → Layout → Layout
cleared wide index l = record l {
  counters = set l.counters index 0;
  overflow_bitmap = lttng_bitmap_clear_bit wide index l.overflow_bitmap;
  underflow_bitmap = lttng_bitmap_clear_bit wide index l.underflow_bitmap;
}

-- An error, with nothing changed, unless a test holds.
abbrev pub guarded {ℓ} : {A : Type ℓ} → Bool → A → Error → A × Option Error → A × Option Error
guarded b x f r = if not b then (x, some f) else r

-- `lttng_counter_clear_cpu` over the processors in turn; an error stops it where it is.
unfoldable pub clear_cpus : (ℕ → ℕ) → ℕ → List Layout → List Layout × Option Error
clear_cpus wide index [] = ([], none)
clear_cpus wide index (l ∷ ls) =
    let rest = clear_cpus wide index ls in
    guarded l.mapped (l ∷ ls) enodev (cleared wide index l ∷ rest.0, rest.1)

abbrev pub set_cpus : Counter → List Layout × Option Error → Counter × Option Error
set_cpus c r = (record c { percpu_counters = r.0 }, r.1)

abbrev pub clear_channel : (ℕ → ℕ) → ℕ → Counter → Counter
clear_channel wide index c = record c { channel_counters = cleared wide index c.channel_counters }

abbrev pub clear_at : (ℕ → ℕ) → ℕ → Counter → Alloc → Counter × Option Error
clear_at wide index c per_cpu = set_cpus c (clear_cpus wide index c.percpu_counters)
clear_at wide index c per_channel =
    guarded c.channel_counters.mapped c enodev (clear_channel wide index c, none)
clear_at wide index c per_cpu_and_channel =
    guarded c.channel_counters.mapped c enodev
      (set_cpus (clear_channel wide index c) (clear_cpus wide index c.percpu_counters))

unfoldable pub lttng_counter_clear : (ℕ → ℕ) → List ℕ → Counter → Counter × Option Error
lttng_counter_clear wide indexes c =
    guarded (lttng_counter_validate_indexes c.dimensions indexes) c eoverflow
      (clear_at wide (lttng_counter_get_index c.dimensions indexes) c c.alloc)

-- `lttng_counter_set_channel_sum_step`: the largest step of a size. A step is not negative.
unfoldable pub lttng_counter_set_channel_sum_step : ℕ → Counter → Result Counter
lttng_counter_set_channel_sum_step step c =
    if leb (2 ^ (bits c.size - 1)) step
    then err einval
    else ok (record c { global_sum_step = step })
