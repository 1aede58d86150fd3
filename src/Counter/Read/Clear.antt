-- ===== src/Counter/Read/Clear.antt =====
-- Clearing an element of a counter.
use lttng_ust.Common.{
  ℕ, ◌+◌, ◌%◌, ◌^◌, ◌≡◌, ◌≢◌, refl, ap, ◌∙◌, Bool, true, false, List, [], ◌∷◌, Option, none, arith,
}
use lttng_ust.Counter.{
  Size, size_8, size_16, size_32, size_64, bits, Alloc, per_cpu, per_channel, per_cpu_and_channel,
  Layout, Counter, Error, enodev, eoverflow, lttng_counter_get_index,
  lttng_counter_validate_indexes,
}
use lttng_ust.Counter.Columns.{column, total, Covers, word_at-set, word_at-set_ne}
use lttng_ust.Counter.Total.{IsSized}
use lttng_ust.Counter.Read.{
  guarded, cleared, clear_cpus, set_cpus, clear_channel, clear_at, lttng_counter_clear,
}

-- Where no error stops it, the rest was done.
done_if {ℓ} :
    {A : Type ℓ} (b : Bool) (x : A) (f : Error) (r : A × Option Error)
    → (guarded b x f r).1 ≡ none
    → (guarded b x f r ≡ r) × (r.1 ≡ none)
done_if true x f r e = (refl, e)
done_if false x f r e = ground arith

module _ (wide : ℕ → ℕ) (i : ℕ) where
  clear_cpus-here :
      (ls : List Layout)
      → Covers i ls
      → (clear_cpus wide i ls).1 ≡ none
      → column i (clear_cpus wide i ls).0 ≡ 0
  unfolding clear_cpus
  clear_cpus-here [] h e = refl
  clear_cpus-here (l ∷ ls) h e =
      let (is, rest) =
        done_if l.mapped (l ∷ ls) enodev
          (cleared wide i l ∷ (clear_cpus wide i ls).0, (clear_cpus wide i ls).1) e in
      let zero_word = word_at-set l.counters i 0 h.0 in
      let others = clear_cpus-here ls h.1 rest in
      ap (λ r. column i r.0) is ∙ omega (arith, zero_word, others)

  clear_cpus-apart :
      (ls : List Layout) (j : ℕ)
      → i ≢ j
      → (clear_cpus wide i ls).1 ≡ none
      → column j (clear_cpus wide i ls).0 ≡ column j ls
  unfolding clear_cpus
  clear_cpus-apart [] j apart e = refl
  clear_cpus-apart (l ∷ ls) j apart e =
      let (is, rest) =
        done_if l.mapped (l ∷ ls) enodev
          (cleared wide i l ∷ (clear_cpus wide i ls).0, (clear_cpus wide i ls).1) e in
      let word = word_at-set_ne l.counters i j 0 apart in
      let others = clear_cpus-apart ls j apart rest in
      ap (λ r. column j r.0) is ∙ omega (arith, word, others)

size_cases : (s : Size) → (0 + 0) % 2 ^ bits s ≡ 0
size_cases size_8 = omega arith
size_cases size_16 = omega arith
size_cases size_32 = omega arith
size_cases size_64 = omega arith

-- One element's sum is 0, the others are what they were.
pub record Zeroed (i : ℕ) (c c' : Counter) : Type 0 where
  pub zeroed : total i c' ≡ 0
  pub kept : (j : ℕ) → i ≢ j → total j c' ≡ total j c

module _ (wide : ℕ → ℕ) (i : ℕ) (c : Counter) (sized : IsSized i c) where
  both-Zeroed :
      (clear_cpus wide i c.percpu_counters).1 ≡ none
      → Zeroed i c (set_cpus (clear_channel wide i c) (clear_cpus wide i c.percpu_counters)).0
  both-Zeroed e = record {
    zeroed =
        rw
          (
            word_at-set c.channel_counters.counters i 0 sized.channel,
            clear_cpus-here wide i c.percpu_counters sized.cpus e,
          )
          (size_cases c.size);
    kept = λ j apart. rw (
      word_at-set_ne c.channel_counters.counters i j 0 apart,
      clear_cpus-apart wide i c.percpu_counters j apart e,
    );
  }

  clear_at-Zeroed :
      (clear_at wide i c per_cpu_and_channel).1 ≡ none
      → Zeroed i c (clear_at wide i c per_cpu_and_channel).0
  clear_at-Zeroed e =
      let (is, rest) =
        done_if c.channel_counters.mapped c enodev
          (set_cpus (clear_channel wide i c) (clear_cpus wide i c.percpu_counters)) e in
      rw is (both-Zeroed rest)

  alloc-Zeroed :
      (a : Alloc)
      → a ≡ per_cpu_and_channel
      → (clear_at wide i c a).1 ≡ none
      → Zeroed i c (clear_at wide i c a).0
  alloc-Zeroed per_cpu both e = absurd (cc both)
  alloc-Zeroed per_channel both e = absurd (cc both)
  alloc-Zeroed per_cpu_and_channel both e = clear_at-Zeroed e

-- Where a counter has a word for the channel and one for each processor, a clear that meets no error
-- makes the element's sum 0 and leaves the sums of the other elements.
pub lttng_counter_clear-Zeroed :
    (wide : ℕ → ℕ) (indexes : List ℕ) (c : Counter)
    → c.alloc ≡ per_cpu_and_channel
    → IsSized (lttng_counter_get_index c.dimensions indexes) c
    → (lttng_counter_clear wide indexes c).1 ≡ none
    → Zeroed (lttng_counter_get_index c.dimensions indexes) c (lttng_counter_clear wide indexes c).0
unfolding lttng_counter_clear
lttng_counter_clear-Zeroed wide indexes c both sized e =
    let i = lttng_counter_get_index c.dimensions indexes in
    let (is, rest) =
      done_if (lttng_counter_validate_indexes c.dimensions indexes) c eoverflow
        (clear_at wide i c c.alloc) e in
    rw is (alloc-Zeroed wide i c sized c.alloc both rest)
