-- ===== src/Counter/Total.antt =====
-- The sum of a counter over the processors and the channel.
use lttng_ust.Common.{
  ℕ, ◌+◌, ◌%◌, ◌^◌, ◌<◌, ◌≡◌, ◌≢◌, refl, ap, ◌∙◌, Bool-cases, inl, inr, List, ◌==◌, Option, some,
  none, arith, length, set, get_elem?,
}
use lttng_ust.Counter.{
  Size, bits, Alloc, per_cpu, per_channel, per_cpu_and_channel, Layout, Counter, ok, word_at,
  move_of, add_to, store, add_channel, add_percpu, and_move, add_at, set_cpu, lttng_counter_add,
  lttng_counter_get_index, lttng_counter_validate_indexes,
}
use lttng_ust.Counter.Columns.{
  column, total, Covers, word_at-set, word_at-set_ne, bind-ok, sum_of, column-set, Covers-elem,
  move_of-no_step, move_of-lt, total_moves, total_stays, total_channel,
}

-- What an addition to a layout does to its words.
record Added (s : Size) (step i v : ℕ) (l : Layout) (r : Layout × ℕ) : Type 0 where
  moved : r.1 ≡ move_of (bits s) step ((word_at i l.counters + v) % 2 ^ bits s)
  counters : r.0.counters ≡ set l.counters i (sum_of s r.1 (word_at i l.counters) v)

module _ (wide : ℕ → ℕ) where
  add_to-Added :
      (s : Size) (step i v : ℕ) (l : Layout) (r : Layout × ℕ)
      → add_to wide s step i v l ≡ ok r
      → Added s step i v l r
  unfolding add_to
  add_to-Added s step i v l r e = elim (Bool-cases l.mapped) [
    | inl here ↦
        let is : (
          store wide s i v (word_at i l.counters)
              (sum_of s (move_of (bits s) step ((word_at i l.counters + v) % 2 ^ bits s))
                (word_at i l.counters) v)
              l,
          move_of (bits s) step ((word_at i l.counters + v) % 2 ^ bits s),
        )
            ≡ r =
          ground (arith, here) in
        rw (← is) (record { moved = refl; counters = refl })
    | inr gone ↦ absurd (cc (rw gone at e))
  ]

  -- An addition to the channel's counter.
  add_channel-counters :
      (i v : ℕ) (c : Counter) {c' : Counter}
      → add_channel wide i v c ≡ ok c'
      → (l : Layout) × (c' ≡ record c { channel_counters = l })
        × (l.counters
            ≡ set c.channel_counters.counters i
                (sum_of c.size 0 (word_at i c.channel_counters.counters) v))
  unfolding add_channel
  add_channel-counters i v c e =
      let (r, added, is) = bind-ok (add_to wide c.size 0 i v c.channel_counters) _ e in
      let a = add_to-Added c.size 0 i v c.channel_counters r added in
      let nothing : r.1 ≡ 0 = a.moved ∙ move_of-no_step (bits c.size) _ in
      (r.0, ground (arith, is), a.counters ∙ rw nothing)

-- One element's sum grows by `v`, the others stay.
pub record Sums (i v : ℕ) (c c' : Counter) : Type 0 where
  pub grows : total i c' ≡ (total i c + v) % 2 ^ bits c.size
  pub stays : (j : ℕ) → i ≢ j → total j c' ≡ total j c
  pub size : c'.size ≡ c.size
  pub alloc : c'.alloc ≡ c.alloc
  pub dimensions : c'.dimensions ≡ c.dimensions

module _ (wide : ℕ → ℕ) (i v : ℕ) (c : Counter)
    (inside : i < length c.channel_counters.counters) where
  add_channel-Sums : {c' : Counter} → add_channel wide i v c ≡ ok c' → Sums i v c c'
  add_channel-Sums e =
      let (l, is, words) = add_channel-counters wide i v c e in
      rw is (record {
        grows =
            rw
              (
                words,
                word_at-set c.channel_counters.counters i
                    (sum_of c.size 0 (word_at i c.channel_counters.counters) v) inside,
              )
              (total_channel c.size v _ _);
        stays = λ j apart. rw (
          words,
          word_at-set_ne c.channel_counters.counters i j
              (sum_of c.size 0 (word_at i c.channel_counters.counters) v) apart,
        );
        size = refl;
        alloc = refl;
        dimensions = refl;
      })

  module _ (step : c.global_sum_step < 2 ^ 64) (cpu : ℕ) (l : Layout)
      (at : get_elem? c.percpu_counters cpu ≡ some l) (inside_cpu : i < length l.counters) where
    module _ (r : Layout × ℕ) (a : Added c.size c.global_sum_step i v l r) where
      column_here :
          column i (set c.percpu_counters cpu r.0) + word_at i l.counters
          ≡ column i c.percpu_counters + sum_of c.size r.1 (word_at i l.counters) v
      column_here =
          column-set c.percpu_counters cpu i l r.0 at
          ∙ ap (λ x. column i c.percpu_counters + x)
              (ap (word_at i) a.counters
                ∙ word_at-set l.counters i (sum_of c.size r.1 (word_at i l.counters) v) inside_cpu)

      column_apart :
          (j : ℕ) → i ≢ j → column j (set c.percpu_counters cpu r.0) ≡ column j c.percpu_counters
      column_apart j apart =
          let same : word_at j r.0.counters ≡ word_at j l.counters =
            ap (word_at j) a.counters
            ∙ word_at-set_ne l.counters i j (sum_of c.size r.1 (word_at i l.counters) v) apart in
          omega (arith, column-set c.percpu_counters cpu j l r.0 at, same)

      set_cpu-Sums : r.1 ≡ 0 → Sums i v c (set_cpu c cpu r.0)
      set_cpu-Sums nothing = record {
        grows = total_stays c.size (word_at i l.counters) v _ _ _ (rw nothing at column_here);
        stays = λ j apart. rw (column_apart j apart);
        size = refl;
        alloc = refl;
        dimensions = refl;
      }

      moved-Sums :
          {c' : Counter} → add_channel wide i r.1 (set_cpu c cpu r.0) ≡ ok c' → Sums i v c c'
      moved-Sums e =
          let (l', is, words) = add_channel-counters wide i r.1 (set_cpu c cpu r.0) e in
          let ch = c.channel_counters.counters in
          let small : r.1 < 2 ^ 64 =
            rw a.moved (move_of-lt (bits c.size) c.global_sum_step _ step) in
          rw is (record {
            grows =
                rw (words, word_at-set ch i (sum_of c.size 0 (word_at i ch) r.1) inside)
                  (total_moves c.size (word_at i l.counters) v r.1 _ _ _ small column_here);
            stays = λ j apart. rw (
              words,
              word_at-set_ne ch i j (sum_of c.size 0 (word_at i ch) r.1) apart,
              column_apart j apart,
            );
            size = refl;
            alloc = refl;
            dimensions = refl;
          })

      and_move-Sums : {c' : Counter} → and_move wide i cpu c r ≡ ok c' → Sums i v c c'
      and_move-Sums {c'} e = elim (Bool-cases (r.1 == 0)) [
        | inl nothing ↦
            let is : set_cpu c cpu r.0 ≡ c' = ground (arith, nothing) in
            rw (← is) (set_cpu-Sums (ground (arith, nothing)))
        | inr some_move ↦ moved-Sums (rw some_move at e)
      ]

-- The words of a counter at an index: they are there, and the step is a word.
pub record IsSized (i : ℕ) (c : Counter) : Type 0 where
  pub step : c.global_sum_step < 2 ^ 64
  pub channel : i < length c.channel_counters.counters
  pub cpus : Covers i c.percpu_counters

module _ (wide : ℕ → ℕ) (i v : ℕ) (c : Counter) (sized : IsSized i c) (cpu : ℕ) where
  add_percpu-Sums :
      (o : Option Layout) {c' : Counter}
      → get_elem? c.percpu_counters cpu ≡ o
      → add_percpu wide i cpu v c o ≡ ok c'
      → Sums i v c c'
  unfolding add_percpu
  add_percpu-Sums none at e = ground arith
  add_percpu-Sums (some l) at e =
      let (r, added, moves) =
        bind-ok (add_to wide c.size c.global_sum_step i v l) (and_move wide i cpu c) e in
      and_move-Sums wide i v c sized.channel sized.step cpu l at
        (Covers-elem c.percpu_counters cpu i l at sized.cpus) r
        (add_to-Added wide c.size c.global_sum_step i v l r added) moves

  add_at-Sums : (a : Alloc) {c' : Counter} → add_at wide i cpu v c a ≡ ok c' → Sums i v c c'
  add_at-Sums per_cpu e = add_percpu-Sums _ refl e
  add_at-Sums per_channel e = add_channel-Sums wide i v c sized.channel e
  add_at-Sums per_cpu_and_channel e = add_percpu-Sums _ refl e

-- An addition that succeeds adds its value to the element's sum over the channel and the processors,
-- modulo the size, whatever it moves between them, and leaves the sums of the other elements.
pub lttng_counter_add-Sums :
    (wide : ℕ → ℕ) (cpu : ℕ) (indexes : List ℕ) (v : ℕ) (c : Counter) {c' : Counter}
    → IsSized (lttng_counter_get_index c.dimensions indexes) c
    → lttng_counter_add wide cpu indexes v c ≡ ok c'
    → Sums (lttng_counter_get_index c.dimensions indexes) v c c'
unfolding lttng_counter_add
lttng_counter_add-Sums wide cpu indexes v c sized e =
    elim (Bool-cases (lttng_counter_validate_indexes c.dimensions indexes)) [
      | inl valid ↦ add_at-Sums wide _ v c sized cpu c.alloc (rw valid at e)
      | inr invalid ↦ absurd (cc (rw invalid at e))
    ]
