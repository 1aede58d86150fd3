-- ===== src/Counter/Read/Sum.antt =====
-- What the aggregate of a counter is, and what an addition does to it.
use lttng_ust.Common.{
  ℕ, zero, suc, ◌+◌, ◌%◌, ◌^◌, ◌≡◌, refl, sym, ap, ◌∙◌, Bool-cases, inl, inr, List, [], ◌∷◌, Option,
  some, none, arith, length, drop, get_elem?,
}
use lttng_ust.Counter.{
  Size, size_8, size_16, size_32, size_64, bits, per_cpu_and_channel, Layout, Counter, ok, word_at,
  lttng_counter_add, lttng_counter_get_index, lttng_counter_validate_indexes,
}
use lttng_ust.Counter.Columns.{column, total, bind-ok}
use lttng_ust.Counter.Total.{IsSized, lttng_counter_add-Sums}
use lttng_ust.Counter.Read.{
  Reading, sign_extend, found, layout_for, reading, read_layout, lttng_counter_read, add_reading,
  aggregate_cpus, truncate, aggregate_channel, aggregate_rest, lttng_counter_aggregate,
}

sign_extend-mod : (s : Size) (x : ℕ) → sign_extend (bits s) x % 2 ^ bits s ≡ x % 2 ^ bits s
sign_extend-mod size_8 x = ground arith
sign_extend-mod size_16 x = ground arith
sign_extend-mod size_32 x = ground arith
sign_extend-mod size_64 x = ground arith

truncate-mod : (s : Size) (r : Reading) → (truncate s r).value % 2 ^ bits s ≡ r.value % 2 ^ bits s
truncate-mod size_8 r = sign_extend-mod size_8 (r.value % 2 ^ 8) ∙ omega arith
truncate-mod size_16 r = sign_extend-mod size_16 (r.value % 2 ^ 16) ∙ omega arith
truncate-mod size_32 r = sign_extend-mod size_32 (r.value % 2 ^ 32) ∙ omega arith
truncate-mod size_64 r = refl

add_mod :
    (s : Size) (a b x rest : ℕ)
    → b % 2 ^ bits s ≡ x % 2 ^ bits s
    → ((a + b) % 2 ^ 64 + rest) % 2 ^ bits s ≡ (a + (x + rest)) % 2 ^ bits s
add_mod size_8 a b x rest e = omega arith
add_mod size_16 a b x rest e = omega arith
add_mod size_32 a b x rest e = omega arith
add_mod size_64 a b x rest e = omega arith

column-drop :
    (ls : List Layout) (cpu i : ℕ) (l : Layout)
    → get_elem? ls cpu ≡ some l
    → column i (drop cpu ls) ≡ word_at i l.counters + column i (drop (suc cpu) ls)
column-drop [] cpu i l e = ground arith
column-drop (x ∷ ls) zero i l e = let same : x ≡ l = ground arith in rw same
column-drop (x ∷ ls) (suc cpu) i l e = column-drop ls cpu i l e

column-drop_all : (ls : List Layout) (i : ℕ) → column i (drop (length ls) ls) ≡ 0
column-drop_all [] i = refl
column-drop_all (x ∷ ls) i = column-drop_all ls i

read_layout-ok :
    (s : Size) (i : ℕ) (l : Layout) {r : Reading} → read_layout s i l ≡ ok r → r ≡ reading s i l
read_layout-ok s i l e = ground arith

-- A reading is of the layout that it is for.
counter_read-ok :
    (c : Counter) (indexes : List ℕ) (cpu : Option ℕ) {r : Reading}
    → lttng_counter_read c indexes cpu ≡ ok r
    → (l : Layout) × (layout_for c c.alloc cpu ≡ ok l)
      × (r ≡ reading c.size (lttng_counter_get_index c.dimensions indexes) l)
unfolding lttng_counter_read
counter_read-ok c indexes cpu e =
    elim (Bool-cases (lttng_counter_validate_indexes c.dimensions indexes)) [
      | inl valid ↦
          let i = lttng_counter_get_index c.dimensions indexes in
          let (l, at, is) =
            bind-ok (layout_for c c.alloc cpu) (read_layout c.size i) (rw valid at e) in
          (l, at, read_layout-ok c.size i l is)
      | inr invalid ↦ absurd (cc (rw invalid at e))
    ]

ok-injective {ℓ} : {A : Type ℓ} {a b : A} → ok a ≡ ok b → a ≡ b
ok-injective e = ground arith

found-ok : (o : Option Layout) {l : Layout} → found o ≡ ok l → o ≡ some l
found-ok none e = ground arith
found-ok (some l) e = ground arith

module _ (c : Counter) (indexes : List ℕ) (both : c.alloc ≡ per_cpu_and_channel) where
  aggregate_cpus-mod :
      (n cpu : ℕ) (acc : Reading) {r : Reading}
      → n + cpu ≡ length c.percpu_counters
      → aggregate_cpus c indexes n cpu acc ≡ ok r
      → r.value % 2 ^ bits c.size
        ≡ (acc.value
            + column (lttng_counter_get_index c.dimensions indexes) (drop cpu c.percpu_counters))
          % 2 ^ bits c.size
  unfolding aggregate_cpus
  aggregate_cpus-mod zero cpu acc {r} len e =
      let same : acc ≡ r = ground arith in
      let all : cpu ≡ length c.percpu_counters = omega arith in
      rw
        (
          ← same,
          all,
          column-drop_all c.percpu_counters (lttng_counter_get_index c.dimensions indexes),
        )
        (ap (λ x. x % 2 ^ bits c.size) (omega arith))
  aggregate_cpus-mod (suc n) cpu acc {r} len e =
      let i = lttng_counter_get_index c.dimensions indexes in
      let (q, read, rest) = bind-ok (lttng_counter_read c indexes (some cpu)) _ e in
      let (l, at, is) = counter_read-ok c indexes (some cpu) read in
      let here : get_elem? c.percpu_counters cpu ≡ some l =
        found-ok _ (sym (ap (λ a. layout_for c a (some cpu)) both) ∙ at) in
      let same : q.value % 2 ^ bits c.size ≡ word_at i l.counters % 2 ^ bits c.size =
        ap (λ x. x.value % 2 ^ bits c.size) is ∙ sign_extend-mod c.size (word_at i l.counters) in
      aggregate_cpus-mod n (suc cpu) (add_reading acc q) (omega arith) rest
      ∙ add_mod c.size acc.value q.value (word_at i l.counters)
          (column i (drop (suc cpu) c.percpu_counters)) same
      ∙ ap (λ x. (acc.value + x) % 2 ^ bits c.size)
          (sym (column-drop c.percpu_counters cpu i l here))

  plus_mod :
      (s : Size) (a x rest : ℕ)
      → a % 2 ^ bits s ≡ x % 2 ^ bits s
      → (a + rest) % 2 ^ bits s ≡ (x + rest) % 2 ^ bits s
  plus_mod size_8 a x rest e = omega arith
  plus_mod size_16 a x rest e = omega arith
  plus_mod size_32 a x rest e = omega arith
  plus_mod size_64 a x rest e = omega arith

  -- The aggregate of a counter with a word for the channel and one for each processor is their sum,
  -- modulo the counter's size.
  pub aggregate-total :
      {r : Reading}
      → lttng_counter_aggregate c indexes ≡ ok r
      → r.value % 2 ^ bits c.size ≡ total (lttng_counter_get_index c.dimensions indexes) c
  unfolding lttng_counter_aggregate
  aggregate-total {r} e =
      let i = lttng_counter_get_index c.dimensions indexes in
      let (ch, first, rest) = bind-ok (aggregate_channel c indexes c.alloc) _ e in
      let (sum, second, last) = bind-ok (aggregate_rest c indexes c.alloc ch) _ rest in
      let (l, at, is) =
        counter_read-ok c indexes none (sym (ap (aggregate_channel c indexes) both) ∙ first) in
      let channel : c.channel_counters ≡ l =
        ok-injective (sym (ap (λ a. layout_for c a none) both) ∙ at) in
      let cut : truncate c.size sum ≡ r = ok-injective last in
      let word : ch.value % 2 ^ bits c.size
          ≡ word_at i c.channel_counters.counters % 2 ^ bits c.size =
        ap (λ x. x.value % 2 ^ bits c.size) is
        ∙ sign_extend-mod c.size (word_at i l.counters)
        ∙ rw (← channel) refl in
      rw (← cut) (
        truncate-mod c.size sum
        ∙ aggregate_cpus-mod (length c.percpu_counters) 0 ch (omega arith)
            (sym (ap (λ a. aggregate_rest c indexes a ch) both) ∙ second)
        ∙ plus_mod c.size ch.value (word_at i c.channel_counters.counters)
            (column i c.percpu_counters) word)

-- Where a counter has a word for the channel and one for each processor, and an addition and the
-- aggregates before and after it succeed, the aggregate grows by the value that was added, modulo
-- the counter's size.
pub lttng_counter_add-aggregate :
    (wide : ℕ → ℕ) (cpu : ℕ) (indexes : List ℕ) (v : ℕ) (c : Counter) {c' : Counter}
    {r r' : Reading}
    → c.alloc ≡ per_cpu_and_channel
    → IsSized (lttng_counter_get_index c.dimensions indexes) c
    → lttng_counter_add wide cpu indexes v c ≡ ok c'
    → lttng_counter_aggregate c indexes ≡ ok r
    → lttng_counter_aggregate c' indexes ≡ ok r'
    → r'.value % 2 ^ bits c.size ≡ (r.value % 2 ^ bits c.size + v) % 2 ^ bits c.size
lttng_counter_add-aggregate wide cpu indexes v c {c'} {r} {r'} both sized added before after =
    let sums = lttng_counter_add-Sums wide cpu indexes v c sized added in
    let now : r'.value % 2 ^ bits c'.size
        ≡ total (lttng_counter_get_index c'.dimensions indexes) c' =
      aggregate-total c' indexes (sums.alloc ∙ both) after in
    ap (λ s. r'.value % 2 ^ bits s) (sym sums.size)
    ∙ now
    ∙ ap (λ d. total (lttng_counter_get_index d indexes) c') sums.dimensions
    ∙ sums.grows
    ∙ ap (λ x. (x + v) % 2 ^ bits c.size) (sym (aggregate-total c indexes both before))
