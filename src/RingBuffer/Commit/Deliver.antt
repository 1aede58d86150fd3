-- ===== src/RingBuffer/Commit/Deliver.antt =====
-- When a sub-buffer is delivered (`lib_ring_buffer_commit`, `lib_ring_buffer_check_deliver`): after
-- the commit that fills it, and once, in whatever order its bytes are committed.
use native.Mathlib.Nat.{mod-lt}
use lttng_ust.Common.{
  ℕ, ◌+◌, ◌-◌, ◌%◌, ◌^◌, ◌<◌, ◌≡◌, ◌≢◌, refl, ◌∙◌, Option, some, [], ◌∷◌, ◌++◌, get_elem?, modify,
  field_at, field_at-modify_same, field_at-modify_set, arith,
}
use lttng_ust.Common.Words.{word_mod, ◌+w◌, ◌-w◌, mod_shift_ne, mod_of_word, pow_pos}
use lttng_ust.RingBuffer.State.{Channel, Buffer, CommitHot, CommitCold, IsChannel, buffer_end}
use lttng_ust.RingBuffer.Offsets.{lap_commit, commit_masked}
use lttng_ust.RingBuffer.Geometry.{range_commit, subbuf-le-buf}
use lttng_ust.RingBuffer.Backend.{subbuffer_get_data_size, set_noref_offset}
use lttng_ust.RingBuffer.Commit.{
  add_commit, check_deliver, check_deliver_slow, deliver, write_commit_counter, raise_seq,
  set_cc_sb, set_seq, cold_to, hot_to,
}

abbrev pub hot_cc : ℕ → Buffer → Option ℕ
hot_cc idx buf = field_at (λ c. c.cc) buf.commit_hot idx

abbrev pub cold_cc : ℕ → Buffer → Option ℕ
cold_cc idx buf = field_at (λ c. c.cc_sb) buf.commit_cold idx

-- The commit counters of the sub-buffer `idx`, hot and cold, with the end time on record.
pub record Counters (idx : ℕ) (buf : Buffer) (hot cold ts : ℕ) : Type 0 where
  pub hot_is : hot_cc idx buf ≡ some hot
  pub cold_is : cold_cc idx buf ≡ some cold
  pub ts_is : get_elem? buf.ts_end idx ≡ some ts

abbrev commit_range : Channel → ℕ
commit_range chan = 2 ^ (64 - chan.num_subbuf_order)

-- A counter that is `t` bytes into its lap does not pass the test of `check_deliver`, unless the lap
-- is complete.
pub partial_lap :
    {chan : Channel} (v : IsChannel chan) (c0 t lap : ℕ)
    → 0 < t
    → t < chan.subbuf_size
    → commit_masked c0 chan ≡ lap
    → (lap -w commit_masked ((c0 +w t) -w chan.subbuf_size) chan) ≢ 0
unfolding commit_masked
partial_lap {chan} v c0 t lap ht hs hl none_left =
    let x = (c0 +w t) -w chan.subbuf_size in
    let (range, le, word) = range_commit v in
    let d = chan.subbuf_size - t in
    let back : (x + d) % word_mod ≡ c0 % word_mod =
      omega (arith, (subbuf-le-buf v).0, (subbuf-le-buf v).1) in
    let same : (x + d) % commit_range chan ≡ c0 % commit_range chan =
      mod_of_word _ _ (x + d) c0 range back in
    mod_shift_ne x d (commit_range chan) (omega arith) (omega (arith, le)) (
      omega (
        arith,
        same,
        mod-lt x {m = commit_range chan} (omega (arith, le)),
        mod-lt c0 {m = commit_range chan} (omega (arith, le)),
        word,
      ))

-- The commit count of a complete lap passes it.
pub full_lap :
    {chan : Channel} (v : IsChannel chan) (c0 lap : ℕ)
    → c0 < word_mod
    → commit_masked c0 chan ≡ lap
    → (((c0 +w chan.subbuf_size) -w chan.subbuf_size) ≡ c0)
      × ((lap -w commit_masked ((c0 +w chan.subbuf_size) -w chan.subbuf_size) chan) ≡ 0)
unfolding commit_masked
full_lap {chan} v c0 lap hc hl =
    let back : ((c0 +w chan.subbuf_size) -w chan.subbuf_size) ≡ c0 =
      omega (arith, (subbuf-le-buf v).0, (subbuf-le-buf v).1) in
    (
      back,
      rw back (
          omega (
            arith,
            mod-lt c0 {m = commit_range chan} (pow_pos (64 - chan.num_subbuf_order)),
            (range_commit v).2,
          )),
    )

raise_seq-cc : (count : ℕ) (c : CommitHot) → (raise_seq count c).cc ≡ c.cc
raise_seq-cc count c = ground arith

module _ (chan : Channel) (idx : ℕ) where
  abbrev pub data_size : Buffer → ℕ
  data_size buf = subbuffer_get_data_size chan.config.mode buf idx

  -- Noting a commit for crash dumps leaves the counters and the callbacks.
  write_commit_counter-Counters :
      (hot cold ts : ℕ) (end_offset count : ℕ) (buf : Buffer)
      → Counters idx buf hot cold ts
      → let buf' = write_commit_counter chan end_offset count idx buf in
        Counters idx buf' hot cold ts
        × (buf'.callbacks ≡ buf.callbacks)
        × (data_size buf' ≡ data_size buf)
  unfolding write_commit_counter subbuffer_get_data_size
  write_commit_counter-Counters hot cold ts end_offset count buf c = ground (
    arith,
    field_at-modify_same (λ (h : CommitHot). h.cc) (raise_seq count) (raise_seq-cc count)
        buf.commit_hot idx,
  )

  -- A delivery moves the cold counter on and calls `buffer_end` once.
  deliver-Counters :
      (hot cold ts : ℕ) (offset count : ℕ) (buf : Buffer)
      → Counters idx buf hot cold ts
      → let buf' = deliver chan offset count idx ts (set_cc_sb idx (cold +w 1) buf) in
        Counters idx buf' hot count ts
        × (buf'.callbacks ≡ buf.callbacks ++ buffer_end ts idx (data_size buf) ∷ [])
  unfolding deliver set_noref_offset subbuffer_get_data_size
  deliver-Counters hot cold ts offset count buf c =
      let claimed = modify buf.commit_cold idx (cold_to (cold +w 1)) in
      let once : field_at (λ (h : CommitCold). h.cc_sb) claimed idx ≡ some (cold +w 1) =
        field_at-modify_set (λ h. h.cc_sb) (cold_to (cold +w 1)) (cold +w 1) (λ h. refl)
          buf.commit_cold idx cold c.cold_is in
      let twice : field_at (λ (h : CommitCold). h.cc_sb) (modify claimed idx (cold_to count)) idx
          ≡ some count =
        field_at-modify_set (λ h. h.cc_sb) (cold_to count) count (λ h. refl) claimed idx _ once in
      ground (
        arith,
        twice,
        field_at-modify_same (λ (h : CommitHot). h.cc) (set_seq count) (λ h. refl) buf.commit_hot
            idx,
      )

  -- The counters after `v_add`.
  abbrev added : ℕ → Buffer → Buffer
  added count buf = record buf { commit_hot = modify buf.commit_hot idx (hot_to count) }

  added-Counters :
      (hot cold ts count : ℕ) (buf : Buffer)
      → Counters idx buf hot cold ts
      → Counters idx (added count buf) count cold ts
  added-Counters hot cold ts count buf c = record {
    hot_is =
        field_at-modify_set (λ h. h.cc) (hot_to count) count (λ h. refl) buf.commit_hot idx hot
          c.hot_is;
    cold_is = c.cold_is;
    ts_is = c.ts_is;
  }

  -- `check_deliver` where the test fails, and where it succeeds.
  check_deliver_partial :
      (offset count : ℕ) (buf : Buffer)
      → (lap_commit offset chan -w commit_masked (count -w chan.subbuf_size) chan) ≢ 0
      → check_deliver chan offset count idx buf ≡ buf
  unfolding check_deliver
  check_deliver_partial offset count buf h = ground arith

  check_deliver_full :
      (hot cold ts offset count : ℕ) (buf : Buffer)
      → (lap_commit offset chan -w commit_masked (count -w chan.subbuf_size) chan) ≡ 0
      → cold ≡ count -w chan.subbuf_size
      → Counters idx buf hot cold ts
      → check_deliver chan offset count idx buf
        ≡ deliver chan offset count idx ts (set_cc_sb idx (cold +w 1) buf)
  unfolding check_deliver check_deliver_slow
  check_deliver_full hot cold ts offset count buf h e c = ground arith

  -- `add_commit` with its counter read.
  add_commit-eq :
      (hot cold ts size d e : ℕ) (buf : Buffer)
      → Counters idx buf hot cold ts
      → add_commit chan idx size d e buf
        ≡ write_commit_counter chan e
            (hot +w size)
            idx
            (check_deliver chan d (hot +w size) idx (added (hot +w size) buf))
  unfolding add_commit
  add_commit-eq hot cold ts size d e buf c = ground arith

  -- A commit that does not complete the lap moves the hot counter alone.
  pub add_commit_partial :
      (hot cold ts size d e : ℕ) (buf : Buffer)
      → (lap_commit d chan -w commit_masked ((hot +w size) -w chan.subbuf_size) chan) ≢ 0
      → Counters idx buf hot cold ts
      → let buf' = add_commit chan idx size d e buf in
        Counters idx buf' (hot +w size) cold ts
        × (buf'.callbacks ≡ buf.callbacks)
        × (data_size buf' ≡ data_size buf)
  unfolding subbuffer_get_data_size
  add_commit_partial hot cold ts size d e buf h c =
      let count = hot +w size in
      rw
        (
          add_commit-eq hot cold ts size d e buf c,
          check_deliver_partial d count (added count buf) h,
        )
        (write_commit_counter-Counters count cold ts e count (added count buf)
          (added-Counters hot cold ts count buf c))

  -- The commit that completes it delivers the sub-buffer.
  pub add_commit_full :
      (hot cold ts size d e : ℕ) (buf : Buffer)
      → (lap_commit d chan -w commit_masked ((hot +w size) -w chan.subbuf_size) chan) ≡ 0
      → cold ≡ (hot +w size) -w chan.subbuf_size
      → Counters idx buf hot cold ts
      → let buf' = add_commit chan idx size d e buf in
        Counters idx buf' (hot +w size) (hot +w size) ts
        × (buf'.callbacks ≡ buf.callbacks ++ buffer_end ts idx (data_size buf) ∷ [])
  unfolding subbuffer_get_data_size
  add_commit_full hot cold ts size d e buf h same c =
      let count = hot +w size in
      let now = added-Counters hot cold ts count buf c in
      let (delivered, called) = deliver-Counters count cold ts d count (added count buf) now in
      let (kept, same_calls, _) =
        write_commit_counter-Counters count count ts e count _ delivered in
      rw
        (
          add_commit-eq hot cold ts size d e buf c,
          check_deliver_full count cold ts d count (added count buf) h same now,
        )
        (kept, same_calls ∙ called)
