-- ===== src/RingBuffer/Commit.antt =====
-- Committing bytes to a sub-buffer and delivering it when it is full (frontend_api.h,
-- frontend_internal.h, ring_buffer_frontend.c). The wake-up of a reader is left out: it writes to a
-- file descriptor and changes no field.
pub mod Deliver
pub mod Lap
use lttng_ust.Common.{
  ℕ, ◌+◌, ◌-◌, Bool, true, false, Option, some, none, List, [], ◌∷◌, ◌++◌, get_elem?, modify, set,
  ◌==◌, if◌then◌else◌, not,
}
use lttng_ust.Common.Words.{◌+w◌, ◌-w◌, is_negative}
use lttng_ust.RingBuffer.State.{
  Channel, Config, Buffer, CommitHot, CommitCold, Callback, buffer_end,
}
use lttng_ust.RingBuffer.Offsets.{
  lap_commit, commit_masked, subbuf_index, subbuf_offset, buf_trunc_val,
}
use lttng_ust.RingBuffer.Backend.{
  subbuffer_get_data_size, subbuffer_inc_packet_count, set_noref_offset,
}

-- `lib_ring_buffer_vmcore_check_deliver`
abbrev pub set_seq : ℕ → CommitHot → CommitHot
set_seq commit_count c = record c { seq = commit_count }

unfoldable pub vmcore_check_deliver : Channel → ℕ → ℕ → Buffer → Buffer
vmcore_check_deliver chan commit_count idx buf =
    if chan.config.oops_consistency
    then record buf { commit_hot = modify buf.commit_hot idx (set_seq commit_count) }
    else buf

abbrev pub cold_to : ℕ → CommitCold → CommitCold
cold_to count c = record c { cc_sb = count }

abbrev pub set_cc_sb : ℕ → ℕ → Buffer → Buffer
set_cc_sb idx count buf = record buf { commit_cold = modify buf.commit_cold idx (cold_to count) }

-- The body of `lib_ring_buffer_check_deliver_slow` once its exchange has succeeded.
unfoldable pub deliver : Channel → ℕ → ℕ → ℕ → ℕ → Buffer → Buffer
unfolding subbuffer_inc_packet_count vmcore_check_deliver
deliver chan offset commit_count idx ts buf =
    let mode = chan.config.mode in
    let ended = record buf {
      callbacks = buf.callbacks ++ buffer_end ts idx (subbuffer_get_data_size mode buf idx) ∷ [];
    } in
    let counted = subbuffer_inc_packet_count idx ended in
    let released = set_noref_offset mode idx (buf_trunc_val offset chan) counted in
    vmcore_check_deliver chan commit_count idx (set_cc_sb idx commit_count released)

unfoldable pub check_deliver_slow : Channel → ℕ → ℕ → ℕ → Buffer → Buffer
check_deliver_slow chan offset commit_count idx buf =
    let old_commit_count = commit_count -w chan.subbuf_size in
    elim (get_elem? buf.commit_cold idx) [
      | none ↦ buf
      | some cold ↦
          if cold.cc_sb == old_commit_count
          then elim (get_elem? buf.ts_end idx) [
            | none ↦ set_cc_sb idx (old_commit_count +w 1) buf
            | some ts ↦
                deliver chan offset commit_count idx ts (set_cc_sb idx (old_commit_count +w 1) buf)
          ]
          else buf
    ]

unfoldable pub check_deliver : Channel → ℕ → ℕ → ℕ → Buffer → Buffer
check_deliver chan offset commit_count idx buf =
    let old_commit_count = commit_count -w chan.subbuf_size in
    if lap_commit offset chan -w commit_masked old_commit_count chan == 0
    then check_deliver_slow chan offset commit_count idx buf
    else buf

abbrev pub raise_seq : ℕ → CommitHot → CommitHot
raise_seq commit_count c = if is_negative (c.seq -w commit_count) then set_seq commit_count c else c

-- `lib_ring_buffer_write_commit_counter`
unfoldable pub write_commit_counter : Channel → ℕ → ℕ → ℕ → Buffer → Buffer
write_commit_counter chan buf_offset commit_count idx buf =
    if not chan.config.oops_consistency
    then buf
    else if not (subbuf_offset (buf_offset -w commit_count) chan == 0)
    then buf
    else record buf { commit_hot = modify buf.commit_hot idx (raise_seq commit_count) }

abbrev pub hot_to : ℕ → CommitHot → CommitHot
hot_to count c = record c { cc = count }

-- What every commit does with its counter: `v_add(size, &cc_hot->cc)`, read it back, check whether
-- the sub-buffer is full, and note the commit for crash dumps.
unfoldable pub add_commit : Channel → ℕ → ℕ → ℕ → ℕ → Buffer → Buffer
add_commit chan idx size deliver_offset end_offset buf = elim (get_elem? buf.commit_hot idx) [
  | none ↦ buf
  | some hot ↦
      let commit_count = hot.cc +w size in
      let added = record buf { commit_hot = modify buf.commit_hot idx (hot_to commit_count) } in
      write_commit_counter chan end_offset commit_count idx
        (check_deliver chan deliver_offset commit_count idx added)
]

-- `lib_ring_buffer_commit` of a slot; `offset_end` is the context's `buf_offset`, which the writes
-- have moved to the end of the record.
unfoldable pub commit : Channel → ℕ → ℕ → Buffer → Buffer
unfolding add_commit
commit chan offset_end slot_size buf =
    add_commit chan (subbuf_index (offset_end -w 1) chan) slot_size (offset_end -w 1) offset_end buf
