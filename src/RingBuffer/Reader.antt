-- ===== src/RingBuffer/Reader.antt =====
-- The consumer's side of ring_buffer_frontend.c: getting and putting a sub-buffer, and moving the
-- consumed position.
pub mod Get
pub mod Put
use lttng_ust.Common.{
  ℕ, zero, suc, Bool, true, false, Option, some, none, get_elem?, modify, ◌==◌, if◌then◌else◌, not,
}
use lttng_ust.Common.Words.{◌+w◌, ◌-w◌, is_negative}
use lttng_ust.RingBuffer.State.{Mode, Channel, Buffer}
use lttng_ust.RingBuffer.Offsets.{
  subbuf_trunc, subbuf_index, buf_trunc_val, lap_commit, commit_masked,
}
use lttng_ust.RingBuffer.Ids.{
  subbuffer_id_get_index, subbuffer_id_set_noref, subbuffer_id_clear_noref,
}
use lttng_ust.RingBuffer.Backend.{Update, exchanged, eagain, eperm, update_read_sb_index, updated}

pub data ReadError : Type 0 where
  read_again no_data not_permitted : ReadError

-- The answer at `nodata`.
abbrev pub no_data_error : Buffer → ReadError
no_data_error buf = if buf.finalized then no_data else read_again

-- `lib_ring_buffer_snapshot`: the consumed and the produced position, or why there is nothing.
pub data Snapshot : Type 0 where
  positions : ℕ → ℕ → Snapshot
  nothing : ReadError → Snapshot

unfoldable pub snapshot : Channel → Buffer → Snapshot
snapshot chan buf =
    if subbuf_trunc buf.offset chan -w subbuf_trunc buf.consumed chan == 0
    then nothing (no_data_error buf)
    else positions buf.consumed (subbuf_trunc buf.offset chan)

-- The loop's effect: the consumed position only moves forward.
unfoldable pub move_consumer : ℕ → Buffer → Buffer
move_consumer consumed_new buf =
    if is_negative (buf.consumed -w consumed_new)
    then record buf { consumed = consumed_new }
    else buf

-- The sub-buffer of `consumed` is fully committed, by its cold commit count.
unfoldable pub is_committed : Channel → ℕ → ℕ → Bool
is_committed chan consumed commit_count =
    commit_masked (commit_count -w chan.subbuf_size) chan -w lap_commit consumed chan == 0

-- How a round of `lib_ring_buffer_get_subbuf` ends.
pub data Round : Type 0 where
  got : Buffer → Round
  nodata : ReadError → Round
  retry : Buffer → Round
  null : Round

abbrev pub after_update : Mode → ℕ → Buffer → Update → Round
after_update mode consumed buf (exchanged buf') = got (record buf' {
  buf_rsb = subbuffer_id_clear_noref mode buf'.buf_rsb;
  get_subbuf_consumed = consumed;
  get_subbuf = true;
})
after_update mode consumed buf (eagain buf') = retry buf'
after_update mode consumed buf eperm = retry buf

unfoldable pub get_subbuf_round : Channel → ℕ → (ℕ → ℕ) → Buffer → Round
unfolding is_committed
get_subbuf_round chan consumed interfere buf =
    let idx = subbuf_index consumed chan in
    elim (get_elem? buf.commit_cold idx) [
      | none ↦ null
      | some cold ↦
          if is_negative (subbuf_trunc consumed chan -w subbuf_trunc buf.consumed chan)
          then nodata (no_data_error buf)
          else if not (is_committed chan consumed cold.cc_sb)
          then retry buf
          else if subbuf_trunc buf.offset chan -w subbuf_trunc consumed chan == 0
          then nodata (no_data_error buf)
          else after_update chan.config.mode consumed buf (
              update_read_sb_index chan.config.mode idx (buf_trunc_val consumed chan) interfere buf)
    ]

-- What the other threads do: to the buffer before the round with so many retries left, and to the
-- table's entry between the reading and the exchange of that round.
pub record Others : Type 0 where
  pub before : ℕ → Buffer → Buffer
  pub during : ℕ → ℕ → ℕ

-- How a round goes on: `again` is what a retry does.
abbrev pub after_round :
    Buffer → Round → (Buffer → Option ReadError × Buffer) → Option ReadError × Buffer
after_round now (got buf) again = (none, buf)
after_round now (nodata e) again = (some e, now)
after_round now (retry buf) again = again buf
after_round now null again = (some not_permitted, now)

-- `lib_ring_buffer_get_subbuf`, with `nr_retry` retries left.
unfoldable pub get_subbuf : Channel → ℕ → Others → ℕ → Buffer → Option ReadError × Buffer
get_subbuf chan consumed others zero buf =
    let now = others.before zero buf in
    after_round now (get_subbuf_round chan consumed (others.during zero) now)
      (λ buf'. (some (no_data_error now), buf'))
get_subbuf chan consumed others (suc n) buf =
    let now = others.before (suc n) buf in
    after_round now (get_subbuf_round chan consumed (others.during (suc n)) now)
      (get_subbuf chan consumed others n)

-- `lib_ring_buffer_put_subbuf` of a sub-buffer that the reader holds: its pages are handed back to
-- the writer's table, unless the writer has taken that place meanwhile.
unfoldable pub put_held : Channel → (ℕ → ℕ) → Buffer → Buffer
put_held chan interfere buf =
    let mode = chan.config.mode in
    let consumed = buf.get_subbuf_consumed in
    let bindex = subbuffer_id_get_index mode buf.buf_rsb in
    let released = record buf { get_subbuf = false } in
    elim (get_elem? buf.pages bindex) [
      | none ↦ released
      | some p ↦
          let counted = record released {
            records_read = released.records_read +w p.records_unread;
            pages = modify released.pages bindex (λ q. record q { records_unread = 0 });
            buf_rsb = subbuffer_id_set_noref mode released.buf_rsb;
          } in
          updated counted (
            update_read_sb_index mode (subbuf_index consumed chan) (buf_trunc_val consumed chan)
              interfere counted)
    ]

unfoldable pub put_subbuf : Channel → (ℕ → ℕ) → Buffer → Buffer
unfolding put_held
put_subbuf chan interfere buf = if buf.get_subbuf then put_held chan interfere buf else buf

-- `lib_ring_buffer_poll_deliver`
unfoldable pub poll_deliver : Channel → Buffer → Bool
unfolding is_committed
poll_deliver chan buf = elim (get_elem? buf.commit_cold (subbuf_index buf.consumed chan)) [
  | none ↦ false
  | some cold ↦
      if not (is_committed chan buf.consumed cold.cc_sb)
      then false
      else not (subbuf_trunc buf.offset chan -w subbuf_trunc buf.consumed chan == 0)
]
