-- ===== src/RingBuffer/Reserve.antt =====
-- Reserving a slot: the fast path of frontend_api.h and one pass of the slow path of
-- ring_buffer_frontend.c. `Env` holds what the passes read besides the buffer.
pub mod Fit
pub mod Outcome
pub mod Push
use lttng_ust.Common.{
  ℕ, ◌-◌, ◌/◌, ◌%◌, ◌^◌, Bool, true, false, Option, some, none, get_elem?, ◌==◌, ltb, leb,
  if◌then◌else◌, not, ◌||◌,
}
use lttng_ust.Common.Words.{◌+w◌, ◌-w◌}
use lttng_ust.RingBuffer.State.{overwrite, discard, Channel, Config, Buffer}
use lttng_ust.RingBuffer.Offsets.{
  subbuf_offset, subbuf_trunc, subbuf_align, subbuf_index, lap_commit, commit_masked,
}
use lttng_ust.RingBuffer.Backend.{clear_noref}

-- The client's clock reading, its `record_header_size` callback (from the full-timestamp flag and
-- the offset, the header's size and the padding before it), and the event's layout.
pub record Env : Type 0 where
  pub timestamp : ℕ
  pub record_header_size : Bool → ℕ → ℕ × ℕ
  pub data_size : ℕ
  pub largest_align : ℕ
  pub full_timestamp : Bool

-- The clock's error value, -EIO read as a word.
abbrev pub clock_eio : ℕ
clock_eio = 2 ^ 64 - 5

-- `lttng_ust_offset_align`, for an alignment that is a power of two
unfoldable pub offset_align : ℕ → ℕ → ℕ
offset_align align_drift alignment = (alignment -w align_drift) % alignment

unfoldable pub ring_buffer_align : Config → ℕ → ℕ → ℕ
unfolding offset_align
ring_buffer_align config align_drift size_of_type =
    if config.natural_align then offset_align align_drift size_of_type else 0

unfoldable pub last_timestamp_overflow : Config → Buffer → ℕ → Bool
last_timestamp_overflow config buf timestamp =
    if config.timestamp_bits == 0 || config.timestamp_bits == 64
    then false
    else not ((timestamp -w buf.last_timestamp) / 2 ^ config.timestamp_bits == 0)

unfoldable pub save_last_timestamp : Config → ℕ → Buffer → Buffer
save_last_timestamp config timestamp buf =
    if config.timestamp_bits == 0 || config.timestamp_bits == 64
    then buf
    else record buf { last_timestamp = timestamp }

-- The size of the slot at `begin`, header, padding and payload, with the padding before the header.
unfoldable pub slot_size : Channel → Env → Bool → ℕ → ℕ × ℕ
slot_size chan env full begin =
    let (header, pad) = env.record_header_size full begin in
    let payload =
      ring_buffer_align chan.config (begin +w header) env.largest_align +w env.data_size in
    (header +w payload, pad)

pub record Slot : Type 0 where
  pub begin : ℕ
  pub size : ℕ
  pub padding : ℕ
  pub full_timestamp : Bool

abbrev pub slot_end : Slot → ℕ
slot_end s = s.begin +w s.size

-- `none` asks for the slow path.
unfoldable pub try_reserve : Channel → Env → Buffer → Option Slot
try_reserve chan env buf =
    let full = env.full_timestamp || last_timestamp_overflow chan.config buf env.timestamp in
    let (size, pad) = slot_size chan env full buf.offset in
    if env.timestamp == clock_eio
    then none
    else if subbuf_offset buf.offset chan == 0
    then none
    else if ltb chan.subbuf_size (subbuf_offset buf.offset chan +w size)
    then none
    else if subbuf_offset (buf.offset +w size) chan == 0
    then none
    else some (record { begin = buf.offset; size = size; padding = pad; full_timestamp = full })

-- The loop's last round; a round whose exchange fails changes nothing.
unfoldable pub reserve_push_reader : Channel → ℕ → Buffer → Buffer
reserve_push_reader chan offset buf =
    if leb chan.buf_size (subbuf_trunc offset chan -w subbuf_trunc buf.consumed chan)
    then record buf { consumed = subbuf_align buf.consumed chan }
    else buf

-- The rest of `lib_ring_buffer_reserve`, once its exchange has moved the offset to the slot's end.
unfoldable pub reserve_fast : Channel → Env → Slot → Buffer → Buffer
reserve_fast chan env slot buf =
    let moved = record buf { offset = slot_end slot } in
    let stamped = save_last_timestamp chan.config env.timestamp moved in
    let pushed = reserve_push_reader chan (slot_end slot -w 1) stamped in
    clear_noref chan.config.mode (subbuf_index (slot_end slot -w 1) chan) pushed

-- The slow path's errors.
pub data Error : Type 0 where
  eio enobufs enospc eperm : Error

-- `struct switch_offsets`, as the slow path leaves it.
pub record Plan : Type 0 where
  pub slot : Slot
  pub switch_new_start : Bool
  pub switch_new_end : Bool
  pub switch_old_end : Bool

-- How a pass ends: with a plan that the exchange will try, with an error and the lost-record
-- counters counted up, or going round again, after a wait for the consumer or because the offset
-- moved under the pass.
pub data Pass : Type 0 where
  planned : Plan → Pass
  failed : Error → Buffer → Pass
  blocked : Pass
  moved : Pass

-- The plan for a slot at `begin`, when its size is known to fit.
abbrev pub plan_at : Channel → ℕ → ℕ × ℕ → Bool → Bool → Bool → Plan
plan_at chan begin sized full new_start old_end = record {
  slot = record { begin = begin; size = sized.0; padding = sized.1; full_timestamp = full };
  switch_new_start = new_start;
  switch_new_end = subbuf_offset (begin +w sized.0) chan == 0;
  switch_old_end = old_end;
}

-- The new sub-buffer is free: size the record at its start.
unfoldable pub reserve_in_new : Channel → Env → Buffer → Bool → Bool → ℕ → Pass
reserve_in_new chan env buf full old_end begin =
    let sized = slot_size chan env full begin in
    if ltb chan.subbuf_size (subbuf_offset begin chan +w sized.0)
    then failed enospc (record buf { records_lost_big = buf.records_lost_big +w 1 })
    else planned (plan_at chan begin sized full true old_end)

-- Where the record starts in a new sub-buffer: after its header.
abbrev pub switch_begin : Channel → Buffer → Bool → ℕ
switch_begin chan buf old_end =
    (if old_end then subbuf_align buf.offset chan else buf.offset)
    +w chan.config.subbuffer_header_size

-- Why the new sub-buffer cannot be written: the tests between its commit count and its first
-- record. `reread` is the second reading of `buf->offset`, and `may_block` what
-- `handle_blocking_retry` answers.
unfoldable pub refusal : Channel → Buffer → Bool → ℕ → ℕ → Option Pass
refusal chan buf may_block reread begin =
    elim (get_elem? buf.commit_cold (subbuf_index begin chan)) [
      | none ↦ some (failed eperm buf)
      | some cold ↦
          if not (reread == buf.offset)
          then some moved
          else if not (lap_commit begin chan -w commit_masked cold.cc_sb chan == 0)
          then some (failed eio (record buf { records_lost_wrap = buf.records_lost_wrap +w 1 }))
          else elim chan.config.mode [
            | overwrite ↦ none
            | discard ↦
                if leb chan.buf_size (subbuf_trunc begin chan -w subbuf_trunc buf.consumed chan)
                then some (
                    if may_block
                    then blocked
                    else failed enobufs
                        (record buf { records_lost_full = buf.records_lost_full +w 1 }))
                else none
          ]
    ]

-- The branch under `switch_new_start`.
unfoldable pub reserve_switch : Channel → Env → Buffer → Bool → ℕ → Bool → Bool → Pass
reserve_switch chan env buf may_block reread full old_end =
    let begin = switch_begin chan buf old_end in
    elim (refusal chan buf may_block reread begin) [
      | none ↦ reserve_in_new chan env buf full old_end begin
      | some pass ↦ pass
    ]

-- One pass of `lib_ring_buffer_try_reserve_slow`.
unfoldable pub try_reserve_slow : Channel → Env → Bool → ℕ → Buffer → Pass
try_reserve_slow chan env may_block reread buf =
    let full = env.full_timestamp || last_timestamp_overflow chan.config buf env.timestamp in
    let sized = slot_size chan env full buf.offset in
    if env.timestamp == clock_eio
    then failed eio buf
    else if subbuf_offset buf.offset chan == 0
    then reserve_switch chan env buf may_block reread full false
    else if ltb chan.subbuf_size (subbuf_offset buf.offset chan +w sized.0)
    then reserve_switch chan env buf may_block reread full true
    else planned (plan_at chan buf.offset sized full false false)
