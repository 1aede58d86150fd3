-- ===== src/RingBuffer/Switch.antt =====
-- Switching sub-buffers (ring_buffer_frontend.c): what the slow path does to the old and the new
-- sub-buffer after its exchange, and `lib_ring_buffer_switch_slow`.
use lttng_ust.Common.{
  ℕ, Bool, true, false, Option, some, none, [], ◌∷◌, ◌++◌, get_elem?, modify, set, ◌==◌, leb,
  if◌then◌else◌, not, ◌&&◌, is_some,
}
use lttng_ust.Common.Words.{◌+w◌, ◌-w◌}
use lttng_ust.RingBuffer.State.{overwrite, discard, Channel, Buffer, buffer_begin}
use lttng_ust.RingBuffer.Offsets.{
  subbuf_offset, subbuf_trunc, subbuf_align, subbuf_index, lap_commit, commit_masked,
}
use lttng_ust.RingBuffer.Backend.{clear_noref, subbuffer_set_data_size}
use lttng_ust.RingBuffer.Commit.{add_commit}
use lttng_ust.RingBuffer.Reserve.{Env, Plan, slot_end, save_last_timestamp, reserve_push_reader}

-- The three counters of lost records, read when a sub-buffer is about to end.
abbrev pub records_lost : Buffer → ℕ
records_lost buf = buf.records_lost_full +w buf.records_lost_wrap +w buf.records_lost_big

-- The end time and the count of lost records of the sub-buffer `idx`.
unfoldable pub close_subbuffer : ℕ → ℕ → ℕ → Buffer → Buffer
close_subbuffer idx timestamp lost buf = record buf {
  ts_end = set buf.ts_end idx timestamp;
  commit_cold = modify buf.commit_cold idx (λ c. record c { end_events_discarded = lost });
}

-- `ts_end && cc_cold`
abbrev pub has_control : ℕ → Buffer → Bool
has_control idx buf = is_some (get_elem? buf.ts_end idx) && is_some (get_elem? buf.commit_cold idx)

-- The header of a sub-buffer is written and committed: `switch_old_start` at the old offset,
-- `switch_new_start` at the new one.
unfoldable pub start_subbuffer : Channel → ℕ → ℕ → Buffer → Buffer
start_subbuffer chan offset timestamp buf =
    let idx = subbuf_index offset chan in
    let header = chan.config.subbuffer_header_size in
    let begun = record buf { callbacks = buf.callbacks ++ buffer_begin timestamp idx ∷ [] } in
    add_commit chan idx header offset (offset +w header) begun

unfoldable pub switch_old_end : Channel → ℕ → ℕ → ℕ → Buffer → Buffer
unfolding close_subbuffer
switch_old_end chan old timestamp lost buf =
    let idx = subbuf_index (old -w 1) chan in
    let data_size = subbuf_offset (old -w 1) chan +w 1 in
    let padding_size = chan.subbuf_size -w data_size in
    let sized = subbuffer_set_data_size chan.config.mode idx data_size buf in
    if has_control idx sized
    then add_commit chan idx padding_size (old -w 1) (old +w padding_size)
        (close_subbuffer idx timestamp lost sized)
    else sized

unfoldable pub switch_new_end : Channel → ℕ → ℕ → ℕ → Buffer → Buffer
unfolding close_subbuffer
switch_new_end chan end timestamp lost buf =
    let idx = subbuf_index (end -w 1) chan in
    let data_size = subbuf_offset (end -w 1) chan +w 1 in
    let sized = subbuffer_set_data_size chan.config.mode idx data_size buf in
    if has_control idx sized then close_subbuffer idx timestamp lost sized else sized

-- The rest of `lib_ring_buffer_reserve_slow`, once its exchange has moved the offset from `old`.
unfoldable pub reserve_slow : Channel → Env → Plan → Buffer → Buffer
reserve_slow chan env plan buf =
    let old = buf.offset in
    let end = slot_end plan.slot in
    let lost = records_lost buf in
    let mode = chan.config.mode in
    let stamped = save_last_timestamp chan.config env.timestamp (record buf { offset = end }) in
    let pushed = reserve_push_reader chan (end -w 1) stamped in
    let referred = clear_noref mode (subbuf_index (end -w 1) chan) pushed in
    let old_ended =
      if plan.switch_old_end
      then switch_old_end chan old env.timestamp lost
          (clear_noref mode (subbuf_index (old -w 1) chan) referred)
      else referred in
    let new_started =
      if plan.switch_new_start
      then start_subbuffer chan (plan.slot).begin env.timestamp old_ended
      else old_ended in
    if plan.switch_new_end
    then switch_new_end chan end env.timestamp lost new_started
    else new_started

pub data SwitchMode : Type 0 where
  switch_active switch_flush : SwitchMode

-- `lib_ring_buffer_try_switch_slow`: `none` where no switch is due, otherwise `switch_old_start`.
unfoldable pub try_switch_slow : SwitchMode → Channel → Buffer → Option Bool
try_switch_slow mode chan buf = elim (subbuf_offset buf.offset chan == 0) [
  | false ↦ some false
  | true ↦ elim mode [
    | switch_active ↦ none
    | switch_flush ↦
        if chan.config.subbuffer_header_size == 0
        then none
        else elim (get_elem? buf.commit_cold (subbuf_index buf.offset chan)) [
          | none ↦ none
          | some cold ↦
              if not (lap_commit buf.offset chan -w commit_masked cold.cc_sb chan == 0)
              then none
              else elim chan.config.mode [
                | overwrite ↦ some true
                | discard ↦
                    if leb chan.buf_size
                      (subbuf_trunc buf.offset chan -w subbuf_trunc buf.consumed chan)
                    then none
                    else some true
              ]
        ]
  ]
]

-- The rest of `lib_ring_buffer_switch_slow`, once its exchange has moved the offset.
unfoldable pub finish_switch : Channel → ℕ → Bool → Buffer → Buffer
finish_switch chan timestamp old_start buf =
    let old = buf.offset in
    let lost = records_lost buf in
    let header = chan.config.subbuffer_header_size in
    let moved = record buf { offset = subbuf_align old chan } in
    let stamped = save_last_timestamp chan.config timestamp moved in
    let pushed = reserve_push_reader chan old stamped in
    let referred = clear_noref chan.config.mode (subbuf_index old chan) pushed in
    if old_start
    then switch_old_end chan (old +w header) timestamp lost
        (start_subbuffer chan old timestamp referred)
    else switch_old_end chan old timestamp lost referred

unfoldable pub switch_slow : SwitchMode → Channel → ℕ → Buffer → Buffer
unfolding try_switch_slow finish_switch
switch_slow mode chan timestamp buf = elim (try_switch_slow mode chan buf) [
  | none ↦ buf
  | some old_start ↦ finish_switch chan timestamp old_start buf
]
