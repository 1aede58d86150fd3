-- ===== src/RingBuffer/Tests.antt =====
-- The ring buffer's theorems at concrete buffers: four sub-buffers of 4 KiB.
use mathlib.Core.List.{Perm}
use lttng_ust.Common.{
  ℕ, ◌+◌, ◌-◌, ◌≡◌, ◌≢◌, ◌<◌, ◌^◌, refl, true, false, List, [], ◌∷◌, ◌++◌, arith, ◌⊎◌, ◌↔◌,
}
use lttng_ust.Common.Words.{◌+w◌}
use lttng_ust.RingBuffer.State.{
  Mode, overwrite, discard, Channel, IsChannel, Buffer, CommitHot, CommitCold, Pages, buffer_end,
}
use lttng_ust.RingBuffer.Offsets.{
  subbuf_offset, subbuf_trunc, subbuf_align, subbuf_index, lap_commit, commit_masked,
}
use lttng_ust.RingBuffer.Ids.{
  subbuffer_id, subbuffer_id_get_index, subbuffer_id_is_noref, subbuffer_id_compare_offset,
}
use lttng_ust.RingBuffer.Ids.Fields.{subbuffer_id_fields}
use lttng_ust.RingBuffer.Backend.{updated, met, update_read_sb_index}
use lttng_ust.RingBuffer.Backend.Exchange.{Exchange, pages_in_use, update_read_sb_index-perm}
use lttng_ust.RingBuffer.Commit.Deliver.{Counters, data_size}
use lttng_ust.RingBuffer.Commit.Lap.{
  Chunk, commit_all, commit_all_partial, commit_all_full, Underway,
}
use lttng_ust.RingBuffer.Reserve.{
  Env, Slot, Plan, enobufs, try_reserve, try_reserve_slow, slot_size, ring_buffer_align,
  last_timestamp_overflow, reserve_switch, reserve_in_new, refusal, reserve_push_reader,
}
use lttng_ust.RingBuffer.Reserve.Fit.{IsSized, InOneSubbuf, try_reserve_fits}
use lttng_ust.RingBuffer.Reserve.Outcome.{Lost, try_reserve_slow-Lost}
use lttng_ust.RingBuffer.Reserve.Push.{lead, reserve_push_reader-lead}
use lttng_ust.RingBuffer.Reader.{get_subbuf, Others, put_subbuf}
use lttng_ust.RingBuffer.Reader.Put.{Put, put_subbuf-perm}

abbrev small : Mode → Channel
small mode = record {
  config = record {
    mode = mode;
    oops_consistency = true;
    timestamp_bits = 27;
    natural_align = false;
    subbuffer_header_size = 64;
  };
  buf_size = 16384;
  subbuf_size = 4096;
  num_subbuf = 4;
  subbuf_size_order = 12;
  num_subbuf_order = 2;
  buf_size_order = 14;
}

small-IsChannel : (mode : Mode) → IsChannel (small mode)
small-IsChannel mode = record {
  subbuf_pow = refl;
  num_pow = refl;
  buf_order = refl;
  buf_size_eq = refl;
  small = omega arith;
}

abbrev zeroed : CommitHot
zeroed = record { cc = 0; seq = 0 }

abbrev cold : ℕ → CommitCold
cold count = record { cc_sb = count; end_events_discarded = 0 }

abbrev blank : Pages
blank = record { records_commit = 0; records_unread = 0; data_size = 4000 }

-- The writer is at `offset`, the consumer at the start; sub-buffer 0 is committed `first` bytes far.
abbrev at : ℕ → ℕ → ℕ → Buffer
at offset first first_cold = record {
  offset = offset;
  consumed = 0;
  last_timestamp = 0;
  commit_hot = record { cc = first; seq = 0 } ∷ zeroed ∷ zeroed ∷ zeroed ∷ [];
  commit_cold = cold first_cold ∷ cold 0 ∷ cold 0 ∷ cold 0 ∷ [];
  ts_end = 7 ∷ 0 ∷ 0 ∷ 0 ∷ [];
  buf_wsb = 2 ^ 32 ∷ (2 ^ 32 + 1) ∷ (2 ^ 32 + 2) ∷ (2 ^ 32 + 3) ∷ [];
  buf_rsb = 2 ^ 32 + 4;
  buf_cnt = 0 ∷ 0 ∷ 0 ∷ 0 ∷ [];
  pages = blank ∷ blank ∷ blank ∷ blank ∷ blank ∷ [];
  records_read = 0;
  active_readers = 1;
  records_lost_full = 0;
  records_lost_wrap = 0;
  records_lost_big = 0;
  finalized = false;
  get_subbuf_consumed = 0;
  get_subbuf = false;
  callbacks = [];
}

-- A record of 48 bytes.
abbrev env : Env
env = record {
  timestamp = 5;
  record_header_size = λ full begin. (16, 0);
  data_size = 32;
  largest_align = 8;
  full_timestamp = false;
}

env-IsSized : (mode : Mode) → IsSized (small mode) env
unfolding slot_size ring_buffer_align
env-IsSized mode = record {
  nonempty = λ full begin. omega arith;
  bounded = λ full begin. omega arith;
}

abbrev slot_at : ℕ → Slot
slot_at begin = record { begin = begin; size = 48; padding = 0; full_timestamp = false }

try_reserve_fits_example :
    ((slot_at 64).begin ≡ (at 64 64 0).offset)
    × InOneSubbuf (small discard) (slot_at 64)
    × (subbuf_offset 112 (small discard) ≢ 0)
unfolding try_reserve slot_size ring_buffer_align last_timestamp_overflow subbuf_offset
try_reserve_fits_example =
    try_reserve_fits (at 64 64 0) (small-IsChannel discard) (env-IsSized discard) (omega arith) refl

-- At offset 4070 the record does not fit: it goes to the next sub-buffer, after its header.
abbrev switching : Plan
switching = record {
  slot = slot_at 4160;
  switch_new_start = true;
  switch_new_end = false;
  switch_old_end = true;
}

-- A full buffer: the writer is back at sub-buffer 0, which the consumer has not read.
abbrev full_buffer : Buffer
full_buffer = at 16384 4096 4096

try_reserve_slow-Lost_example :
    Lost
      (small discard)
      env
      false
      full_buffer
      enobufs
      (record full_buffer { records_lost_full = 1 })
unfolding try_reserve_slow reserve_switch reserve_in_new refusal slot_size ring_buffer_align
    last_timestamp_overflow subbuf_offset subbuf_align subbuf_index lap_commit commit_masked
    subbuf_trunc
try_reserve_slow-Lost_example =
    try_reserve_slow-Lost (small discard) env false 16384 full_buffer enobufs
      (record full_buffer { records_lost_full = 1 }) refl

reserve_push_reader-lead_example :
    let buf' = reserve_push_reader (small overwrite) 16400 full_buffer in
    (lead (small overwrite) 16400 buf' < 16384)
    × (((lead (small overwrite) 16400 full_buffer < 16384) × (buf' ≡ full_buffer))
        ⊎ ((lead (small overwrite) 16400 full_buffer ≡ 16384)
            × (buf' ≡ record full_buffer { consumed = subbuf_trunc 0 (small overwrite) +w 4096 })))
unfolding subbuf_trunc
reserve_push_reader-lead_example =
    reserve_push_reader-lead (small-IsChannel overwrite) 16400 full_buffer (omega arith)
      (omega arith) (omega arith)

-- The header and two records that fill sub-buffer 0, committed out of order.
abbrev chunk : ℕ → ℕ → Chunk
chunk size end = record { size = size; at = end - 1; end = end }

abbrev lap : List Chunk
lap = chunk 2000 4096 ∷ chunk 64 64 ∷ chunk 2032 2096 ∷ []

commit_all_full_example :
    let buf' = commit_all (small discard) 0 lap (at 4096 0 0) in
    Counters 0 buf' 4096 4096 7
    × (buf'.callbacks ≡ [] ++ buffer_end 7 0 (data_size (small discard) 0 (at 4096 0 0)) ∷ [])
unfolding lap_commit commit_masked
commit_all_full_example =
    commit_all_full (small-IsChannel discard) 0 0 0 7 refl lap 0 (at 4096 0 0) (omega arith)
      (omega arith, refl, (omega arith, refl, (omega arith, refl, tt))) (omega arith) refl
      (record { hot_is = refl; cold_is = refl; ts_is = refl })

commit_all_partial_example :
    let buf' = commit_all (small discard) 0 (chunk 64 64 ∷ []) (at 4096 0 0) in
    Underway 0 buf' 0 64 7 × (buf'.callbacks ≡ [])
unfolding lap_commit commit_masked
commit_all_partial_example =
    commit_all_partial (small-IsChannel discard) 0 0 0 7 refl (chunk 64 64 ∷ []) 0 (at 4096 0 0)
      (omega arith, refl, tt) (omega arith) (record { hot_is = refl; cold_is = refl; ts_is = refl })

abbrev alone : Others
alone = record { before = λ n buf. buf; during = λ n id. id }

subbuffer_id_fields_example :
    let id = subbuffer_id overwrite 5 true 3 in
    (subbuffer_id_get_index overwrite id ≡ 3)
    × (subbuffer_id_is_noref overwrite id ≡ true)
    × ((o : ℕ) → o < 2 ^ 31 → (subbuffer_id_compare_offset id o ≡ true) ↔ (o ≡ 5))
subbuffer_id_fields_example = subbuffer_id_fields 5 true 3 (omega arith) (omega arith)

abbrev held_page : Pages
held_page = record { records_commit = 3; records_unread = 3; data_size = 4000 }

abbrev held : Buffer
held = record (at 5000 4096 4096) {
  get_subbuf = true;
  pages = blank ∷ blank ∷ blank ∷ blank ∷ held_page ∷ [];
}

abbrev left_alone : ℕ → ℕ
left_alone id = id

update_read_sb_index-perm_example :
    let buf' = updated held (update_read_sb_index overwrite 0 0 left_alone held) in
    Perm (pages_in_use (met 0 left_alone held)) (pages_in_use buf')
    × Exchange 0 0 left_alone held buf'
update_read_sb_index-perm_example = update_read_sb_index-perm 0 0 left_alone held

-- A writer has taken the place in the table when the reader comes to exchange.
abbrev taken : ℕ → ℕ
taken id = id + 2 ^ 33

put_subbuf-perm_example :
    Put (small overwrite) taken held_page held (put_subbuf (small overwrite) taken held)
unfolding subbuffer_id_get_index
put_subbuf-perm_example = put_subbuf-perm (small overwrite) taken held held_page refl refl refl
