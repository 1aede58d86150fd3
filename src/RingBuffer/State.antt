-- ===== src/RingBuffer/State.antt =====
-- The state of a ring buffer: `struct lttng_ust_ring_buffer_channel` with its `channel_backend`
-- (backend_types.h, frontend_types.h), and `struct lttng_ust_ring_buffer` with its backend.
-- Padding, file descriptors, timers and names are left out: nothing below reads them.
use lttng_ust.Common.{ℕ, ◌*◌, ◌+◌, ◌≤◌, ◌^◌, ◌≡◌, Bool, List}

pub data Mode : Type 0 where
  overwrite discard : Mode

-- `struct lttng_ust_ring_buffer_config`. The callback `subbuffer_header_size` takes no argument, so
-- it is a number.
pub record Config : Type 0 where
  pub mode : Mode
  pub oops_consistency : Bool
  pub timestamp_bits : ℕ
  pub natural_align : Bool
  pub subbuffer_header_size : ℕ

pub record Channel : Type 0 where
  pub config : Config
  pub buf_size : ℕ
  pub subbuf_size : ℕ
  pub num_subbuf : ℕ
  pub subbuf_size_order : ℕ
  pub num_subbuf_order : ℕ
  pub buf_size_order : ℕ

-- `struct commit_counters_hot`
pub record CommitHot : Type 0 where
  pub cc : ℕ
  pub seq : ℕ

-- `struct commit_counters_cold`
pub record CommitCold : Type 0 where
  pub cc_sb : ℕ
  pub end_events_discarded : ℕ

-- `struct lttng_ust_ring_buffer_backend_pages`, without the addresses
pub record Pages : Type 0 where
  pub records_commit : ℕ
  pub records_unread : ℕ
  pub data_size : ℕ

-- The client's callbacks that write packet headers, with the arguments they are called with.
pub data Callback : Type 0 where
  buffer_begin : ℕ → ℕ → Callback
  buffer_end : ℕ → ℕ → ℕ → Callback

pub record Buffer : Type 0 where
  pub offset : ℕ
  pub consumed : ℕ
  pub last_timestamp : ℕ
  pub commit_hot : List CommitHot
  pub commit_cold : List CommitCold
  pub ts_end : List ℕ
  pub buf_wsb : List ℕ
  pub buf_rsb : ℕ
  pub buf_cnt : List ℕ
  pub pages : List Pages
  pub records_read : ℕ
  pub active_readers : ℕ
  pub records_lost_full : ℕ
  pub records_lost_wrap : ℕ
  pub records_lost_big : ℕ
  pub finalized : Bool
  pub get_subbuf_consumed : ℕ
  pub get_subbuf : Bool
  pub callbacks : List Callback

-- The sizes are powers of two with the orders on record, and a buffer is smaller than the range of
-- an offset.
pub record IsChannel (chan : Channel) : Type 0 where
  pub subbuf_pow : chan.subbuf_size ≡ 2 ^ chan.subbuf_size_order
  pub num_pow : chan.num_subbuf ≡ 2 ^ chan.num_subbuf_order
  pub buf_order : chan.buf_size_order ≡ chan.subbuf_size_order + chan.num_subbuf_order
  pub buf_size_eq : chan.buf_size ≡ chan.num_subbuf * chan.subbuf_size
  pub small : chan.buf_size_order ≤ 63
