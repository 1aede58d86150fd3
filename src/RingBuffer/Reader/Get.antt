-- ===== src/RingBuffer/Reader/Get.antt =====
-- What a successful `lib_ring_buffer_get_subbuf` has seen, whatever the writers do meanwhile.
use lttng_ust.Common.{ℕ, suc, ◌≡◌, ◌≢◌, Bool, true, false, some, none, get_elem?, if◌then◌else◌}
use lttng_ust.Common.Words.{◌-w◌, is_negative}
use lttng_ust.RingBuffer.State.{overwrite, discard, Channel, Buffer}
use lttng_ust.RingBuffer.Offsets.{subbuf_trunc, subbuf_index, buf_trunc_val}
use lttng_ust.RingBuffer.Ids.{subbuffer_id_is_noref, subbuffer_id_compare_offset}
use lttng_ust.RingBuffer.Reader.{got, retry, is_committed, get_subbuf_round, get_subbuf, Others}

-- The cold counter of the sub-buffer says that this lap of it is committed to its end.
abbrev pub lap_committed : Channel → ℕ → Buffer → Bool
lap_committed chan consumed buf = elim (get_elem? buf.commit_cold (subbuf_index consumed chan)) [
  | none ↦ false
  | some cold ↦ is_committed chan consumed cold.cc_sb
]

-- The writer's entry is unreferenced and tagged with the lap that is asked for (overwrite mode).
abbrev pub is_tagged : Channel → ℕ → Buffer → Bool
is_tagged chan consumed buf = elim chan.config.mode [
  | discard ↦ true
  | overwrite ↦ elim (get_elem? buf.buf_wsb (subbuf_index consumed chan)) [
    | none ↦ false
    | some id ↦
        if subbuffer_id_is_noref overwrite id
        then subbuffer_id_compare_offset id (buf_trunc_val consumed chan)
        else false
  ]
]

-- What holds of the buffer `now` of the last round, and of the reader's state after it.
pub record Held (chan : Channel) (consumed : ℕ) (now buf' : Buffer) : Type 0 where
  pub committed : lap_committed chan consumed now ≡ true
  pub not_behind :
      is_negative (subbuf_trunc consumed chan -w subbuf_trunc now.consumed chan) ≡ false
  pub not_writers : (subbuf_trunc now.offset chan -w subbuf_trunc consumed chan) ≢ 0
  pub tagged : is_tagged chan consumed now ≡ true
  pub held : buf'.get_subbuf ≡ true
  pub held_at : buf'.get_subbuf_consumed ≡ consumed

-- The rounds that end in a retry lead from so many retries left with a buffer to fewer with another.
pub data Reaches (chan : Channel) (consumed : ℕ) (others : Others)
    : ℕ → Buffer → ℕ → Buffer → Type 0 where
  here : {n : ℕ} {b : Buffer} → Reaches chan consumed others n b n b
  again :
      {n k : ℕ} {b b' last : Buffer}
      → get_subbuf_round chan consumed (others.during (suc n)) (others.before (suc n) b) ≡ retry b'
      → Reaches chan consumed others n b' k last
      → Reaches chan consumed others (suc n) b k last

-- The round with `left` retries left, on the buffer `start`, ends the call with the buffer `buf'`.
pub record Last (chan : Channel) (consumed : ℕ) (others : Others) (nr_retry : ℕ) (buf buf' : Buffer)
    : Type 0 where
  pub left : ℕ
  pub start : Buffer
  pub reached : Reaches chan consumed others nr_retry buf left start
  pub last :
      get_subbuf_round chan consumed (others.during left) (others.before left start) ≡ got buf'
  pub seen : Held chan consumed (others.before left start) buf'
