-- ===== src/RingBuffer/Reserve/Push.antt =====
-- `lib_ring_buffer_reserve_push_reader`: the writer keeps the consumer less than a buffer behind.
use lttng_ust.Common.{ℕ, ◌≤◌, ◌<◌, ◌≡◌, ◌∙◌, ◌⊎◌, arith}
use lttng_ust.Common.Words.{◌+w◌, ◌-w◌, word_mod}
use lttng_ust.RingBuffer.State.{Channel, Buffer, IsChannel}
use lttng_ust.RingBuffer.Offsets.{subbuf_trunc, subbuf_align}
use lttng_ust.RingBuffer.Geometry.{
  subbuf_trunc-align, subbuf_align-eq, subbuf_pos, subbuf_trunc-lt, subbuf-le-buf,
}
use lttng_ust.RingBuffer.Reserve.{reserve_push_reader}

-- How far the sub-buffer of `offset` lies ahead of the consumer's.
abbrev pub lead : Channel → ℕ → Buffer → ℕ
lead chan offset buf = subbuf_trunc offset chan -w subbuf_trunc buf.consumed chan

-- A writer at most a whole buffer ahead of the consumer is less than a buffer ahead of it
-- afterwards; a consumer that is pushed moves to the start of its next sub-buffer, and one whose
-- sub-buffer is not in the way does not move.
pub reserve_push_reader-lead :
    {chan : Channel} (v : IsChannel chan) (offset : ℕ) (buf : Buffer)
    → offset < word_mod
    → buf.consumed < word_mod
    → lead chan offset buf ≤ chan.buf_size
    → let buf' = reserve_push_reader chan offset buf in
      (lead chan offset buf' < chan.buf_size)
      × (((lead chan offset buf < chan.buf_size) × (buf' ≡ buf))
          ⊎ ((lead chan offset buf ≡ chan.buf_size)
              × (buf'
                  ≡ record buf { consumed = subbuf_trunc buf.consumed chan +w chan.subbuf_size })))
unfolding reserve_push_reader
reserve_push_reader-lead {chan} v offset buf ho hc h =
    let aligned = subbuf_align-eq v buf.consumed hc in
    let start : subbuf_trunc (subbuf_align buf.consumed chan) chan
        ≡ subbuf_trunc buf.consumed chan +w chan.subbuf_size =
      subbuf_trunc-align v buf.consumed ∙ aligned in
    ground (
      arith,
      aligned,
      start,
      subbuf_pos v,
      subbuf-le-buf v,
      subbuf_trunc-lt v offset ho,
      subbuf_trunc-lt v buf.consumed hc,
    )
