-- ===== src/RingBuffer/Offsets.antt =====
-- The offset arithmetic of src/common/ringbuffer/frontend_internal.h: an offset counts bytes for ever,
-- modulo 2 ^ 64, and names a lap round the buffer, a sub-buffer and a position in it.
use lttng_ust.Common.{ℕ, ◌-◌, ◌/◌, ◌%◌, ◌^◌}
use lttng_ust.Common.Words.{◌+w◌}
use lttng_ust.RingBuffer.State.{Channel}

-- `offset & ~(buf_size - 1)`
unfoldable pub buf_trunc : ℕ → Channel → ℕ
buf_trunc offset chan = offset - offset % chan.buf_size

unfoldable pub buf_trunc_val : ℕ → Channel → ℕ
unfolding buf_trunc
buf_trunc_val offset chan = buf_trunc offset chan / 2 ^ chan.buf_size_order

unfoldable pub buf_offset : ℕ → Channel → ℕ
buf_offset offset chan = offset % chan.buf_size

unfoldable pub subbuf_offset : ℕ → Channel → ℕ
subbuf_offset offset chan = offset % chan.subbuf_size

unfoldable pub subbuf_trunc : ℕ → Channel → ℕ
subbuf_trunc offset chan = offset - offset % chan.subbuf_size

unfoldable pub subbuf_align : ℕ → Channel → ℕ
unfolding subbuf_trunc
subbuf_align offset chan = subbuf_trunc (offset +w chan.subbuf_size) chan

unfoldable pub subbuf_index : ℕ → Channel → ℕ
unfolding buf_offset
subbuf_index offset chan = buf_offset offset chan / 2 ^ chan.subbuf_size_order

-- `count & commit_count_mask`, where the mask is `~0UL >> num_subbuf_order`
unfoldable pub commit_masked : ℕ → Channel → ℕ
commit_masked count chan = count % 2 ^ (64 - chan.num_subbuf_order)

-- `buf_trunc(offset) >> num_subbuf_order`: the commit count with which the lap of `offset` starts
unfoldable pub lap_commit : ℕ → Channel → ℕ
unfolding buf_trunc
lap_commit offset chan = buf_trunc offset chan / 2 ^ chan.num_subbuf_order
