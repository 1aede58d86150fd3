-- ===== src/RingBuffer/Geometry.antt =====
-- What the offset macros of frontend_internal.h mean where the sizes are powers of two.
use native.Mathlib.Nat.{
  mod-lt, div-lt_iff_lt-mul, mul-mod_right, mul_comm, add_comm, pow-le-pow_right,
}
use mathlib.Core.Path.{ap₂}
use lttng_ust.Common.{ℕ, ◌+◌, ◌-◌, ◌*◌, ◌/◌, ◌%◌, ◌^◌, ◌≤◌, ◌<◌, ◌≡◌, sym, ap, ◌∙◌, arith}
use lttng_ust.Common.Words.{
  word_mod, ◌+w◌, ◌-w◌, pow_pos, word_mod-eq, sub-mod-eq-mul, fits_below, last_same_div, align_up,
  pow-add,
}
use lttng_ust.RingBuffer.State.{Channel, IsChannel}
use lttng_ust.RingBuffer.Offsets.{subbuf_offset, subbuf_trunc, subbuf_align, subbuf_index}

module _ {chan : Channel} (v : IsChannel chan) where
  pub subbuf_pos : 0 < chan.subbuf_size
  subbuf_pos = omega (arith, pow_pos chan.subbuf_size_order, v.subbuf_pow)

  pub num_pos : 0 < chan.num_subbuf
  num_pos = omega (arith, pow_pos chan.num_subbuf_order, v.num_pow)

  -- The range of an offset is a whole number of sub-buffers.
  pub range_subbuf : chan.subbuf_size * 2 ^ (64 - chan.subbuf_size_order) ≡ word_mod
  range_subbuf =
      ap (λ t. t * 2 ^ (64 - chan.subbuf_size_order)) v.subbuf_pow
      ∙ word_mod-eq chan.subbuf_size_order (omega (arith, v.small, v.buf_order))

  pub subbuf_offset-lt : (o : ℕ) → subbuf_offset o chan < chan.subbuf_size
  unfolding subbuf_offset
  subbuf_offset-lt o = mod-lt o subbuf_pos

  pub subbuf_trunc-eq-mul :
      (o : ℕ) → subbuf_trunc o chan ≡ chan.subbuf_size * (o / chan.subbuf_size)
  unfolding subbuf_trunc
  subbuf_trunc-eq-mul o = sub-mod-eq-mul o chan.subbuf_size

  -- A run of bytes that fits in the sub-buffer of its first byte ends in that sub-buffer.
  pub subbuf_trunc_last :
      (b n : ℕ)
      → b < word_mod
      → 0 < n
      → subbuf_offset b chan + n ≤ chan.subbuf_size
      → subbuf_trunc ((b +w n) -w 1) chan ≡ subbuf_trunc b chan
  unfolding subbuf_offset
  subbuf_trunc_last b n hb hn h =
      let top : b + n ≤ word_mod =
        fits_below chan.subbuf_size _ word_mod range_subbuf subbuf_pos b n hb h in
      let last : (b +w n) -w 1 ≡ b + n - 1 = omega arith in
      ap (λ t. subbuf_trunc t chan) last
      ∙ subbuf_trunc-eq-mul (b + n - 1)
      ∙ ap (λ t. chan.subbuf_size * t) (last_same_div chan.subbuf_size subbuf_pos b n hn h)
      ∙ sym (subbuf_trunc-eq-mul b)

  -- The index names a sub-buffer of the buffer.
  pub subbuf_index-lt : (o : ℕ) → subbuf_index o chan < chan.num_subbuf
  unfolding subbuf_index
  subbuf_index-lt o =
      let size : chan.buf_size ≡ chan.num_subbuf * 2 ^ chan.subbuf_size_order =
        v.buf_size_eq ∙ ap (λ t. chan.num_subbuf * t) v.subbuf_pow in
      let pos : 0 < chan.buf_size = grind (arith, v.buf_size_eq, num_pos, subbuf_pos) in
      (div-lt_iff_lt-mul (pow_pos chan.subbuf_size_order)).1 (omega (arith, size, mod-lt o pos))

  pub subbuf_trunc_idem : (o : ℕ) → subbuf_trunc (subbuf_trunc o chan) chan ≡ subbuf_trunc o chan
  unfolding subbuf_trunc
  subbuf_trunc_idem o = omega (
    arith,
    ap (λ t. t % chan.subbuf_size) (sub-mod-eq-mul o chan.subbuf_size)
        ∙ mul-mod_right chan.subbuf_size (o / chan.subbuf_size),
  )

  -- `subbuf_align` is the start of the next sub-buffer.
  pub subbuf_align-eq :
      (o : ℕ) → o < word_mod → subbuf_align o chan ≡ subbuf_trunc o chan +w chan.subbuf_size
  unfolding subbuf_align subbuf_trunc
  subbuf_align-eq o h = align_up chan.subbuf_size _ range_subbuf subbuf_pos o h

  pub subbuf_trunc-align : (o : ℕ) → subbuf_trunc (subbuf_align o chan) chan ≡ subbuf_align o chan
  unfolding subbuf_align
  subbuf_trunc-align o = subbuf_trunc_idem (o +w chan.subbuf_size)

  pub subbuf_trunc-lt : (o : ℕ) → o < word_mod → subbuf_trunc o chan < word_mod
  unfolding subbuf_trunc
  subbuf_trunc-lt o h = omega arith

  pub buf_pow : chan.buf_size ≡ 2 ^ chan.buf_size_order
  buf_pow =
      v.buf_size_eq
      ∙ ap₂ ◌*◌ v.num_pow v.subbuf_pow
      ∙ sym (pow-add 2 chan.num_subbuf_order chan.subbuf_size_order)
      ∙ ap (λ t. 2 ^ t) (add_comm chan.num_subbuf_order chan.subbuf_size_order ∙ sym v.buf_order)

  -- A buffer holds at least one sub-buffer, and fits in the range of an offset.
  pub subbuf-le-buf : (chan.subbuf_size ≤ chan.buf_size) × (chan.buf_size < word_mod)
  subbuf-le-buf =
      let below : 2 ^ chan.buf_size_order ≤ 2 ^ 63 = pow-le-pow_right (omega arith) v.small in
      (grind (arith, v.buf_size_eq, num_pos), omega (arith, buf_pow, below))

  -- The commit counts of a lap, and the sub-buffer size that divides them.
  pub range_commit :
      (2 ^ (64 - chan.num_subbuf_order) * 2 ^ chan.num_subbuf_order ≡ word_mod)
      × (chan.subbuf_size ≤ 2 ^ (64 - chan.num_subbuf_order))
      × (2 ^ (64 - chan.num_subbuf_order) ≤ word_mod)
  range_commit =
      let small : chan.num_subbuf_order ≤ 64 = omega (arith, v.small, v.buf_order) in
      (
        mul_comm (2 ^ (64 - chan.num_subbuf_order)) (2 ^ chan.num_subbuf_order)
            ∙ word_mod-eq chan.num_subbuf_order small,
        rw v.subbuf_pow
            (pow-le-pow_right {n = 2} (omega arith) (omega (arith, v.small, v.buf_order))),
        pow-le-pow_right {n = 2} (omega arith) {j = 64} (omega arith),
      )
