-- ===== src/RingBuffer/Create.antt =====
-- The sizes of a new channel: `channel_backend_init` of src/common/ringbuffer/ring_buffer_backend.c up to
-- the allocation, for a channel with a name and a system that knows its page size.
mod Tests
use lttng_ust.Common.{
  ℕ, zero, suc, ◌+◌, ◌-◌, ◌*◌, ◌%◌, ◌^◌, ◌≤◌, ◌<◌, ◌≡◌, ◌≢◌, refl, sym, ap, ◌∙◌, Bool, true, false,
  not, ◌||◌, ◌&&◌, ltb, ◌==◌, if◌then◌else◌, arith, Option, some, none, Bool-cases, inl, inr, ◌⊎◌,
  ltb→lt, ltb_false→le,
}
use native.Mathlib.Nat.{mul-le-mul_right, pow-suc, mul_assoc, mul_comm, pow-le-pow_right}
use lttng_ust.Common.Words.{pow-add, pow_pos}
use lttng_ust.RingBuffer.State.{Config, Channel, IsChannel, Mode, overwrite, discard}
use lttng_ust.RingBuffer.Ids.{subbuffer_id_check_index}
use lttng_ust.RingBuffer.Order.{lttng_ust_fls, get_count_order, get_count_order-pow, pow_injective}

-- `x & (x - 1)` is 0: 0, or one of the powers of two below 2 ^ `k`.
pub is_pow2_below : ℕ → ℕ → Bool
is_pow2_below zero x = false
is_pow2_below (suc k) x = x == 2 ^ k || is_pow2_below k x

is_pow2_below-pow : (k x : ℕ) → is_pow2_below k x ≡ true → (e : ℕ) × (e < k) × (x ≡ 2 ^ e)
unfolding is_pow2_below
is_pow2_below-pow zero x h = ground arith
is_pow2_below-pow (suc k) x h = elim (Bool-cases (x == 2 ^ k)) [
  | inl here ↦ (k, omega arith, ground arith)
  | inr below ↦
      let (e, he, same) = is_pow2_below-pow k x (ground arith) in (e, omega (arith, he), same)
]

abbrev is_overwrite : Mode → Bool
is_overwrite overwrite = true
is_overwrite discard = false

-- Every order is taken of an `unsigned int`.
abbrev pub sized : Config → ℕ → ℕ → Channel
sized config subbuf_size num_subbuf = record {
  config = config;
  buf_size = num_subbuf * subbuf_size % 2 ^ 64;
  subbuf_size = subbuf_size;
  num_subbuf = num_subbuf;
  buf_size_order = get_count_order (num_subbuf * subbuf_size % 2 ^ 64 % 2 ^ 32);
  subbuf_size_order = get_count_order (subbuf_size % 2 ^ 32);
  num_subbuf_order = get_count_order (num_subbuf % 2 ^ 32);
}

-- The channel of a request, or nothing for -EINVAL and -EPERM. Its sizes are words.
pub channel_backend_init : Config → ℕ → ℕ → ℕ → Option Channel
channel_backend_init config page_size subbuf_size num_subbuf =
    if ltb subbuf_size page_size
    then none
    else if not (is_pow2_below 64 subbuf_size)
    then none
    else if not (is_pow2_below 64 num_subbuf)
    then none
    else if is_overwrite config.mode && ltb num_subbuf 2
    then none
    else if not (subbuffer_id_check_index config.mode num_subbuf)
    then none
    else some (sized config subbuf_size num_subbuf)

channel_backend_init-pows :
    (config : Config) (page_size subbuf_size num_subbuf : ℕ) {chan : Channel}
    → channel_backend_init config page_size subbuf_size num_subbuf ≡ some chan
    → (is_pow2_below 64 subbuf_size ≡ true)
      × (is_pow2_below 64 num_subbuf ≡ true)
      × (chan ≡ sized config subbuf_size num_subbuf)
unfolding channel_backend_init
channel_backend_init-pows config page_size subbuf_size num_subbuf h = ground arith

-- The order of a small power of two, also where it went through wider words.
order_of_word : (k x : ℕ) → x ≡ 2 ^ k → k < 32 → get_count_order (x % 2 ^ 32) ≡ k
order_of_word k x e h =
    let below : 2 ^ (k + 1) ≤ 2 ^ 32 =
      pow-le-pow_right {n = 2} (omega arith) {i = k + 1} {j = 32} (omega arith) in
    let twice : 2 ^ (k + 1) ≡ 2 ^ k * 2 = pow-add 2 k 1 in
    let kept : x % 2 ^ 32 ≡ 2 ^ k = omega (arith, e, below, twice, pow_pos k) in
    ap get_count_order kept ∙ get_count_order-pow k h

sized-IsChannel :
    (config : Config) (a b subbuf_size num_subbuf : ℕ)
    → subbuf_size ≡ 2 ^ a
    → num_subbuf ≡ 2 ^ b
    → num_subbuf * subbuf_size < 2 ^ 32
    → IsChannel (sized config subbuf_size num_subbuf)
sized-IsChannel config a b subbuf_size num_subbuf ea eb small =
    let product : num_subbuf * subbuf_size ≡ 2 ^ (a + b) =
      ap (λ n. n * subbuf_size) eb
      ∙ ap (λ n. 2 ^ b * n) ea
      ∙ mul_comm (2 ^ b) (2 ^ a)
      ∙ sym (pow-add 2 a b) in
    let few : a + b < 32 = pow_injective (a + b) 32 (omega (arith, product, small)) in
    let order_a = order_of_word a subbuf_size ea (omega (arith, few)) in
    let order_b = order_of_word b num_subbuf eb (omega (arith, few)) in
    let word : num_subbuf * subbuf_size % 2 ^ 64 ≡ num_subbuf * subbuf_size = omega arith in
    let order = order_of_word (a + b) (num_subbuf * subbuf_size % 2 ^ 64) (word ∙ product) few in
    record {
      subbuf_pow = ea ∙ ap (λ n. 2 ^ n) (sym order_a);
      num_pow = eb ∙ ap (λ n. 2 ^ n) (sym order_b);
      buf_order =
          order
          ∙ ap (λ n. n + b) (sym order_a)
          ∙ ap (λ n. get_count_order (subbuf_size % 2 ^ 32) + n) (sym order_b);
      buf_size_eq = word;
      small = omega (arith, order, few);
    }

-- A channel with sizes of which the product is below 2 ^ 32 keeps to the sizes of `IsChannel`: they
-- are powers of two, and the orders are theirs.
pub channel_backend_init-IsChannel :
    (config : Config) (page_size subbuf_size num_subbuf : ℕ) {chan : Channel}
    → num_subbuf * subbuf_size < 2 ^ 32
    → channel_backend_init config page_size subbuf_size num_subbuf ≡ some chan
    → IsChannel chan
channel_backend_init-IsChannel config page_size subbuf_size num_subbuf small h =
    let (pow_a, pow_b, same) =
      channel_backend_init-pows config page_size subbuf_size num_subbuf h in
    let (a, _, ea) = is_pow2_below-pow 64 subbuf_size pow_a in
    let (b, _, eb) = is_pow2_below-pow 64 num_subbuf pow_b in
    rw same (sized-IsChannel config a b subbuf_size num_subbuf ea eb small)
