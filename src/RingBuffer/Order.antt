-- ===== src/RingBuffer/Order.antt =====
-- The order of a size: `lttng_ust_fls` and `get_count_order` of
-- src/common/ringbuffer/backend_internal.h.
use lttng_ust.Common.{
  ℕ, ◌+◌, ◌-◌, ◌*◌, ◌^◌, ◌≤◌, ◌<◌, ◌≡◌, refl, sym, ap, ◌∙◌, false, ltb, ◌==◌, if◌then◌else◌, arith,
  Bool-cases, inl, inr, ltb→lt, ltb_false→le,
}
use native.Mathlib.Nat.{mul-le-mul_right, mul_assoc, pow-le-pow_right}
use lttng_ust.Common.Words.{pow-add, pow_pos}

-- One test of the top `k` bits of `x`, and the shift where they are 0.
pub record Shifted : Type 0 where
  pub x : ℕ
  pub r : ℕ

abbrev shift_by : ℕ → Shifted → Shifted
shift_by k s = if ltb s.x (2 ^ (32 - k)) then record { x = s.x * 2 ^ k; r = s.r - k } else s

-- The last test does not shift, which nothing reads.
unfoldable pub fls_shifted : ℕ → Shifted
fls_shifted x =
    shift_by 1 (shift_by 2 (shift_by 4 (shift_by 8 (shift_by 16 record { x = x; r = 32 }))))

unfoldable pub lttng_ust_fls : ℕ → ℕ
lttng_ust_fls x = if x == 0 then 0 else (fls_shifted x).r

record Top (x₀ n low : ℕ) (s : Shifted) : Type 0 where
  same : s.x ≡ x₀ * 2 ^ (32 - s.r)
  above : low ≤ s.x
  below : s.x < 2 ^ 32
  room : n < s.r
  most : s.r ≤ 32

regroup : (r k : ℕ) → k ≤ r → r ≤ 32 → 32 - r + k ≡ 32 - (r - k)
regroup r k h h' = omega arith

scaled_below : (x k : ℕ) → x < 2 ^ (32 - k) → 2 ^ (32 - k) * 2 ^ k ≡ 2 ^ 32 → x * 2 ^ k < 2 ^ 32
scaled_below x k h e = omega (arith, e, pow_pos k, mul-le-mul_right (2 ^ k) h)

shift_by-Top :
    (k : ℕ) {x₀ n low : ℕ} (s : Shifted)
    → Top x₀ (k + n) low s
    → 2 ^ (32 - k) ≤ low * 2 ^ k
    → 2 ^ (32 - k) * 2 ^ k ≡ 2 ^ 32
    → Top x₀ n (2 ^ (32 - k)) (shift_by k s)
shift_by-Top k {x₀} {n} {low} s t h h' = elim (Bool-cases (ltb s.x (2 ^ (32 - k)))) [
  | inl clear ↦ rw clear record {
    same =
        ap (λ y. y * 2 ^ k) t.same
        ∙ mul_assoc x₀ (2 ^ (32 - s.r)) (2 ^ k)
        ∙ ap (λ y. x₀ * y) (sym (pow-add 2 (32 - s.r) k))
        ∙ ap (λ y. x₀ * 2 ^ y) (regroup s.r k (omega (arith, t.room)) t.most);
    above = omega (arith, h, mul-le-mul_right (2 ^ k) t.above);
    below = scaled_below s.x k (ltb→lt _ _ clear) h';
    room = omega (arith, t.room);
    most = omega (arith, t.most);
  }
  | inr found ↦ rw found record {
    same = t.same;
    above = ltb_false→le _ _ found;
    below = t.below;
    room = omega (arith, t.room);
    most = t.most;
  }
]

fls_shifted-Top : (x : ℕ) → 0 < x → x < 2 ^ 32 → Top x 0 (2 ^ 31) (fls_shifted x)
unfolding fls_shifted
fls_shifted-Top x hx hx' =
    let t₀ : Top x 31 1 record { x = x; r = 32 } = record {
      same = omega arith;
      above = hx;
      below = hx';
      room = omega arith;
      most = omega arith;
    } in
    let t₁ = shift_by-Top 16 _ t₀ (omega arith) refl in
    let t₂ = shift_by-Top 8 _ t₁ (omega arith) refl in
    let t₃ = shift_by-Top 4 _ t₂ (omega arith) refl in
    let t₄ = shift_by-Top 2 _ t₃ (omega arith) refl in shift_by-Top 1 _ t₄ (omega arith) refl

all_bits : (r : ℕ) → r ≤ 32 → r + (32 - r) ≡ 32
all_bits r h = omega arith

half_bounds :
    (x y z : ℕ) → y * z ≡ 2 ^ 32 → 0 < z → x * z < 2 ^ 32 → 2 ^ 31 ≤ x * z → (y ≤ x * 2) × (x < y)
half_bounds x y z e hz below above = (
  elim (Bool-cases (ltb (x * 2) y)) [
    | inl large ↦ absurd (grind (arith, mul-le-mul_right z (ltb→lt _ _ large), e, hz, above))
    | inr small ↦ ltb_false→le _ _ small
  ],
  elim (Bool-cases (ltb x y)) [
    | inl small ↦ ltb→lt _ _ small
    | inr large ↦ absurd (grind (arith, mul-le-mul_right z (ltb_false→le _ _ large), e, below))
  ],
)

-- A positive 32-bit number has a positive `lttng_ust_fls`; it is below the power of two with that
-- exponent, and at least the half of it.
pub lttng_ust_fls-bounds :
    (x : ℕ)
    → 0 < x
    → x < 2 ^ 32
    → (0 < lttng_ust_fls x) × (2 ^ lttng_ust_fls x ≤ x * 2) × (x < 2 ^ lttng_ust_fls x)
unfolding lttng_ust_fls
lttng_ust_fls-bounds x hx hx' =
    let t = fls_shifted-Top x hx hx' in
    let r = (fls_shifted x).r in
    let whole : 2 ^ r * 2 ^ (32 - r) ≡ 2 ^ 32 =
      sym (pow-add 2 r (32 - r)) ∙ ap (λ n. 2 ^ n) (all_bits r t.most) in
    let found : (x == 0) ≡ false = ground arith in
    let bounds =
      half_bounds x (2 ^ r) (2 ^ (32 - r)) whole (pow_pos (32 - r)) (omega (arith, t.same, t.below))
        (omega (arith, t.same, t.above)) in
    rw found (t.room, bounds.0, bounds.1)

-- `count & (count - 1)` is 0 for 0 and the powers of two only: where `count` is not the power below
-- what `lttng_ust_fls` answers. The answer -1 for 0 is the unsigned word that its caller keeps.
unfoldable pub get_count_order : ℕ → ℕ
get_count_order count =
    let order = lttng_ust_fls count - 1 in
    if count == 0 then 2 ^ 32 - 1 else if count == 2 ^ order then order else order + 1

pub pow_injective : (a b : ℕ) → 2 ^ a < 2 ^ b → a < b
pow_injective a b h = elim (Bool-cases (ltb a b)) [
  | inl less ↦ ltb→lt _ _ less
  | inr more ↦
      absurd (omega (arith, h, pow-le-pow_right {n = 2} (omega arith) (ltb_false→le _ _ more)))
]

pub get_count_order-pow : (k : ℕ) → k < 32 → get_count_order (2 ^ k) ≡ k
unfolding get_count_order
get_count_order-pow k h =
    let twice : 2 ^ (k + 1) ≡ 2 ^ k * 2 = pow-add 2 k 1 in
    let fourfold : 2 ^ (k + 2) ≡ 2 ^ k * 4 = pow-add 2 k 2 in
    let below : 2 ^ (k + 1) ≤ 2 ^ 32 =
      pow-le-pow_right {n = 2} (omega arith) {i = k + 1} {j = 32} (omega arith) in
    let (_, low, high) =
      lttng_ust_fls-bounds (2 ^ k) (pow_pos k) (omega (arith, twice, below, pow_pos k)) in
    let more : k < lttng_ust_fls (2 ^ k) = pow_injective k (lttng_ust_fls (2 ^ k)) high in
    let less : lttng_ust_fls (2 ^ k) < k + 2 =
      pow_injective (lttng_ust_fls (2 ^ k)) (k + 2) (omega (arith, low, fourfold, pow_pos k)) in
    let order : lttng_ust_fls (2 ^ k) - 1 ≡ k = omega (arith, more, less) in
    let nonzero : (2 ^ k == 0) ≡ false = ground (arith, pow_pos k) in
    rw (nonzero, order) (ground arith)

-- The power of two with this exponent is large enough.
pub le-pow-get_count_order : (n : ℕ) → 0 < n → n < 2 ^ 32 → n ≤ 2 ^ get_count_order n
unfolding get_count_order
le-pow-get_count_order n h h' =
    let (positive, low, high) = lttng_ust_fls-bounds n h h' in
    let nonzero : (n == 0) ≡ false = ground arith in
    let same : lttng_ust_fls n - 1 + 1 ≡ lttng_ust_fls n = omega (arith, positive) in
    elim (Bool-cases (n == 2 ^ (lttng_ust_fls n - 1))) [
      | inl power ↦ rw (nonzero, power) (ground (arith, power))
      | inr other ↦ rw (nonzero, other, same) (omega (arith, high))
    ]
