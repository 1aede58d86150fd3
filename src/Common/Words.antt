-- ===== src/Common/Words.antt =====
-- `unsigned long`, `size_t` and `uint64_t` on a 64-bit machine: numbers below 2 ^ 64 that wrap.
-- The masks of the source are all of the form 2 ^ k - 1, so `x & mask` is a remainder.
use Prim.Native.Nat.{ℕ, zero, suc, ◌+◌, ◌-◌, ◌*◌, ◌/◌, ◌%◌, ◌^◌, ◌≤◌, ◌<◌}
use mathlib.Core.Bool.{Bool}
use mathlib.Core.Path.{◌≡◌, sym, ◌∙◌, ap}
use mathlib.Core.Logic.{◌≢◌}
use native.Mathlib.Omega.{arith}
use native.Mathlib.Decide.{dec_lt}
use lttng_ust.Common.Tests.{leb}
use native.Mathlib.Nat.{
  pow-suc, pow-zero, mod-add-div, add-mul-mod_self_left, mul_assoc, mul_comm, mul-one, one-le-pow,
}
use native.Mathlib.Nat.{
  div-lt_iff_lt-mul, add-mod_right, mod-lt, mod-le, mod-add-mod, mod-eq_of_lt, mod-eq-sub-mod,
  mul-mod_right,
}

abbrev pub word_mod : ℕ
word_mod = 2 ^ 64

infixl 65 ◌+w◌ ◌-w◌
abbrev pub ◌+w◌ : ℕ → ℕ → ℕ
a +w b = (a + b) % word_mod

abbrev pub ◌-w◌ : ℕ → ℕ → ℕ
a -w b = (a + word_mod - b) % word_mod

-- `(long) x < 0`, for a word read as two's complement
abbrev pub is_negative : ℕ → Bool
is_negative x = leb (2 ^ 63) x

-- The quotient is the number whose multiple brackets the dividend.
pub div_unique : (s q x : ℕ) → s * q ≤ x → x < s * q + s → x / s ≡ q
div_unique s q x lo hi = grind arith

pub mod_unique : (s q r : ℕ) → r < s → (s * q + r) % s ≡ r
mod_unique s q r h = grind arith

-- 2 ^ 64 is a multiple of every smaller power of two.
pub mod_of_mod_mul : (x s k : ℕ) → x % (s * k) % s ≡ x % s
mod_of_mod_mul x s k =
    let whole : x % (s * k) + s * (k * (x / (s * k))) ≡ x =
      ap (λ t. x % (s * k) + t) (sym (mul_assoc s k (x / (s * k)))) ∙ mod-add-div x (s * k) in
    sym (add-mul-mod_self_left (x % (s * k)) s (k * (x / (s * k)))) ∙ ap (λ t. t % s) whole

pub pow-add : (b m n : ℕ) → b ^ (m + n) ≡ b ^ m * b ^ n
pow-add b m zero =
    ap (λ t. b ^ t) (omega arith) ∙ sym (mul-one (b ^ m)) ∙ ap (λ t. b ^ m * t) (sym (pow-zero b))
pow-add b m (suc n) =
    ap (λ t. b ^ t) (omega arith)
    ∙ pow-suc b (m + n)
    ∙ ap (λ t. t * b) (pow-add b m n)
    ∙ mul_assoc (b ^ m) (b ^ n) b
    ∙ ap (λ t. b ^ m * t) (sym (pow-suc b n))

pub pow_pos : (k : ℕ) → 0 < 2 ^ k
pow_pos k = one-le-pow k 2 (omega arith)

-- 2 ^ 64 as a multiple of 2 ^ k.
pub word_mod-eq : (k : ℕ) → k ≤ 64 → 2 ^ k * 2 ^ (64 - k) ≡ word_mod
word_mod-eq k h =
    let whole : k + (64 - k) ≡ 64 = omega arith in
    sym (pow-add 2 k (64 - k)) ∙ ap (λ t. 2 ^ t) whole

pub sub-mod-eq-mul : (x s : ℕ) → x - x % s ≡ s * (x / s)
sub-mod-eq-mul x s = omega (arith, mod-add-div x s)

-- Where `s` divides the range, a run that stays inside a multiple of `s` stays in range.
pub fits_below : (s k w : ℕ) → s * k ≡ w → 0 < s → (b n : ℕ) → b < w → b % s + n ≤ s → b + n ≤ w
fits_below s k w range hs b n hb h =
    let below : b / s < k = (div-lt_iff_lt-mul hs).1 (omega (arith, range, mul_comm k s)) in
    let next : s * (b / s) + s ≤ s * k = grind arith in omega (arith, mod-add-div b s, next, range)

-- The last number of a run that does not leave a multiple of `s` has the quotient of the first.
pub last_same_div : (s : ℕ) → 0 < s → (b n : ℕ) → 0 < n → b % s + n ≤ s → (b + n - 1) / s ≡ b / s
last_same_div s hs b n hn h =
    div_unique s (b / s) (b + n - 1) (omega (arith, mod-add-div b s))
      (omega (arith, mod-add-div b s))

-- Aligning a word upwards is adding to its aligned value, also where that wraps.
pub align_up :
    (s k : ℕ)
    → s * k ≡ word_mod
    → 0 < s
    → (o : ℕ) → o < word_mod
    → (o +w s) - (o +w s) % s ≡ (o - o % s) +w s
align_up s k range hs o ho =
    let same : (o +w s) % s ≡ o % s =
      ap (λ t. (o + s) % t % s) (sym range) ∙ mod_of_mod_mul (o + s) s k ∙ add-mod_right o s in
    let aligned : (o - o % s) % s ≡ 0 =
      ap (λ t. t % s) (sub-mod-eq-mul o s) ∙ mul-mod_right s (o / s) in
    let top : o - o % s + s ≤ word_mod =
      fits_below s k word_mod range hs (o - o % s) s (omega arith) (omega (arith, aligned)) in
    let gap : o - o % s + s < word_mod → o - o % s + s + s ≤ word_mod = λ h.
      fits_below s k word_mod range hs (o - o % s + s) s h
        (omega (arith, aligned, add-mod_right (o - o % s) s)) in
    omega (arith, same, top, gap, mod-lt o hs, mod-le o s)

pub mod_shift_ne : (c d p : ℕ) → 0 < d → d < p → (c + d) % p ≢ c % p
mod_shift_ne c d p hd hp = elim (dec_lt (c % p + d) p) [
  | yes h ↦ omega (arith, mod-add-mod c p d, mod-eq_of_lt h)
  | no h ↦ omega (
    arith,
    mod-add-mod c p d,
    mod-lt c {m = p} (omega arith),
    mod-eq-sub-mod {n = c % p + d} {m = p} (omega arith),
    mod-eq_of_lt {n = c % p + d - p} {m = p} (omega (arith, mod-lt c {m = p} (omega arith))),
  )
]

-- Two numbers that agree modulo 2 ^ 64 agree modulo every power of two below it.
pub mod_of_word : (p q x y : ℕ) → p * q ≡ word_mod → x % word_mod ≡ y % word_mod → x % p ≡ y % p
mod_of_word p q x y range h =
    sym (mod_of_mod_mul x p q)
    ∙ ap (λ t. x % t % p) range
    ∙ ap (λ t. t % p) h
    ∙ ap (λ t. y % t % p) (sym range)
    ∙ mod_of_mod_mul y p q
