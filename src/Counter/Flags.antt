-- ===== src/Counter/Flags.antt =====
-- When an addition to a word flags an overflow or an underflow.
use lttng_ust.Common.{ℕ, ◌+◌, ◌-◌, ◌%◌, ◌^◌, ◌≤◌, ◌<◌, ◌≡◌, ◌↔◌, true, arith}
use lttng_ust.Counter.{
  Size, size_8, size_16, size_32, size_64, bits, limit, biased, is_overflow, is_underflow,
}

-- An addition of a positive value below the size's limit to a word, without a move, flags an
-- overflow exactly where the sum as signed numbers is past the largest of the size (its number
-- above the least one is 2 ^ bits or more).
pub is_overflow_iff :
    (s : Size) (v old : ℕ)
    → 0 < v
    → v < 2 ^ 63
    → v < limit s
    → old < 2 ^ bits s
    → (is_overflow s v old ((old + v) % 2 ^ bits s) ≡ true) ↔ (2 ^ bits s ≤ biased (bits s) old + v)
is_overflow_iff size_8 v old p h l b = ((λ e. ground arith), (λ e. ground arith))
is_overflow_iff size_16 v old p h l b = ((λ e. ground arith), (λ e. ground arith))
is_overflow_iff size_32 v old p h l b = ((λ e. ground arith), (λ e. ground arith))
is_overflow_iff size_64 v old p h l b = ((λ e. ground arith), (λ e. ground arith))

-- An addition of a negative value `- k` above the size's negative limit to a word, without a move,
-- flags an underflow exactly where the sum as signed numbers is below the least of the size.
pub is_underflow_iff :
    (s : Size) (k old : ℕ)
    → 0 < k
    → k ≤ 2 ^ 63
    → k < limit s
    → old < 2 ^ bits s
    → (is_underflow s (2 ^ 64 - k) old ((old + (2 ^ 64 - k)) % 2 ^ bits s) ≡ true)
      ↔ (biased (bits s) old < k)
is_underflow_iff size_8 k old p h l b = ((λ e. ground arith), (λ e. ground arith))
is_underflow_iff size_16 k old p h l b = ((λ e. ground arith), (λ e. ground arith))
is_underflow_iff size_32 k old p h l b = ((λ e. ground arith), (λ e. ground arith))
is_underflow_iff size_64 k old p h l b = ((λ e. ground arith), (λ e. ground arith))
