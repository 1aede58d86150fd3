-- ===== src/Strutils/Tokens.antt =====
-- Patterns as lists of tokens.
use lttng_ust.Common.{
  ℕ, ◌<◌, ◌≡◌, ◌≢◌, refl, Bool, true, false, List, [], ◌∷◌, ◌==◌, if◌then◌else◌, length, arith, inl,
  inr, ◌⊎◌,
}
use lttng_ust.Strutils.{Bytes, backslash, Peek, ended, star, one, peek}

-- A star, a byte to match, or a backslash with nothing behind it, which matches nothing.
pub data Token : Type 0 where
  any : Token
  byte : ℕ → Token
  nothing : Token

unfoldable pub tokens : Bytes → List Token
tokens [] = []
tokens (c ∷ []) =
    if c == b'*' then any ∷ [] else if c == backslash then nothing ∷ [] else byte c ∷ []
tokens (c ∷ d ∷ p) =
    let plain = tokens (d ∷ p) in
    let escaped = tokens p in
    if c == b'*' then any ∷ plain else if c == backslash then byte d ∷ escaped else byte c ∷ plain

-- What a peek says of the tokens of a pattern with `n` bytes, and that it moves on.
abbrev pub Peeks : List Token → ℕ → Peek → Type 0
Peeks ts n ended = (ts ≡ []) ⊎ (ts ≡ nothing ∷ [])
Peeks ts n (star q) = (ts ≡ any ∷ tokens q) × (length q < n)
Peeks ts n (one b q) = (ts ≡ byte b ∷ tokens q) × (length q < n)

Peeks-if :
    (ts₁ ts₂ ts₃ : List Token) (n : ℕ) (x y z : Peek) (is_star is_escape : Bool)
    → Peeks ts₁ n x
    → Peeks ts₂ n y
    → Peeks ts₃ n z
    → Peeks
        (if is_star then ts₁ else if is_escape then ts₂ else ts₃)
        n
        (if is_star then x else if is_escape then y else z)
Peeks-if _ _ _ _ _ _ _ true _ hx hy hz = hx
Peeks-if _ _ _ _ _ _ _ false true hx hy hz = hy
Peeks-if _ _ _ _ _ _ _ false false hx hy hz = hz

pub peek-Peeks : (p : Bytes) → Peeks (tokens p) (length p) (peek p)
unfolding peek tokens
peek-Peeks [] = inl refl
peek-Peeks (c ∷ []) =
    Peeks-if _ _ _ _ _ _ _ (c == b'*') (c == backslash) (refl, ground arith) (inr refl)
      (refl, ground arith)
peek-Peeks (c ∷ d ∷ p) =
    Peeks-if _ _ _ _ _ _ _ (c == b'*') (c == backslash) (refl, ground arith) (refl, ground arith)
      (refl, ground arith)

-- No pattern but the empty one is without tokens.
pub tokens-empty : (c : ℕ) (p : Bytes) → tokens (c ∷ p) ≢ []
unfolding tokens
tokens-empty c [] h = ground arith
tokens-empty c (d ∷ p) h = ground arith
