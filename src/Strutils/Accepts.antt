-- ===== src/Strutils/Accepts.antt =====
-- An independent description of which candidates a pattern's tokens accept.
use lttng_ust.Common.{ℕ, ◌≡◌, ◌≢◌, refl, Bool, true, false, List, [], ◌∷◌, ◌==◌, ◌&&◌, ◌||◌, arith}
use lttng_ust.Strutils.{Bytes, finish}
use lttng_ust.Strutils.Tokens.{Token, any, byte, nothing, tokens}

-- At the candidate's end at most one star may be left.
unfoldable pub at_end : List Token → Bool
at_end [] = true
at_end (any ∷ []) = true
at_end (_ ∷ _) = false

unfoldable pub accepts : List Token → Bytes → Bool
accepts ts [] = at_end ts
accepts [] (c ∷ s) = false
accepts (any ∷ ts) (c ∷ s) = accepts ts (c ∷ s) || accepts (any ∷ ts) s
accepts (byte b ∷ ts) (c ∷ s) = c == b && accepts ts s
accepts (nothing ∷ ts) (c ∷ s) = false

-- Some end of the candidate is accepted; `after` leaves the first byte out.
unfoldable pub later : List Token → Bytes → Bool
later ts [] = at_end ts
later ts (c ∷ s) = accepts ts (c ∷ s) || later ts s

unfoldable pub after : List Token → Bytes → Bool
after ts [] = false
after ts (_ ∷ s) = later ts s

pub later-split : (ts : List Token) (s : Bytes) → later ts s ≡ accepts ts s || after ts s
unfolding later after accepts
later-split ts [] = ground arith
later-split ts (c ∷ s) = refl

pub after→later : (ts : List Token) (s : Bytes) → after ts s ≡ true → later ts s ≡ true
unfolding after later
after→later ts [] h = ground arith
after→later ts (c ∷ s) h = ground arith

pub finish-at_end : (p : Bytes) → finish p ≡ at_end (tokens p)
unfolding finish at_end tokens
finish-at_end [] = refl
finish-at_end (c ∷ []) = ground arith
finish-at_end (c ∷ d ∷ []) = ground arith
finish-at_end (c ∷ d ∷ e ∷ p) = ground arith

pub accepts-last_star : (s : Bytes) → accepts (any ∷ []) s ≡ true
unfolding accepts at_end
accepts-last_star [] = refl
accepts-last_star (c ∷ s) = accepts-last_star s

-- A star before other tokens: some end of the candidate is accepted by those.
pub accepts-star :
    (ts : List Token) (c : ℕ) (s : Bytes)
    → ts ≢ []
    → accepts (any ∷ ts) (c ∷ s) ≡ accepts ts (c ∷ s) || after ts (c ∷ s)
unfolding accepts after later at_end
accepts-star [] c s h = ground arith
accepts-star (any ∷ []) c s h = rw (accepts-last_star (c ∷ s)) refl
accepts-star (any ∷ t ∷ ts) c [] h = refl
accepts-star (byte b ∷ ts) c [] h = refl
accepts-star (nothing ∷ ts) c [] h = refl
accepts-star ts c (d ∷ s) h = rw (accepts-star ts d s h) refl

-- Where the pattern moves on by a byte.
pub later-byte :
    (b : ℕ) (ts : List Token) (c : ℕ) (s : Bytes)
    → later (byte b ∷ ts) (c ∷ s) ≡ true
    → later ts s ≡ true
unfolding accepts later at_end
later-byte b ts c [] h = ground arith
later-byte b ts c (d ∷ s) h = ground (arith, later-byte b ts d s)

-- Where the pattern is at a star, an end of the candidate says no more than the whole.
pub later-star :
    (ts : List Token) (s : Bytes) → later (any ∷ ts) s ≡ true → accepts (any ∷ ts) s ≡ true
unfolding accepts later at_end
later-star ts [] h = h
later-star ts (c ∷ s) h = ground (arith, later-star ts s)
