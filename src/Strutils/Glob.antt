-- ===== src/Strutils/Glob.antt =====
-- Glob matching as a relation, and where the matching function agrees with it.
use lttng_ust.Common.{
  ℕ, ◌≡◌, ◌↔◌, ◌≢◌, refl, ◌∙◌, sym, Bool, true, false, List, [], ◌∷◌, ◌==◌, ◌||◌, arith, inl, inr,
  Bool-cases, if◌then◌else◌,
}
use lttng_ust.Strutils.{
  Flags, Bytes, string, star_glob_match, is_star_glob_pattern, is_star_at_the_end_only_glob_pattern,
  test_glob_pattern, backslash,
}
use lttng_ust.Strutils.Tokens.{Token, any, byte, nothing, tokens, tokens-empty}
use lttng_ust.Strutils.Accepts.{accepts, at_end}
use lttng_ust.Strutils.Decide.{star_glob_match-accepts}

-- A star stands for any run of bytes.
pub data Matches : List Token → Bytes → Type 0 where
  done : Matches [] []
  eat : {c : ℕ} {ts : List Token} {s : Bytes} → Matches ts s → Matches (byte c ∷ ts) (c ∷ s)
  skip : {ts : List Token} {s : Bytes} → Matches ts s → Matches (any ∷ ts) s
  widen : {c : ℕ} {ts : List Token} {s : Bytes} → Matches (any ∷ ts) s → Matches (any ∷ ts) (c ∷ s)

-- No star follows a star directly.
unfoldable pub single_stars : List Token → Bool
single_stars [] = true
single_stars (any ∷ any ∷ ts) = false
single_stars (_ ∷ ts) = single_stars ts

single_stars-tail :
    (t : Token) (ts : List Token) → single_stars (t ∷ ts) ≡ true → single_stars ts ≡ true
unfolding single_stars
single_stars-tail any [] h = refl
single_stars-tail any (any ∷ ts) h = ground arith
single_stars-tail any (byte b ∷ ts) h = h
single_stars-tail any (nothing ∷ ts) h = h
single_stars-tail (byte b) ts h = h
single_stars-tail nothing ts h = h

or_right : (a b : Bool) → a ≡ false → a || b ≡ true → b ≡ true
or_right a b ha h = ground arith

accepts→Matches : (ts : List Token) (s : Bytes) → accepts ts s ≡ true → Matches ts s
unfolding accepts at_end
accepts→Matches [] [] h = done
accepts→Matches (any ∷ []) [] h = skip done
accepts→Matches (any ∷ t ∷ ts) [] h = ground arith
accepts→Matches (byte b ∷ ts) [] h = ground arith
accepts→Matches (nothing ∷ ts) [] h = ground arith
accepts→Matches [] (c ∷ s) h = ground arith
accepts→Matches (any ∷ ts) (c ∷ s) h = elim (Bool-cases (accepts ts (c ∷ s))) [
  | inl one_way ↦ skip (accepts→Matches ts (c ∷ s) one_way)
  | inr apart ↦ widen (accepts→Matches (any ∷ ts) s (or_right _ _ apart h))
]
accepts→Matches (byte b ∷ ts) (c ∷ s) h =
    let same : c ≡ b = ground arith in rw same (eat (accepts→Matches ts s (ground arith)))
accepts→Matches (nothing ∷ ts) (c ∷ s) h = ground arith

Matches→accepts :
    (ts : List Token) (s : Bytes) → single_stars ts ≡ true → Matches ts s → accepts ts s ≡ true
unfolding accepts at_end single_stars
Matches→accepts [] [] h done = refl
Matches→accepts [] (c ∷ s) h d = elim d [ ]
Matches→accepts (byte b ∷ ts) [] h d = elim d [ ]
Matches→accepts (nothing ∷ ts) s h d = elim d [ ]
Matches→accepts (byte b ∷ ts) (c ∷ s) h (eat d) = ground (arith, Matches→accepts ts s h d)
Matches→accepts (any ∷ []) [] h (skip d) = refl
Matches→accepts (any ∷ any ∷ ts) [] h (skip d) = ground arith
Matches→accepts (any ∷ byte b ∷ ts) [] h (skip d) = Matches→accepts (byte b ∷ ts) [] h d
Matches→accepts (any ∷ nothing ∷ ts) [] h (skip d) = Matches→accepts (nothing ∷ ts) [] h d
Matches→accepts (any ∷ ts) (c ∷ s) h (skip d) =
    ground (arith, Matches→accepts ts (c ∷ s) (single_stars-tail any ts h) d)
Matches→accepts (any ∷ ts) (c ∷ s) h (widen d) = ground (arith, Matches→accepts (any ∷ ts) s h d)

-- A pattern in which no star follows a star directly matches exactly the candidates that it stands
-- for, where a star stands for any run of bytes and a backslash for the byte behind it.
pub star_glob_match-Matches :
    (pattern : Bytes) (pattern_len : ℕ) (candidate : Bytes) (candidate_len : ℕ)
    → single_stars (tokens (string pattern pattern_len)) ≡ true
    → (star_glob_match pattern pattern_len candidate candidate_len ≡ true)
      ↔ Matches (tokens (string pattern pattern_len)) (string candidate candidate_len)
star_glob_match-Matches pattern pattern_len candidate candidate_len h =
    let same = (star_glob_match-accepts pattern pattern_len candidate candidate_len).0 in
    ((λ found. accepts→Matches _ _ (sym same ∙ found)), (λ d. same ∙ Matches→accepts _ _ h d))

-- The first star, where there is one, and whether it is the last token.
unfoldable pub has_star : List Token → Bool
has_star [] = false
has_star (any ∷ ts) = true
has_star (byte _ ∷ ts) = has_star ts
has_star (nothing ∷ ts) = has_star ts

unfoldable pub first_star_is_last : List Token → Bool
first_star_is_last [] = false
first_star_is_last (any ∷ []) = true
first_star_is_last (any ∷ _ ∷ ts) = false
first_star_is_last (byte _ ∷ ts) = first_star_is_last ts
first_star_is_last (nothing ∷ ts) = first_star_is_last ts

first_star_is_last-more : (ts : List Token) → ts ≢ [] → first_star_is_last (any ∷ ts) ≡ false
unfolding first_star_is_last
first_star_is_last-more [] h = ground arith
first_star_is_last-more (t ∷ ts) h = refl

abbrev Says : Flags → List Token → Type 0
Says flags ts = (flags.pattern ≡ has_star ts) × (flags.end_only ≡ first_star_is_last ts)

Says-if :
    (b : Bool) (x y : Flags) (ts us : List Token)
    → Says x ts
    → Says y us
    → Says (if b then x else y) (if b then ts else us)
Says-if true x y ts us hx hy = hx
Says-if false x y ts us hx hy = hy

test_glob_pattern-Says : (p : Bytes) → Says (test_glob_pattern p) (tokens p)
unfolding test_glob_pattern tokens has_star first_star_is_last
test_glob_pattern-Says [] = (refl, refl)
test_glob_pattern-Says (c ∷ []) = ground arith
test_glob_pattern-Says (c ∷ d ∷ p) =
    Says-if (c == b'*') _ _ _ _
      (refl, sym (first_star_is_last-more (tokens (d ∷ p)) (tokens-empty d p)))
      (Says-if (c == backslash) _ _ _ _ (test_glob_pattern-Says p) (test_glob_pattern-Says (d ∷ p)))

-- The two tests on a pattern say whether it has a star, and whether its first star is its last
-- token.
pub star_glob_tests-tokens :
    (p : Bytes)
    → (is_star_glob_pattern p ≡ has_star (tokens p))
      × (is_star_at_the_end_only_glob_pattern p ≡ first_star_is_last (tokens p))
unfolding is_star_glob_pattern is_star_at_the_end_only_glob_pattern
star_glob_tests-tokens p = test_glob_pattern-Says p
