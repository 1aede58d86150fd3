-- ===== src/Strutils/Tests.antt =====
-- Runs of the matching functions on small patterns and names.
use lttng_ust.Common.{ℕ, ◌≤◌, ◌≡◌, ◌↔◌, refl, true, false, [], ◌∷◌}
use lttng_ust.Strutils.{
  Bytes, enough, no_star, string, until_nul, star_glob_match, loop, body, peek, finish, mismatch,
  is_star_glob_pattern, is_star_at_the_end_only_glob_pattern,
}
use lttng_ust.Strutils.Tokens.{tokens}
use lttng_ust.Strutils.Accepts.{accepts}
use lttng_ust.Strutils.Decide.{star_glob_match-accepts}
use lttng_ust.Strutils.Glob.{
  Matches, single_stars, star_glob_match-Matches, star_glob_tests-tokens, has_star,
  first_star_is_last,
}

-- hi*one
abbrev pattern : Bytes
pattern = 104 ∷ 105 ∷ 42 ∷ 111 ∷ 110 ∷ 101 ∷ []

-- hi, onyx one
abbrev name : Bytes
name = 104 ∷ 105 ∷ 44 ∷ 32 ∷ 111 ∷ 110 ∷ 121 ∷ 120 ∷ 32 ∷ 111 ∷ 110 ∷ 101 ∷ 0 ∷ 7 ∷ []

matches_after_retries : star_glob_match pattern 6 name 20 ≡ true
unfolding star_glob_match loop body peek finish mismatch until_nul
matches_after_retries = refl

matches_no_longer : star_glob_match pattern 6 name 11 ≡ false
unfolding star_glob_match loop body peek finish mismatch until_nul
matches_no_longer = refl

escaped_star : star_glob_match (98 ∷ 92 ∷ 42 ∷ []) 3 (98 ∷ 42 ∷ []) 2 ≡ true
unfolding star_glob_match loop body peek finish mismatch until_nul
escaped_star = refl

-- `b**` does not match `b`, though it matches `bc`.
two_stars_at_end : star_glob_match (98 ∷ 42 ∷ 42 ∷ []) 3 (98 ∷ []) 1 ≡ false
unfolding star_glob_match loop body peek finish mismatch until_nul
two_stars_at_end = refl

two_stars_more : star_glob_match (98 ∷ 42 ∷ 42 ∷ []) 3 (98 ∷ 99 ∷ []) 2 ≡ true
unfolding star_glob_match loop body peek finish mismatch until_nul
two_stars_more = refl

star_glob_match-accepts_example :
    let p = string pattern 6 in
    let s = string name 20 in
    (star_glob_match pattern 6 name 20 ≡ accepts (tokens p) s)
    × ((f : ℕ) → enough p s ≤ f → loop f s p no_star ≡ star_glob_match pattern 6 name 20)
star_glob_match-accepts_example = star_glob_match-accepts pattern 6 name 20

star_glob_match-Matches_example :
    (star_glob_match pattern 6 name 20 ≡ true)
    ↔ Matches (tokens (string pattern 6)) (string name 20)
unfolding single_stars tokens until_nul
star_glob_match-Matches_example = star_glob_match-Matches pattern 6 name 20 refl

star_glob_tests-tokens_example :
    (is_star_glob_pattern pattern ≡ has_star (tokens pattern))
    × (is_star_at_the_end_only_glob_pattern pattern ≡ first_star_is_last (tokens pattern))
star_glob_tests-tokens_example = star_glob_tests-tokens pattern
