-- ===== src/Strutils.antt =====
-- src/common/strutils.c: event-name patterns in which `*` stands for any run of bytes and `\` escapes.
-- A pointer into a string is the list of the bytes from there to the string's end, which is at the
-- first NUL or at the given length: the test `(p - pattern) == pattern_len || *p == '\0'` asks
-- whether that list is empty.
pub mod Tokens
pub mod Accepts
pub mod Decide
pub mod Glob
mod Tests
use lttng_ust.Common.{
  ℕ, zero, suc, ◌+◌, ◌*◌, Bool, true, false, ◌&&◌, ◌||◌, not, List, [], ◌∷◌, ◌==◌, if◌then◌else◌,
  length, take,
}

abbrev pub Bytes : Type 0
Bytes = List ℕ

abbrev pub backslash : ℕ
backslash = 92

-- The bytes before the first NUL.
pub until_nul : Bytes → Bytes
until_nul [] = []
until_nul (c ∷ s) = let rest = until_nul s in if c == 0 then [] else c ∷ rest

abbrev pub string : Bytes → ℕ → Bytes
string s len = until_nul (take len s)

-- `enum star_glob_pattern_type_flags`: PATTERN and END_ONLY.
pub record Flags : Type 0 where
  pub pattern : Bool
  pub end_only : Bool

abbrev no_flags : Flags
no_flags = record { pattern = false; end_only = false }

abbrev pub is_nil : Bytes → Bool
is_nil [] = true
is_nil (_ ∷ _) = false

pub test_glob_pattern : Bytes → Flags
test_glob_pattern [] = no_flags
test_glob_pattern (c ∷ []) =
    if c == b'*' then record { pattern = true; end_only = true } else no_flags
test_glob_pattern (c ∷ d ∷ p) =
    let after_escape = test_glob_pattern p in
    let after_plain = test_glob_pattern (d ∷ p) in
    if c == b'*'
    then record { pattern = true; end_only = false }
    else if c == backslash
    then after_escape
    else after_plain

pub is_star_glob_pattern : Bytes → Bool
is_star_glob_pattern p = (test_glob_pattern p).pattern

pub is_star_at_the_end_only_glob_pattern : Bytes → Bool
is_star_at_the_end_only_glob_pattern p = (test_glob_pattern p).end_only

-- What the `switch` of the matching loop finds at a pattern's position: its end (also behind a
-- backslash), a star, or a byte to compare.
pub data Peek : Type 0 where
  ended : Peek
  star : Bytes → Peek
  one : ℕ → Bytes → Peek

pub peek : Bytes → Peek
peek [] = ended
peek (c ∷ []) = if c == b'*' then star [] else if c == backslash then ended else one c []
peek (c ∷ d ∷ p) =
    if c == b'*' then star (d ∷ p) else if c == backslash then one d p else one c (d ∷ p)

-- The test after the loop: nothing is left of the pattern, or one star.
pub finish : Bytes → Bool
finish [] = true
finish (c ∷ p) = c == b'*' && is_nil p

-- `retry_c` and `retry_p`, once there was a star.
pub data Retry : Type 0 where
  no_star : Retry
  from : Bytes → Bytes → Retry

-- Character mismatch or end of pattern. `next` goes back to the label `retry`.
pub mismatch : Retry → (Bytes → Bytes → Retry → Bool) → Bool
mismatch no_star next = false
mismatch (from [] rp) next = false
mismatch (from (_ ∷ rc) rp) next = next rc rp (from rc rp)

-- The branches of the loop's body, at the candidate's byte `c` before `s`.
pub body : ℕ → Bytes → Retry → (Bytes → Bytes → Retry → Bool) → Peek → Bool
body c s back next ended = mismatch back next
body c s back next (star p) = if is_nil p then true else next (c ∷ s) p (from (c ∷ s) p)
body c s back next (one b p) = if c == b then next s p back else mismatch back next

-- The loop, on fuel.
pub loop : ℕ → Bytes → Bytes → Retry → Bool
loop zero s p back = false
loop (suc f) [] p back = finish p
loop (suc f) (c ∷ s) p back = body c s back (loop f) (peek p)

abbrev pub enough : Bytes → Bytes → ℕ
enough p s = (length s + 1) * (length p + 1)

pub star_glob_match : Bytes → ℕ → Bytes → ℕ → Bool
star_glob_match pattern pattern_len candidate candidate_len =
    let p = string pattern pattern_len in
    let s = string candidate candidate_len in loop (enough p s) s p no_star
