-- ===== src/Strutils/Decide.antt =====
-- The matching loop of `strutils_star_glob_match` decides what `accepts` describes: going back to
-- the latest star only is enough, and the fuel is too.
use lttng_ust.Common.{
  ℕ, zero, suc, ◌+◌, ◌*◌, ◌<◌, ◌≤◌, ◌≡◌, refl, Bool, true, false, [], ◌∷◌, ◌==◌, ◌||◌, sym, ap, ◌∙◌,
  arith, Bool-cases, inl, inr, length,
}
use native.Mathlib.Nat.{mul-le-mul_right}
use lttng_ust.Strutils.{
  Bytes, string, Peek, ended, star, one, peek, Retry, no_star, from, mismatch, body, loop, enough,
  star_glob_match,
}
use lttng_ust.Strutils.Tokens.{any, byte, tokens, Peeks, peek-Peeks, tokens-empty}
use lttng_ust.Strutils.Accepts.{
  at_end, accepts, later, after, later-split, after→later, finish-at_end, accepts-last_star,
  accepts-star, later-byte, later-star,
}

-- The tries that are left to the latest star.
abbrev retries : Retry → Bool
retries no_star = false
retries (from rc rp) = after (tokens rp) rc

-- How much of the candidate is left behind the latest star.
abbrev behind : Bytes → Retry → ℕ
behind s no_star = length s
behind s (from rc rp) = length rc

-- Patterns are shorter than `k`.
abbrev Short : ℕ → Retry → Type 0
Short k no_star = 0 < k
Short k (from rc rp) = length rp < k

record Ready (k f : ℕ) (s p : Bytes) (back : Retry) : Type 0 where
  tail : length s ≤ behind s back
  short : length p < k
  retry_short : Short k back
  fuel : behind s back * k + length p < f
  covered : retries back ≡ true → later (tokens p) s ≡ true

-- What the loop is to answer.
abbrev answer : Bytes → Bytes → Retry → Bool
answer s p back = accepts (tokens p) s || retries back

absorb : (a b : Bool) → (b ≡ true → a ≡ true) → a ≡ a || b
absorb a b h = ground arith

abbrev Step : ℕ → ℕ → Type 0
Step k f = (s p : Bytes) (back : Retry) → Ready k f s p back → loop f s p back ≡ answer s p back

behind_step :
    (c : ℕ) (s : Bytes) (back : Retry)
    → length (c ∷ s) ≤ behind (c ∷ s) back
    → length s ≤ behind s back
behind_step c s no_star h = ground arith
behind_step c s (from rc rp) h = ground arith

behind_less : (c : ℕ) (s : Bytes) (back : Retry) → behind s back ≤ behind (c ∷ s) back
behind_less c s no_star = ground arith
behind_less c s (from rc rp) = ground arith

Ready-retry :
    {k f d : ℕ} {s p rc rp : Bytes}
    → Ready k (suc f) s p (from (d ∷ rc) rp)
    → Ready k f rc rp (from rc rp)
Ready-retry {k} {f} {d} {s} {p} {rc} {rp} r = record {
  tail = ground arith;
  short = r.retry_short;
  retry_short = r.retry_short;
  fuel = ground (arith, r.fuel, r.retry_short);
  covered = after→later (tokens rp) rc;
}

Ready-star :
    {k f c : ℕ} {s p q : Bytes} {back : Retry}
    → length q < length p
    → Ready k (suc f) (c ∷ s) p back
    → Ready k f (c ∷ s) q (from (c ∷ s) q)
Ready-star {k} {f} {c} {s} {p} {q} {back} hq r = record {
  tail = ground arith;
  short = ground (arith, r.short);
  retry_short = ground (arith, r.short);
  fuel = ground (arith, r.fuel, mul-le-mul_right k r.tail);
  covered = after→later (tokens q) (c ∷ s);
}

Ready-byte :
    {k f b c : ℕ} {s p q : Bytes} {back : Retry}
    → length q < length p
    → tokens p ≡ byte b ∷ tokens q
    → Ready k (suc f) (c ∷ s) p back
    → Ready k f s q back
Ready-byte {k} {f} {b} {c} {s} {p} {q} {back} hq e r = record {
  tail = behind_step c s back r.tail;
  short = ground (arith, r.short);
  retry_short = r.retry_short;
  fuel = ground (arith, r.fuel, mul-le-mul_right k (behind_less c s back));
  covered = λ h. later-byte b (tokens q) c s (rw (sym e) (r.covered h));
}

mismatch-answer :
    (k f : ℕ) (s p : Bytes) (back : Retry)
    → Step k f
    → Ready k (suc f) s p back
    → mismatch back (loop f) ≡ retries back
unfolding mismatch after
mismatch-answer k f s p no_star ih r = refl
mismatch-answer k f s p (from [] rp) ih r = refl
mismatch-answer k f s p (from (d ∷ rc) rp) ih r =
    ih rc rp (from rc rp) (Ready-retry r) ∙ sym (later-split (tokens rp) rc)

star-answer :
    (k f c : ℕ) (s p q : Bytes) (back : Retry)
    → Step k f
    → tokens p ≡ any ∷ tokens q
    → length q < length p
    → Ready k (suc f) (c ∷ s) p back
    → body c s back (loop f) (star q) ≡ answer (c ∷ s) p back
unfolding body accepts tokens
star-answer k f c s p [] back ih e hq r = rw e (rw (accepts-last_star (c ∷ s)) refl)
star-answer k f c s p (d ∷ q) back ih e hq r =
    ih (c ∷ s) (d ∷ q) (from (c ∷ s) (d ∷ q)) (Ready-star hq r)
    ∙ sym (accepts-star (tokens (d ∷ q)) c s (tokens-empty d q))
    ∙ absorb (accepts (any ∷ tokens (d ∷ q)) (c ∷ s)) (retries back)
        (λ h. later-star (tokens (d ∷ q)) (c ∷ s) (rw (sym e) (r.covered h)))
    ∙ ap (λ ts. accepts ts (c ∷ s) || retries back) (sym e)

body-answer :
    (k f c : ℕ) (s p : Bytes) (back : Retry) (found : Peek)
    → Step k f
    → Peeks (tokens p) (length p) found
    → Ready k (suc f) (c ∷ s) p back
    → body c s back (loop f) found ≡ answer (c ∷ s) p back
unfolding body accepts
body-answer k f c s p back ended ih (inl e) r = rw e (mismatch-answer k f (c ∷ s) p back ih r)
body-answer k f c s p back ended ih (inr e) r = rw e (mismatch-answer k f (c ∷ s) p back ih r)
body-answer k f c s p back (star q) ih (e, hq) r = star-answer k f c s p q back ih e hq r
body-answer k f c s p back (one b q) ih (e, hq) r = rw e (elim (Bool-cases (c == b)) [
  | inl h ↦ rw h (ih s q back (Ready-byte hq e r))
  | inr h ↦ rw h (mismatch-answer k f (c ∷ s) p back ih r)
])

loop-answer :
    (k f : ℕ) (s p : Bytes) (back : Retry) → Ready k f s p back → loop f s p back ≡ answer s p back
unfolding loop accepts at_end later
loop-answer k zero s p back r = ground (arith, r.fuel)
loop-answer k (suc f) [] p back r =
    finish-at_end p ∙ absorb (at_end (tokens p)) (retries back) r.covered
loop-answer k (suc f) (c ∷ s) p back r =
    body-answer k f c s p back (peek p) (loop-answer k f) (peek-Peeks p) r

loop-accepts : (f : ℕ) (s p : Bytes) → enough p s ≤ f → loop f s p no_star ≡ accepts (tokens p) s
loop-accepts f s p h =
    loop-answer (length p + 1) f s p no_star record {
      tail = ground arith;
      short = ground arith;
      retry_short = ground arith;
      fuel = ground arith;
      covered = λ h. ground arith;
    }
    ∙ ground arith

-- The code's matching function and the independent description agree: a pattern matches exactly
-- the candidates that its tokens accept. More fuel than the loop is given leads to the same answer.
pub star_glob_match-accepts :
    (pattern : Bytes) (pattern_len : ℕ) (candidate : Bytes) (candidate_len : ℕ)
    → let p = string pattern pattern_len in
      let s = string candidate candidate_len in
      (star_glob_match pattern pattern_len candidate candidate_len ≡ accepts (tokens p) s)
      × ((f : ℕ)
          → enough p s ≤ f
          → loop f s p no_star ≡ star_glob_match pattern pattern_len candidate candidate_len)
unfolding star_glob_match
star_glob_match-accepts pattern pattern_len candidate candidate_len =
    let p = string pattern pattern_len in
    let s = string candidate candidate_len in
    let same = loop-accepts (enough p s) s p (omega arith) in
    (same, λ f h. loop-accepts f s p h ∙ sym same)
