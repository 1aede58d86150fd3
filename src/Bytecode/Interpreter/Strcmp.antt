-- ===== src/Bytecode/Interpreter/Strcmp.antt =====
-- What `stack_strcmp` gives, against equality and prefixes of strings.
use lttng_ust.Common.{
  ℕ, zero, suc, ◌<◌, ◌≡◌, ◌≢◌, ◌↔◌, refl, ap, ◌∙◌, ◌++◌, arith, Bool, true, false, [], ◌∷◌, length,
  length-append,
}
use lttng_ust.Strutils.{Bytes, backslash}
use lttng_ust.Bytecode.Interpreter.Strings.{
  Order, equal, star, plain, parse_char, char, sign_of, compare_bytes, compare_chars, strcmp_from,
  stack_strcmp,
}

-- The bytes of a string: none is the NUL.
abbrev pub NoNul : Bytes → Type 0
NoNul [] = Unit
NoNul (c ∷ p) = (0 < c) × NoNul p

-- Nothing in it stands for something else in a literal.
abbrev pub IsVerbatim : Bytes → Type 0
IsVerbatim [] = Unit
IsVerbatim (c ∷ p) = (c ≢ backslash) × (c ≢ b'*') × IsVerbatim p

char-plain : (l : Bool) (c : ℕ) (s : Bytes) → c ≢ backslash → c ≢ b'*' → char l c s ≡ plain c s
unfolding parse_char
char-plain true c [] b t = ground arith
char-plain true c (d ∷ s) b t = ground arith
char-plain false c s b t = refl

char-star : (s : Bytes) → char true b'*' s ≡ star
unfolding parse_char
char-star [] = refl
char-star (d ∷ s) = refl

compare_bytes-equal : (a b : ℕ) (r : Order) → compare_bytes a b r ≡ equal → (a ≡ b) × (r ≡ equal)
unfolding sign_of
compare_bytes-equal a b r e = ground arith

compare_bytes-same : (a : ℕ) (r : Order) → 0 < a → compare_bytes a a r ≡ r
compare_bytes-same a r h = ground arith

strcmp_from_refl :
    (f : ℕ) (p : Bytes) → length p < f → NoNul p → strcmp_from f false false p p ≡ equal
unfolding strcmp_from compare_chars
strcmp_from_refl zero p h z = ground arith
strcmp_from_refl (suc f) [] h z = refl
strcmp_from_refl (suc f) (c ∷ p) h z =
    compare_bytes-same c _ z.0 ∙ strcmp_from_refl f p (omega arith) z.1

strcmp_from_equal : (f : ℕ) (p q : Bytes) → strcmp_from f false false p q ≡ equal → p ≡ q
unfolding strcmp_from compare_chars
strcmp_from_equal zero p q e = ground arith
strcmp_from_equal (suc f) [] [] e = refl
strcmp_from_equal (suc f) [] (d ∷ q) e = ground arith
strcmp_from_equal (suc f) (c ∷ p) [] e = ground arith
strcmp_from_equal (suc f) (c ∷ p) (d ∷ q) e =
    let (same, rest) = compare_bytes-equal c d _ e in
    rw same (ap (λ s. d ∷ s) (strcmp_from_equal f p q rest))

-- Two strings that are no literals compare equal where they are equal, and only there.
pub stack_strcmp-equal : (p q : Bytes) → NoNul p → (stack_strcmp false false p q ≡ equal) ↔ (p ≡ q)
unfolding stack_strcmp
stack_strcmp-equal p q z =
    (strcmp_from_equal _ p q, λ e. rw (← e) (strcmp_from_refl _ p (omega arith) z))

strcmp_from_verbatim :
    (f : ℕ) (lp lq : Bool) (p q : Bytes)
    → IsVerbatim p
    → IsVerbatim q
    → strcmp_from f lp lq p q ≡ strcmp_from f false false p q
unfolding strcmp_from compare_chars
strcmp_from_verbatim zero lp lq p q v w = refl
strcmp_from_verbatim (suc f) lp lq [] [] v w = refl
strcmp_from_verbatim (suc f) lp lq [] (d ∷ q) v w = rw (char-plain lq d q w.0 w.1)
strcmp_from_verbatim (suc f) lp lq (c ∷ p) [] v w = rw (char-plain lp c p v.0 v.1)
strcmp_from_verbatim (suc f) lp lq (c ∷ p) (d ∷ q) v w =
    rw (char-plain lp c p v.0 v.1, char-plain lq d q w.0 w.1)
      (ap (compare_bytes c d) (strcmp_from_verbatim f lp lq p q v.2 w.2))

-- A literal without a star or a backslash is compared byte for byte, like a string of the program.
pub stack_strcmp-verbatim :
    (lp lq : Bool) (p q : Bytes)
    → IsVerbatim p
    → IsVerbatim q
    → stack_strcmp lp lq p q ≡ stack_strcmp false false p q
unfolding stack_strcmp
stack_strcmp-verbatim lp lq p q v w = strcmp_from_verbatim _ lp lq p q v w

strcmp_from_star :
    (f : ℕ) (a r t : Bytes)
    → length a < f
    → IsVerbatim a
    → NoNul a
    → strcmp_from f true false (a ++ b'*' ∷ r) (a ++ t) ≡ equal
unfolding strcmp_from compare_chars
strcmp_from_star zero a r t h v z = ground arith
strcmp_from_star (suc f) [] r [] h v z = rw (char-star r)
strcmp_from_star (suc f) [] r (d ∷ t) h v z = rw (char-star r)
strcmp_from_star (suc f) (c ∷ a) r t h v z =
    rw (char-plain true c (a ++ b'*' ∷ r) v.0 v.1)
      (compare_bytes-same c _ z.0 ∙ strcmp_from_star f a r t (omega arith) v.2 z.1)

strcmp_from_prefix :
    (f : ℕ) (a r s : Bytes)
    → IsVerbatim a
    → strcmp_from f true false (a ++ b'*' ∷ r) s ≡ equal
    → (t : Bytes) × (s ≡ a ++ t)
unfolding strcmp_from compare_chars
strcmp_from_prefix zero a r s v e = ground arith
strcmp_from_prefix (suc f) [] r s v e = (s, refl)
strcmp_from_prefix (suc f) (c ∷ a) r [] v e =
    ground (arith, rw (char-plain true c (a ++ b'*' ∷ r) v.0 v.1) at e)
strcmp_from_prefix (suc f) (c ∷ a) r (d ∷ s) v e =
    let (same, rest) =
      compare_bytes-equal c d _ (rw (char-plain true c (a ++ b'*' ∷ r) v.0 v.1) at e) in
    let (t, is) = strcmp_from_prefix f a r s v.2 rest in (t, rw (same, is))

-- The same with the literal on the other side.
strcmp_from_star_right :
    (f : ℕ) (a r t : Bytes)
    → length a < f
    → IsVerbatim a
    → NoNul a
    → strcmp_from f false true (a ++ t) (a ++ b'*' ∷ r) ≡ equal
unfolding strcmp_from compare_chars
strcmp_from_star_right zero a r t h v z = ground arith
strcmp_from_star_right (suc f) [] r [] h v z = rw (char-star r)
strcmp_from_star_right (suc f) [] r (d ∷ t) h v z = rw (char-star r)
strcmp_from_star_right (suc f) (c ∷ a) r t h v z =
    rw (char-plain true c (a ++ b'*' ∷ r) v.0 v.1)
      (compare_bytes-same c _ z.0 ∙ strcmp_from_star_right f a r t (omega arith) v.2 z.1)

strcmp_from_prefix_right :
    (f : ℕ) (a r s : Bytes)
    → IsVerbatim a
    → strcmp_from f false true s (a ++ b'*' ∷ r) ≡ equal
    → (t : Bytes) × (s ≡ a ++ t)
unfolding strcmp_from compare_chars
strcmp_from_prefix_right zero a r s v e = ground arith
strcmp_from_prefix_right (suc f) [] r s v e = (s, refl)
strcmp_from_prefix_right (suc f) (c ∷ a) r [] v e =
    ground (arith, rw (char-plain true c (a ++ b'*' ∷ r) v.0 v.1) at e)
strcmp_from_prefix_right (suc f) (c ∷ a) r (d ∷ s) v e =
    let (same, rest) =
      compare_bytes-equal d c _ (rw (char-plain true c (a ++ b'*' ∷ r) v.0 v.1) at e) in
    let (t, is) = strcmp_from_prefix_right f a r s v.2 rest in (t, rw (← same, is))

-- A literal with a star behind bytes that stand for themselves, on either side of a string that is no
-- literal, is equal to the strings that begin with those bytes, whatever follows the star.
pub stack_strcmp-prefix :
    (a r s : Bytes)
    → IsVerbatim a
    → NoNul a
    → ((stack_strcmp true false (a ++ b'*' ∷ r) s ≡ equal) ↔ ((t : Bytes) × (s ≡ a ++ t)))
      × ((stack_strcmp false true s (a ++ b'*' ∷ r) ≡ equal) ↔ ((t : Bytes) × (s ≡ a ++ t)))
unfolding stack_strcmp
stack_strcmp-prefix a r s v z = (
  (
    strcmp_from_prefix _ a r s v,
    λ p. rw (p.1) (strcmp_from_star _ a r p.0 (omega (arith, length-append a (b'*' ∷ r))) v z),
  ),
  (
    strcmp_from_prefix_right _ a r s v,
    λ p. rw (p.1) (strcmp_from_star_right _ a r p.0 (omega (arith, length-append a p.0)) v z),
  ),
)
