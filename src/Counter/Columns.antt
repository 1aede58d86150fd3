-- ===== src/Counter/Columns.antt =====
-- An element of a counter over the processors, and the words that an addition leaves.
use lttng_ust.Common.{
  ℕ, zero, suc, ◌+◌, ◌-◌, ◌%◌, ◌^◌, ◌<◌, ◌≡◌, ◌≢◌, refl, ap, List, [], ◌∷◌, some, arith, length,
  set, get_elem?,
}
use lttng_ust.Counter.{
  Size, size_8, size_16, size_32, size_64, bits, Layout, Counter, Result, ok, err, bind, word_at,
  move_of,
}

-- An element over all processors.
abbrev pub column : ℕ → List Layout → ℕ
column i [] = 0
column i (l ∷ ls) = word_at i l.counters + column i ls

-- An element's sum, as the counter's size keeps it.
abbrev pub total : ℕ → Counter → ℕ
total i c = (word_at i c.channel_counters.counters + column i c.percpu_counters) % 2 ^ bits c.size

-- Every layout has the element.
abbrev pub Covers : ℕ → List Layout → Type 0
Covers i [] = Unit
Covers i (l ∷ ls) = (i < length l.counters) × Covers i ls

pub word_at-set : (xs : List ℕ) (i n : ℕ) → i < length xs → word_at i (set xs i n) ≡ n
word_at-set [] i n h = elim h [ ]
word_at-set (x ∷ xs) zero n h = refl
word_at-set (x ∷ xs) (suc i) n h = word_at-set xs i n (omega arith)

pub word_at-set_ne : (xs : List ℕ) (i j n : ℕ) → i ≢ j → word_at j (set xs i n) ≡ word_at j xs
word_at-set_ne [] i j n h = refl
word_at-set_ne (x ∷ xs) zero zero n h = absurd (h refl)
word_at-set_ne (x ∷ xs) zero (suc j) n h = refl
word_at-set_ne (x ∷ xs) (suc i) zero n h = refl
word_at-set_ne (x ∷ xs) (suc i) (suc j) n h = word_at-set_ne xs i j n (λ e. h (ap suc e))

pub column-set :
    (ls : List Layout) (cpu j : ℕ) (l l' : Layout)
    → get_elem? ls cpu ≡ some l
    → column j (set ls cpu l') + word_at j l.counters ≡ column j ls + word_at j l'.counters
column-set [] cpu j l l' e = ground arith
column-set (x ∷ ls) zero j l l' e = let same : x ≡ l = ground arith in rw same (omega arith)
column-set (x ∷ ls) (suc cpu) j l l' e = omega (arith, column-set ls cpu j l l' e)

pub Covers-elem :
    (ls : List Layout) (cpu i : ℕ) (l : Layout)
    → get_elem? ls cpu ≡ some l
    → Covers i ls
    → i < length l.counters
Covers-elem [] cpu i l e h = ground arith
Covers-elem (x ∷ ls) zero i l e h = let same : x ≡ l = ground arith in rw same at h.0
Covers-elem (x ∷ ls) (suc cpu) i l e h = Covers-elem ls cpu i l e h.1

pub move_of-no_step : (w n : ℕ) → move_of w 0 n ≡ 0
unfolding move_of
move_of-no_step w n = refl

pub move_of-lt : (w step n : ℕ) → step < 2 ^ 64 → move_of w step n < 2 ^ 64
unfolding move_of
move_of-lt w step n h = ground arith

pub bind-ok {ℓ κ} :
    {A : Type ℓ} {B : Type κ} (r : Result A) (f : A → Result B) {b : B}
    → bind r f ≡ ok b
    → (a : A) × (r ≡ ok a) × (f a ≡ ok b)
bind-ok (ok a) f e = (a, refl, e)
bind-ok (err x) f e = ground arith

-- The word that an addition leaves.
abbrev pub sum_of : Size → ℕ → ℕ → ℕ → ℕ
sum_of s move old v = ((old + v) % 2 ^ bits s + 2 ^ 64 - move) % 2 ^ bits s

-- What is moved is taken from one word and added to the other; `col` and `col'` are the sums over
-- the processors before and after.
pub total_moves :
    (s : Size) (old v move ch col col' : ℕ)
    → move < 2 ^ 64
    → col' + old ≡ col + sum_of s move old v
    → (sum_of s 0 ch move + col') % 2 ^ bits s ≡ ((ch + col) % 2 ^ bits s + v) % 2 ^ bits s
total_moves size_8 old v move ch col col' h e = omega arith
total_moves size_16 old v move ch col col' h e = omega arith
total_moves size_32 old v move ch col col' h e = omega arith
total_moves size_64 old v move ch col col' h e = omega arith

pub total_stays :
    (s : Size) (old v ch col col' : ℕ)
    → col' + old ≡ col + sum_of s 0 old v
    → (ch + col') % 2 ^ bits s ≡ ((ch + col) % 2 ^ bits s + v) % 2 ^ bits s
total_stays size_8 old v ch col col' e = omega arith
total_stays size_16 old v ch col col' e = omega arith
total_stays size_32 old v ch col col' e = omega arith
total_stays size_64 old v ch col col' e = omega arith

pub total_channel :
    (s : Size) (v ch col : ℕ)
    → (sum_of s 0 ch v + col) % 2 ^ bits s ≡ ((ch + col) % 2 ^ bits s + v) % 2 ^ bits s
total_channel size_8 v ch col = omega arith
total_channel size_16 v ch col = omega arith
total_channel size_32 v ch col = omega arith
total_channel size_64 v ch col = omega arith
