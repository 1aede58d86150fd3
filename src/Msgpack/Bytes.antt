-- ===== src/Msgpack/Bytes.antt =====
-- Bytes in memory: copying, and numbers in network order.
use lttng_ust.Common.{
  ℕ, zero, suc, ◌+◌, ◌*◌, ◌/◌, ◌%◌, ◌^◌, ◌≤◌, ◌<◌, ◌≡◌, refl, sym, ap, ◌∙◌, List, [], ◌∷◌, ◌++◌,
  length, set, drop, take, arith, Option, some, none,
}
use native.Mathlib.Nat.{mod-add-div, pow-suc}
use lttng_ust.Msgpack.{memcpy, be_bytes}

-- Reads a number of `k` bytes in network order, after what was read already.
unfoldable pub read_be : ℕ → ℕ → List ℕ → Option (ℕ × List ℕ)
read_be zero acc bs = some (acc, bs)
read_be (suc k) acc [] = none
read_be (suc k) acc (b ∷ bs) = read_be k (acc * 256 + b) bs

joined : (p acc v : ℕ) → (acc * 256 + v / p) * p + v % p ≡ acc * (p * 256) + v
joined p acc v = ground (arith, mod-add-div v p)

pub read_be-be_bytes :
    (k acc v : ℕ) (rest : List ℕ)
    → v < 256 ^ k
    → read_be k acc (be_bytes k v ++ rest) ≡ some (acc * 256 ^ k + v, rest)
unfolding read_be be_bytes
read_be-be_bytes zero acc v rest h = ground arith
read_be-be_bytes (suc k) acc v rest h =
    read_be-be_bytes k (acc * 256 + v / 256 ^ k) (v % 256 ^ k) rest (ground arith)
    ∙ ap (λ n. some (n, rest)) (joined (256 ^ k) acc v)
    ∙ ap (λ q. some (acc * q + v, rest)) (sym (pow-suc 256 k))

pub length-be_bytes : (k v : ℕ) → length (be_bytes k v) ≡ k
unfolding be_bytes
length-be_bytes zero v = refl
length-be_bytes (suc k) v = ap suc (length-be_bytes k (v % 256 ^ k))

pub append_nil : (xs : List ℕ) → xs ++ [] ≡ xs
append_nil [] = refl
append_nil (x ∷ xs) = ap (λ ys. x ∷ ys) (append_nil xs)

pub append_assoc : (xs ys zs : List ℕ) → (xs ++ ys) ++ zs ≡ xs ++ (ys ++ zs)
append_assoc [] ys zs = refl
append_assoc (x ∷ xs) ys zs = ap (λ us. x ∷ us) (append_assoc xs ys zs)

pub memcpy-++ :
    (memory : List ℕ) (pos : ℕ) (xs ys : List ℕ)
    → memcpy memory pos (xs ++ ys) ≡ memcpy (memcpy memory pos xs) (pos + length xs) ys
unfolding memcpy
memcpy-++ memory pos [] ys = ap (λ n. memcpy memory n ys) (omega arith)
memcpy-++ memory pos (x ∷ xs) ys =
    memcpy-++ (set memory pos x) (suc pos) xs ys
    ∙ ap (λ n. memcpy (memcpy (set memory pos x) (suc pos) xs) n ys) (omega arith)

memcpy-suc :
    (m : ℕ) (memory : List ℕ) (pos : ℕ) (bs : List ℕ)
    → memcpy (m ∷ memory) (suc pos) bs ≡ m ∷ memcpy memory pos bs
unfolding memcpy
memcpy-suc m memory pos [] = refl
memcpy-suc m memory pos (b ∷ bs) = memcpy-suc m (set memory pos b) (suc pos) bs

fst_byte : (n : ℕ) → suc (0 + n) ≡ 0 + suc n
fst_byte n = omega arith

next_byte : (p n : ℕ) → suc (p + n) ≡ suc p + n
next_byte p n = omega arith

-- What a copy leaves: the bytes in place of as many, and all others as they were.
pub memcpy-splice :
    (memory : List ℕ) (pos : ℕ) (bs : List ℕ)
    → pos + length bs ≤ length memory
    → memcpy memory pos bs ≡ take pos memory ++ (bs ++ drop (pos + length bs) memory)
unfolding memcpy
memcpy-splice [] zero [] h = refl
memcpy-splice [] zero (b ∷ bs) h = ground arith
memcpy-splice [] (suc pos) bs h = ground arith
memcpy-splice (m ∷ memory) zero [] h = refl
memcpy-splice (m ∷ memory) zero (b ∷ bs) h =
    memcpy-suc b memory zero bs
    ∙ ap (λ us. b ∷ us) (memcpy-splice memory zero bs (omega arith))
    ∙ ap (λ n. b ∷ (bs ++ drop n (m ∷ memory))) (fst_byte (length bs))
memcpy-splice (m ∷ memory) (suc pos) bs h =
    memcpy-suc m memory pos bs
    ∙ ap (λ us. m ∷ us) (memcpy-splice memory pos bs (omega arith))
    ∙ ap (λ n. m ∷ (take pos memory ++ (bs ++ drop n (m ∷ memory)))) (next_byte pos (length bs))

pub drop-take :
    (memory : List ℕ) (pos : ℕ) (xs : List ℕ)
    → pos ≤ length memory
    → drop pos (take pos memory ++ xs) ≡ xs
drop-take memory zero xs h = refl
drop-take [] (suc pos) xs h = elim h [ ]
drop-take (m ∷ memory) (suc pos) xs h = drop-take memory pos xs (omega arith)
