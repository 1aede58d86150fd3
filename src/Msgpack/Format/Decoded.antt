-- ===== src/Msgpack/Format/Decoded.antt =====
-- A reader takes back what was written.
use lttng_ust.Common.{
  ℕ, ◌+◌, ◌-◌, ◌%◌, ◌^◌, ◌≤◌, ◌<◌, ◌≡◌, refl, ap, ◌∙◌, Bool, true, false, List, [], ◌∷◌, ◌++◌,
  length, leb, ltb, if◌then◌else◌, arith, take, drop, length-append, some, Bool-cases, lt→ltb,
  ltb→lt, inl, inr,
}
use native.Mathlib.Nat.{mod-lt, mod-eq_of_lt, one-le-pow}
use lttng_ust.Msgpack.{be_bytes, between}
use lttng_ust.Msgpack.Bytes.{read_be, read_be-be_bytes, append_assoc}
use lttng_ust.Msgpack.Format.{
  Item, nil, boolean, unsigned, signed, double, str, map_of, array_of, is_item, encoding, decode,
  decode_tag, read_str, sign_extend, canonical,
}

abbrev Reads : List ℕ → List ℕ → Item → Type 0
Reads bs rest item = decode (bs ++ rest) ≡ some (item, rest)

Reads-if :
    (xs ys : List ℕ) (b : Bool) (rest : List ℕ) {item : Item}
    → (b ≡ true → Reads xs rest item)
    → (b ≡ false → Reads ys rest item)
    → Reads (if b then xs else ys) rest item
Reads-if xs ys true rest hx hy = hx refl
Reads-if xs ys false rest hx hy = hy refl

-- A number behind its tag.
read_number :
    (k v : ℕ) (rest : List ℕ)
    → read_be k 0 (be_bytes k (v % 256 ^ k) ++ rest) ≡ some (v % 256 ^ k, rest)
read_number k v rest =
    read_be-be_bytes k 0 (v % 256 ^ k) rest (mod-lt v (one-le-pow k 256 (omega arith)))
    ∙ ap (λ n. some (n, rest)) (omega arith)

read_small :
    (k v : ℕ) (rest : List ℕ)
    → v < 256 ^ k
    → read_be k 0 (be_bytes k (v % 256 ^ k) ++ rest) ≡ some (v, rest)
read_small k v rest h = read_number k v rest ∙ ap (λ n. some (n, rest)) (mod-eq_of_lt h)

fixint : (v : ℕ) (rest : List ℕ) → v < 128 → decode_tag (v % 256) rest ≡ some (unsigned v, rest)
unfolding decode_tag
fixint v rest h = let small : v % 256 ≡ v = omega arith in rw small (rw (lt→ltb v 128 h) refl)

negative :
    (v : ℕ) (rest : List ℕ)
    → 2 ^ 64 - 32 ≤ v
    → v < 2 ^ 64
    → decode_tag (v % 256) rest ≡ some (signed v, rest)
unfolding decode_tag sign_extend
negative v rest h h' = ground arith

decode-unsigned :
    (v : ℕ) (rest : List ℕ) → v < 2 ^ 64 → Reads (encoding (unsigned v)) rest (unsigned v)
unfolding decode encoding decode_tag
decode-unsigned v rest h =
    Reads-if _ _ (leb v 127) rest (λ e. fixint v rest (ground arith))
      (λ _.
        Reads-if _ _ (leb v 255) rest (λ e. rw (read_small 1 v rest (ground arith)) refl)
          (λ _.
            Reads-if _ _ (leb v 65535) rest (λ e. rw (read_small 2 v rest (ground arith)) refl)
              (λ _.
                Reads-if _ _ (leb v 4294967295) rest
                  (λ e. rw (read_small 4 v rest (ground arith)) refl)
                  (λ _. rw (read_small 8 v rest h) refl))))

extended_1 :
    (v : ℕ)
    → v < 2 ^ 64
    → ltb v 128 ≡ false
    → between 128 127 v ≡ true
    → sign_extend 1 (v % 256 ^ 1) ≡ v
unfolding sign_extend
extended_1 v h big e = ground arith

extended_2 :
    (v : ℕ)
    → v < 2 ^ 64
    → ltb v 128 ≡ false
    → between 32768 32767 v ≡ true
    → sign_extend 2 (v % 256 ^ 2) ≡ v
unfolding sign_extend
extended_2 v h big e = ground arith

extended_4 :
    (v : ℕ)
    → v < 2 ^ 64
    → ltb v 128 ≡ false
    → between 2147483648 2147483647 v ≡ true
    → sign_extend 4 (v % 256 ^ 4) ≡ v
unfolding sign_extend
extended_4 v h big e = ground arith

decode-signed :
    (v : ℕ) (rest : List ℕ) → v < 2 ^ 64 → Reads (encoding (signed v)) rest (canonical (signed v))
unfolding decode encoding decode_tag canonical sign_extend
decode-signed v rest h =
    Reads-if _ _ (between 32 127 v) rest
      (λ e. elim (Bool-cases (ltb v 128)) [
        | inl small ↦ rw small (fixint v rest (ltb→lt v 128 small))
        | inr big ↦ rw big (negative v rest (ground arith) h)
      ])
      (λ e.
        let big : ltb v 128 ≡ false = ground arith in
        rw big (
          Reads-if _ _ (between 128 127 v) rest
            (λ e₁. rw (read_number 1 v rest, extended_1 v h big e₁) refl)
            (λ _.
              Reads-if _ _ (between 32768 32767 v) rest
                (λ e₂. rw (read_number 2 v rest, extended_2 v h big e₂) refl)
                (λ _.
                  Reads-if _ _ (between 2147483648 2147483647 v) rest
                    (λ e₄. rw (read_number 4 v rest, extended_4 v h big e₄) refl)
                    (λ _. rw (read_small 8 v rest h) refl)))))

take-length : (s rest : List ℕ) → take (length s) (s ++ rest) ≡ s
take-length [] rest = refl
take-length (c ∷ s) rest = ap (λ us. c ∷ us) (take-length s rest)

drop-length : (s rest : List ℕ) → drop (length s) (s ++ rest) ≡ rest
drop-length [] rest = refl
drop-length (c ∷ s) rest = drop-length s rest

read_str-length : (s rest : List ℕ) → read_str (length s) (s ++ rest) ≡ some (str s, rest)
unfolding read_str
read_str-length s rest =
    let enough : ltb (length (s ++ rest)) (length s) ≡ false =
      ground (arith, length-append s rest) in
    rw (enough, take-length s rest, drop-length s rest) refl

-- The tags that hold a count.
short_str : (n : ℕ) (bs : List ℕ) → n < 32 → decode_tag ((160 + n) % 256) bs ≡ read_str n bs
unfolding decode_tag
short_str n bs h = ground arith

short_map : (n : ℕ) (bs : List ℕ) → n < 16 → decode_tag ((128 + n) % 256) bs ≡ some (map_of n, bs)
unfolding decode_tag
short_map n bs h = ground arith

short_array :
    (n : ℕ) (bs : List ℕ) → n < 16 → decode_tag ((144 + n) % 256) bs ≡ some (array_of n, bs)
unfolding decode_tag
short_array n bs h = ground arith

decode-str : (s rest : List ℕ) → length s < 2 ^ 16 → Reads (encoding (str s)) rest (str s)
unfolding decode encoding decode_tag
decode-str s rest h =
    Reads-if _ _ (leb (length s) 31) rest
      (λ e. short_str (length s) (s ++ rest) (ground arith) ∙ read_str-length s rest)
      (λ _.
        rw
          (
            append_assoc (be_bytes 2 (length s % 256 ^ 2)) s rest,
            read_small 2 (length s) (s ++ rest) h,
          )
          (read_str-length s rest))

decode-map_of : (n : ℕ) (rest : List ℕ) → n < 2 ^ 16 → Reads (encoding (map_of n)) rest (map_of n)
unfolding decode encoding decode_tag
decode-map_of n rest h =
    Reads-if _ _ (leb n 15) rest (λ e. short_map n rest (ground arith))
      (λ _. rw (read_small 2 n rest h) refl)

decode-array_of :
    (n : ℕ) (rest : List ℕ) → n < 2 ^ 16 → Reads (encoding (array_of n)) rest (array_of n)
unfolding decode encoding decode_tag
decode-array_of n rest h =
    Reads-if _ _ (leb n 15) rest (λ e. short_array n rest (ground arith))
      (λ _. rw (read_small 2 n rest h) refl)

pub decode-encoding :
    (item : Item) (rest : List ℕ)
    → is_item item ≡ true
    → decode (encoding item ++ rest) ≡ some (canonical item, rest)
unfolding canonical decode decode_tag encoding
decode-encoding nil rest h = refl
decode-encoding (boolean true) rest h = refl
decode-encoding (boolean false) rest h = refl
decode-encoding (unsigned v) rest h = decode-unsigned v rest (ltb→lt _ _ h)
decode-encoding (signed v) rest h = decode-signed v rest (ltb→lt _ _ h)
decode-encoding (double v) rest h = rw (read_small 8 v rest (ltb→lt _ _ h)) refl
decode-encoding (str s) rest h = decode-str s rest (ltb→lt _ _ h)
decode-encoding (map_of n) rest h = decode-map_of n rest (ltb→lt _ _ h)
decode-encoding (array_of n) rest h = decode-array_of n rest (ltb→lt _ _ h)
