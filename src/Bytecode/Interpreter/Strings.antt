-- ===== src/Bytecode/Interpreter/Strings.antt =====
-- The comparison of two strings of which each may be a literal with escapes and a star
-- (`parse_char`, `stack_strcmp`). A string is the list of its bytes to its end, so a test for the
-- end asks for the empty list; behind a backslash at the end stands the NUL.
use lttng_ust.Common.{
  ℕ, zero, suc, ◌+◌, ◌%◌, Bool, true, false, [], ◌∷◌, ◌==◌, ltb, if◌then◌else◌, length,
}
use lttng_ust.Strutils.{Bytes, backslash}

-- The sign of the result; `overread` where the code reads behind a string's NUL.
pub data Order : Type 0 where
  less equal greater overread : Order

-- A byte as a literal gives it: a star, a plain byte, or one behind a backslash that escapes nothing.
pub data Char : Type 0 where
  star : Char
  plain : ℕ → Bytes → Char
  escaped : ℕ → Bytes → Char

-- `parse_char` at a byte before `s`.
unfoldable pub parse_char : ℕ → Bytes → Char
parse_char c [] = if c == backslash then escaped 0 [] else if c == b'*' then star else plain c []
parse_char c (d ∷ s) =
    if c == backslash
    then if d == backslash then plain d s else if d == b'*' then plain d s else escaped d s
    else if c == b'*'
    then star
    else plain c (d ∷ s)

-- A byte of a string, parsed where it is a literal.
abbrev pub char : Bool → ℕ → Bytes → Char
char literal c s = if literal then parse_char c s else plain c s

abbrev is_star : Char → Bool
is_star star = true
is_star _ = false

-- `diff` as a sign: bytes are signed.
abbrev signed : ℕ → ℕ
signed c = (c + 128) % 256

unfoldable pub sign_of : ℕ → ℕ → Order
sign_of a b =
    if a == b then Order.equal else if ltb (signed a) (signed b) then Order.less else Order.greater

-- The bytes are equal: go on, unless both are the NUL behind a backslash.
abbrev pub compare_bytes : ℕ → ℕ → Order → Order
compare_bytes a b rest = if a == b then if a == 0 then Order.overread else rest else sign_of a b

-- What the loop does with a byte of each string; `rest` goes on behind them. A star of `p` is seen
-- before `q` is parsed.
unfoldable pub compare_chars : Char → Char → (Bytes → Bytes → Order) → Order
compare_chars star _ rest = Order.equal
compare_chars _ star rest = Order.equal
compare_chars (plain a p) (plain b q) rest = compare_bytes a b (rest p q)
compare_chars (escaped a p) (escaped b q) rest = compare_bytes a b (rest p q)
compare_chars (plain a p) (escaped b q) rest = Order.less
compare_chars (escaped a p) (plain b q) rest = Order.greater

-- The loop of `stack_strcmp`, on fuel.
unfoldable pub strcmp_from : ℕ → Bool → Bool → Bytes → Bytes → Order
strcmp_from zero lp lq p q = Order.overread
strcmp_from (suc f) lp lq [] [] = Order.equal
strcmp_from (suc f) lp lq [] (d ∷ q) = if is_star (char lq d q) then Order.equal else Order.less
strcmp_from (suc f) lp lq (c ∷ p) [] = if is_star (char lp c p) then Order.equal else Order.greater
strcmp_from (suc f) lp lq (c ∷ p) (d ∷ q) =
    compare_chars (char lp c p) (char lq d q) (strcmp_from f lp lq)

-- `bx` against `ax`: whether each is a literal, and its bytes.
unfoldable pub stack_strcmp : Bool → Bool → Bytes → Bytes → Order
stack_strcmp lp lq p q = strcmp_from (suc (length p)) lp lq p q
