-- ===== src/Msgpack/Format.antt =====
-- The MessagePack format, on its own: what a value's bytes are, and how a reader takes them back.
pub mod Written
pub mod Decoded
pub mod Trip
use lttng_ust.Common.{
  ℕ, ◌+◌, ◌-◌, ◌^◌, ◌%◌, ◌/◌, ◌<◌, ◌≡◌, Bool, true, false, List, [], ◌∷◌, ◌++◌, leb, ltb, ◌==◌,
  ◌||◌, if◌then◌else◌, Option, some, none, length, take, drop,
}
use lttng_ust.Msgpack.{
  Writer, Outcome, between, be_bytes, write_nil, write_true, write_false, write_unsigned_integer,
  write_signed_integer, write_double, write_str, begin_map, begin_array,
}
use lttng_ust.Msgpack.Bytes.{read_be}

-- What is written: a signed integer is the 64-bit word of its two's complement, a double its bits,
-- a map and an array are announced by their counts.
pub data Item : Type 0 where
  nil : Item
  boolean : Bool → Item
  unsigned : ℕ → Item
  signed : ℕ → Item
  double : ℕ → Item
  str : List ℕ → Item
  map_of : ℕ → Item
  array_of : ℕ → Item

abbrev pub write : Writer → Item → Outcome
write w nil = write_nil w
write w (boolean true) = write_true w
write w (boolean false) = write_false w
write w (unsigned v) = write_unsigned_integer w v
write w (signed v) = write_signed_integer w v
write w (double v) = write_double w v
write w (str s) = write_str w s
write w (map_of count) = begin_map w count
write w (array_of count) = begin_array w count

-- The values that a C caller can pass, and that the format has a place for.
abbrev pub is_item : Item → Bool
is_item nil = true
is_item (boolean b) = true
is_item (unsigned v) = ltb v (2 ^ 64)
is_item (signed v) = ltb v (2 ^ 64)
is_item (double v) = ltb v (2 ^ 64)
is_item (str s) = ltb (length s) (2 ^ 16)
is_item (map_of count) = ltb count (2 ^ 16)
is_item (array_of count) = ltb count (2 ^ 16)

abbrev number_bytes : ℕ → ℕ → ℕ → List ℕ
number_bytes id k v = id ∷ be_bytes k (v % 256 ^ k)

-- An item's bytes.
unfoldable pub encoding : Item → List ℕ
encoding nil = 192 ∷ []
encoding (boolean true) = 195 ∷ []
encoding (boolean false) = 194 ∷ []
encoding (unsigned v) =
    if leb v 127
    then v % 256 ∷ []
    else if leb v 255
    then number_bytes 204 1 v
    else if leb v 65535
    then number_bytes 205 2 v
    else if leb v 4294967295
    then number_bytes 206 4 v
    else number_bytes 207 8 v
encoding (signed v) =
    if between 32 127 v
    then v % 256 ∷ []
    else if between 128 127 v
    then number_bytes 208 1 v
    else if between 32768 32767 v
    then number_bytes 209 2 v
    else if between 2147483648 2147483647 v
    then number_bytes 210 4 v
    else number_bytes 211 8 v
encoding (double v) = number_bytes 203 8 v
encoding (str s) =
    if leb (length s) 31 then (160 + length s) % 256 ∷ s else number_bytes 218 2 (length s) ++ s
encoding (map_of count) =
    if leb count 15 then (128 + count) % 256 ∷ [] else number_bytes 222 2 count
encoding (array_of count) =
    if leb count 15 then (144 + count) % 256 ∷ [] else number_bytes 220 2 count

-- A number of `k` bytes whose sign bit is copied up to a word.
unfoldable pub sign_extend : ℕ → ℕ → ℕ
sign_extend k v = if ltb v (256 ^ k / 2) then v else 2 ^ 64 - 256 ^ k + v

abbrev bind_number :
    Option (ℕ × List ℕ) → (ℕ → List ℕ → Option (Item × List ℕ)) → Option (Item × List ℕ)
bind_number none next = none
bind_number (some (v, bs)) next = next v bs

-- A string of `n` bytes.
unfoldable pub read_str : ℕ → List ℕ → Option (Item × List ℕ)
read_str n bs = if ltb (length bs) n then none else some (str (take n bs), drop n bs)

-- The item that a first byte and the bytes behind it stand for, and the bytes left over.
unfoldable pub decode_tag : ℕ → List ℕ → Option (Item × List ℕ)
decode_tag t bs =
    if ltb t 128
    then some (unsigned t, bs)
    else if ltb t 144
    then some (map_of (t - 128), bs)
    else if ltb t 160
    then some (array_of (t - 144), bs)
    else if ltb t 192
    then read_str (t - 160) bs
    else if t == 192
    then some (nil, bs)
    else if t == 194
    then some (boolean false, bs)
    else if t == 195
    then some (boolean true, bs)
    else if t == 203
    then bind_number (read_be 8 0 bs) (λ v rest. some (double v, rest))
    else if t == 204
    then bind_number (read_be 1 0 bs) (λ v rest. some (unsigned v, rest))
    else if t == 205
    then bind_number (read_be 2 0 bs) (λ v rest. some (unsigned v, rest))
    else if t == 206
    then bind_number (read_be 4 0 bs) (λ v rest. some (unsigned v, rest))
    else if t == 207
    then bind_number (read_be 8 0 bs) (λ v rest. some (unsigned v, rest))
    else if t == 208
    then bind_number (read_be 1 0 bs) (λ v rest. some (signed (sign_extend 1 v), rest))
    else if t == 209
    then bind_number (read_be 2 0 bs) (λ v rest. some (signed (sign_extend 2 v), rest))
    else if t == 210
    then bind_number (read_be 4 0 bs) (λ v rest. some (signed (sign_extend 4 v), rest))
    else if t == 211
    then bind_number (read_be 8 0 bs) (λ v rest. some (signed v, rest))
    else if t == 218
    then bind_number (read_be 2 0 bs) (λ v rest. read_str v rest)
    else if t == 220
    then bind_number (read_be 2 0 bs) (λ v rest. some (array_of v, rest))
    else if t == 222
    then bind_number (read_be 2 0 bs) (λ v rest. some (map_of v, rest))
    else if leb 224 t
    then some (signed (sign_extend 1 t), bs)
    else none

unfoldable pub decode : List ℕ → Option (Item × List ℕ)
decode [] = none
decode (t ∷ bs) = decode_tag t bs

-- A signed integer from 0 to 127 takes one byte, which reads as an unsigned one.
unfoldable pub canonical : Item → Item
canonical (signed v) = if ltb v 128 then unsigned v else signed v
canonical x = x
