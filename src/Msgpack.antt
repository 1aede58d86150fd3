-- ===== src/Msgpack.antt =====
-- src/common/msgpack/msgpack.c: the writer of the MessagePack data of event notifications.
-- The writer's three pointers are offsets into the memory that starts at `buffer`, so `buffer`
-- itself is 0. An `int64_t` is the 64-bit word of its two's complement; a `double` is its 64 bits.
-- Bytes in network order are what `htobe16` and its likes leave in memory.
pub mod Bytes
pub mod Format
mod Tests
use lttng_ust.Common.{
  ℕ, zero, suc, ◌+◌, ◌-◌, ◌*◌, ◌/◌, ◌%◌, ◌^◌, Bool, true, false, ◌&&◌, ◌||◌, not, List, [], ◌∷◌,
  leb, ltb, if◌then◌else◌, length, set,
}

pub record Writer : Type 0 where
  pub memory : List ℕ
  pub write_pos : ℕ
  pub end_write_pos : ℕ
  pub array_nesting : ℕ
  pub map_nesting : ℕ

-- What an operation returns: 0 or -1, and the writer.
pub record Outcome : Type 0 where
  pub ok : Bool
  pub writer : Writer

pub memcpy : List ℕ → ℕ → List ℕ → List ℕ
memcpy memory pos [] = memory
memcpy memory pos (b ∷ bs) = memcpy (set memory pos b) (suc pos) bs

-- The bytes put at the position, which moves behind them.
abbrev pub put : Writer → List ℕ → Writer
put w bs = record w { memory = memcpy w.memory w.write_pos bs; write_pos = w.write_pos + length bs }

pub append_buffer : Writer → List ℕ → Outcome
append_buffer w bs =
    if ltb w.end_write_pos (w.write_pos + length bs)
    then record { ok = false; writer = w }
    else record { ok = true; writer = put w bs }

-- The `k` bytes of a number in network order.
pub be_bytes : ℕ → ℕ → List ℕ
be_bytes zero v = []
be_bytes (suc k) v = v / 256 ^ k ∷ be_bytes k (v % 256 ^ k)

-- `if (ret) goto end;`
abbrev pub and_then : Outcome → (Writer → Outcome) → Outcome
and_then o next = if o.ok then next o.writer else o

-- A casted value, in `k` bytes.
pub append_uint : ℕ → Writer → ℕ → Outcome
append_uint k w v = append_buffer w (be_bytes k (v % 256 ^ k))

abbrev pub append_u8 : Writer → ℕ → Outcome
append_u8 w v = append_buffer w (v % 256 ∷ [])

-- An identifier's byte and a value.
pub tagged : ℕ → ℕ → Writer → ℕ → Outcome
tagged id k w v = and_then (append_u8 w id) (λ w'. append_uint k w' v)

pub encode_f64 : Writer → ℕ → Outcome
encode_f64 w v = tagged 203 8 w v

-- A mask and a count that fits below it.
pub encode_fixmap : Writer → ℕ → Outcome
encode_fixmap w count = append_u8 w (128 + count)

pub encode_map16 : Writer → ℕ → Outcome
encode_map16 w count = tagged 222 2 w count

pub encode_fixarray : Writer → ℕ → Outcome
encode_fixarray w count = append_u8 w (144 + count)

pub encode_array16 : Writer → ℕ → Outcome
encode_array16 w count = tagged 220 2 w count

pub encode_fixstr : Writer → List ℕ → Outcome
encode_fixstr w str = and_then (append_u8 w (160 + length str)) (λ w'. append_buffer w' str)

pub encode_str16 : Writer → List ℕ → Outcome
encode_str16 w str = and_then (tagged 218 2 w (length str)) (λ w'. append_buffer w' str)

abbrev pub nest_map : Writer → Writer
nest_map w = record w { map_nesting = (w.map_nesting + 1) % 256 }

abbrev pub nest_array : Writer → Writer
nest_array w = record w { array_nesting = (w.array_nesting + 1) % 256 }

-- The nesting grows also where the encoding fails.
pub begin_map : Writer → ℕ → Outcome
begin_map w count =
    let o = if leb count 15 then encode_fixmap w count else encode_map16 w count in
    if leb (2 ^ 16) count
    then record { ok = false; writer = w }
    else record o { writer = nest_map o.writer }

pub begin_array : Writer → ℕ → Outcome
begin_array w count =
    let o = if leb count 15 then encode_fixarray w count else encode_array16 w count in
    if leb (2 ^ 16) count
    then record { ok = false; writer = w }
    else record o { writer = nest_array o.writer }

pub end_map : Writer → Outcome
end_map w = record { ok = true; writer = record w { map_nesting = (w.map_nesting + 255) % 256 } }

pub end_array : Writer → Outcome
end_array w = record {
  ok = true;
  writer = record w { array_nesting = (w.array_nesting + 255) % 256 };
}

-- The string is the bytes before its NUL.
pub write_str : Writer → List ℕ → Outcome
write_str w str =
    if leb (2 ^ 16) (length str)
    then record { ok = false; writer = w }
    else if leb (length str) 31
    then encode_fixstr w str
    else encode_str16 w str

pub write_nil : Writer → Outcome
write_nil w = append_u8 w 192

pub write_true : Writer → Outcome
write_true w = append_u8 w 195

pub write_false : Writer → Outcome
write_false w = append_u8 w 194

pub write_unsigned_integer : Writer → ℕ → Outcome
write_unsigned_integer w v =
    if leb v 127
    then append_u8 w v
    else if leb v 255
    then tagged 204 1 w v
    else if leb v 65535
    then tagged 205 2 w v
    else if leb v 4294967295
    then tagged 206 4 w v
    else tagged 207 8 w v

-- `value >= -low && value <= high`.
abbrev pub between : ℕ → ℕ → ℕ → Bool
between low high v = leb v high || leb (2 ^ 64 - low) v

pub write_signed_integer : Writer → ℕ → Outcome
write_signed_integer w v =
    if between 32 127 v
    then append_u8 w v
    else if between 128 127 v
    then tagged 208 1 w v
    else if between 32768 32767 v
    then tagged 209 2 w v
    else if between 2147483648 2147483647 v
    then tagged 210 4 w v
    else tagged 211 8 w v

pub write_double : Writer → ℕ → Outcome
write_double w v = encode_f64 w v

pub save_writer_pos : Writer → ℕ
save_writer_pos w = w.write_pos

pub restore_writer_pos : Writer → ℕ → Writer
restore_writer_pos w pos = record w { write_pos = pos }

pub writer_init : List ℕ → ℕ → Writer
writer_init memory size = record {
  memory = memory;
  write_pos = 0;
  end_write_pos = size;
  array_nesting = 0;
  map_nesting = 0;
}
