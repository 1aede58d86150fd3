-- ===== src/Msgpack/Tests.antt =====
-- Runs of the writing functions in a memory of twelve bytes.
use lttng_ust.Common.{ℕ, ◌≡◌, refl, false, List, [], ◌∷◌, drop, arith, some}
use lttng_ust.Msgpack.{
  Writer, writer_init, write_signed_integer, write_str, append_buffer, append_uint, tagged,
  be_bytes, memcpy, encode_fixstr,
}
use lttng_ust.Msgpack.Format.{signed, str, write, decode, canonical}
use lttng_ust.Msgpack.Format.Trip.{IsWriter, Framed, write-Framed, write_roundtrip}

abbrev writer : Writer
writer = record (writer_init (1 ∷ 2 ∷ 3 ∷ 4 ∷ 5 ∷ 6 ∷ 7 ∷ 8 ∷ 9 ∷ 10 ∷ 11 ∷ 12 ∷ []) 10) {
  write_pos = 4;
}

-- The word of -300.
abbrev minus_300 : ℕ
minus_300 = 18446744073709551316

abbrev hello : List ℕ
hello = 104 ∷ 101 ∷ 108 ∷ 108 ∷ 111 ∷ []

writer-IsWriter : IsWriter writer
unfolding writer_init
writer-IsWriter = record { position = omega arith; inside = omega arith }

write-signed :
    (write writer (signed minus_300)).writer.memory
    ≡ 1 ∷ 2 ∷ 3 ∷ 4 ∷ 209 ∷ 254 ∷ 212 ∷ 8 ∷ 9 ∷ 10 ∷ 11 ∷ 12 ∷ []
unfolding writer_init write_signed_integer tagged append_uint append_buffer be_bytes memcpy
write-signed = refl

-- A string that does not fit leaves its first byte.
write-str : write record writer { write_pos = 6 } (str hello) ≡ record {
  ok = false;
  writer = record writer {
    memory = 1 ∷ 2 ∷ 3 ∷ 4 ∷ 5 ∷ 6 ∷ 165 ∷ 8 ∷ 9 ∷ 10 ∷ 11 ∷ 12 ∷ [];
    write_pos = 7;
  };
}
unfolding writer_init write_str encode_fixstr append_buffer memcpy
write-str = refl

write-Framed_example : Framed writer (str hello) (write writer (str hello))
write-Framed_example = write-Framed writer (str hello) writer-IsWriter refl

write_roundtrip_example :
    decode (drop 4 (write writer (signed minus_300)).writer.memory)
    ≡ some (
      canonical (signed minus_300),
      drop (write writer (signed minus_300)).writer.write_pos writer.memory,
    )
unfolding writer_init write_signed_integer tagged append_uint append_buffer be_bytes memcpy
write_roundtrip_example = write_roundtrip writer (signed minus_300) writer-IsWriter refl refl
