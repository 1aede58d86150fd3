-- ===== src/Msgpack/Format/Trip.antt =====
-- What a caller sees of the writing functions: the memory around, the outcome, and a reader's view.
use lttng_ust.Common.{
  ℕ, ◌+◌, ◌≤◌, ◌≡◌, refl, sym, ap, ◌∙◌, true, List, [], ◌++◌, length, leb, arith, take, drop, some,
}
use lttng_ust.Msgpack.{Writer, Outcome}
use lttng_ust.Msgpack.Bytes.{memcpy-splice, drop-take, append_nil}
use lttng_ust.Msgpack.Format.{Item, write, is_item, encoding, decode, canonical}
use lttng_ust.Msgpack.Format.Written.{Writes, whole, part, write-Writes}
use lttng_ust.Msgpack.Format.Decoded.{decode-encoding}

-- The position and the end lie in the memory.
pub record IsWriter (w : Writer) : Type 0 where
  pub position : w.write_pos ≤ w.end_write_pos
  pub inside : w.end_write_pos ≤ length w.memory

-- A first part of the item's bytes stands between the old position and the new one, which is not
-- behind the end, and all other memory is as it was; a success has all the bytes, and it is one
-- exactly where they fit.
pub record Framed (w : Writer) (item : Item) (o : Outcome) : Type 0 where
  pub written : List ℕ
  pub left : List ℕ
  pub first : encoding item ≡ written ++ left
  pub memory :
      o.writer.memory
      ≡ take w.write_pos w.memory ++ (written ++ drop (w.write_pos + length written) w.memory)
  pub write_pos : o.writer.write_pos ≡ w.write_pos + length written
  pub within : o.writer.write_pos ≤ w.end_write_pos
  pub end_write_pos : o.writer.end_write_pos ≡ w.end_write_pos
  pub success : o.ok ≡ leb (w.write_pos + length (encoding item)) w.end_write_pos
  pub complete : o.ok ≡ true → written ≡ encoding item

Writes-Framed :
    {w : Writer} {item : Item} {o : Outcome}
    → IsWriter w
    → Writes w (encoding item) o
    → Framed w item o
Writes-Framed {w} {item} {o} v (whole ok fits p) = record {
  written = encoding item;
  left = [];
  first = sym (append_nil (encoding item));
  memory = p.memory ∙ memcpy-splice w.memory w.write_pos (encoding item) (omega (arith, v.inside));
  write_pos = p.write_pos;
  within = omega (arith, p.write_pos);
  end_write_pos = p.end_write_pos;
  success = ground arith;
  complete = λ _. refl;
}
Writes-Framed {w} {item} {o} v (part us vs e ok short inside p) = record {
  written = us;
  left = vs;
  first = e;
  memory = p.memory ∙ memcpy-splice w.memory w.write_pos us (omega (arith, v.inside));
  write_pos = p.write_pos;
  within = omega (arith, p.write_pos);
  end_write_pos = p.end_write_pos;
  success = ground arith;
  complete = λ h. ground arith;
}

-- In a writer whose position and end lie in its memory, writing an item that the format has a
-- place for puts a first part of the item's bytes between the old position and the new one, which
-- is not behind the end, and leaves all other memory as it was. It succeeds exactly where all the
-- bytes fit, and then they are all there.
pub write-Framed :
    (w : Writer) (item : Item) → IsWriter w → is_item item ≡ true → Framed w item (write w item)
write-Framed w item v h = Writes-Framed v (write-Writes w item v.position h)

-- In such a writer and for such an item, where the writing succeeds a reader at the old position
-- finds the item, where a signed integer from 0 to 127 reads as an unsigned one, and stands at the
-- new position, with the memory as it was from there.
pub write_roundtrip :
    (w : Writer) (item : Item)
    → IsWriter w
    → is_item item ≡ true
    → (write w item).ok ≡ true
    → decode (drop w.write_pos (write w item).writer.memory)
      ≡ some (canonical item, drop (write w item).writer.write_pos w.memory)
write_roundtrip w item v h ok =
    let f = write-Framed w item v h in
    let bytes = f.complete ok in
    ap (λ m. decode (drop w.write_pos m)) f.memory
    ∙ ap decode (drop-take w.memory w.write_pos _ (omega (arith, v.position, v.inside)))
    ∙ ap (λ xs. decode (xs ++ drop (w.write_pos + length f.written) w.memory)) bytes
    ∙ decode-encoding item _ h
    ∙ ap (λ n. some (canonical item, drop n w.memory)) (sym f.write_pos)
