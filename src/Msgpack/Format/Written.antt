-- ===== src/Msgpack/Format/Written.antt =====
-- What the writing functions leave in memory, also where the memory is too short.
use lttng_ust.Common.{
  ℕ, ◌+◌, ◌%◌, ◌^◌, ◌≤◌, ◌<◌, ◌≡◌, refl, sym, ap, ◌∙◌, Bool, true, false, List, [], ◌∷◌, ◌++◌,
  length, leb, ltb, if◌then◌else◌, arith, length-append, Bool-cases, inl, inr, ltb→lt, ltb_false→le,
}
use lttng_ust.Msgpack.{
  Writer, Outcome, memcpy, append_buffer, append_uint, and_then, tagged, be_bytes, between,
  encode_f64, encode_fixmap, encode_map16, encode_fixarray, encode_array16, encode_fixstr,
  encode_str16, begin_map, begin_array, write_str, write_nil, write_true, write_false,
  write_unsigned_integer, write_signed_integer, write_double,
}
use lttng_ust.Msgpack.Bytes.{memcpy-++, append_assoc}
use lttng_ust.Msgpack.Format.{
  Item, nil, boolean, unsigned, signed, double, str, map_of, array_of, write, is_item, encoding,
}

-- The writer `w` after the bytes.
pub record Puts (w : Writer) (bs : List ℕ) (w' : Writer) : Type 0 where
  pub memory : w'.memory ≡ memcpy w.memory w.write_pos bs
  pub write_pos : w'.write_pos ≡ w.write_pos + length bs
  pub end_write_pos : w'.end_write_pos ≡ w.end_write_pos

-- All of the bytes, where they fit, and else a first part of them and a failure.
pub data Writes (w : Writer) (bs : List ℕ) (o : Outcome) : Type 0 where
  whole :
      o.ok ≡ true → w.write_pos + length bs ≤ w.end_write_pos → Puts w bs o.writer → Writes w bs o
  part :
      (xs ys : List ℕ)
      → bs ≡ xs ++ ys
      → o.ok ≡ false
      → w.end_write_pos < w.write_pos + length bs
      → w.write_pos + length xs ≤ w.end_write_pos
      → Puts w xs o.writer
      → Writes w bs o

append_buffer-Writes :
    (w : Writer) (bs : List ℕ) → w.write_pos ≤ w.end_write_pos → Writes w bs (append_buffer w bs)
unfolding append_buffer memcpy
append_buffer-Writes w bs h = elim (Bool-cases (ltb w.end_write_pos (w.write_pos + length bs))) [
  | inl short ↦ rw short (
      part [] bs refl refl (ltb→lt _ _ short) (omega arith)
        record { memory = refl; write_pos = omega arith; end_write_pos = refl })
  | inr fits ↦ rw fits (
      whole refl (ltb_false→le _ _ fits)
        record { memory = refl; write_pos = refl; end_write_pos = refl })
]

Puts-++ : {w w₁ w₂ : Writer} {xs ys : List ℕ} → Puts w xs w₁ → Puts w₁ ys w₂ → Puts w (xs ++ ys) w₂
Puts-++ {w} {w₁} {w₂} {xs} {ys} p q = record {
  memory =
      q.memory
      ∙ ap (λ m. memcpy m w₁.write_pos ys) p.memory
      ∙ ap (λ n. memcpy (memcpy w.memory w.write_pos xs) n ys) p.write_pos
      ∙ sym (memcpy-++ w.memory w.write_pos xs ys);
  write_pos = omega (arith, p.write_pos, q.write_pos, length-append xs ys);
  end_write_pos = q.end_write_pos ∙ p.end_write_pos;
}

Writes-after :
    {w w₁ : Writer} {xs ys : List ℕ} {o : Outcome}
    → Puts w xs w₁
    → Writes w₁ ys o
    → Writes w (xs ++ ys) o
Writes-after {w} {w₁} {xs} {ys} p (whole ok fits q) =
    whole ok (omega (arith, p.write_pos, p.end_write_pos, length-append xs ys)) (Puts-++ p q)
Writes-after {w} {w₁} {xs} {ys} p (part us vs e ok short inside q) =
    part (xs ++ us) vs (ap (λ zs. xs ++ zs) e ∙ sym (append_assoc xs us vs)) ok
      (omega (arith, p.write_pos, p.end_write_pos, length-append xs ys))
      (omega (arith, p.write_pos, p.end_write_pos, length-append xs us)) (Puts-++ p q)

and_then-Writes :
    (w : Writer) (xs ys : List ℕ) (o : Outcome) (next : Writer → Outcome)
    → Writes w xs o
    → ((w' : Writer) → w'.write_pos ≤ w'.end_write_pos → Writes w' ys (next w'))
    → Writes w (xs ++ ys) (and_then o next)
and_then-Writes w xs ys o next (whole ok fits p) hn =
    rw ok (Writes-after p (hn o.writer (omega (arith, p.write_pos, p.end_write_pos))))
and_then-Writes w xs ys o next (part us vs e ok short inside p) hn = rw ok (
    part us (vs ++ ys) (ap (λ zs. zs ++ ys) e ∙ append_assoc us vs ys) refl
      (omega (arith, length-append xs ys)) inside p)

tagged-Writes :
    (id k : ℕ) (w : Writer) (v : ℕ)
    → w.write_pos ≤ w.end_write_pos
    → Writes w (id % 256 ∷ be_bytes k (v % 256 ^ k)) (tagged id k w v)
unfolding tagged append_uint
tagged-Writes id k w v h =
    and_then-Writes w (id % 256 ∷ []) (be_bytes k (v % 256 ^ k)) _ _
      (append_buffer-Writes w (id % 256 ∷ []) h)
      (λ w' h'. append_buffer-Writes w' (be_bytes k (v % 256 ^ k)) h')

Writes-if :
    {w : Writer} (b : Bool) {xs ys : List ℕ} {o o' : Outcome}
    → Writes w xs o
    → Writes w ys o'
    → Writes w (if b then xs else ys) (if b then o else o')
Writes-if true hx hy = hx
Writes-if false hx hy = hy

-- Only the nesting differs.
Writes-nested :
    {w : Writer} {bs : List ℕ} {o : Outcome} (w' : Writer)
    → w'.memory ≡ o.writer.memory
    → w'.write_pos ≡ o.writer.write_pos
    → w'.end_write_pos ≡ o.writer.end_write_pos
    → Writes w bs o
    → Writes w bs record o { writer = w' }
Writes-nested w' hm hp he (whole ok fits p) = whole ok fits record {
  memory = hm ∙ p.memory;
  write_pos = hp ∙ p.write_pos;
  end_write_pos = he ∙ p.end_write_pos;
}
Writes-nested w' hm hp he (part us vs e ok short inside p) = part us vs e ok short inside record {
  memory = hm ∙ p.memory;
  write_pos = hp ∙ p.write_pos;
  end_write_pos = he ∙ p.end_write_pos;
}

pub write-Writes :
    (w : Writer) (item : Item)
    → w.write_pos ≤ w.end_write_pos
    → is_item item ≡ true
    → Writes w (encoding item) (write w item)
unfolding encoding write_nil write_true write_false write_unsigned_integer write_signed_integer
    write_double encode_f64 write_str encode_fixstr encode_str16 begin_map begin_array encode_fixmap
    encode_map16 encode_fixarray encode_array16
write-Writes w nil h ok = append_buffer-Writes w _ h
write-Writes w (boolean true) h ok = append_buffer-Writes w _ h
write-Writes w (boolean false) h ok = append_buffer-Writes w _ h
write-Writes w (unsigned v) h ok = Writes-if (leb v 127) (append_buffer-Writes w _ h) (
    Writes-if (leb v 255) (tagged-Writes 204 1 w v h) (
      Writes-if (leb v 65535) (tagged-Writes 205 2 w v h)
        (Writes-if (leb v 4294967295) (tagged-Writes 206 4 w v h) (tagged-Writes 207 8 w v h))))
write-Writes w (signed v) h ok = Writes-if (between 32 127 v) (append_buffer-Writes w _ h) (
    Writes-if (between 128 127 v) (tagged-Writes 208 1 w v h) (
      Writes-if (between 32768 32767 v) (tagged-Writes 209 2 w v h) (
        Writes-if (between 2147483648 2147483647 v) (tagged-Writes 210 4 w v h)
          (tagged-Writes 211 8 w v h))))
write-Writes w (double v) h ok = tagged-Writes 203 8 w v h
write-Writes w (str s) h ok =
    let short : leb (2 ^ 16) (length s) ≡ false = ground arith in
    rw short (
      Writes-if (leb (length s) 31)
        (and_then-Writes w _ s _ _ (append_buffer-Writes w _ h)
          (λ w' h'. append_buffer-Writes w' s h'))
        (and_then-Writes w _ s _ _ (tagged-Writes 218 2 w (length s) h)
          (λ w' h'. append_buffer-Writes w' s h')))
write-Writes w (map_of count) h ok =
    let few : leb (2 ^ 16) count ≡ false = ground arith in
    rw few (
      Writes-nested _ refl refl refl
        (Writes-if (leb count 15) (append_buffer-Writes w _ h) (tagged-Writes 222 2 w count h)))
write-Writes w (array_of count) h ok =
    let few : leb (2 ^ 16) count ≡ false = ground arith in
    rw few (
      Writes-nested _ refl refl refl
        (Writes-if (leb count 15) (append_buffer-Writes w _ h) (tagged-Writes 220 2 w count h)))
