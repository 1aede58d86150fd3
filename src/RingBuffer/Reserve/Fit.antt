-- ===== src/RingBuffer/Reserve/Fit.antt =====
-- Where the reserved slots lie (`lib_ring_buffer_try_reserve`, `lib_ring_buffer_try_reserve_slow`).
use lttng_ust.Common.{
  ℕ, ◌+◌, ◌≤◌, ◌<◌, ◌≡◌, ◌≢◌, ◌^◌, Bool, true, false, some, none, get_elem?, ◌==◌, ltb, arith,
  ltb_false→le,
}
use lttng_ust.Common.Words.{◌+w◌, ◌-w◌, word_mod}
use lttng_ust.RingBuffer.State.{Channel, Buffer, IsChannel, overwrite, discard}
use lttng_ust.RingBuffer.Offsets.{
  subbuf_offset, subbuf_trunc, subbuf_index, lap_commit, commit_masked,
}
use lttng_ust.RingBuffer.Geometry.{subbuf_trunc_last, subbuf_offset-lt}
use lttng_ust.RingBuffer.Reserve.{Env, Slot, slot_end, slot_size, try_reserve, Plan, switch_begin}

-- Every record has a header, and no record's size comes near the range of a word.
pub record IsSized (chan : Channel) (env : Env) : Type 0 where
  pub nonempty : (full : Bool) (begin : ℕ) → 0 < (slot_size chan env full begin).0
  pub bounded :
      (full : Bool) (begin : ℕ) → (slot_size chan env full begin).0 + chan.subbuf_size ≤ 2 ^ 64

-- The slot's last byte lies in the sub-buffer of its first.
pub record InOneSubbuf (chan : Channel) (s : Slot) : Type 0 where
  pub nonempty : 0 < s.size
  pub last : subbuf_trunc (slot_end s -w 1) chan ≡ subbuf_trunc s.begin chan

pub fits→InOneSubbuf :
    {chan : Channel} (v : IsChannel chan) (s : Slot)
    → s.begin < word_mod
    → 0 < s.size
    → s.size + chan.subbuf_size ≤ 2 ^ 64
    → ltb chan.subbuf_size (subbuf_offset s.begin chan +w s.size) ≡ false
    → InOneSubbuf chan s
fits→InOneSubbuf {chan} v s hb hn hs h = record {
  nonempty = hn;
  last =
      subbuf_trunc_last v s.begin s.size hb hn
        (omega (arith, subbuf_offset-lt v s.begin, ltb_false→le chan.subbuf_size _ h));
}

-- What the fast path has tested when it answers with a slot.
record Tested (chan : Channel) (env : Env) (begin : ℕ) (s : Slot) : Type 0 where
  at : s.begin ≡ begin
  sized : s.size ≡ (slot_size chan env s.full_timestamp s.begin).0
  fits : ltb chan.subbuf_size (subbuf_offset s.begin chan +w s.size) ≡ false

Tested→InOneSubbuf :
    {chan : Channel} {env : Env} {begin : ℕ} {s : Slot}
    → IsChannel chan
    → IsSized chan env
    → begin < word_mod
    → Tested chan env begin s
    → InOneSubbuf chan s
Tested→InOneSubbuf {chan} {env} {begin} {s} v sized hb t =
    fits→InOneSubbuf v s (rw t.at hb) (rw t.sized (sized.nonempty s.full_timestamp s.begin))
      (rw t.sized (sized.bounded s.full_timestamp s.begin)) t.fits

try_reserve-Tested :
    {chan : Channel} {env : Env} (buf : Buffer) {s : Slot}
    → try_reserve chan env buf ≡ some s
    → Tested chan env buf.offset s
unfolding try_reserve
try_reserve-Tested buf h = ground arith

try_reserve-ends_inside :
    (chan : Channel) (env : Env) (buf : Buffer) {s : Slot}
    → try_reserve chan env buf ≡ some s
    → subbuf_offset (slot_end s) chan ≢ 0
unfolding try_reserve
try_reserve-ends_inside chan env buf h = ground arith

-- A slot that the fast path reserves starts at the buffer's offset, lies in one sub-buffer, and
-- does not end at the boundary of a sub-buffer.
pub try_reserve_fits :
    {chan : Channel} {env : Env} (buf : Buffer) {s : Slot}
    → IsChannel chan
    → IsSized chan env
    → buf.offset < word_mod
    → try_reserve chan env buf ≡ some s
    → (s.begin ≡ buf.offset) × InOneSubbuf chan s × (subbuf_offset (slot_end s) chan ≢ 0)
try_reserve_fits {chan} {env} buf v sized hb h =
    let t = try_reserve-Tested buf h in
    (t.at, Tested→InOneSubbuf v sized hb t, try_reserve-ends_inside chan env buf h)

-- All the bytes of the sub-buffer's earlier laps have been committed: its cold counter is the
-- commit count with which this lap starts.
abbrev pub is_balanced : Channel → Buffer → ℕ → Bool
is_balanced chan buf begin = elim (get_elem? buf.commit_cold (subbuf_index begin chan)) [
  | none ↦ false
  | some cold ↦ lap_commit begin chan -w commit_masked cold.cc_sb chan == 0
]

-- The sub-buffer holds no data that the consumer has still to read, unless the mode is overwrite.
abbrev pub is_free : Channel → Buffer → ℕ → Bool
is_free chan buf begin = elim chan.config.mode [
  | overwrite ↦ true
  | discard ↦ ltb (subbuf_trunc begin chan -w subbuf_trunc buf.consumed chan) chan.buf_size
]

-- A plan that starts a sub-buffer: after its header, with its earlier laps committed and read.
pub record Starts (chan : Channel) (buf : Buffer) (plan : Plan) : Type 0 where
  pub begin_after_header : (plan.slot).begin ≡ switch_begin chan buf plan.switch_old_end
  pub balanced : is_balanced chan buf (plan.slot).begin ≡ true
  pub free : is_free chan buf (plan.slot).begin ≡ true
