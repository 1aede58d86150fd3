-- ===== src/RingBuffer/Commit/Lap.antt =====
-- A lap of a sub-buffer as a list of commits: every order of the same chunks delivers it once, with
-- the last of them.
use mathlib.Core.Path.{ap₂}
use lttng_ust.Common.{ℕ, ◌+◌, ◌<◌, ◌≡◌, ◌∙◌, refl, sym, List, [], ◌∷◌, ◌++◌, arith}
use lttng_ust.Common.Words.{word_mod, ◌+w◌}
use lttng_ust.RingBuffer.State.{Channel, Buffer, IsChannel, buffer_end}
use lttng_ust.RingBuffer.Offsets.{lap_commit, commit_masked}
use lttng_ust.RingBuffer.Commit.{add_commit}
use lttng_ust.RingBuffer.Commit.Deliver.{
  Counters, data_size, partial_lap, full_lap, add_commit_partial, add_commit_full,
}

-- One commit to a sub-buffer: its size, the offset it is delivered for, and the offset it ends at.
pub record Chunk : Type 0 where
  pub size : ℕ
  pub at : ℕ
  pub end : ℕ

pub commit_all : Channel → ℕ → List Chunk → Buffer → Buffer
commit_all chan idx [] buf = buf
commit_all chan idx (c ∷ cs) buf =
    commit_all chan idx cs (add_commit chan idx c.size c.at c.end buf)

abbrev pub total : List Chunk → ℕ
total [] = 0
total (c ∷ cs) = c.size + total cs

-- Every chunk holds a byte and belongs to the lap that starts with the commit count `lap`.
abbrev pub InLap : Channel → ℕ → List Chunk → Type 0
InLap chan lap [] = Unit
InLap chan lap (c ∷ cs) = (0 < c.size) × (lap_commit c.at chan ≡ lap) × InLap chan lap cs

-- A lap in which `t` bytes are committed: the hot counter has moved by `t`, the cold one has not.
abbrev pub Underway : ℕ → Buffer → ℕ → ℕ → ℕ → Type 0
Underway idx buf c0 t ts = Counters idx buf (c0 +w t) c0 ts

module _ {chan : Channel} (v : IsChannel chan) (idx c0 lap ts : ℕ)
    (starts : commit_masked c0 chan ≡ lap) where
  Underway-partial :
      (t size d e : ℕ) (buf : Buffer)
      → 0 < size
      → t + size < chan.subbuf_size
      → lap_commit d chan ≡ lap
      → Underway idx buf c0 t ts
      → let buf' = add_commit chan idx size d e buf in
        Underway idx buf' c0 (t + size) ts
        × (buf'.callbacks ≡ buf.callbacks)
        × (data_size chan idx buf' ≡ data_size chan idx buf)
  Underway-partial t size d e buf hn hs hd c =
      let sum : (c0 +w t) +w size ≡ c0 +w (t + size) = omega arith in
      rw sum at (
        add_commit_partial chan idx (c0 +w t) c0 ts size d e buf
          (rw (sum, hd) (partial_lap v c0 (t + size) lap (omega arith) hs starts)) c)

  Underway-full :
      (t size d e : ℕ) (buf : Buffer)
      → c0 < word_mod
      → t + size ≡ chan.subbuf_size
      → lap_commit d chan ≡ lap
      → Underway idx buf c0 t ts
      → let buf' = add_commit chan idx size d e buf in
        Counters idx buf' (c0 +w chan.subbuf_size) (c0 +w chan.subbuf_size) ts
        × (buf'.callbacks ≡ buf.callbacks ++ buffer_end ts idx (data_size chan idx buf) ∷ [])
  Underway-full t size d e buf hc hs hd c =
      let sum : (c0 +w t) +w size ≡ c0 +w chan.subbuf_size = omega arith in
      let (back, test) = full_lap v c0 lap hc starts in
      rw sum at (
        add_commit_full chan idx (c0 +w t) c0 ts size d e buf (rw (sum, hd) test)
          (rw sum (sym back)) c)

  -- A lap that `t` bytes have begun: the chunks that do not fill it deliver nothing.
  pub commit_all_partial :
      (cs : List Chunk) (t : ℕ) (buf : Buffer)
      → InLap chan lap cs
      → t + total cs < chan.subbuf_size
      → Underway idx buf c0 t ts
      → let buf' = commit_all chan idx cs buf in
        Underway idx buf' c0 (t + total cs) ts × (buf'.callbacks ≡ buf.callbacks)
  unfolding commit_all
  commit_all_partial [] t buf inside room u =
      let same : t + 0 ≡ t = omega arith in (rw same u, refl)
  commit_all_partial (c ∷ cs) t buf (pos, at, inside) room u =
      let (u', calls, _) = Underway-partial t c.size c.at c.end buf pos (omega arith) at u in
      let (done, calls') = commit_all_partial cs (t + c.size) _ inside (omega arith) u' in
      let sum : t + (c.size + total cs) ≡ t + c.size + total cs = omega arith in
      (rw sum done, calls' ∙ calls)

  -- The chunks that fill it deliver the sub-buffer once: the cold counter moves on to the next lap,
  -- with the hot one, and `buffer_end` is called with the data size that the sub-buffer was closed with.
  pub commit_all_full :
      (cs : List Chunk) (t : ℕ) (buf : Buffer)
      → c0 < word_mod
      → InLap chan lap cs
      → t < chan.subbuf_size
      → t + total cs ≡ chan.subbuf_size
      → Underway idx buf c0 t ts
      → let buf' = commit_all chan idx cs buf in
        Counters idx buf' (c0 +w chan.subbuf_size) (c0 +w chan.subbuf_size) ts
        × (buf'.callbacks ≡ buf.callbacks ++ buffer_end ts idx (data_size chan idx buf) ∷ [])
  unfolding commit_all
  commit_all_full [] t buf hc inside room full u = absurd (omega arith)
  commit_all_full (c ∷ []) t buf hc (pos, at, inside) room full u =
      Underway-full t c.size c.at c.end buf hc (omega arith) at u
  commit_all_full (c ∷ d ∷ cs) t buf hc (pos, at, inside) room full u =
      let (u', calls, sized) = Underway-partial t c.size c.at c.end buf pos (omega arith) at u in
      let (done, calls') =
        commit_all_full (d ∷ cs) (t + c.size) _ hc inside (omega arith) (omega arith) u' in
      (done, calls' ∙ ap₂ (λ x y. x ++ buffer_end ts idx y ∷ []) calls sized)
