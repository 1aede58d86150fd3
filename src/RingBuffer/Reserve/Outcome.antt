-- ===== src/RingBuffer/Reserve/Outcome.antt =====
-- How a pass of `lib_ring_buffer_try_reserve_slow` fails, and what it has then changed.
use lttng_ust.Common.{
  ℕ, ◌≡◌, ◌≢◌, ap, ◌∙◌, ◌⊎◌, inl, inr, Bool, true, false, some, Option-cases, ◌||◌, arith,
}
use lttng_ust.Common.Words.{◌+w◌}
use lttng_ust.RingBuffer.State.{Channel, Buffer, discard}
use lttng_ust.RingBuffer.Reserve.{
  Env, failed, Error, eio, enobufs, enospc, eperm, refusal, reserve_in_new, reserve_switch,
  try_reserve_slow, switch_begin, last_timestamp_overflow, clock_eio,
}

-- What a failing pass leaves: a lost record is counted once, by its reason, and nothing else moves.
-- For want of space a record is only lost in discard mode, by a client that does not block; an -EIO
-- is the clock's or that of a sub-buffer which is not committed, and only the latter is counted.
abbrev pub Lost : Channel → Env → Bool → Buffer → Error → Buffer → Type 0
Lost chan env may_block buf enobufs buf' =
    (chan.config.mode ≡ discard)
    × (may_block ≡ false)
    × (buf' ≡ record buf { records_lost_full = buf.records_lost_full +w 1 })
Lost chan env may_block buf enospc buf' =
    buf' ≡ record buf { records_lost_big = buf.records_lost_big +w 1 }
Lost chan env may_block buf eio buf' =
    ((env.timestamp ≡ clock_eio) × (buf' ≡ buf))
    ⊎ ((env.timestamp ≢ clock_eio)
        × (buf' ≡ record buf { records_lost_wrap = buf.records_lost_wrap +w 1 }))
Lost chan env may_block buf eperm buf' = buf' ≡ buf

refusal-Lost :
    (chan : Channel) (env : Env) (buf : Buffer) (may_block : Bool) (reread begin : ℕ) (e : Error)
    (buf' : Buffer)
    → env.timestamp ≢ clock_eio
    → refusal chan buf may_block reread begin ≡ some (failed e buf')
    → Lost chan env may_block buf e buf'
unfolding refusal
refusal-Lost chan env buf may_block reread begin eio buf' live h = inr (live, ground arith)
refusal-Lost chan env buf may_block reread begin _ buf' live h = ground arith

reserve_in_new-Lost :
    (chan : Channel) (env : Env) (buf : Buffer) (may_block full old_end : Bool) (begin : ℕ)
    (e : Error) (buf' : Buffer)
    → reserve_in_new chan env buf full old_end begin ≡ failed e buf'
    → Lost chan env may_block buf e buf'
unfolding reserve_in_new
reserve_in_new-Lost chan env buf may_block full old_end begin enospc buf' h = ground arith
reserve_in_new-Lost chan env buf may_block full old_end begin _ buf' h = ground arith

reserve_switch-Lost :
    (chan : Channel) (env : Env) (buf : Buffer) (may_block : Bool) (reread : ℕ)
    (full old_end : Bool) (e : Error) (buf' : Buffer)
    → env.timestamp ≢ clock_eio
    → reserve_switch chan env buf may_block reread full old_end ≡ failed e buf'
    → Lost chan env may_block buf e buf'
unfolding reserve_switch
reserve_switch-Lost chan env buf may_block reread full old_end e buf' live h =
    let begin = switch_begin chan buf old_end in
    elim (Option-cases (refusal chan buf may_block reread begin)) [
      | inl go ↦
          reserve_in_new-Lost chan env buf may_block full old_end begin e buf'
            (rw (go, reserve_switch) at h)
      | inr (pass, stop) ↦
          refusal-Lost chan env buf may_block reread begin e buf' live
            (stop ∙ ap some (rw (stop, reserve_switch) at h))
    ]

try_reserve_slow-failed_cases :
    (chan : Channel) (env : Env) (may_block : Bool) (reread : ℕ) (buf : Buffer) (e : Error)
    (buf' : Buffer)
    → try_reserve_slow chan env may_block reread buf ≡ failed e buf'
    → let full = env.full_timestamp || last_timestamp_overflow chan.config buf env.timestamp in
      let switched = reserve_switch chan env buf may_block reread full in
      ((e ≡ eio) × (env.timestamp ≡ clock_eio) × (buf' ≡ buf))
      ⊎ ((env.timestamp ≢ clock_eio)
          × ((switched false ≡ failed e buf') ⊎ (switched true ≡ failed e buf')))
unfolding try_reserve_slow
try_reserve_slow-failed_cases chan env may_block reread buf e buf' h = ground arith

-- A pass of the slow path that fails changes one thing at most: the lost record is counted as
-- `records_lost_full` for -ENOBUFS (in discard mode and without blocking only), as
-- `records_lost_big` for -ENOSPC, as `records_lost_wrap` for an -EIO where the clock works, and not
-- at all for an -EIO where it does not and for a commit counter out of bounds.
pub try_reserve_slow-Lost :
    (chan : Channel) (env : Env) (may_block : Bool) (reread : ℕ) (buf : Buffer) (e : Error)
    (buf' : Buffer)
    → try_reserve_slow chan env may_block reread buf ≡ failed e buf'
    → Lost chan env may_block buf e buf'
try_reserve_slow-Lost chan env may_block reread buf e buf' h =
    elim (try_reserve_slow-failed_cases chan env may_block reread buf e buf' h) [
      | inl (is, clock, same) ↦ rw is (inl (clock, same))
      | inr (live, inl s) ↦ reserve_switch-Lost chan env buf may_block reread _ false e buf' live s
      | inr (live, inr s) ↦ reserve_switch-Lost chan env buf may_block reread _ true e buf' live s
    ]
