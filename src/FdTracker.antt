-- ===== src/FdTracker.antt =====
-- src/lib/lttng-ust-common/fd-tracker.c: the descriptors that the tracer keeps from being closed by
-- the application. What the system's calls give is a parameter; a run tells the descriptors that it
-- passed to them.
pub mod Spares
mod Tests
use lttng_ust.Common.{
  ℕ, zero, suc, ◌+◌, ◌-◌, Bool, true, false, not, ◌&&◌, ◌||◌, List, [], ◌∷◌, ◌++◌, ◌==◌, leb, ltb,
  if◌then◌else◌, Option, some, none,
}

-- `ust_fd_mutex_nest` of the thread, `lttng_ust_max_fd` and the sets of bits.
pub record Tracker : Type 0 where
  pub nest : ℕ
  pub max_fd : ℕ
  pub is_set : ℕ → Bool

-- `IS_FD_VALID` and `IS_FD_SET`
abbrev pub owned : Tracker → ℕ → Bool
owned t fd = ltb fd t.max_fd && t.is_set fd

-- `IS_FD_STD`
abbrev pub is_std : Tracker → ℕ → Bool
is_std t fd = ltb fd t.max_fd && leb fd 2

-- What a close gives: 0, -1 with `EBADF`, or -1 with another error.
pub data Close : Type 0 where
  closed ebadf failed : Close

-- Three tries at most for a descriptor above 2: what each duplication gives, and the descriptors to
-- close after it. A failed duplication ends it with none closed.
unfoldable pub dup_tries : Tracker → (ℕ → Option ℕ) → ℕ → ℕ → ℕ → List ℕ → Option ℕ × List ℕ
dup_tries t dup zero i fd closing = (none, closing)
dup_tries t dup (suc tries) i fd closing =
    let again = dup_tries t dup tries (i + 1) fd in
    elim (dup i) [
      | none ↦ (none, [])
      | some new ↦
          if is_std t new then again (closing ++ new ∷ []) else (some new, closing ++ fd ∷ [])
    ]

unfoldable pub dup_std_fd : Tracker → (ℕ → Option ℕ) → ℕ → Option ℕ × List ℕ
dup_std_fd t dup fd = dup_tries t dup 3 0 fd []

abbrev pub with_bit : ℕ → Bool → Tracker → Tracker
with_bit fd b t = record t { is_set = λ i. if i == fd then b else t.is_set i }

-- The descriptor set, where it is valid and not set before; otherwise an assertion fails.
abbrev pub track : Tracker → Option ℕ → Option (ℕ × Tracker)
track t none = none
track t (some fd) =
    if not (ltb fd t.max_fd) || t.is_set fd then none else some (fd, with_bit fd true t)

-- `none` is an error or a failed assertion.
unfoldable pub lttng_ust_add_fd_to_tracker : (ℕ → Option ℕ) → Tracker → ℕ → Option (ℕ × Tracker)
lttng_ust_add_fd_to_tracker dup t fd =
    if t.nest == 0 then none else track t (if is_std t fd then (dup_std_fd t dup fd).0 else some fd)

unfoldable pub lttng_ust_delete_fd_from_tracker : Tracker → ℕ → Option Tracker
lttng_ust_delete_fd_from_tracker t fd =
    if t.nest == 0 then none else if owned t fd then some (with_bit fd false t) else none

-- The result, and the descriptors that were passed to `close_cb`.
unfoldable pub lttng_ust_safe_close_fd : (ℕ → Close) → Tracker → ℕ → Close × List ℕ
lttng_ust_safe_close_fd close_cb t fd =
    if t.nest == 0 && owned t fd then (ebadf, []) else (close_cb fd, fd ∷ [])

abbrev pub spared : Tracker → ℕ → Bool
spared t fd = t.nest == 0 && owned t fd

-- A descriptor of a loop: another error than `EBADF` ends it.
abbrev pub and_go_on : ℕ → Close → Close × List ℕ → Close × List ℕ
and_go_on fd failed rest = (failed, fd ∷ [])
and_go_on fd _ rest = (rest.0, fd ∷ rest.1)

-- The loop over `n` descriptors from `fd` on.
unfoldable pub close_fds : (ℕ → Close) → Tracker → ℕ → ℕ → Close × List ℕ
close_fds close_cb t zero fd = (closed, [])
close_fds close_cb t (suc n) fd =
    let rest = close_fds close_cb t n (suc fd) in
    if spared t fd then rest else and_go_on fd (close_cb fd) rest

-- For a descriptor that is not negative.
unfoldable pub lttng_ust_safe_closefrom_fd : (ℕ → Close) → Tracker → ℕ → Close × List ℕ
lttng_ust_safe_closefrom_fd close_cb t lowfd = close_fds close_cb t (t.max_fd - lowfd) lowfd
