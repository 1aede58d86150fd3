-- ===== src/FdTracker/Spares.antt =====
-- Which descriptors the close functions pass on.
use lttng_ust.Common.{
  ℕ, zero, suc, ◌+◌, ◌-◌, ◌<◌, ◌≤◌, ◌⊎◌, ◌≡◌, ◌≢◌, refl, ap, Bool, true, false, not, ◌||◌, List, [],
  ◌∷◌, ◌==◌, if◌then◌else◌, ltb, Option, some, none, arith,
}
use lttng_ust.FdTracker.{
  is_std, dup_std_fd, Tracker, Close, closed, ebadf, failed, spared, and_go_on, close_fds,
  lttng_ust_safe_closefrom_fd, lttng_ust_safe_close_fd, lttng_ust_add_fd_to_tracker, track,
  with_bit,
}

-- The descriptors among `n` from `fd` on that do not belong to the tracer; all of them, for the tracer.
abbrev pub others : Tracker → ℕ → ℕ → List ℕ
others t zero fd = []
others t (suc n) fd =
    let rest = others t n (suc fd) in
    if t.nest == 0 then if t.is_set fd then rest else fd ∷ rest else fd ∷ rest

-- The test of the loop, for a descriptor below the limit.
spared-others :
    (t : Tracker) (fd : ℕ) (rest : List ℕ)
    → fd < t.max_fd
    → (if spared t fd then rest else fd ∷ rest)
      ≡ (if t.nest == 0 then if t.is_set fd then rest else fd ∷ rest else fd ∷ rest)
spared-others t fd rest h = ground arith

if-pair :
    (b : Bool) {x y : Close × List ℕ} {k l : List ℕ}
    → (x.0 ≡ closed) × (x.1 ≡ k)
    → (y.0 ≡ closed) × (y.1 ≡ l)
    → ((if b then x else y).0 ≡ closed) × ((if b then x else y).1 ≡ (if b then k else l))
if-pair true p q = p
if-pair false p q = q

go_on :
    (fd : ℕ) (r : Close) (rest : Close × List ℕ) (l : List ℕ)
    → r ≢ failed
    → (rest.0 ≡ closed) × (rest.1 ≡ l)
    → ((and_go_on fd r rest).0 ≡ closed) × ((and_go_on fd r rest).1 ≡ fd ∷ l)
go_on fd closed rest l h p = (p.0, ap (λ x. fd ∷ x) p.1)
go_on fd ebadf rest l h p = (p.0, ap (λ x. fd ∷ x) p.1)
go_on fd failed rest l h p = absurd (h refl)

module _ (close_cb : ℕ → Close) (t : Tracker) (works : (fd : ℕ) → close_cb fd ≢ failed) where
  close_fds-others :
      (n fd : ℕ)
      → fd + n ≤ t.max_fd ⊎ n ≡ 0
      → ((close_fds close_cb t n fd).0 ≡ closed) × ((close_fds close_cb t n fd).1 ≡ others t n fd)
  unfolding close_fds
  close_fds-others zero fd h = (refl, refl)
  close_fds-others (suc n) fd h =
      let ih = close_fds-others n (suc fd) (ground arith) in
      rw (← spared-others t fd (others t n (suc fd)) (ground arith)) (
        if-pair (spared t fd) ih (
          go_on fd (close_cb fd) (close_fds close_cb t n (suc fd)) (others t n (suc fd)) (works fd)
            ih))

  -- Where a close fails with `EBADF` at most, lttng_ust_safe_closefrom_fd succeeds, and passes on the
  -- descriptors from the given one to the largest, in order, less those that the tracer owns (all of
  -- them, where the tracer itself calls).
  pub safe_closefrom_fd-others :
      (lowfd : ℕ)
      → ((lttng_ust_safe_closefrom_fd close_cb t lowfd).0 ≡ closed)
        × ((lttng_ust_safe_closefrom_fd close_cb t lowfd).1 ≡ others t (t.max_fd - lowfd) lowfd)
  unfolding lttng_ust_safe_closefrom_fd
  safe_closefrom_fd-others lowfd = close_fds-others (t.max_fd - lowfd) lowfd (ground arith)

if-none {ℓ} :
    {A : Type ℓ} (b : Bool) (o : Option A) {y : A}
    → (if b then none else o) ≡ some y
    → (b ≡ false) × (o ≡ some y)
if-none true o e = ground arith
if-none false o e = (refl, e)

or-false : (a b : Bool) → a || b ≡ false → (a ≡ false) × (b ≡ false)
or-false true b e = ground arith
or-false false b e = (refl, e)

some-pair :
    {a b : ℕ} {t u : Tracker}
    → ◌≡◌ {A = Option (ℕ × Tracker)} (some (a, t)) (some (b, u))
    → (a ≡ b) × (t ≡ u)
some-pair e = ground arith

-- The descriptor that was added, and the tracker after it.
track-some :
    (t : Tracker) (o : Option ℕ) {fd : ℕ} {u : Tracker}
    → track t o ≡ some (fd, u)
    → (with_bit fd true t ≡ u) × (fd < t.max_fd)
track-some t none e = ground arith
track-some t (some fd) e =
    let (tests, is) = if-none (not (ltb fd t.max_fd) || t.is_set fd) _ e in
    let (same, tracked) = some-pair is in
    let valid : fd < t.max_fd = ground (arith, (or-false _ (t.is_set fd) tests).0) in
    rw (← same) (tracked, valid)

spared-with_bit :
    (t : Tracker) (fd : ℕ)
    → fd < t.max_fd
    → spared (record (with_bit fd true t) { nest = 0 }) fd ≡ true
spared-with_bit t fd h = ground arith

if_true {ℓ} : {A : Type ℓ} (b : Bool) (x y : A) → b ≡ true → (if b then x else y) ≡ x
if_true true x y e = refl
if_true false x y e = ground arith

-- A close of a descriptor that was added, by another than the tracer, fails with `EBADF` and is not
-- passed on.
pub add_fd-spared :
    (dup : ℕ → Option ℕ) (close_cb : ℕ → Close) (t : Tracker) (fd : ℕ) {new : ℕ} {u : Tracker}
    → lttng_ust_add_fd_to_tracker dup t fd ≡ some (new, u)
    → lttng_ust_safe_close_fd close_cb (record u { nest = 0 }) new ≡ (ebadf, [])
unfolding lttng_ust_add_fd_to_tracker lttng_ust_safe_close_fd
add_fd-spared dup close_cb t fd {new} {u} e =
    let (inside, added) = if-none (t.nest == 0) _ e in
    let (is, valid) =
      track-some t (if is_std t fd then (dup_std_fd t dup fd).0 else some fd) added in
    rw (← is) (
      if_true (spared (record (with_bit new true t) { nest = 0 }) new) _ _
        (spared-with_bit t new valid))
