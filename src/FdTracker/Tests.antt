-- ===== src/FdTracker/Tests.antt =====
-- A tracker of eight descriptors, of which the fourth is the tracer's.
use lttng_ust.Common.{ℕ, ◌≡◌, ◌==◌, ◌-◌, refl, true, [], ◌∷◌, Option, some, if◌then◌else◌}
use lttng_ust.FdTracker.{
  Tracker, closed, ebadf, with_bit, dup_tries, dup_std_fd, lttng_ust_add_fd_to_tracker,
  lttng_ust_safe_close_fd, lttng_ust_safe_closefrom_fd,
}
use lttng_ust.FdTracker.Spares.{others, safe_closefrom_fd-others, add_fd-spared}

abbrev tracker : Tracker
tracker = record { nest = 1; max_fd = 8; is_set = λ fd. fd == 4 }

abbrev application : Tracker
application = record tracker { nest = 0 }

-- Standard input was closed: the new descriptor is 0, its first duplicate 1 and the second 5.
abbrev dup : ℕ → Option ℕ
dup i = if i == 0 then some 1 else some 5

add_fd-standard : lttng_ust_add_fd_to_tracker dup tracker 0 ≡ some (5, with_bit 5 true tracker)
unfolding lttng_ust_add_fd_to_tracker dup_std_fd dup_tries
add_fd-standard = refl

dup_std_fd-closes : dup_std_fd tracker dup 0 ≡ (some 5, 1 ∷ 0 ∷ [])
unfolding dup_std_fd dup_tries
dup_std_fd-closes = refl

add_fd-spared_example :
    lttng_ust_safe_close_fd (λ fd. closed) (record (with_bit 5 true tracker) { nest = 0 }) 5
    ≡ (ebadf, [])
add_fd-spared_example = add_fd-spared dup (λ fd. closed) tracker 0 add_fd-standard

safe_closefrom_fd-others_example :
    ((lttng_ust_safe_closefrom_fd (λ fd. closed) application 3).0 ≡ closed)
    × ((lttng_ust_safe_closefrom_fd (λ fd. closed) application 3).1 ≡ others application (8 - 3) 3)
safe_closefrom_fd-others_example =
    safe_closefrom_fd-others (λ fd. closed) application (λ fd e. cc e) 3

others-application : others application 5 3 ≡ 3 ∷ 5 ∷ 6 ∷ 7 ∷ []
others-application = refl
