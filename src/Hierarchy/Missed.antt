-- ===== src/Hierarchy/Missed.antt =====
-- An abort that misses its timer: taskio_runtime_timer_abort in src/platform/linux/runtime_ext.c
-- looks on the wheel for the time that is left, and a timer stays on the wheel for its whole delay
-- until that wheel ticks.
use taskio.Prelude.{
  ℕ, ◌+◌, ◌-◌, ◌<◌, ◌≡◌, ◌≢◌, refl, false, List, ◌∷◌, ◌++◌, arith, ◌==◌, if◌then◌else◌, All,
  u64_dec, u64_dec-ne,
}
use taskio.Wheel.{Timer, TimerHandle}
use taskio.Wheel.Remove.{found-nil}
use taskio.Hierarchy.{wheel_levels, resolutions, Timers, decrease_timer_len, runtime_timer_abort}
use taskio.Hierarchy.Levels.{horizon, find_wheel-lt}
use taskio.Hierarchy.Weight.{same, one_if}
use taskio.Hierarchy.Placement.{Inv}
use taskio.Hierarchy.Insert.{slot_of}
use taskio.Hierarchy.Agenda.{pending}
use taskio.Hierarchy.Add.{handle_of}
use taskio.Hierarchy.Abort.{searched_level, searched, abort_lem, same_weight}

module _ (t : ℕ) (h : Timers) (v : Inv t h) (lt : t < horizon) (handle : TimerHandle)
    (late : t < handle.expiry_time) (near : handle.expiry_time < t + horizon)
    (none_there : All (λ y. y.id ≢ handle.id) (searched t h handle)) where
  -- If the bucket for the time that is left has no timer of the id, an abort takes nothing off the
  -- agenda, and yet it counts a timer off.
  pub abort_missed :
      let h' = runtime_timer_abort h handle in
      ((y : Timer) → pending y h' ≡ pending y h)
      × (h'.timer_len ≡ u64_dec h.timer_len)
      × (h'.armed ≡ (if h.timer_len == 1 then false else h.armed))
      × (¬ Inv t h')
  unfolding decrease_timer_len
  abort_missed =
      let nothing = found-nil handle.id (searched t h handle) none_there in
      rw (abort_lem t h v lt handle late near) (
        λ y. same_weight t h v lt handle late near (λ z. one_if (same y z)) nothing,
        refl,
        refl,
        λ broken. u64_dec-ne h.timer_len v.few (
            omega (
              arith,
              broken.counted,
              v.counted,
              same_weight t h v lt handle late near (λ _. 1) nothing,
            )),
      )

-- So it is for a timer `x` of wheel `i` with less than a step of that wheel left, if no timer of its
-- id is in the bucket that is searched, on a wheel below: it stays in its bucket, a timer is counted
-- off for it, and the invariant is broken.
pub abort_late :
    (t : ℕ) (h : Timers) (x : Timer) (i : ℕ) (before after : List Timer)
    → Inv t h
    → t < horizon
    → i < wheel_levels
    → t < x.expiry_time
    → x.expiry_time < t + resolutions i
    → x.expiry_time < t + horizon
    → (h.wheels i).timer_buckets (slot_of i x.expiry_time) ≡ before ++ (x ∷ after)
    → All (λ y. y.id ≢ x.id) (searched t h (handle_of x))
    → let h' = runtime_timer_abort h (handle_of x) in
      (searched_level t (handle_of x) < i)
      × ((h'.wheels i).timer_buckets (slot_of i x.expiry_time) ≡ before ++ (x ∷ after))
      × (h'.timer_len ≡ u64_dec h.timer_len)
      × (¬ Inv t h')
unfolding decrease_timer_len
abort_late t h x i before after v lt hi late near within here none_there =
    let below : searched_level t (handle_of x) < i =
      find_wheel-lt i (x.expiry_time - t) hi (omega arith) (omega arith) in
    let aside : (searched_level t (handle_of x) == i) ≡ false = ground arith in
    let missed = abort_missed t h v lt (handle_of x) late within none_there in
    (below, rw (abort_lem t h v lt (handle_of x) late within) (rw aside here), missed.1, missed.3)
