-- ===== src/Hierarchy/Abort.antt =====
-- A timer is taken off before its time: taskio_runtime_timer_abort and taskio_runtime_timer_fire in
-- src/platform/linux/runtime_ext.c. Both look for it on the wheel for the time that is left.
use native.Mathlib.Nat.{div-mul-le_self, div-le_self}
use mathlib.Core.List.{append-nil}
use taskio.Prelude.{
  ℕ, ◌+◌, ◌-◌, ◌*◌, ◌/◌, ◌<◌, ◌≡◌, ◌≢◌, refl, ap, ◌∙◌, List, [], ◌∷◌, ◌++◌, arith, word_limit,
  update, All, weight, u64_dec_pos, lt→leb, some,
}
use taskio.Wheel.{
  Timer, TimerHandle, Wheel, put_bucket, wheel_time, find_bucket, remove_from, timer_fire,
  timer_abort,
}
use taskio.Wheel.Remove.{
  without, found, remove_if-abort, remove_if-fire, weight-without, All-without, found-hit,
}
use taskio.Hierarchy.{
  resolutions, Timers, after_wheel, find_wheel, decrease_timer_len, handle_level,
  runtime_timer_fire, runtime_timer_abort,
}
use taskio.Hierarchy.Levels.{horizon, Fits, find_wheel-Fits}
use taskio.Hierarchy.Weight.{weigh, weigh-put, same, one_if}
use taskio.Hierarchy.Placement.{Placed, InSlot, Inv, Wheels-put, Placed-put}
use taskio.Hierarchy.Insert.{slot_of, slot_of-lt, wheel_time_lem, find_bucket_lem}
use taskio.Hierarchy.Agenda.{count, pending}

-- The bucket that is searched for a handle at time `t`.
abbrev pub searched_level : ℕ → TimerHandle → ℕ
searched_level t handle = find_wheel (handle.expiry_time - t)

abbrev pub searched : ℕ → Timers → TimerHandle → List Timer
searched t h handle =
    let k = searched_level t handle in (h.wheels k).timer_buckets (slot_of k handle.expiry_time)

abbrev pub removed : ℕ → Timers → TimerHandle → ℕ → Wheel
removed t h handle =
    let k = searched_level t handle in
    update h.wheels k (
      put_bucket (h.wheels k) (slot_of k handle.expiry_time)
        (without handle.id (searched t h handle)))

module _ (t : ℕ) (h : Timers) (v : Inv t h) (lt : t < horizon) (handle : TimerHandle)
    (late : t < handle.expiry_time) (near : handle.expiry_time < t + horizon) where
  abbrev k : ℕ
  k = searched_level t handle

  fits : Fits k (handle.expiry_time - t)
  fits = find_wheel-Fits (handle.expiry_time - t) (omega arith) (omega arith)

  small : (i : ℕ) → t / resolutions i * resolutions i < word_limit
  small i = omega (arith, div-mul-le_self t (resolutions i))

  time_lem : wheel_time (h.wheels 0) ≡ t
  time_lem = wheel_time_lem (v.wheels 0 (omega arith)) (small 0) ∙ omega arith

  level_lem : handle_level h handle ≡ k
  unfolding handle_level
  level_lem = rw time_lem

  bucket_lem : find_bucket (h.wheels k) handle.expiry_time ≡ some (slot_of k handle.expiry_time)
  bucket_lem =
      find_bucket_lem (v.wheels k fits.in_range) (small k) handle.expiry_time fits.in_range
        (omega (arith, div-mul-le_self t (resolutions k)))
        (omega (arith, div-le_self handle.expiry_time (resolutions k)))

  abbrev left : Wheel
  left =
      put_bucket (h.wheels k) (slot_of k handle.expiry_time)
        (without handle.id (searched t h handle))

  timer_abort_lem : timer_abort (h.wheels k) handle ≡ (left, [])
  unfolding timer_abort remove_from
  timer_abort_lem = rw (bucket_lem, timer_abort, remove_if-abort handle (searched t h handle) [])

  timer_fire_lem : timer_fire (h.wheels k) handle ≡ (left, found handle.id (searched t h handle))
  unfolding timer_fire remove_from
  timer_fire_lem = rw (bucket_lem, timer_fire, remove_if-fire handle (searched t h handle) [])

  pub abort_lem :
      runtime_timer_abort h handle ≡ decrease_timer_len (record h { wheels = removed t h handle })
  unfolding runtime_timer_abort
  abort_lem =
      rw (time_lem, lt→leb _ _ late)
        (ap (λ (i : ℕ). decrease_timer_len (after_wheel h i (timer_abort (h.wheels i) handle)))
            level_lem
          ∙ ap (λ (r : Wheel × List Timer). decrease_timer_len (after_wheel h k r)) timer_abort_lem
          ∙ rw (append-nil h.calls))

  pub fire_lem :
      runtime_timer_fire h handle
      ≡ decrease_timer_len (record h {
        wheels = removed t h handle;
        calls = h.calls ++ found handle.id (searched t h handle);
      })
  unfolding runtime_timer_fire
  fire_lem =
      rw (time_lem, lt→leb _ _ late)
        (ap (λ (i : ℕ). decrease_timer_len (after_wheel h i (timer_fire (h.wheels i) handle)))
            level_lem
          ∙ ap (λ (r : Wheel × List Timer). decrease_timer_len (after_wheel h k r)) timer_fire_lem)

  removed-weigh :
      (w : Timer → ℕ)
      → weigh w (removed t h handle) + weight w (found handle.id (searched t h handle))
        ≡ weigh w h.wheels
  removed-weigh w =
      let j = slot_of k handle.expiry_time in
      omega (
        arith,
        weigh-put w h.wheels k j (without handle.id (searched t h handle)) fits.in_range
            (slot_of-lt k handle.expiry_time fits.in_range),
        weight-without w handle.id (searched t h handle),
      )

  removed-Placed : Placed (λ i. t / resolutions i) (removed t h handle)
  removed-Placed =
      let j = slot_of k handle.expiry_time in
      Placed-put (λ i. t / resolutions i) h.wheels k j _ v.placed
        (All-without (InSlot k (t / resolutions k) j) handle.id (searched t h handle)
          (v.placed k fits.in_range j (slot_of-lt k handle.expiry_time fits.in_range)))

  -- The hierarchy without a timer that was found, once it is counted off.
  removed-Inv :
      (x : Timer) (calls : List Timer)
      → found handle.id (searched t h handle) ≡ x ∷ []
      → Inv t (decrease_timer_len (record h { wheels = removed t h handle; calls = calls }))
  unfolding decrease_timer_len
  removed-Inv x calls hit =
      let one : weight (λ _. 1) (found handle.id (searched t h handle)) ≡ 1 = rw hit refl in
      let counted = removed-weigh (λ _. 1) in
      let dec = u64_dec_pos h.timer_len (omega (arith, one, counted, v.counted)) v.few in
      record {
        wheels = Wheels-put (λ i. t / resolutions i) h.wheels k _ _ v.wheels;
        placed = removed-Placed;
        counted = omega (arith, one, counted, v.counted, dec);
        few = omega (arith, dec, v.few);
        armed = ground (arith, dec, v.armed);
      }

  removed-pending :
      (x y : Timer)
      → found handle.id (searched t h handle) ≡ x ∷ []
      → weigh (λ z. one_if (same y z)) (removed t h handle) + one_if (same y x) ≡ pending y h
  removed-pending x y hit =
      let one : count y (found handle.id (searched t h handle)) ≡ one_if (same y x) =
        rw hit (omega arith) in
      omega (arith, one, removed-weigh (λ z. one_if (same y z)))

  pub same_weight :
      (w : Timer → ℕ)
      → found handle.id (searched t h handle) ≡ []
      → weigh w (removed t h handle) ≡ weigh w h.wheels
  same_weight w nothing =
      let none_of : weight w (found handle.id (searched t h handle)) ≡ 0 = rw nothing refl in
      omega (arith, none_of, removed-weigh w)

  module _ (x : Timer) (before after : List Timer)
      (here : searched t h handle ≡ before ++ (x ∷ after)) (id : x.id ≡ handle.id)
      (first : All (λ y. y.id ≢ handle.id) before) where
    hit : found handle.id (searched t h handle) ≡ x ∷ []
    hit = rw here (found-hit handle.id before after x first id)

    -- An abort before the time takes the first timer of the id off the agenda if it is in the
    -- bucket for the time that is left; then nothing else changes on the agenda, no handler is
    -- called, and the invariant holds.
    pub abort_found :
        let h' = runtime_timer_abort h handle in
        Inv t h'
        × ((y : Timer) → pending y h' + one_if (same y x) ≡ pending y h)
        × (h'.calls ≡ h.calls)
    unfolding decrease_timer_len
    abort_found = rw abort_lem (removed-Inv x h.calls hit, λ y. removed-pending x y hit, refl)

    -- Firing it early does the same, and calls its handler.
    pub fire_found :
        let h' = runtime_timer_fire h handle in
        Inv t h'
        × ((y : Timer) → pending y h' + one_if (same y x) ≡ pending y h)
        × (h'.calls ≡ h.calls ++ (x ∷ []))
    unfolding decrease_timer_len
    fire_found =
        rw fire_lem (removed-Inv x _ hit, λ y. removed-pending x y hit, ap (◌++◌ h.calls) hit)
