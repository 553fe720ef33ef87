-- ===== src/Hierarchy/Insert.antt =====
-- How a timer comes into a bucket: _find_bucket and taskio_wheel_timer_add_from in src/wheel.c, and
-- taskio_runtime_add_timer_from in src/platform/linux/runtime_ext.c when a tick hands a timer down.
use native.Mathlib.Nat.{div-le_self, div-mul-le_self, mod-lt}
use mathlib.Core.List.{append-nil}
use taskio.Prelude.{
  ℕ, ◌+◌, ◌-◌, ◌*◌, ◌/◌, ◌%◌, ◌≤◌, ◌<◌, ◌≡◌, refl, ap, ◌∙◌, subst, true, some, [], ◌∷◌, arith,
  word_limit, update, All-append, weight-append, done, u64_small, lt→leb,
}
use taskio.Vec.Contents.{push_last}
use taskio.Wheel.{Timer, Wheel, put_bucket, wheel_time, find_bucket, wheel_add_from}
use taskio.Hierarchy.{
  wheel_levels, resolutions, lengths, Timers, find_wheel, reschedule_time, add_timer_from,
  after_wheel,
}
use taskio.Hierarchy.Levels.{horizon, level, Fits, find_wheel-Fits, find_wheel-lt}
use taskio.Hierarchy.Slots.{remaining_ticks, step_above, step_within}
use taskio.Hierarchy.Weight.{weigh, weigh-put}
use taskio.Hierarchy.Placement.{IsWheel, Wheels, InSlot, Placed, Placed-put}

-- The bucket of wheel `i` for an expiry.
abbrev pub slot_of : ℕ → ℕ → ℕ
slot_of i e = e / resolutions i % lengths i

pub slot_of-lt : (i e : ℕ) → i < wheel_levels → slot_of i e < lengths i
slot_of-lt i e h = mod-lt (e / resolutions i) ((level i h).size_pos)

module _ {i c : ℕ} {w : Wheel} (v : IsWheel i c w) (small : c * resolutions i < word_limit) where
  pub wheel_time_lem : wheel_time w ≡ c * resolutions i
  unfolding wheel_time
  wheel_time_lem = rw (v.tick, v.resolution) (u64_small (c * resolutions i) small)

  -- For a time to come the bucket is the slot of the time, whatever the wheel's tick.
  pub find_bucket_lem :
      (e : ℕ)
      → i < wheel_levels
      → c * resolutions i < e
      → e / resolutions i < word_limit
      → find_bucket w e ≡ some (slot_of i e)
  unfolding find_bucket
  find_bucket_lem e hi lt fits =
      rw
        (
          wheel_time_lem,
          v.tick,
          v.resolution,
          v.wheel_size,
          lt→leb _ _ lt,
          remaining_ticks ((level i hi).step_pos) c e (omega arith),
          u64_small _ fits,
        )
        refl

  pub wheel_add_from_lem :
      (x : Timer)
      → i < wheel_levels
      → c * resolutions i < x.expiry_time
      → x.expiry_time / resolutions i < word_limit
      → wheel_add_from w x ≡ (
        put_bucket w
            (slot_of i x.expiry_time)
            (push_last (w.timer_buckets (slot_of i x.expiry_time)) x),
        [],
      )
  unfolding wheel_add_from
  wheel_add_from_lem x hi lt fits = rw (find_bucket_lem x.expiry_time hi lt fits, wheel_add_from)

-- The timer at the end of its bucket on wheel `i`.
abbrev pub insert : Timers → ℕ → Timer → Timers
insert h i x = record h {
  wheels = update h.wheels i (
      put_bucket (h.wheels i) (slot_of i x.expiry_time)
        (push_last ((h.wheels i).timer_buckets (slot_of i x.expiry_time)) x));
}

pub Placed-insert :
    (c : ℕ → ℕ) (h : Timers) (i : ℕ) (x : Timer)
    → i < wheel_levels
    → Placed c h.wheels
    → InSlot i (c i) (slot_of i x.expiry_time) x
    → Placed c (insert h i x).wheels
unfolding push_last
Placed-insert c h i x hi p s =
    let j = slot_of i x.expiry_time in
    Placed-put c h.wheels i j _ p (
      All-append (InSlot i (c i) j) ((h.wheels i).timer_buckets j) (x ∷ [])
        (p i hi j (slot_of-lt i x.expiry_time hi)) (s, tt))

pub weigh-insert :
    (w : Timer → ℕ) (h : Timers) (i : ℕ) (x : Timer)
    → i < wheel_levels
    → weigh w (insert h i x).wheels ≡ weigh w h.wheels + w x
unfolding push_last
weigh-insert w h i x hi =
    let j = slot_of i x.expiry_time in
    omega (
      arith,
      weigh-put w h.wheels i j (push_last ((h.wheels i).timer_buckets j) x) hi
          (slot_of-lt i x.expiry_time hi),
      weight-append w ((h.wheels i).timer_buckets j) (x ∷ []),
    )

-- A timer that is not due, with less than a step of wheel `i` left.
module _ (t : ℕ) (x : Timer) (i : ℕ) (hi : i < wheel_levels) (late : t < x.expiry_time)
    (near : x.expiry_time < t + resolutions i) where
  pub handed-Fits : Fits (find_wheel (x.expiry_time - t)) (x.expiry_time - t)
  handed-Fits =
      find_wheel-Fits (x.expiry_time - t) (omega arith) (omega (arith, (level i hi).step_le))

  -- It goes to a wheel below, in a slot ahead of the time.
  pub handed-below : find_wheel (x.expiry_time - t) < i
  handed-below = find_wheel-lt i (x.expiry_time - t) hi (omega arith) (omega arith)

-- A wheel that fits the time left has a slot for the timer.
pub Fits-InSlot :
    (t k : ℕ) (x : Timer)
    → t < x.expiry_time
    → Fits k (x.expiry_time - t)
    → InSlot k (t / resolutions k) (slot_of k x.expiry_time) x
Fits-InSlot t k x late f =
    let d = x.expiry_time - t in
    let e : t + d ≡ x.expiry_time = omega arith in
    let pos = (level k f.in_range).step_pos in
    record {
      slot = refl;
      ahead = subst (λ n. t / resolutions k < n / resolutions k) e (step_above pos t d f.reaches);
      near =
          subst (λ n. n / resolutions k ≤ t / resolutions k + lengths k) e
            (step_within pos (lengths k) t d f.within);
    }

module _ (t : ℕ) (h : Timers) (v : Wheels (λ k. t / resolutions k) h.wheels)
    (lt : t < horizon) where
  ticks_small : (k : ℕ) → t / resolutions k * resolutions k < word_limit
  ticks_small k = omega (arith, div-mul-le_self t (resolutions k))

  pub after_wheel-insert :
      (k : ℕ) (x : Timer)
      → k < wheel_levels
      → t < x.expiry_time
      → x.expiry_time / resolutions k < word_limit
      → after_wheel h k (wheel_add_from (h.wheels k) x) ≡ insert h k x
  after_wheel-insert k x hk above fits =
      ap (after_wheel h k) (
        wheel_add_from_lem (v k hk) (ticks_small k) x hk
          (omega (arith, div-mul-le_self t (resolutions k))) fits)
      ∙ rw (append-nil h.calls)

  pub reschedule_time_lem : reschedule_time h true ≡ t + 1
  unfolding reschedule_time
  reschedule_time_lem =
      rw (wheel_time_lem (v 0 (omega arith)) (ticks_small 0), (v 0 (omega arith)).resolution)
        (omega (arith, u64_small (t / 1 * 1 + 1) (omega arith)))

  -- Between two ticks a timer with time left goes to the wheel for that time.
  pub add_timer_from-insert :
      (x : Timer) (i : ℕ)
      → i < wheel_levels
      → t + 1 < x.expiry_time
      → x.expiry_time < t + 1 + resolutions i
      → add_timer_from h x true ≡ done (insert h (find_wheel (x.expiry_time - (t + 1))) x)
  unfolding add_timer_from
  add_timer_from-insert x i hi late near =
      let k = find_wheel (x.expiry_time - (t + 1)) in
      let fits = handed-Fits (t + 1) x i hi late near in
      rw (reschedule_time_lem, lt→leb _ _ late)
        (ap done (
          after_wheel-insert k x fits.in_range (omega arith)
            (omega (arith, div-le_self x.expiry_time (resolutions k), (level i hi).step_le))))
