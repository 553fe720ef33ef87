-- ===== src/Hierarchy/Add.antt =====
-- A timer is added: taskio_runtime_add_timer in src/platform/linux/runtime_ext.c over
-- taskio_wheel_timer_add in src/wheel.c.
use native.Mathlib.Nat.{div-mul-le_self, div-le_self, mul-div_left, div-add-mod', mod-lt}
use mathlib.Core.Path.{fun_ext}
use mathlib.Core.List.{append-nil}
use taskio.Prelude.{
  ℕ, zero, suc, ◌+◌, ◌-◌, ◌*◌, ◌/◌, ◌%◌, ◌≤◌, ◌<◌, ◌≡◌, refl, ap, true, false, not, ◌||◌, [], ◌∷◌,
  ◌++◌, arith, word_limit, leb, ◌==◌, update, done, u64, u64_small, le→leb,
}
use taskio.Vec.Contents.{push_last}
use taskio.Wheel.{
  Timer, TimerHandle, Wheel, put_bucket, timer_valid, new_timer, wheel_add, no_handle,
}
use taskio.Hierarchy.{
  resolutions, lengths, Timers, find_wheel, increase_timer_len, add_timer, run_expirations,
}
use taskio.Hierarchy.Levels.{horizon, level, Fits, find_wheel-Fits}
use taskio.Hierarchy.Slots.{step_above, step_within}
use taskio.Hierarchy.Weight.{same, one_if}
use taskio.Hierarchy.Placement.{Inv, InSlot, Wheels-put}
use taskio.Hierarchy.Insert.{
  slot_of, insert, wheel_time_lem, wheel_add_from_lem, Placed-insert, weigh-insert,
}
use taskio.Hierarchy.Agenda.{count, pending, run_expirations-Elapsed}

-- The timer that an addition at time `t` makes: its expiry counts from the last tick of the wheel
-- for the delay.
abbrev pub added_timer : ℕ → Timers → ℕ → ℕ → ℕ → Timer
added_timer t h delay handler payload =
    let r = resolutions (find_wheel delay) in
    record {
      id = h.next_timer_id;
      expiry_time = t / r * r + delay;
      handler = handler;
      payload = payload;
    }

abbrev pub handle_of : Timer → TimerHandle
handle_of x = record { id = x.id; expiry_time = x.expiry_time }

-- A timer has been added at time `t`.
pub record Scheduled (t : ℕ) (h : Timers) (x : Timer) (delay : ℕ) (r : Timers × TimerHandle)
    : Type 0 where
  pub handle : r.1 ≡ handle_of x
  pub inv : Inv t r.0
  pub pending_one_more : (y : Timer) → pending y r.0 ≡ pending y h + one_if (same y x)
  pub calls : r.0.calls ≡ h.calls
  pub next_id : r.0.next_timer_id ≡ u64 (h.next_timer_id + 1)
  pub to_come : t < x.expiry_time
  pub expiry : x.expiry_time + t % resolutions (find_wheel delay) ≡ t + delay

module _ (t : ℕ) (h : Timers) (v : Inv t h) (lt : t < horizon) (delay handler payload : ℕ)
    (pos : 0 < delay) (short : delay < horizon) where
  abbrev k : ℕ
  k = find_wheel delay

  abbrev x : Timer
  x = added_timer t h delay handler payload

  fits : Fits k delay
  fits = find_wheel-Fits delay pos short

  small : t / resolutions k * resolutions k < word_limit
  small = omega (arith, div-mul-le_self t (resolutions k))

  new_timer_lem : new_timer (h.wheels k) h.next_timer_id delay handler payload ≡ x
  unfolding new_timer
  new_timer_lem =
      let e = t / resolutions k * resolutions k + delay in
      rw (wheel_time_lem (v.wheels k fits.in_range) small)
        (rw (u64_small e (omega (arith, div-mul-le_self t (resolutions k)))))

  expiry-InSlot : InSlot k (t / resolutions k) (slot_of k x.expiry_time) x
  expiry-InSlot =
      let r = resolutions k in
      let pos_r = (level k fits.in_range).step_pos in
      let whole : t / r * r / r ≡ t / r = mul-div_left (t / r) pos_r in
      record {
        slot = refl;
        ahead = omega (arith, whole, step_above pos_r (t / r * r) delay fits.reaches);
        near = omega (arith, whole, step_within pos_r (lengths k) (t / r * r) delay fits.within);
      }

  wheel_add_lem : wheel_add (h.wheels k) h.next_timer_id delay handler payload ≡ record {
    wheel =
        put_bucket
          (h.wheels k)
          (slot_of k x.expiry_time)
          (push_last ((h.wheels k).timer_buckets (slot_of k x.expiry_time)) x);
    next_timer_id = u64 (h.next_timer_id + 1);
    calls = [];
    handle = handle_of x;
  }
  unfolding wheel_add
  wheel_add_lem =
      let nonzero : (delay == 0) ≡ false = ground arith in
      let e = x.expiry_time in
      rw
        (
          nonzero,
          new_timer_lem,
          wheel_add_from_lem (v.wheels k fits.in_range) small x fits.in_range (omega arith)
              (omega (arith, div-le_self e (resolutions k), div-mul-le_self t (resolutions k))),
        )
        refl

  -- With a delay within four years the timer is in the wheel for the delay, nothing is called, and
  -- the handle names it.
  pub add_timer_lem : add_timer h delay handler payload ≡ (
    increase_timer_len (record (insert h k x) { next_timer_id = u64 (h.next_timer_id + 1) }),
    handle_of x,
  )
  unfolding add_timer timer_valid
  add_timer_lem =
      let nonzero : (x.expiry_time == 0) ≡ false = ground arith in
      rw (wheel_add_lem, nonzero, append-nil h.calls)
        (let valid : (not (h.next_timer_id == 0) || true) ≡ true = ground arith in rw valid)

  to_come : t < x.expiry_time
  to_come =
      let pos_r = (level k fits.in_range).step_pos in
      omega (arith, div-add-mod' t (resolutions k), mod-lt t pos_r, fits.reaches)

  after_add : Timers
  after_add = record (insert h k x) { next_timer_id = u64 (h.next_timer_id + 1) }

  add-Inv : h.timer_len + 1 < word_limit → Inv t (increase_timer_len after_add)
  unfolding increase_timer_len after_add
  add-Inv few = record {
    wheels = Wheels-put (λ i. t / resolutions i) h.wheels k _ _ v.wheels;
    placed = Placed-insert (λ i. t / resolutions i) h k x fits.in_range v.placed expiry-InSlot;
    counted = omega (
      arith,
      u64_small (h.timer_len + 1) few,
      weigh-insert (λ _. 1) h k x fits.in_range,
      v.counted,
    );
    few = rw (u64_small (h.timer_len + 1) few) few;
    armed = ground (arith, u64_small (h.timer_len + 1) few, v.armed);
  }

  -- A sleep of less than four years from a state between ticks puts one timer on the agenda, to be
  -- called at the time of the last tick of its wheel plus the delay, and calls nothing.
  pub add_timer-Scheduled :
      h.timer_len + 1 < word_limit → Scheduled t h x delay (add_timer h delay handler payload)
  unfolding increase_timer_len after_add
  add_timer-Scheduled few = rw add_timer_lem (record {
    handle = refl;
    inv = add-Inv few;
    pending_one_more = λ y. weigh-insert (λ z. one_if (same y z)) h k x fits.in_range;
    calls = refl;
    next_id = refl;
    to_come = to_come;
    expiry = omega (arith, div-add-mod' t (resolutions k));
  })

update_same : (ws : ℕ → Wheel) (j : ℕ) → update ws 0 (ws 0) j ≡ ws j
update_same ws zero = refl
update_same ws (suc j) = ground arith

-- A delay of 0 makes no timer: the handler is called at once and the handle is not valid.
pub add_timer_now :
    (h : Timers) (handler payload : ℕ)
    → let call : Timer = record { id = 0; expiry_time = 0; handler = handler; payload = payload } in
      add_timer h 0 handler payload ≡ (record h { calls = h.calls ++ (call ∷ []) }, no_handle)
unfolding add_timer wheel_add timer_valid find_wheel
add_timer_now h handler payload = rw (fun_ext (update_same h.wheels)) refl

same_self : (x : Timer) → one_if (same x x) ≡ 1
same_self x = ground arith

-- The expiry counts from the wheel's last tick and not from the time of the call, so where that
-- tick is past the timer is called before its delay has passed, by the part of the wheel's step that
-- had passed.
pub add_timer_early :
    (t : ℕ) (h : Timers) (delay handler payload : ℕ)
    → Inv t h
    → t + delay < horizon
    → 0 < delay
    → h.timer_len + 1 < word_limit
    → 0 < t % resolutions (find_wheel delay)
    → let past = t % resolutions (find_wheel delay) in
      let x = added_timer t h delay handler payload in
      (delay - past < delay)
      × (g : Timers) × (run_expirations (delay - past) (add_timer h delay handler payload).0
          ≡ done g)
      × (count x h.calls + 1 ≤ count x g.calls)
add_timer_early t h delay handler payload v lt pos few late =
    let d = add_timer-Scheduled t h v (omega arith) delay handler payload pos (omega arith) few in
    let x = added_timer t h delay handler payload in
    let past = t % resolutions (find_wheel delay) in
    let h' = (add_timer h delay handler payload).0 in
    let e = run_expirations-Elapsed (delay - past) t h' d.inv (omega arith) in
    let due : leb x.expiry_time (t + (delay - past)) ≡ true =
      le→leb _ _ (omega (arith, d.expiry, d.to_come)) in
    (
      omega arith,
      e.after,
      e.ran,
      ground (arith, e.called x, due, d.pending_one_more x, same_self x, ap (count x) d.calls),
    )
