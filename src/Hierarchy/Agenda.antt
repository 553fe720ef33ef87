-- ===== src/Hierarchy/Agenda.antt =====
-- What the hierarchy of src/wheel.c and src/platform/linux/ promises: an agenda of pending timers,
-- each called at its time. The ticks of the event loop refine it.
use mathlib.Core.Path.{fun_ext}
use taskio.Prelude.{
  [], ℕ, zero, suc, ◌+◌, ◌/◌, ◌≤◌, ◌<◌, ◌≡◌, refl, ap, subst, List, ◌++◌, arith, leb, if◌then◌else◌,
  All, weight, weight-append, weight-zero, Run, done, ◌>>=◌,
}
use taskio.Wheel.{Timer}
use taskio.Hierarchy.{resolutions, Timers, tick_timers, run_expirations}
use taskio.Hierarchy.Levels.{horizon, level}
use taskio.Hierarchy.Slots.{div_mono}
use taskio.Hierarchy.Weight.{weigh, weigh-zero, same, one_if}
use taskio.Hierarchy.Placement.{IsWheel, InSlot, Inv}
use taskio.Hierarchy.Drain.{front, Ticking, OnTime}
use taskio.Hierarchy.Advance.{counted_from, Ticked}
use taskio.Hierarchy.Tick.{tick_wheel-Ticked}

-- How often a timer is in a list of calls, and in the buckets.
abbrev pub count : Timer → List Timer → ℕ
count x = weight λ y. one_if (same x y)

abbrev pub pending : Timer → Timers → ℕ
pending x h = weigh (λ y. one_if (same x y)) h.wheels

-- The specification: a clock, and how often each timer is pending.
pub record Agenda : Type 0 where
  pub now : ℕ
  pub pending_at : Timer → ℕ

abbrev pub view : ℕ → Timers → Agenda
view t h = record { now = t; pending_at = λ x. pending x h }

-- Time goes on by one, and what is due leaves the agenda.
pub spec_tick : Agenda → Agenda
spec_tick a = record {
  now = a.now + 1;
  pending_at = λ x. if leb x.expiry_time (a.now + 1) then 0 else a.pending_at x;
}

-- How often the tick calls a timer.
pub spec_calls : Agenda → Timer → ℕ
spec_calls a x = if leb x.expiry_time (a.now + 1) then a.pending_at x else 0

-- Nothing pending is past.
pub pending_past : (t : ℕ) (h : Timers) (x : Timer) → Inv t h → x.expiry_time ≤ t → pending x h ≡ 0
pending_past t h x v past =
    weigh-zero (λ y. one_if (same x y)) h.wheels
      λ i hi j hj.
        weight-zero (InSlot i (t / resolutions i) j) (λ y. one_if (same x y)) _
          (λ y s. ground (arith, s.ahead, div_mono ((level i hi).step_pos) y.expiry_time t))
          (v.placed i hi j hj)

-- What a refined tick is.
pub record Refined (t : ℕ) (h : Timers) (r : Run Timers) : Type 0 where
  pub after : Timers
  pub fired : List Timer
  pub ran : r ≡ done after
  pub calls : after.calls ≡ h.calls ++ fired
  pub inv : Inv (t + 1) after
  pub agenda : view (t + 1) after ≡ spec_tick (view t h)
  pub called : (x : Timer) → count x fired ≡ spec_calls (view t h) x

-- Before a tick no wheel has passed anything, and no timer is in hand.
pub Inv-Ticking : (t : ℕ) (h : Timers) → Inv t h → Ticking t 0 [] h
Inv-Ticking t h v = record {
  wheels = v.wheels;
  placed = λ k hk j hj.
      let e : t / resolutions k ≡ front t 0 k = ground arith in
      subst (λ c. All (InSlot k c j) ((h.wheels k).timer_buckets j)) e (v.placed k hk j hj);
  counted = omega (arith, v.counted);
  few = v.few;
  armed = v.armed;
}

module _ (t : ℕ) (h : Timers) (v : Inv t h) (lt : t + 1 < horizon) where
  ticked : Ticked t 0 h (tick_timers h)
  unfolding tick_timers
  ticked =
      tick_wheel-Ticked 9 t 0 h (omega arith) (omega arith) lt (omega arith) (Inv-Ticking t h v)

  ticked-Inv : Inv (t + 1) ticked.after
  ticked-Inv = record {
    wheels = λ k hk.
        let e : counted_from t 0 k ≡ (t + 1) / resolutions k = ground arith in
        subst (λ c. IsWheel k c (ticked.after.wheels k)) e (ticked.wheels k hk);
    placed = ticked.placed;
    counted = ticked.counted;
    few = ticked.few;
    armed = ticked.armed;
  }

  fired_late : (x : Timer) → t + 1 < x.expiry_time → count x ticked.fired ≡ 0
  fired_late x late =
      weight-zero (OnTime t) (λ y. one_if (same x y)) ticked.fired (λ y due. ground arith)
        ticked.on_time

  after_pending : (x : Timer) → pending x ticked.after ≡ (spec_tick (view t h)).pending_at x
  unfolding spec_tick
  after_pending x = ground (
    arith,
    ticked.conserved (λ y. one_if (same x y)),
    pending_past (t + 1) ticked.after x ticked-Inv,
    fired_late x,
  )

  fired_count : (x : Timer) → count x ticked.fired ≡ spec_calls (view t h) x
  unfolding spec_calls
  fired_count x = ground (
    arith,
    ticked.conserved (λ y. one_if (same x y)),
    pending_past (t + 1) ticked.after x ticked-Inv,
    fired_late x,
  )

  -- One tick of the wheels, from a state between ticks within four years, does not fault: it does
  -- what the specification says, with the calls in any order, and keeps the invariant.
  pub tick_timers-refines : Refined t h (tick_timers h)
  unfolding spec_tick
  tick_timers-refines = record {
    after = ticked.after;
    fired = ticked.fired;
    ran = ticked.ran;
    calls = ticked.calls;
    inv = ticked-Inv;
    agenda = λ i. record { now = t + 1; pending_at = fun_ext after_pending i };
    called = fired_count;
  }

-- What a number of ticks leaves: every timer that was pending has been called as often as it was
-- pending if its time has come, and is as pending as before if not.
pub record Elapsed (t n : ℕ) (h : Timers) (r : Run Timers) : Type 0 where
  pub after : Timers
  pub ran : r ≡ done after
  pub inv : Inv (t + n) after
  pub called :
      (x : Timer)
      → count x after.calls
        ≡ count x h.calls + (if leb x.expiry_time (t + n) then pending x h else 0)
  pub kept : (x : Timer) → pending x after ≡ (if leb x.expiry_time (t + n) then 0 else pending x h)

module _ (t : ℕ) (h : Timers) (d : Refined t h (tick_timers h)) (x : Timer) where
  Refined-pending : pending x d.after ≡ (if leb x.expiry_time (t + 1) then 0 else pending x h)
  unfolding spec_tick
  Refined-pending = ap (λ (a : Agenda). a.pending_at x) d.agenda

  Refined-count :
      count x d.after.calls
      ≡ count x h.calls + (if leb x.expiry_time (t + 1) then pending x h else 0)
  unfolding spec_calls
  Refined-count =
      let split = weight-append (λ y. one_if (same x y)) h.calls d.fired in
      omega (arith, ap (count x) d.calls, split, d.called x)

Elapsed-step :
    (t n : ℕ) (h : Timers) (d : Refined t h (tick_timers h))
    → Elapsed (t + 1) n d.after (run_expirations n d.after)
    → Elapsed t (suc n) h (run_expirations (suc n) h)
unfolding run_expirations
Elapsed-step t n h d e = record {
  after = e.after;
  ran = rw (d.ran, ◌>>=◌) e.ran;
  inv = subst (λ m. Inv m e.after) (omega arith) e.inv;
  called = λ x. ground (arith, e.called x, Refined-count t h d x, Refined-pending t h d x);
  kept = λ x. ground (arith, e.kept x, Refined-pending t h d x);
}

-- The event loop ticks the wheels once for every millisecond. After any number of ticks within the
-- first four years the wheels have not faulted, every pending timer whose time has come has been
-- called, exactly once, none was called before its time, and the others are still pending.
pub run_expirations-Elapsed :
    (n t : ℕ) (h : Timers) → Inv t h → t + n < horizon → Elapsed t n h (run_expirations n h)
unfolding run_expirations
run_expirations-Elapsed zero t h v lt = record {
  after = h;
  ran = refl;
  inv = subst (λ m. Inv m h) (omega arith) v;
  called = λ x. ground (arith, pending_past t h x v);
  kept = λ x. ground (arith, pending_past t h x v);
}
run_expirations-Elapsed (suc n) t h v lt =
    let d = tick_timers-refines t h v (omega arith) in
    Elapsed-step t n h d (run_expirations-Elapsed n (t + 1) d.after d.inv (omega arith))
