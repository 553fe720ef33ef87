-- ===== src/Hierarchy/Tick.antt =====
-- A tick of the hierarchy: taskio_wheel_timer_tick in src/wheel.c with the handlers _wheel_loop and
-- _wheel_expiry of src/platform/linux/runtime.c.
use mathlib.Core.List.{append-nil, append_assoc}
use native.Mathlib.Nat.{div-le_self}
use taskio.Prelude.{
  ℕ, zero, suc, ◌+◌, ◌*◌, ◌/◌, ◌%◌, ◌≤◌, ◌<◌, ◌≡◌, ◌≢◌, refl, sym, subst, inl, inr, List, [], ◌++◌,
  arith, ◌==◌, if◌then◌else◌, Bool-cases, All, All-append, weight-append, Run, done, ◌>>=◌, u64,
  u64_small, lt→ltb,
}
use taskio.Wheel.{Timer}
use taskio.Hierarchy.{
  wheel_levels, resolutions, Timers, expire_all, advance, take_bucket, tick_wheel,
}
use taskio.Hierarchy.Levels.{horizon}
use taskio.Hierarchy.Weight.{weigh-put}
use taskio.Hierarchy.Placement.{IsWheel, InSlot}
use taskio.Hierarchy.Drain.{front, Ticking, OnTime, Drained, expire_all-Drained}
use taskio.Hierarchy.Advance.{counted_from, Ticked, weigh-advance, Placed-advance, Wheels-advance}
use taskio.Hierarchy.Take.{index, index-lt, bucket, bucket-InHand, take_bucket-Ticking}
use taskio.Hierarchy.Carry.{step_time, carry, no_carry, no_carry_above}

-- The end of the tick of wheel `i`: what its timers left, `d`, and what the wheels above did.
module _ (t i : ℕ) (h : Timers) (hi : i < wheel_levels) (lt : t < horizon)
    (hit : (t + 1) % resolutions i ≡ 0) (v : Ticking t i [] h) where
  abbrev pub timers : List Timer
  timers = bucket t i h hi hit v

  abbrev pub taken : Timers
  taken = take_bucket i (index t i h hi hit v) h

  pub drained : Drained t (i + 1) taken timers (expire_all i (t + 1) timers taken)
  drained =
      expire_all-Drained t i hi lt timers taken (take_bucket-Ticking t i h hi hit v)
        (bucket-InHand t i h hi hit v)

  -- _wheel_loop, or no call of it
  abbrev pub above : ℕ → Timers → Run Timers
  above fuel g = if index t i h hi hit v == 0 then tick_wheel fuel (i + 1) g else done g

  tick_count : u64 ((h.wheels i).tick + 1) ≡ t / resolutions i + 1
  tick_count =
      rw (v.wheels i hi).tick
        (u64_small (t / resolutions i + 1) (omega (arith, div-le_self t (resolutions i))))

  tick_index : u64 ((h.wheels i).tick + 1) % (h.wheels i).wheel_size ≡ index t i h hi hit v
  tick_index = rw (tick_count, (v.wheels i hi).wheel_size)

  tick_time : u64 (u64 ((h.wheels i).tick + 1) * (h.wheels i).resolution) ≡ t + 1
  tick_time =
      rw (tick_count, (v.wheels i hi).resolution, step_time t i hi hit)
        (u64_small (t + 1) (omega arith))

  pub tick_wheel_lem :
      (fuel : ℕ)
      → tick_wheel (suc fuel) i h ≡ (above fuel drained.after >>= λ g. done (advance i g))
  unfolding tick_wheel
  tick_wheel_lem fuel =
      rw (lt→ltb i 8 hi, tick_time, tick_index, tick_count, drained.ran, ◌>>=◌)
        (rw (
          (drained.ticking.wheels i hi).loop_handler,
          (drained.ticking.wheels i hi).id,
          lt→ltb 0 (t / resolutions i + 1) (omega arith),
        ))

  -- With no loop the wheels above stand where the tick leaves them.
  settled :
      index t i h hi hit v ≢ 0
      → (k : ℕ) → k < wheel_levels
      → suc i ≤ k
      → (t + 1) / resolutions k ≡ t / resolutions k
  settled ne k hk le = no_carry_above t (suc i) (no_carry t i hi hit (omega arith) ne) k le hk

  no_loop-Ticked : index t i h hi hit v ≢ 0 → Ticked t (suc i) drained.after (done drained.after)
  no_loop-Ticked ne = record {
    after = drained.after;
    fired = [];
    ran = refl;
    wheels = λ k hk.
        let e : t / resolutions k ≡ counted_from t (suc i) k = ground (arith, settled ne k hk) in
        subst (λ c. IsWheel k c (drained.after.wheels k)) e (drained.ticking.wheels k hk);
    placed = λ k hk l hl.
        let e : front t (i + 1) k ≡ (t + 1) / resolutions k = ground (arith, settled ne k hk) in
        subst (λ c. All (InSlot k c l) ((drained.after.wheels k).timer_buckets l)) e
          (drained.ticking.placed k hk l hl);
    counted = omega (arith, drained.ticking.counted);
    few = drained.ticking.few;
    armed = drained.ticking.armed;
    calls = sym (append-nil drained.after.calls);
    on_time = tt;
    conserved = λ w. omega arith;
  }

  above-Ticked :
      (fuel : ℕ)
      → t + 1 < horizon
      → ((g : Timers)
          → suc i < wheel_levels
          → (t + 1) % resolutions (suc i) ≡ 0
          → Ticking t (suc i) [] g
          → Ticked t (suc i) g (tick_wheel fuel (suc i) g))
      → Ticked t (suc i) drained.after (above fuel drained.after)
  above-Ticked fuel lt1 ih = elim (Bool-cases (index t i h hi hit v == 0)) [
    | inl turn ↦
        let (hs, hit') = carry t i hi hit lt1 (ground arith) in
        let e : suc i ≡ i + 1 = omega arith in
        rw (turn, ← e)
          (ih drained.after hs hit'
            (subst (λ n. Ticking t n [] drained.after) (sym e) drained.ticking))
    | inr more ↦ rw more (no_loop-Ticked (ground arith))
  ]

  -- The wheel counts its tick.
  advance-Ticked :
      (r : Run Timers)
      → Ticked t (suc i) drained.after r
      → Ticked t i h (r >>= λ g. done (advance i g))
  advance-Ticked r a = record {
    after = advance i a.after;
    fired = drained.fired ++ a.fired;
    ran = rw (a.ran, ◌>>=◌);
    wheels = Wheels-advance t i a.after lt hi hit a.wheels;
    placed = Placed-advance (λ k. (t + 1) / resolutions k) a.after i a.placed;
    counted = omega (arith, weigh-advance (λ _. 1) a.after i, a.counted);
    few = a.few;
    armed = a.armed;
    calls = rw (a.calls, drained.calls) (append_assoc h.calls drained.fired a.fired);
    on_time = All-append (OnTime t) drained.fired a.fired drained.on_time a.on_time;
    conserved = λ w. omega (
      arith,
      weigh-advance w a.after i,
      a.conserved w,
      drained.conserved w,
      weight-append w drained.fired a.fired,
      weigh-put w h.wheels i (index t i h hi hit v) [] hi (index-lt t i h hi hit v),
    );
  }

-- The tick of a wheel at a time that is a step of it, once the wheels below have taken theirs.
pub tick_wheel-Ticked :
    (fuel t i : ℕ) (h : Timers)
    → i < wheel_levels
    → wheel_levels ≤ fuel + i
    → t + 1 < horizon
    → (t + 1) % resolutions i ≡ 0
    → Ticking t i [] h
    → Ticked t i h (tick_wheel fuel i h)
tick_wheel-Ticked zero t i h hi enough lt hit v = absurd (omega arith)
tick_wheel-Ticked (suc fuel) t i h hi enough lt hit v =
    let within : t < horizon = omega arith in
    rw (tick_wheel_lem t i h hi within hit v fuel) (
      advance-Ticked t i h hi within hit v _ (
        above-Ticked t i h hi within hit v fuel lt
          λ g hs hit' v'. tick_wheel-Ticked fuel t (suc i) g hs (omega arith) lt hit' v'))
