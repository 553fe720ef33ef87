-- ===== src/Hierarchy/Horizon.antt =====
-- The end of the fourth year: the last wheel has turned, and _wheel_loop in
-- src/platform/linux/runtime.c ticks a wheel that its array does not have.
use taskio.Prelude.{
  ℕ, zero, suc, ◌+◌, ◌/◌, ◌%◌, ◌<◌, ◌≡◌, refl, sym, subst, [], arith, ◌==◌, fault, out_of_bounds,
  true, ◌>>=◌, dec_lt,
}
use taskio.Hierarchy.{wheel_levels, resolutions, lengths, Timers, tick_wheel, tick_timers}
use taskio.Hierarchy.Levels.{horizon, level}
use taskio.Hierarchy.Placement.{Inv}
use taskio.Hierarchy.Drain.{Ticking}
use taskio.Hierarchy.Carry.{step_hit}
use taskio.Hierarchy.Take.{index}
use taskio.Hierarchy.Tick.{drained, tick_wheel_lem}
use taskio.Hierarchy.Agenda.{Inv-Ticking}

above_last :
    (fuel : ℕ) (h : Timers) → 0 < fuel → tick_wheel fuel wheel_levels h ≡ fault out_of_bounds
unfolding tick_wheel
above_last zero h pos = elim pos [ ]
above_last (suc fuel) h pos = refl

module _ (t : ℕ) (last : t + 1 ≡ horizon) where
  hit_last : (i : ℕ) → i < wheel_levels → (t + 1) % resolutions i ≡ 0
  hit_last i hi = rw last (level i hi).step_divides

  turn_last : (i : ℕ) → i < wheel_levels → (t / resolutions i + 1) % lengths i ≡ 0
  turn_last i hi = rw (← step_hit t i hi (hit_last i hi), last) (level i hi).turn_divides

  -- Every wheel turns.
  tick_wheel_last :
      (fuel i : ℕ) (h : Timers)
      → i < wheel_levels
      → wheel_levels < fuel + i
      → Ticking t i [] h
      → tick_wheel fuel i h ≡ fault out_of_bounds
  tick_wheel_last zero i h hi enough v = absurd (omega arith)
  tick_wheel_last (suc fuel) i h hi enough v =
      let hit = hit_last i hi in
      let within : t < horizon = omega arith in
      let d = drained t i h hi within hit v in
      let turned : (index t i h hi hit v == 0) ≡ true = rw (turn_last i hi) refl in
      let up : suc i ≡ i + 1 = omega arith in
      let next : tick_wheel fuel (suc i) d.after ≡ fault out_of_bounds =
        elim (dec_lt (suc i) wheel_levels) [
          | yes hs ↦
              tick_wheel_last fuel (suc i) d.after hs (omega arith)
                (subst (λ n. Ticking t n [] d.after) (sym up) d.ticking)
          | no top ↦
              let eight : wheel_levels ≡ suc i = omega arith in
              subst (λ n. tick_wheel fuel n d.after ≡ fault out_of_bounds) eight
                (above_last fuel d.after (omega arith))
        ] in
      rw (tick_wheel_lem t i h hi within hit v fuel, turned, ← up, next, ◌>>=◌) refl

-- The tick that ends the fourth year of ticks accesses the array of wheels out of its bounds, from
-- every state between ticks, whatever timers there are.
pub tick_timers_last :
    (t : ℕ) (h : Timers) → Inv t h → t + 1 ≡ horizon → tick_timers h ≡ fault out_of_bounds
unfolding tick_timers
tick_timers_last t h v last =
    tick_wheel_last t last 9 0 h (omega arith) (omega arith) (Inv-Ticking t h v)
