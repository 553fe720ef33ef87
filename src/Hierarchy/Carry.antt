-- ===== src/Hierarchy/Carry.antt =====
-- When a wheel has turned and the wheel above ticks: the arithmetic of the last lines of
-- taskio_wheel_timer_tick in src/wheel.c, at the tables of src/platform/linux/runtime.c.
use native.Mathlib.Nat.{div-add-mod', div-div-eq-div-mul, mod-lt, mul-mod_left}
use taskio.Prelude.{
  ℕ, zero, suc, ◌+◌, ◌*◌, ◌/◌, ◌%◌, ◌≤◌, ◌<◌, ◌≡◌, ◌≢◌, sym, ap, ◌∙◌, subst, arith, dec_le,
}
use taskio.Wheel.{Timer}
use taskio.Hierarchy.{wheel_levels, resolutions, lengths}
use taskio.Hierarchy.Levels.{horizon, level, resolutions-suc}
use taskio.Hierarchy.Slots.{div-suc_hit, div-suc_miss, slot_next}
use taskio.Hierarchy.Placement.{InSlot}
use taskio.Hierarchy.Drain.{InHand}

-- The time t + 1 is a step of wheel `i`.
module _ (t i : ℕ) (hi : i < wheel_levels) (hit : (t + 1) % resolutions i ≡ 0) where
  pub step_hit : (t + 1) / resolutions i ≡ t / resolutions i + 1
  step_hit = div-suc_hit ((level i hi).step_pos) t hit

  pub step_time : (t / resolutions i + 1) * resolutions i ≡ t + 1
  step_time = rw (← step_hit) (omega (arith, div-add-mod' (t + 1) (resolutions i)))

  -- What stands in the slot of the step is due within it.
  pub InSlot-InHand :
      (x : Timer)
      → InSlot i (t / resolutions i) ((t / resolutions i + 1) % lengths i) x
      → InHand t i x
  InSlot-InHand x s =
      let r = resolutions i in
      let q : x.expiry_time / r ≡ t / r + 1 =
        slot_next (lengths i) (t / r) (x.expiry_time / r) ((level i hi).size_pos) s.ahead s.near
          s.slot in
      let e = div-add-mod' x.expiry_time r in
      let start : x.expiry_time / r * r ≡ t + 1 = ap (λ (n : ℕ). n * r) q ∙ step_time in
      record {
        not_past = omega (arith, e, start);
        within = omega (arith, e, start, mod-lt x.expiry_time ((level i hi).step_pos));
      }

  -- What stands in another slot is not passed.
  pub InSlot-step :
      (j : ℕ) (x : Timer)
      → j ≢ (t / resolutions i + 1) % lengths i
      → InSlot i (t / resolutions i) j x
      → InSlot i ((t + 1) / resolutions i) j x
  InSlot-step j x ne s =
      let r = resolutions i in
      let other : x.expiry_time / r ≢ t / r + 1 =
        λ e. ne (sym s.slot ∙ ap (λ (n : ℕ). n % lengths i) e) in
      record {
        slot = s.slot;
        ahead = rw step_hit (omega (arith, s.ahead, other));
        near = rw step_hit (omega (arith, s.near));
      }

  -- At slot 0 the time is a step of the wheel above, which exists.
  pub carry :
      t + 1 < horizon
      → (t / resolutions i + 1) % lengths i ≡ 0
      → (suc i < wheel_levels) × ((t + 1) % resolutions (suc i) ≡ 0)
  carry lt e = elim (dec_le (suc (suc i)) wheel_levels) [
    | yes hs ↦
        let turns = (t / resolutions i + 1) / lengths i in
        let whole : turns * lengths i ≡ t / resolutions i + 1 =
          omega (arith, div-add-mod' (t / resolutions i + 1) (lengths i), e) in
        let time : t + 1 ≡ turns * (resolutions i * lengths i) =
          omega (arith, step_time, ap (λ (n : ℕ). n * resolutions i) whole) in
        (hs, rw (resolutions-suc i hs, time) (mul-mod_left turns (resolutions i * lengths i)))
    | no top ↦
        let last : i ≡ 7 = omega arith in
        let time = rw last at step_time in
        let turned = rw last at e in absurd (omega (arith, time, turned))
  ]

  -- At another slot no step of the wheel above is passed.
  pub no_carry :
      suc i < wheel_levels
      → (t / resolutions i + 1) % lengths i ≢ 0
      → (t + 1) / resolutions (suc i) ≡ t / resolutions (suc i)
  no_carry hs ne =
      let r = resolutions i in
      let s = lengths i in
      rw
        (
          resolutions-suc i hs,
          ← div-div-eq-div-mul (t + 1) r s,
          ← div-div-eq-div-mul t r s,
          step_hit,
        )
        (div-suc_miss ((level i hi).size_pos) (t / r) ne)

-- A step that one wheel has not passed, no wheel above has.
pub no_carry_above :
    (t n : ℕ)
    → (t + 1) / resolutions n ≡ t / resolutions n
    → (k : ℕ) → n ≤ k
    → k < wheel_levels
    → (t + 1) / resolutions k ≡ t / resolutions k
no_carry_above t n e zero le lt =
    let z : n ≡ 0 = omega arith in
    subst (λ (m : ℕ). (t + 1) / resolutions m ≡ t / resolutions m) z e
no_carry_above t n e (suc k) le lt = elim (dec_le n k) [
  | yes below ↦
      let r = resolutions k in
      let s = lengths k in
      rw (resolutions-suc k lt, ← div-div-eq-div-mul (t + 1) r s, ← div-div-eq-div-mul t r s)
        (ap (λ (m : ℕ). m / s) (no_carry_above t n e k below (omega arith)))
  | no above ↦
      let here : n ≡ suc k = omega arith in
      subst (λ (m : ℕ). (t + 1) / resolutions m ≡ t / resolutions m) here e
]
