-- ===== src/Hierarchy/Slots.antt =====
-- Where a time falls on a wheel: the arithmetic of _find_bucket and taskio_wheel_timer_tick in
-- src/wheel.c, over any step `r` and size `s` of a wheel.
use native.Mathlib.Nat.{add-mul-div_right, div-mul-le_self, le-div_iff_mul-le}
use taskio.Prelude.{ℕ, ◌+◌, ◌-◌, ◌*◌, ◌/◌, ◌%◌, ◌≤◌, ◌<◌, ◌≡◌, ap, ◌≢◌, arith}

module _ {r : ℕ} (pos : 0 < r) where
  -- The ticks that remain lead to the step in which the time lies.
  pub remaining_ticks : (c e : ℕ) → c * r ≤ e → c + (e - c * r) / r ≡ e / r
  remaining_ticks c e h =
      omega (arith, add-mul-div_right (e - c * r) c pos, ap (λ (n : ℕ). n / r) split)
    where
      split : e - c * r + c * r ≡ e
      split = omega arith

  pub div_mono : (a b : ℕ) → a ≤ b → a / r ≤ b / r
  div_mono a b h = (le-div_iff_mul-le pos).1 (omega (arith, div-mul-le_self a r))

  pub div-suc_hit : (t : ℕ) → (t + 1) % r ≡ 0 → (t + 1) / r ≡ t / r + 1
  div-suc_hit t h = grind arith

  pub div-suc_miss : (t : ℕ) → (t + 1) % r ≢ 0 → (t + 1) / r ≡ t / r
  div-suc_miss t h = grind arith

  pub step_above : (t d : ℕ) → r ≤ d → t / r < (t + d) / r
  step_above t d h = grind arith

  pub step_within : (s t d : ℕ) → d < r * s → (t + d) / r ≤ t / r + s
  step_within s t d h =
      omega (arith, div_mono (t + d) (t + s * r) (omega arith), add-mul-div_right t s pos)

-- One turn ahead, a slot stands for one step.
pub slot_next : (s c q : ℕ) → 0 < s → c < q → q ≤ c + s → q % s ≡ (c + 1) % s → q ≡ c + 1
slot_next s c q pos above within e = grind arith
