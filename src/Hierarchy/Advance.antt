-- ===== src/Hierarchy/Advance.antt =====
-- `wheel_timer->tick += 1`, the end of taskio_wheel_timer_tick in src/wheel.c, and what a tick
-- leaves when it has ended on the wheels from some level on.
use native.Mathlib.Nat.{div-le_self}
use taskio.Prelude.{
  ℕ, suc, ◌+◌, ◌/◌, ◌%◌, ◌<◌, ◌≡◌, subst, List, ◌++◌, arith, word_limit, ltb, if◌then◌else◌, All,
  weight, Run, done, u64_small, ℕ_discrete,
}
use taskio.Wheel.{Timer}
use taskio.Hierarchy.{wheel_levels, resolutions, Timers, advance}
use taskio.Hierarchy.Levels.{horizon}
use taskio.Hierarchy.Weight.{weigh, weigh-eq}
use taskio.Hierarchy.Placement.{IsWheel, Wheels, Placed}
use taskio.Hierarchy.Drain.{OnTime}
use taskio.Hierarchy.Carry.{step_hit}

-- The tick counts when the wheels from `n` on have counted the tick at t + 1.
abbrev pub counted_from : ℕ → ℕ → ℕ → ℕ
counted_from t n k = (if ltb k n then t else t + 1) / resolutions k

-- The tick at t + 1 has ended on the wheels from `n` on.
pub record Ticked (t n : ℕ) (h : Timers) (r : Run Timers) : Type 0 where
  pub after : Timers
  pub fired : List Timer
  pub ran : r ≡ done after
  pub wheels : Wheels (counted_from t n) after.wheels
  pub placed : Placed (λ k. (t + 1) / resolutions k) after.wheels
  pub counted : after.timer_len ≡ weigh (λ _. 1) after.wheels
  pub few : after.timer_len < word_limit
  pub armed : after.armed ≡ ltb 0 after.timer_len
  pub calls : after.calls ≡ h.calls ++ fired
  pub on_time : All (OnTime t) fired
  pub conserved : (w : Timer → ℕ) → weigh w after.wheels + weight w fired ≡ weigh w h.wheels

advance-buckets :
    (g : Timers) (i k : ℕ) → ((advance i g).wheels k).timer_buckets ≡ (g.wheels k).timer_buckets
advance-buckets g i k = elim (ℕ_discrete i k) [
  | yes e ↦
      let self : ((advance i g).wheels i).timer_buckets ≡ (g.wheels i).timer_buckets =
        ground arith in
      subst (λ m. ((advance i g).wheels m).timer_buckets ≡ (g.wheels m).timer_buckets) e self
  | no ne ↦ ground arith
]

pub weigh-advance :
    (w : Timer → ℕ) (g : Timers) (i : ℕ) → weigh w (advance i g).wheels ≡ weigh w g.wheels
weigh-advance w g i = weigh-eq w _ _ λ k _. advance-buckets g i k

pub Placed-advance :
    (c : ℕ → ℕ) (g : Timers) (i : ℕ) → Placed c g.wheels → Placed c (advance i g).wheels
Placed-advance c g i p k hk l hl = rw (advance-buckets g i k) (p k hk l hl)

pub Wheels-advance :
    (t i : ℕ) (g : Timers)
    → t < horizon
    → i < wheel_levels
    → (t + 1) % resolutions i ≡ 0
    → Wheels (counted_from t (suc i)) g.wheels
    → Wheels (counted_from t i) (advance i g).wheels
Wheels-advance t i g lt hi hit v k hk = elim (ℕ_discrete i k) [
  | yes e ↦
      let w = v i hi in
      let before : counted_from t (suc i) i ≡ t / resolutions i = ground arith in
      let after : counted_from t i i ≡ (t + 1) / resolutions i = ground arith in
      let small : t / resolutions i + 1 < word_limit =
        omega (arith, div-le_self t (resolutions i)) in
      let self : IsWheel i (counted_from t i i) ((advance i g).wheels i) =
        ground (arith, step_hit t i hi hit, u64_small (t / resolutions i + 1) small) in
      subst (λ m. IsWheel m (counted_from t i m) ((advance i g).wheels m)) e self
  | no ne ↦
      let same : counted_from t (suc i) k ≡ counted_from t i k = ground arith in
      let w = v k hk in ground arith
]
