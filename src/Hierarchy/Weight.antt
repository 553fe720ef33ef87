-- ===== src/Hierarchy/Weight.antt =====
-- The timers in the buckets of all wheels (src/wheel.h), weighed: their number, or how often one
-- timer is among them.
use taskio.Prelude.{
  ℕ, ◌+◌, ◌<◌, ◌≡◌, Bool, ◌&&◌, List, arith, ◌==◌, if◌then◌else◌, update, weight, sum_below,
  sum_below-eq, sum_below-change, sum_below-zero, ap,
}
use taskio.Wheel.{Timer, Wheel, put_bucket}
use taskio.Hierarchy.{wheel_levels, lengths}

-- The same timer, by all its fields.
abbrev pub same : Timer → Timer → Bool
same a b =
    (a.id == b.id)
    && (a.expiry_time == b.expiry_time)
    && ((a.handler == b.handler) && (a.payload == b.payload))

abbrev pub one_if : Bool → ℕ
one_if b = if b then 1 else 0

module _ (w : Timer → ℕ) where
  pub wheel_weight : ℕ → Wheel → ℕ
  wheel_weight i x = sum_below (lengths i) (λ j. weight w (x.timer_buckets j))

  pub weigh : (ℕ → Wheel) → ℕ
  weigh ws = sum_below wheel_levels (λ i. wheel_weight i (ws i))

  -- Two families of wheels with the same buckets weigh the same.
  pub weigh-eq :
      (ws vs : ℕ → Wheel)
      → ((i : ℕ) → i < wheel_levels → (ws i).timer_buckets ≡ (vs i).timer_buckets)
      → weigh ws ≡ weigh vs
  unfolding weigh wheel_weight
  weigh-eq ws vs h =
      sum_below-eq wheel_levels _ _
        λ i lt. ap (λ (b : ℕ → List Timer). sum_below (lengths i) (λ j. weight w (b j))) (h i lt)

  wheel_weight-put :
      (i j : ℕ) (x : Wheel) (timers : List Timer)
      → j < lengths i
      → wheel_weight i (put_bucket x j timers) + weight w (x.timer_buckets j)
        ≡ wheel_weight i x + weight w timers
  unfolding wheel_weight
  wheel_weight-put i j x timers lt =
      let new = λ (k : ℕ). weight w ((put_bucket x j timers).timer_buckets k) in
      let hit : new j ≡ weight w timers = ground arith in
      omega (
        arith,
        hit,
        sum_below-change (lengths i) (λ k. weight w (x.timer_buckets k)) new j
            (λ k _ ne. ground arith) lt,
      )

  -- Another content in one bucket.
  pub weigh-put :
      (ws : ℕ → Wheel) (i j : ℕ) (timers : List Timer)
      → i < wheel_levels
      → j < lengths i
      → weigh (update ws i (put_bucket (ws i) j timers)) + weight w ((ws i).timer_buckets j)
        ≡ weigh ws + weight w timers
  unfolding weigh
  weigh-put ws i j timers hi hj =
      let vs = update ws i (put_bucket (ws i) j timers) in
      let new = λ (k : ℕ). wheel_weight k (vs k) in
      let hit : new i ≡ wheel_weight i (put_bucket (ws i) j timers) = ground arith in
      omega (
        arith,
        hit,
        wheel_weight-put i j (ws i) timers hj,
        sum_below-change wheel_levels (λ k. wheel_weight k (ws k)) new i (λ k _ ne. ground arith)
            hi,
      )

  -- No weight in any bucket.
  pub weigh-zero :
      (ws : ℕ → Wheel)
      → ((i : ℕ)
          → i < wheel_levels
          → (j : ℕ) → j < lengths i
          → weight w ((ws i).timer_buckets j) ≡ 0)
      → weigh ws ≡ 0
  unfolding weigh wheel_weight
  weigh-zero ws h =
      sum_below-zero wheel_levels _ λ i hi. sum_below-zero (lengths i) _ λ j hj. h i hi j hj
