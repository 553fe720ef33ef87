-- ===== src/Hierarchy/Take.antt =====
-- The start of taskio_wheel_timer_tick in src/wheel.c: the bucket of the step is taken out.
use native.Mathlib.Nat.{mod-lt}
use taskio.Prelude.{
  ℕ, ◌+◌, ◌/◌, ◌%◌, ◌<◌, ◌≡◌, ◌≢◌, subst, inl, inr, false, ◌&&◌, List, [], arith, ◌==◌, Bool-cases,
  All, All-mono, weight-one, ℕ_discrete,
}
use taskio.Wheel.{Timer}
use taskio.Hierarchy.{wheel_levels, resolutions, lengths, Timers, take_bucket}
use taskio.Hierarchy.Levels.{level}
use taskio.Hierarchy.Weight.{weigh-put}
use taskio.Hierarchy.Placement.{InSlot, Placed, Wheels-put, bucket-put}
use taskio.Hierarchy.Drain.{front, Ticking, InHand}
use taskio.Hierarchy.Carry.{InSlot-InHand, InSlot-step}

module _ (t i : ℕ) (h : Timers) (hi : i < wheel_levels) (hit : (t + 1) % resolutions i ≡ 0)
    (v : Ticking t i [] h) where
  abbrev pub index : ℕ
  index = (t / resolutions i + 1) % lengths i

  abbrev pub bucket : List Timer
  bucket = (h.wheels i).timer_buckets index

  front_self : front t i i ≡ t / resolutions i
  front_self = ground arith

  pub index-lt : index < lengths i
  index-lt = mod-lt (t / resolutions i + 1) ((level i hi).size_pos)

  pub bucket-InHand : All (InHand t i) bucket
  bucket-InHand =
      All-mono (InSlot i (front t i i) index) (InHand t i) bucket
        (λ x s. InSlot-InHand t i hi hit x (rw front_self at s)) (v.placed i hi index index-lt)

  -- The timers of the other slots of the wheel are ahead of the step, too.
  other_slot :
      (l : ℕ)
      → (index == l) ≡ false
      → l < lengths i
      → All (InSlot i (front t (i + 1) i) l) ((h.wheels i).timer_buckets l)
  other_slot l ne hl =
      let new : front t (i + 1) i ≡ (t + 1) / resolutions i = ground arith in
      let other : l ≢ index = ground arith in
      All-mono (InSlot i (front t i i) l) (InSlot i (front t (i + 1) i) l)
        ((h.wheels i).timer_buckets l)
        (λ x s. rw new (InSlot-step t i hi hit l x other (rw front_self at s))) (v.placed i hi l hl)

  other_wheel :
      (k l : ℕ)
      → i ≢ k
      → All (InSlot k (front t i k) l) ((h.wheels k).timer_buckets l)
      → All (InSlot k (front t (i + 1) k) l) ((h.wheels k).timer_buckets l)
  other_wheel k l ne =
      let e : front t i k ≡ front t (i + 1) k = ground arith in
      subst (λ c. All (InSlot k c l) ((h.wheels k).timer_buckets l)) e

  take_bucket-Placed : Placed (front t (i + 1)) (take_bucket i index h).wheels
  take_bucket-Placed k hk l hl =
      rw (bucket-put h.wheels i index k l []) (elim (Bool-cases ((i == k) && (index == l))) [
        | inl e ↦ rw e tt
        | inr e ↦ rw e (elim (ℕ_discrete i k) [
          | yes ik ↦
              subst
                (λ m.
                  l < lengths m
                  → All (InSlot m (front t (i + 1) m) l) ((h.wheels m).timer_buckets l))
                ik (other_slot l (ground arith)) hl
          | no ne ↦ other_wheel k l ne (v.placed k hk l hl)
        ])
      ])

  pub take_bucket-Ticking : Ticking t (i + 1) bucket (take_bucket i index h)
  take_bucket-Ticking = record {
    wheels = Wheels-put (λ m. t / resolutions m) h.wheels i _ _ v.wheels;
    placed = take_bucket-Placed;
    counted =
        omega
          (arith, v.counted, weight-one bucket, weigh-put (λ _. 1) h.wheels i index [] hi index-lt);
    few = v.few;
    armed = v.armed;
  }
