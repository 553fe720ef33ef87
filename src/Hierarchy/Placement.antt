-- ===== src/Hierarchy/Placement.antt =====
-- Where the timers of the hierarchy stand (src/wheel.c, src/platform/linux/runtime.c): each in the
-- slot of its expiry, less than a turn ahead of what its wheel has passed.
use taskio.Prelude.{
  ℕ, ◌+◌, ◌/◌, ◌%◌, ◌≤◌, ◌<◌, ◌≡◌, subst, ◌&&◌, true, List, arith, word_limit, ltb, ◌==◌,
  if◌then◌else◌, update, All, Bool-cases, inl, inr,
}
use taskio.Wheel.{Timer, Wheel, put_bucket}
use taskio.Hierarchy.{wheel_levels, resolutions, lengths, Timers}
use taskio.Hierarchy.Weight.{weigh}

-- Wheel `i` as _wheel_setup made it, after `ticks` ticks.
pub record IsWheel (i ticks : ℕ) (w : Wheel) : Type 0 where
  pub tick : w.tick ≡ ticks
  pub id : w.id ≡ i
  pub resolution : w.resolution ≡ resolutions i
  pub wheel_size : w.wheel_size ≡ lengths i
  pub loop_handler : w.loop_handler ≡ true
  pub expiry_handler : w.expiry_handler ≡ true

abbrev pub Wheels : (ℕ → ℕ) → (ℕ → Wheel) → Type 0
Wheels ticks ws = (i : ℕ) → i < wheel_levels → IsWheel i (ticks i) (ws i)

-- The timer stands in bucket `j` of wheel `i`, which has passed the step `c`.
pub record InSlot (i c j : ℕ) (x : Timer) : Type 0 where
  pub slot : x.expiry_time / resolutions i % lengths i ≡ j
  pub ahead : c < x.expiry_time / resolutions i
  pub near : x.expiry_time / resolutions i ≤ c + lengths i

abbrev pub Placed : (ℕ → ℕ) → (ℕ → Wheel) → Type 0
Placed c ws =
    (i : ℕ)
    → i < wheel_levels
    → (j : ℕ) → j < lengths i
    → All (InSlot i (c i) j) ((ws i).timer_buckets j)

-- The invariant of the hierarchy between two ticks, `t` milliseconds after its setup.
pub record Inv (t : ℕ) (h : Timers) : Type 0 where
  pub wheels : Wheels (λ i. t / resolutions i) h.wheels
  pub placed : Placed (λ i. t / resolutions i) h.wheels
  pub counted : h.timer_len ≡ weigh (λ _. 1) h.wheels
  pub few : h.timer_len < word_limit
  pub armed : h.armed ≡ ltb 0 h.timer_len

pub bucket-put :
    (ws : ℕ → Wheel) (i j k l : ℕ) (timers : List Timer)
    → (update ws i (put_bucket (ws i) j timers) k).timer_buckets l
      ≡ (if (i == k) && (j == l) then timers else (ws k).timer_buckets l)
bucket-put ws i j k l timers = ground arith

-- Another content in one bucket, of timers that belong there.
pub Placed-put :
    (c : ℕ → ℕ) (ws : ℕ → Wheel) (i j : ℕ) (timers : List Timer)
    → Placed c ws
    → All (InSlot i (c i) j) timers
    → Placed c (update ws i (put_bucket (ws i) j timers))
Placed-put c ws i j timers p s k hk l hl =
    rw (bucket-put ws i j k l timers) (elim (Bool-cases ((i == k) && (j == l))) [
      | inl e ↦
          let ik : i ≡ k = ground arith in
          let jl : j ≡ l = ground arith in
          rw e (
            subst (λ m. All (InSlot m (c m) l) timers) ik
              (subst (λ m. All (InSlot i (c i) m) timers) jl s))
      | inr e ↦ rw e (p k hk l hl)
    ])

-- The fields of the wheels that no bucket changes.
pub Wheels-put :
    (ticks : ℕ → ℕ) (ws : ℕ → Wheel) (i j : ℕ) (timers : List Timer)
    → Wheels ticks ws
    → Wheels ticks (update ws i (put_bucket (ws i) j timers))
Wheels-put ticks ws i j timers h k hk = let v = h k hk in ground arith
