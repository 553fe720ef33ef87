-- ===== src/Hierarchy/Drain.antt =====
-- The loop of taskio_wheel_timer_tick in src/wheel.c over the bucket that it took out: each timer
-- is due and called, or goes to a wheel below.
use mathlib.Core.List.{append-nil, append_assoc}
use taskio.Prelude.{
  ℕ, ◌+◌, ◌-◌, ◌/◌, ◌≤◌, ◌<◌, ◌≡◌, refl, sym, ◌∙◌, inl, inr, true, false, List, [], ◌∷◌, ◌++◌,
  arith, word_limit, ltb, leb, if◌then◌else◌, Bool-cases, All, length, weight, Run, done, ◌>>=◌,
  u64_dec_pos, leb→le, leb→lt, lt→ltb,
}
use taskio.Wheel.{Timer}
use taskio.Hierarchy.{
  wheel_levels, resolutions, Timers, find_wheel, decrease_timer_len, wheel_expiry, expire,
  expire_all,
}
use taskio.Hierarchy.Levels.{horizon}
use taskio.Hierarchy.Weight.{weigh}
use taskio.Hierarchy.Placement.{Wheels, Placed, Wheels-put}
use taskio.Hierarchy.Insert.{
  insert, Placed-insert, weigh-insert, handed-Fits, handed-below, Fits-InSlot,
  add_timer_from-insert,
}

-- The steps that the wheels have passed when the tick at t + 1 has taken buckets of the first `n`.
abbrev pub front : ℕ → ℕ → ℕ → ℕ
front t n k = (if ltb k n then t + 1 else t) / resolutions k

-- The hierarchy while the tick at t + 1 has `left` timers of the wheels below `n` in hand.
pub record Ticking (t n : ℕ) (left : List Timer) (h : Timers) : Type 0 where
  pub wheels : Wheels (λ k. t / resolutions k) h.wheels
  pub placed : Placed (front t n) h.wheels
  pub counted : h.timer_len ≡ weigh (λ _. 1) h.wheels + length left
  pub few : h.timer_len < word_limit
  pub armed : h.armed ≡ ltb 0 h.timer_len

-- A timer in hand at wheel `i`: its time has come, or comes within a step of the wheel.
pub record InHand (t i : ℕ) (x : Timer) : Type 0 where
  pub not_past : t + 1 ≤ x.expiry_time
  pub within : x.expiry_time < t + 1 + resolutions i

abbrev pub OnTime : ℕ → Timer → Type 0
OnTime t x = x.expiry_time ≡ t + 1

-- A due timer: the call, and _wheel_expiry without remaining ticks.
abbrev fired : Timers → Timer → Timers
fired h x = decrease_timer_len (record h { calls = h.calls ++ (x ∷ []) })

module _ (t i : ℕ) (hi : i < wheel_levels) (lt : t < horizon) where
  expire_due :
      (x : Timer) (left : List Timer) (h : Timers)
      → Ticking t (i + 1) (x ∷ left) h
      → leb x.expiry_time (t + 1) ≡ true
      → (expire i (t + 1) h x ≡ done (fired h x)) × Ticking t (i + 1) left (fired h x)
  unfolding expire wheel_expiry decrease_timer_len
  expire_due x left h v due = (
    rw ((v.wheels i hi).expiry_handler, due) refl,
    record {
      wheels = v.wheels;
      placed = v.placed;
      counted = omega (arith, u64_dec_pos h.timer_len, v.counted);
      few = omega (arith, u64_dec_pos h.timer_len, v.counted, v.few);
      armed = ground (arith, u64_dec_pos h.timer_len);
    },
  )

  expire_later :
      (x : Timer) (left : List Timer) (h : Timers)
      → Ticking t (i + 1) (x ∷ left) h
      → InHand t i x
      → leb x.expiry_time (t + 1) ≡ false
      → let k = find_wheel (x.expiry_time - (t + 1)) in
        (expire i (t + 1) h x ≡ done (insert h k x)) × Ticking t (i + 1) left (insert h k x)
  unfolding expire wheel_expiry
  expire_later x left h v s later =
      let late = leb→lt x.expiry_time (t + 1) later in
      let k = find_wheel (x.expiry_time - (t + 1)) in
      let f = handed-Fits (t + 1) x i hi late s.within in
      let below = handed-below (t + 1) x i hi late s.within in
      (
        rw ((v.wheels i hi).expiry_handler, later)
            (add_timer_from-insert t h v.wheels lt x i hi late s.within),
        record {
          wheels = Wheels-put (λ m. t / resolutions m) h.wheels k _ _ v.wheels;
          placed =
              Placed-insert (front t (i + 1)) h k x f.in_range v.placed
                (rw (lt→ltb k (i + 1) (omega arith)) (Fits-InSlot (t + 1) k x late f));
          counted = omega (arith, weigh-insert (λ _. 1) h k x f.in_range, v.counted);
          few = v.few;
          armed = v.armed;
        },
      )

-- The bucket has been worked through: `fired` are the timers that were called, all of them due, and
-- the others are in the wheels again.
pub record Drained (t n : ℕ) (h : Timers) (xs : List Timer) (r : Run Timers) : Type 0 where
  pub after : Timers
  pub fired : List Timer
  pub ran : r ≡ done after
  pub ticking : Ticking t n [] after
  pub calls : after.calls ≡ h.calls ++ fired
  pub on_time : All (OnTime t) fired
  pub conserved :
      (w : Timer → ℕ) → weigh w after.wheels + weight w fired ≡ weigh w h.wheels + weight w xs

module _ (t i : ℕ) (hi : i < wheel_levels) (lt : t < horizon) where
  drained_due :
      (x : Timer) (xs : List Timer) (h : Timers)
      → OnTime t x
      → expire i (t + 1) h x ≡ done (fired h x)
      → Drained t (i + 1) (fired h x) xs (expire_all i (t + 1) xs (fired h x))
      → Drained t (i + 1) h (x ∷ xs) (expire_all i (t + 1) (x ∷ xs) h)
  unfolding expire_all decrease_timer_len
  drained_due x xs h due ran d = record {
    after = d.after;
    fired = x ∷ d.fired;
    ran = rw (ran, ◌>>=◌) d.ran;
    ticking = d.ticking;
    calls = d.calls ∙ append_assoc h.calls (x ∷ []) d.fired;
    on_time = (due, d.on_time);
    conserved = λ w. omega (arith, d.conserved w);
  }

  drained_later :
      (x : Timer) (xs : List Timer) (h : Timers) (k : ℕ)
      → k < wheel_levels
      → expire i (t + 1) h x ≡ done (insert h k x)
      → Drained t (i + 1) (insert h k x) xs (expire_all i (t + 1) xs (insert h k x))
      → Drained t (i + 1) h (x ∷ xs) (expire_all i (t + 1) (x ∷ xs) h)
  unfolding expire_all
  drained_later x xs h k hk ran d = record {
    after = d.after;
    fired = d.fired;
    ran = rw (ran, ◌>>=◌) d.ran;
    ticking = d.ticking;
    calls = d.calls;
    on_time = d.on_time;
    conserved = λ w. omega (arith, d.conserved w, weigh-insert w h k x hk);
  }

  pub expire_all-Drained :
      (xs : List Timer) (h : Timers)
      → Ticking t (i + 1) xs h
      → All (InHand t i) xs
      → Drained t (i + 1) h xs (expire_all i (t + 1) xs h)
  unfolding expire_all
  expire_all-Drained [] h v s = record {
    after = h;
    fired = [];
    ran = refl;
    ticking = v;
    calls = sym (append-nil h.calls);
    on_time = tt;
    conserved = λ w. refl;
  }
  expire_all-Drained (x ∷ xs) h v (s, rest) = elim (Bool-cases (leb x.expiry_time (t + 1))) [
    | inl due ↦
        let (ran, v') = expire_due t i hi lt x xs h v due in
        drained_due x xs h (omega (arith, leb→le x.expiry_time (t + 1) due, s.not_past)) ran
          (expire_all-Drained xs (fired h x) v' rest)
    | inr later ↦
        let k = find_wheel (x.expiry_time - (t + 1)) in
        let (ran, v') = expire_later t i hi lt x xs h v s later in
        let late = leb→lt x.expiry_time (t + 1) later in
        drained_later x xs h k ((handed-Fits (t + 1) x i hi late s.within).in_range) ran
          (expire_all-Drained xs (insert h k x) v' rest)
  ]
