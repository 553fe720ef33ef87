-- ===== src/EventLoop/Worker/Sole.antt =====
-- The timers of a worker (src/platform/linux/runtime.c) that has a single one.
use taskio.Prelude.{
  ℕ, ◌+◌, ◌<◌, ◌≤◌, ◌≡◌, ◌∙◌, ap, true, false, [], ◌∷◌, arith, leb, le→leb, lt→leb, done,
}
use taskio.Wheel.{Timer, TimerHandle}
use taskio.Hierarchy.{Timers, run_expirations}
use taskio.Hierarchy.Levels.{horizon}
use taskio.Hierarchy.Weight.{same, one_if}
use taskio.Hierarchy.Placement.{Inv}
use taskio.Hierarchy.Agenda.{count, pending, run_expirations-Elapsed}
use taskio.Hierarchy.Add.{Scheduled}
use taskio.EventLoop.Worker.Calls.{alone, never}

-- Between ticks at `t`, the only timer that is pending is `x`, and no call is to be made.
pub record Sole (t : ℕ) (g : Timers) (x : Timer) : Type 0 where
  pub inv : Inv t g
  pub calls : g.calls ≡ []
  pub pending_once : (y : Timer) → pending y g ≡ one_if (same y x)

pub Scheduled-Sole :
    (t delay : ℕ) (h : Timers) (x : Timer) (r : Timers × TimerHandle)
    → h.calls ≡ []
    → ((y : Timer) → pending y h ≡ 0)
    → Scheduled t h x delay r
    → Sole t (r.0) x
Scheduled-Sole t delay h x r idle none_pending s = record {
  inv = s.inv;
  calls = s.calls ∙ idle;
  pending_once = λ y. omega (arith, s.pending_one_more y, none_pending y);
}

module _ (t n : ℕ) (g : Timers) (x : Timer) (s : Sole t g x) (lt : t + n < horizon) where
  -- Ticks before the time of the only timer call nothing.
  pub early-Sole :
      t + n < x.expiry_time → (h' : Timers) × (run_expirations n g ≡ done h') × Sole (t + n) h' x
  early-Sole early =
      let e = run_expirations-Elapsed n t g s.inv lt in
      let not_due : leb x.expiry_time (t + n) ≡ false = lt→leb _ _ early in
      (
        e.after,
        e.ran,
        record {
          inv = e.inv;
          calls =
              never e.after.calls
                (λ y. ground (arith, e.called y, ap (count y) s.calls, s.pending_once y, not_due));
          pending_once = λ y. ground (arith, e.kept y, s.pending_once y, not_due);
        },
      )

  -- The ticks by which the only timer is due call it, and nothing else.
  pub sole_timer :
      x.expiry_time ≤ t + n
      → (h' : Timers) × (run_expirations n g ≡ done h')
        × Inv (t + n) h'
        × (h'.calls ≡ x ∷ [])
        × ((y : Timer) → pending y h' ≡ 0)
  sole_timer due =
      let e = run_expirations-Elapsed n t g s.inv lt in
      let is_due : leb x.expiry_time (t + n) ≡ true = le→leb _ _ due in
      (
        e.after,
        e.ran,
        e.inv,
        alone x e.after.calls
            (λ y. ground (arith, e.called y, ap (count y) s.calls, s.pending_once y, is_due)),
        λ y. ground (arith, e.kept y, s.pending_once y, is_due),
      )
