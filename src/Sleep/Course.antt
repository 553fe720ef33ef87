-- ===== src/Sleep/Course.antt =====
-- The course of a sleep (src/common/sleep.c) over the timers of src/platform/linux/.
use taskio.Prelude.{
  ℕ, ◌+◌, ◌-◌, ◌<◌, ◌≤◌, ◌≡◌, ◌∙◌, refl, ap, true, false, none, arith, u64, leb, le→leb, lt→leb,
  word_limit, done,
}
use taskio.Wheel.{Timer, TimerHandle, timer_valid}
use taskio.Hierarchy.{Timers, add_timer, runtime_timer_abort, run_expirations}
use taskio.Hierarchy.Levels.{horizon}
use taskio.Hierarchy.Weight.{same, one_if}
use taskio.Hierarchy.Placement.{Inv}
use taskio.Hierarchy.Agenda.{count, pending, run_expirations-Elapsed}
use taskio.Hierarchy.Add.{added_timer, handle_of, Scheduled, add_timer-Scheduled}
use taskio.Async.{
  pending as suspended, ready, new_future, async_fn, resume, poll, poll1, run_scopes, enter,
  run_body, act, clean,
}
use taskio.Sleep.{
  SleepFuture, sleep_handler, no_timer, sleep, sleep_fn, sleep_cleanup, start_scope, end_scope,
  sleep_future, sleep_resume,
}

-- A sleep with a timer.
abbrev pub asleep : ℕ → ℕ → TimerHandle → SleepFuture
asleep ms waker handle = record {
  await_future = none;
  await_out = none;
  counter = 1;
  env = record { ms = ms; waker = waker; timer = handle };
}

abbrev pub awake : ℕ → ℕ → SleepFuture
awake ms waker = record (asleep ms waker no_timer) { counter = 2 }

module _ (wake : ℕ → Timers → Timers) where
  pub first_poll :
      (waker ms : ℕ) (h : Timers)
      → let r = add_timer h ms sleep_handler waker in
        sleep_resume wake waker (sleep ms) h ≡ done (suspended, asleep ms waker (r.1), r.0)
  unfolding sleep_resume sleep sleep_fn start_scope end_scope new_future resume poll poll1
      run_scopes enter run_body act u64
  first_poll waker ms h = refl

  pub next_poll :
      (waker waker' ms : ℕ) (handle : TimerHandle) (h : Timers)
      → sleep_resume wake waker' (asleep ms waker handle) h ≡ done (ready tt, awake ms waker, h)
  unfolding sleep_resume sleep_fn start_scope end_scope resume poll poll1 run_scopes enter run_body
      act u64
  next_poll waker waker' ms handle h = refl

  pub clean-asleep :
      (waker ms : ℕ) (handle : TimerHandle) (h : Timers)
      → timer_valid handle ≡ true
      → clean (sleep_future wake) (asleep ms waker handle) h
        ≡ done (
          record (asleep ms waker handle) { counter = word_limit - 1 },
          runtime_timer_abort h handle,
        )
  unfolding clean sleep_future async_fn sleep_fn sleep_cleanup poll poll1 run_scopes u64
  clean-asleep waker ms handle h valid = rw valid refl

  pub clean-awake :
      (waker ms : ℕ) (h : Timers)
      → clean (sleep_future wake) (awake ms waker) h
        ≡ done (record (awake ms waker) { counter = word_limit - 1 }, h)
  unfolding clean sleep_future async_fn sleep_fn sleep_cleanup poll poll1 run_scopes u64 timer_valid
  clean-awake waker ms h = refl

module _ (wake : ℕ → Timers → Timers) (waker waker' ms t : ℕ) (h : Timers) where
  abbrev pub its_timer : Timer
  its_timer = added_timer t h ms sleep_handler waker

  abbrev pub its_timers : Timers
  its_timers = (add_timer h ms sleep_handler waker).0

  abbrev pub sleeping : SleepFuture
  sleeping = asleep ms waker (handle_of its_timer)

  -- The course of a sleep that is polled again when its handler has been called.
  pub record Slept : Type 0 where
    pub begins : sleep_resume wake waker (sleep ms) h ≡ done (suspended, sleeping, its_timers)
    pub duration : ℕ
    pub in_time : duration ≤ ms
    pub not_before :
        (n : ℕ)
        → n < duration
        → (g : Timers) × (run_expirations n its_timers ≡ done g)
          × (count its_timer g.calls ≡ count its_timer h.calls)
    pub woken : Timers
    pub ticks : run_expirations duration its_timers ≡ done woken
    pub called : count its_timer woken.calls ≡ count its_timer h.calls + pending its_timer h + 1
    pub gone : pending its_timer woken ≡ 0
    pub ends : sleep_resume wake waker' sleeping woken ≡ done (ready tt, awake ms waker, woken)

  module _ (v : Inv t h) (lt : t + ms < horizon) (pos : 0 < ms)
      (few : h.timer_len + 1 < word_limit) where
    pub scheduled : Scheduled t h its_timer ms (add_timer h ms sleep_handler waker)
    scheduled = add_timer-Scheduled t h v (omega arith) ms sleep_handler waker pos (omega arith) few

    pub begins_lem : sleep_resume wake waker (sleep ms) h ≡ done (suspended, sleeping, its_timers)
    begins_lem =
        first_poll wake waker ms h
        ∙ ap (λ handle. done (suspended, asleep ms waker handle, its_timers)) scheduled.handle

    same_self : (x : Timer) → one_if (same x x) ≡ 1
    same_self x = ground arith

    -- The timers after `n` ticks before the time of the sleep, and at this time.
    waits_lem :
        (n : ℕ)
        → t + n < its_timer.expiry_time
        → (g : Timers) × (run_expirations n its_timers ≡ done g)
          × (count its_timer g.calls ≡ count its_timer h.calls)
    waits_lem n early =
        let x = its_timer in
        let e =
          run_expirations-Elapsed n t its_timers scheduled.inv (omega (arith, scheduled.expiry)) in
        let not_due : leb x.expiry_time (t + n) ≡ false = lt→leb _ _ early in
        let same_calls : count x e.after.calls ≡ count x its_timers.calls + 0 =
          rw not_due at (e.called x) in
        (e.after, e.ran, omega (arith, same_calls, ap (count x) scheduled.calls))

    pub ends_lem :
        (n : ℕ)
        → t + n ≡ its_timer.expiry_time
        → (g : Timers) × (run_expirations n its_timers ≡ done g)
          × (count its_timer g.calls ≡ count its_timer h.calls + pending its_timer h + 1)
          × (pending its_timer g ≡ 0)
    ends_lem n now =
        let x = its_timer in
        let e =
          run_expirations-Elapsed n t its_timers scheduled.inv (omega (arith, scheduled.expiry)) in
        let due : leb x.expiry_time (t + n) ≡ true = le→leb _ _ (omega arith) in
        let called = rw due at (e.called x) in
        let kept = rw due at (e.kept x) in
        (
          e.after,
          e.ran,
          omega (
            arith,
            called,
            scheduled.pending_one_more x,
            same_self x,
            ap (count x) scheduled.calls,
          ),
          kept,
        )

    -- A sleep that begins between two ticks within the first four years suspends; within its delay
    -- comes a tick, and none before it, by which its handler has been called once more, with the
    -- waker of the context, none of the ticks has faulted, and its timer is not pending; the next
    -- poll is then ready and changes no timer.
    pub sleep-Slept : Slept
    sleep-Slept =
        let n = its_timer.expiry_time - t in
        let (g, run, called, gone) = ends_lem n (omega (arith, scheduled.to_come)) in
        record {
          begins = begins_lem;
          duration = n;
          in_time = omega (arith, scheduled.expiry);
          not_before = λ m early. waits_lem m (omega arith);
          woken = g;
          ticks = run;
          called = called;
          gone = gone;
          ends = next_poll wake waker waker' ms (handle_of its_timer) g;
        }
