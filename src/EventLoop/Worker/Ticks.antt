-- ===== src/EventLoop/Worker/Ticks.antt =====
-- The events of the timer descriptor in worker_run (src/platform/linux/runtime.c), with one timer of a
-- sleep.
use taskio.Prelude.{
  ℕ, suc, ◌+◌, ◌<◌, ◌≡◌, ◌∙◌, refl, false, some, List, [], ◌∷◌, ◌++◌, arith, weight, subst, done,
}
use taskio.Wheel.{Timer}
use taskio.Hierarchy.{Timers, run_expirations}
use taskio.Hierarchy.Levels.{horizon}
use taskio.EventLoop.{suspended, scheduled, Runtime}
use taskio.EventLoop.Queue.{task_add_event_loop-Enqueued}
use taskio.EventLoop.Worker.{Event, timer_event, handle_event, worker_run}
use taskio.EventLoop.Worker.Rounds.{single, Single}
use taskio.EventLoop.Worker.Calls.{make_calls-none, make_calls-one}
use taskio.EventLoop.Worker.Main.{
  timer_events, call_sleep, Futures, poll_sleep, clean_sleep, worker_run-step,
}
use taskio.EventLoop.Worker.Sole.{Sole, early-Sole}

-- The event of the queue, for a task that is alone in it.
pub unset_lem :
    (rt : Runtime) (id : ℕ)
    → Single rt id scheduled (id ∷ [])
    → Single (record rt { event_fd = 0 }) id scheduled (id ∷ [])
unset_lem rt id s = record {
  task = s.task;
  queue = record { chain = s.queue.chain; tail = s.queue.tail; distinct = s.queue.distinct };
}

module _ (wake : ℕ → Timers → Timers) (fuel : ℕ) where
  -- The wake that the handler of a sleep does, for a task that is alone.
  woken_lem :
      (rt : Runtime) (x : Timer)
      → Single rt x.payload suspended []
      → (rt' : Runtime) × (call_sleep x rt ≡ done rt')
        × Single rt' x.payload scheduled (x.payload ∷ [])
  unfolding call_sleep
  woken_lem rt x s =
      let (rt', run, queue, e, _, _) =
        task_add_event_loop-Enqueued rt x.payload (single suspended) [] s.queue tt s.task refl
          (ground arith) in
      (rt', run, record { task = e; queue = queue })

  -- The event of the timer descriptor by which the only timer is due.
  pub timer_lem :
      (n : ℕ) (rt : Runtime) (g h' : Timers) (futures : Futures) (x : Timer) (main : ℕ)
      → run_expirations n g ≡ done h'
      → h'.calls ≡ x ∷ []
      → Single rt x.payload suspended []
      → (rt' : Runtime) × (handle_event call_sleep
            (poll_sleep wake)
            (clean_sleep wake)
            (suc (suc fuel))
            (some main)
            (timer_event n)
            (false, rt, (g, futures))
          ≡ done (false, rt', (record h' { calls = [] }, futures)))
        × Single rt' x.payload scheduled (x.payload ∷ [])
  unfolding handle_event
  timer_lem n rt g h' futures x main ran calls s =
      let (rt', run, s') = woken_lem rt x s in
      (rt', (rw (ran, make_calls-one call_sleep rt h' x rt' calls run) refl), s')

  -- Events of the timer descriptor before the time of the only timer.
  pub early_lem :
      (counts : List ℕ) (t : ℕ) (rt : Runtime) (g : Timers) (futures : Futures) (x : Timer)
      (main : ℕ)
      → Sole t g x
      → t + weight (λ n. n) counts < x.expiry_time
      → t + weight (λ n. n) counts < horizon
      → (g' : Timers) × ((later : List (List Event))
          → worker_run call_sleep
              (poll_sleep wake)
              (clean_sleep wake)
              (suc (suc fuel))
              (some main)
              (timer_events counts ++ later)
              (false, rt, (g, futures))
            ≡ worker_run call_sleep
                (poll_sleep wake)
                (clean_sleep wake)
                (suc (suc fuel))
                (some main)
                later
                (false, rt, (g', futures)))
        × Sole (t + weight (λ n. n) counts) g' x
  unfolding handle_event
  early_lem [] t rt g futures x main s early lt =
      (g, (λ later. refl), subst (λ u. Sole u g x) (omega arith) s)
  early_lem (n ∷ counts) t rt g futures x main s early lt =
      let (h, ran, s') = early-Sole t n g x s (omega arith) (omega arith) in
      let tick : handle_event call_sleep (poll_sleep wake) (clean_sleep wake) (suc (suc fuel))
            (some main) (timer_event n) (false, rt, (g, futures))
          ≡ done (false, rt, (h, futures)) =
        rw (ran, make_calls-none call_sleep rt h s'.calls) refl in
      let (g', runs, s'') =
        early_lem counts (t + n) rt h futures x main s' (omega arith) (omega arith) in
      (
        g',
        (λ later.
            worker_run-step call_sleep (poll_sleep wake) (clean_sleep wake) (suc (suc fuel))
              (some main) (timer_event n) (timer_events counts ++ later) (false, rt, (g, futures))
              (false, rt, (h, futures)) tick
            ∙ runs later),
        subst (λ u. Sole u g' x) (omega arith) s'',
      )
