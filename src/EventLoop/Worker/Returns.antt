-- ===== src/EventLoop/Worker/Returns.antt =====
-- taskio_runtime_block_on (src/platform/linux/runtime.c) on a future of taskio_sleep returns.
use mathlib.Core.List.{append-nil}
use taskio.Prelude.{
  ℕ, suc, ◌+◌, ◌-◌, ◌<◌, ◌≤◌, ◌≡◌, ◌∙◌, refl, true, false, some, none, List, [], ◌∷◌, ◌++◌, arith,
  weight, subst, ◌==◌, update, word_limit, done,
}
use taskio.Wheel.{Timer}
use taskio.Hierarchy.{Timers, add_timer}
use taskio.Hierarchy.Levels.{horizon}
use taskio.Hierarchy.Placement.{Inv}
use taskio.Hierarchy.Agenda.{pending}
use taskio.Hierarchy.Add.{added_timer, add_timer-Scheduled}
use taskio.Sleep.{sleep, sleep_handler}
use taskio.Sleep.Course.{asleep, awake}
use taskio.EventLoop.{suspended, Runtime}
use taskio.EventLoop.Queue.{Queue}
use taskio.EventLoop.Worker.{Event, queue_event, timer_event, handle_event, worker_run, block_on}
use taskio.EventLoop.Worker.Rounds.{single, Single, run_queue-waits, run_queue-ends}
use taskio.EventLoop.Worker.Main.{
  timer_events, call_sleep, Futures, poll_sleep, clean_sleep, first_sleep, next_sleep,
  worker_run-step, block_on-begins, begin_lem,
}
use taskio.EventLoop.Worker.Sole.{Sole, Scheduled-Sole, sole_timer}
use taskio.EventLoop.Worker.Ticks.{timer_lem, unset_lem, early_lem}

module _ (wake : ℕ → Timers → Timers) (fuel : ℕ) where
  module _ (t ms : ℕ) (counts : List ℕ) (h : Timers) (rt : Runtime) (futures : Futures)
      (queue : Queue rt []) (v : Inv t h) (idle : h.calls ≡ [])
      (none_pending : (y : Timer) → pending y h ≡ 0) (sleeps : futures rt.fresh ≡ sleep ms)
      (pos : 0 < ms) (few : h.timer_len + 1 < word_limit)
      (early : t + weight (λ n. n) counts
        < (added_timer t h ms sleep_handler rt.fresh).expiry_time) where
    abbrev its_timer : Timer
    its_timer = added_timer t h ms sleep_handler rt.fresh

    abbrev asleep_futures : Futures
    asleep_futures =
        update futures rt.fresh (asleep ms rt.fresh ((add_timer h ms sleep_handler rt.fresh).1))

    -- The task after its first poll and the early ticks.
    fell_asleep :
        t + ms < horizon
        → (rt1 : Runtime) × (g : Timers) × ((later : List (List Event))
            → block_on call_sleep
                (poll_sleep wake)
                (clean_sleep wake)
                (suc (suc fuel))
                ((queue_event ∷ []) ∷ (timer_events counts ++ later))
                rt
                (h, futures)
              ≡ worker_run call_sleep
                  (poll_sleep wake)
                  (clean_sleep wake)
                  (suc (suc fuel))
                  (some rt.fresh)
                  later
                  (false, rt1, (g, asleep_futures)))
          × Single rt1 rt.fresh suspended []
          × Sole (t + weight (λ n. n) counts) g its_timer
    unfolding handle_event
    fell_asleep lt =
        let id = rt.fresh in
        let r = add_timer h ms sleep_handler id in
        let s = add_timer-Scheduled t h v (omega arith) ms sleep_handler id pos (omega arith) few in
        let (spawned, rt0, number, spawns, drops, alone0) = begin_lem rt queue in
        let (rt1, waits, alone1) =
          run_queue-waits (poll_sleep wake) (clean_sleep wake) (record rt0 { event_fd = 0 }) id
            (h, futures) (r.0, asleep_futures) (unset_lem rt0 id alone0) fuel
            λ rt'. first_sleep wake id ms rt' h futures sleeps (s.calls ∙ idle) in
        let (g, ticks, sole) =
          early_lem wake fuel counts t rt1 (r.0) asleep_futures its_timer id
            (Scheduled-Sole t ms h its_timer r idle none_pending s) early
            (omega (arith, s.expiry, early)) in
        (
          rt1,
          g,
          (λ later.
              block_on-begins call_sleep (poll_sleep wake) (clean_sleep wake) (suc (suc fuel)) _ rt
                spawned rt0 (h, futures) spawns drops
              ∙ worker_run-step call_sleep (poll_sleep wake) (clean_sleep wake) (suc (suc fuel))
                  (some id) queue_event _ (false, rt0, (h, futures))
                  (false, rt1, (r.0, asleep_futures)) waits
              ∙ ticks later),
          alone1,
          sole,
        )

    -- The event by which the timer is due, and that of the queue.
    wakes_up :
        (u n : ℕ) (rt1 : Runtime) (g : Timers)
        → Single rt1 rt.fresh suspended []
        → Sole u g its_timer
        → its_timer.expiry_time ≤ u + n
        → u + n < horizon
        → (rt' : Runtime) × (h' : Timers) × (futures' : Futures) × (worker_run call_sleep
              (poll_sleep wake)
              (clean_sleep wake)
              (suc (suc fuel))
              (some rt.fresh)
              ((timer_event n ∷ []) ∷ (queue_event ∷ []) ∷ [])
              (false, rt1, (g, asleep_futures))
            ≡ done (true, rt', (h', futures')))
          × (rt'.tasks rt.fresh ≡ none)
          × Queue rt' []
          × Inv (u + n) h'
          × ((y : Timer) → pending y h' ≡ 0)
    unfolding handle_event
    wakes_up u n rt1 g alone1 sole due lt =
        let id = rt.fresh in
        let handle = (add_timer h ms sleep_handler id).1 in
        let ended = record (awake ms id) { counter = word_limit - 1 } in
        let (h', ran, inv, calls, gone) = sole_timer u n g its_timer sole lt due in
        let quiet = record h' { calls = [] } in
        let (rt2, ticks, alone2) =
          timer_lem wake fuel n rt1 g h' asleep_futures its_timer id ran calls alone1 in
        let hit : (id == id) ≡ true = ground arith in
        let (rt3, ends, freed, queue3) =
          run_queue-ends (poll_sleep wake) (clean_sleep wake) (record rt2 { event_fd = 0 }) id
            (quiet, asleep_futures) _ (unset_lem rt2 id alone2) fuel 0
            λ r. next_sleep wake id ms handle r quiet asleep_futures (rw hit refl) refl in
        (
          rt3,
          quiet,
          update asleep_futures id ended,
          (worker_run-step call_sleep (poll_sleep wake) (clean_sleep wake) (suc (suc fuel))
                (some id) (timer_event n) _ (false, rt1, (g, asleep_futures)) _ ticks
              ∙ worker_run-step call_sleep (poll_sleep wake) (clean_sleep wake) (suc (suc fuel))
                  (some id) queue_event [] _ _ ends),
          freed,
          queue3,
          record {
            wheels = inv.wheels;
            placed = inv.placed;
            counted = inv.counted;
            few = inv.few;
            armed = inv.armed;
          },
          gone,
        )

    -- taskio_runtime_block_on of a sleep, on a runtime between two ticks that has nothing queued and
    -- no timer: after an event of the queue, and events of the timer descriptor with fewer
    -- expirations than it takes to the expiry of its timer, the worker still waits with the task
    -- suspended. It returns after a further event with so many expirations that they are at least
    -- the milliseconds of the sleep together, within the first four years, and one of the queue:
    -- then the task is freed, the queue is empty and no timer is pending, with the invariant of the
    -- timers. Nothing has faulted.
    pub block_on-Returns :
        (n : ℕ)
        → ms ≤ weight (λ k. k) counts + n
        → t + weight (λ k. k) counts + n < horizon
        → ((rt1 : Runtime) × (g : Timers) × (futures1 : Futures) × (block_on call_sleep
                (poll_sleep wake)
                (clean_sleep wake)
                (suc (suc fuel))
                ((queue_event ∷ []) ∷ timer_events counts)
                rt
                (h, futures)
              ≡ done (false, rt1, (g, futures1)))
            × (rt1.tasks rt.fresh ≡ some (single suspended)))
          × (rt' : Runtime) × (h' : Timers) × (futures' : Futures) × (block_on call_sleep
                (poll_sleep wake)
                (clean_sleep wake)
                (suc (suc fuel))
                ((queue_event ∷ [])
                  ∷ (timer_events counts ++ ((timer_event n ∷ []) ∷ (queue_event ∷ []) ∷ [])))
                rt
                (h, futures)
              ≡ done (true, rt', (h', futures')))
          × (rt'.tasks rt.fresh ≡ none)
          × Queue rt' []
          × Inv (t + weight (λ k. k) counts + n) h'
          × ((y : Timer) → pending y h' ≡ 0)
    unfolding worker_run
    block_on-Returns n enough lt =
        let id = rt.fresh in
        let s = add_timer-Scheduled t h v (omega arith) ms sleep_handler id pos (omega arith) few in
        let (rt1, g, runs, alone1, sole) = fell_asleep (omega arith) in
        let (rt', h', futures', ends, freed, queue', inv, gone) =
          wakes_up (t + weight (λ k. k) counts) n rt1 g alone1 sole (omega (arith, s.expiry)) lt in
        (
          (
            rt1,
            g,
            asleep_futures,
            subst
                (λ l.
                  block_on call_sleep (poll_sleep wake) (clean_sleep wake) (suc (suc fuel))
                    ((queue_event ∷ []) ∷ l) rt (h, futures)
                  ≡ done (false, rt1, (g, asleep_futures)))
                (append-nil (timer_events counts)) (runs []),
            alone1.task,
          ),
          rt',
          h',
          futures',
          runs _ ∙ ends,
          freed,
          queue',
          inv,
          gone,
        )
