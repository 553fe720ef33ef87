-- ===== src/Semaphore/TimesOut.antt =====
-- A timed wait (taskio_semaphore_timedwait in src/sync/semaphore.c) from its first poll to the end of
-- its time, over the timers of src/platform/linux/.
use taskio.Prelude.{
  ℕ, ◌+◌, ◌-◌, ◌<◌, ◌≤◌, ◌≡◌, ◌∙◌, refl, sym, ap, true, false, length, arith, word_limit, done,
}
use taskio.Wheel.{Timer}
use taskio.Hierarchy.{Timers, add_timer, run_expirations}
use taskio.Hierarchy.Levels.{horizon}
use taskio.Hierarchy.Placement.{Inv}
use taskio.Hierarchy.Agenda.{pending as agenda, count}
use taskio.Hierarchy.Add.{added_timer, handle_of}
use taskio.Sleep.{sleep_handler}
use taskio.Sleep.Course.{scheduled, ends_lem}
use taskio.Async.{pending, ready, new_future}
use taskio.Join.{join_wake}
use taskio.Semaphore.{Semaphore, wait_cleanup}
use taskio.Semaphore.Queued.{queued, wait_lem, node_drop-queued}
use taskio.Semaphore.Timed.{Timed, timed_resume, semaphore_timedwait}
use taskio.Semaphore.Timeouts.{
  idle_select, timed_over, selecting, waiting_world, timed_begins, timed_out,
}

module _ (task_waker : ℕ → ℕ) (k j t delay : ℕ) (s : Semaphore) (h : Timers) where
  abbrev keep : ℕ → Timers → Timers
  keep waker h' = h'

  abbrev pub timer : Timer
  timer = added_timer t h delay sleep_handler (task_waker 1)

  abbrev pub timers : Timers
  timers = (add_timer h delay sleep_handler (task_waker 1)).0

  abbrev pub world : Semaphore → Timers → Timed
  world s' h' = waiting_world task_waker s.fresh delay (handle_of timer) s' h'

  -- The course of a timed wait whose time runs out.
  pub record TimedOut : Type 0 where
    pub begins :
        timed_resume task_waker k (new_future 0) (semaphore_timedwait s h delay)
        ≡ done
            (pending, selecting task_waker idle_select, world (queued 34 (task_waker 0) s) timers)
    pub duration : ℕ
    pub in_time : duration ≤ delay
    pub later : Timers
    pub ticks : run_expirations duration timers ≡ done later
    pub called : count timer later.calls ≡ count timer h.calls + agenda timer h + 1
    pub left : Timed
    pub ends :
        timed_resume task_waker j
          (selecting task_waker (join_wake 1 idle_select))
          (world (queued 34 (task_waker 0) s) later)
        ≡ done (ready false, timed_over, left)
    pub semaphore : left.semaphore ≡ queued 33 (task_waker 0) s
    pub same_timers : left.timers ≡ later

  module _ (v : Inv t h) (lt : t + delay < horizon) (pos : 0 < delay)
      (few : h.timer_len + 1 < word_limit) where
    -- The first poll of a timed wait without a permit
    pub begins_lem :
        s.counter ≡ 0
        → timed_resume task_waker k (new_future 0) (semaphore_timedwait s h delay)
          ≡ done
              (pending, selecting task_waker idle_select, world (queued 34 (task_waker 0) s) timers)
    begins_lem none_left =
        let d = scheduled keep (task_waker 1) 0 delay t h v lt pos few in
        timed_begins task_waker k delay s h none_left (ap length (sym d.calls))
        ∙ ap
            (λ s''. done (
              pending,
              selecting task_waker idle_select,
              waiting_world task_waker s.fresh delay
                  ((add_timer h delay sleep_handler (task_waker 1)).1) s'' timers,
            ))
            (wait_lem (task_waker 0) s true none_left)
        ∙ ap
            (λ handle. done (
              pending,
              selecting task_waker idle_select,
              waiting_world task_waker s.fresh delay handle (queued 34 (task_waker 0) s) timers,
            ))
            d.handle

    -- A timed wait without a permit, begun between two ticks within the first four years, suspends with
    -- a node in the queue; within its delay comes a tick by which the handler of its timer has been
    -- called once more, and the ticks fault nowhere; the poll that follows the wake of the task of its
    -- sleep is ready with false, takes no permit, leaves the node in the queue with one owner, and
    -- changes no timer.
    pub timedwait-TimedOut : s.counter ≡ 0 → TimedOut
    unfolding wait_cleanup
    timedwait-TimedOut none_left =
        let d = scheduled keep (task_waker 1) 0 delay t h v lt pos few in
        let n = timer.expiry_time - t in
        let (g, run, called, gone) =
          ends_lem keep (task_waker 1) 0 delay t h v lt pos few n (omega (arith, d.to_come)) in
        let s' = queued 34 (task_waker 0) s in
        let (w, z, next) = timed_out task_waker j s.fresh delay (handle_of timer) s' g in
        record {
          begins = begins_lem none_left;
          duration = n;
          in_time = omega (arith, d.expiry);
          later = g;
          ticks = run;
          called = called;
          left = record {
            semaphore = queued 33 (task_waker 0) s;
            timers = g;
            wait = w;
            timeout = z;
          };
          ends = rw (next, node_drop-queued (task_waker 0) s true) refl;
          semaphore = refl;
          same_timers = refl;
        }
