-- ===== src/Semaphore/TimedSignals.antt =====
-- A timed wait (taskio_semaphore_timedwait in src/sync/semaphore.c) that is signalled in time.
use taskio.Prelude.{ℕ, ◌≡◌, true, none, [], ◌∷◌, ◌++◌, done}
use taskio.Wheel.{Timer}
use taskio.Hierarchy.{Timers}
use taskio.Hierarchy.Placement.{Inv}
use taskio.Hierarchy.Agenda.{pending as agenda}
use taskio.Async.{pending, ready, new_future}
use taskio.Join.{join_wake}
use taskio.Semaphore.{Semaphore, signal}
use taskio.Semaphore.Queued.{queued}
use taskio.Semaphore.Timed.{Timed, TimedFuture, timed_resume, semaphore_timedwait}
use taskio.Semaphore.Timeouts.{idle_select, selecting}
use taskio.Semaphore.TimesOut.{timers, world}

module _ (task_waker : ℕ → ℕ) (k j t delay : ℕ) (s : Semaphore) (h : Timers) where
  abbrev keep : ℕ → Timers → Timers
  keep waker h' = h'

  abbrev in_world : Semaphore → Timed
  in_world s' = world task_waker k j t delay s h s' (timers task_waker k j t delay s h)

  -- The course of a timed wait that is signalled in time.
  pub record Signalled : Type 0 where
    pub begins :
        timed_resume task_waker k (new_future 0) (semaphore_timedwait s h delay)
        ≡ done (pending, selecting task_waker idle_select, in_world (queued 34 (task_waker 0) s))
    pub called : Semaphore
    pub signals : signal (queued 34 (task_waker 0) s) ≡ done called
    pub wakes : called.wakes ≡ s.wakes ++ (task_waker 0 ∷ [])
    pub over : TimedFuture
    pub left : Timed
    pub ends :
        timed_resume task_waker j (selecting task_waker (join_wake 0 idle_select)) (in_world called)
        ≡ done (ready true, over, left)
    pub no_permit : left.semaphore.counter ≡ 0
    pub no_future : left.semaphore.queue ≡ []
    pub no_call : left.semaphore.wakes ≡ called.wakes
    pub freed : left.semaphore.nodes s.fresh ≡ none
    pub inv : Inv t left.timers
    pub same_agenda : (y : Timer) → agenda y left.timers ≡ agenda y h
    pub quiet : left.timers.calls ≡ h.calls
