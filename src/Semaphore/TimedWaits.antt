-- ===== src/Semaphore/TimedWaits.antt =====
-- Timed waits (taskio_semaphore_timedwait in src/sync/semaphore.c).
use taskio.Prelude.{
  ℕ, ◌+◌, ◌-◌, ◌<◌, ◌≡◌, refl, true, [], ◌∷◌, ◌++◌, arith, ltb, length, ◌==◌, u64, u64_dec,
  word_limit, done,
}
use taskio.Async.{
  pending, ready, new_future, async_fn, resume, clean, drive, poll, poll1, run_scopes, enter,
  run_body, act, await_get, await_answer, received, store_out,
}
use taskio.Hierarchy.{Timers, add_timer, runtime_timer_abort}
use taskio.Hierarchy.Levels.{horizon}
use taskio.Hierarchy.Placement.{Inv}
use taskio.Hierarchy.Agenda.{pending as agenda}
use taskio.Hierarchy.Add.{added_timer}
use taskio.Wheel.{Timer, timer_valid}
use taskio.Semaphore.{Semaphore, wait, wait_cleanup}
use taskio.Semaphore.Futures.{wait_future, wait_fn, wait_scope, suspends_with, semaphore_wait, wake}
use taskio.Sleep.{sleep, sleep_future, sleep_fn, start_scope, sleep_cleanup, sleep_handler}
use taskio.Join.{
  JoinEnv, join_env, poll_all, settle, clean_ready, on_ready, outcome, on_finish, join_poll,
  cleanup, cleanup_from, selected_index,
}
use taskio.Join.Future.{join_future, join_fn, join_scope, join_action}
use taskio.Semaphore.Timed.{
  Timed, TimedFuture, timed_resume, semaphore_timedwait, timedwait_fn, select_future, timed_wake,
  poll_task, poll_timeout, clean_task, keep_index,
}

module _ (task_waker : ℕ → ℕ) (k : ℕ) (s : Semaphore) (h : Timers) (delay : ℕ) where
  abbrev added : Timers
  added = (add_timer h delay sleep_handler (task_waker 1)).0

  -- The select in the first poll of a timed wait with a permit.
  select_free :
      0 < s.counter
      → length h.calls ≡ length added.calls
      → (env : JoinEnv) × (x : Timed) × (join_poll
            (poll_task task_waker k)
            (clean_task task_waker)
            3
            0
            (join_env true true 2)
            (semaphore_timedwait s h delay)
          ≡ done (selected_index 0, env, x))
  unfolding join_poll join_env poll_all settle clean_ready on_ready outcome on_finish poll_task
      poll_timeout clean_task semaphore_timedwait semaphore_wait sleep new_future wait_future
      wait_fn wait_scope suspends_with wait wait_cleanup sleep_future sleep_fn start_scope async_fn
      poll poll1 run_scopes enter run_body act clean u64
  select_free free same =
      let e : ltb 0 s.counter ≡ true = ground arith in
      let f : (length h.calls == length added.calls) ≡ true = ground arith in rw (e, f) (_, _, refl)

  pub timed_free :
      (j : ℕ)
      → 0 < s.counter
      → length h.calls ≡ length added.calls
      → timer_valid ((add_timer h delay sleep_handler (task_waker 1)).1) ≡ true
      → (f : TimedFuture) × (x : Timed) × (drive
            (timed_resume task_waker)
            (k ∷ j ∷ [])
            (new_future 0)
            (semaphore_timedwait s h delay)
          ≡ done (pending ∷ ready true ∷ [], f, x))
        × (x.semaphore ≡ record s { counter = s.counter - 1; wakes = s.wakes ++ (k ∷ []) })
        × (x.timers
            ≡ runtime_timer_abort added ((add_timer h delay sleep_handler (task_waker 1)).1))
  unfolding join_poll join_env poll_all settle clean_ready on_ready outcome on_finish poll_task
      poll_timeout clean_task semaphore_timedwait semaphore_wait sleep new_future wait_future
      wait_fn wait_scope suspends_with wait wait_cleanup sleep_future sleep_fn start_scope async_fn
      poll poll1 run_scopes enter run_body act clean u64 drive timed_resume resume timedwait_fn
      select_future timed_wake keep_index join_future join_fn join_scope join_action await_get
      await_answer received store_out cleanup cleanup_from sleep_cleanup u64_dec wake
  timed_free j free same valid =
      let e : ltb 0 s.counter ≡ true = ground arith in
      let f : (length h.calls == length added.calls) ≡ true = ground arith in
      rw (e, f, valid) (_, _, refl, refl, refl)

-- With a permit, over timers between two ticks within the first four years.
module _ (task_waker : ℕ → ℕ) (k j t delay : ℕ) (s : Semaphore) (h : Timers) (v : Inv t h)
    (lt : t + delay < horizon) (pos : 0 < delay) (few : h.timer_len + 1 < word_limit) where
  abbrev keep : ℕ → Timers → Timers
  keep waker h' = h'

  abbrev timer : Timer
  timer = added_timer t h delay sleep_handler (task_waker 1)
