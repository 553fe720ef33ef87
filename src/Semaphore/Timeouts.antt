-- ===== src/Semaphore/Timeouts.antt =====
-- Timed waits (taskio_semaphore_timedwait in src/sync/semaphore.c) that find no permit.
use taskio.Prelude.{
  ℕ, ◌≡◌, refl, true, false, none, some, arith, ltb, length, ◌==◌, u64, u64_dec, done, Run-cases,
  ◌>>=◌, inl, inr,
}
use taskio.Async.{
  clear_value, pending, ready, new_future, async_fn, resume, clean, poll, poll_await, begin_answer,
  poll1, run_scopes, enter, run_body, act, await_get, await_answer, received, store_out,
}
use taskio.Hierarchy.{Timers, add_timer, runtime_timer_abort}
use taskio.Wheel.{TimerHandle, timer_valid}
use taskio.Semaphore.{Semaphore, wait, wait_cleanup}
use taskio.Semaphore.Futures.{
  WaitFuture, wait_future, wait_fn, wait_scope, suspends_with, semaphore_wait,
}
use taskio.Sleep.{
  SleepFuture, sleep, sleep_future, sleep_fn, start_scope, end_scope, sleep_cleanup, sleep_handler,
}
use taskio.Sleep.Course.{asleep, awake}
use taskio.Join.{
  JoinEnv, join_env, join_wake, set_next, poll_all, settle, clean_ready, on_ready, outcome,
  on_finish, join_poll, cleanup, cleanup_from, selected_index,
}
use taskio.Join.Future.{join_future, join_fn, join_scope, join_action}
use taskio.Semaphore.Timed.{
  Timed, TimedFuture, timed_resume, semaphore_timedwait, timedwait_fn, select_future, timed_wake,
  poll_task, poll_timeout, clean_task, keep_index,
}

-- The select of a timed wait that waits, none of whose tasks has been woken.
abbrev pub idle_select : JoinEnv
idle_select = record (join_env true true 2) { poll_head = none; poll_tail = none }

-- A timed wait whose time has run out.
abbrev pub timed_over : TimedFuture
timed_over = record { await_future = none; await_out = none; counter = 2; env = 1 }

module _ (task_waker : ℕ → ℕ) where
  -- A timed wait whose select has this environment.
  abbrev pub selecting : JoinEnv → TimedFuture
  selecting env = record {
    await_future = some (record { await_future = none; await_out = none; counter = 0; env = env });
    await_out = some keep_index;
    counter = 1;
    env = 0;
  }

  -- The world of a timed wait that waits with node `id` and the timer of `handle`.
  abbrev pub waiting_world : ℕ → ℕ → TimerHandle → Semaphore → Timers → Timed
  waiting_world id delay handle s h = record {
    semaphore = s;
    timers = h;
    wait = record {
      await_future = none;
      await_out = none;
      counter = 1;
      env = record { node = some id; timed = true };
    };
    timeout = asleep delay (task_waker 1) handle;
  }

  pub timed_begins :
      (k delay : ℕ) (s : Semaphore) (h : Timers)
      → let r = add_timer h delay sleep_handler (task_waker 1) in
        s.counter ≡ 0
        → length h.calls ≡ length (r.0).calls
        → timed_resume task_waker k (new_future 0) (semaphore_timedwait s h delay)
          ≡ done (
            pending,
            selecting idle_select,
            waiting_world s.fresh delay (r.1) ((wait s true (task_waker 0)).1) (r.0),
          )
  unfolding join_poll join_env poll_all settle clean_ready on_ready outcome on_finish poll_task
      clean_task semaphore_timedwait semaphore_wait sleep new_future wait_future wait_fn wait_scope
      suspends_with wait sleep_future sleep_fn start_scope async_fn poll poll1 run_scopes enter
      run_body act clean u64 timed_resume resume timedwait_fn select_future timed_wake join_future
      join_fn join_scope join_action await_get await_answer u64_dec
  timed_begins k delay s h none_left same =
      let e : ltb 0 s.counter ≡ false = ground arith in
      let f : (length h.calls == length (add_timer h delay sleep_handler (task_waker 1)).0.calls)
          ≡ true =
        ground arith in
      rw e (rw f (rw f refl))

  -- The select with the sleep ready.
  slept_select : JoinEnv
  slept_select =
      settle 1 (ready tt) (record (join_wake 1 idle_select) { poll_head = none; poll_tail = none })

  slept_world : ℕ → ℕ → Semaphore → Timers → Timed
  slept_world id delay s h =
      record (waiting_world id delay (record { id = 0; expiry_time = 0 }) s h) {
        timeout = record (awake delay (task_waker 1)) { counter = clear_value };
      }

  select_slept :
      (k id delay : ℕ) (handle : TimerHandle) (s : Semaphore) (h : Timers)
      → join_poll
          (poll_task task_waker k)
          (clean_task task_waker)
          3
          0
          (join_wake 1 idle_select)
          (waiting_world id delay handle s h)
        ≡ done (selected_index 1, slept_select, slept_world id delay s h)
  unfolding join_poll join_env join_wake set_next poll_all settle clean_ready on_ready outcome
      on_finish poll_task poll_timeout clean_task sleep_future sleep_fn end_scope async_fn poll
      poll1 run_scopes enter run_body act clean u64 sleep_cleanup timer_valid slept_select
      slept_world
  select_slept k id delay handle s h =
      let f : (length h.calls == length h.calls) ≡ true = ground arith in rw f refl

  -- The next poll, after the timer has woken its task.
  pub timed_out :
      (k id delay : ℕ) (handle : TimerHandle) (s : Semaphore) (h : Timers)
      → (w : WaitFuture) × (z : SleepFuture) × (timed_resume task_waker k
            (selecting (join_wake 1 idle_select))
            (waiting_world id delay handle s h)
          ≡ wait_cleanup s (some id) >>= λ s'. done (
            ready false,
            timed_over,
            record { semaphore = s'; timers = h; wait = w; timeout = z },
          ))
  unfolding join_env join_wake set_next settle on_ready clean_task wait_future wait_fn sleep_future
      sleep_fn slept_select slept_world async_fn poll poll1 poll_await begin_answer received
      store_out run_scopes enter run_body act clean u64 timed_resume resume timedwait_fn
      select_future timed_wake join_future join_fn join_scope join_action u64_dec cleanup
      cleanup_from sleep_cleanup keep_index timer_valid
  timed_out k id delay handle s h = (
    record {
      await_future = none;
      await_out = none;
      counter = clear_value;
      env = record { node = some id; timed = true };
    },
    record (awake delay (task_waker 1)) { counter = clear_value },
    rw (select_slept k id delay handle s h) (elim (Run-cases (wait_cleanup s (some id))) [
      | inl (s', e) ↦ rw e refl
      | inr (e', e) ↦ rw e refl
    ]),
  )

  -- The next poll, after a signal has woken the task of the wait.
  pub timed_signalled :
      (k id delay : ℕ) (handle : TimerHandle) (s : Semaphore) (h : Timers)
      → timer_valid handle ≡ true
      → (f : TimedFuture) × (w : WaitFuture) × (z : SleepFuture) × (timed_resume task_waker k
            (selecting (join_wake 0 idle_select))
            (waiting_world id delay handle s h)
          ≡ wait_cleanup s (some id) >>= λ s'. done (
            ready true,
            f,
            record { semaphore = s'; timers = runtime_timer_abort h handle; wait = w; timeout = z },
          ))
  unfolding join_poll join_env join_wake set_next poll_all settle clean_ready on_ready outcome
      on_finish poll_task poll_timeout clean_task wait_future wait_fn sleep_future sleep_fn
      end_scope async_fn poll poll1 poll_await begin_answer received store_out run_scopes enter
      run_body act clean u64 timed_resume resume timedwait_fn select_future timed_wake join_future
      join_fn join_scope join_action u64_dec cleanup cleanup_from sleep_cleanup keep_index
  timed_signalled k id delay handle s h valid = (
    record { await_future = none; await_out = none; counter = 2; env = 0 },
    record {
      await_future = none;
      await_out = none;
      counter = clear_value;
      env = record { node = some id; timed = true };
    },
    record (asleep delay (task_waker 1) handle) { counter = clear_value },
    elim (Run-cases (wait_cleanup s (some id))) [
      | inl (s', e) ↦ rw (e, valid) refl
      | inr (e', e) ↦ rw e refl
    ],
  )
