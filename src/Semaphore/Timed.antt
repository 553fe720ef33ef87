-- ===== src/Semaphore/Timed.antt =====
-- taskio_semaphore_timedwait (src/sync/semaphore.c): a biased select of a wait and a sleep. The world
-- of its polls has the semaphore, the timers of the runtime, and the two futures in its environment,
-- which the select has pointers to.
use taskio.Prelude.{
  ℕ, zero, suc, ◌+◌, Bool, true, Option, none, some, [], ◌∷◌, length, ◌==◌, if◌then◌else◌, u64, Run,
  done, ◌>>=◌,
}
use taskio.Async.{
  async_fn, Answer, FutureOps, awaits, returns, scope, AsyncFn, Future, new_future, resume, clean,
}
use taskio.Hierarchy.{Timers}
use taskio.Semaphore.{Semaphore}
use taskio.Semaphore.Futures.{WaitFuture, wait_future, semaphore_wait, wake}
use taskio.Sleep.{SleepFuture, sleep, sleep_future}
use taskio.Join.{JoinEnv, join_env, join_wake}
use taskio.Join.Future.{join_future}

pub record Timed : Type 0 where
  pub semaphore : Semaphore
  pub timers : Timers
  pub wait : WaitFuture
  pub timeout : SleepFuture

-- The counter of a future goes up before each poll.
abbrev pub stepped : {E C W : Type 0} → Future E C W → Future E C W
stepped f = record f { counter = u64 (f.counter + 1) }

-- The waker of the task that polls is called by yield.
unfoldable pub timed_wake : ℕ → Timed → Timed
timed_wake waker x = record x { semaphore = wake waker x.semaphore }

abbrev pub timer_future : FutureOps ℕ Timers SleepFuture Unit
timer_future = sleep_future (λ waker h. h)

-- The index of the select is written to `result`, which starts as 0.
unfoldable pub keep_index : Option ℕ → ℕ → ℕ
keep_index none result = result
keep_index (some i) result = i

abbrev pub TimedFuture : Type 0
TimedFuture = Future ℕ (Future JoinEnv Unit Unit) (Option ℕ)

-- The wakers of the two tasks of the select, by their numbers.
module _ (task_waker : ℕ → ℕ) where
  -- A poll of the sleep: with no delay its handler is called at once, which is the wake of its task.
  unfoldable pub poll_timeout : JoinEnv → Timed → Run (Answer Unit × JoinEnv × Timed)
  poll_timeout env x =
      timer_future.poll (some (task_waker 1)) (stepped x.timeout) x.timers
      >>= λ (r : Answer Unit × SleepFuture × Timers). done (
        r.0,
        (if length x.timers.calls == length (r.2).calls then env else join_wake 1 env),
        record x { timeout = r.1; timers = r.2 },
      )

  -- What the select polls: the wait is its first task, the sleep its second.
  unfoldable pub poll_task : ℕ → ℕ → JoinEnv → Timed → Run (Answer Unit × JoinEnv × Timed)
  unfolding poll_timeout
  poll_task k zero env x =
      wait_future.poll (some (task_waker 0)) (stepped x.wait) x.semaphore
      >>= λ (r : Answer Unit × WaitFuture × Semaphore).
          done (r.0, env, record x { wait = r.1; semaphore = r.2 })
  poll_task k (suc i) env x = poll_timeout env x

  unfoldable pub clean_task : ℕ → Timed → Run Timed
  clean_task zero x = clean wait_future x.wait x.semaphore >>= λ (r : WaitFuture × Semaphore).
      done (record x { wait = r.0; semaphore = r.1 })
  clean_task (suc i) x = clean timer_future x.timeout x.timers >>= λ (r : SleepFuture × Timers).
      done (record x { timeout = r.0; timers = r.1 })

  unfoldable pub select_future : FutureOps ℕ Timed (Future JoinEnv Unit Unit) (Option ℕ)
  unfolding poll_task clean_task timed_wake
  select_future = join_future timed_wake poll_task clean_task 3 0

  -- taskio_semaphore_timedwait; of the environment it has `result`.
  unfoldable pub timedwait_fn : AsyncFn ℕ Timed ℕ (Future JoinEnv Unit Unit) (Option ℕ) Bool
  unfolding keep_index
  timedwait_fn = record {
    on_cleanup = λ result x. done (result, x);
    scopes =
        scope (λ k result x.
          done (awaits (new_future (join_env true true 2)) (some keep_index), result, x))
        ∷ scope (λ k result x. done (returns (result == 0), result, x))
        ∷ [];
  }

  unfoldable pub timed_resume : ℕ → TimedFuture → Timed → Run (Answer Bool × TimedFuture × Timed)
  unfolding timedwait_fn select_future timed_wake
  timed_resume = resume timed_wake select_future timedwait_fn

  unfoldable pub timed_future : FutureOps ℕ Timed TimedFuture Bool
  unfolding timedwait_fn select_future timed_wake
  timed_future = async_fn timed_wake select_future timedwait_fn

-- What taskio_semaphore_timedwait returns: its future, and the two futures in its environment.
unfoldable pub semaphore_timedwait : Semaphore → Timers → ℕ → Timed
semaphore_timedwait s h delay = record {
  semaphore = s;
  timers = h;
  wait = semaphore_wait true;
  timeout = sleep delay;
}
