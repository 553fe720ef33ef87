-- ===== src/Sleep.antt =====
-- src/common/sleep.c: taskio_sleep as an async function, by the macros of include/taskio/async.h. The
-- world of its polls is the timers of the runtime, and a context is the number of the waker in it;
-- the handler's data, a pointer to the waker in the environment, is this number too.
pub mod Course
pub mod Dropped
mod Tests
use taskio.Prelude.{ℕ, ◌+◌, Bool, none, List, [], ◌∷◌, if◌then◌else◌, Run, done}
use taskio.Wheel.{TimerHandle, timer_valid}
use taskio.Hierarchy.{Timers, add_timer, runtime_timer_abort}
use taskio.Async.{
  no_child, Answer, FutureOps, Action, suspends, returns, scope, AsyncFn, Future, new_future,
  async_fn, resume,
}

-- struct taskio_sleep_env; `runtime` is the world, and the two fields of the timer are one handle.
pub record SleepEnv : Type 0 where
  pub ms : ℕ
  pub waker : ℕ
  pub timer : TimerHandle

-- taskio_sleep_handler, by a number
abbrev pub sleep_handler : ℕ
sleep_handler = 1

abbrev pub no_timer : TimerHandle
no_timer = record { id = 0; expiry_time = 0 }

-- taskio_sleep, the cleanup
unfoldable pub sleep_cleanup : SleepEnv → Timers → Run (SleepEnv × Timers)
sleep_cleanup env h =
    done (env, if timer_valid env.timer then runtime_timer_abort h env.timer else h)

-- taskio_sleep, the first scope
unfoldable pub start_scope :
    ℕ → SleepEnv → Timers → Run (Action SleepEnv Unit Unit Unit × SleepEnv × Timers)
start_scope waker env h =
    let (h', handle) = add_timer h env.ms sleep_handler waker in
    done (suspends, record env { waker = waker; timer = handle }, h')

-- taskio_sleep, the second scope
unfoldable pub end_scope :
    ℕ → SleepEnv → Timers → Run (Action SleepEnv Unit Unit Unit × SleepEnv × Timers)
end_scope waker env h = done (returns tt, record env { timer = no_timer }, h)

unfoldable pub sleep_fn : AsyncFn ℕ Timers SleepEnv Unit Unit Unit
unfolding sleep_cleanup start_scope end_scope
sleep_fn = record { on_cleanup = sleep_cleanup; scopes = scope start_scope ∷ scope end_scope ∷ [] }

abbrev pub SleepFuture : Type 0
SleepFuture = Future SleepEnv Unit Unit

-- What taskio_sleep returns.
unfoldable pub sleep : ℕ → SleepFuture
sleep ms = new_future (record { ms = ms; waker = 0; timer = no_timer })

module _ (wake : ℕ → Timers → Timers) where
  unfoldable pub sleep_future : FutureOps ℕ Timers SleepFuture Unit
  unfolding sleep_fn
  sleep_future = async_fn wake no_child sleep_fn

  unfoldable pub sleep_resume : ℕ → SleepFuture → Timers → Run (Answer Unit × SleepFuture × Timers)
  unfolding sleep_fn
  sleep_resume = resume wake no_child sleep_fn
