-- ===== src/Mutex/TimedLocks.antt =====
-- taskio_mutex_timedlock (src/sync/mutex.c): an async function that awaits the timed wait of the
-- semaphore.
use taskio.Prelude.{
  ◌≤◌, word_limit, ℕ, ◌+◌, ◌<◌, ◌≡◌, refl, Bool, false, none, some, [], ◌∷◌, u64, Run, done,
}
use taskio.Hierarchy.{Timers}
use taskio.Async.Forward.{forward_fn, forwarding, forward-begins, forward-ends}
use taskio.Async.{
  Answer, pending, ready, awaits, returns, scope, AsyncFn, Future, new_future, resume, clean,
  async_fn, poll, poll1, run_scopes,
}
use taskio.Semaphore.{Semaphore}
use taskio.Hierarchy.{run_expirations}
use taskio.Hierarchy.Placement.{Inv}
use taskio.Hierarchy.Levels.{horizon}
use taskio.Join.{join_wake}
use taskio.Semaphore.Queued.{queued}
use taskio.Semaphore.Timeouts.{idle_select, timed_over, selecting}
use taskio.Semaphore.TimesOut.{timedwait-TimedOut, world, timers}
use taskio.Semaphore.Timed.{
  Timed, TimedFuture, timed_wake, timed_future, timed_resume, timedwait_fn, semaphore_timedwait,
}

-- struct taskio_mutex_timedlock_env; the mutex is in the world.
pub record TimedLockEnv : Type 0 where
  pub delay : ℕ
  pub result : Bool

abbrev pub TimedLock : Type 0
TimedLock = Future TimedLockEnv TimedFuture Bool

unfoldable pub keep_result : Bool → TimedLockEnv → TimedLockEnv
keep_result b env = record env { result = b }

-- What taskio_mutex_timedlock returns.
unfoldable pub mutex_timedlock : ℕ → TimedLock
mutex_timedlock delay = new_future (record { delay = delay; result = false })

-- taskio_mutex_timedlock; the await puts the future of the timed wait into the environment.
unfoldable pub timedlock_fn : AsyncFn ℕ Timed TimedLockEnv TimedFuture Bool Bool
unfolding keep_result
timedlock_fn = record {
  on_cleanup = λ env x. done (env, x);
  scopes =
      scope (λ k env x. done (
        awaits (new_future 0) (some keep_result),
        env,
        semaphore_timedwait x.semaphore x.timers env.delay,
      ))
      ∷ scope (λ k env x. done (returns env.result, env, x))
      ∷ [];
}

module _ (task_waker : ℕ → ℕ) where
  unfoldable pub timedlock_resume : ℕ → TimedLock → Timed → Run (Answer Bool × TimedLock × Timed)
  unfolding timedlock_fn timed_future timed_wake
  timedlock_resume = resume timed_wake (timed_future task_waker) timedlock_fn

  -- The future of a timed wait that is ready awaits nothing, and has nothing to clean up.
  clean_over :
      (g : TimedFuture) (z : Timed)
      → g.await_future ≡ none
      → (g' : TimedFuture) × (clean (timed_future task_waker) g z ≡ done (g', z))
  unfolding clean timed_future async_fn timedwait_fn poll1 run_scopes u64
  clean_over g z over = rw (poll, over) (_, refl)

  abbrev locking : ℕ → TimedFuture → TimedLock
  locking delay f =
      forwarding timed_wake (timed_future task_waker) (new_future 0) keep_result (λ env. env.result)
        (λ env x. x) f (record { delay = delay; result = false })

  -- With a timed wait that suspends in its first poll.
  pub timedlock-begins :
      (k delay : ℕ) (x y : Timed) (f : TimedFuture)
      → timed_resume task_waker k (new_future 0) (semaphore_timedwait x.semaphore x.timers delay)
        ≡ done (pending, f, y)
      → timedlock_resume k (mutex_timedlock delay) x ≡ done (pending, locking delay f, y)
  unfolding timedlock_resume timed_resume timedlock_fn mutex_timedlock forward_fn resume
      timed_future async_fn u64 new_future
  timedlock-begins k delay x y f first =
      forward-begins timed_wake (timed_future task_waker) (new_future 0) keep_result
        (λ env. env.result) (λ env x'. semaphore_timedwait x'.semaphore x'.timers env.delay) k
        (record { delay = delay; result = false }) x y f first

  pub timedlock-ends :
      (k delay : ℕ) (x z : Timed) (b : Bool) (f g : TimedFuture)
      → timed_resume task_waker k f x ≡ done (ready b, g, z)
      → g.await_future ≡ none
      → (m : TimedLock) × (timedlock_resume k (locking delay f) x ≡ done (ready b, m, z))
  unfolding timedlock_resume timed_resume timedlock_fn forward_fn resume timed_future async_fn
      keep_result
  timedlock-ends k delay x z b f g next over =
      let (g', cleaned) = clean_over g z over in
      (
        _,
        forward-ends timed_wake (timed_future task_waker) (new_future 0) keep_result
            (λ env. env.result) (λ env x'. semaphore_timedwait x'.semaphore x'.timers env.delay) k
            (record { delay = delay; result = false }) x z z f g g' b next cleaned,
      )

module _ (task_waker : ℕ → ℕ) (k j t delay : ℕ) (x : Timed) where
  abbrev s : Semaphore
  s = x.semaphore

  abbrev h : Timers
  h = x.timers

  -- The course of a timed lock whose time runs out.
  pub record LockTimedOut : Type 0 where
    pub begins :
        timedlock_resume task_waker k (mutex_timedlock delay) x
        ≡ done (
          pending,
          locking task_waker delay (selecting task_waker idle_select),
          world task_waker k j t delay s h
              (queued 34 (task_waker 0) s)
              (timers task_waker k j t delay s h),
        )
    pub duration : ℕ
    pub in_time : duration ≤ delay
    pub later : Timers
    pub ticks : run_expirations duration (timers task_waker k j t delay s h) ≡ done later
    pub lock : TimedLock
    pub left : Timed
    pub ends :
        timedlock_resume task_waker j
          (locking task_waker delay (selecting task_waker (join_wake 1 idle_select)))
          (world task_waker k j t delay s h (queued 34 (task_waker 0) s) later)
        ≡ done (ready false, lock, left)
    pub semaphore : left.semaphore ≡ queued 33 (task_waker 0) s
    pub same_timers : left.timers ≡ later

  -- A timed lock of a mutex without a permit, begun between two ticks within the first four years,
  -- suspends with a node in the queue; within its delay comes a tick after which the poll that follows
  -- the wake of the sleep is ready with false, in one poll for the lock, the timed wait and its select:
  -- no permit is taken, the node stays in the queue with one owner, and no timer is changed.
  pub timedlock-LockTimedOut :
      Inv t h
      → t + delay < horizon
      → 0 < delay
      → h.timer_len + 1 < word_limit
      → s.counter ≡ 0
      → LockTimedOut
  timedlock-LockTimedOut v lt pos few none_left =
      let d = timedwait-TimedOut task_waker k j t delay s h v lt pos few none_left in
      let (m, ended) =
        timedlock-ends task_waker j delay
          (world task_waker k j t delay s h (queued 34 (task_waker 0) s) d.later) d.left false
          (selecting task_waker (join_wake 1 idle_select)) timed_over d.ends refl in
      record {
        begins =
            timedlock-begins task_waker k delay x _ (selecting task_waker idle_select) d.begins;
        duration = d.duration;
        in_time = d.in_time;
        later = d.later;
        ticks = d.ticks;
        lock = m;
        left = d.left;
        ends = ended;
        semaphore = d.semaphore;
        same_timers = d.same_timers;
      }
