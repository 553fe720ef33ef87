-- ===== src/Mutex/Locks.antt =====
-- taskio_mutex_lock (src/sync/mutex.c): an async function that awaits the one of the semaphore.
use taskio.Prelude.{
  ℕ, ◌-◌, ◌<◌, ◌≡◌, refl, true, false, none, some, [], ◌∷◌, ◌++◌, arith, u64, u64_dec, ltb, inl,
  inr, Run-cases, Run, done, ◌>>=◌,
}
use taskio.Async.{
  clear_value, poll, poll_await, begin_answer, poll1, run_scopes, enter, run_body, act, await_get,
  await_answer, received, clean, store_out, Answer, pending, ready, awaits, returns, scope, AsyncFn,
  Future, new_future, resume, drive, async_fn, FutureOps,
}
use taskio.Semaphore.{Semaphore, wait, wait_cleanup}
use taskio.Semaphore.Queued.{queued, node_counter, wait_lem, node_drop-queued}
use taskio.Semaphore.Futures.{
  WaitFuture, wait_fn, wait_scope, suspends_with, wait_future, semaphore_wait, wake,
}

-- taskio_mutex_lock; the mutex is the world.
unfoldable pub lock_fn : AsyncFn ℕ Semaphore Unit WaitFuture Unit Unit
unfolding semaphore_wait
lock_fn = record {
  on_cleanup = λ env s. done (env, s);
  scopes =
      scope (λ waker env s. done (awaits (semaphore_wait false) none, env, s))
      ∷ scope (λ waker env s. done (returns tt, env, s))
      ∷ [];
}

abbrev pub LockFuture : Type 0
LockFuture = Future Unit WaitFuture Unit

unfoldable pub lock_resume : ℕ → LockFuture → Semaphore → Run (Answer Unit × LockFuture × Semaphore)
unfolding lock_fn wait_future wake
lock_resume = resume wake wait_future lock_fn

unfoldable pub lock_future : FutureOps ℕ Semaphore LockFuture Unit
unfolding lock_fn wait_future wake
lock_future = async_fn wake wait_future lock_fn

-- taskio_mutex_lock, and this future with node `id` in the queue
unfoldable pub mutex_lock : LockFuture
mutex_lock = new_future tt

unfoldable pub waiting : ℕ → LockFuture
waiting id = record {
  await_future = some (record {
    await_future = none;
    await_out = none;
    counter = 1;
    env = record { node = some id; timed = false };
  });
  await_out = none;
  counter = 1;
  env = tt;
}

-- A lock of a mutex that is free takes its one permit in the first poll, which calls its own waker
-- and calls nothing else; the second poll is ready, and the semaphore is otherwise as it was.
pub lock_free :
    (k j : ℕ) (s : Semaphore)
    → 0 < s.counter
    → (f : LockFuture) × (drive lock_resume (k ∷ j ∷ []) mutex_lock s
        ≡ done (
          pending ∷ ready tt ∷ [],
          f,
          record s { counter = s.counter - 1; wakes = s.wakes ++ (k ∷ []) },
        ))
unfolding drive lock_resume resume poll poll1 run_scopes enter run_body act await_get await_answer
    received clean wait_future async_fn wait_fn wait_scope lock_fn mutex_lock new_future wait wake
    suspends_with wait_cleanup semaphore_wait store_out u64 u64_dec lock_future poll_await
    begin_answer waiting
lock_free k j s free = let e : ltb 0 s.counter ≡ true = ground arith in rw e (_, refl)

-- A lock of a mutex that is not free waits with a node in the queue.
pub lock_waits :
    (k : ℕ) (s : Semaphore)
    → s.counter ≡ 0
    → lock_resume k mutex_lock s ≡ done (pending, waiting s.fresh, (wait s false k).1)
unfolding lock_resume resume poll poll1 run_scopes enter run_body act await_get await_answer
    received clean wait_future async_fn wait_fn wait_scope lock_fn mutex_lock new_future wait wake
    suspends_with wait_cleanup semaphore_wait store_out u64 waiting
lock_waits k s none_left = let e : ltb 0 s.counter ≡ false = ground arith in rw e refl

-- The next poll of a lock that waits is ready, whatever has happened to the semaphore, with its node
-- dropped.
pub lock_resumed :
    (k id : ℕ) (s : Semaphore)
    → (f : LockFuture) × (lock_resume k (waiting id) s
        ≡ wait_cleanup s (some id) >>= λ s'. done (ready tt, f, s'))
unfolding lock_resume resume poll poll1 run_scopes enter run_body act await_get await_answer
    received clean wait_future async_fn wait_fn wait_scope lock_fn mutex_lock new_future wait wake
    suspends_with semaphore_wait store_out u64 u64_dec poll_await begin_answer waiting
lock_resumed k id s = (
  record { await_future = none; await_out = none; counter = 2; env = tt },
  elim (Run-cases (wait_cleanup s (some id))) [ inl (s', e) ↦ rw e refl | inr (e', e) ↦ rw e refl ],
)

-- The clean-up of a lock that waits drops the node of the wait that it awaits.
pub lock_dropped :
    (id : ℕ) (s : Semaphore)
    → (f : LockFuture) × (clean lock_future (waiting id) s
        ≡ wait_cleanup s (some id) >>= λ s'. done (f, s'))
unfolding lock_future poll poll1 run_scopes clean wait_future async_fn wait_fn lock_fn poll_await
    waiting u64
lock_dropped id s = (
  record (waiting id) {
    await_future = some (record {
      await_future = none;
      await_out = none;
      counter = clear_value;
      env = record { node = some id; timed = false };
    });
    counter = clear_value;
  },
  elim (Run-cases (wait_cleanup s (some id))) [ inl (s', e) ↦ rw e refl | inr (e', e) ↦ rw e refl ],
)

-- A lock of a mutex without a permit that is polled twice is ready, with no signal between the polls:
-- no permit has come, no waker was called, and its node is still in the queue.
pub lock_unsignalled :
    (k j : ℕ) (s : Semaphore)
    → s.counter ≡ 0
    → (f : LockFuture) × (s' : Semaphore) × (drive lock_resume (k ∷ j ∷ []) mutex_lock s
        ≡ done (pending ∷ ready tt ∷ [], f, s'))
      × (s'.counter ≡ 0)
      × (s'.wakes ≡ s.wakes)
      × (s'.queue ≡ s.queue ++ (s.fresh ∷ []))
unfolding drive wait_cleanup queued
lock_unsignalled k j s none_left =
    let (f, next) = lock_resumed j s.fresh (queued (node_counter false) k s) in
    (
      f,
      queued 17 k s,
      rw (lock_waits k s none_left, wait_lem k s false none_left, next, node_drop-queued k s false)
          refl,
      none_left,
      refl,
      refl,
    )
