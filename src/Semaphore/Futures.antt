-- ===== src/Semaphore/Futures.antt =====
-- taskio_semaphore_wait (src/sync/semaphore.c) as an async function, by the macros of
-- include/taskio/async.h. The world of its polls is the semaphore, and a context is the number of the
-- waker in it.
use taskio.Prelude.{ℕ, Bool, Option, none, some, [], ◌∷◌, ◌++◌, Run, done, ◌>>=◌}
use taskio.Async.{
  no_child, FutureOps, Action, suspends, returns, scope, AsyncFn, Future, new_future, async_fn,
}
use taskio.Semaphore.{Semaphore, wait, wait_cleanup}

-- struct taskio_semaphore_wait_env
pub record WaitEnv : Type 0 where
  pub node : Option ℕ
  pub timed : Bool

unfoldable pub wake : ℕ → Semaphore → Semaphore
wake waker s = record s { wakes = s.wakes ++ (waker ∷ []) }

-- `if (node)`, at the end of the first scope
unfoldable pub suspends_with : Option ℕ → Action WaitEnv Unit Unit Unit
suspends_with (some id) = suspends
suspends_with none = returns tt

-- taskio_semaphore_wait, the first scope
unfoldable pub wait_scope :
    ℕ → WaitEnv → Semaphore → Run (Action WaitEnv Unit Unit Unit × WaitEnv × Semaphore)
unfolding suspends_with
wait_scope waker env s =
    let (made, s') = wait s env.timed waker in
    let node : Option ℕ = elim made [ none ↦ env.node | some id ↦ some id ] in
    done (suspends_with node, record env { node = node }, s')

-- taskio_semaphore_wait
unfoldable pub wait_fn : AsyncFn ℕ Semaphore WaitEnv Unit Unit Unit
unfolding wait_scope
wait_fn = record {
  on_cleanup = λ env s. wait_cleanup s env.node >>= λ (s' : Semaphore). done (env, s');
  scopes = scope wait_scope ∷ scope (λ waker env s. done (returns tt, env, s)) ∷ [];
}

abbrev pub WaitFuture : Type 0
WaitFuture = Future WaitEnv Unit Unit

unfoldable pub wait_future : FutureOps ℕ Semaphore WaitFuture Unit
unfolding wait_fn wake
wait_future = async_fn wake no_child wait_fn

-- What taskio_semaphore_wait returns.
unfoldable pub semaphore_wait : Bool → WaitFuture
semaphore_wait timed = new_future (record { node = none; timed = timed })
