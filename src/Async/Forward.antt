-- ===== src/Async/Forward.antt =====
-- Async functions that await one future and return its output (include/taskio/async.h).
use taskio.Prelude.{◌+◌, ◌≡◌, refl, none, some, [], ◌∷◌, u64, done}
use taskio.Async.{
  pending, ready, FutureOps, awaits, returns, scope, AsyncFn, Future, new_future, resume, clean,
  poll, poll_await, begin_answer, poll1, run_scopes, enter, run_body, act, await_get, await_answer,
  received, store_out,
}

module _ {K X E C W V : Type 0} (wake : K → X → X) (child : FutureOps K X C W) (c : C)
    (keep : W → E → E) (result : E → V) (prepare : E → X → X) where
  unfoldable pub forward_fn : AsyncFn K X E C W V
  forward_fn = record {
    on_cleanup = λ env x. done (env, x);
    scopes =
        scope (λ k env x. done (awaits c (some keep), env, prepare env x))
        ∷ scope (λ k env x. done (returns (result env), env, x))
        ∷ [];
  }

  abbrev pub forwarding : C → E → Future E C W
  forwarding c' env = record {
    await_future = some c';
    await_out = some keep;
    counter = 1;
    env = env;
  }

  abbrev pub forwarded : E → Future E C W
  forwarded env = record { await_future = none; await_out = none; counter = 2; env = env }

  pub forward-begins :
      (k : K) (env : E) (x y : X) (d : C)
      → child.poll (some k) (child.set_counter 1 c) (prepare env x) ≡ done (pending, d, y)
      → resume wake child forward_fn k (new_future env) x ≡ done (pending, forwarding d env, y)
  unfolding resume poll poll1 run_scopes enter run_body act await_get await_answer u64 new_future
      forward_fn
  forward-begins k env x y d first = rw first refl

  pub forward-ends :
      (k : K) (env : E) (x y z : X) (d d' d'' : C) (w : W)
      → child.poll (some k) (child.set_counter (u64 (child.get_counter d + 1)) d) x
        ≡ done (ready w, d', y)
      → clean child d' y ≡ done (d'', z)
      → resume wake child forward_fn k (forwarding d env) x
        ≡ done (ready (result (keep w env)), forwarded (keep w env), z)
  unfolding resume poll poll_await begin_answer poll1 run_scopes enter run_body act received
      store_out forward_fn u64
  forward-ends k env x y z d d' d'' w next over = rw next (rw over refl)
