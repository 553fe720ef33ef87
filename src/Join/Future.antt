-- ===== src/Join/Future.antt =====
-- taskio_join_ext of src/common/join_ext.c, and by it taskio_join and taskio_select, as async
-- functions of include/taskio/async.h: one scope that is a loop without end.
use taskio.Prelude.{ℕ, true, Option, none, some, [], ◌∷◌, Run, done, ◌>>=◌}
use taskio.Async.{
  Answer, FutureOps, Action, returns, suspends, scope_while, AsyncFn, Future, no_child, async_fn,
}
use taskio.Join.{JoinEnv, Joined, joined, selected_index, waits, join_poll, cleanup}

-- async_return, with the index or without a value, or suspended_yield
unfoldable pub join_action : Joined → Action JoinEnv Unit Unit (Option ℕ)
join_action joined = returns none
join_action (selected_index i) = returns (some i)
join_action waits = suspends

-- The polls and clean-ups of the futures, in the context of a task; the fuel of the loop over them,
-- and the value of rand().
module _ {K X V : Type 0} (wake : K → X → X)
    (poll : K → ℕ → JoinEnv → X → Run (Answer V × JoinEnv × X)) (clean : ℕ → X → Run X)
    (fuel random : ℕ) where
  unfoldable pub join_scope :
      K → JoinEnv → X → Run (Action JoinEnv Unit Unit (Option ℕ) × JoinEnv × X)
  unfolding join_action
  join_scope k env x = join_poll (poll k) clean fuel random env x >>= λ (r : Joined × JoinEnv × X).
      done (join_action (r.0), r.1, r.2)

  unfoldable pub join_fn : AsyncFn K X JoinEnv Unit Unit (Option ℕ)
  unfolding join_scope
  join_fn = record {
    on_cleanup = cleanup clean;
    scopes = scope_while (λ env. true) join_scope ∷ [];
  }

  unfoldable pub join_future : FutureOps K X (Future JoinEnv Unit Unit) (Option ℕ)
  unfolding join_fn
  join_future = async_fn wake no_child join_fn
