-- ===== src/Async.antt =====
-- include/taskio/async.h with the objects of include/taskio/future.h: an async function as the list
-- of its scopes. Its environment E, its context K with what the calls of a waker do to the world X,
-- and the bodies of the scopes are parameters, and so is the future that it awaits, by its
-- operations.
pub mod Program
pub mod Ready
pub mod Forward
pub mod Refines
pub mod Cleanup
pub mod Drive
pub mod Bounds
mod Tests
use taskio.Prelude.{
  ℕ, zero, suc, ◌+◌, ◌-◌, Bool, true, false, Option, none, some, List, [], ◌∷◌, ◌==◌, if◌then◌else◌,
  u64, u64_dec, word_limit, Run, done, fault, null_pointer, ◌>>=◌,
}

-- enum taskio_future_poll, with the output that a ready future has written.
pub data Answer (V : Type 0) : Type 0 where
  undefined pending : Answer V
  ready : V → Answer V

-- What one sees of a `struct taskio_future*`: its counter and its poll. A poll without a context has
-- NULL for its three arguments.
pub record FutureOps (K X C W : Type 0) : Type 0 where
  pub get_counter : C → ℕ
  pub set_counter : ℕ → C → C
  pub poll : Option K → C → X → Run (Answer W × C × X)

-- What an async function awaits that has no await.
abbrev pub no_child : {K X : Type 0} → FutureOps K X Unit Unit
no_child = record {
  get_counter = λ _. 0;
  set_counter = λ _ c. c;
  poll = λ _ _ _. fault null_pointer;
}

-- __TASKIO_FUTURE_CLR_VAL
abbrev pub clear_value : ℕ
clear_value = word_limit - 1

module _ (E C W V : Type 0) where
  -- How the body of a scope ends: yield, suspended_yield, async_break, await_get with the place for
  -- the output (none where it is NULL), async_return, or none of them.
  pub data Action : Type 0 where
    yields suspends breaks falls : Action
    awaits : C → Option (W → E → E) → Action
    returns : V → Action

-- struct taskio_future with the environment that lies behind it. What `await_future` points to is
-- kept there.
pub record Future (E C W : Type 0) : Type 0 where
  pub await_future : Option C
  pub await_out : Option (W → E → E)
  pub counter : ℕ
  pub env : E

module _ (K X E C W V : Type 0) where
  abbrev pub Body : Type 0
  Body = K → E → X → Run (Action E C W V × E × X)

  -- async_scope and async_scope_while
  pub data Scope : Type 0 where
    scope : Body → Scope
    scope_while : (E → Bool) → Body → Scope

  -- async_fn: what is under async_cleanup, and the scopes in their order
  pub record AsyncFn : Type 0 where
    pub on_cleanup : E → X → Run (E × X)
    pub scopes : List Scope

  abbrev pub Polled : Type 0
  Polled = Answer V × Future E C W × X

-- return_future_fn_inner_obj
unfoldable pub new_future : {E C W : Type 0} → E → Future E C W
new_future env = record { await_future = none; await_out = none; counter = 0; env = env }

-- The output of a child, written where `out` points.
unfoldable pub store_out : {E W : Type 0} → Option (W → E → E) → W → E → E
store_out none w env = env
store_out (some out) w env = out w env

-- The two fields that are set back when a child is ready, and the output.
unfoldable pub received : {E C W : Type 0} → W → Future E C W → Future E C W
unfolding store_out
received w f = record f {
  await_future = none;
  await_out = none;
  env = store_out f.await_out w f.env;
}

module _ {K X C W : Type 0} (child : FutureOps K X C W) where
  -- __TASKIO_FUTURE_CLEANUP
  unfoldable pub clean : C → X → Run (C × X)
  clean c x = child.poll none (child.set_counter clear_value c) x >>= λ (r : Answer W × C × X).
      done (r.1, r.2)

module _ {K X E C W V : Type 0} (wake : K → X → X) (child : FutureOps K X C W) where
  -- The switch of await_get.
  unfoldable pub await_answer : K → Answer W → C → Future E C W → X → Run (Polled K X E C W V)
  unfolding received clean
  await_answer k undefined c f x = done (pending, record f { await_future = some c }, x)
  await_answer k pending c f x = done (pending, record f { await_future = some c }, x)
  await_answer k (ready w) c f x =
      clean child c x >>= λ (r : C × X). done (pending, received w f, wake k (r.1))

  -- await_get
  unfoldable pub await_get :
      K → C → Option (W → E → E) → Future E C W → X → Run (Polled K X E C W V)
  unfolding await_answer
  await_get k c out f x =
      child.poll (some k) (child.set_counter 1 c) x >>= λ (r : Answer W × C × X).
      await_answer k (r.0) (r.1) (record f { await_out = out }) (r.2)

  -- The end of a body; `rest` is what stands behind the scope.
  unfoldable pub act :
      K
      → (Future E C W → X → Run (Polled K X E C W V))
      → Action E C W V
      → Future E C W
      → X
      → Run (Polled K X E C W V)
  unfolding await_get
  act k rest yields f x = done (pending, f, wake k x)
  act k rest suspends f x = done (pending, f, x)
  act k rest breaks f x = done (pending, record f { counter = u64 (f.counter + 1) }, wake k x)
  act k rest falls f x = rest f x
  act k rest (awaits c out) f x = await_get k c out f x
  act k rest (returns v) f x = done (ready v, f, x)

  unfoldable pub run_body :
      Option K
      → Body K X E C W V
      → (Future E C W → X → Run (Polled K X E C W V))
      → Future E C W
      → X
      → Run (Polled K X E C W V)
  unfolding act
  run_body none body rest f x = fault null_pointer
  run_body (some k) body rest f x = body k f.env x >>= λ (r : Action E C W V × E × X).
      act k rest (r.0) (record f { env = r.1 }) (r.2)

  -- A scope whose number is that of the counter.
  unfoldable pub enter :
      Option K
      → Scope K X E C W V
      → (Future E C W → X → Run (Polled K X E C W V))
      → Future E C W
      → X
      → Run (Polled K X E C W V)
  unfolding run_body
  enter ctx (scope body) rest f x = run_body ctx body rest f x
  enter ctx (scope_while cond body) rest f x =
      if cond f.env
      then run_body ctx body rest (record f { counter = u64_dec f.counter }) x
      else rest (record f { counter = u64 (f.counter + 1) }) x

  -- The scopes behind number `con`.
  unfoldable pub run_scopes :
      Option K → List (Scope K X E C W V) → ℕ → Future E C W → X → Run (Polled K X E C W V)
  unfolding enter
  run_scopes ctx [] con f x = done (undefined, f, x)
  run_scopes ctx (s ∷ ss) con f x =
      let con' = u64 (con + 1) in
      let rest = run_scopes ctx ss con' in
      if con' == f.counter then enter ctx s rest f x else rest f x

  module _ (fn : AsyncFn K X E C W V) where
    -- The function itself, name##_poll1
    unfoldable pub poll1 : Option K → Future E C W → X → Run (Polled K X E C W V)
    unfolding run_scopes
    poll1 ctx f x =
        if f.counter == clear_value
        then (fn.on_cleanup f.env x >>= λ (r : E × X).
            run_scopes ctx fn.scopes 0 (record f { env = r.0 }) (r.1))
        else run_scopes ctx fn.scopes 0 f x

    -- The switch of async_fn_begin; the answer goes through a pointer that is NULL in a clean-up.
    unfoldable pub begin_answer :
        Option K → Answer W → C → Future E C W → X → Run (Polled K X E C W V)
    unfolding poll1 received clean
    begin_answer ctx (ready w) c f x =
        clean child c x >>= λ (r : C × X). poll1 ctx (received w f) (r.1)
    begin_answer none undefined c f x = fault null_pointer
    begin_answer none pending c f x = fault null_pointer
    begin_answer (some k) undefined c f x =
        done (pending, record f { await_future = some c; counter = u64_dec f.counter }, x)
    begin_answer (some k) pending c f x =
        done (pending, record f { await_future = some c; counter = u64_dec f.counter }, x)

    -- async_fn_begin, with the child that is awaited, and the call behind it
    unfoldable pub poll_await : Option K → C → Future E C W → X → Run (Polled K X E C W V)
    unfolding begin_answer
    poll_await ctx c f x =
        if f.counter == clear_value
        then (clean child c x >>= λ (r : C × X).
            poll1 ctx (record f { await_future = some (r.0) }) (r.1))
        else (child.poll ctx (child.set_counter (u64 (child.get_counter c + 1)) c) x
            >>= λ (r : Answer W × C × X). begin_answer ctx (r.0) (r.1) f (r.2))

    -- name##_poll
    unfoldable pub poll : Option K → Future E C W → X → Run (Polled K X E C W V)
    unfolding poll_await
    poll ctx f x = elim f.await_future [ none ↦ poll1 ctx f x | some c ↦ poll_await ctx c f x ]

    -- An async function is a future that others can await.
    unfoldable pub async_fn : FutureOps K X (Future E C W) V
    unfolding poll
    async_fn = record {
      get_counter = λ f. f.counter;
      set_counter = λ n f. record f { counter = n };
      poll = poll;
    }

    -- What worker_run and taskio_join_ext do: the counter goes up before each poll.
    unfoldable pub resume : K → Future E C W → X → Run (Polled K X E C W V)
    unfolding poll
    resume k f x = poll (some k) (record f { counter = u64 (f.counter + 1) }) x

abbrev pub unless_ready :
    {S X V : Type 0}
    → Answer V
    → S
    → X
    → Run (List (Answer V) × S × X)
    → Run (List (Answer V) × S × X)
unless_ready (ready v) s x others = done (ready v ∷ [], s, x)
unless_ready pending s x others = others
unless_ready undefined s x others = others

module _ {K S X V : Type 0} (step : K → S → X → Run (Answer V × S × X)) where
  -- One poll in each of the contexts, up to the one that is ready, with the answers.
  unfoldable pub drive : List K → S → X → Run (List (Answer V) × S × X)
  drive [] s x = done ([], s, x)
  drive (k ∷ ks) s x = step k s x >>= λ (r : Answer V × S × X).
      unless_ready (r.0) (r.1) (r.2)
        (drive ks (r.1) (r.2) >>= λ (t : List (Answer V) × S × X). done (r.0 ∷ t.0, t.1, t.2))
