-- ===== src/Async/Cleanup.antt =====
-- The clean-up of an async function (include/taskio/async.h), which is a poll with the counter that
-- no scope has and without a context.
use taskio.Prelude.{
  ℕ, ◌+◌, ◌<◌, ◌≡◌, ◌∙◌, refl, sym, ap, inl, inr, true, false, Option, none, some, List, [], ◌∷◌,
  ◌==◌, Option-cases, length, arith, u64, u64_small, word_limit, Run, done, bind_assoc, bind_ext,
  ◌>>=◌,
}
use taskio.Async.{
  FutureOps, Scope, AsyncFn, Future, clean, clear_value, undefined, run_scopes, poll1, poll_await,
  poll, async_fn,
}

module _ {K X C W : Type 0} (child : FutureOps K X C W) where
  -- What is awaited, cleaned up.
  abbrev pub clean_awaited : Option C → X → Run (Option C × X)
  clean_awaited none x = done (none, x)
  clean_awaited (some c) x = clean child c x >>= λ (r : C × X). done (some (r.0), r.1)

module _ {K X E C W V : Type 0} (wake : K → X → X) (child : FutureOps K X C W) where
  run_scopes-short :
      (ctx : Option K) (ss : List (Scope K X E C W V)) (con : ℕ) (f : Future E C W) (x : X)
      → con + length ss < f.counter
      → f.counter < word_limit
      → run_scopes wake child ctx ss con f x ≡ done (undefined, f, x)
  unfolding run_scopes
  run_scopes-short ctx [] con f x short fits = refl
  run_scopes-short ctx (s ∷ ss) con f x short fits =
      let con' : u64 (con + 1) ≡ con + 1 = u64_small (con + 1) (omega arith) in
      let off : (con + 1 == f.counter) ≡ false = ground arith in
      rw (con', off) (run_scopes-short ctx ss (con + 1) f x (omega arith) fits)

  module _ (fn : AsyncFn K X E C W V) where
    abbrev pub clean_own : Future E C W → Option C → X → Run (Future E C W × X)
    clean_own f awaited x = fn.on_cleanup f.env x >>= λ (r : E × X).
        done (record f { await_future = awaited; env = r.0 }, r.1)

    poll1-clean :
        (f : Future E C W) (x : X)
        → f.counter ≡ clear_value
        → length fn.scopes < clear_value
        → (poll1 wake child fn none f x >>= λ r. done (r.1, r.2)) ≡ clean_own f f.await_future x
    unfolding poll1
    poll1-clean f x at short =
        let on : (f.counter == clear_value) ≡ true = ground arith in
        rw on (
          bind_assoc (fn.on_cleanup f.env x) _ _
          ∙ bind_ext (fn.on_cleanup f.env x) _ _ (λ r.
            rw
              (run_scopes-short none fn.scopes 0 (record f { env = r.0 }) (r.1) (omega arith)
                (omega arith))
              refl))

    -- The clean-up of an async function, which is polled without a context, is the clean-up of the
    -- future that it awaits, if it awaits one, with its own clean-up behind: no scope runs, and
    -- nothing faults that these two do not.
    pub clean-async_fn :
        (f : Future E C W) (x : X)
        → length fn.scopes < clear_value
        → clean (async_fn wake child fn) f x
          ≡ clean_awaited child f.await_future x >>= λ r.
              clean_own (record f { counter = clear_value }) (r.0) (r.1)
    unfolding clean async_fn poll poll_await
    clean-async_fn f x short = elim (Option-cases f.await_future) [
      | inl e ↦
          let g : Future E C W = record f { counter = clear_value } in
          rw (poll, e) (poll1-clean g x refl short ∙ ap (λ o. clean_own g o x) e)
      | inr (c, e) ↦
          let g : Future E C W = record f { counter = clear_value } in
          rw (poll, poll_await, e)
            (bind_assoc (clean child c x) _ _
              ∙ bind_ext (clean child c x) _ _
                  (λ r. poll1-clean (record g { await_future = some (r.0) }) (r.1) refl short)
              ∙ sym (bind_assoc (clean child c x) _ _))
    ]
