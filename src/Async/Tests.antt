-- ===== src/Async/Tests.antt =====
-- Runs of async functions of include/taskio/async.h.
use taskio.Prelude.{
  ℕ, ◌+◌, ◌≡◌, refl, none, some, List, [], ◌∷◌, arith, ltb, u64, u64_dec, done, map_run, ◌>>=◌,
}
use taskio.Async.{
  pending, ready, FutureOps, yields, suspends, awaits, returns, scope, scope_while, AsyncFn, Future,
  no_child, new_future, resume, drive, clean, async_fn, clear_value, poll, poll_await, begin_answer,
  poll1, run_scopes, enter, run_body, act, await_get, await_answer, received, store_out,
}
use taskio.Async.Program.{go_on}
use taskio.Async.Ready.{Finishes, EndsReady, drive-EndsReady}
use taskio.Async.Drive.{seen_all, drive-refines}
use taskio.Async.Cleanup.{clean_awaited, clean_own, clean-async_fn}

-- The world counts the calls of wakers and what is cleaned up.
abbrev wake_one : ℕ → ℕ → ℕ
wake_one k x = x + 1

-- A loop of three rounds, and its result.
abbrev counting : AsyncFn ℕ ℕ ℕ Unit Unit ℕ
counting = record {
  on_cleanup = λ e x. done (e, x + 100);
  scopes =
      scope (λ k e x. done (yields, 0, x))
      ∷ scope_while (λ e. ltb e 3) (λ k e x. done (yields, e + 1, x))
      ∷ scope (λ k e x. done (returns e, e, x))
      ∷ [];
}

abbrev Counting : Type 0
Counting = Future ℕ Unit Unit

counting_future : FutureOps ℕ ℕ Counting ℕ
counting_future = async_fn wake_one no_child counting

-- A function that awaits the loop and doubles its result.
abbrev doubling : AsyncFn ℕ ℕ ℕ Counting ℕ ℕ
doubling = record {
  on_cleanup = λ e x. done (e, x + 1000);
  scopes =
      scope (λ k e x. done (awaits (new_future 7) (some (λ w _. w)), e, x))
      ∷ scope (λ k e x. done (returns (e + e), e, x))
      ∷ [];
}

abbrev polls : List ℕ
polls = 1 ∷ 2 ∷ 3 ∷ 4 ∷ 5 ∷ 6 ∷ []

-- The loop is cleaned up when it is ready; both are in the poll that ends the loop.
doubled :
    drive (resume wake_one counting_future doubling) polls (new_future 0) 0
    ≡ done (
      pending ∷ pending ∷ pending ∷ pending ∷ ready 6 ∷ [],
      record { await_future = none; await_out = none; counter = 2; env = 3 },
      104,
    )
unfolding drive resume poll poll_await begin_answer poll1 run_scopes enter run_body act await_get
    await_answer received store_out clean async_fn counting_future new_future u64 u64_dec
doubled = refl

drive-refines_example :
    map_run
      (seen_all wake_one counting_future doubling)
      (drive (resume wake_one counting_future doubling) polls (new_future 0) 0)
    ≡ drive
        (go_on wake_one counting_future)
        polls
        (record { rest = doubling.scopes; awaited = none; out = none; env = 0 })
        0
drive-refines_example = drive-refines wake_one counting_future doubling polls 0 0 (omega arith)

-- A doubling that awaits a loop.
abbrev awaiting : Future ℕ Counting ℕ
awaiting = record {
  await_future = some (record { await_future = none; await_out = none; counter = 1; env = 2 });
  await_out = some (λ w _. w);
  counter = 1;
  env = 0;
}

clean-async_fn_example :
    clean (async_fn wake_one counting_future doubling) awaiting 0
    ≡ clean_awaited counting_future awaiting.await_future 0 >>= λ r.
        clean_own wake_one counting_future doubling
          (record awaiting { counter = clear_value })
          (r.0)
          (r.1)
clean-async_fn_example = clean-async_fn wake_one counting_future doubling awaiting 0 (omega arith)

-- A function that is ready in its second poll, and one that awaits it.
abbrev slow : AsyncFn ℕ ℕ ℕ Unit Unit ℕ
slow = record {
  on_cleanup = λ e x. done (e, x);
  scopes = scope (λ k e x. done (suspends, e, x)) ∷ scope (λ k e x. done (returns 5, e, x)) ∷ [];
}

slow_future : FutureOps ℕ ℕ Counting ℕ
slow_future = async_fn wake_one no_child slow

slow-Finishes : Finishes slow_future 1 (slow_future.set_counter 1 (new_future 7))
unfolding poll poll_await begin_answer poll1 run_scopes enter run_body act clean async_fn
    slow_future new_future u64 u64_dec
slow-Finishes k x = (pending, _, _, refl, λ k' x'. (ready 5, _, _, refl, λ y. (_, refl)))

drive-EndsReady_example :
    EndsReady (drive (resume wake_one slow_future doubling) polls (new_future 0) 0)
drive-EndsReady_example =
    drive-EndsReady wake_one slow_future 1 doubling polls 0 0
      (λ k env x. (
        awaits (new_future 7) _,
        env,
        x,
        refl,
        (slow-Finishes, λ k' env' x'. (returns (env' + env'), env', x', refl, tt)),
      ))
      (omega arith) (omega arith)
