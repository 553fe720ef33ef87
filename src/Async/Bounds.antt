-- ===== src/Async/Bounds.antt =====
-- How far a poll moves the counter of a future (include/taskio/async.h).
use taskio.Prelude.{
  ℕ, ◌+◌, ◌<◌, ◌≤◌, ◌≡◌, inl, inr, false, Option, none, some, List, [], ◌∷◌, ◌==◌, Bool-cases,
  Option-cases, length, arith, u64, u64_dec, u64_small, u64_dec_suc, word_limit, Run, Ends,
  Ends-bind,
}
use taskio.Async.{
  Answer, undefined, pending, ready, FutureOps, Action, yields, suspends, breaks, falls, awaits,
  returns, Body, Scope, scope, scope_while, AsyncFn, Future, Polled, clean, clear_value, received,
  await_answer, await_get, act, run_body, enter, run_scopes, poll1, begin_answer, poll_await, poll,
  resume,
}

module _ {K X E C W : Type 0} (V : Type 0) (wake : K → X → X) (child : FutureOps K X C W)
    (bound : ℕ) where
  await_answer-bound :
      (k : K) (answer : Answer W) (c : C) (f : Future E C W) (x : X)
      → f.counter ≤ bound
      → Ends (λ r. (r.1).counter ≤ bound) (await_answer {V = V} wake child k answer c f x)
  unfolding await_answer received
  await_answer-bound k undefined c f x small = small
  await_answer-bound k pending c f x small = small
  await_answer-bound k (ready w) c f x small = Ends-bind _ (clean child c x) _ (λ r. small)

module _ {K X E C W V : Type 0} (wake : K → X → X) (child : FutureOps K X C W) (bound : ℕ) where
  abbrev CounterBelow : Run (Polled K X E C W V) → Type 0
  CounterBelow run = Ends (λ r. (r.1).counter ≤ bound) run

  act-bound :
      (k : K) (rest : Future E C W → X → Run (Polled K X E C W V)) (a : Action E C W V)
      (f : Future E C W) (x : X)
      → f.counter < bound
      → bound < word_limit
      → CounterBelow (rest f x)
      → CounterBelow (act wake child k rest a f x)
  unfolding act await_get
  act-bound k rest yields f x small fits after = omega arith
  act-bound k rest suspends f x small fits after = omega arith
  act-bound k rest breaks f x small fits after =
      rw (u64_small (f.counter + 1) (omega arith)) (omega arith)
  act-bound k rest falls f x small fits after = after
  act-bound k rest (returns v) f x small fits after = omega arith
  act-bound k rest (awaits c out) f x small fits after =
      Ends-bind _ (child.poll (some k) (child.set_counter 1 c) x) _ (λ r.
        await_answer-bound V wake child bound k (r.0) (r.1) (record f { await_out = out }) (r.2)
          (omega arith))

  run_body-bound :
      (ctx : Option K) (body : Body K X E C W V)
      (rest : Future E C W → X → Run (Polled K X E C W V)) (f : Future E C W) (x : X)
      → f.counter < bound
      → bound < word_limit
      → ((env : E) (x' : X) → CounterBelow (rest (record f { env = env }) x'))
      → CounterBelow (run_body wake child ctx body rest f x)
  unfolding run_body
  run_body-bound none body rest f x small fits after = tt
  run_body-bound (some k) body rest f x small fits after =
      Ends-bind _ (body k f.env x) _
        (λ r. act-bound k rest (r.0) (record f { env = r.1 }) (r.2) small fits (after (r.1) (r.2)))

  enter-bound :
      (ctx : Option K) (s : Scope K X E C W V) (rest : Future E C W → X → Run (Polled K X E C W V))
      (n : ℕ) (f : Future E C W) (x : X)
      → f.counter ≡ n + 1
      → n + 2 ≤ bound
      → bound < word_limit
      → ((f' : Future E C W) (x' : X) → f'.counter ≤ bound → CounterBelow (rest f' x'))
      → CounterBelow (enter wake child ctx s rest f x)
  unfolding enter
  enter-bound ctx (scope body) rest n f x at small fits after =
      run_body-bound ctx body rest f x (omega arith) fits
        (λ env x'. after (record f { env = env }) x' (omega arith))
  enter-bound ctx (scope_while cond body) rest n f x at small fits after =
      let down : u64_dec f.counter ≡ n = u64_dec_suc f.counter n at (omega arith) in
      let up : u64 (f.counter + 1) ≡ f.counter + 1 = u64_small (f.counter + 1) (omega arith) in
      elim (Bool-cases (cond f.env)) [
        | inl goes ↦
            rw (goes, down)
              (run_body-bound ctx body rest (record f { counter = n }) x (omega arith) fits
                (λ env x'. after (record f { counter = n; env = env }) x' (omega arith)))
        | inr fails ↦ rw (fails, up) (after (record f { counter = f.counter + 1 }) x (omega arith))
      ]

  run_scopes-bound :
      (ctx : Option K) (ss : List (Scope K X E C W V)) (con : ℕ) (f : Future E C W) (x : X)
      → f.counter ≤ bound
      → con + length ss + 2 ≤ bound
      → bound < word_limit
      → CounterBelow (run_scopes wake child ctx ss con f x)
  unfolding run_scopes
  run_scopes-bound ctx [] con f x small room fits = small
  run_scopes-bound ctx (s ∷ ss) con f x small room fits =
      let con' : u64 (con + 1) ≡ con + 1 = u64_small (con + 1) (omega arith) in
      let rest = λ (f' : Future E C W) (x' : X) (s' : f'.counter ≤ bound).
        run_scopes-bound ctx ss (con + 1) f' x' s' (omega arith) fits in
      elim (Bool-cases (con + 1 == f.counter)) [
        | inl here ↦
            let at : f.counter ≡ con + 1 = ground (arith, here) in
            rw (con', here) (enter-bound ctx s _ con f x at (omega arith) fits rest)
        | inr away ↦ rw (con', away) (rest f x small)
      ]

  module _ (fn : AsyncFn K X E C W V) where
    poll1-bound :
        (ctx : Option K) (f : Future E C W) (x : X)
        → f.counter ≤ bound
        → length fn.scopes + 2 ≤ bound
        → bound < clear_value
        → CounterBelow (poll1 wake child fn ctx f x)
    unfolding poll1
    poll1-bound ctx f x small room fits =
        let live : (f.counter == clear_value) ≡ false = ground arith in
        rw live (run_scopes-bound ctx fn.scopes 0 f x small (omega arith) (omega arith))

    begin_answer-bound :
        (k : K) (answer : Answer W) (c : C) (n : ℕ) (f : Future E C W) (x : X)
        → f.counter ≡ n + 1
        → f.counter ≤ bound
        → length fn.scopes + 2 ≤ bound
        → bound < clear_value
        → CounterBelow (begin_answer wake child fn (some k) answer c f x)
    unfolding begin_answer received
    begin_answer-bound k undefined c n f x at small room fits =
        rw (u64_dec_suc f.counter n at (omega arith)) (omega arith)
    begin_answer-bound k pending c n f x at small room fits =
        rw (u64_dec_suc f.counter n at (omega arith)) (omega arith)
    begin_answer-bound k (ready w) c n f x at small room fits =
        Ends-bind _ (clean child c x) _
          (λ r. poll1-bound (some k) (received w f) (r.1) small room fits)

    poll-bound :
        (k : K) (n : ℕ) (f : Future E C W) (x : X)
        → f.counter ≡ n + 1
        → f.counter ≤ bound
        → length fn.scopes + 2 ≤ bound
        → bound < clear_value
        → CounterBelow (poll wake child fn (some k) f x)
    unfolding poll poll_await
    poll-bound k n f x at small room fits =
        let live : (f.counter == clear_value) ≡ false = ground arith in
        elim (Option-cases f.await_future) [
          | inl e ↦ rw (poll, e) (poll1-bound (some k) f x small room fits)
          | inr (c, e) ↦
              rw (poll, poll_await, e, live)
                (Ends-bind _
                  (child.poll (some k) (child.set_counter (u64 (child.get_counter c + 1)) c) x) _
                  (λ r. begin_answer-bound k (r.0) (r.1) n f (r.2) at small room fits))
        ]

    -- A poll leaves the counter at most one larger than it was, or at most two larger than the number
    -- of scopes, below any such bound that is smaller than the counter of a clean-up.
    pub resume-bound :
        (k : K) (f : Future E C W) (x : X)
        → f.counter < bound
        → length fn.scopes + 2 ≤ bound
        → bound < clear_value
        → Ends (λ r. (r.1).counter ≤ bound) (resume wake child fn k f x)
    unfolding resume
    resume-bound k f x small room fits =
        let up : u64 (f.counter + 1) ≡ f.counter + 1 = u64_small (f.counter + 1) (omega arith) in
        poll-bound k f.counter (record f { counter = u64 (f.counter + 1) }) x up (omega (arith, up))
          room fits
