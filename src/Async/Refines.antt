-- ===== src/Async/Refines.antt =====
-- An async function (include/taskio/async.h) is the program that its scopes make.
use taskio.Prelude.{
  ℕ, zero, suc, ◌+◌, ◌<◌, ◌≤◌, ◌≡◌, ◌∙◌, refl, sym, ap, inl, inr, true, false, Option, some, List,
  [], ◌∷◌, ◌==◌, Bool-cases, Option-cases, drop, length, length-drop, drop-drop, arith, u64,
  u64_dec, u64_small, u64_dec_suc, word_limit, Run, done, map_run, map_run-bind,
}
use taskio.Async.{
  Answer, undefined, pending, ready, FutureOps, Action, yields, suspends, breaks, falls, awaits,
  returns, Body, Scope, scope, scope_while, AsyncFn, Future, Polled, clean, clear_value, received,
  await_answer, await_get, act, run_body, enter, run_scopes, poll1, begin_answer, poll_await, poll,
  resume,
}
use taskio.Async.Program.{Program, Stopped, answered, stop, run_one, continue, resumed, go_on}

abbrev pub program :
    {K X E C W V : Type 0} → List (Scope K X E C W V) → Future E C W → Program K X E C W V
program r f = record { rest = r; awaited = f.await_future; out = f.await_out; env = f.env }

module _ {K X E C W V : Type 0} (scopes : List (Scope K X E C W V)) where
  -- The program that is left of an async function.
  abbrev pub left : Future E C W → Program K X E C W V
  left f = program (drop f.counter scopes) f

  abbrev pub seen : Polled K X E C W V → Stopped K X E C W V
  seen (a, f, x) = (a, left f, x)

module _ {K X E C W V : Type 0} (wake : K → X → X) (child : FutureOps K X C W) where
  -- Scopes behind the one of the counter do not run.
  run_scopes-past :
      (ctx : Option K) (ss : List (Scope K X E C W V)) (con : ℕ) (f : Future E C W) (x : X)
      → f.counter ≤ con
      → con + length ss < word_limit
      → run_scopes wake child ctx ss con f x ≡ done (undefined, f, x)
  unfolding run_scopes
  run_scopes-past ctx [] con f x behind fits = refl
  run_scopes-past ctx (s ∷ ss) con f x behind fits =
      let con' : u64 (con + 1) ≡ con + 1 = u64_small (con + 1) (omega arith) in
      let off : (con + 1 == f.counter) ≡ false = ground arith in
      rw (con', off) (run_scopes-past ctx ss (con + 1) f x (omega arith) (omega arith))

  -- Scopes before it do not run either.
  run_scopes-before :
      (ctx : Option K) (ss : List (Scope K X E C W V)) (j con : ℕ) (f : Future E C W) (x : X)
      → f.counter ≡ con + 1 + j
      → con + j + length ss + 1 < word_limit
      → run_scopes wake child ctx ss con f x ≡ run_scopes wake child ctx (drop j ss) (con + j) f x
  unfolding run_scopes
  run_scopes-before ctx ss zero con f x at fits =
      let e : con ≡ con + 0 = omega arith in ap (λ n. run_scopes wake child ctx ss n f x) e
  run_scopes-before ctx [] (suc j) con f x at fits = refl
  run_scopes-before ctx (s ∷ ss) (suc j) con f x at fits =
      let con' : u64 (con + 1) ≡ con + 1 = u64_small (con + 1) (omega arith) in
      let off : (con + 1 == f.counter) ≡ false = ground arith in
      let e : con + 1 + j ≡ con + suc j = omega arith in
      rw (con', off)
        (run_scopes-before ctx ss j (con + 1) f x (omega arith) (omega arith)
          ∙ ap (λ n. run_scopes wake child ctx (drop j ss) n f x) e)

  module _ (scopes : List (Scope K X E C W V)) where
    await_answer-answered :
        (k : K) (answer : Answer W) (c : C) (f : Future E C W) (x : X)
        → map_run (seen scopes) (await_answer wake child k answer c f x)
          ≡ answered wake child k answer c (left scopes f) x
    unfolding await_answer answered received
    await_answer-answered k undefined c f x = refl
    await_answer-answered k pending c f x = refl
    await_answer-answered k (ready w) c f x =
        map_run-bind (seen scopes) (clean child c x) _ _ (λ r. refl)

    -- The end of a body, for a function whose remaining scopes do not run in this poll.
    act-stop :
        (k : K) (rest : Future E C W → X → Run (Polled K X E C W V)) (a : Action E C W V)
        (f : Future E C W) (after : List (Scope K X E C W V)) (x : X)
        → after ≡ drop (u64 (f.counter + 1)) scopes
        → rest f x ≡ done (undefined, f, x)
        → map_run (seen scopes) (act wake child k rest a f x)
          ≡ stop wake child k (left scopes f) after a x
    unfolding act stop await_get
    act-stop k rest yields f after x next ends = refl
    act-stop k rest suspends f after x next ends = refl
    act-stop k rest breaks f after x next ends = rw next refl
    act-stop k rest falls f after x next ends = rw ends refl
    act-stop k rest (returns v) f after x next ends = refl
    act-stop k rest (awaits c out) f after x next ends =
        map_run-bind (seen scopes) (child.poll (some k) (child.set_counter 1 c) x) _ _
          (λ r. await_answer-answered k (r.0) (r.1) (record f { await_out = out }) (r.2))

    run_body-run_one :
        (k : K) (body : Body K X E C W V) (rest : Future E C W → X → Run (Polled K X E C W V))
        (f : Future E C W) (now after : List (Scope K X E C W V)) (x : X)
        → now ≡ drop f.counter scopes
        → after ≡ drop (u64 (f.counter + 1)) scopes
        → ((env : E) (x' : X)
            → rest (record f { env = env }) x' ≡ done (undefined, record f { env = env }, x'))
        → map_run (seen scopes) (run_body wake child (some k) body rest f x)
          ≡ run_one wake child k body (program now f) after x
    unfolding run_body run_one
    run_body-run_one k body rest f now after x here next ends = rw here (
        map_run-bind (seen scopes) (body k f.env x) _ _
          (λ r. act-stop k rest (r.0) (record f { env = r.1 }) after (r.2) next (ends (r.1) (r.2))))

    -- `ss` are the scopes behind number `con`.
    abbrev Behind : ℕ → List (Scope K X E C W V) → Type 0
    Behind con ss = (j : ℕ) → drop (con + j) scopes ≡ drop j ss

    Behind-next :
        (con : ℕ) (s : Scope K X E C W V) (ss : List (Scope K X E C W V))
        → Behind con (s ∷ ss)
        → Behind (con + 1) ss
    Behind-next con s ss behind j =
        let e : con + 1 + j ≡ con + suc j = omega arith in
        ap (λ n. drop n scopes) e ∙ behind (suc j)

    Behind-at :
        (con j n : ℕ) (ss : List (Scope K X E C W V))
        → Behind con ss
        → n ≡ con + j
        → drop j ss ≡ drop n scopes
    Behind-at con j n ss behind e = sym (ap (λ m. drop m scopes) e ∙ behind j)

    run_scopes-continue :
        (k : K) (ss : List (Scope K X E C W V)) (con : ℕ) (f : Future E C W) (x : X)
        (now : List (Scope K X E C W V))
        → f.counter ≡ con + 1
        → con + length ss + 2 < word_limit
        → Behind con ss
        → map_run (seen scopes) (run_scopes wake child (some k) ss con f x)
          ≡ continue wake child k ss (program now f) x
    unfolding run_scopes enter continue
    run_scopes-continue k [] con f x now at fits behind =
        rw (sym (Behind-at con 1 f.counter [] behind at)) refl
    run_scopes-continue k (scope body ∷ ss) con f x now at fits behind =
        let con' : u64 (con + 1) ≡ con + 1 = u64_small (con + 1) (omega arith) in
        let on : (con + 1 == f.counter) ≡ true = ground arith in
        let up : u64 (f.counter + 1) ≡ con + 2 =
          u64_small (f.counter + 1) (omega arith) ∙ omega arith in
        rw (con', on)
          (run_body-run_one k body _ f ss (drop 1 ss) x (Behind-at con 1 f.counter _ behind at)
            (Behind-at con 2 _ _ behind up)
            (λ env x'.
              run_scopes-past (some k) ss (con + 1) (record f { env = env }) x' (omega arith)
                (omega arith)))
    run_scopes-continue k (scope_while cond body ∷ ss) con f x now at fits behind =
        let con' : u64 (con + 1) ≡ con + 1 = u64_small (con + 1) (omega arith) in
        let on : (con + 1 == f.counter) ≡ true = ground arith in
        let up : u64 (f.counter + 1) ≡ con + 1 + 1 =
          u64_small (f.counter + 1) (omega arith) ∙ omega arith in
        let down : u64_dec f.counter ≡ con = u64_dec_suc f.counter con at (omega arith) in
        elim (Bool-cases (cond f.env)) [
          | inl goes ↦
              rw (con', on, goes, down)
                (run_body-run_one k body _ (record f { counter = con }) (scope_while cond body ∷ ss)
                  ss x (Behind-at con 0 con _ behind (omega arith))
                  (Behind-at con 1 _ _ behind con')
                  (λ env x'.
                    run_scopes-past (some k) ss (con + 1) (record f { counter = con; env = env }) x'
                      (omega arith) (omega arith)))
          | inr fails ↦
              rw (con', on, fails, up)
                (run_scopes-continue k ss (con + 1) (record f { counter = con + 1 + 1 }) x now refl
                  (omega arith) (Behind-next con (scope_while cond body) ss behind))
        ]

  module _ (fn : AsyncFn K X E C W V) where
    abbrev Fits : ℕ → Type 0
    Fits n = n + length fn.scopes + 2 < clear_value

    poll1-continue :
        (k : K) (n : ℕ) (f : Future E C W) (x : X) (now : List (Scope K X E C W V))
        → f.counter ≡ n + 1
        → Fits n
        → map_run (seen fn.scopes) (poll1 wake child fn (some k) f x)
          ≡ continue wake child k (drop n fn.scopes) (program now f) x
    unfolding poll1
    poll1-continue k n f x now at small =
        let live : (f.counter == clear_value) ≡ false = ground arith in
        let shorter = length-drop n fn.scopes in
        rw live (
          ap (map_run (seen fn.scopes))
            (run_scopes-before (some k) fn.scopes n 0 f x (omega arith) (omega arith))
          ∙ run_scopes-continue fn.scopes k (drop n fn.scopes) (0 + n) f x now (omega arith)
              (omega arith)
              (λ j.
                let e : 0 + n + j ≡ n + j = omega arith in
                ap (λ m. drop m fn.scopes) e ∙ drop-drop n j fn.scopes))

    begin_answer-resumed :
        (k : K) (answer : Answer W) (c : C) (n : ℕ) (f : Future E C W) (x : X)
        → f.counter ≡ n + 1
        → Fits n
        → map_run (seen fn.scopes) (begin_answer wake child fn (some k) answer c f x)
          ≡ resumed wake child k answer c (program (drop n fn.scopes) f) x
    unfolding begin_answer resumed received
    begin_answer-resumed k undefined c n f x at small =
        rw (u64_dec_suc f.counter n at (omega arith)) refl
    begin_answer-resumed k pending c n f x at small =
        rw (u64_dec_suc f.counter n at (omega arith)) refl
    begin_answer-resumed k (ready w) c n f x at small =
        map_run-bind (seen fn.scopes) (clean child c x) _ _
          (λ r. poll1-continue k n (received w f) (r.1) (drop n fn.scopes) at small)

    poll-go_on :
        (k : K) (n : ℕ) (f : Future E C W) (x : X)
        → f.counter ≡ n + 1
        → Fits n
        → map_run (seen fn.scopes) (poll wake child fn (some k) f x)
          ≡ go_on wake child k (program (drop n fn.scopes) f) x
    unfolding poll poll_await go_on
    poll-go_on k n f x at small =
        let live : (f.counter == clear_value) ≡ false = ground arith in
        elim (Option-cases f.await_future) [
          | inl e ↦ rw (poll, go_on, e) (poll1-continue k n f x (drop n fn.scopes) at small)
          | inr (c, e) ↦
              rw (poll, poll_await, go_on, e, live)
                (map_run-bind (seen fn.scopes)
                  (child.poll (some k) (child.set_counter (u64 (child.get_counter c + 1)) c) x) _ _
                  (λ r. begin_answer-resumed k (r.0) (r.1) n f (r.2) at small))
        ]

    pub resume-go_on :
        (k : K) (f : Future E C W) (x : X)
        → f.counter + length fn.scopes + 2 < clear_value
        → map_run (seen fn.scopes) (resume wake child fn k f x)
          ≡ go_on wake child k (left fn.scopes f) x
    unfolding resume
    resume-go_on k f x small =
        let up : u64 (f.counter + 1) ≡ f.counter + 1 = u64_small (f.counter + 1) (omega arith) in
        poll-go_on k f.counter (record f { counter = u64 (f.counter + 1) }) x up small
