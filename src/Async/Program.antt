-- ===== src/Async/Program.antt =====
-- The program that an async function (include/taskio/async.h) stands for: it keeps the scopes that are
-- still to run where the code has a counter, and runs no other scope.
use taskio.Prelude.{
  ◌+◌, Option, none, some, List, [], ◌∷◌, if◌then◌else◌, drop, u64, Run, done, ◌>>=◌,
}
use taskio.Async.{
  Answer, undefined, pending, ready, FutureOps, Action, yields, suspends, breaks, falls, awaits,
  returns, Body, Scope, scope, scope_while, clean, store_out,
}

-- A program that is suspended.
pub record Program (K X E C W V : Type 0) : Type 0 where
  pub rest : List (Scope K X E C W V)
  pub awaited : Option C
  pub out : Option (W → E → E)
  pub env : E

abbrev pub Stopped : Type 0 → Type 0 → Type 0 → Type 0 → Type 0 → Type 0 → Type 0
Stopped K X E C W V = Answer V × Program K X E C W V × X

module _ {K X E C W V : Type 0} (wake : K → X → X) (child : FutureOps K X C W) where
  unfoldable pub answered : K → Answer W → C → Program K X E C W V → X → Run (Stopped K X E C W V)
  unfolding store_out
  answered k undefined c p x = done (pending, record p { awaited = some c }, x)
  answered k pending c p x = done (pending, record p { awaited = some c }, x)
  answered k (ready w) c p x = clean child c x >>= λ (r : C × X). done (
    pending,
    record p { awaited = none; out = none; env = store_out p.out w p.env },
    wake k (r.1),
  )

  -- The end of a body, with what is to run if it stops here and what if it breaks.
  unfoldable pub stop :
      K
      → Program K X E C W V
      → List (Scope K X E C W V)
      → Action E C W V
      → X
      → Run (Stopped K X E C W V)
  unfolding answered
  stop k p after yields x = done (pending, p, wake k x)
  stop k p after suspends x = done (pending, p, x)
  stop k p after breaks x = done (pending, record p { rest = after }, wake k x)
  stop k p after falls x = done (undefined, p, x)
  stop k p after (returns v) x = done (ready v, p, x)
  stop k p after (awaits c out) x =
      child.poll (some k) (child.set_counter 1 c) x >>= λ (r : Answer W × C × X).
      answered k (r.0) (r.1) (record p { out = out }) (r.2)

  unfoldable pub run_one :
      K
      → Body K X E C W V
      → Program K X E C W V
      → List (Scope K X E C W V)
      → X
      → Run (Stopped K X E C W V)
  unfolding stop
  run_one k body p after x = body k p.env x >>= λ (r : Action E C W V × E × X).
      stop k (record p { env = r.1 }) after (r.0) (r.2)

  -- The first scope that is left; a loop stays in front until its condition fails.
  unfoldable pub continue :
      K → List (Scope K X E C W V) → Program K X E C W V → X → Run (Stopped K X E C W V)
  unfolding run_one
  continue k [] p x = done (undefined, record p { rest = [] }, x)
  continue k (scope body ∷ ss) p x = run_one k body (record p { rest = ss }) (drop 1 ss) x
  continue k (scope_while cond body ∷ ss) p x =
      let skipped = continue k ss p x in
      if cond p.env
      then run_one k body (record p { rest = scope_while cond body ∷ ss }) ss x
      else skipped

  unfoldable pub resumed : K → Answer W → C → Program K X E C W V → X → Run (Stopped K X E C W V)
  unfolding continue store_out
  resumed k undefined c p x = done (pending, record p { awaited = some c }, x)
  resumed k pending c p x = done (pending, record p { awaited = some c }, x)
  resumed k (ready w) c p x = clean child c x >>= λ (r : C × X).
      continue k p.rest (record p { awaited = none; out = none; env = store_out p.out w p.env })
        (r.1)

  -- The child that is awaited has its turn first.
  unfoldable pub go_on : K → Program K X E C W V → X → Run (Stopped K X E C W V)
  unfolding resumed
  go_on k p x = elim p.awaited [
    | none ↦ continue k p.rest p x
    | some c ↦
        child.poll (some k) (child.set_counter (u64 (child.get_counter c + 1)) c) x
        >>= λ (r : Answer W × C × X). resumed k (r.0) (r.1) p (r.2)
  ]
