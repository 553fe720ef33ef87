-- ===== src/Async/Drive.antt =====
-- Any number of polls of an async function (include/taskio/async.h).
use taskio.Prelude.{
  ℕ, ◌+◌, ◌*◌, none, ◌<◌, ◌≤◌, ◌≡◌, refl, List, [], ◌∷◌, length, arith, map_run, map_run-along,
  Ends-trivially, Run,
}
use taskio.Async.{
  Answer, undefined, pending, ready, FutureOps, AsyncFn, Future, clear_value, resume, drive,
  unless_ready, new_future,
}
use taskio.Async.Program.{Program, go_on}
use taskio.Async.Refines.{left, seen, resume-go_on}
use taskio.Async.Bounds.{resume-bound}

module _ {K X E C W V : Type 0} (wake : K → X → X) (child : FutureOps K X C W)
    (fn : AsyncFn K X E C W V) where
  abbrev pub seen_all :
      List (Answer V) × Future E C W × X → List (Answer V) × Program K X E C W V × X
  seen_all (answers, f, x) = (answers, left fn.scopes f, x)

  unless_ready-seen :
      (a : Answer V) (f : Future E C W) (x : X) (others : Run (List (Answer V) × Future E C W × X))
      (others' : Run (List (Answer V) × Program K X E C W V × X))
      → map_run seen_all others ≡ others'
      → map_run seen_all (unless_ready a f x others) ≡ unless_ready a (left fn.scopes f) x others'
  unless_ready-seen (ready v) f x others others' same = refl
  unless_ready-seen pending f x others others' same = same
  unless_ready-seen undefined f x others others' same = same

  drive-below :
      (bound : ℕ) (ks : List K) (f : Future E C W) (x : X)
      → f.counter ≤ bound
      → length fn.scopes + 2 ≤ bound
      → bound + length ks + length fn.scopes + 2 < clear_value
      → map_run seen_all (drive (resume wake child fn) ks f x)
        ≡ drive (go_on wake child) ks (left fn.scopes f) x
  unfolding drive
  drive-below bound [] f x small room fits = refl
  drive-below bound (k ∷ ks) f x small room fits =
      map_run-along (seen fn.scopes) seen_all (λ r. (r.1).counter ≤ bound + 1)
        (resume wake child fn k f x) (go_on wake child k (left fn.scopes f) x) _ _
        (resume-go_on wake child fn k f x (omega arith))
        (resume-bound wake child (bound + 1) fn k f x (omega arith) (omega arith) (omega arith))
        (λ r small'. unless_ready-seen (r.0) (r.1) (r.2) _ _ (
          map_run-along seen_all seen_all (λ t. Unit) (drive (resume wake child fn) ks (r.1) (r.2))
            _ _ _ (drive-below (bound + 1) ks (r.1) (r.2) small' (omega arith) (omega arith))
            (Ends-trivially (drive (resume wake child fn) ks (r.1) (r.2))) (λ t u. refl)))

  -- The same polls of an async function and of the program that is left of it, with fewer than
  -- 2^64 - 1 polls, with the scopes counted three times: the same answers in the same order, the same
  -- world and the same environment, and faults at the same place; what is left of the function is
  -- what is left of the program.
  pub drive-refines :
      (ks : List K) (env : E) (x : X)
      → 2 * length fn.scopes + 4 + length ks < clear_value
      → map_run seen_all (drive (resume wake child fn) ks (new_future env) x)
        ≡ drive
            (go_on wake child)
            ks
            (record { rest = fn.scopes; awaited = none; out = none; env = env })
            x
  unfolding new_future
  drive-refines ks env x fits =
      drive-below (length fn.scopes + 2) ks (new_future env) x (omega arith) (omega arith)
        (omega arith)
