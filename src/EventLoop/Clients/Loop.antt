-- ===== src/EventLoop/Clients/Loop.antt =====
-- The inner loop of worker_run in src/platform/linux/runtime.c, with futures that call what the
-- callers of a runtime may call.
use taskio.Prelude.{ℕ, ◌+◌, ◌≤◌, ◌≡◌, ◌⊎◌, Bool, none, Run, done, fault, out_of_fuel}
use taskio.EventLoop.{Runtime}
use taskio.EventLoop.Clients.{Clients, Inv}

module _ {X : Type 0} where
  -- The loop ends with the queue empty: the invariant holds, no task is polled, and there are `n`
  -- handles of a task more at most.
  pub record Emptied (handles : ℕ → ℕ) (n : ℕ) (run : Run (Bool × Runtime × X)) : Type 0 where
    pub ending : Bool
    pub after : Clients
    pub world : X
    pub ran : run ≡ done (ending, after.runtime, world)
    pub inv : Inv after
    pub idle : after.running ≡ none
    pub empty : after.runtime.poll_head ≡ none
    pub handles_after : (j : ℕ) → after.handles j ≤ handles j + n

  -- The fuel ran out, or the queue is empty.
  abbrev pub Outcome : (ℕ → ℕ) → ℕ → Run (Bool × Runtime × X) → Type 0
  Outcome handles n run = (run ≡ fault out_of_fuel) ⊎ Emptied handles n run
