-- ===== src/Semaphore/Clients.antt =====
-- The callers of src/sync/semaphore.c: futures that poll, wake and are cleaned up, threads that
-- block, and signals, one at a time in any order, as `mtx_guard` makes them.
use taskio.Prelude.{
  copies, ℕ, ◌+◌, ◌-◌, ◌≤◌, ◌≡◌, Bool, true, false, none, some, List, [], ◌∷◌, ltb, ◌==◌,
  if◌then◌else◌, Run, done, ◌>>=◌,
}
use taskio.Semaphore.{Semaphore, wait, wait_cleanup, blocking_wait, blocking_wait_end, signal}
use taskio.Semaphore.Nodes.{Owned}

-- `wakes_up` is a return from `cnd_wait` with the mutex, `spurious` one without a signal before it.
pub data Event : Type 0 where
  polls : Bool → ℕ → Event
  cleans_up : ℕ → Event
  blocks : Event
  spurious : Event
  wakes_up : Event
  signals : Event

-- A semaphore, and the nodes in the environments of the futures that wait.
pub record Clients : Type 0 where
  pub semaphore : Semaphore
  pub held : List ℕ

unfoldable pub has : ℕ → List ℕ → Bool
has id [] = false
has id (x ∷ ids) = if x == id then true else has id ids

unfoldable pub without : ℕ → List ℕ → List ℕ
without id [] = []
without id (x ∷ ids) = if x == id then ids else x ∷ without id ids

-- A future that holds no node has nothing to clean up; a thread that is not in `cnd_wait` does not
-- return from it.
unfoldable pub happens : Event → Clients → Run Clients
unfolding has without
happens (polls is_timed waker) c =
    let (node, s) = wait c.semaphore is_timed waker in
    done (record { semaphore = s; held = elim node [ none ↦ c.held | some id ↦ id ∷ c.held ] })
happens (cleans_up id) c =
    if has id c.held
    then (wait_cleanup c.semaphore (some id) >>= λ s.
        done (record { semaphore = s; held = without id c.held }))
    else done c
happens blocks c = done (record c { semaphore = (blocking_wait c.semaphore).1 })
happens spurious c =
    let s = c.semaphore in
    if ltb 0 s.sleeping
    then done (record c { semaphore = record s { sleeping = s.sleeping - 1; woken = s.woken + 1 } })
    else done c
happens wakes_up c =
    if ltb 0 c.semaphore.woken
    then done (record c { semaphore = blocking_wait_end c.semaphore })
    else done c
happens signals c = signal c.semaphore >>= λ s. done (record c { semaphore = s })

unfoldable pub happen : List Event → Clients → Run Clients
happen [] c = done c
happen (e ∷ events) c = happens e c >>= happen events

-- Every node has exactly the owners that its counter counts, and a node without one is freed.
pub record Inv (c : Clients) : Type 0 where
  pub owned :
      (id : ℕ) → Owned (c.semaphore.nodes id) (copies id c.semaphore.queue) (copies id c.held)
  pub unused : (id : ℕ) → c.semaphore.fresh ≤ id → c.semaphore.nodes id ≡ none
  pub threads : c.semaphore.blocking_wake_wait ≡ c.semaphore.sleeping + c.semaphore.woken

abbrev pub blocked : Clients → ℕ
blocked c = c.semaphore.sleeping + c.semaphore.woken

-- The event happens without a fault, keeps the invariant, and blocks one thread at most.
abbrev pub Kept : Clients → Run Clients → Type 0
Kept c run = (c' : Clients) × (run ≡ done c') × Inv c' × (blocked c' ≤ blocked c + 1)
