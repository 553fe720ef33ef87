-- ===== src/Semaphore/Safety.antt =====
-- The nodes of src/sync/semaphore.c under any order of its callers: none is used after it is freed.
use taskio.Prelude.{
  copies, copies-same, copies-other, ℕ, ◌+◌, ◌<◌, ◌≡◌, refl, sym, inl, inr, List, [], ◌∷◌, ◌++◌,
  arith, length, ltb, ◌==◌, ◌%◌, Run, done, ◌>>=◌, word_limit, u64, Bool-cases, Option-cases,
  ltb→lt,
}
use taskio.Semaphore.{Semaphore, init, signal, signal_queue, signal_async, signal_sync}
use taskio.Semaphore.Nodes.{
  node_drop-Released, Owned-update, unused-update, Owned-allocated, Owned-bounds,
}
use taskio.Semaphore.Clients.{
  Event, polls, cleans_up, blocks, spurious, wakes_up, signals, Clients, happens, happen, Inv,
  blocked, Kept,
}
use taskio.Semaphore.Waits.{polls-Kept, blocks-Kept, spurious-Kept, wakes_up-Kept, cleans_up-Kept}

abbrev stored : Clients → Run Semaphore → Run Clients
stored c run = run >>= λ s. done (record c { semaphore = s })

signal_async-Kept :
    (c : Clients) (id : ℕ) (next : List ℕ)
    → c.semaphore.queue ≡ id ∷ next
    → Inv c
    → Kept c (stored c (signal_async c.semaphore id next))
unfolding signal_async
signal_async-Kept c id next first inv =
    let s = c.semaphore in
    let h = copies id c.held in
    let owned = rw first at inv.owned in
    let pos : 0 < copies id (id ∷ next) + h = omega (arith, copies-same id next) in
    let bounds = Owned-bounds (s.nodes id) (copies id (id ∷ next)) h (owned id) in
    elim (Option-cases (s.nodes id)) [
      | inl e ↦ let o = rw e at (owned id) in absurd (omega (arith, o.0, o.1))
      | inr (n, e) ↦
          let s' = record s { queue = next; wakes = s.wakes ++ (n.waker ∷ []) } in
          let (o, dropped, left) =
            node_drop-Released id s' (copies id (id ∷ next)) h (owned id) pos in
          rw (e, signal_async, dropped)
            (
              _,
              refl,
              record {
                owned =
                    Owned-update s.nodes (id ∷ next) c.held next c.held id o owned
                      (left (copies id next) h (omega (arith, copies-same id next))
                        (omega (arith, copies-same id next, bounds.0)) bounds.1)
                      (λ j ne. sym (copies-other id j next ne)) (λ j ne. refl);
                unused = unused-update s.nodes s.fresh id o inv.unused (
                    Owned-allocated s.nodes s.fresh id (copies id (id ∷ next)) h inv.unused
                      (owned id) pos);
                threads = inv.threads;
              },
              omega arith,
            )
    ]

signal_sync-Kept : (c : Clients) → Inv c → Kept c (stored c (done (signal_sync c.semaphore)))
unfolding signal_sync
signal_sync-Kept c inv = elim (Bool-cases (ltb 0 c.semaphore.sleeping)) [
  | inl e ↦
      let pos = ltb→lt 0 c.semaphore.sleeping e in
      rw e (
        _,
        refl,
        record { owned = inv.owned; unused = inv.unused; threads = omega (arith, inv.threads) },
        omega arith,
      )
  | inr e ↦ rw e (
    _,
    refl,
    record { owned = inv.owned; unused = inv.unused; threads = inv.threads },
    omega arith,
  )
]

signal_queue-Kept :
    (c : Clients) (queue : List ℕ)
    → c.semaphore.queue ≡ queue
    → Inv c
    → Kept c (stored c (signal_queue c.semaphore queue))
unfolding signal_queue
signal_queue-Kept c [] first inv = elim (Bool-cases (ltb 0 c.semaphore.blocking_wake_wait)) [
  | inl e ↦ rw e (signal_sync-Kept c inv)
  | inr e ↦ rw e (
    _,
    refl,
    record { owned = inv.owned; unused = inv.unused; threads = inv.threads },
    omega arith,
  )
]
signal_queue-Kept c (id ∷ next) first inv =
    let s' = record (c.semaphore) { priority = u64 (c.semaphore.priority + 1) } in
    let c' = record c { semaphore = s' } in
    let inv' : Inv c' = record { owned = inv.owned; unused = inv.unused; threads = inv.threads } in
    elim (Bool-cases (ltb 0 c.semaphore.blocking_wake_wait)) [
      | inl e ↦ elim (Bool-cases (c.semaphore.priority % 2 == 0)) [
        | inl even ↦ rw (e, even) (signal_async-Kept c' id next first inv')
        | inr odd ↦ rw (e, odd) (signal_sync-Kept c' inv')
      ]
      | inr e ↦ rw e (signal_async-Kept c id next first inv)
    ]

-- Every event keeps the invariant.
pub happens-Kept :
    (event : Event) (c : Clients) → Inv c → blocked c + 1 < word_limit → Kept c (happens event c)
unfolding happens signal
happens-Kept (polls is_timed waker) c inv few = polls-Kept is_timed waker c inv
happens-Kept (cleans_up id) c inv few = cleans_up-Kept id c inv
happens-Kept blocks c inv few = blocks-Kept c inv few
happens-Kept spurious c inv few = spurious-Kept c inv
happens-Kept wakes_up c inv few = wakes_up-Kept c inv (omega arith)
happens-Kept signals c inv few = signal_queue-Kept c c.semaphore.queue refl inv

-- From a state that satisfies the invariant, any sequence of polls, clean-ups, blocking waits,
-- wake-ups (spurious ones too) and signals, fewer than 2^64 with the threads that are blocked, runs
-- without a fault: no node is used after it is freed or freed twice. The invariant holds again: the
-- nodes that are allocated are exactly those with an owner left, each with its number of owners in
-- its counter.
pub happen-Safe :
    (events : List Event) (c : Clients)
    → Inv c
    → blocked c + length events < word_limit
    → (c' : Clients) × (happen events c ≡ done c') × Inv c'
unfolding happen
happen-Safe [] c inv few = (c, refl, inv)
happen-Safe (event ∷ events) c inv few =
    let (c', e, inv', more) = happens-Kept event c inv (omega arith) in
    rw e (happen-Safe events c' inv' (omega (arith, more)))

-- A new semaphore without callers satisfies the invariant.
pub init-Inv : (permits : ℕ) → Inv (record { semaphore = init permits; held = [] })
unfolding init
init-Inv permits = record {
  owned = λ id. (refl, refl);
  unused = λ id le. refl;
  threads = omega arith;
}
