-- ===== src/Semaphore/Signals.antt =====
-- Whom taskio_semaphore_signal of src/sync/semaphore.c gives its permit.
use taskio.Prelude.{
  copies, copies-same, ℕ, ◌+◌, ◌<◌, ◌≡◌, ◌⊎◌, refl, inl, inr, true, some, List, [], ◌∷◌, ◌++◌,
  arith, ltb, ltb→lt, lt→ltb, ◌==◌, ◌%◌, Run, done, word_limit, u64, u64_small, u64_dec, Bool-cases,
  Option-cases,
}
use taskio.Semaphore.{
  Semaphore, Node, plain, timed, node_count, node_is_timed, signal, signal_queue, signal_async,
  signal_sync, node_drop, wait_cleanup, getvalue,
}
use taskio.Semaphore.Nodes.{Owned, node_drop-Released}
use taskio.Semaphore.Waits.{has-copies}
use taskio.Semaphore.Clients.{signals, cleans_up, Clients, happens, happen, Inv, blocked, has}

-- Exactly one of: the permit is kept, since nobody waits; the waker at the head of the queue is
-- called and its node leaves the queue; a thread in `cnd_wait` is to return.
abbrev pub Delivered : Semaphore → Semaphore → Type 0
Delivered s s' =
    ((s.queue ≡ [])
      × (s.blocking_wake_wait ≡ 0)
      × (s'.queue ≡ [])
      × (s'.counter ≡ s.counter + 1)
      × (s'.wakes ≡ s.wakes)
      × (s'.sleeping ≡ s.sleeping)
      × (s'.woken ≡ s.woken))
    ⊎ ((id : ℕ) × (n : Node) × (s.queue ≡ id ∷ s'.queue)
        × (s.nodes id ≡ some n)
        × (s'.wakes ≡ s.wakes ++ (n.waker ∷ []))
        × (s'.counter ≡ s.counter)
        × (s'.sleeping ≡ s.sleeping)
        × (s'.woken ≡ s.woken))
    ⊎ ((s'.queue ≡ s.queue)
        × (s'.wakes ≡ s.wakes)
        × (s'.counter ≡ s.counter)
        × (s'.sleeping + 1 ≡ s.sleeping)
        × (s'.woken ≡ s.woken + 1))

-- The signal ends, and what it does is a delivery.
abbrev pub Delivers : Semaphore → Run Semaphore → Type 0
Delivers s run = (s' : Semaphore) × (run ≡ done s') × Delivered s s'

signal_async-Delivers :
    (s : Semaphore) (id : ℕ) (next held : List ℕ) (p : ℕ)
    → s.queue ≡ id ∷ next
    → Owned (s.nodes id) (copies id (id ∷ next)) (copies id held)
    → Delivers s (signal_async (record s { priority = p }) id next)
unfolding signal_async
signal_async-Delivers s id next held p first owned = elim (Option-cases (s.nodes id)) [
  | inl e ↦ let o = rw e at owned in absurd (omega (arith, o.0, copies-same id next))
  | inr (n, e) ↦
      let s' = record s { priority = p; queue = next; wakes = s.wakes ++ (n.waker ∷ []) } in
      let (o, dropped, left) =
        node_drop-Released id s' (copies id (id ∷ next)) (copies id held) owned
          (omega (arith, copies-same id next)) in
      rw (e, signal_async, dropped) (_, refl, inr (inl (id, n, first, e, refl, refl, refl, refl)))
]

signal_sync-Delivers :
    (s : Semaphore) (p : ℕ)
    → 0 < s.sleeping
    → Delivers s (done (signal_sync (record s { priority = p })))
unfolding signal_sync
signal_sync-Delivers s p pos =
    rw (lt→ltb 0 s.sleeping pos) (_, refl, inr (inr (refl, refl, refl, omega arith, refl)))

signal_queue-Delivers :
    (s : Semaphore) (queue held : List ℕ)
    → s.queue ≡ queue
    → ((id : ℕ) → Owned (s.nodes id) (copies id queue) (copies id held))
    → s.blocking_wake_wait ≡ s.sleeping
    → s.counter + 1 < word_limit
    → Delivers s (signal_queue s queue)
unfolding signal_queue
signal_queue-Delivers s [] held first owned threads few =
    elim (Bool-cases (ltb 0 s.blocking_wake_wait)) [
      | inl e ↦
          rw e (signal_sync-Delivers s s.priority (omega (arith, ltb→lt 0 s.blocking_wake_wait e)))
      | inr e ↦
          let nobody : s.blocking_wake_wait ≡ 0 = ground arith in
          rw (e, u64_small (s.counter + 1) few)
            (_, refl, inl (first, nobody, first, refl, refl, refl, refl))
    ]
signal_queue-Delivers s (id ∷ next) held first owned threads few =
    elim (Bool-cases (ltb 0 s.blocking_wake_wait)) [
      | inl e ↦ elim (Bool-cases (s.priority % 2 == 0)) [
        | inl even ↦
            rw (e, even)
              (signal_async-Delivers s id next held (u64 (s.priority + 1)) first (owned id))
        | inr odd ↦
            rw (e, odd)
              (signal_sync-Delivers s (u64 (s.priority + 1))
                (omega (arith, ltb→lt 0 s.blocking_wake_wait e)))
      ]
      | inr e ↦ rw e (signal_async-Delivers s id next held s.priority first (owned id))
    ]

-- With no thread that is still to return from `cnd_wait`, a signal of a state that satisfies the
-- invariant ends and delivers its permit to exactly one: the first future of the queue, a thread
-- that sleeps, or the counter when nobody waits.
pub signal-Delivers :
    (c : Clients)
    → Inv c
    → c.semaphore.woken ≡ 0
    → c.semaphore.counter + 1 < word_limit
    → Delivers c.semaphore (signal c.semaphore)
unfolding signal
signal-Delivers c inv all_returned few =
    signal_queue-Delivers c.semaphore c.semaphore.queue c.held refl inv.owned
      (omega (arith, inv.threads)) few

-- While a thread that was signalled has not returned from `cnd_wait`, and no thread sleeps and no
-- future is queued, a signal changes nothing: its permit is lost.
pub signal-Lost :
    (c : Clients)
    → Inv c
    → 0 < c.semaphore.woken
    → c.semaphore.sleeping ≡ 0
    → c.semaphore.queue ≡ []
    → signal c.semaphore ≡ done c.semaphore
unfolding signal signal_queue signal_sync
signal-Lost c inv returning awake empty =
    let waiting : ltb 0 c.semaphore.blocking_wake_wait ≡ true = ground (arith, inv.threads) in
    rw (empty, awake, waiting) refl

-- The run ends with the node gone from the queue, its waker called, and no permit more.
abbrev pub LeftBehind : Clients → List ℕ → Node → Run Clients → Type 0
LeftBehind c next n run =
    (c' : Clients) × (run ≡ done c')
    × (c'.semaphore.queue ≡ next)
    × (c'.semaphore.wakes ≡ c.semaphore.wakes ++ (n.waker ∷ []))
    × (getvalue c'.semaphore ≡ getvalue c.semaphore)

-- The clean-up takes one owner off, the signal the other.
cleaned_lem :
    (c : Clients) (id : ℕ) (next : List ℕ) (n : Node)
    → c.semaphore.blocking_wake_wait ≡ 0
    → c.semaphore.queue ≡ id ∷ next
    → c.semaphore.nodes id ≡ some n
    → has id c.held ≡ true
    → (n.counter ≡ plain + 2) ⊎ (n.counter ≡ timed + 2)
    → LeftBehind c next n (happen (cleans_up id ∷ signals ∷ []) c)
unfolding happen happens signal signal_queue signal_async wait_cleanup getvalue node_drop node_count
    node_is_timed u64_dec u64
cleaned_lem c id next n nobody first e held (inl f) =
    let hit : (id == id) ≡ true = ground arith in
    rw (held, e, node_drop, f, first, nobody, signal_async, hit, node_drop, hit)
      (_, refl, refl, refl, refl)
cleaned_lem c id next n nobody first e held (inr f) =
    let hit : (id == id) ≡ true = ground arith in
    rw (held, e, node_drop, f, first, nobody, signal_async, hit, node_drop, hit)
      (_, refl, refl, refl, refl)

-- When the future at the head of the queue is cleaned up, as one whose time is over is, its node
-- stays in the queue; without blocked threads the next signal calls its waker, and the number of
-- permits stays as it was: the permit goes to a future that is gone.
pub cleaned_up-Signalled :
    (c : Clients) (id : ℕ) (next : List ℕ) (n : Node)
    → Inv c
    → blocked c ≡ 0
    → c.semaphore.queue ≡ id ∷ next
    → c.semaphore.nodes id ≡ some n
    → has id c.held ≡ true
    → LeftBehind c next n (happen (cleans_up id ∷ signals ∷ []) c)
cleaned_up-Signalled c id next n inv none_blocked first e held =
    let owned = rw (e, first) at (inv.owned id) in
    let once = has-copies id c.held held in
    cleaned_lem c id next n (omega (arith, inv.threads)) first e held (elim owned.3 [
      | inl f ↦ inl (omega (arith, f, copies-same id next, owned.0, owned.1))
      | inr f ↦ inr (omega (arith, f, copies-same id next, owned.0, owned.1))
    ])
