-- ===== src/Mutex/Exclusion.antt =====
-- src/sync/mutex.c keeps the lock exclusive, however its users are interleaved.
use taskio.Prelude.{
  both, ℕ, ◌+◌, ◌<◌, ◌≤◌, ◌≡◌, refl, inl, inr, false, List, [], ◌∷◌, arith, length, ltb, ltb→lt,
  Bool-cases, Run, done, word_limit,
}
use taskio.Semaphore
use taskio.Semaphore.Clients.{
  Event, polls, cleans_up, blocks, wakes_up, signals, happens, Inv, blocked, Kept,
}
use taskio.Semaphore.Safety.{happens-Kept, init-Inv}
use taskio.Mutex.{
  Act, locks, resumes, gives_up, blocking_locks, returns, unlocks, Users, performs, perform, after,
  mutex_init,
}
use taskio.Mutex.Counts.{
  given, Counted, Counts, polls-Counts, blocks-Counts, wakes_up-Counts, cleans_up-Counts,
  signals-Counts,
}

-- The one permit is free, on its way to a user, or with the one that has the lock.
pub record Exclusive (u : Users) : Type 0 where
  pub nodes : Inv u.clients
  pub one : given u.clients + u.holders ≡ 1 + u.resumed
  pub woken_first : u.resumed ≤ length u.clients.semaphore.wakes

abbrev Stays : Users → Run Users → Type 0
Stays u run =
    (u' : Users) × (run ≡ done u') × Exclusive u' × (blocked u'.clients ≤ blocked u.clients + 1)

after-Stays :
    (event : Event) (u : Users) (out back holders : ℕ)
    → Exclusive u
    → Kept u.clients (happens event u.clients)
    → Counts u.clients out back (happens event u.clients)
    → holders + back ≡ u.holders + out
    → Stays u (after event u holders)
after-Stays event u out back holders inv kept counts same =
    let (c, run, (nodes, bound), (total, wakes)) =
      both (λ c. Inv c × (blocked c ≤ blocked u.clients + 1)) (Counted u.clients out back)
        (happens event u.clients) (kept.0, kept.1, (kept.2, kept.3)) counts in
    rw run (
      _,
      refl,
      record {
        nodes = nodes;
        one = omega (arith, inv.one, total, same);
        woken_first = omega (arith, inv.woken_first, wakes);
      },
      bound,
    )

performs-Stays :
    (act : Act) (u : Users)
    → Exclusive u
    → blocked u.clients + 1 < word_limit
    → Stays u (performs act u)
unfolding performs
performs-Stays (locks waker) u inv few =
    after-Stays (polls false waker) u _ 0 _ inv (happens-Kept _ u.clients inv.nodes few)
      (polls-Counts false waker u.clients) (omega arith)
performs-Stays resumes u inv few =
    elim (Bool-cases (ltb u.resumed (length u.clients.semaphore.wakes))) [
      | inl e ↦
          let more = ltb→lt u.resumed (length u.clients.semaphore.wakes) e in
          rw e (
            _,
            refl,
            record { nodes = inv.nodes; one = omega (arith, inv.one); woken_first = omega arith },
            omega arith,
          )
      | inr e ↦ rw e (u, refl, inv, omega arith)
    ]
performs-Stays (gives_up id) u inv few =
    after-Stays (cleans_up id) u 0 0 _ inv (happens-Kept _ u.clients inv.nodes few)
      (cleans_up-Counts id u.clients inv.nodes) (omega arith)
performs-Stays blocking_locks u inv few =
    after-Stays blocks u _ 0 _ inv (happens-Kept _ u.clients inv.nodes few)
      (blocks-Counts u.clients) (omega arith)
performs-Stays returns u inv few =
    after-Stays wakes_up u _ 0 _ inv (happens-Kept _ u.clients inv.nodes few)
      (wakes_up-Counts u.clients) (omega arith)
performs-Stays unlocks u inv few = elim (Bool-cases (ltb 0 u.holders)) [
  | inl e ↦
      let held = ltb→lt 0 u.holders e in
      rw e (
        after-Stays signals u 0 1 _ inv (happens-Kept _ u.clients inv.nodes few)
          (signals-Counts u.clients inv.nodes (omega (arith, inv.one, inv.woken_first))
            (omega (arith, inv.one, inv.woken_first)))
          (omega arith))
  | inr e ↦ rw e (u, refl, inv, omega arith)
]

perform-Stays :
    (acts : List Act) (u : Users)
    → Exclusive u
    → blocked u.clients + length acts < word_limit
    → (u' : Users) × (perform acts u ≡ done u') × Exclusive u'
unfolding perform
perform-Stays [] u inv few = (u, refl, inv)
perform-Stays (act ∷ acts) u inv few =
    let (u', run, inv', bound) = performs-Stays act u inv (omega arith) in
    rw run (perform-Stays acts u' inv' (omega (arith, bound)))

abbrev pub unlocked : Users
unlocked = record {
  clients = record { semaphore = mutex_init; held = [] };
  resumed = 0;
  holders = 0;
}

-- From a new mutex, any sequence of locks, wake-ups with a signal before them, give-ups and unlocks
-- by the user that has the lock, shorter than 2^64, runs without a fault and leaves at most one user
-- with the lock. The one permit is free, on its way to a future that was woken (even one that has
-- given up) or a thread that is to return, or with the user that has the lock.
pub perform-Exclusive :
    (acts : List Act)
    → length acts < word_limit
    → (u : Users) × (perform acts unlocked ≡ done u)
      × (u.holders ≤ 1)
      × (given u.clients + u.holders ≡ 1 + u.resumed)
      × (u.resumed ≤ length u.clients.semaphore.wakes)
unfolding mutex_init Semaphore.init
perform-Exclusive acts few =
    let (u, run, inv) =
      perform-Stays acts unlocked
        (record { nodes = init-Inv 1; one = omega arith; woken_first = omega arith })
        (omega arith) in
    (u, run, omega (arith, inv.one, inv.woken_first), inv.one, inv.woken_first)
