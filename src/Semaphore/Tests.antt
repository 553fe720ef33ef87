-- ===== src/Semaphore/Tests.antt =====
-- The semaphore of src/sync/semaphore.c at concrete callers: runs, and its theorems there.
use taskio.Prelude.{
  copies, copies-other, map, ℕ, ◌≤◌, ◌≡◌, refl, inr, true, false, none, some, List, [], ◌∷◌, arith,
  update, Run, done, ◌>>=◌, u64, u64_dec,
}
use taskio.Vec.Contents.{push_last}
use taskio.Semaphore.{
  init, wait, wait_cleanup, signal, signal_queue, signal_async, node_drop, node_count,
  node_is_timed,
}
use taskio.Semaphore.Nodes.{Owned, Owned-update, unused-update}
use taskio.Semaphore.Clients.{
  Event, polls, cleans_up, signals, Clients, happens, happen, Inv, has, without,
}
use taskio.Semaphore.Safety.{happen-Safe, init-Inv}
use taskio.Semaphore.Order.{waker_at, signals-InOrder}
use taskio.Semaphore.Signals.{Delivers, signal-Delivers, LeftBehind, cleaned_up-Signalled}

abbrev start : Clients
start = record { semaphore = init 1; held = [] }

-- One future has the permit, two wait, the first of them gives up, and two signals come.
abbrev story : List Event
story = polls false 10 ∷ polls true 11 ∷ polls false 12 ∷ cleans_up 0 ∷ signals ∷ signals ∷ []

after_story : Run (List ℕ × List ℕ × List ℕ)
after_story = happen story start >>= λ c. done (c.semaphore.wakes, c.semaphore.queue, c.held)

woken_are : after_story ≡ done (11 ∷ 12 ∷ [], [], 1 ∷ [])
unfolding after_story happen happens wait wait_cleanup push_last signal signal_queue signal_async
    node_drop node_count node_is_timed init has without u64_dec u64
woken_are = refl

happen-Safe_example : (c' : Clients) × (happen story start ≡ done c') × Inv c'
unfolding init
happen-Safe_example = happen-Safe story start (init-Inv 1) (omega arith)

-- One timed future waits with node 0, and a thread sleeps.
abbrev waiting : Clients
waiting = record {
  semaphore = record (init 0) {
    blocking_wake_wait = 1;
    queue = 0 ∷ [];
    nodes = update (λ _. none) 0 (some (record { counter = 34; waker = 11 }));
    fresh = 1;
    sleeping = 1;
  };
  held = 0 ∷ [];
}

abbrev lone : Clients
lone = record waiting {
  semaphore = record (waiting.semaphore) { blocking_wake_wait = 0; sleeping = 0 };
}

waiting-Owned :
    (id : ℕ) → Owned (waiting.semaphore.nodes id) (copies id (0 ∷ [])) (copies id (0 ∷ []))
waiting-Owned =
    Owned-update (λ _. none) [] [] (0 ∷ []) (0 ∷ []) 0 _ (λ j. (refl, refl))
      (omega arith, omega arith, omega arith, inr refl) (λ j ne. copies-other 0 j [] ne)
      (λ j ne. copies-other 0 j [] ne)

waiting-unused : (id : ℕ) → 1 ≤ id → waiting.semaphore.nodes id ≡ none
waiting-unused = unused-update (λ _. none) 1 0 _ (λ j le. refl) (omega arith)

signal-Delivers_example : Delivers waiting.semaphore (signal waiting.semaphore)
unfolding init
signal-Delivers_example =
    signal-Delivers waiting
      (record { owned = waiting-Owned; unused = waiting-unused; threads = refl }) refl (omega arith)

cleaned_up-Signalled_example :
    LeftBehind lone []
      (record { counter = 34; waker = 11 })
      (happen (cleans_up 0 ∷ signals ∷ []) lone)
unfolding has init
cleaned_up-Signalled_example =
    cleaned_up-Signalled lone 0 [] (record { counter = 34; waker = 11 })
      (record { owned = waiting-Owned; unused = waiting-unused; threads = refl }) refl refl refl
      refl

signals-InOrder_example :
    (c' : Clients) × (happen (signals ∷ []) lone ≡ done c')
    × (c'.semaphore.queue ≡ [])
    × (c'.semaphore.wakes ≡ map (waker_at lone.semaphore.nodes) (0 ∷ []))
unfolding init
signals-InOrder_example =
    signals-InOrder 1 lone
      (record { owned = waiting-Owned; unused = waiting-unused; threads = refl }) refl (omega arith)
