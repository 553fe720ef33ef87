-- ===== src/Semaphore.antt =====
-- src/sync/semaphore.c: permits, with a queue of futures and a condition variable for threads. Each
-- definition is what happens under `mtx_guard`. The nodes are on a heap, since a queued node is also
-- in the environment of its future; `back` is never read and is left out.
pub mod Nodes
pub mod Clients
pub mod Waits
pub mod Safety
pub mod Signals
pub mod Order
pub mod Dropped
pub mod Queued
pub mod Futures
pub mod Timed
pub mod TimedWaits
pub mod Timeouts
pub mod TimesOut
pub mod TimedSignals
mod TimedTests
mod Tests
use taskio.Prelude.{
  ℕ, ◌+◌, ◌-◌, ◌/◌, ◌%◌, Bool, true, false, not, ◌||◌, Option, none, some, List, [], ◌∷◌, ◌++◌, ltb,
  ◌==◌, if◌then◌else◌, update, u64, u64_dec, Run, done, fault, freed_pointer, ◌>>=◌,
}
use taskio.Vec.Contents.{push_last}

-- struct taskio_semaphore_node; a waker by its number.
pub record Node : Type 0 where
  pub counter : ℕ
  pub waker : ℕ

-- struct taskio_semaphore. The queue is the nodes from `wake_queue_head` to `wake_queue_tail`;
-- `sleeping` and `woken` are `cnd_guard`: the threads inside `cnd_wait`, and those that it is to
-- return to; `wakes` are the wakers called.
pub record Semaphore : Type 0 where
  pub counter : ℕ
  pub priority : ℕ
  pub blocking_wake_wait : ℕ
  pub queue : List ℕ
  pub nodes : ℕ → Option Node
  pub fresh : ℕ
  pub sleeping : ℕ
  pub woken : ℕ
  pub wakes : List ℕ

-- taskio_semaphore_init
unfoldable pub init : ℕ → Semaphore
init permits = record {
  counter = permits;
  priority = 0;
  blocking_wake_wait = 0;
  queue = [];
  nodes = λ _. none;
  fresh = 0;
  sleeping = 0;
  woken = 0;
  wakes = [];
}

-- SEMAPHORE_NODE_MASK, SEMAPHORE_NODE_PLAIN and SEMAPHORE_NODE_TIMED
abbrev pub plain : ℕ
plain = 16

abbrev pub timed : ℕ
timed = 32

unfoldable pub node_count : ℕ → ℕ
node_count counter_with_flags = counter_with_flags % 4

unfoldable pub node_is_timed : ℕ → Bool
node_is_timed counter_with_flags = (counter_with_flags / 32) % 2 == 1

-- _node_drop
unfoldable pub node_drop : ℕ → Bool → Semaphore → Run Semaphore
unfolding node_count node_is_timed
node_drop id will_wake s = elim (s.nodes id) [
  | none ↦ fault freed_pointer
  | some node ↦
      if (node_count node.counter == 1) || not (will_wake || node_is_timed node.counter)
      then done (record s { nodes = update s.nodes id none })
      else done (record s {
        nodes = update s.nodes id (some (record node { counter = u64_dec node.counter }));
      })
]

-- taskio_semaphore_wait, the first scope: the node it waits with, or none with a permit.
unfoldable pub wait : Semaphore → Bool → ℕ → Option ℕ × Semaphore
wait s is_timed waker = if ltb 0 s.counter then (none, record s { counter = s.counter - 1 }) else (
  some s.fresh,
  record s {
    nodes =
        update s.nodes s.fresh
          (some (record { counter = if is_timed then timed + 2 else plain + 2; waker = waker }));
    fresh = s.fresh + 1;
    queue = push_last s.queue s.fresh;
  },
)

-- taskio_semaphore_wait, the cleanup
unfoldable pub wait_cleanup : Semaphore → Option ℕ → Run Semaphore
wait_cleanup s none = done s
wait_cleanup s (some node) = node_drop node true s

-- taskio_semaphore_blocking_wait up to `cnd_wait`: whether it goes on at once
unfoldable pub blocking_wait : Semaphore → Bool × Semaphore
blocking_wait s = if ltb 0 s.counter then (true, record s { counter = s.counter - 1 }) else (
  false,
  record s { blocking_wake_wait = u64 (s.blocking_wake_wait + 1); sleeping = s.sleeping + 1 },
)

-- and behind it, for a thread that `cnd_wait` returns to
unfoldable pub blocking_wait_end : Semaphore → Semaphore
blocking_wait_end s = record s {
  blocking_wake_wait = u64_dec s.blocking_wake_wait;
  woken = s.woken - 1;
}

-- _signal_sync: `cnd_signal` unblocks a thread that waits, if there is one.
unfoldable pub signal_sync : Semaphore → Semaphore
signal_sync s =
    if ltb 0 s.sleeping then record s { sleeping = s.sleeping - 1; woken = s.woken + 1 } else s

-- _signal_async, with the node at the head
unfoldable pub signal_async : Semaphore → ℕ → List ℕ → Run Semaphore
signal_async s id next = elim (s.nodes id) [
  | none ↦ fault freed_pointer
  | some node ↦ node_drop id true (record s { queue = next; wakes = s.wakes ++ (node.waker ∷ []) })
]

-- taskio_semaphore_signal
unfoldable pub signal_queue : Semaphore → List ℕ → Run Semaphore
signal_queue s [] =
    if ltb 0 s.blocking_wake_wait
    then done (signal_sync s)
    else done (record s { counter = u64 (s.counter + 1) })
signal_queue s (id ∷ next) =
    let s' = record s { priority = u64 (s.priority + 1) } in
    if ltb 0 s.blocking_wake_wait
    then (if s.priority % 2 == 0 then signal_async s' id next else done (signal_sync s'))
    else signal_async s id next

unfoldable pub signal : Semaphore → Run Semaphore
unfolding signal_queue
signal s = signal_queue s s.queue

-- taskio_semaphore_getvalue
unfoldable pub getvalue : Semaphore → ℕ
getvalue s = s.counter

-- taskio_semaphore_drop
unfoldable pub drop_nodes : List ℕ → Semaphore → Run Semaphore
drop_nodes [] s = done s
drop_nodes (id ∷ next) s = node_drop id false s >>= drop_nodes next

unfoldable pub drop : Semaphore → Run Semaphore
unfolding drop_nodes
drop s = drop_nodes s.queue s
