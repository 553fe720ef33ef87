-- ===== src/EventLoop.antt =====
-- src/platform/linux/runtime.c: the tasks, their handles, and the loop that polls them, in the
-- single-threaded build. Tasks are on a heap; the poll queue is the chain of their `next` pointers.
-- What a future does when it is polled is a parameter; so is the value that a handler returns.
pub mod Chain
pub mod Queue
pub mod Handles
pub mod Worker
pub mod Clients
mod Tests
use taskio.Prelude.{
  ℕ, ◌+◌, ◌-◌, Bool, true, false, Option, none, some, List, [], ◌∷◌, ◌++◌, ltb, ◌==◌, if◌then◌else◌,
  update, u64, u64_dec, Run, done, fault, freed_pointer, null_pointer, out_of_fuel, ◌>>=◌, zero,
  suc,
}

-- enum taskio_task_status
pub data Status : Type 0 where
  suspended scheduled aborted finished : Status

-- struct taskio_task_wake_node: the task that the waker wakes, and the address for the output.
pub record WakeNode : Type 0 where
  pub waker : ℕ
  pub out : Option ℕ

-- `wake_on_ready_top`; task_wake_wakers frees the nodes and leaves the pointer.
pub data Joiners : Type 0 where
  null dangling : Joiners
  node : WakeNode → Joiners → Joiners

-- struct taskio_task_base with `next` of struct taskio_task; `out` is what the output holds, none
-- where the task has no output.
pub record Task : Type 0 where
  pub counter : ℕ
  pub status : Status
  pub blocking : Bool
  pub wake_on_ready : Joiners
  pub out : Option ℕ
  pub next : Option ℕ

-- struct taskio_runtime: `event_fd` is the count of the descriptor, `blocking_queue` the tasks from
-- `blocking_head` to `blocking_tail`, `blocking_workers` the number of threads started for them,
-- `memory` where the callers have their outputs; `cleaned` are
-- the tasks whose future was cleaned up.
pub record Runtime : Type 0 where
  pub tasks : ℕ → Option Task
  pub fresh : ℕ
  pub poll_head : Option ℕ
  pub poll_tail : Option ℕ
  pub poll_scheduled : Bool
  pub event_fd : ℕ
  pub blocking_queue : List ℕ
  pub blocking_sem : ℕ
  pub blocking_initialized : Bool
  pub blocking_workers : ℕ
  pub memory : ℕ → ℕ
  pub cleaned : List ℕ

unfoldable pub deref : Runtime → ℕ → Run Task
deref rt id = elim (rt.tasks id) [ none ↦ fault freed_pointer | some task ↦ done task ]

unfoldable pub store : Runtime → ℕ → Task → Runtime
store rt id task = record rt { tasks = update rt.tasks id (some task) }

-- `poll_tail` and the `next` of the task it was
unfoldable pub link : Runtime → ℕ → Run Runtime
unfolding deref store
link rt id = elim rt.poll_tail [
  | none ↦ done (record rt { poll_head = some id; poll_tail = some id })
  | some t ↦ do
    tail ← deref rt t
    done (record (store rt t (record tail { next = some id })) { poll_tail = some id })
]

unfoldable pub signal_event : Runtime → Runtime
signal_event rt =
    if rt.poll_scheduled
    then rt
    else record rt { poll_scheduled = true; event_fd = rt.event_fd + 1 }

unfoldable pub enqueue : Runtime → ℕ → Task → Run Runtime
unfolding link signal_event store
enqueue rt id task = do
  rt' ← link (store rt id (record task { status = scheduled })) id
  done (signal_event rt')

-- task_add_event_loop, and task_wake
unfoldable pub task_add_event_loop : ℕ → Runtime → Run Runtime
unfolding enqueue deref
task_add_event_loop id rt = do
  task ← deref rt id
  elim task.status [
    | scheduled ↦ done rt
    | suspended ↦ enqueue rt id task
    | aborted ↦ enqueue rt id task
    | finished ↦ enqueue rt id task
  ]

-- task_drop
unfoldable pub task_drop : ℕ → Runtime → Run Runtime
unfolding deref store
task_drop id rt = do
  task ← deref rt id
  if task.counter == 1
      then done (record rt { tasks = update rt.tasks id none })
      else done (store rt id (record task { counter = u64_dec task.counter }))

abbrev pub new_task : Bool → Option ℕ → Task
new_task blocking out = record {
  counter = 2;
  status = suspended;
  blocking = blocking;
  wake_on_ready = null;
  out = out;
  next = none;
}

-- taskio_runtime_spawn: the handle's task.
unfoldable pub spawn : Option ℕ → Runtime → ℕ × Run Runtime
unfolding store task_add_event_loop
spawn out rt = (
  rt.fresh,
  task_add_event_loop rt.fresh
      (record (store rt rt.fresh (new_task false out)) { fresh = rt.fresh + 1 }),
)

-- BLOCKING_WORKER_SIZE
abbrev pub blocking_worker_size : ℕ
blocking_worker_size = 512

-- The loop of taskio_runtime_spawn_blocking that starts the threads, once.
unfoldable pub start_blocking : Runtime → Runtime
start_blocking rt = if rt.blocking_initialized then rt else record rt {
  blocking_initialized = true;
  blocking_workers = rt.blocking_workers + blocking_worker_size;
}

-- taskio_runtime_spawn_blocking
unfoldable pub spawn_blocking : Option ℕ → Runtime → ℕ × Runtime
unfolding store start_blocking
spawn_blocking out rt = (
  rt.fresh,
  start_blocking (record (store rt rt.fresh (new_task true out)) {
    fresh = rt.fresh + 1;
    blocking_queue = rt.blocking_queue ++ (rt.fresh ∷ []);
    blocking_sem = rt.blocking_sem + 1;
  }),
)

-- memcpy of an output to where a joiner wants it
unfoldable pub copy_out : Option ℕ → Option ℕ → Runtime → Runtime
copy_out none value rt = rt
copy_out (some address) none rt = rt
copy_out (some address) (some value) rt = record rt { memory = update rt.memory address value }

-- task_wake_wakers, the loop
unfoldable pub wake_all : Option ℕ → Joiners → Runtime → Run Runtime
unfolding copy_out
wake_all out null rt = done rt
wake_all out dangling rt = fault freed_pointer
wake_all out (node w rest) rt =
    task_add_event_loop w.waker (copy_out w.out out rt) >>= wake_all out rest

unfoldable pub after_wake : Joiners → Joiners
after_wake null = null
after_wake dangling = dangling
after_wake (node _ _) = dangling

-- task_wake_wakers
unfoldable pub task_wake_wakers : ℕ → Runtime → Run Runtime
unfolding wake_all deref store after_wake
task_wake_wakers id rt = do
  task ← deref rt id
  wake_all task.out task.wake_on_ready
      (store rt id (record task { wake_on_ready = after_wake task.wake_on_ready }))
