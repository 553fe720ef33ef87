-- ===== src/EventLoop/Clients.antt =====
-- The callers of src/platform/linux/runtime.c in a single-threaded program: those that have handles,
-- those that call wakers, and the worker, whose poll of a task is two events, with what the future
-- does between them. Any order of the events is a run. There are no blocking tasks.
pub mod Entries
pub mod Loads
pub mod Work
pub mod Around
pub mod Wakes
pub mod Owners
pub mod Calls
pub mod Joins
pub mod Detached
pub mod Heads
pub mod Takes
pub mod Polls
pub mod Safety
pub mod Turns
pub mod Loop
mod Tests
use taskio.Prelude.{
  ℕ, ◌+◌, ◌-◌, ◌≤◌, ◌<◌, ◌≡◌, Bool, true, false, ◌&&◌, Option, none, some, List, [], ◌∷◌, ltb, ◌==◌,
  if◌then◌else◌, update, copies, Run, done, ◌>>=◌,
}
use taskio.EventLoop.{
  Status, suspended, scheduled, aborted, finished, WakeNode, Joiners, null, dangling, node, Task,
  Runtime, deref, task_add_event_loop, task_drop, spawn,
}
use taskio.EventLoop.Queue.{Queue}
use taskio.EventLoop.Handles.{
  taskio_spawn, handle_clone, handle_drop, handle_abort, handle_join, Poll, undefined, pending,
  ready, take_task, begin_poll, clean, end_poll,
}

-- The worker takes a task; the future that it polls answers.
pub data Event : Type 0 where
  spawns : Option ℕ → Event
  clones drops aborts wakes : ℕ → Event
  joins : ℕ → ℕ → Option ℕ → Event
  detaches takes : Event
  answers : Bool → Poll → Event

-- A runtime with the number of handles of each task, and the task that is polled.
pub record Clients : Type 0 where
  pub runtime : Runtime
  pub handles : ℕ → ℕ
  pub running : Option ℕ

-- A waker is called for a task that is suspended or scheduled: not for one that is over, nor for one
-- that was aborted in the queue.
unfoldable pub may_wake : ℕ → Runtime → Bool
may_wake id rt = elim (rt.tasks id) [
  | none ↦ false
  | some task ↦ elim task.status [
    | suspended ↦ true
    | scheduled ↦ true
    | aborted ↦ false
    | finished ↦ false
  ]
]

unfoldable pub may_wake_all : Joiners → ℕ → Runtime → Bool
may_wake_all null id rt = true
may_wake_all dangling id rt = true
may_wake_all (node w rest) id rt =
    (may_wake w.waker rt && (if w.waker == id then false else true)) && may_wake_all rest id rt

-- A task that is ready was not woken while it was polled, and its joiners may be woken.
unfoldable pub may_end : ℕ → Runtime → Bool
unfolding may_wake_all
may_end id rt = elim (rt.tasks id) [
  | none ↦ true
  | some task ↦ elim task.status [
    | suspended ↦ may_wake_all task.wake_on_ready id rt
    | scheduled ↦ false
    | aborted ↦ false
    | finished ↦ false
  ]
]

unfoldable pub may_answer : Poll → ℕ → Runtime → Bool
unfolding may_end
may_answer undefined id rt = true
may_answer pending id rt = true
may_answer (ready _) id rt = may_end id rt

-- worker_run, a task up to its poll
unfoldable pub take_one : ℕ → Runtime → Run (Option ℕ × Runtime)
take_one id rt = do
  rt' ← take_task rt id
  task ← deref rt' id
  elim task.status [
    | aborted ↦ task_drop id (clean id rt') >>= λ rt''. done (none, rt'')
    | _ ↦ begin_poll id rt' >>= λ rt''. done (some id, rt'')
  ]

abbrev pub in_runtime : Clients → Run Runtime → Run Clients
in_runtime c run = run >>= λ rt. done (record c { runtime = rt })

-- The worker, with the task that it polls and the first of the queue
unfoldable pub take_next : Option ℕ → Option ℕ → Clients → Run Clients
unfolding take_one
take_next (some _) head c = done c
take_next none none c = done (record c { runtime = record (c.runtime) { poll_scheduled = false } })
take_next none (some id) c = take_one id c.runtime >>= λ (r : Option ℕ × Runtime).
    done (record c { runtime = r.1; running = r.0 })

unfoldable pub answer : Option ℕ → Bool → Poll → Clients → Run Clients
unfolding may_answer
answer none is_main poll c = done c
answer (some id) is_main poll c =
    if may_answer poll id c.runtime
    then in_runtime (record c { running = none }) (end_poll is_main id poll c.runtime)
    else done c

-- An event that is not allowed does not happen.
unfoldable pub happens : Event → Clients → Run Clients
unfolding may_wake take_next answer
happens (spawns out) c = (spawn out c.runtime).1 >>= λ rt.
    done (record c { runtime = rt; handles = update c.handles c.runtime.fresh 1 })
happens detaches c = in_runtime c (taskio_spawn c.runtime)
happens (clones id) c =
    if ltb 0 (c.handles id)
    then in_runtime (record c { handles = update c.handles id (c.handles id + 1) })
        (handle_clone id c.runtime)
    else done c
happens (drops id) c =
    if ltb 0 (c.handles id)
    then in_runtime (record c { handles = update c.handles id (c.handles id - 1) })
        (handle_drop id c.runtime)
    else done c
happens (aborts id) c =
    if ltb 0 (c.handles id) then in_runtime c (handle_abort id c.runtime) else done c
happens (wakes id) c =
    if may_wake id c.runtime then in_runtime c (task_add_event_loop id c.runtime) else done c
happens (joins id waker out) c =
    if ltb 0 (c.handles id) && may_wake waker c.runtime
    then in_runtime c (handle_join id waker out c.runtime)
    else done c
happens takes c = take_next c.running c.runtime.poll_head c
happens (answers is_main poll) c = answer c.running is_main poll c

unfoldable pub happen : List Event → Clients → Run Clients
happen [] c = done c
happen (e ∷ events) c = happens e c >>= happen events

-- The owner that the worker is of a task with this status, `q` times in the queue.
abbrev pub owner : Status → ℕ → ℕ
owner suspended q = 1
owner scheduled q = 1
owner aborted q = q
owner finished q = 0

abbrev pub Placed : Status → ℕ → Type 0
Placed suspended q = q ≡ 0
Placed scheduled q = q ≡ 1
Placed aborted q = q ≤ 1
Placed finished q = q ≡ 0

abbrev pub Whole : Joiners → Type 0
Whole null = Unit
Whole dangling = ⊥
Whole (node w rest) = Whole rest

abbrev pub Joined : Status → Joiners → Type 0
Joined suspended w = Whole w
Joined scheduled w = Whole w
Joined aborted w = Whole w
Joined finished w = Unit

-- A task with `h` handles, `q` times in the queue and `r` times polled.
abbrev pub Entry : Option Task → ℕ → ℕ → ℕ → Type 0
Entry none h q r = (h ≡ 0) × (q ≡ 0) × (r ≡ 0)
Entry (some t) h q r =
    (t.counter ≡ h + owner t.status q)
    × (0 < t.counter)
    × Placed t.status q
    × (r ≤ owner t.status q)
    × Joined t.status t.wake_on_ready
    × (t.blocking ≡ false)

abbrev pub unlinked : Option Task → Option Task
unlinked none = none
unlinked (some t) = some (record t { next = none })

abbrev pub Rests : Option Task → Type 0
Rests none = Unit
Rests (some t) = t.status ≡ suspended → t.next ≡ none

abbrev pub polled : Option ℕ → ℕ → ℕ
polled none id = 0
polled (some r) id = if r == id then 1 else 0

-- The tasks in the queue are those that are scheduled and those aborted there, each once; a task is
-- allocated exactly as long as a handle, or the worker for a task that is not over, owns it.
pub record Inv (c : Clients) : Type 0 where
  pub tasks : List ℕ
  pub queue : Queue c.runtime tasks
  pub entries :
      (id : ℕ)
      → Entry (unlinked (c.runtime.tasks id)) (c.handles id) (copies id tasks) (polled c.running id)
  pub rests : (id : ℕ) → Rests (c.runtime.tasks id)
  pub unused : (id : ℕ) → c.runtime.fresh ≤ id → c.runtime.tasks id ≡ none
