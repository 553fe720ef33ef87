-- ===== src/EventLoop/Handles.antt =====
-- The handles of tasks and the workers of src/platform/linux/runtime.c.
pub mod Aborts
pub mod Joins
pub mod Finish
pub mod Owners
pub mod Hazards
use taskio.Prelude.{
  ℕ, ◌+◌, ◌-◌, Bool, true, false, Option, none, some, List, [], ◌∷◌, ◌++◌, ltb, ◌==◌, if◌then◌else◌,
  update, u64, u64_dec, Run, done, fault, freed_pointer, null_pointer, out_of_fuel, ◌>>=◌, zero,
  suc,
}
use taskio.EventLoop.{
  Status, suspended, scheduled, aborted, finished, Task, Runtime, WakeNode, Joiners, null, dangling,
  node, deref, store, spawn, task_add_event_loop, task_drop, task_wake_wakers, copy_out,
}

-- taskio_handle_clone
unfoldable pub handle_clone : ℕ → Runtime → Run Runtime
handle_clone id rt = do
  task ← deref rt id
  done (store rt id (record task { counter = u64 (task.counter + 1) }))

-- taskio_handle_drop
unfoldable pub handle_drop : ℕ → Runtime → Run Runtime
handle_drop id rt = task_drop id rt

-- taskio_spawn
unfoldable pub taskio_spawn : Runtime → Run Runtime
unfolding handle_drop
taskio_spawn rt = do rt' ← (spawn none rt).1; handle_drop (spawn none rt).0 rt'

-- taskio_handle_is_aborted
unfoldable pub handle_is_aborted : ℕ → Runtime → Run Bool
handle_is_aborted id rt = do
  task ← deref rt id
  done (elim task.status [ aborted ↦ true | _ ↦ false ])

-- taskio_handle_is_finished
unfoldable pub handle_is_finished : ℕ → Runtime → Run Bool
handle_is_finished id rt = do
  task ← deref rt id
  done (elim task.status [ finished ↦ true | _ ↦ false ])

-- the switch, with the task aborted in `stopped`
abort_task : ℕ → Task → Runtime → Runtime → Run Runtime
abort_task id task rt stopped = elim task.status [
  | suspended ↦ if task.blocking then done stopped else task_add_event_loop id stopped
  | scheduled ↦ if task.blocking then done rt else done stopped
  | aborted ↦ done rt
  | finished ↦ done rt
]

-- taskio_handle_abort
unfoldable pub handle_abort : ℕ → Runtime → Run Runtime
unfolding abort_task
handle_abort id rt = do
  task ← deref rt id
  abort_task id task rt (store rt id (record task { status = aborted }))

unfoldable pub add_joiner : ℕ → Task → ℕ → Option ℕ → Runtime → Runtime
add_joiner id task waker out rt =
    store rt id (record task {
      wake_on_ready = node (record { waker = waker; out = out }) task.wake_on_ready;
    })

-- taskio_handle_join, with a task's waker
unfoldable pub handle_join : ℕ → ℕ → Option ℕ → Runtime → Run Runtime
unfolding add_joiner
handle_join id waker out rt = do
  task ← deref rt id
  elim task.status [
    | suspended ↦ done (add_joiner id task waker out rt)
    | scheduled ↦ done (add_joiner id task waker out rt)
    | aborted ↦ do
      rt' ← task_add_event_loop waker rt
      task' ← deref rt' id
      done (add_joiner id task' waker out rt')
    | finished ↦ task_add_event_loop waker (copy_out out task.out rt)
  ]

-- blocking_worker_run, one round; `result` is what the handler leaves in the output.
run_handler : ℕ → ℕ → Task → Runtime → Run Runtime
run_handler result id task rt =
    task_wake_wakers id (
      store rt id (record task {
        status = finished;
        out = elim task.out [ none ↦ none | some _ ↦ some result ];
      }))
    >>= task_drop id

unfoldable pub blocking_round : ℕ → ℕ → List ℕ → Runtime → Run Runtime
unfolding run_handler
blocking_round result id rest rt =
    let rt' = record rt { blocking_queue = rest; blocking_sem = rt.blocking_sem - 1 } in
    do
      task ← deref rt' id
      elim task.status [ aborted ↦ task_drop id rt' | _ ↦ run_handler result id task rt' ]

unfoldable pub blocking_worker : ℕ → Runtime → Run Runtime
unfolding blocking_round
blocking_worker result rt = elim rt.blocking_queue [
  | [] ↦ fault null_pointer
  | ◌∷◌ id rest ↦ blocking_round result id rest rt
]

-- enum taskio_future_poll; a future that is ready has left a value.
pub data Poll : Type 0 where
  undefined pending : Poll
  ready : ℕ → Poll

-- worker_run: the task at the head of the queue, taken off.
unfoldable pub take_task : Runtime → ℕ → Run Runtime
take_task rt id = do
  task ← deref rt id
  done (record rt {
    poll_head = task.next;
    poll_tail = elim task.next [ none ↦ none | some _ ↦ rt.poll_tail ];
  })

-- the task before it is polled
unfoldable pub begin_poll : ℕ → Runtime → Run Runtime
begin_poll id rt = do
  task ← deref rt id
  done (store rt id (record task { status = suspended; next = none }))

unfoldable pub clean : ℕ → Runtime → Runtime
clean id rt = record rt { cleaned = rt.cleaned ++ (id ∷ []) }

-- the task after its poll; `is_main` where it is the one that `taskio_runtime_block_on` waits for,
-- whose output is elsewhere.
unfoldable pub end_poll : Bool → ℕ → Poll → Runtime → Run Runtime
unfolding clean
end_poll is_main id undefined rt = done rt
end_poll is_main id pending rt = done rt
end_poll is_main id (ready value) rt = do
  task ← deref rt id
  rt' ← task_wake_wakers id (
      store (clean id rt) id (record task {
        status = finished;
        out = elim task.out [ none ↦ none | some v ↦ some (if is_main then v else value) ];
      }))
  task_drop id rt'

-- The world of the futures is `x`. A poll that is ready has the clean-up of its future with it, since
-- nothing stands between them.
module _ {X : Type 0} (poll : ℕ → Runtime → X → Run (Poll × Runtime × X)) (clean_up : ℕ → X → Run X)
    (main : Option ℕ) where
  is_main_task : ℕ → Bool
  is_main_task id = elim main [ none ↦ false | some m ↦ m == id ]

  -- worker_run, one task of the inner loop, and whether the outer loop is to end
  unfoldable pub run_task : ℕ → Runtime → X → Run (Bool × Runtime × X)
  unfolding is_main_task clean
  run_task id rt x = do
    rt' ← take_task rt id
    task ← deref rt' id
    elim task.status [
      | aborted ↦ do
        x' ← clean_up id x
        rt'' ← task_drop id (clean id rt')
        done (is_main_task id, rt'', x')
      | _ ↦ do
        begun ← begin_poll id rt'
        polled ← poll id begun x
        ended ← end_poll (is_main_task id) id polled.0 polled.1
        done (elim (polled.0) [ ready _ ↦ is_main_task id | _ ↦ false ], ended, polled.2)
    ]

  -- worker_run, the inner loop, with fuel for the tasks that are polled
  unfoldable pub run_queue : ℕ → Bool → Runtime → X → Run (Bool × Runtime × X)
  unfolding run_task
  run_queue zero ending rt x = fault out_of_fuel
  run_queue (suc fuel) ending rt x =
      let go_on =
        λ (r : Bool × Runtime × X). run_queue fuel (if ending then true else r.0) (r.1) (r.2) in
      elim rt.poll_head [
        | none ↦ done (ending, record rt { poll_scheduled = false }, x)
        | some id ↦ run_task id rt x >>= go_on
      ]
