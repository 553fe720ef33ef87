-- ===== src/EventLoop/Tests.antt =====
-- The event loop of src/platform/linux/runtime.c at concrete tasks: runs, and its theorems there.
use taskio.Prelude.{
  fault, freed_pointer, ℕ, zero, suc, ◌+◌, ◌≡◌, refl, Bool, true, false, Option, none, some, List,
  [], ◌∷◌, arith, update, Run, done, ◌>>=◌,
}
use taskio.EventLoop.{
  scheduled, aborted, finished, Task, null, node, Runtime, new_task, spawn, spawn_blocking,
  start_blocking, task_add_event_loop, store, link, signal_event, enqueue, deref, task_drop,
  task_wake_wakers, wake_all, after_wake, copy_out,
}
use taskio.EventLoop.Queue.{Queue}
use taskio.EventLoop.Handles.{
  Poll, pending, ready, handle_abort, handle_is_aborted, handle_join, take_task, begin_poll,
  end_poll, clean, run_task, run_queue, add_joiner,
}
use taskio.EventLoop.Handles.Aborts.{handle_abort-suspended, run_task-aborted}
use taskio.EventLoop.Handles.Hazards.{end_poll-scheduled, task_add_event_loop-aborted}

abbrev empty : Runtime
empty = record {
  tasks = λ _. none;
  fresh = 0;
  poll_head = none;
  poll_tail = none;
  poll_scheduled = false;
  event_fd = 0;
  blocking_queue = [];
  blocking_sem = 0;
  blocking_initialized = false;
  blocking_workers = 0;
  memory = λ _. 0;
  cleaned = [];
}

-- Task 0 is queued; task 1 waits, joined by task 2, which waits too; task 3 is finished, task 4 runs
-- in a thread, joined by task 2.
abbrev queued : Task
queued = record (new_task false none) { status = scheduled }

abbrev joined : Task
joined = record (new_task false (some 0)) {
  counter = 1;
  wake_on_ready = node (record { waker = 2; out = some 100 }) null;
}

abbrev over : Task
over = record (new_task false none) { status = finished; counter = 1 }

abbrev in_thread : Task
in_thread = record joined { blocking = true }

abbrev five : Runtime
five = record empty {
  tasks =
      update
        (update
          (update (update (update (λ _. none) 0 (some queued)) 1 (some joined)) 2
            (some (new_task false none)))
          3 (some over))
        4 (some in_thread);
  fresh = 5;
  poll_head = some 0;
  poll_tail = some 0;
  poll_scheduled = true;
  blocking_queue = 4 ∷ [];
  blocking_sem = 1;
}

abbrev five-Queue : Queue five (0 ∷ [])
five-Queue = record { chain = (refl, queued, refl, refl); tail = refl; distinct = (tt, tt) }

-- Task 1 is spawned, joined by task 0, and ready with 7 at its first poll; then task 0 is polled.
poll_seven : ℕ → Runtime → ℕ → Run (Poll × Runtime × ℕ)
poll_seven id rt polls = done (elim id [ suc _ ↦ ready 7 | zero ↦ pending ], rt, polls + 1)

clean_none : ℕ → ℕ → Run ℕ
clean_none id polls = done polls

spawned : Run (Bool × Runtime × ℕ)
spawned = do
  a ← (spawn none empty).1
  b ← (spawn (some 0) a).1
  c ← handle_join 1 0 (some 50) b
  run_queue poll_seven clean_none none 4 false c 0

summary : Run (ℕ × List ℕ × Option ℕ × ℕ)
summary = spawned >>= λ r. done (r.1.memory 50, r.1.cleaned, r.1.poll_head, r.2)

seven_arrives : summary ≡ done (7, 1 ∷ [], none, 3)
unfolding summary spawned run_queue run_task poll_seven take_task begin_poll end_poll clean
    handle_join add_joiner spawn task_add_event_loop enqueue link signal_event store deref task_drop
    task_wake_wakers wake_all after_wake copy_out
seven_arrives = refl

-- Two tasks for the threads: the threads are started once, and the tasks wait in their order.
two_blocking : Runtime
two_blocking = (spawn_blocking none (spawn_blocking (some 0) empty).1).1

threads_once : (two_blocking.blocking_workers ≡ 512) × (two_blocking.blocking_queue ≡ 0 ∷ 1 ∷ [])
unfolding two_blocking spawn_blocking start_blocking store
threads_once = (refl, refl)

handle_abort-suspended_example :
    (rt' : Runtime) × (handle_abort 1 five ≡ done rt')
    × Queue rt' (0 ∷ 1 ∷ [])
    × (rt'.tasks 1 ≡ some (record joined { status = scheduled }))
    × (handle_is_aborted 1 rt' ≡ done false)
handle_abort-suspended_example =
    handle_abort-suspended five 1 joined (0 ∷ []) five-Queue (omega arith, tt) refl refl refl refl

abbrev stopped : Runtime
stopped = record five { tasks = update five.tasks 0 (some (record queued { status = aborted })) }

run_task-aborted_example :
    (ending : Bool) × (rt' : Runtime) × (run_task poll_seven clean_none none 0 stopped 3
      ≡ done (ending, rt', 3))
    × (rt'.cleaned ≡ 0 ∷ [])
    × Queue rt' []
unfolding clean_none
run_task-aborted_example =
    run_task-aborted poll_seven clean_none none stopped 3 3 0 (record queued { status = aborted })
      []
      (record {
        chain = (refl, record queued { status = aborted }, refl, refl);
        tail = refl;
        distinct = (tt, tt);
      })
      refl refl refl

-- Task 0 is the only one, and was woken in its poll.
abbrev lone : Runtime
lone = record five { tasks = update five.tasks 0 (some (record queued { counter = 1 })) }

end_poll-scheduled_example :
    (rt' : Runtime) × (end_poll false 0 (ready 7) lone ≡ done rt')
    × (rt'.poll_head ≡ some 0)
    × (run_task poll_seven clean_none none 0 rt' 3 ≡ fault freed_pointer)
end_poll-scheduled_example =
    end_poll-scheduled poll_seven clean_none none 3 lone false 0 7 (record queued { counter = 1 })
      []
      (record {
        chain = (refl, record queued { counter = 1 }, refl, refl);
        tail = refl;
        distinct = (tt, tt);
      })
      refl refl refl refl

task_add_event_loop-aborted_example :
    (rt' : Runtime) × (task_add_event_loop 0 stopped ≡ done rt')
    × (rt'.tasks 0 ≡ some (record queued { next = some 0 }))
    × ((ys : List ℕ) → ¬ Queue rt' ys)
task_add_event_loop-aborted_example =
    task_add_event_loop-aborted stopped 0 (record queued { status = aborted }) refl refl refl
