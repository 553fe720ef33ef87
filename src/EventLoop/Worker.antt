-- ===== src/EventLoop/Worker.antt =====
-- worker_run in src/platform/linux/runtime.c with the events of the descriptors, and the start of a
-- runtime: taskio_runtime_init and taskio_runtime_block_on. The events that epoll_wait returns are
-- a list for each call of it; behind the last list the worker waits.
pub mod Rounds
pub mod Calls
pub mod Main
pub mod Sole
pub mod Ticks
pub mod Returns
pub mod Entry
mod Tests
use taskio.Prelude.{
  ℕ, zero, suc, ◌-◌, Bool, true, false, Option, none, some, List, [], ◌∷◌, ◌==◌, if◌then◌else◌,
  update, word_limit, Run, done, fault, null_pointer, ◌>>=◌,
}
use taskio.Wheel.{Timer}
use taskio.Hierarchy.{Timers, wheel_setup, run_expirations}
use taskio.Async.{Answer, undefined, pending, ready}
use taskio.EventLoop.{Runtime, spawn}
use taskio.EventLoop.Handles.{
  Poll, undefined as poll_undefined, pending as poll_pending, ready as poll_ready, handle_drop,
  run_queue,
}

-- struct epoll_event: the descriptor that it is for, with the expirations that the timer's has.
pub data Event : Type 0 where
  queue_event other_event : Event
  timer_event : ℕ → Event

-- The switch of taskio_runtime_init: TASKIO_MULTI_THREADED is -1.
unfoldable pub worker_count : ℕ → ℕ
worker_count worker_size = if worker_size == word_limit - 1 then 24 else worker_size

-- The start of worker_run in a thread, with its argument: it reads the runtime of its worker.
unfoldable pub worker_thread : Option ℕ → Run ℕ
worker_thread none = fault null_pointer
worker_thread (some worker) = done worker

-- The loop of taskio_runtime_init, each thread with the argument that thrd_create has for it. A
-- thread that faults ends the program.
unfoldable pub start_workers : ℕ → Run (Unit {0})
unfolding worker_thread
start_workers zero = done tt
start_workers (suc workers) = worker_thread none >>= λ (worker : ℕ). start_workers workers

-- taskio_runtime_init in a zeroed runtime.
unfoldable pub runtime_init : ℕ → Runtime → Run (Runtime × Timers)
unfolding worker_count start_workers
runtime_init worker_size rt = start_workers (worker_count worker_size) >>= λ (started : Unit {0}).
    done (
      record rt {
        poll_head = none;
        poll_tail = none;
        poll_scheduled = false;
        event_fd = 0;
        blocking_sem = 0;
      },
      wheel_setup,
    )

-- Whether the worker ends, with the runtime, the timers and the futures.
abbrev pub Worked : Type 0 → Type 0
Worked F = Bool × Runtime × (Timers × F)

-- `call` is what the call of a timer's handler does.
module _ (call : Timer → Runtime → Run Runtime) where
  unfoldable pub run_calls : List Timer → Runtime → Run Runtime
  run_calls [] rt = done rt
  run_calls (x ∷ xs) rt = call x rt >>= run_calls xs

  -- The calls that the timers have noted, made: no handler of taskio looks at the timers.
  unfoldable pub make_calls : Runtime → Timers → Run (Runtime × Timers)
  unfolding run_calls
  make_calls rt h = run_calls h.calls rt >>= λ rt'. done (rt', record h { calls = [] })

  -- The poll of a task in worker_run, whose future is at its number, with the clean-up of a future
  -- that is ready; the handlers that both call are called behind them.
  module _ {F V : Type 0} (resume : ℕ → F → Timers → Run (Answer V × F × Timers))
      (clean_future : F → Timers → Run (F × Timers)) (number : V → ℕ) where
    abbrev poll_of : Answer V → Poll
    poll_of undefined = poll_undefined
    poll_of pending = poll_pending
    poll_of (ready v) = poll_ready (number v)

    clean_ready : Answer V → F → Timers → Run (F × Timers)
    clean_ready undefined f h = done (f, h)
    clean_ready pending f h = done (f, h)
    clean_ready (ready v) f h = clean_future f h

    unfoldable pub poll_future :
        ℕ → Runtime → Timers × (ℕ → F) → Run (Poll × Runtime × (Timers × (ℕ → F)))
    unfolding clean_ready make_calls
    poll_future id rt (h, futures) = do
      r ← resume id (futures id) h
      cleaned ← clean_ready r.0 r.1 r.2
      made ← make_calls rt cleaned.1
      done (poll_of r.0, made.0, (made.1, update futures id cleaned.0))

  module _ {F : Type 0} (poll : ℕ → Runtime → Timers × F → Run (Poll × Runtime × (Timers × F)))
      (clean_up : ℕ → Timers × F → Run (Timers × F)) (fuel : ℕ) where
    -- worker_run, one event
    unfoldable pub handle_event : Option ℕ → Event → Worked F → Run (Worked F)
    unfolding make_calls run_queue
    handle_event main queue_event (ending, rt, x) =
        run_queue poll clean_up main fuel ending (record rt { event_fd = 0 }) x
    handle_event main other_event s = done s
    handle_event main (timer_event expirations) (ending, rt, (h, f)) = do
      ticked ← run_expirations expirations h
      made ← make_calls rt ticked
      done (ending, made.0, (made.1, f))

    -- worker_run, the events of one call of epoll_wait
    unfoldable pub handle_events : Option ℕ → List Event → Worked F → Run (Worked F)
    unfolding handle_event
    handle_events main [] s = done s
    handle_events main (e ∷ es) s = handle_event main e s >>= handle_events main es

    -- worker_run
    unfoldable pub worker_run : Option ℕ → List (List Event) → Worked F → Run (Worked F)
    unfolding handle_events
    worker_run main [] s = done s
    worker_run main (events ∷ later) s = handle_events main events s >>= λ (s' : Worked F).
        if s'.0 then done s' else worker_run main later s'

    -- taskio_runtime_block_on
    unfoldable pub block_on : List (List Event) → Runtime → Timers × F → Run (Worked F)
    unfolding worker_run
    block_on calls rt x = do
      spawned ← (spawn none rt).1
      dropped ← handle_drop (spawn none rt).0 spawned
      worker_run (some (spawn none rt).0) calls (false, dropped, x)
