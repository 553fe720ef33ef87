-- ===== src/EventLoop/Worker/Tests.antt =====
-- taskio_runtime_init and taskio_runtime_block_on (src/platform/linux/runtime.c) of a sleep of 25 ms
-- in a zeroed runtime: runs, and the theorem there.
use taskio.Prelude.{
  ℕ, ◌-◌, ◌≡◌, refl, true, false, Option, none, some, u64_dec, [], ◌∷◌, ◌++◌, arith, word_limit,
  done, fault, Run, null_pointer,
}
use taskio.Wheel.{Timer}
use taskio.EventLoop.Handles.{
  Poll, ready, run_queue, run_task, take_task, begin_poll, end_poll, clean, handle_drop,
}
use taskio.Hierarchy.{Timers, wheel_setup, drop_wheels, find_wheel}
use taskio.Hierarchy.Weight.{weigh-zero, same, one_if}
use taskio.Hierarchy.Placement.{Inv}
use taskio.Hierarchy.Setup.{setup-Inv}
use taskio.Hierarchy.Agenda.{pending}
use taskio.Sleep.{sleep}
use taskio.EventLoop.{
  suspended, Runtime, copy_out, spawn, task_add_event_loop, enqueue, link, signal_event, store,
  deref, task_drop, task_wake_wakers, wake_all, after_wake,
}
use taskio.EventLoop.Queue.{Queue}
use taskio.EventLoop.Worker.{
  queue_event, timer_event, block_on, runtime_init, start_workers, worker_thread, worker_count,
  worker_run, handle_event, handle_events,
}
use taskio.EventLoop.Worker.Rounds.{single}
use taskio.EventLoop.Worker.Main.{call_sleep, Futures, poll_sleep, clean_sleep, timer_events}
use taskio.EventLoop.Worker.Entry.{configured, zeroed, ended, Exit, main_fn}
use taskio.EventLoop.Worker.Returns.{block_on-Returns}

one_worker : runtime_init 0 zeroed ≡ done (zeroed, wheel_setup)
unfolding runtime_init start_workers worker_thread worker_count
one_worker = refl

-- A thread of a worker uses its argument, which is NULL.
two_workers : runtime_init 2 zeroed ≡ fault null_pointer
unfolding runtime_init start_workers worker_thread worker_count
two_workers = refl

all_workers : runtime_init (word_limit - 1) zeroed ≡ fault null_pointer
unfolding runtime_init start_workers worker_thread worker_count
all_workers = refl

abbrev quiet : ℕ → Timers → Timers
quiet waker h = h

abbrev futures : Futures
futures id = sleep 25

block_on-Returns_example :
    ((rt1 : Runtime) × (g : Timers) × (futures1 : Futures) × (block_on call_sleep
          (poll_sleep quiet)
          (clean_sleep quiet)
          2
          ((queue_event ∷ []) ∷ timer_events (4 ∷ 20 ∷ []))
          zeroed
          (wheel_setup, futures)
        ≡ done (false, rt1, (g, futures1)))
      × (rt1.tasks 0 ≡ some (single suspended)))
    × (rt' : Runtime) × (h' : Timers) × (futures' : Futures) × (block_on call_sleep
          (poll_sleep quiet)
          (clean_sleep quiet)
          2
          ((queue_event ∷ [])
            ∷ (timer_events (4 ∷ 20 ∷ []) ++ ((timer_event 3 ∷ []) ∷ (queue_event ∷ []) ∷ [])))
          zeroed
          (wheel_setup, futures)
        ≡ done (true, rt', (h', futures')))
    × (rt'.tasks 0 ≡ none)
    × Queue rt' []
    × Inv 27 h'
    × ((y : Timer) → pending y h' ≡ 0)
unfolding wheel_setup find_wheel
block_on-Returns_example =
    block_on-Returns quiet 0 0 25 (4 ∷ 20 ∷ []) wheel_setup zeroed futures
      (record { chain = refl; tail = refl; distinct = tt }) setup-Inv refl
      (λ y. weigh-zero (λ z. one_if (same y z)) _ λ i hi j hj. refl) refl (omega arith)
      (omega arith) (omega arith) 3 (omega arith) (omega arith)

-- A main function whose first poll is ready.
poll_once : ℕ → Runtime → Timers × ℕ → Run (Poll × Runtime × (Timers × ℕ))
poll_once id rt x = done (ready 3, rt, x)

clean_number : ℕ → Timers × ℕ → Run (Timers × ℕ)
clean_number id x = done x

no_calls : Timer → Runtime → Run Runtime
no_calls x rt = done rt

abbrev run_main : ℕ → Run (Option Exit)
run_main worker_size =
    main_fn no_calls poll_once clean_number 2
      (record { allocator = none; worker_size = worker_size }) ((queue_event ∷ []) ∷ []) 3

-- It ends with the first event of the queue, its task is freed, and main returns 0.
main_result :
    (e : Exit) × (run_main 0 ≡ done (some e))
    × (e.result ≡ 0)
    × (e.runtime.tasks 0 ≡ none)
    × (e.timers ≡ drop_wheels wheel_setup)
unfolding main_fn ended configured runtime_init start_workers worker_count block_on worker_run
    handle_events handle_event run_queue run_task take_task begin_poll end_poll clean spawn
    task_add_event_loop enqueue link signal_event store deref handle_drop task_drop task_wake_wakers
    wake_all after_wake copy_out u64_dec poll_once clean_number
main_result = (_, refl, refl, refl, refl)

main_result_threads : run_main 2 ≡ fault null_pointer
unfolding main_fn configured runtime_init start_workers worker_thread worker_count
main_result_threads = refl
