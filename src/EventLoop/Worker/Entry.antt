-- ===== src/EventLoop/Worker/Entry.antt =====
-- The program that include/taskio.h makes of an async main function: taskio_main, with src/alloc.c.
use taskio.Prelude.{ℕ, false, Option, none, some, List, [], ◌==◌, if◌then◌else◌, Run, done, ◌>>=◌}
use taskio.Wheel.{Timer}
use taskio.Hierarchy.{Timers, drop_wheels}
use taskio.EventLoop.{Runtime}
use taskio.EventLoop.Handles.{Poll}
use taskio.EventLoop.Worker.{Event, runtime_init, Worked, block_on}

-- struct taskio_allocator by a number, none where it is zeroed, with the global allocator of
-- src/alloc.c; struct __taskio_async_main_runtime_config.
pub record Config : Type 0 where
  pub allocator : Option ℕ
  pub worker_size : ℕ

-- malloc and free, of _taskio_alloc and _taskio_free
abbrev pub default_allocator : ℕ
default_allocator = 0

-- main, the two defaults: TASKIO_SINGLE_THREADED is 0.
unfoldable pub configured : Config → Config
configured config = record {
  allocator = elim config.allocator [ none ↦ some default_allocator | some a ↦ some a ];
  worker_size = if config.worker_size == 0 then 0 else config.worker_size;
}

-- `taskio_stack_runtime stack_rt = {}`; `main_result` is at address 0.
abbrev pub zeroed : Runtime
zeroed = record {
  tasks = λ _. none;
  fresh = 0;
  poll_head = none;
  poll_tail = none;
  poll_scheduled = false;
  event_fd = 0;
  blocking_queue = [];
  blocking_sem = 0;
  blocking_initialized = false;
  blocking_workers = 0;
  memory = λ _. 0;
  cleaned = [];
}

-- What main has when it ends: its result, with the runtime and the timers that
-- taskio_runtime_drop leaves.
pub record Exit : Type 0 where
  pub result : ℕ
  pub runtime : Runtime
  pub timers : Timers

module _ {F : Type 0} (call : Timer → Runtime → Run Runtime)
    (poll : ℕ → Runtime → Timers × F → Run (Poll × Runtime × (Timers × F)))
    (clean_up : ℕ → Timers × F → Run (Timers × F)) (fuel : ℕ) where
  unfoldable pub ended : Worked F → Option Exit
  ended (ending, rt, (h, f)) =
      if ending
      then some (record { result = rt.memory 0; runtime = rt; timers = drop_wheels h })
      else none

  -- main, with the futures; none where the worker still waits when the events are over. The main
  -- function is an async_fn(void, ...), whose async_return has no value to write to `out`.
  unfoldable pub main_fn : Config → List (List Event) → F → Run (Option Exit)
  unfolding ended configured
  main_fn config calls f =
      runtime_init (configured config).worker_size zeroed >>= λ (start : Runtime × Timers).
      block_on call poll clean_up fuel calls (start.0) (start.1, f) >>= λ (s : Worked F).
      done (ended s)
