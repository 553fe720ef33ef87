-- ===== src/EventLoop/Worker/Main.antt =====
-- taskio_runtime_block_on (src/platform/linux/runtime.c) on a future of taskio_sleep
-- (src/common/sleep.c): the worker, the timers and the async function together.
use taskio.Prelude.{
  ℕ, Option, ◌-◌, ◌≡◌, refl, false, none, some, List, [], ◌∷◌, arith, if◌then◌else◌, word_limit,
  update, Run, done, ◌>>=◌,
}
use taskio.Wheel.{Timer, TimerHandle}
use taskio.Hierarchy.{Timers, add_timer}
use taskio.Async.{clean}
use taskio.Sleep.{SleepFuture, sleep_handler, sleep, sleep_future, sleep_resume}
use taskio.Sleep.Course.{asleep, awake, first_poll, next_poll, clean-awake}
use taskio.EventLoop.{scheduled, Runtime, new_task, spawn, store, task_add_event_loop}
use taskio.EventLoop.Queue.{Queue}
use taskio.EventLoop.Handles.{Poll, pending as poll_pending, ready as poll_ready, handle_drop}
use taskio.EventLoop.Handles.Aborts.{store_hit}
use taskio.EventLoop.Handles.Owners.{spawn-Queue, drop_shared}
use taskio.EventLoop.Worker.{
  Event, timer_event, poll_future, Worked, handle_event, handle_events, worker_run, block_on,
}
use taskio.EventLoop.Worker.Rounds.{single, Single}
use taskio.EventLoop.Worker.Calls.{make_calls-none}

-- taskio_sleep_handler: it wakes the task of the waker that its data is.
unfoldable pub call_sleep : Timer → Runtime → Run Runtime
call_sleep timer rt = task_add_event_loop timer.payload rt

-- The futures of the tasks with the timers.
abbrev pub Futures : Type 0
Futures = ℕ → SleepFuture

-- Calls of epoll_wait that each return an event of the timer descriptor.
abbrev pub timer_events : List ℕ → List (List Event)
timer_events [] = []
timer_events (n ∷ counts) = (timer_event n ∷ []) ∷ timer_events counts

module _ (wake : ℕ → Timers → Timers) where
  unfoldable pub poll_sleep :
      ℕ → Runtime → Timers × Futures → Run (Poll × Runtime × (Timers × Futures))
  poll_sleep = poll_future call_sleep (sleep_resume wake) (clean (sleep_future wake)) (λ _. 0)

  unfoldable pub clean_sleep : ℕ → Timers × Futures → Run (Timers × Futures)
  clean_sleep id (h, futures) =
      clean (sleep_future wake) (futures id) h >>= λ (r : SleepFuture × Timers).
      done (r.1, update futures id (r.0))

  pub first_sleep :
      (id ms : ℕ) (rt : Runtime) (h : Timers) (futures : Futures)
      → futures id ≡ sleep ms
      → (add_timer h ms sleep_handler id).0.calls ≡ []
      → poll_sleep id rt (h, futures)
        ≡ done (
          poll_pending,
          rt,
          (
            (add_timer h ms sleep_handler id).0,
            update futures id (asleep ms id ((add_timer h ms sleep_handler id).1)),
          ),
        )
  unfolding poll_sleep poll_future
  first_sleep id ms rt h futures f quiet =
      rw
        (
          f,
          first_poll wake id ms h,
          make_calls-none call_sleep rt ((add_timer h ms sleep_handler id).0) quiet,
        )
        refl

  pub next_sleep :
      (id ms : ℕ) (handle : TimerHandle) (rt : Runtime) (h : Timers) (futures : Futures)
      → futures id ≡ asleep ms id handle
      → h.calls ≡ []
      → poll_sleep id rt (h, futures)
        ≡ done (
          poll_ready 0,
          rt,
          (h, update futures id (record (awake ms id) { counter = word_limit - 1 })),
        )
  unfolding poll_sleep poll_future
  next_sleep id ms handle rt h futures f quiet =
      rw
        (
          f,
          next_poll wake id id ms handle h,
          clean-awake wake id ms h,
          make_calls-none call_sleep rt h quiet,
        )
        refl

-- One call of epoll_wait with one event.
pub worker_run-step :
    {F : Type 0} (call : Timer → Runtime → Run Runtime)
    (poll : ℕ → Runtime → Timers × F → Run (Poll × Runtime × (Timers × F)))
    (clean_up : ℕ → Timers × F → Run (Timers × F)) (fuel : ℕ) (main : Option ℕ) (e : Event)
    (later : List (List Event)) (s s' : Worked F)
    → handle_event call poll clean_up fuel main e s ≡ done s'
    → worker_run call poll clean_up fuel main ((e ∷ []) ∷ later) s
      ≡ (if s'.0 then done s' else worker_run call poll clean_up fuel main later s')
unfolding worker_run handle_events
worker_run-step call poll clean_up fuel main e later s s' run = rw run refl

pub block_on-begins :
    {F : Type 0} (call : Timer → Runtime → Run Runtime)
    (poll : ℕ → Runtime → Timers × F → Run (Poll × Runtime × (Timers × F)))
    (clean_up : ℕ → Timers × F → Run (Timers × F)) (fuel : ℕ) (calls : List (List Event))
    (rt spawned rt' : Runtime) (x : Timers × F)
    → (spawn none rt).1 ≡ done spawned
    → handle_drop rt.fresh spawned ≡ done rt'
    → block_on call poll clean_up fuel calls rt x
      ≡ worker_run call poll clean_up fuel (some rt.fresh) calls (false, rt', x)
unfolding block_on spawn
block_on-begins call poll clean_up fuel calls rt spawned rt' x spawns drops =
    rw (spawns, drops) refl

-- The task that taskio_runtime_block_on spawns: it is alone in the queue, without a handle.
pub begin_lem :
    (rt : Runtime)
    → Queue rt []
    → (spawned rt' : Runtime) × ((spawn none rt).0 ≡ rt.fresh)
      × ((spawn none rt).1 ≡ done spawned)
      × (handle_drop rt.fresh spawned ≡ done rt')
      × Single rt' rt.fresh scheduled (rt.fresh ∷ [])
unfolding store
begin_lem rt queue =
    let (number, spawned, run, queue', e, _) = spawn-Queue rt none [] queue tt in
    let task = record (new_task false none) { status = scheduled } in
    (
      spawned,
      store spawned rt.fresh (single scheduled),
      number,
      run,
      drop_shared spawned rt.fresh 1 task e refl (omega arith) (omega arith),
      record {
        task = store_hit spawned rt.fresh (single scheduled);
        queue = record {
          chain = (
            queue'.chain.0,
            single scheduled,
            store_hit spawned rt.fresh (single scheduled),
            refl,
          );
          tail = queue'.tail;
          distinct = (tt, tt);
        };
      },
    )
