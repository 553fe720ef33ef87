-- ===== src/EventLoop/Worker/Rounds.antt =====
-- The rounds of worker_run in src/platform/linux/runtime.c with one task.
use taskio.Prelude.{
  ℕ, suc, ◌≡◌, refl, ap, ◌∙◌, ◌>>=◌, Bool, true, false, Option, none, some, List, [], ◌∷◌, arith,
  ◌==◌, Run, done, if◌then◌else◌,
}
use taskio.EventLoop.{Status, suspended, scheduled, Task, Runtime, new_task, store}
use taskio.EventLoop.Queue.{Queue, deref-some, take_task-Queue}
use taskio.EventLoop.Handles.{
  Poll, pending, ready, take_task, begin_poll, end_poll, run_task, run_queue,
}
use taskio.EventLoop.Handles.Aborts.{store-Queue, store_hit}
use taskio.EventLoop.Handles.Finish.{end_poll-ready}

-- A task without an output or a handle.
abbrev pub single : Status → Task
single status = record (new_task false none) { status = status; counter = 1 }

-- A task without a handle, and the tasks in the queue.
pub record Single (rt : Runtime) (id : ℕ) (status : Status) (xs : List ℕ) : Type 0 where
  pub task : rt.tasks id ≡ some (single status)
  pub queue : Queue rt xs

module _ {X : Type 0} (poll : ℕ → Runtime → X → Run (Poll × Runtime × X)) (clean_up : ℕ → X → Run X)
    (main : Option ℕ) (rt : Runtime) (x : X) (ending : Bool) (fuel : ℕ) where
  after_head : Option ℕ → Run (Bool × Runtime × X)
  after_head head =
      let go_on = λ (r : Bool × Runtime × X).
        run_queue poll clean_up main fuel (if ending then true else r.0) (r.1) (r.2) in
      elim head [
        | none ↦ done (ending, record rt { poll_scheduled = false }, x)
        | some id ↦ run_task poll clean_up main id rt x >>= go_on
      ]

  pub run_queue-last :
      rt.poll_head ≡ none
      → run_queue poll clean_up main (suc fuel) ending rt x
        ≡ done (ending, record rt { poll_scheduled = false }, x)
  unfolding run_queue after_head
  run_queue-last e = ap after_head e

  pub run_queue-step :
      (id : ℕ) (r : Bool × Runtime × X)
      → rt.poll_head ≡ some id
      → run_task poll clean_up main id rt x ≡ done r
      → run_queue poll clean_up main (suc fuel) ending rt x
        ≡ run_queue poll clean_up main fuel (if ending then true else r.0) (r.1) (r.2)
  unfolding run_queue after_head
  run_queue-step id r e run = ap after_head e ∙ (rw run refl)

module _ {X : Type 0} (poll : ℕ → Runtime → X → Run (Poll × Runtime × X)) (clean_up : ℕ → X → Run X)
    (rt : Runtime) (id : ℕ) (x x' : X) (s : Single rt id scheduled (id ∷ [])) where
  -- The task before its poll.
  begun_lem :
      (taken begun : Runtime) × (take_task rt id ≡ done taken)
      × (taken.tasks id ≡ some (single scheduled))
      × (begin_poll id taken ≡ done begun)
      × Single begun id suspended []
  unfolding begin_poll
  begun_lem =
      let (taken, run, queue, same, _) = take_task-Queue rt id [] s.queue in
      let e : taken.tasks id ≡ some (single scheduled) = rw same (s.task) in
      (
        taken,
        store taken id (single suspended),
        run,
        e,
        (rw (deref-some taken id (single scheduled) e) refl),
        record {
          task = store_hit taken id (single suspended);
          queue = store-Queue taken [] id (single suspended) queue tt;
        },
      )

  -- A task whose poll waits is suspended, and the queue is empty.
  pub run_queue-waits :
      (fuel : ℕ)
      → ((rt' : Runtime) → poll id rt' x ≡ done (pending, rt', x'))
      → (rt' : Runtime) × (run_queue poll clean_up (some id) (suc (suc fuel)) false rt x
          ≡ done (false, rt', x'))
        × Single rt' id suspended []
  unfolding run_task end_poll
  run_queue-waits fuel waits =
      let (taken, begun, took, e, begins, alone) = begun_lem in
      let run : run_task poll clean_up (some id) id rt x ≡ done (false, begun, x') =
        rw (took, deref-some taken id (single scheduled) e, begins, waits begun) refl in
      (
        _,
        (run_queue-step poll clean_up (some id) rt x false (suc fuel) id _ (s.queue.chain.0) run
            ∙ run_queue-last poll clean_up (some id) begun x' false fuel alone.queue.chain),
        record {
          task = alone.task;
          queue = record { chain = alone.queue.chain; tail = alone.queue.tail; distinct = tt };
        },
      )

  -- A task whose poll is ready is freed, and the worker ends.
  pub run_queue-ends :
      (fuel value : ℕ)
      → ((rt' : Runtime) → poll id rt' x ≡ done (ready value, rt', x'))
      → (rt' : Runtime) × (run_queue poll clean_up (some id) (suc (suc fuel)) false rt x
          ≡ done (true, rt', x'))
        × (rt'.tasks id ≡ none)
        × Queue rt' []
  unfolding run_task
  run_queue-ends fuel value is_ready =
      let (taken, begun, took, e, begins, alone) = begun_lem in
      let main : (id == id) ≡ true = ground arith in
      let (ended, ends, _, end) =
        end_poll-ready begun true id value (single suspended) [] [] alone.queue alone.task refl tt
          (tt, tt) tt in
      let run : run_task poll clean_up (some id) id rt x ≡ done (true, ended, x') =
        rw (took, deref-some taken id (single scheduled) e, begins, is_ready begun, main, ends)
          refl in
      (
        _,
        (run_queue-step poll clean_up (some id) rt x false (suc fuel) id _ (s.queue.chain.0) run
            ∙ run_queue-last poll clean_up (some id) ended x' true fuel end.queue.chain),
        end.freed refl,
        record { chain = end.queue.chain; tail = end.queue.tail; distinct = tt },
      )
