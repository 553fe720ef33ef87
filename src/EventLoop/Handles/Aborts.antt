-- ===== src/EventLoop/Handles/Aborts.antt =====
-- taskio_handle_abort of src/platform/linux/runtime.c, and what the worker then does with the task.
use taskio.Prelude.{
  ℕ, ◌≡◌, ◌≢◌, ◌∙◌, ap, refl, inl, inr, Bool, true, false, Option, none, some, List, [], ◌∷◌, ◌++◌,
  arith, ◌==◌, Run, done, Bool-cases, u64_dec,
}
use taskio.EventLoop.{
  suspended, scheduled, aborted, Task, Runtime, store, task_add_event_loop, task_drop,
}
use taskio.EventLoop.Chain.{NotIn, Follows-frame}
use taskio.EventLoop.Queue.{
  unqueued, Queue, deref-some, task_add_event_loop-Enqueued, take_task-Queue,
}
use taskio.EventLoop.Handles.{handle_abort, handle_is_aborted, run_task, clean, Poll}

pub store-Queue :
    (rt : Runtime) (xs : List ℕ) (id : ℕ) (task : Task)
    → Queue rt xs
    → NotIn id xs
    → Queue (store rt id task) xs
unfolding store
store-Queue rt xs id task queue absent = record {
  chain = Follows-frame rt.tasks rt.poll_head xs id (some task) absent queue.chain;
  tail = queue.tail;
  distinct = queue.distinct;
}

pub store_hit : (rt : Runtime) (id : ℕ) (task : Task) → (store rt id task).tasks id ≡ some task
unfolding store
store_hit rt id task = let hit : (id == id) ≡ true = ground arith in rw hit refl

pub abort_idle :
    (rt : Runtime) (id : ℕ) (task : Task)
    → rt.tasks id ≡ some task
    → task.status ≡ suspended
    → task.blocking ≡ false
    → handle_abort id rt ≡ task_add_event_loop id (store rt id (record task { status = aborted }))
unfolding handle_abort
abort_idle rt id task e s async = rw (deref-some rt id task e, s, async) refl

pub abort_scheduled :
    (rt : Runtime) (id : ℕ) (task : Task)
    → rt.tasks id ≡ some task
    → task.status ≡ scheduled
    → task.blocking ≡ false
    → handle_abort id rt ≡ done (store rt id (record task { status = aborted }))
unfolding handle_abort
abort_scheduled rt id task e s async = rw (deref-some rt id task e, s, async) refl

-- An abort of a suspended task that is not a blocking one and is not in the poll queue is a wake:
-- the task goes to the end of the queue, scheduled, and its handle does not say that it was
-- aborted.
pub handle_abort-suspended :
    (rt : Runtime) (id : ℕ) (task : Task) (xs : List ℕ)
    → Queue rt xs
    → NotIn id xs
    → rt.tasks id ≡ some task
    → task.next ≡ none
    → task.status ≡ suspended
    → task.blocking ≡ false
    → (rt' : Runtime) × (handle_abort id rt ≡ done rt')
      × Queue rt' (xs ++ (id ∷ []))
      × (rt'.tasks id ≡ some (record task { status = scheduled }))
      × (handle_is_aborted id rt' ≡ done false)
unfolding handle_is_aborted
handle_abort-suspended rt id task xs queue absent e end s async =
    let stopped = record task { status = aborted } in
    let (rt', run, queue', e', on, frame) =
      task_add_event_loop-Enqueued (store rt id stopped) id stopped xs
        (store-Queue rt xs id stopped queue absent) absent (store_hit rt id stopped) end
        (ground arith) in
    rw (abort_idle rt id task e s async, run)
      (rt', refl, queue', e', rw (deref-some rt' id (record task { status = scheduled }) e') refl)

-- A drop takes one owner off, and frees the task with the last.
pub task_drop-Queue :
    (rt : Runtime) (id : ℕ) (task : Task) (xs : List ℕ)
    → Queue rt xs
    → NotIn id xs
    → rt.tasks id ≡ some task
    → (rt' : Runtime) × (task_drop id rt ≡ done rt')
      × Queue rt' xs
      × (unqueued rt' ≡ unqueued rt)
      × (rt'.memory ≡ rt.memory)
      × (task.counter ≡ 1 → rt'.tasks id ≡ none)
      × (task.counter ≢ 1 → rt'.tasks id ≡ some (record task { counter = u64_dec task.counter }))
unfolding task_drop store
task_drop-Queue rt id task xs queue absent e =
    let kept =
      λ (v : Option Task). Follows-frame rt.tasks rt.poll_head xs id v absent queue.chain in
    elim (Bool-cases (task.counter == 1)) [
      | inl one ↦
          rw (deref-some rt id task e, one)
            (
              _,
              refl,
              record { chain = kept none; tail = queue.tail; distinct = queue.distinct },
              refl,
              refl,
              (λ _. let hit : (id == id) ≡ true = ground arith in rw hit refl),
              λ several. absurd (ground (arith, several)),
            )
      | inr more ↦
          rw (deref-some rt id task e, more)
            (
              _,
              refl,
              record { chain = kept _; tail = queue.tail; distinct = queue.distinct },
              refl,
              refl,
              (λ one. absurd (ground arith)),
              λ _. let hit : (id == id) ≡ true = ground arith in rw hit refl,
            )
    ]

-- A task that was aborted in the queue, and whose clean-up does not fault, is not polled, whatever
-- its future would do: its future is cleaned up, and the queue behind it is as it was, so that no
-- task that joined it is woken.
pub run_task-aborted :
    {X : Type 0} (poll : ℕ → Runtime → X → Run (Poll × Runtime × X)) (clean_up : ℕ → X → Run X)
    (main : Option ℕ) (rt : Runtime) (x x' : X) (id : ℕ) (task : Task) (xs : List ℕ)
    → Queue rt (id ∷ xs)
    → rt.tasks id ≡ some task
    → task.status ≡ aborted
    → clean_up id x ≡ done x'
    → (ending : Bool) × (rt' : Runtime) × (run_task poll clean_up main id rt x
        ≡ done (ending, rt', x'))
      × (rt'.cleaned ≡ rt.cleaned ++ (id ∷ []))
      × Queue rt' xs
unfolding run_task clean
run_task-aborted poll clean_up main rt x x' id task xs queue e s cleans =
    let (rt', taken, queue', same, cleaned) = take_task-Queue rt id xs queue in
    let e' : rt'.tasks id ≡ some task = rw same e in
    let (rt'', dropped, queue'', kept, _, _, _) =
      task_drop-Queue (clean id rt') id task xs
        (record { chain = queue'.chain; tail = queue'.tail; distinct = queue'.distinct })
        queue.distinct.0 e' in
    rw (taken, deref-some rt' id task e', s, cleans, dropped)
      (
        _,
        rt'',
        refl,
        ap (λ (l : List ℕ × (List ℕ × ℕ)). l.0) kept ∙ ap (λ (l : List ℕ). l ++ (id ∷ [])) cleaned,
        queue'',
      )
