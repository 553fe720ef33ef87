-- ===== src/EventLoop/Handles/Owners.antt =====
-- The owners of a task in src/platform/linux/runtime.c: taskio_runtime_spawn makes two, a clone of a
-- handle one more, and the task is freed with the last.
use taskio.Prelude.{
  ℕ, zero, suc, ◌+◌, ◌<◌, ◌≡◌, ◌≢◌, ◌∙◌, refl, true, false, Option, none, some, List, [], ◌∷◌, ◌++◌,
  arith, ◌==◌, update, word_limit, u64_small, u64_dec, u64_dec_pos, Run, done, fault, freed_pointer,
  ◌>>=◌,
}
use taskio.EventLoop.{scheduled, Task, Runtime, new_task, spawn, deref, store, task_drop}
use taskio.EventLoop.Chain.{NotIn}
use taskio.EventLoop.Queue.{Queue, deref-some, task_add_event_loop-Enqueued}
use taskio.EventLoop.Handles.{handle_clone, handle_drop}
use taskio.EventLoop.Handles.Aborts.{store-Queue, store_hit}

store_other :
    (rt : Runtime) (id j : ℕ) (task : Task) → j ≢ id → (store rt id task).tasks j ≡ rt.tasks j
unfolding store
store_other rt id j task ne = let skip : (id == j) ≡ false = ground (arith, ne) in rw skip refl

-- A spawn makes a task of the next number with two owners, the worker and the handle, which is
-- scheduled at the end of the poll queue.
pub spawn-Queue :
    (rt : Runtime) (out : Option ℕ) (xs : List ℕ)
    → Queue rt xs
    → NotIn rt.fresh xs
    → ((spawn out rt).0 ≡ rt.fresh)
      × (rt' : Runtime) × ((spawn out rt).1 ≡ done rt')
      × Queue rt' (xs ++ (rt.fresh ∷ []))
      × (rt'.tasks rt.fresh ≡ some (record (new_task false out) { status = scheduled }))
      × (rt'.poll_scheduled ≡ true)
unfolding spawn
spawn-Queue rt out xs queue absent =
    let new = new_task false out in
    let stored = store-Queue rt xs rt.fresh new queue absent in
    let (rt', run, queue', e, on, _) =
      task_add_event_loop-Enqueued (record (store rt rt.fresh new) { fresh = rt.fresh + 1 })
        rt.fresh new xs
        (record { chain = stored.chain; tail = stored.tail; distinct = stored.distinct }) absent
        (store_hit rt rt.fresh new) refl (ground arith) in
    (refl, rt', run, queue', e, on.scheduled)

pub drop_shared :
    (rt : Runtime) (id k : ℕ) (task : Task)
    → rt.tasks id ≡ some task
    → task.counter ≡ k + 1
    → 0 < k
    → k + 1 < word_limit
    → handle_drop id rt ≡ done (store rt id (record task { counter = k }))
unfolding handle_drop task_drop
drop_shared rt id k task e count pos few =
    let more : (task.counter == 1) ≡ false = ground arith in
    let less : u64_dec task.counter ≡ k = omega (arith, u64_dec_pos task.counter) in
    rw (deref-some rt id task e, more, less) refl

drop_last :
    (rt : Runtime) (id : ℕ) (task : Task)
    → rt.tasks id ≡ some task
    → task.counter ≡ 1
    → handle_drop id rt ≡ done (record rt { tasks = update rt.tasks id none })
unfolding handle_drop task_drop
drop_last rt id task e count =
    let one : (task.counter == 1) ≡ true = ground arith in rw (deref-some rt id task e, one) refl

drop_freed : (rt : Runtime) (id : ℕ) → rt.tasks id ≡ none → handle_drop id rt ≡ fault freed_pointer
unfolding handle_drop task_drop deref
drop_freed rt id e = rw (e, deref) refl

pub drop_times : ℕ → ℕ → Runtime → Run Runtime
drop_times zero id rt = done rt
drop_times (suc n) id rt = handle_drop id rt >>= drop_times n id

-- After a task has been dropped as often as it has owners, at least one and fewer than 2^64, it is
-- freed, none of the drops has faulted, a further drop faults, and no other task has changed.
pub drop_times-freed :
    (n id : ℕ) (rt : Runtime) (task : Task)
    → rt.tasks id ≡ some task
    → task.counter ≡ suc n
    → suc n < word_limit
    → (rt' : Runtime) × (drop_times (suc n) id rt ≡ done rt')
      × (handle_drop id rt' ≡ fault freed_pointer)
      × ((j : ℕ) → j ≢ id → rt'.tasks j ≡ rt.tasks j)
unfolding drop_times
drop_times-freed zero id rt task e count few =
    let hit : (id == id) ≡ true = ground arith in
    let left = record rt { tasks = update rt.tasks id none } in
    rw (drop_last rt id task e count) (
      left,
      refl,
      drop_freed left id (rw hit refl),
      λ j ne. let skip : (id == j) ≡ false = ground (arith, ne) in rw skip refl,
    )
drop_times-freed (suc n) id rt task e count few =
    let less = record task { counter = suc n } in
    let (rt', run, freed, frame) =
      drop_times-freed n id (store rt id less) less (store_hit rt id less) refl (omega arith) in
    rw (drop_shared rt id (suc n) task e (omega arith) (omega arith) (omega arith), run)
      (rt', refl, freed, λ j ne. frame j ne ∙ store_other rt id j less ne)

-- A clone of a handle and its drop do not fault and leave the task as it was.
pub handle_clone-drop :
    (rt : Runtime) (id : ℕ) (task : Task)
    → rt.tasks id ≡ some task
    → 0 < task.counter
    → task.counter + 1 < word_limit
    → (rt' : Runtime) × ((handle_clone id rt >>= handle_drop id) ≡ done rt')
      × (rt'.tasks id ≡ some task)
unfolding handle_clone
handle_clone-drop rt id task e pos few =
    let two = record task { counter = task.counter + 1 } in
    rw
      (
        deref-some rt id task e,
        u64_small (task.counter + 1) few,
        drop_shared (store rt id two) id task.counter two (store_hit rt id two) refl pos few,
      )
      (_, refl, store_hit (store rt id two) id task)
