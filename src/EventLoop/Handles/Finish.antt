-- ===== src/EventLoop/Handles/Finish.antt =====
-- The end of a task in src/platform/linux/runtime.c, after a poll of the worker or in a thread.
use taskio.Prelude.{
  ℕ, ◌≡◌, ◌≢◌, ◌∙◌, sym, ap, subst, u64_dec, ◌>>=◌, refl, Bool, true, false, Option, none, some,
  List, [], ◌∷◌, ◌++◌, arith, if◌then◌else◌, All, All-append, done,
}
use taskio.EventLoop.{
  scheduled, finished, Task, WakeNode, Runtime, after_wake, store, task_wake_wakers, task_drop,
  task_add_event_loop,
}
use taskio.EventLoop.Chain.{NotIn, Distinct}
use taskio.EventLoop.Queue.{Queue, unqueued, deref-some, task_add_event_loop-Enqueued}
use taskio.EventLoop.Handles.{end_poll, ready, clean, handle_is_finished}
use taskio.EventLoop.Handles.Aborts.{store-Queue, store_hit, task_drop-Queue}
use taskio.EventLoop.Handles.Joins.{
  joiners, wakers, Waits, Given, task_wake_wakers-Queue, Waits-stored,
}

-- How a task with the joiners `ws` ends, when the tasks `xs` are in the queue: it has the status
-- finished and the output `out`, which its joiners have where they want it; the joiners are behind the
-- tasks in the queue, the last that joined first; and the task is freed if no handle is left.
pub record Ended (id : ℕ) (task : Task) (out : Option ℕ) (ws : List WakeNode) (xs : List ℕ)
    (rt' : Runtime) : Type 0 where
  pub queue : Queue rt' (xs ++ wakers ws)
  pub given : (value : ℕ) → out ≡ some value → All (λ w. Given value rt'.memory w.out) ws
  pub freed : task.counter ≡ 1 → rt'.tasks id ≡ none
  pub left :
      task.counter ≢ 1
      → rt'.tasks id
        ≡ some (record task {
          status = finished;
          out = out;
          wake_on_ready = after_wake (joiners ws);
          counter = u64_dec task.counter;
        })

ends_lem :
    (rt : Runtime) (id : ℕ) (task : Task) (out : Option ℕ) (ws : List WakeNode) (xs : List ℕ)
    → Queue rt xs
    → task.wake_on_ready ≡ joiners ws
    → NotIn id xs
    → Distinct (id ∷ wakers ws)
    → All (Waits rt xs) (wakers ws)
    → (rt' : Runtime) × (task_wake_wakers id
            (store rt id (record task { status = finished; out = out }))
          >>= task_drop id
        ≡ done rt')
      × (unqueued rt' ≡ unqueued rt)
      × Ended id task out ws xs rt'
unfolding store
ends_lem rt id task out ws xs queue joined absent distinct waits =
    let new = record task { status = finished; out = out } in
    let (rt', woken, queue', served, e') =
      task_wake_wakers-Queue (store rt id new) id new ws xs (store-Queue rt xs id new queue absent)
        (store_hit rt id new) joined absent distinct
        (Waits-stored rt xs id new (wakers ws) distinct.0 waits) in
    let (rt'', dropped, queue'', cleaned, memory, freed, left) =
      task_drop-Queue rt' id _ (xs ++ wakers ws) queue'
        (All-append (λ y. y ≢ id) xs (wakers ws) absent distinct.0) e' in
    rw (woken, dropped)
      (
        rt'',
        refl,
        cleaned ∙ served.logged,
        record {
          queue = queue'';
          given = λ value o.
              subst (λ m. All (λ w. Given value m w.out) ws) (sym memory) (served.given value o);
          freed = freed;
          left = left;
        },
      )

-- The output of a task: what its poll left, where there is room for it; that of the task that
-- taskio_runtime_block_on waits for is elsewhere.
unfoldable pub output_of : Bool → Option ℕ → ℕ → Option ℕ
output_of is_main none value = none
output_of true (some old) value = some old
output_of false (some old) value = some value

output_lem :
    (is_main : Bool) (o : Option ℕ) (value : ℕ)
    → elim o [ none ↦ none | some v ↦ some (if is_main then v else value) ]
      ≡ output_of is_main o value
unfolding output_of
output_lem is_main none value = refl
output_lem true (some old) value = refl
output_lem false (some old) value = refl

pub end_poll-ready :
    (rt : Runtime) (is_main : Bool) (id value : ℕ) (task : Task) (ws : List WakeNode) (xs : List ℕ)
    → Queue rt xs
    → rt.tasks id ≡ some task
    → task.wake_on_ready ≡ joiners ws
    → NotIn id xs
    → Distinct (id ∷ wakers ws)
    → All (Waits rt xs) (wakers ws)
    → (rt' : Runtime) × (end_poll is_main id (ready value) rt ≡ done rt')
      × (rt'.cleaned ≡ rt.cleaned ++ (id ∷ []))
      × Ended id task (output_of is_main task.out value) ws xs rt'
unfolding end_poll clean
end_poll-ready rt is_main id value task ws xs queue e joined absent distinct waits =
    let queue0 : Queue (clean id rt) xs = record {
      chain = queue.chain;
      tail = queue.tail;
      distinct = queue.distinct;
    } in
    let (rt', ended, same, end) =
      ends_lem (clean id rt) id task (output_of is_main task.out value) ws xs queue0 joined absent
        distinct waits in
    rw (deref-some rt id task e, output_lem is_main task.out value, ended)
      (rt', refl, ap (λ (l : List ℕ × (List ℕ × ℕ)). l.0) same, end)

-- A wake of a finished task that is still allocated schedules it again, and its handle no longer
-- says that it is finished.
pub task_add_event_loop-finished :
    (rt : Runtime) (id : ℕ) (task : Task) (xs : List ℕ)
    → Queue rt xs
    → NotIn id xs
    → rt.tasks id ≡ some task
    → task.next ≡ none
    → task.status ≡ finished
    → (rt' : Runtime) × (task_add_event_loop id rt ≡ done rt')
      × Queue rt' (xs ++ (id ∷ []))
      × (handle_is_finished id rt' ≡ done false)
unfolding handle_is_finished
task_add_event_loop-finished rt id task xs queue absent e end s =
    let idle : task.status ≢ scheduled = rw s (ground arith) in
    let (rt', run, queue', e', _, _) =
      task_add_event_loop-Enqueued rt id task xs queue absent e end idle in
    rw run (rt', refl, queue', rw (deref-some rt' id (record task { status = scheduled }) e') refl)
