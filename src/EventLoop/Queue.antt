-- ===== src/EventLoop/Queue.antt =====
-- The poll queue of src/platform/linux/runtime.c, from `poll_head` along `next` to `poll_tail`, is a
-- list to which a wake adds a task at the end, and the worker takes the first.
use taskio.Prelude.{
  ℕ, ◌+◌, if◌then◌else◌, ◌∙◌, ◌≡◌, ◌≢◌, inl, inr, refl, sym, ap, Bool, true, false, Option, none,
  some, List, [], ◌∷◌, ◌++◌, arith, ◌==◌, update, Run, done, Bool-cases,
}
use taskio.EventLoop.{
  Status, suspended, scheduled, aborted, finished, Task, Runtime, deref, store, link, signal_event,
  enqueue, task_add_event_loop,
}
use taskio.EventLoop.Handles.{take_task}
use taskio.EventLoop.Chain.{
  NotIn, Distinct, Follows, last_of, last, Follows-frame, last_of-ne, last_task, Follows-push,
  Distinct-push, last_of-push,
}

pub deref-some :
    (rt : Runtime) (id : ℕ) (task : Task) → rt.tasks id ≡ some task → deref rt id ≡ done task
unfolding deref
deref-some rt id task e = rw (e, deref) refl

pub record Queue (rt : Runtime) (xs : List ℕ) : Type 0 where
  pub chain : Follows rt.tasks rt.poll_head xs
  pub tail : rt.poll_tail ≡ last xs
  pub distinct : Distinct xs

-- What no wake changes: the futures that are cleaned up, and the queue of the blocking tasks with its
-- semaphore.
abbrev pub unqueued : Runtime → List ℕ × (List ℕ × ℕ)
unqueued rt = (rt.cleaned, (rt.blocking_queue, rt.blocking_sem))

-- The descriptor of the queue is written to unless it was since the queue was last empty; no future is
-- cleaned up, no output is written, and the blocking tasks are as they were.
pub record Notified (was_scheduled : Bool) (event_fd : ℕ) (log : List ℕ × (List ℕ × ℕ))
    (memory : ℕ → ℕ) (rt : Runtime) : Type 0 where
  pub scheduled : rt.poll_scheduled ≡ true
  pub written : rt.event_fd ≡ (if was_scheduled then event_fd else event_fd + 1)
  pub logged : unqueued rt ≡ log
  pub same_memory : rt.memory ≡ memory

-- What a wake leaves: the task is scheduled and last in the queue, the worker is notified, and the
-- tasks that are not in the queue are as they were.
abbrev pub Enqueued : Runtime → ℕ → Task → List ℕ → Run Runtime → Type 0
Enqueued old id task xs run =
    (rt : Runtime) × (run ≡ done rt)
    × Queue rt (xs ++ (id ∷ []))
    × (rt.tasks id ≡ some (record task { status = scheduled }))
    × Notified old.poll_scheduled old.event_fd (unqueued old) old.memory rt
    × ((j : ℕ) → j ≢ id → NotIn j xs → rt.tasks j ≡ old.tasks j)

signal_event-Notified :
    (rt : Runtime)
    → Notified rt.poll_scheduled rt.event_fd (unqueued rt) rt.memory (signal_event rt)
      × ((signal_event rt).tasks ≡ rt.tasks)
      × ((xs : List ℕ) → Queue rt xs → Queue (signal_event rt) xs)
unfolding signal_event
signal_event-Notified rt = elim (Bool-cases rt.poll_scheduled) [
  | inl on ↦ rw on (
    record { scheduled = refl; written = refl; logged = refl; same_memory = refl },
    refl,
    λ xs queue. record { chain = queue.chain; tail = queue.tail; distinct = queue.distinct },
  )
  | inr off ↦ rw off (
    record { scheduled = refl; written = refl; logged = refl; same_memory = refl },
    refl,
    λ xs queue. record { chain = queue.chain; tail = queue.tail; distinct = queue.distinct },
  )
]

signal_event-Enqueued :
    (old rt : Runtime) (id : ℕ) (task : Task) (xs : List ℕ)
    → Queue rt (xs ++ (id ∷ []))
    → rt.tasks id ≡ some (record task { status = scheduled })
    → Notified old.poll_scheduled old.event_fd (unqueued old) old.memory (signal_event rt)
    → ((j : ℕ) → j ≢ id → NotIn j xs → rt.tasks j ≡ old.tasks j)
    → Enqueued old id task xs (done (signal_event rt))
signal_event-Enqueued old rt id task xs queue e on frame =
    let (_, same, kept) = signal_event-Notified rt in
    (
      signal_event rt,
      refl,
      kept (xs ++ (id ∷ [])) queue,
      ap (λ (f : ℕ → Option Task). f id) same ∙ e,
      on,
      λ j ne out. ap (λ (f : ℕ → Option Task). f j) same ∙ frame j ne out,
    )

pub enqueue-Enqueued :
    (rt : Runtime) (id : ℕ) (task : Task) (xs : List ℕ)
    → Queue rt xs
    → NotIn id xs
    → task.next ≡ none
    → Enqueued rt id task xs (enqueue rt id task)
unfolding enqueue link store
enqueue-Enqueued rt id task [] queue absent end =
    let hit : (id == id) ≡ true = ground arith in
    rw (queue.tail) (
      signal_event-Enqueued rt
        (record rt {
          tasks = update rt.tasks id (some (record task { status = scheduled }));
          poll_head = some id;
          poll_tail = some id;
        })
        id task []
        (record {
          chain = (refl, record task { status = scheduled }, (rw hit refl), end);
          tail = refl;
          distinct = (tt, tt);
        })
        (rw hit refl) (signal_event-Notified _).0
        (λ j ne _. let other : (id == j) ≡ false = ground (arith, ne) in rw other refl))
enqueue-Enqueued rt id task (x ∷ xs) queue absent end =
    let hit : (id == id) ≡ true = ground arith in
    let new = record task { status = scheduled } in
    let tasks = update rt.tasks id (some new) in
    let chain = Follows-frame rt.tasks rt.poll_head (x ∷ xs) id (some new) absent queue.chain in
    let z = last_of x xs in
    let ne = last_of-ne id x xs absent in
    let skip : (z == id) ≡ false = ground (arith, ne) in
    let (t, e) = last_task tasks rt.poll_head x xs chain in
    let mid = record rt { tasks = tasks } in
    rw (queue.tail, link, deref-some (record mid { poll_tail = some z }) z t e)
      (signal_event-Enqueued rt
        (record rt {
          tasks = update tasks z (some (record t { next = some id }));
          poll_tail = some id;
        })
        id task (x ∷ xs)
        (record {
          chain =
              Follows-push tasks rt.poll_head x xs id new t chain queue.distinct absent
                (rw hit refl) end e;
          tail = ap some (sym (last_of-push x xs id));
          distinct = Distinct-push (x ∷ xs) id queue.distinct absent;
        })
        (rw (skip, hit) refl) (signal_event-Notified _).0
        (λ j other out.
          let apart : (id == j) ≡ false = ground (arith, other) in
          let behind = last_of-ne j x xs out in
          let apart' : (z == j) ≡ false = ground (arith, behind) in rw (apart', apart) refl))

pub add_idle :
    (rt : Runtime) (id : ℕ) (task : Task) (status : Status)
    → task.status ≡ status
    → rt.tasks id ≡ some task
    → status ≢ scheduled
    → task_add_event_loop id rt ≡ enqueue rt id task
unfolding task_add_event_loop
add_idle rt id task suspended s e idle = rw (deref-some rt id task e, s) refl
add_idle rt id task scheduled s e idle = absurd (idle refl)
add_idle rt id task aborted s e idle = rw (deref-some rt id task e, s) refl
add_idle rt id task finished s e idle = rw (deref-some rt id task e, s) refl

pub task_add_event_loop-Enqueued :
    (rt : Runtime) (id : ℕ) (task : Task) (xs : List ℕ)
    → Queue rt xs
    → NotIn id xs
    → rt.tasks id ≡ some task
    → task.next ≡ none
    → task.status ≢ scheduled
    → Enqueued rt id task xs (task_add_event_loop id rt)
task_add_event_loop-Enqueued rt id task xs queue absent e end idle =
    rw (add_idle rt id task task.status refl e idle)
      (enqueue-Enqueued rt id task xs queue absent end)

-- A wake of a scheduled task changes nothing: it is in the queue once however often it is woken.
pub task_add_event_loop-scheduled :
    (rt : Runtime) (id : ℕ) (task : Task)
    → rt.tasks id ≡ some task
    → task.status ≡ scheduled
    → task_add_event_loop id rt ≡ done rt
unfolding task_add_event_loop
task_add_event_loop-scheduled rt id task e s = rw (deref-some rt id task e, s) refl

-- The worker takes the tasks off in the order in which they were put there.
pub take_task-Queue :
    (rt : Runtime) (id : ℕ) (xs : List ℕ)
    → Queue rt (id ∷ xs)
    → (rt' : Runtime) × (take_task rt id ≡ done rt')
      × Queue rt' xs
      × (rt'.tasks ≡ rt.tasks)
      × (rt'.cleaned ≡ rt.cleaned)
unfolding take_task
take_task-Queue rt id [] queue =
    let (first, task, e, rest) = queue.chain in
    rw (deref-some rt id task e, rest)
      (_, refl, record { chain = refl; tail = refl; distinct = tt }, refl, refl)
take_task-Queue rt id (x ∷ xs) queue =
    let (first, task, e, rest) = queue.chain in
    rw (deref-some rt id task e, rest.0)
      (
        _,
        refl,
        record {
          chain = (refl, rest.1, rest.2, rest.3);
          tail = queue.tail;
          distinct = queue.distinct.1;
        },
        refl,
        refl,
      )
