-- ===== src/EventLoop/Handles/Hazards.antt =====
-- What src/platform/linux/runtime.c does with a task that is in the poll queue when it must not be: it
-- is ready in the poll in which it was woken, or it is woken after it was aborted.
use taskio.Prelude.{
  ℕ, ◌≡◌, ◌∙◌, refl, sym, inl, inr, Bool, true, Option, none, some, List, [], ◌∷◌, arith, ◌==◌,
  if◌then◌else◌, update, Bool-cases, Run, done, fault, freed_pointer,
}
use taskio.EventLoop.{
  scheduled, aborted, finished, Task, null, Runtime, deref, store, task_drop, task_wake_wakers,
  wake_all, after_wake, task_add_event_loop, enqueue, link, signal_event,
}
use taskio.EventLoop.Chain.{Follows, last_of}
use taskio.EventLoop.Queue.{Queue, deref-some, add_idle}
use taskio.EventLoop.Handles.{Poll, ready, end_poll, clean, take_task, run_task}

-- A task without a joiner is over.
module _ (rt : Runtime) (is_main : Bool) (id value : ℕ) (task : Task) (e : rt.tasks id ≡ some task)
    (alone : task.wake_on_ready ≡ null) where
  abbrev over : Task
  over = record task {
    status = finished;
    out = elim task.out [ none ↦ none | some v ↦ some (if is_main then v else value) ];
  }

  abbrev left : Task
  left = record over { wake_on_ready = after_wake task.wake_on_ready }

  abbrev stored : Runtime
  stored = store (store (clean id rt) id over) id left

  self : (id == id) ≡ true
  self = ground arith

  wakers_lem : task_wake_wakers id (store (clean id rt) id over) ≡ done stored
  unfolding task_wake_wakers store
  wakers_lem =
      let wakes : wake_all over.out task.wake_on_ready stored ≡ done stored =
        rw (alone, wake_all) refl in
      rw (deref-some (store (clean id rt) id over) id over (rw self refl)) wakes

  drop_lem :
      task.counter ≡ 1
      → task_drop id stored ≡ done (record stored { tasks = update stored.tasks id none })
  unfolding task_drop store
  drop_lem one =
      let last : (task.counter == 1) ≡ true = ground arith in
      rw (deref-some stored id left (rw self refl), last) refl

  ended_lem :
      task.counter ≡ 1
      → end_poll is_main id (ready value) rt
        ≡ done (record stored { tasks = update stored.tasks id none })
  unfolding end_poll
  ended_lem one = rw (deref-some rt id task e, wakers_lem) (drop_lem one)

-- The worker uses the first task of the queue.
run_task-freed :
    {X : Type 0} (poll : ℕ → Runtime → X → Run (Poll × Runtime × X)) (clean_up : ℕ → X → Run X)
    (main : Option ℕ) (x : X) (rt : Runtime) (id : ℕ)
    → rt.tasks id ≡ none
    → run_task poll clean_up main id rt x ≡ fault freed_pointer
unfolding run_task take_task deref
run_task-freed poll clean_up main x rt id e = rw (e, deref) refl

-- A task that was woken while it was polled, and is ready in this poll, without a handle and a
-- joiner, is freed although it is the first in the queue; the worker then uses it, whatever its
-- future and the others would do.
pub end_poll-scheduled :
    {X : Type 0} (poll : ℕ → Runtime → X → Run (Poll × Runtime × X)) (clean_up : ℕ → X → Run X)
    (main : Option ℕ) (x : X) (rt : Runtime) (is_main : Bool) (id value : ℕ) (task : Task)
    (xs : List ℕ)
    → Queue rt (id ∷ xs)
    → rt.tasks id ≡ some task
    → task.status ≡ scheduled
    → task.counter ≡ 1
    → task.wake_on_ready ≡ null
    → (rt' : Runtime) × (end_poll is_main id (ready value) rt ≡ done rt')
      × (rt'.poll_head ≡ some id)
      × (run_task poll clean_up main id rt' x ≡ fault freed_pointer)
unfolding store clean
end_poll-scheduled poll clean_up main x rt is_main id value task xs queue e s one alone =
    let hit : (id == id) ≡ true = ground arith in
    (
      _,
      ended_lem rt is_main id value task e alone one,
      queue.chain.0,
      run_task-freed poll clean_up main x _ id (rw hit refl),
    )

last_next :
    (tasks : ℕ → Option Task) (o : Option ℕ) (y : ℕ) (ys : List ℕ)
    → Follows tasks o (y ∷ ys)
    → (t : Task) × (tasks (last_of y ys) ≡ some t) × (t.next ≡ none)
last_next tasks o y [] (first, t, e, end) = (t, e, end)
last_next tasks o y (z ∷ zs) (first, t, e, rest) = last_next tasks t.next z zs rest

-- A runtime whose last task has a task behind it has no queue.
no_queue :
    (rt : Runtime) (id : ℕ) (t : Task)
    → rt.poll_tail ≡ some id
    → rt.tasks id ≡ some t
    → t.next ≡ some id
    → (ys : List ℕ) → ¬ Queue rt ys
no_queue rt id t last e cycle [] queue = let p = sym last ∙ queue.tail in cc
no_queue rt id t last e cycle (y ∷ ys) queue =
    let p : some id ≡ some (last_of y ys) = sym last ∙ queue.tail in
    let (t', e', end) = last_next rt.tasks rt.poll_head y ys queue.chain in cc

signal_event-same :
    (rt : Runtime)
    → ((signal_event rt).tasks ≡ rt.tasks) × ((signal_event rt).poll_tail ≡ rt.poll_tail)
unfolding signal_event
signal_event-same rt = elim (Bool-cases rt.poll_scheduled) [
  | inl on ↦ rw on (refl, refl)
  | inr off ↦ rw off (refl, refl)
]

module _ (rt : Runtime) (id : ℕ) (task : Task) (last : rt.poll_tail ≡ some id) where
  abbrev new : Task
  new = record task { status = scheduled }

  abbrev looped : Task
  looped = record new { next = some id }

  abbrev linked : Runtime
  linked = record (store (store rt id new) id looped) { poll_tail = some id }

  enqueue_lem : enqueue rt id task ≡ done (signal_event linked)
  unfolding enqueue link store
  enqueue_lem =
      let hit : (id == id) ≡ true = ground arith in
      rw
        (
          last,
          link,
          deref-some (record (store rt id new) { poll_tail = some id }) id new (rw hit refl),
        )
        refl

-- A wake of a task that was aborted in the queue and is the last there puts it behind itself: it is
-- scheduled, the next of itself, and no list is the queue any more.
pub task_add_event_loop-aborted :
    (rt : Runtime) (id : ℕ) (task : Task)
    → rt.tasks id ≡ some task
    → task.status ≡ aborted
    → rt.poll_tail ≡ some id
    → (rt' : Runtime) × (task_add_event_loop id rt ≡ done rt')
      × (rt'.tasks id ≡ some (record task { status = scheduled; next = some id }))
      × ((ys : List ℕ) → ¬ Queue rt' ys)
unfolding store
task_add_event_loop-aborted rt id task e s last =
    let hit : (id == id) ≡ true = ground arith in
    let (tasks, tail) = signal_event-same (linked rt id task last) in
    let behind : (signal_event (linked rt id task last)).tasks id ≡ some (looped rt id task last) =
      rw tasks (rw hit refl) in
    rw (add_idle rt id task aborted s e (ground arith)) (
      _,
      enqueue_lem rt id task last,
      behind,
      no_queue _ id (looped rt id task last) tail behind refl,
    )
