-- ===== src/EventLoop/Handles/Joins.antt =====
-- taskio_handle_join and task_wake_wakers of src/platform/linux/runtime.c: the tasks that joined a
-- task go to the poll queue when it is finished.
use mathlib.Core.List.{append_assoc, append-nil}
use taskio.Prelude.{
  ℕ, ◌≡◌, ◌≢◌, ◌∙◌, ap, sym, subst, inl, inr, Bool-cases, update, refl, true, false, Option, none,
  some, List, [], ◌∷◌, ◌++◌, map, arith, ◌==◌, All, All-append, done,
}
use taskio.EventLoop.{
  scheduled, Task, WakeNode, Joiners, null, node, Runtime, store, copy_out, wake_all,
  task_wake_wakers, after_wake,
}
use taskio.EventLoop.Handles.Aborts.{store-Queue, store_hit}
use taskio.EventLoop.Chain.{NotIn, Distinct}
use taskio.EventLoop.Queue.{Queue, unqueued, deref-some, task_add_event_loop-Enqueued}

-- The nodes of a list, the last joined first.
abbrev pub joiners : List WakeNode → Joiners
joiners [] = null
joiners (w ∷ ws) = node w (joiners ws)

abbrev pub wakers : List WakeNode → List ℕ
wakers = map (λ w. w.waker)

-- A task that waits for a wake: neither queued nor scheduled.
abbrev pub Waits : Runtime → List ℕ → ℕ → Type 0
Waits rt xs id =
    NotIn id xs
    × (task : Task) × (rt.tasks id ≡ some task)
    × (task.next ≡ none)
    × (task.status ≢ scheduled)

copy_out-Queue :
    (out value : Option ℕ) (rt : Runtime) (xs : List ℕ)
    → Queue rt xs
    → Queue (copy_out out value rt) xs × ((copy_out out value rt).tasks ≡ rt.tasks)
unfolding copy_out
copy_out-Queue none value rt xs queue = (queue, refl)
copy_out-Queue (some address) none rt xs queue = (queue, refl)
copy_out-Queue (some address) (some value) rt xs queue =
    (record { chain = queue.chain; tail = queue.tail; distinct = queue.distinct }, refl)

-- An address that has `value`, or that is none, where an output is wanted.
abbrev pub Given : ℕ → (ℕ → ℕ) → Option ℕ → Type 0
Given value memory none = Unit
Given value memory (some address) = memory address ≡ value

Given-update :
    (address value : ℕ) (memory : ℕ → ℕ) (o : Option ℕ)
    → Given value memory o
    → Given value (update memory address value) o
Given-update address value memory none h = tt
Given-update address value memory (some a) h = elim (Bool-cases (address == a)) [
  | inl same ↦ rw same refl
  | inr skip ↦ rw skip h
]

-- An output copied for a joiner reaches it, and leaves the others that have it.
copy_out-Given :
    (o out : Option ℕ) (value : ℕ) (rt : Runtime)
    → out ≡ some value
    → Given value (copy_out o out rt).memory o
      × ((o' : Option ℕ) → Given value rt.memory o' → Given value (copy_out o out rt).memory o')
unfolding copy_out
copy_out-Given none out value rt e = (tt, λ o' h. h)
copy_out-Given (some address) out value rt e =
    let hit : (address == address) ≡ true = ground arith in
    rw (e, copy_out) ((rw hit refl), Given-update address value rt.memory)

copy_out-unqueued : (o out : Option ℕ) (rt : Runtime) → unqueued (copy_out o out rt) ≡ unqueued rt
unfolding copy_out
copy_out-unqueued none out rt = refl
copy_out-unqueued (some address) none rt = refl
copy_out-unqueued (some address) (some value) rt = refl

-- What the wakes of joiners leave besides the queue: each has the output where it wants it, no future
-- is cleaned up, and the blocking tasks are as they were.
pub record Served (out : Option ℕ) (ws : List WakeNode) (rt rt' : Runtime) : Type 0 where
  pub given : (value : ℕ) → out ≡ some value → All (λ w. Given value rt'.memory w.out) ws
  pub kept :
      (value : ℕ) (o : Option ℕ)
      → out ≡ some value
      → Given value rt.memory o
      → Given value rt'.memory o
  pub logged : unqueued rt' ≡ unqueued rt

-- The others still wait after one of them is woken.
Waits-after :
    (rt rt' : Runtime) (xs : List ℕ) (id : ℕ) (ids : List ℕ)
    → ((j : ℕ) → j ≢ id → NotIn j xs → rt'.tasks j ≡ rt.tasks j)
    → NotIn id ids
    → All (Waits rt xs) ids
    → All (Waits rt' (xs ++ (id ∷ []))) ids
Waits-after rt rt' xs id [] frame apart waits = tt
Waits-after rt rt' xs id (y ∷ ys) frame apart waits =
    let (absent, task, e, end, idle) = waits.0 in
    (
      (
        All-append (λ x. x ≢ y) xs (id ∷ []) absent ((λ p. apart.0 (sym p)), tt),
        task,
        (frame y apart.0 absent ∙ e),
        end,
        idle,
      ),
      Waits-after rt rt' xs id ys frame apart.1 waits.1,
    )

pub Waits-stored :
    (rt : Runtime) (xs : List ℕ) (id : ℕ) (new : Task) (ids : List ℕ)
    → NotIn id ids
    → All (Waits rt xs) ids
    → All (Waits (store rt id new) xs) ids
unfolding store
Waits-stored rt xs id new [] apart waits = tt
Waits-stored rt xs id new (y ∷ ys) apart waits =
    let (absent, task, e, end, idle) = waits.0 in
    let skip : (id == y) ≡ false = ground (arith, apart.0) in
    ((absent, task, (rw skip e), end, idle), Waits-stored rt xs id new ys apart.1 waits.1)

Served-cons :
    (out : Option ℕ) (w : WakeNode) (ws : List WakeNode) (rt rt' rt'' : Runtime)
    → rt'.memory ≡ (copy_out w.out out rt).memory
    → unqueued rt' ≡ unqueued (copy_out w.out out rt)
    → Served out ws rt' rt''
    → Served out (w ∷ ws) rt rt''
Served-cons out w ws rt rt' rt'' memory cleaned served =
    let kept : (value : ℕ) (o : Option ℕ)
        → out ≡ some value
        → Given value (copy_out w.out out rt).memory o
        → Given value rt''.memory o =
      λ value o e h. served.kept value o e (subst (λ m. Given value m o) (sym memory) h) in
    record {
      given = λ value e.
          (kept value w.out e (copy_out-Given w.out out value rt e).0, served.given value e);
      kept = λ value o e h. kept value o e ((copy_out-Given w.out out value rt e).1 o h);
      logged = served.logged ∙ cleaned ∙ copy_out-unqueued w.out out rt;
    }

-- The wakes of a finished task's joiners fault nowhere and put them at the end of the poll queue,
-- the last that joined first, when they all wait.
pub wake_all-Queue :
    (out : Option ℕ) (ws : List WakeNode) (rt : Runtime) (xs : List ℕ)
    → Queue rt xs
    → Distinct (wakers ws)
    → All (Waits rt xs) (wakers ws)
    → (rt' : Runtime) × (wake_all out (joiners ws) rt ≡ done rt')
      × Queue rt' (xs ++ wakers ws)
      × Served out ws rt rt'
      × ((j : ℕ) → NotIn j xs → NotIn j (wakers ws) → rt'.tasks j ≡ rt.tasks j)
unfolding wake_all
wake_all-Queue out [] rt xs queue distinct waits = (
  rt,
  refl,
  rw (append-nil xs) queue,
  record { given = λ _ _. tt; kept = λ _ _ _ h. h; logged = refl },
  λ j _ _. refl,
)
wake_all-Queue out (w ∷ ws) rt xs queue distinct waits =
    let (absent, task, e, end, idle) = waits.0 in
    let (copied, same) = copy_out-Queue w.out out rt xs queue in
    let (rt', run, queue', _, on, frame) =
      task_add_event_loop-Enqueued (copy_out w.out out rt) w.waker task xs copied absent (rw same e)
        end idle in
    let (rt'', more, queue'', served, frame') =
      wake_all-Queue out ws rt' (xs ++ (w.waker ∷ [])) queue' distinct.1 (
        Waits-after rt rt' xs w.waker (wakers ws)
          (λ j ne out_of. frame j ne out_of ∙ ap (λ (t : ℕ → Option Task). t j) same) distinct.0
          waits.1) in
    rw (run, more)
      (
        rt'',
        refl,
        (rw (append_assoc xs (w.waker ∷ []) (wakers ws)) at queue''),
        Served-cons out w ws rt rt' rt'' on.same_memory on.logged served,
        λ j out_of apart.
            frame' j (All-append (λ x. x ≢ j) xs (w.waker ∷ []) out_of (apart.0, tt)) apart.1
            ∙ frame j (λ p. apart.0 (sym p)) out_of
            ∙ ap (λ (t : ℕ → Option Task). t j) same,
      )

from_stored :
    (out : Option ℕ) (ws : List WakeNode) (rt : Runtime) (id : ℕ) (t : Task) (rt' : Runtime)
    → Served out ws (store rt id t) rt'
    → Served out ws rt rt'
unfolding store
from_stored out ws rt id t rt' served = record {
  given = served.given;
  kept = served.kept;
  logged = served.logged;
}

-- When a task is finished, its joiners are what task_wake_wakers wakes, and the pointer to their
-- nodes is left behind.
pub task_wake_wakers-Queue :
    (rt : Runtime) (id : ℕ) (task : Task) (ws : List WakeNode) (xs : List ℕ)
    → Queue rt xs
    → rt.tasks id ≡ some task
    → task.wake_on_ready ≡ joiners ws
    → NotIn id xs
    → Distinct (id ∷ wakers ws)
    → All (Waits rt xs) (wakers ws)
    → (rt' : Runtime) × (task_wake_wakers id rt ≡ done rt')
      × Queue rt' (xs ++ wakers ws)
      × Served task.out ws rt rt'
      × (rt'.tasks id ≡ some (record task { wake_on_ready = after_wake (joiners ws) }))
unfolding task_wake_wakers
task_wake_wakers-Queue rt id task ws xs queue e joined absent distinct waits =
    let left = record task { wake_on_ready = after_wake (joiners ws) } in
    let (rt', run, queue', served, frame) =
      wake_all-Queue task.out ws (store rt id left) xs (store-Queue rt xs id left queue absent)
        distinct.1 (Waits-stored rt xs id left (wakers ws) distinct.0 waits) in
    rw (deref-some rt id task e, joined, run)
      (
        rt',
        refl,
        queue',
        from_stored task.out ws rt id left rt' served,
        frame id absent distinct.0 ∙ store_hit rt id left,
      )
