-- ===== src/EventLoop/Clients/Calls.antt =====
-- The other calls of src/platform/linux/runtime.c by those that have handles or wakers keep the
-- invariant: spawns, aborts and wakes.
use taskio.Prelude.{
  ℕ, ◌≤◌, ◌+◌, ◌≡◌, ◌∙◌, refl, inl, inr, true, false, Option, some, [], ◌∷◌, ◌++◌, arith, ltb,
  ltb→lt, ◌==◌, update, copies, copies-push, copies-same, Bool-cases, Run,
}
use taskio.EventLoop.{
  Status, suspended, scheduled, aborted, finished, Task, Runtime, new_task, store, spawn,
}
use taskio.EventLoop.Queue.{deref-some, add_idle}
use taskio.EventLoop.Handles.{handle_abort}
use taskio.EventLoop.Handles.Aborts.{abort_idle, abort_scheduled}
use taskio.EventLoop.Clients.{Clients, Inv, may_wake, happens, in_runtime, spawns, aborts, wakes}
use taskio.EventLoop.Clients.Loads.{Kept, load-change, load-new, load-put}
use taskio.EventLoop.Clients.Around.{
  around, close, Around-same, Around-out, Around-handles, Around-enqueue, Around-fresh,
}
use taskio.EventLoop.Clients.Wakes.{Woken, task_add_event_loop-Woken}
use taskio.EventLoop.Clients.Owners.{owned_lem, fresh_lem, store-Inv}

pub Woken-Kept :
    (c : Clients) (j n : ℕ) (run : Run Runtime)
    → Woken c j n run
    → n ≤ 2
    → Kept c 2 (in_runtime c run)
Woken-Kept c j n run w le = rw (w.ran) (_, refl, w.inv, λ i. omega arith, omega (arith, w.work))

-- A new task is queued, owned by its handle and the worker.
pub spawns-Kept : (c : Clients) (out : Option ℕ) → Inv c → Kept c 2 (happens (spawns out) c)
unfolding happens spawn store
spawns-Kept c out inv =
    let id = c.runtime.fresh in
    let new = new_task false out in
    let free = inv.unused id (omega arith) in
    let entry = rw free at (inv.entries id) in
    let hit : (id == id) ≡ true = ground arith in
    let xs = inv.tasks in
    let a1 = Around-out c id xs (around c id inv) (some new) (entry.1) in
    let c1 = record c { runtime = store c.runtime id new } in
    let a2 = Around-fresh c1 id xs a1 in
    let c2 = record c { runtime = record (store c.runtime id new) { fresh = id + 1 } } in
    let c3 = record c2 { handles = update c.handles id 1 } in
    let e : c2.runtime.tasks id ≡ some new = rw hit refl in
    let (rt', run, a, e', framed) =
      Around-enqueue c3 id xs (Around-handles c2 id xs a2 1) new e (entry.1) refl in
    let last : copies id (xs ++ (id ∷ [])) ≡ 1 =
      omega (arith, copies-push id id xs, copies-same id [], entry.1) in
    let handle : update c.handles id 1 id ≡ 1 = rw hit refl in
    rw (add_idle c2.runtime id new suspended refl e (ground arith), run)
      (
        _,
        refl,
        close (record c3 { runtime = rt' }) id (xs ++ (id ∷ [])) _ a e'
            (omega (arith, handle), omega arith, last, omega (arith, entry.2), tt, refl)
            (λ s. absurd (ground arith)) (λ le. absurd (omega (arith, framed.0))),
        λ j. ground arith,
        omega (
          arith,
          load-new c (record c3 { runtime = rt' }) 1 (framed.0)
              (λ j ne.
                let skip : (id == j) ≡ false = ground (arith, ne) in framed.1 j ne ∙ rw skip refl)
              (λ j ne. let skip : (id == j) ≡ false = ground (arith, ne) in rw skip refl)
              (rw e' (omega arith)),
        ),
      )

aborts-by :
    (s : Status) (c : Clients) (id : ℕ) (t : Task)
    → Inv c
    → c.runtime.tasks id ≡ some t
    → t.status ≡ s
    → Kept c 2 (in_runtime c (handle_abort id c.runtime))
unfolding handle_abort store
aborts-by suspended c id t inv e s =
    let entry = rw e at (inv.entries id) in
    let q : copies id inv.tasks ≡ 0 = rw s at (entry.2) in
    let counted = rw s at (entry.0) in
    let once = rw s at (entry.3) in
    let whole = rw s at (entry.4) in
    let end = rw e at (inv.rests id) in
    let hit : (id == id) ≡ true = ground arith in
    let stopped = record t { status = aborted } in
    let c' = record c { runtime = store c.runtime id stopped } in
    let e0 : c'.runtime.tasks id ≡ some stopped = rw hit refl in
    let (rt', run, a, e', framed) =
      Around-enqueue c' id inv.tasks (Around-same c id inv.tasks (around c id inv) t stopped e refl)
        stopped e0 q (end s) in
    let last : copies id (inv.tasks ++ (id ∷ [])) ≡ 1 =
      omega (arith, copies-push id id inv.tasks, copies-same id []) in
    rw
      (
        abort_idle c.runtime id t e s (entry.5),
        add_idle c'.runtime id stopped aborted refl e0 (ground arith),
        run,
      )
      (
        _,
        refl,
        close (record c { runtime = rt' }) id (inv.tasks ++ (id ∷ [])) _ a e'
            (counted, entry.1, last, once, whole, entry.5) (λ s'. absurd (ground arith))
            (λ le. absurd (omega (arith, framed.0, fresh_lem c id t inv e))),
        λ j. omega arith,
        omega (
          arith,
          load-change c (record c { runtime = rt' }) id 2 0 (framed.0) (fresh_lem c id t inv e)
              (λ j ne.
                let skip : (id == j) ≡ false = ground (arith, ne) in framed.1 j ne ∙ rw skip refl)
              (λ _ _. refl) (rw (e', e, s) (omega arith)),
        ),
      )
aborts-by scheduled c id t inv e s =
    let entry = rw e at (inv.entries id) in
    let q : copies id inv.tasks ≡ 1 = rw s at (entry.2) in
    let counted = rw s at (entry.0) in
    let once = rw s at (entry.3) in
    let whole = rw s at (entry.4) in
    rw (abort_scheduled c.runtime id t e s (entry.5)) (
      _,
      refl,
      store-Inv c id inv t (record t { status = aborted }) e refl (λ s'. absurd (ground arith))
          (
            omega (arith, counted, q),
            entry.1,
            omega (arith, q),
            omega (arith, once, q),
            whole,
            entry.5,
          ),
      λ j. omega arith,
      omega (
        arith,
        load-put c id 2 0 (some (record t { status = aborted })) (fresh_lem c id t inv e)
            (rw (e, s) (omega (arith, counted))),
      ),
    )
aborts-by aborted c id t inv e s =
    rw (deref-some c.runtime id t e, s) (c, refl, inv, λ j. omega arith, omega arith)
aborts-by finished c id t inv e s =
    rw (deref-some c.runtime id t e, s) (c, refl, inv, λ j. omega arith, omega arith)

-- An abort keeps the invariant, in each state of the task.
pub aborts-Kept : (c : Clients) (id : ℕ) → Inv c → Kept c 2 (happens (aborts id) c)
unfolding happens
aborts-Kept c id inv = elim (Bool-cases (ltb 0 (c.handles id))) [
  | inr none_left ↦ rw none_left (c, refl, inv, λ j. omega arith, omega arith)
  | inl some_left ↦
      let (t, e) = owned_lem c id inv (ltb→lt 0 (c.handles id) some_left) in
      rw some_left (aborts-by t.status c id t inv e refl)
]

pub wakes-Kept : (c : Clients) (id : ℕ) → Inv c → Kept c 2 (happens (wakes id) c)
unfolding happens
wakes-Kept c id inv = elim (Bool-cases (may_wake id c.runtime)) [
  | inr not_now ↦ rw not_now (c, refl, inv, λ j. omega arith, omega arith)
  | inl may ↦ rw may (
      Woken-Kept c (id + 1) 1 _ (task_add_event_loop-Woken c id (id + 1) (ground arith) inv may)
        (omega arith))
]
