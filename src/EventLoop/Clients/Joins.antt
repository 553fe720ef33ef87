-- ===== src/EventLoop/Clients/Joins.antt =====
-- taskio_handle_join of src/platform/linux/runtime.c keeps the invariant.
use taskio.Prelude.{
  ℕ, ◌≤◌, ◌+◌, ◌≡◌, ◌≢◌, ◌∙◌, refl, ap, inl, inr, true, ◌&&◌, Option, none, some, arith, ltb,
  ltb→lt, Bool-cases, done,
}
use taskio.EventLoop.{
  Status, suspended, scheduled, aborted, finished, WakeNode, Joiners, node, Task, store,
  task_add_event_loop, copy_out,
}
use taskio.EventLoop.Queue.{deref-some}
use taskio.EventLoop.Handles.{handle_join, add_joiner}
use taskio.EventLoop.Clients.{Clients, Inv, unlinked, Joined, may_wake, happens, in_runtime, joins}
use taskio.EventLoop.Clients.Loads.{Kept, load, load-put, to_do}
use taskio.EventLoop.Clients.Wakes.{task_add_event_loop-Woken, copy_out-Woken, Woken-bind}
use taskio.EventLoop.Clients.Owners.{owned_lem, fresh_lem, store-Inv}
use taskio.EventLoop.Clients.Calls.{Woken-Kept}

Joined-node : (s : Status) (w : WakeNode) (rest : Joiners) → Joined s rest → Joined s (node w rest)
Joined-node suspended w rest h = h
Joined-node scheduled w rest h = h
Joined-node aborted w rest h = h
Joined-node finished w rest h = h

-- A joiner of a task that is not over is noted.
add_joiner-Inv :
    (s : Status) (c : Clients) (id : ℕ) (t : Task) (waker : ℕ) (out : Option ℕ)
    → Inv c
    → c.runtime.tasks id ≡ some t
    → t.status ≡ s
    → Inv (record c { runtime = add_joiner id t waker out c.runtime })
      × (load (record c { runtime = add_joiner id t waker out c.runtime }) ≤ load c + 1)
unfolding add_joiner store
add_joiner-Inv s c id t waker out inv e p =
    let entry = rw e at (inv.entries id) in
    let new = record t {
      wake_on_ready = node (record { waker = waker; out = out }) t.wake_on_ready;
    } in
    let most : to_do (c.handles id) (some new) ≤ to_do (c.handles id) (c.runtime.tasks id) + 1 =
      rw e (omega arith) in
    let work = load-put c id 1 0 (some new) (fresh_lem c id t inv e) (omega (arith, most)) in
    (
      store-Inv c id inv t new e refl (rw e at (inv.rests id)) (
        entry.0,
        entry.1,
        entry.2,
        entry.3,
        Joined-node t.status (record { waker = waker; out = out }) t.wake_on_ready (entry.4),
        entry.5,
      ),
      omega (arith, work),
    )

-- A task that was aborted is not the one whose waker is called.
aborted-other :
    (c : Clients) (id waker : ℕ) (t : Task)
    → c.runtime.tasks id ≡ some t
    → t.status ≡ aborted
    → may_wake waker c.runtime ≡ true
    → id ≢ waker
unfolding may_wake
aborted-other c id waker t e s may p =
    let may' = rw (← p) at may in let no_wake = rw (e, s, may_wake) at may' in cc

-- What has the same fields but for `next` is allocated too.
unlinked-some :
    (o : Option Task) (t : Task)
    → unlinked o ≡ unlinked (some t)
    → (t' : Task) × (o ≡ some t') × (t'.status ≡ t.status)
unlinked-some none t e = absurd (cc)
unlinked-some (some t') t e =
    (t', refl, ap (λ o. elim o [ none ↦ suspended | some x ↦ x.status ]) e)

joins-by :
    (s : Status) (c : Clients) (id waker : ℕ) (out : Option ℕ) (t : Task)
    → Inv c
    → c.runtime.tasks id ≡ some t
    → t.status ≡ s
    → may_wake waker c.runtime ≡ true
    → Kept c 2 (in_runtime c (handle_join id waker out c.runtime))
unfolding handle_join
joins-by suspended c id waker out t inv e s may =
    let joined = add_joiner-Inv suspended c id t waker out inv e s in
    rw (deref-some c.runtime id t e, s)
      (_, refl, joined.0, λ j. omega arith, omega (arith, joined.1))
joins-by scheduled c id waker out t inv e s may =
    let joined = add_joiner-Inv scheduled c id t waker out inv e s in
    rw (deref-some c.runtime id t e, s)
      (_, refl, joined.0, λ j. omega arith, omega (arith, joined.1))
joins-by aborted c id waker out t inv e s may =
    let woken = task_add_event_loop-Woken c waker id (aborted-other c id waker t e s may) inv may in
    let c' = record c { runtime = woken.after } in
    let (t', e', s') = unlinked-some (woken.after.tasks id) t (woken.frame ∙ ap unlinked e) in
    let joined = add_joiner-Inv aborted c' id t' waker out woken.inv e' (s' ∙ s) in
    rw (deref-some c.runtime id t e, s, woken.ran, deref-some woken.after id t' e')
      (_, refl, joined.0, λ j. omega arith, omega (arith, joined.1, woken.work))
joins-by finished c id waker out t inv e s may =
    let j = waker + 1 in
    let copied = copy_out-Woken c j out t.out inv in
    let woken =
      task_add_event_loop-Woken (record c { runtime = copied.after }) waker j (ground arith)
        copied.inv (copied.wakes waker may) in
    rw (deref-some c.runtime id t e, s)
      (Woken-Kept c j 1 _
        (Woken-bind c j 0 1 (done (copy_out out t.out c.runtime)) (task_add_event_loop waker) copied
          woken)
        (omega arith))

-- A join keeps the invariant, in each state of the task.
pub joins-Kept :
    (c : Clients) (id waker : ℕ) (out : Option ℕ)
    → Inv c
    → Kept c 2 (happens (joins id waker out) c)
unfolding happens
joins-Kept c id waker out inv =
    elim (Bool-cases (ltb 0 (c.handles id) && may_wake waker c.runtime)) [
      | inr not_now ↦ rw not_now (c, refl, inv, λ j. omega arith, omega arith)
      | inl now ↦
          let some_left : ltb 0 (c.handles id) ≡ true = ground arith in
          let may : may_wake waker c.runtime ≡ true = ground arith in
          let (t, e) = owned_lem c id inv (ltb→lt 0 (c.handles id) some_left) in
          rw now (joins-by t.status c id waker out t inv e refl may)
    ]
