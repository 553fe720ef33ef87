-- ===== src/EventLoop/Clients/Heads.antt =====
-- The first task of the poll queue of src/platform/linux/runtime.c is taken off it.
use taskio.Prelude.{
  ℕ, ◌+◌, ◌≡◌, ◌∙◌, refl, sym, ap, subst, Option, some, List, [], ◌∷◌, arith, copies, copies-same,
  copies-other, done, done-injective,
}
use taskio.EventLoop.{Status, suspended, scheduled, aborted, finished, Task, Runtime}
use taskio.EventLoop.Queue.{Queue, deref-some, take_task-Queue}
use taskio.EventLoop.Handles.{take_task}
use taskio.EventLoop.Clients.{Clients, Inv, unlinked, Entry, Placed, polled}
use taskio.EventLoop.Clients.Around.{Around}

pub head_lem :
    (rt : Runtime) (id : ℕ) (xs : List ℕ)
    → Queue rt xs
    → rt.poll_head ≡ some id
    → (ys : List ℕ) × (xs ≡ id ∷ ys)
head_lem rt id [] queue e = absurd (let p = sym (queue.chain) ∙ e in cc)
head_lem rt id (x ∷ ys) queue e =
    let p : some x ≡ some id = sym (queue.chain.0) ∙ e in (ys, ap (λ i. i ∷ ys) (cc))

Placed-first : (s : Status) (n : ℕ) → Placed s (n + 1) → n ≡ 0
Placed-first suspended n p = absurd (omega arith)
Placed-first scheduled n p = omega arith
Placed-first aborted n p = omega arith
Placed-first finished n p = absurd (omega arith)

take_task-fresh :
    (rt : Runtime) (id : ℕ) (task : Task)
    → rt.tasks id ≡ some task
    → (rt' : Runtime) × (take_task rt id ≡ done rt') × (rt'.fresh ≡ rt.fresh)
unfolding take_task
take_task-fresh rt id task e = rw (deref-some rt id task e) (_, refl, refl)

-- The first task of the queue is taken off.
module _ (c : Clients) (id : ℕ) (ys : List ℕ) (inv : Inv c) (first : inv.tasks ≡ id ∷ ys) where
  pub taken_lem :
      (task : Task) × (c.runtime.tasks id ≡ some task)
      × Entry (unlinked (some task)) (c.handles id) (copies id ys + 1) (polled c.running id)
      × (copies id ys ≡ 0)
      × (rt' : Runtime) × (take_task c.runtime id ≡ done rt')
      × Around (record c { runtime = rt' }) id ys
      × (rt'.tasks ≡ c.runtime.tasks)
      × (rt'.fresh ≡ c.runtime.fresh)
  taken_lem =
      let queue = rw first at (inv.queue) in
      let (head, task, e, rest) = queue.chain in
      let (rt', run, queue', same, cleaned) = take_task-Queue c.runtime id ys queue in
      let (rt'', run', fresh'') = take_task-fresh c.runtime id task e in
      let fresh : rt'.fresh ≡ c.runtime.fresh =
        subst (λ r. r.fresh ≡ c.runtime.fresh) (done-injective rt'' rt' (sym run' ∙ run)) fresh'' in
      let entries = rw first at inv.entries in
      let entry = rw (e, copies-same id ys) at (entries id) in
      (
        task,
        e,
        entry,
        Placed-first task.status (copies id ys) (entry.2),
        rt',
        run,
        record {
          queue = queue';
          entries = λ j ne. rw (same, ← copies-other id j ys (λ p. ne (sym p))) (entries j);
          rests = λ j ne. rw same (inv.rests j);
          unused = λ j ne le.
              ap (λ (f : ℕ → Option Task). f j) same ∙ inv.unused j (omega (arith, fresh));
        },
        same,
        fresh,
      )
