-- ===== src/EventLoop/Clients/Around.antt =====
-- The invariant of the tasks of src/platform/linux/runtime.c but for one of them, through its changes.
use taskio.Prelude.{
  ℕ, ◌+◌, ◌≤◌, ◌<◌, ◌≡◌, ◌≢◌, ◌∙◌, refl, sym, ap, subst, false, Option, none, some, List, [], ◌∷◌,
  ◌++◌, arith, ◌==◌, update, copies, copies-none, copies-push, copies-other, ℕ_discrete, done,
  done-injective,
}
use taskio.EventLoop.{scheduled, Task, Runtime, store, enqueue}
use taskio.EventLoop.Chain.{Follows-frame}
use taskio.EventLoop.Queue.{Queue, enqueue-Enqueued}
use taskio.EventLoop.Clients.{Clients, Inv, unlinked, Entry, Rests, polled}
use taskio.EventLoop.Clients.Entries.{Queue-same, Framed, enqueue-Framed}

pub record Around (c : Clients) (id : ℕ) (xs : List ℕ) : Type 0 where
  pub queue : Queue c.runtime xs
  pub entries :
      (j : ℕ)
      → j ≢ id
      → Entry (unlinked (c.runtime.tasks j)) (c.handles j) (copies j xs) (polled c.running j)
  pub rests : (j : ℕ) → j ≢ id → Rests (c.runtime.tasks j)
  pub unused : (j : ℕ) → j ≢ id → c.runtime.fresh ≤ j → c.runtime.tasks j ≡ none

pub around : (c : Clients) (id : ℕ) (inv : Inv c) → Around c id inv.tasks
around c id inv = record {
  queue = inv.queue;
  entries = λ j ne. inv.entries j;
  rests = λ j ne. inv.rests j;
  unused = λ j ne. inv.unused j;
}

-- The task is in order again.
pub close :
    (c : Clients) (id : ℕ) (xs : List ℕ) (o : Option Task)
    → Around c id xs
    → c.runtime.tasks id ≡ o
    → Entry (unlinked o) (c.handles id) (copies id xs) (polled c.running id)
    → Rests o
    → (c.runtime.fresh ≤ id → o ≡ none)
    → Inv c
close c id xs o a e entry rest free = record {
  tasks = xs;
  queue = a.queue;
  entries = λ j. elim (ℕ_discrete j id) [
    | yes p ↦
        subst
          (λ k.
            Entry (unlinked (c.runtime.tasks k)) (c.handles k) (copies k xs) (polled c.running k))
          (sym p) (rw e entry)
    | no ne ↦ a.entries j ne
  ];
  rests = λ j. elim (ℕ_discrete j id) [
    | yes p ↦ subst (λ k. Rests (c.runtime.tasks k)) (sym p) (rw e rest)
    | no ne ↦ a.rests j ne
  ];
  unused = λ j le. elim (ℕ_discrete j id) [
    | yes p ↦ ap c.runtime.tasks p ∙ e ∙ free (omega (arith, p))
    | no ne ↦ a.unused j ne le
  ];
}

module _ (c : Clients) (id : ℕ) (xs : List ℕ) (a : Around c id xs) where
  abbrev pub with_task : Option Task → Clients
  with_task o = record c { runtime = record (c.runtime) { tasks = update (c.runtime.tasks) id o } }

  other : (o : Option Task) (j : ℕ) → j ≢ id → update c.runtime.tasks id o j ≡ c.runtime.tasks j
  other o j ne = let skip : (id == j) ≡ false = ground (arith, ne) in rw skip refl

  focus_task : (o : Option Task) → Queue (with_task o).runtime xs → Around (with_task o) id xs
  focus_task o queue = record {
    queue = queue;
    entries = λ j ne. rw (other o j ne) (a.entries j ne);
    rests = λ j ne. rw (other o j ne) (a.rests j ne);
    unused = λ j ne le. other o j ne ∙ a.unused j ne le;
  }

  -- The task changes, but not its place in the queue.
  pub Around-same :
      (t new : Task)
      → c.runtime.tasks id ≡ some t
      → new.next ≡ t.next
      → Around (with_task (some new)) id xs
  unfolding store
  Around-same t new e same = focus_task (some new) (Queue-same c.runtime xs id t new e same a.queue)

  -- A task that is not in the queue changes or is freed.
  pub Around-out : (o : Option Task) → copies id xs ≡ 0 → Around (with_task o) id xs
  Around-out o out = focus_task o (record {
    chain =
        Follows-frame c.runtime.tasks c.runtime.poll_head xs id o (copies-none id xs out)
          a.queue.chain;
    tail = a.queue.tail;
    distinct = a.queue.distinct;
  })

unlinked-none : (o : Option Task) → unlinked o ≡ none → o ≡ none
unlinked-none none e = refl
unlinked-none (some t) e = absurd (cc)

-- A task that is in the queue has no rest to keep.
Entry-Rests : (o : Option Task) (h q r : ℕ) → Entry (unlinked o) h q r → 0 < q → Rests o
Entry-Rests none h q r entry pos = tt
Entry-Rests (some t) h q r entry pos =
    λ s. absurd (let out : q ≡ 0 = rw s at (entry.2) in omega arith)

module _ (c : Clients) (id : ℕ) (xs : List ℕ) (a : Around c id xs) where
  -- The task is put into the queue.
  pub Around-enqueue :
      (t : Task)
      → c.runtime.tasks id ≡ some t
      → copies id xs ≡ 0
      → t.next ≡ none
      → (rt' : Runtime) × (enqueue c.runtime id t ≡ done rt')
        × Around (record c { runtime = rt' }) id (xs ++ (id ∷ []))
        × (rt'.tasks id ≡ some (record t { status = scheduled }))
        × Framed c.runtime id rt'
  Around-enqueue t e out end =
      let absent = copies-none id xs out in
      let (rt', run, queue', e', _, frame) =
        enqueue-Enqueued c.runtime id t xs a.queue absent end in
      let (rt'', run', framed'') = enqueue-Framed c.runtime id t xs a.queue absent in
      let framed : Framed c.runtime id rt' =
        subst (Framed c.runtime id) (done-injective rt'' rt' (sym run' ∙ run)) framed'' in
      let entries : (j : ℕ)
          → j ≢ id
          → Entry (unlinked (rt'.tasks j)) (c.handles j) (copies j (xs ++ (id ∷ [])))
              (polled c.running j) =
        λ j ne.
          let q : copies j (xs ++ (id ∷ [])) ≡ copies j xs =
            omega (arith, copies-push j id xs, copies-other id j [] (λ p. ne (sym p))) in
          rw (framed.1 j ne, q) (a.entries j ne) in
      (
        rt',
        run,
        record {
          queue = queue';
          entries = entries;
          rests = λ j ne. elim (ℕ_discrete (copies j xs) 0) [
            | yes none_in ↦ rw (frame j ne (copies-none j xs none_in)) (a.rests j ne)
            | no some_in ↦
                Entry-Rests (rt'.tasks j) _ _ _ (entries j ne)
                  (omega (arith, some_in, copies-push j id xs))
          ];
          unused = λ j ne le.
              let free = a.unused j ne (omega (arith, framed.0)) in
              unlinked-none (rt'.tasks j) (framed.1 j ne ∙ ap unlinked free);
        },
        e',
        framed,
      )

  -- What the callers keep of the task changes.
  pub Around-handles : (n : ℕ) → Around (record c { handles = update c.handles id n }) id xs
  Around-handles n = record {
    queue = a.queue;
    entries = λ j ne. let skip : (id == j) ≡ false = ground (arith, ne) in rw skip (a.entries j ne);
    rests = a.rests;
    unused = a.unused;
  }

  pub Around-running :
      (r : Option ℕ)
      → ((j : ℕ) → j ≢ id → polled r j ≡ polled c.running j)
      → Around (record c { running = r }) id xs
  Around-running r same = record {
    queue = a.queue;
    entries = λ j ne. rw (same j ne) (a.entries j ne);
    rests = a.rests;
    unused = a.unused;
  }

  -- A new number is taken.
  pub Around-fresh :
      Around (record c { runtime = record (c.runtime) { fresh = c.runtime.fresh + 1 } }) id xs
  Around-fresh = record {
    queue = record { chain = a.queue.chain; tail = a.queue.tail; distinct = a.queue.distinct };
    entries = a.entries;
    rests = a.rests;
    unused = λ j ne le. a.unused j ne (omega arith);
  }
