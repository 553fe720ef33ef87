-- ===== src/EventLoop/Clients/Polls.antt =====
-- The worker of src/platform/linux/runtime.c ends the poll of a task: the invariant holds again.
use taskio.Prelude.{
  ℕ, ◌≤◌, ◌+◌, ◌<◌, ◌≡◌, ◌≢◌, ◌∙◌, refl, inl, inr, Bool, true, false, Option, none, some, arith,
  ◌==◌, if◌then◌else◌, copies, Bool-cases, Option-cases, word_limit, done,
}
use taskio.EventLoop.{
  Status, suspended, scheduled, aborted, finished, Task, Runtime, store, task_wake_wakers,
  after_wake, wake_all,
}
use taskio.EventLoop.Queue.{deref-some}
use taskio.EventLoop.Handles.{Poll, undefined, pending, ready, clean, end_poll}
use taskio.EventLoop.Clients.{
  Clients, Inv, unlinked, Entry, may_wake_all, may_end, may_answer, answer, happens, answers,
  polled,
}
use taskio.EventLoop.Clients.Loads.{Kept, load, load-change, joiners, joiners-after_wake}
use taskio.EventLoop.Clients.Around.{around, close, Around-out, Around-handles, Around-running}
use taskio.EventLoop.Clients.Wakes.{wake_all-Woken, may_wake-same, may_wake_all_mono}
use taskio.EventLoop.Clients.Owners.{fresh_lem}
use taskio.EventLoop.Clients.Takes.{lent, drop_lent, focus_clean}

Entry-idle : (o : Option Task) (h q r : ℕ) → Entry o h q r → Entry o h q 0
Entry-idle none h q r entry = (entry.0, entry.1, refl)
Entry-idle (some t) h q r entry = (entry.0, entry.1, entry.2, omega arith, entry.4, entry.5)

-- A poll that waits.
waits_lem : (c : Clients) → Inv c → Inv (record c { running = none })
waits_lem c inv = record {
  tasks = inv.tasks;
  queue = inv.queue;
  entries = λ j. Entry-idle _ _ _ _ (inv.entries j);
  rests = inv.rests;
  unused = inv.unused;
}

-- The task that is polled is allocated.
polled_lem :
    (c : Clients) (id : ℕ)
    → Inv c
    → c.running ≡ some id
    → (t : Task) × (c.runtime.tasks id ≡ some t)
polled_lem c id inv busy = elim (Option-cases (c.runtime.tasks id)) [
  | inl e ↦
      let entry = rw e at (inv.entries id) in
      let self : polled (some id) id ≡ 1 = ground arith in
      absurd (let p = rw (busy, self) at (entry.2) in omega arith)
  | inr found ↦ found
]

-- A task may end only if it is suspended.
may_end_lem :
    (s : Status) (id : ℕ) (rt : Runtime) (t : Task)
    → rt.tasks id ≡ some t
    → t.status ≡ s
    → may_end id rt ≡ true
    → (t.status ≡ suspended) × (may_wake_all t.wake_on_ready id rt ≡ true)
unfolding may_end
may_end_lem suspended id rt t e s may = (s, (rw (e, s, may_end) at may))
may_end_lem scheduled id rt t e s may = absurd (let not_now = rw (e, s, may_end) at may in cc)
may_end_lem aborted id rt t e s may = absurd (let not_now = rw (e, s, may_end) at may in cc)
may_end_lem finished id rt t e s may = absurd (let not_now = rw (e, s, may_end) at may in cc)

module _ (c : Clients) (id : ℕ) (t : Task) (is_main : Bool) (value : ℕ) (inv : Inv c)
    (busy : c.running ≡ some id) (e : c.runtime.tasks id ≡ some t) (s : t.status ≡ suspended)
    (may : may_wake_all t.wake_on_ready id c.runtime ≡ true)
    (few : c.handles id + 2 < word_limit) where
  abbrev over : Task
  over = record t {
    status = finished;
    out = elim t.out [ none ↦ none | some v ↦ some (if is_main then v else value) ];
  }

  abbrev left : Task
  left = record over { wake_on_ready = after_wake t.wake_on_ready }

  abbrev stored : Runtime
  stored = store (store (clean id c.runtime) id over) id left

  wakers_lem :
      task_wake_wakers id (store (clean id c.runtime) id over)
      ≡ wake_all over.out t.wake_on_ready stored
  unfolding task_wake_wakers store
  wakers_lem =
      let hit : (id == id) ≡ true = ground arith in
      rw (deref-some (store (clean id c.runtime) id over) id over (rw hit refl)) refl

  stored-frame : (i : ℕ) → i ≢ id → unlinked (stored.tasks i) ≡ unlinked (c.runtime.tasks i)
  unfolding store clean
  stored-frame i ne = let skip : (id == i) ≡ false = ground (arith, ne) in rw skip refl

  -- The task is over, with the worker's owner as one of the handles.
  over-Inv : Inv (record c { runtime = stored; handles = lent c id; running = none })
  unfolding store clean
  over-Inv =
      let entry = rw e at (inv.entries id) in
      let out : copies id inv.tasks ≡ 0 = rw s at (entry.2) in
      let counted = rw s at (entry.0) in
      let hit : (id == id) ≡ true = ground arith in
      let self : lent c id id ≡ c.handles id + 1 = rw hit refl in
      let c0 = record c { runtime = clean id c.runtime } in
      let c1 = record c { runtime = store (clean id c.runtime) id over } in
      let c2 = record c { runtime = stored } in
      let c3 = record c2 { handles = lent c id } in
      let a0 = focus_clean c id inv.tasks c.runtime (around c id inv) in
      let a1 = Around-out c0 id inv.tasks a0 (some over) out in
      let a2 = Around-out c1 id inv.tasks a1 (some left) out in
      let a3 = Around-handles c2 id inv.tasks a2 (c.handles id + 1) in
      let off : (j : ℕ) → j ≢ id → polled none j ≡ polled c.running j =
        λ j ne. let skip : (id == j) ≡ false = ground (arith, ne) in rw (busy, skip) refl in
      close (record c3 { running = none }) id inv.tasks (some left)
        (Around-running c3 id inv.tasks a3 none off) (rw hit refl)
        (omega (arith, self, counted), entry.1, out, omega arith, tt, entry.5)
        (λ s'. absurd (ground arith)) (λ le. absurd (omega (arith, fresh_lem c id t inv e)))

  -- What is left to do when the task is over, but for its joiners.
  over_work :
      load (record c { runtime = stored; handles = lent c id; running = none })
        + joiners t.wake_on_ready
      ≤ load c
  unfolding store clean
  over_work =
      let hit : (id == id) ≡ true = ground arith in
      let change =
        load-change c (record c { runtime = stored; handles = lent c id; running = none }) id 0
          (joiners t.wake_on_ready) refl (fresh_lem c id t inv e) stored-frame
          (λ j ne. let skip : (id == j) ≡ false = ground (arith, ne) in rw skip refl)
          (rw (hit, e, s) (omega (arith, joiners-after_wake t.wake_on_ready))) in
      omega (arith, change)

  -- A poll that is ready.
  ends_lem :
      (rt' : Runtime) × (end_poll is_main id (ready value) c.runtime ≡ done rt')
      × Inv (record c { runtime = rt'; running = none })
      × (load (record c { runtime = rt'; running = none }) ≤ load c)
  unfolding end_poll
  ends_lem =
      let entry = rw e at (inv.entries id) in
      let whole = rw s at (entry.4) in
      let woken =
        wake_all-Woken over.out t.wake_on_ready
          (record c { runtime = stored; handles = lent c id; running = none }) id whole over-Inv
          (may_wake_all_mono t.wake_on_ready id c.runtime stored
            (λ i ne h. may_wake-same i c.runtime stored (stored-frame i ne) ∙ h) may) in
      let (rt', dropped, inv', less) =
        drop_lent (record c { running = none }) id woken.after woken.inv few in
      rw (deref-some c.runtime id t e, wakers_lem, woken.ran, dropped)
        (rt', refl, inv', omega (arith, less, woken.work, over_work))

pub answer-Kept :
    (r : Option ℕ) (is_main : Bool) (poll : Poll) (c : Clients)
    → c.running ≡ r
    → Inv c
    → ((id : ℕ) → c.handles id + 2 < word_limit)
    → Kept c 0 (answer r is_main poll c)
unfolding answer may_answer end_poll
answer-Kept none is_main poll c busy inv few = (c, refl, inv, λ j. omega arith, omega arith)
answer-Kept (some id) is_main undefined c busy inv few =
    (_, refl, waits_lem c inv, λ j. omega arith, omega arith)
answer-Kept (some id) is_main pending c busy inv few =
    (_, refl, waits_lem c inv, λ j. omega arith, omega arith)
answer-Kept (some id) is_main (ready value) c busy inv few =
    elim (Bool-cases (may_end id c.runtime)) [
      | inr not_now ↦ rw not_now (c, refl, inv, λ j. omega arith, omega arith)
      | inl now ↦
          let (t, e) = polled_lem c id inv busy in
          let (s, may) = may_end_lem t.status id c.runtime t e refl now in
          let (rt', run, inv', work) = ends_lem c id t is_main value inv busy e s may (few id) in
          rw (now, run) (_, refl, inv', λ j. omega arith, omega (arith, work))
    ]

-- The answer of the future that is polled.
pub answers-Kept :
    (is_main : Bool) (poll : Poll) (c : Clients)
    → Inv c
    → ((id : ℕ) → c.handles id + 2 < word_limit)
    → Kept c 2 (happens (answers is_main poll) c)
unfolding happens
answers-Kept is_main poll c inv few =
    let (c', run, inv', more, work) = answer-Kept c.running is_main poll c refl inv few in
    (c', run, inv', more, omega (arith, work))
