-- ===== src/EventLoop/Clients/Takes.antt =====
-- The worker of src/platform/linux/runtime.c takes a task off the queue, and polls it or drops it if it
-- was aborted: the invariant holds again.
use mathlib.Core.Path.{fun_ext}
use taskio.Prelude.{
  ℕ, ◌≤◌, ◌+◌, ◌-◌, ◌<◌, ◌≡◌, ◌≢◌, ◌∙◌, refl, ap, subst, inl, inr, true, false, Option, none, some,
  List, arith, ◌==◌, update, copies, Bool-cases, word_limit, Run, done,
}
use taskio.EventLoop.{
  Status, suspended, scheduled, aborted, finished, Task, Runtime, store, task_drop,
}
use taskio.EventLoop.Queue.{deref-some}
use taskio.EventLoop.Handles.{take_task, begin_poll, clean}
use taskio.EventLoop.Clients.{
  Clients, Inv, unlinked, Entry, take_one, take_next, happens, takes, polled,
}
use taskio.EventLoop.Clients.Loads.{Kept, load, load-change}
use taskio.EventLoop.Clients.Around.{Around, close, Around-out, Around-handles, Around-running}
use taskio.EventLoop.Clients.Owners.{fresh_lem, task_drop-Inv}
use taskio.EventLoop.Clients.Heads.{head_lem, taken_lem}

-- A task with an owner more, that is then dropped.
abbrev pub lent : Clients → ℕ → ℕ → ℕ
lent c id = update c.handles id (c.handles id + 1)

lent_back : (c : Clients) (id : ℕ) → update (lent c id) id (lent c id id - 1) ≡ c.handles
lent_back c id = fun_ext λ j. elim (Bool-cases (id == j)) [
  | inl hit ↦
      let p : id ≡ j = ground arith in
      let self : (id == id) ≡ true = ground arith in
      rw (hit, self)
        (let less : c.handles id + 1 - 1 ≡ c.handles id = omega arith in less ∙ ap c.handles p)
  | inr skip ↦ rw skip refl
]

pub drop_lent :
    (c : Clients) (id : ℕ) (rt : Runtime)
    → Inv (record c { runtime = rt; handles = lent c id })
    → c.handles id + 2 < word_limit
    → (rt' : Runtime) × (task_drop id rt ≡ done rt')
      × Inv (record c { runtime = rt' })
      × (load (record c { runtime = rt' }) ≤ load (record c { runtime = rt; handles = lent c id }))
drop_lent c id rt inv few =
    let self : lent c id id ≡ c.handles id + 1 = ground arith in
    let (rt', run, inv', work) =
      task_drop-Inv (record c { runtime = rt; handles = lent c id }) id inv (omega (arith, self))
        (omega (arith, self)) in
    let (inv'', work') =
      subst
        (λ h.
          Inv (record c { runtime = rt'; handles = h })
          × (load (record c { runtime = rt'; handles = h })
              ≤ load (record c { runtime = rt; handles = lent c id })))
        (lent_back c id) (inv', work) in
    (rt', run, inv'', work')

pub focus_clean :
    (c : Clients) (id : ℕ) (ys : List ℕ) (rt : Runtime)
    → Around (record c { runtime = rt }) id ys
    → Around (record c { runtime = clean id rt }) id ys
unfolding clean
focus_clean c id ys rt a = record {
  queue = record { chain = a.queue.chain; tail = a.queue.tail; distinct = a.queue.distinct };
  entries = a.entries;
  rests = a.rests;
  unused = a.unused;
}

module _ (c : Clients) (id : ℕ) (ys : List ℕ) (task : Task) (rt : Runtime)
    (e : c.runtime.tasks id ≡ some task)
    (entry : Entry (unlinked (some task)) (c.handles id) (copies id ys + 1) (polled c.running id))
    (out : copies id ys ≡ 0) (run : take_task c.runtime id ≡ done rt)
    (a : Around (record c { runtime = rt }) id ys) (same : rt.tasks ≡ c.runtime.tasks)
    (fresh : rt.fresh ≡ c.runtime.fresh) (lt : id < c.runtime.fresh) (idle : c.running ≡ none) where
  there : rt.tasks id ≡ some task
  there = ap (λ (f : ℕ → Option Task). f id) same ∙ e

  Took : Run (Option ℕ × Runtime) → Type 0
  Took run' =
      (r : Option ℕ) × (rt' : Runtime) × (run' ≡ done (r, rt'))
      × Inv (record c { runtime = rt'; running = r })
      × (load (record c { runtime = rt'; running = r }) + 1 ≤ load c)

  begins : begin_poll id rt ≡ done (store rt id (record task { status = suspended; next = none }))
  unfolding begin_poll
  begins = rw (deref-some rt id task there) refl

  -- A task that was scheduled is polled.
  polls_lem : task.status ≡ scheduled → Took (take_one id c.runtime)
  unfolding take_one store Took
  polls_lem s =
      let counted = rw s at (entry.0) in
      let whole = rw s at (entry.4) in
      let new = record task { status = suspended; next = none } in
      let hit : (id == id) ≡ true = ground arith in
      let c1 = record c { runtime = rt } in
      let c2 = record c { runtime = store rt id new } in
      let b = Around-out c1 id ys a (some new) out in
      let work =
        load-change c (record c2 { running = some id }) id 0 1 fresh lt
          (λ j ne. let skip : (id == j) ≡ false = ground (arith, ne) in rw (skip, same) refl)
          (λ _ _. refl) (rw (hit, e, s) (omega arith)) in
      let off : (j : ℕ) → j ≢ id → polled (some id) j ≡ polled c.running j =
        λ j ne. let skip : (id == j) ≡ false = ground (arith, ne) in rw (idle, skip) refl in
      rw (run, deref-some rt id task there, s, begins)
        (
          some id,
          store rt id new,
          refl,
          close (record c2 { running = some id }) id ys (some new)
              (Around-running c2 id ys b (some id) off) (rw hit refl)
              (counted, entry.1, out, (rw hit (omega arith)), whole, entry.5) (λ _. refl)
              (λ le. absurd (omega (arith, fresh))),
          omega (arith, work),
        )

  -- A task that was aborted is cleaned up and dropped.
  drops_lem : task.status ≡ aborted → c.handles id + 2 < word_limit → Took (take_one id c.runtime)
  unfolding take_one clean Took
  drops_lem s few =
      let counted = rw s at (entry.0) in
      let whole = rw s at (entry.4) in
      let c1 = record c { runtime = clean id rt } in
      let b = Around-handles c1 id ys (focus_clean c id ys rt a) (c.handles id + 1) in
      let self : lent c id id ≡ c.handles id + 1 = ground arith in
      let not_polled : polled c.running id ≡ 0 = rw idle refl in
      let inv1 : Inv (record c1 { handles = lent c id }) =
        close (record c1 { handles = lent c id }) id ys (some task) b there
          (
            (rw s (omega (arith, self, counted, out))),
            entry.1,
            (rw s (omega (arith, out))),
            (rw s (omega (arith, not_polled))),
            (rw s whole),
            entry.5,
          )
          (λ s'. absurd (ground arith)) (λ le. absurd (omega (arith, fresh))) in
      let work =
        load-change c (record c1 { handles = lent c id }) id 0 1 fresh lt (λ j _. rw same refl)
          (λ j ne. let skip : (id == j) ≡ false = ground (arith, ne) in rw skip refl)
          (rw (self, there, e, s) (omega (arith, counted, out))) in
      let (rt', dropped, inv', less) = drop_lent c id (clean id rt) inv1 few in
      rw (run, deref-some rt id task there, s, dropped)
        (
          none,
          rt',
          refl,
          subst (λ r. Inv (record c { runtime = rt'; running = r })) idle inv',
          omega (arith, work, less),
        )

  first_by :
      (s : Status) → task.status ≡ s → c.handles id + 2 < word_limit → Took (take_one id c.runtime)
  first_by suspended s few = absurd (let p = rw s at (entry.2) in omega arith)
  first_by scheduled s few = polls_lem s
  first_by aborted s few = drops_lem s few
  first_by finished s few = absurd (let p = rw s at (entry.2) in omega arith)

pub idle_lem :
    (c : Clients)
    → Inv c
    → Inv (record c { runtime = record (c.runtime) { poll_scheduled = false } })
idle_lem c inv = record {
  tasks = inv.tasks;
  queue = record { chain = inv.queue.chain; tail = inv.queue.tail; distinct = inv.queue.distinct };
  entries = inv.entries;
  rests = inv.rests;
  unused = inv.unused;
}

pub took :
    (c : Clients) (id : ℕ)
    → Inv c
    → c.runtime.poll_head ≡ some id
    → c.running ≡ none
    → c.handles id + 2 < word_limit
    → (r : Option ℕ) × (rt' : Runtime) × (take_one id c.runtime ≡ done (r, rt'))
      × Inv (record c { runtime = rt'; running = r })
      × (load (record c { runtime = rt'; running = r }) + 1 ≤ load c)
unfolding Took
took c id inv head idle few =
    let (ys, first) = head_lem c.runtime id inv.tasks inv.queue head in
    let (task, e, entry, out, rt, run, a, same, fresh) = taken_lem c id ys inv first in
    first_by c id ys task rt e entry out run a same fresh (fresh_lem c id task inv e) idle
      task.status refl few

take_next-Kept :
    (r head : Option ℕ) (c : Clients)
    → c.running ≡ r
    → c.runtime.poll_head ≡ head
    → Inv c
    → ((id : ℕ) → c.handles id + 2 < word_limit)
    → Kept c 2 (take_next r head c)
unfolding take_next
take_next-Kept (some r) head c busy first inv few = (c, refl, inv, λ j. omega arith, omega arith)
take_next-Kept none none c idle empty inv few =
    (_, refl, idle_lem c inv, λ j. omega arith, omega arith)
take_next-Kept none (some id) c idle first inv few =
    let (r, rt', run, inv', work) = took c id inv first idle (few id) in
    rw run (_, refl, inv', λ j. omega arith, omega (arith, work))

-- The worker takes the first task, when it polls none, or ends its loop.
pub takes-Kept :
    (c : Clients) → Inv c → ((id : ℕ) → c.handles id + 2 < word_limit) → Kept c 2 (happens takes c)
unfolding happens
takes-Kept c inv few = take_next-Kept c.running c.runtime.poll_head c refl refl inv few
