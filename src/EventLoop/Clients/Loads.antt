-- ===== src/EventLoop/Clients/Loads.antt =====
-- The work that the tasks of src/platform/linux/runtime.c are: a task in the poll queue is to be polled,
-- and the joiners of a task are to be woken.
use taskio.Prelude.{
  ℕ, ◌+◌, ◌-◌, ◌≤◌, ◌<◌, ◌≡◌, ◌≢◌, refl, ap, sym, ◌∙◌, true, false, Option, none, some, arith, ◌==◌,
  update, Run, done, sum_below, sum_below-change, sum_below-eq, sum_below-next,
}
use taskio.EventLoop.{
  Status, suspended, scheduled, aborted, finished, Joiners, null, dangling, node, Task, after_wake,
}
use taskio.EventLoop.Clients.{Clients, unlinked, Inv}

abbrev pub joiners : Joiners → ℕ
joiners null = 0
joiners dangling = 0
joiners (node w rest) = 1 + joiners rest

-- The polls that a task in the queue is to have; one that was aborted is there as long as the worker
-- owns it.
abbrev pub queued : Status → ℕ → ℕ → ℕ
queued suspended counter handles = 0
queued scheduled counter handles = 1
queued aborted counter handles = counter - handles
queued finished counter handles = 0

abbrev pub to_do : ℕ → Option Task → ℕ
to_do handles none = 0
to_do handles (some t) = queued t.status t.counter handles + joiners t.wake_on_ready

abbrev pub load : Clients → ℕ
load c = sum_below c.runtime.fresh (λ id. to_do (c.handles id) (c.runtime.tasks id))

pub joiners-after_wake : (w : Joiners) → joiners (after_wake w) ≡ 0
unfolding after_wake
joiners-after_wake null = refl
joiners-after_wake dangling = refl
joiners-after_wake (node w rest) = refl

pub to_do-unlinked : (h : ℕ) (o : Option Task) → to_do h (unlinked o) ≡ to_do h o
to_do-unlinked h none = refl
to_do-unlinked h (some t) = refl

to_do-same :
    (c c' : Clients) (j : ℕ)
    → unlinked (c'.runtime.tasks j) ≡ unlinked (c.runtime.tasks j)
    → c'.handles j ≡ c.handles j
    → to_do (c'.handles j) (c'.runtime.tasks j) ≡ to_do (c.handles j) (c.runtime.tasks j)
to_do-same c c' j tasks handles =
    ap (λ h. to_do h (c'.runtime.tasks j)) handles
    ∙ sym (to_do-unlinked (c.handles j) (c'.runtime.tasks j))
    ∙ ap (to_do (c.handles j)) tasks
    ∙ to_do-unlinked (c.handles j) (c.runtime.tasks j)

-- One task and its handles change.
pub load-change :
    (c c' : Clients) (id n m : ℕ)
    → c'.runtime.fresh ≡ c.runtime.fresh
    → id < c.runtime.fresh
    → ((j : ℕ) → j ≢ id → unlinked (c'.runtime.tasks j) ≡ unlinked (c.runtime.tasks j))
    → ((j : ℕ) → j ≢ id → c'.handles j ≡ c.handles j)
    → to_do (c'.handles id) (c'.runtime.tasks id) + m
      ≤ to_do (c.handles id) (c.runtime.tasks id) + n
    → load c' + m ≤ load c + n
load-change c c' id n m fresh lt tasks handles le =
    let f = λ (j : ℕ). to_do (c.handles j) (c.runtime.tasks j) in
    let g = λ (j : ℕ). to_do (c'.handles j) (c'.runtime.tasks j) in
    let same : (j : ℕ) → j ≢ id → g j ≡ f j =
      λ j ne. to_do-same c c' j (tasks j ne) (handles j ne) in
    let changed = sum_below-change c.runtime.fresh f g id (λ j _ ne. same j (λ p. ne (sym p))) lt in
    let sum : load c' ≡ sum_below c.runtime.fresh g = ap (λ n. sum_below n g) fresh in
    omega (arith, changed, sum, le)

-- A task is new.
pub load-new :
    (c c' : Clients) (n : ℕ)
    → c'.runtime.fresh ≡ c.runtime.fresh + 1
    → ((j : ℕ) → j ≢ c.runtime.fresh → unlinked (c'.runtime.tasks j) ≡ unlinked (c.runtime.tasks j))
    → ((j : ℕ) → j ≢ c.runtime.fresh → c'.handles j ≡ c.handles j)
    → to_do (c'.handles c.runtime.fresh) (c'.runtime.tasks c.runtime.fresh) ≤ n
    → load c' ≤ load c + n
load-new c c' n fresh tasks handles le =
    let f = λ (j : ℕ). to_do (c.handles j) (c.runtime.tasks j) in
    let g = λ (j : ℕ). to_do (c'.handles j) (c'.runtime.tasks j) in
    let sum : load c' ≡ sum_below c.runtime.fresh g + g c.runtime.fresh =
      ap (λ n. sum_below n g) fresh ∙ sum_below-next c.runtime.fresh g in
    let same =
      sum_below-eq c.runtime.fresh g f
        (λ j lt. to_do-same c c' j (tasks j (omega arith)) (handles j (omega arith))) in
    omega (arith, sum, same, le)

module _ (c : Clients) (id n m : ℕ) (o : Option Task) (lt : id < c.runtime.fresh) where
  put-unlinked :
      (j : ℕ) → j ≢ id → unlinked (update c.runtime.tasks id o j) ≡ unlinked (c.runtime.tasks j)
  put-unlinked j ne = let skip : (id == j) ≡ false = ground (arith, ne) in rw skip refl

  -- A task is put in the place of one.
  pub load-put :
      to_do (c.handles id) o + m ≤ to_do (c.handles id) (c.runtime.tasks id) + n
      → load (record c { runtime = record (c.runtime) { tasks = update c.runtime.tasks id o } }) + m
        ≤ load c + n
  load-put le =
      let hit : (id == id) ≡ true = ground arith in
      load-change c
        (record c { runtime = record (c.runtime) { tasks = update c.runtime.tasks id o } }) id n m
        refl lt put-unlinked (λ _ _. refl) (rw hit le)

  pub load-put_handles :
      (h : ℕ)
      → to_do h o + m ≤ to_do (c.handles id) (c.runtime.tasks id) + n
      → load (record c {
        runtime = record (c.runtime) { tasks = update c.runtime.tasks id o };
        handles = update c.handles id h;
      })
          + m
        ≤ load c + n
  load-put_handles h le =
      let hit : (id == id) ≡ true = ground arith in
      load-change c
        (record c {
          runtime = record (c.runtime) { tasks = update c.runtime.tasks id o };
          handles = update c.handles id h;
        })
        id n m refl lt put-unlinked
        (λ j ne. let skip : (id == j) ≡ false = ground (arith, ne) in rw skip refl) (rw hit le)

pub queued_mono : (s : Status) (k k' h h' : ℕ) → k' - h' ≤ k - h → queued s k' h' ≤ queued s k h
queued_mono suspended k k' h h' le = omega arith
queued_mono scheduled k k' h h' le = omega arith
queued_mono aborted k k' h h' le = le
queued_mono finished k k' h h' le = omega arith

-- The event happens without a fault, keeps the invariant, and makes one handle of a task and `n` more
-- to do at most.
abbrev pub Kept : Clients → ℕ → Run Clients → Type 0
Kept c n run =
    (c' : Clients) × (run ≡ done c')
    × Inv c'
    × ((id : ℕ) → c'.handles id ≤ c.handles id + 1)
    × (load c' ≤ load c + n)
