-- ===== src/EventLoop/Clients/Owners.antt =====
-- The owners of tasks in src/platform/linux/runtime.c: clones and drops of handles, and new tasks,
-- keep the invariant.
use taskio.Prelude.{
  ℕ, ◌+◌, ◌-◌, ◌≤◌, ◌<◌, ◌≡◌, ◌≢◌, ◌∙◌, refl, sym, inl, inr, true, none, some, arith, ltb, ltb→lt,
  ◌==◌, update, copies, Bool-cases, Option-cases, dec_lt, word_limit, u64, u64_small, u64_dec,
  u64_dec_pos, done,
}
use taskio.EventLoop.{
  Status, suspended, scheduled, aborted, finished, Task, Runtime, store, task_drop,
}
use taskio.EventLoop.Queue.{deref-some}
use taskio.EventLoop.Handles.{handle_clone, handle_drop}
use taskio.EventLoop.Clients.{
  Clients, Inv, unlinked, Entry, Rests, owner, Placed, happens, clones, drops, polled,
}
use taskio.EventLoop.Clients.Loads.{Kept, load, load-put_handles, to_do, queued_mono}
use taskio.EventLoop.Clients.Around.{around, close, Around-same, Around-out, Around-handles}

-- A task that the worker does not own is not in the queue.
Placed-out : (s : Status) (q : ℕ) → Placed s q → owner s q ≡ 0 → q ≡ 0
Placed-out suspended q p e = absurd (omega arith)
Placed-out scheduled q p e = absurd (omega arith)
Placed-out aborted q p e = e
Placed-out finished q p e = p

-- A task that somebody owns is allocated.
pub owned_lem :
    (c : Clients) (id : ℕ) → Inv c → 0 < c.handles id → (t : Task) × (c.runtime.tasks id ≡ some t)
owned_lem c id inv pos = elim (Option-cases (c.runtime.tasks id)) [
  | inl e ↦ let entry = rw e at (inv.entries id) in absurd (omega (arith, entry.0))
  | inr found ↦ found
]

pub fresh_lem :
    (c : Clients) (id : ℕ) (t : Task) → Inv c → c.runtime.tasks id ≡ some t → id < c.runtime.fresh
fresh_lem c id t inv e = elim (dec_lt id c.runtime.fresh) [
  | yes lt ↦ lt
  | no ge ↦ absurd (let p : some t ≡ none = sym e ∙ inv.unused id (omega arith) in cc)
]

owner-le : (s : Status) (q : ℕ) → Placed s q → owner s q ≤ 1
owner-le suspended q p = omega arith
owner-le scheduled q p = omega arith
owner-le aborted q p = p
owner-le finished q p = omega arith

module _ (c : Clients) (id : ℕ) (inv : Inv c) (t new : Task) (e : c.runtime.tasks id ≡ some t)
    (same : new.next ≡ t.next) (rests : Rests (some new)) where
  stored_hit : update c.runtime.tasks id (some new) id ≡ some new
  stored_hit = let hit : (id == id) ≡ true = ground arith in rw hit refl

  allocated : c.runtime.fresh ≤ id → some new ≡ none
  allocated le = let lt = fresh_lem c id t inv e in absurd (omega arith)

  -- The task changes, in its place.
  pub store-Inv :
      Entry (unlinked (some new)) (c.handles id) (copies id inv.tasks) (polled c.running id)
      → Inv (record c { runtime = store c.runtime id new })
  unfolding store
  store-Inv entry =
      close (record c { runtime = store c.runtime id new }) id inv.tasks (some new)
        (Around-same c id inv.tasks (around c id inv) t new e same) stored_hit entry rests allocated

  -- So do its handles.
  pub store_handles-Inv :
      (h : ℕ)
      → Entry (unlinked (some new)) h (copies id inv.tasks) (polled c.running id)
      → Inv (record c { runtime = store c.runtime id new; handles = update c.handles id h })
  unfolding store
  store_handles-Inv h entry =
      let c' = record c { runtime = store c.runtime id new } in
      let hit : (id == id) ≡ true = ground arith in
      close (record c' { handles = update c.handles id h }) id inv.tasks (some new)
        (Around-handles c' id inv.tasks (Around-same c id inv.tasks (around c id inv) t new e same)
          h)
        stored_hit (rw hit entry) rests allocated

-- A drop of a handle takes one owner off, and frees the task with the last.
pub task_drop-Inv :
    (c : Clients) (id : ℕ)
    → Inv c
    → 0 < c.handles id
    → c.handles id + 1 < word_limit
    → (rt' : Runtime) × (task_drop id c.runtime ≡ done rt')
      × Inv (record c { runtime = rt'; handles = update c.handles id (c.handles id - 1) })
      × (load (record c { runtime = rt'; handles = update c.handles id (c.handles id - 1) })
          ≤ load c)
unfolding task_drop store
task_drop-Inv c id inv pos few =
    let (t, e) = owned_lem c id inv pos in
    let entry = rw e at (inv.entries id) in
    let q = copies id inv.tasks in
    let h = c.handles id - 1 in
    let small = owner-le t.status q (entry.2) in
    elim (Bool-cases (t.counter == 1)) [
      | inl one ↦
          let last : owner t.status q ≡ 0 = ground (arith, entry.0) in
          let out = Placed-out t.status q (entry.2) last in
          let hit : (id == id) ≡ true = ground arith in
          let c' = record c {
            runtime = record (c.runtime) { tasks = update c.runtime.tasks id none };
          } in
          rw (deref-some c.runtime id t e, one)
            (
              _,
              refl,
              close (record c' { handles = update c.handles id h }) id inv.tasks none
                  (Around-handles c' id inv.tasks
                    (Around-out c id inv.tasks (around c id inv) none out) h)
                  (rw hit refl)
                  ((rw hit (ground (arith, entry.0))), out, omega (arith, entry.3, last)) tt
                  (λ le. refl),
              omega
                  (arith, load-put_handles c id 0 0 none (fresh_lem c id t inv e) h (omega arith)),
            )
      | inr more ↦
          let less : u64_dec t.counter + 1 ≡ t.counter =
            u64_dec_pos t.counter (entry.1) (omega (arith, entry.0, small)) in
          let ne : t.counter ≢ 1 = ground arith in
          let new = record t { counter = u64_dec t.counter } in
          let most : to_do h (some new) ≤ to_do (c.handles id) (c.runtime.tasks id) = rw e (
            omega (
              arith,
              queued_mono t.status t.counter (u64_dec t.counter) (c.handles id) h
                  (omega (arith, less)),
            )) in
          let work =
            load-put_handles c id 0 0 (some new) (fresh_lem c id t inv e) h (omega (arith, most)) in
          rw (deref-some c.runtime id t e, more)
            (
              _,
              refl,
              store_handles-Inv c id inv t (record t { counter = u64_dec t.counter }) e refl
                  (rw e at (inv.rests id)) h
                  (
                    omega (arith, less, entry.0),
                    omega (arith, less, ne, entry.1),
                    entry.2,
                    entry.3,
                    entry.4,
                    entry.5,
                  ),
              omega (arith, work),
            )
    ]

-- A clone of a handle makes one owner more.
pub clones-Kept :
    (c : Clients) (id : ℕ)
    → Inv c
    → c.handles id + 2 < word_limit
    → Kept c 2 (happens (clones id) c)
unfolding happens handle_clone store
clones-Kept c id inv few = elim (Bool-cases (ltb 0 (c.handles id))) [
  | inr none_left ↦ rw none_left (c, refl, inv, λ j. omega arith, omega arith)
  | inl some_left ↦
      let (t, e) = owned_lem c id inv (ltb→lt 0 (c.handles id) some_left) in
      let entry = rw e at (inv.entries id) in
      let small = owner-le t.status (copies id inv.tasks) (entry.2) in
      let more : u64 (t.counter + 1) ≡ t.counter + 1 =
        u64_small (t.counter + 1) (omega (arith, entry.0, small)) in
      let new = record t { counter = u64 (t.counter + 1) } in
      let most : to_do (c.handles id + 1) (some new) ≤ to_do (c.handles id) (c.runtime.tasks id) =
        rw e (
          omega (
            arith,
            queued_mono t.status t.counter (u64 (t.counter + 1)) (c.handles id) (c.handles id + 1)
                (omega (arith, more)),
          )) in
      let work =
        load-put_handles c id 1 0 (some new) (fresh_lem c id t inv e) (c.handles id + 1)
          (omega (arith, most)) in
      rw (some_left, deref-some c.runtime id t e)
        (
          _,
          refl,
          store_handles-Inv c id inv t (record t { counter = u64 (t.counter + 1) }) e refl
              (rw e at (inv.rests id)) (c.handles id + 1)
              (
                omega (arith, more, entry.0),
                omega (arith, more),
                entry.2,
                entry.3,
                entry.4,
                entry.5,
              ),
          λ j. ground arith,
          omega (arith, work),
        )
]

pub drops-Kept :
    (c : Clients) (id : ℕ) → Inv c → c.handles id + 1 < word_limit → Kept c 2 (happens (drops id) c)
unfolding happens handle_drop
drops-Kept c id inv few = elim (Bool-cases (ltb 0 (c.handles id))) [
  | inr none_left ↦ rw none_left (c, refl, inv, λ j. omega arith, omega arith)
  | inl some_left ↦
      let (rt', run, inv', work) = task_drop-Inv c id inv (ltb→lt 0 (c.handles id) some_left) few in
      rw (some_left, run) (_, refl, inv', λ j. ground arith, omega (arith, work))
]
