-- ===== src/EventLoop/Clients/Entries.antt =====
-- The tasks of src/platform/linux/runtime.c, one of which changes.
use taskio.Prelude.{
  ℕ, ◌≡◌, ◌≢◌, ◌∙◌, refl, sym, ap, subst, inl, inr, false, Option, some, List, [], ◌∷◌, arith, ◌==◌,
  update, Bool-cases, Run, done, fault, done-injective,
}
use taskio.EventLoop.{scheduled, Task, Runtime, store, link, signal_event, enqueue}
use taskio.EventLoop.Chain.{NotIn, Follows, last_of, last_of-ne, last_task}
use taskio.EventLoop.Queue.{Queue, deref-some}
use taskio.EventLoop.Clients.{Clients, in_runtime, unlinked}

-- A task in the chain may change but for its `next`.
Follows-same :
    (tasks : ℕ → Option Task) (o : Option ℕ) (xs : List ℕ) (id : ℕ) (t new : Task)
    → tasks id ≡ some t
    → new.next ≡ t.next
    → Follows tasks o xs
    → Follows (update tasks id (some new)) o xs
Follows-same tasks o [] id t new e same chain = chain
Follows-same tasks o (x ∷ xs) id t new e same (first, task, e', rest) =
    elim (Bool-cases (id == x)) [
      | inl hit ↦
          let p : id ≡ x = ground arith in
          let both : some t ≡ some task = sym e ∙ ap tasks p ∙ e' in
          let next : new.next ≡ task.next = cc in
          (
            first,
            new,
            (rw hit refl),
            subst (λ n. Follows (update tasks id (some new)) n xs) (sym next)
                (Follows-same tasks task.next xs id t new e same rest),
          )
      | inr skip ↦ (first, task, (rw skip e'), Follows-same tasks task.next xs id t new e same rest)
    ]

pub Queue-same :
    (rt : Runtime) (xs : List ℕ) (id : ℕ) (t new : Task)
    → rt.tasks id ≡ some t
    → new.next ≡ t.next
    → Queue rt xs
    → Queue (store rt id new) xs
unfolding store
Queue-same rt xs id t new e same queue = record {
  chain = Follows-same rt.tasks rt.poll_head xs id t new e same queue.chain;
  tail = queue.tail;
  distinct = queue.distinct;
}

-- A wake changes no other task but for its `next`.
abbrev pub Framed : Runtime → ℕ → Runtime → Type 0
Framed rt id rt' =
    (rt'.fresh ≡ rt.fresh) × ((j : ℕ) → j ≢ id → unlinked (rt'.tasks j) ≡ unlinked (rt.tasks j))

signal_event-Framed :
    (rt mid : Runtime) (id : ℕ) → Framed rt id mid → Framed rt id (signal_event mid)
unfolding signal_event
signal_event-Framed rt mid id f = elim (Bool-cases mid.poll_scheduled) [
  | inl on ↦ rw on f
  | inr off ↦ rw off f
]

pub enqueue-Framed :
    (rt : Runtime) (id : ℕ) (task : Task) (xs : List ℕ)
    → Queue rt xs
    → NotIn id xs
    → (rt' : Runtime) × (enqueue rt id task ≡ done rt') × Framed rt id rt'
unfolding enqueue link store
enqueue-Framed rt id task [] queue absent = rw (queue.tail) (
  _,
  refl,
  signal_event-Framed rt _ id
      (refl, λ j ne. let skip : (id == j) ≡ false = ground (arith, ne) in rw skip refl),
)
enqueue-Framed rt id task (x ∷ xs) queue absent =
    let new = record task { status = scheduled } in
    let z = last_of x xs in
    let ne = last_of-ne id x xs absent in
    let skip : (id == z) ≡ false = ground (arith, ne) in
    let (t, e) = last_task rt.tasks rt.poll_head x xs queue.chain in
    let mid = record rt { tasks = update rt.tasks id (some new); poll_tail = some z } in
    rw (queue.tail, link, deref-some mid z t (rw skip e))
      (
        _,
        refl,
        signal_event-Framed rt _ id (
          refl,
          λ j other.
              let apart : (id == j) ≡ false = ground (arith, other) in
              elim (Bool-cases (z == j)) [
                | inl hit ↦
                    let p : z ≡ j = ground arith in rw hit (ap unlinked (sym e ∙ ap rt.tasks p))
                | inr miss ↦ rw (miss, apart) refl
              ],
        ),
      )

-- What a call that ends leaves in the runtime
pub in_runtime-done :
    (c c' : Clients) (run : Run Runtime)
    → in_runtime c run ≡ done c'
    → (rt : Runtime) × (run ≡ done rt) × (record c { runtime = rt } ≡ c')
in_runtime-done c c' (done rt) e = (rt, refl, done-injective _ c' e)
in_runtime-done c c' (fault f) e = absurd (cc)
