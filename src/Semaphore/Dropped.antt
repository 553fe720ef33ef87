-- ===== src/Semaphore/Dropped.antt =====
-- taskio_semaphore_drop of src/sync/semaphore.c, with futures that still wait.
use taskio.Prelude.{
  copies-none, copies, copies-more, copies-same, ℕ, ◌+◌, ◌<◌, ◌≤◌, ◌≡◌, ◌≢◌, ◌⊎◌, refl, inl, inr,
  true, false, Option, none, some, List, [], ◌∷◌, arith, ◌==◌, if◌then◌else◌, update, All, done,
  dec_le, u64, u64_dec,
}
use taskio.Semaphore
use taskio.Semaphore.{
  Semaphore, Node, plain, timed, node_drop, node_count, node_is_timed, drop_nodes,
}
use taskio.Semaphore.Nodes.{Owned, Owned-bounds}
use taskio.Semaphore.Clients.{Clients, Inv}

-- What becomes of a node: only one of a timed wait whose future still has it is left, to that future.
pub after_drop : Option Node → Option Node
after_drop none = none
after_drop (some n) =
    if n.counter == timed + 2 then some (record n { counter = timed + 1 }) else none

abbrev Queued : Option Node → Type 0
Queued o =
    (n : Node) × (o ≡ some n)
    × ((n.counter ≡ plain + 1)
        ⊎ (n.counter ≡ plain + 2)
        ⊎ (n.counter ≡ timed + 1)
        ⊎ (n.counter ≡ timed + 2))

node_drop-after_drop :
    (id : ℕ) (s : Semaphore)
    → Queued (s.nodes id)
    → node_drop id false s ≡ done (record s { nodes = update s.nodes id (after_drop (s.nodes id)) })
unfolding node_drop node_count node_is_timed after_drop u64_dec u64
node_drop-after_drop id s (n, e, inl c) = rw (e, node_drop, c) refl
node_drop-after_drop id s (n, e, inr (inl c)) = rw (e, node_drop, c) refl
node_drop-after_drop id s (n, e, inr (inr (inl c))) = rw (e, node_drop, c) refl
node_drop-after_drop id s (n, e, inr (inr (inr c))) = rw (e, node_drop, c) refl

abbrev Once : List ℕ → Type 0
Once [] = Unit
Once (id ∷ ids) = All (λ j. j ≢ id) ids × Once ids

-- The nodes of the list are dropped, and the others are as they were.
abbrev pub Dropped : (ℕ → Option Node) → List ℕ → Semaphore → Type 0
Dropped nodes ids s' =
    All (λ j. s'.nodes j ≡ after_drop (nodes j)) ids
    × ((j : ℕ) → All (λ y. y ≢ j) ids → s'.nodes j ≡ nodes j)

All-same :
    (id : ℕ) (ids : List ℕ) (nodes : ℕ → Option Node) (o : Option Node)
    → All (λ j. j ≢ id) ids
    → All (λ j. Queued (nodes j)) ids
    → All (λ j. Queued (update nodes id o j)) ids
All-same id [] nodes o apart queued = tt
All-same id (x ∷ ids) nodes o apart queued =
    let skip : (id == x) ≡ false = ground (arith, apart.0) in
    ((rw skip queued.0), All-same id ids nodes o apart.1 queued.1)

All-back :
    (id : ℕ) (ids : List ℕ) (nodes : ℕ → Option Node) (o : Option Node) (s' : Semaphore)
    → All (λ j. j ≢ id) ids
    → All (λ j. s'.nodes j ≡ after_drop (update nodes id o j)) ids
    → All (λ j. s'.nodes j ≡ after_drop (nodes j)) ids
All-back id [] nodes o s' apart dropped = tt
All-back id (x ∷ ids) nodes o s' apart dropped =
    let skip : (id == x) ≡ false = ground (arith, apart.0) in
    ((rw skip at dropped.0), All-back id ids nodes o s' apart.1 dropped.1)

drop_nodes-Dropped :
    (ids : List ℕ) (s : Semaphore)
    → Once ids
    → All (λ j. Queued (s.nodes j)) ids
    → (s' : Semaphore) × (drop_nodes ids s ≡ done s') × Dropped s.nodes ids s'
unfolding drop_nodes
drop_nodes-Dropped [] s once queued = (s, refl, (tt, λ j _. refl))
drop_nodes-Dropped (id ∷ next) s once queued =
    let o = after_drop (s.nodes id) in
    let s1 = record s { nodes = update s.nodes id o } in
    let hit : (id == id) ≡ true = ground arith in
    let (s', run, (dropped, frame)) =
      drop_nodes-Dropped next s1 once.1 (All-same id next s.nodes o once.0 queued.1) in
    rw (node_drop-after_drop id s queued.0, run)
      (
        s',
        refl,
        (
          ((rw hit at (frame id once.0)), All-back id next s.nodes o s' once.0 dropped),
          λ j apart.
              let skip : (id == j) ≡ false = ground (arith, apart.0) in
              (rw skip at (frame j apart.1)),
        ),
      )

copies-Once : (ids : List ℕ) → ((j : ℕ) → copies j ids ≤ 1) → Once ids
copies-Once [] h = tt
copies-Once (id ∷ ids) h = (
  copies-none id ids (omega (arith, h id, copies-same id ids)),
  copies-Once ids (λ j. omega (arith, h j, copies-more j id ids)),
)

Owned-Queued : (o : Option Node) (q h : ℕ) → Owned o q h → 0 < q → Queued o
Owned-Queued none q h owned pos = absurd (omega arith)
Owned-Queued (some n) q h owned pos = (
  n,
  refl,
  elim (dec_le 1 h) [
    | yes two ↦ elim owned.3 [
      | inl f ↦ inr (inl (omega (arith, owned.0, owned.1)))
      | inr f ↦ inr (inr (inr (omega (arith, owned.0, owned.1))))
    ]
    | no one ↦ elim owned.3 [
      | inl f ↦ inl (omega (arith, owned.0))
      | inr f ↦ inr (inr (inl (omega (arith, owned.0))))
    ]
  ],
)

copies-Queued :
    (nodes : ℕ → Option Node) (queue held ids : List ℕ)
    → ((j : ℕ) → Owned (nodes j) (copies j queue) (copies j held))
    → ((j : ℕ) → copies j ids ≤ copies j queue)
    → All (λ j. Queued (nodes j)) ids
copies-Queued nodes queue held [] owned h = tt
copies-Queued nodes queue held (id ∷ ids) owned h = (
  Owned-Queued (nodes id) (copies id queue) (copies id held) (owned id)
      (omega (arith, h id, copies-same id ids)),
  copies-Queued nodes queue held ids owned (λ j. omega (arith, h j, copies-more j id ids)),
)

-- A drop of a semaphore that satisfies the invariant faults nowhere. Of the queued nodes it leaves
-- those of timed waits that their futures still have, with one owner, and frees the others; a node
-- that is not queued is as it was.
pub drop-Dropped :
    (c : Clients)
    → Inv c
    → (s' : Semaphore) × (Semaphore.drop c.semaphore ≡ done s')
      × Dropped c.semaphore.nodes c.semaphore.queue s'
unfolding Semaphore.drop
drop-Dropped c inv =
    let queue = c.semaphore.queue in
    drop_nodes-Dropped queue c.semaphore
      (copies-Once queue (λ j.
        (Owned-bounds (c.semaphore.nodes j) (copies j queue) (copies j c.held) (inv.owned j)).0))
      (copies-Queued c.semaphore.nodes queue c.held queue inv.owned (λ j. omega arith))
