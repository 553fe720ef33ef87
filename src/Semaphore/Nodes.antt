-- ===== src/Semaphore/Nodes.antt =====
-- The nodes of src/sync/semaphore.c and the two that own one: the queue, and the environment of the
-- future that waits. Their number is in the low bits of the counter.
use taskio.Prelude.{
  copies, ℕ, ◌+◌, ◌≤◌, ◌<◌, ◌≡◌, ◌≢◌, subst, false, ℕ_discrete, ◌⊎◌, Bool, inl, inr, refl, true,
  Option, none, some, List, arith, ◌==◌, if◌then◌else◌, update, u64_dec, u64, Run, done,
  Option-cases, dec_le,
}
use taskio.Semaphore.{Node, Semaphore, plain, timed, node_drop, node_count, node_is_timed}

-- A node that the queue has `q` times and the environments `h` times.
abbrev pub Owned : Option Node → ℕ → ℕ → Type 0
Owned none q h = (q ≡ 0) × (h ≡ 0)
Owned (some n) q h =
    (q ≤ 1)
    × (h ≤ 1)
    × (0 < q + h)
    × ((n.counter ≡ plain + (q + h)) ⊎ (n.counter ≡ timed + (q + h)))

-- What one of the owners leaves of the node.
abbrev pub Released : ℕ → ℕ → ℕ → Semaphore → Run Semaphore → Type 0
Released id q h s run =
    (o : Option Node) × (run ≡ done (record s { nodes = update s.nodes id o }))
    × ((q' h' : ℕ) → q' + h' + 1 ≡ q + h → q' ≤ 1 → h' ≤ 1 → Owned o q' h')

drop_shared :
    (id : ℕ) (s : Semaphore) (n : Node) (q h flag : ℕ)
    → s.nodes id ≡ some n
    → (flag ≡ plain) ⊎ (flag ≡ timed)
    → n.counter ≡ flag + 2
    → q + h ≡ 2
    → Released id q h s (node_drop id true s)
unfolding node_drop node_count node_is_timed u64_dec u64
drop_shared id s n q h flag e (inl f) c two =
    let c' : n.counter ≡ 18 = omega arith in
    rw (e, node_drop, c')
      (_, refl, λ q' h' less ql hl. (omega arith, omega arith, omega arith, inl (omega arith)))
drop_shared id s n q h flag e (inr f) c two =
    let c' : n.counter ≡ 34 = omega arith in
    rw (e, node_drop, c')
      (_, refl, λ q' h' less ql hl. (omega arith, omega arith, omega arith, inr (omega arith)))

drop_last :
    (id : ℕ) (s : Semaphore) (n : Node) (q h flag : ℕ)
    → s.nodes id ≡ some n
    → (flag ≡ plain) ⊎ (flag ≡ timed)
    → n.counter ≡ flag + 1
    → q + h ≡ 1
    → Released id q h s (node_drop id true s)
unfolding node_drop node_count node_is_timed
drop_last id s n q h flag e (inl f) c one =
    let c' : n.counter ≡ 17 = omega arith in
    rw (e, node_drop, c') (_, refl, λ q' h' less ql hl. (omega arith, omega arith))
drop_last id s n q h flag e (inr f) c one =
    let c' : n.counter ≡ 33 = omega arith in
    rw (e, node_drop, c') (_, refl, λ q' h' less ql hl. (omega arith, omega arith))

pub node_drop-Released :
    (id : ℕ) (s : Semaphore) (q h : ℕ)
    → Owned (s.nodes id) q h
    → 0 < q + h
    → Released id q h s (node_drop id true s)
node_drop-Released id s q h owned held = elim (Option-cases (s.nodes id)) [
  | inl e ↦ let o = rw e at owned in absurd (omega arith)
  | inr (n, e) ↦
      let o = rw e at owned in
      elim (dec_le 2 (q + h)) [
        | yes two ↦ elim o.3 [
          | inl f ↦ drop_shared id s n q h plain e (inl refl) (omega arith) (omega arith)
          | inr f ↦ drop_shared id s n q h timed e (inr refl) (omega arith) (omega arith)
        ]
        | no one ↦ elim o.3 [
          | inl f ↦ drop_last id s n q h plain e (inl refl) (omega arith) (omega arith)
          | inr f ↦ drop_last id s n q h timed e (inr refl) (omega arith) (omega arith)
        ]
      ]
]

pub Owned-update :
    (nodes : ℕ → Option Node) (queue held queue' held' : List ℕ) (id : ℕ) (o : Option Node)
    → ((j : ℕ) → Owned (nodes j) (copies j queue) (copies j held))
    → Owned o (copies id queue') (copies id held')
    → ((j : ℕ) → id ≢ j → copies j queue' ≡ copies j queue)
    → ((j : ℕ) → id ≢ j → copies j held' ≡ copies j held)
    → (j : ℕ) → Owned (update nodes id o j) (copies j queue') (copies j held')
Owned-update nodes queue held queue' held' id o old new same_queue same_held j =
    elim (ℕ_discrete id j) [
      | yes e ↦
          subst (λ k. Owned (update nodes id o k) (copies k queue') (copies k held')) e
            (let hit : (id == id) ≡ true = ground arith in rw hit new)
      | no ne ↦
          let skip : (id == j) ≡ false = ground arith in
          rw (skip, same_queue j ne, same_held j ne) (old j)
    ]

pub unused-update :
    (nodes : ℕ → Option Node) (fresh id : ℕ) (o : Option Node)
    → ((j : ℕ) → fresh ≤ j → nodes j ≡ none)
    → id < fresh
    → (j : ℕ) → fresh ≤ j
    → update nodes id o j ≡ none
unused-update nodes fresh id o unused lt j le =
    let skip : (id == j) ≡ false = ground arith in rw skip (unused j le)

-- A node that is allocated and owned once by each of the two.
pub new_node-Owned :
    (is_timed : Bool) (waker q h : ℕ)
    → q ≡ 1
    → h ≡ 1
    → Owned
        (some (record { counter = if is_timed then timed + 2 else plain + 2; waker = waker }))
        q
        h
new_node-Owned true waker q h eq eh = (omega arith, omega arith, omega arith, inr (omega arith))
new_node-Owned false waker q h eq eh = (omega arith, omega arith, omega arith, inl (omega arith))

pub Owned-allocated :
    (nodes : ℕ → Option Node) (fresh id q h : ℕ)
    → ((j : ℕ) → fresh ≤ j → nodes j ≡ none)
    → Owned (nodes id) q h
    → 0 < q + h
    → id < fresh
Owned-allocated nodes fresh id q h unused owned some_owner = elim (dec_le fresh id) [
  | yes le ↦ let o = rw (unused id le) at owned in absurd (omega arith)
  | no gt ↦ omega arith
]

pub Owned-bounds : (o : Option Node) (q h : ℕ) → Owned o q h → (q ≤ 1) × (h ≤ 1)
Owned-bounds none q h owned = (omega arith, omega arith)
Owned-bounds (some n) q h owned = (owned.0, owned.1)
