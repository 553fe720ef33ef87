-- ===== src/Semaphore/Order.antt =====
-- The order in which the futures of src/sync/semaphore.c get the permits.
use mathlib.Core.List.{append_assoc, append-nil}
use taskio.Prelude.{
  copies, copies-same, copies-none, ℕ, zero, suc, ◌+◌, ◌≤◌, ◌≡◌, ◌≢◌, ◌∙◌, ap, sym, refl, inl, inr,
  false, Option, none, some, List, [], ◌∷◌, ◌++◌, map, arith, length, take, drop, replicate, ◌==◌,
  All, done, both, Option-cases,
}
use taskio.Semaphore.{Node, signal, signal_queue, signal_async}
use taskio.Semaphore.Nodes.{node_drop-Released, Owned-bounds}
use taskio.Semaphore.Clients.{Clients, signals, happens, happen, Inv, blocked}
use taskio.Semaphore.Safety.{happens-Kept}

-- The waker of a node; a node of the queue is allocated.
pub waker_at : (ℕ → Option Node) → ℕ → ℕ
waker_at nodes id = elim (nodes id) [ none ↦ 0 | some n ↦ n.waker ]

waker_at-some :
    (nodes : ℕ → Option Node) (id : ℕ) (n : Node) → nodes id ≡ some n → waker_at nodes id ≡ n.waker
unfolding waker_at
waker_at-some nodes id n e = ap (λ o. elim o [ none ↦ 0 | some m ↦ m.waker ]) e

waker_at-same :
    (new old : ℕ → Option Node) (id : ℕ) → new id ≡ old id → waker_at new id ≡ waker_at old id
unfolding waker_at
waker_at-same new old id e = ap (λ o. elim o [ none ↦ 0 | some m ↦ m.waker ]) e

abbrev Called : Clients → ℕ → List ℕ → Clients → Type 0
Called c id next c' =
    (c'.semaphore.queue ≡ next)
    × (c'.semaphore.wakes ≡ c.semaphore.wakes ++ (waker_at c.semaphore.nodes id ∷ []))
    × ((j : ℕ) → j ≢ id → c'.semaphore.nodes j ≡ c.semaphore.nodes j)
    × (blocked c' ≡ blocked c)

head_Called :
    (c : Clients) (id : ℕ) (next : List ℕ)
    → Inv c
    → blocked c ≡ 0
    → c.semaphore.queue ≡ id ∷ next
    → (c' : Clients) × (happens signals c ≡ done c') × Called c id next c'
unfolding happens signal signal_queue signal_async
head_Called c id next inv none_blocked first =
    let s = c.semaphore in
    let owned = rw first at (inv.owned id) in
    let nobody : s.blocking_wake_wait ≡ 0 = omega (arith, inv.threads) in
    elim (Option-cases (s.nodes id)) [
      | inl e ↦ let o = rw e at owned in absurd (omega (arith, o.0, copies-same id next))
      | inr (n, e) ↦
          let s' = record s { queue = next; wakes = s.wakes ++ (n.waker ∷ []) } in
          let (o, dropped, left) =
            node_drop-Released id s' (copies id (id ∷ next)) (copies id c.held) owned
              (omega (arith, copies-same id next)) in
          rw (waker_at-some s.nodes id n e, first, nobody, signal_async, e, dropped)
            (
              _,
              refl,
              (
                refl,
                refl,
                λ j ne. (let skip : (id == j) ≡ false = ground (arith, ne) in rw skip refl),
                refl,
              ),
            )
    ]

wakers-same :
    (old new : ℕ → Option Node) (id n : ℕ) (ids : List ℕ)
    → ((j : ℕ) → j ≢ id → new j ≡ old j)
    → All (λ j. j ≢ id) ids
    → map (waker_at new) (take n ids) ≡ map (waker_at old) (take n ids)
wakers-same old new id zero ids frame apart = refl
wakers-same old new id (suc n) [] frame apart = refl
wakers-same old new id (suc n) (x ∷ ids) frame apart =
    rw (waker_at-same new old x (frame x apart.0), wakers-same old new id n ids frame apart.1) refl

in_order :
    (n : ℕ) (c : Clients) (queue : List ℕ)
    → c.semaphore.queue ≡ queue
    → Inv c
    → blocked c ≡ 0
    → n ≤ length queue
    → (c' : Clients) × (happen (replicate n signals) c ≡ done c')
      × (c'.semaphore.queue ≡ drop n queue)
      × (c'.semaphore.wakes ≡ c.semaphore.wakes ++ map (waker_at c.semaphore.nodes) (take n queue))
unfolding happen
in_order zero c queue first inv none_blocked enough =
    (c, refl, first, sym (append-nil c.semaphore.wakes))
in_order (suc n) c [] first inv none_blocked enough = absurd (omega arith)
in_order (suc n) c (id ∷ next) first inv none_blocked enough =
    let owned = rw first at (inv.owned id) in
    let once =
      Owned-bounds (c.semaphore.nodes id) (copies id (id ∷ next)) (copies id c.held) owned in
    let kept = happens-Kept signals c inv (omega arith) in
    let (c', run, (inv', _), (queue, wakes, frame, same)) =
      both (λ c'. Inv c' × (blocked c' ≤ blocked c + 1)) (Called c id next) (happens signals c)
        (kept.0, kept.1, (kept.2, kept.3)) (head_Called c id next inv none_blocked first) in
    let apart = copies-none id next (omega (arith, once.0, copies-same id next)) in
    let (c'', more, left, called) =
      in_order n c' next queue inv' (same ∙ none_blocked) (omega arith) in
    let same_wakers = wakers-same c.semaphore.nodes c'.semaphore.nodes id n next frame apart in
    rw (run, more)
      (
        c'',
        refl,
        left,
        called
            ∙ ap (λ (l : List ℕ). l ++ map (waker_at c'.semaphore.nodes) (take n next)) wakes
            ∙ append_assoc c.semaphore.wakes (waker_at c.semaphore.nodes id ∷ [])
                (map (waker_at c'.semaphore.nodes) (take n next))
            ∙ ap (λ (l : List ℕ). c.semaphore.wakes ++ (waker_at c.semaphore.nodes id ∷ l))
                same_wakers,
      )

-- Without blocked threads, as many signals as there are futures in the queue, or fewer, call the
-- wakers of the first of them, in the order in which they came, and take their nodes off the queue.
pub signals-InOrder :
    (n : ℕ) (c : Clients)
    → Inv c
    → blocked c ≡ 0
    → n ≤ length c.semaphore.queue
    → (c' : Clients) × (happen (replicate n signals) c ≡ done c')
      × (c'.semaphore.queue ≡ drop n c.semaphore.queue)
      × (c'.semaphore.wakes
          ≡ c.semaphore.wakes ++ map (waker_at c.semaphore.nodes) (take n c.semaphore.queue))
signals-InOrder n c inv none_blocked enough =
    in_order n c c.semaphore.queue refl inv none_blocked enough
