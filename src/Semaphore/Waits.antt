-- ===== src/Semaphore/Waits.antt =====
-- The waits of src/sync/semaphore.c, their ends and their clean-ups keep the invariant of the nodes.
use taskio.Prelude.{
  copies, copies-push, copies-same, copies-other, ℕ, ◌+◌, ◌<◌, ◌≡◌, ◌≢◌, refl, inl, inr, Bool, true,
  List, [], ◌∷◌, ◌++◌, arith, ltb, word_limit, u64, u64_dec, Bool-cases, ltb→lt,
}
use taskio.Vec.Contents.{push_last}
use taskio.Semaphore.{wait, wait_cleanup, blocking_wait, blocking_wait_end}
use taskio.Semaphore.Nodes.{
  node_drop-Released, Owned-update, unused-update, new_node-Owned, Owned-allocated, Owned-bounds,
}
use taskio.Semaphore.Clients.{
  polls, cleans_up, blocks, spurious, wakes_up, Clients, happens, Inv, blocked, Kept, has, without,
}

pub polls-Kept :
    (is_timed : Bool) (waker : ℕ) (c : Clients) → Inv c → Kept c (happens (polls is_timed waker) c)
unfolding happens wait push_last
polls-Kept is_timed waker c inv = elim (Bool-cases (ltb 0 c.semaphore.counter)) [
  | inl e ↦ rw e (
    _,
    refl,
    record { owned = inv.owned; unused = inv.unused; threads = inv.threads },
    omega arith,
  )
  | inr e ↦ rw e (
    _,
    refl,
    record {
      owned =
          Owned-update c.semaphore.nodes c.semaphore.queue c.held
            (c.semaphore.queue ++ (c.semaphore.fresh ∷ [])) (c.semaphore.fresh ∷ c.held)
            c.semaphore.fresh _ inv.owned
            (let none_yet =
                rw (inv.unused c.semaphore.fresh (omega arith)) at (inv.owned c.semaphore.fresh) in
              new_node-Owned is_timed waker _ _
                (omega (
                  arith,
                  none_yet.0,
                  copies-same c.semaphore.fresh [],
                  copies-push c.semaphore.fresh c.semaphore.fresh c.semaphore.queue,
                ))
                (omega (arith, none_yet.1, copies-same c.semaphore.fresh c.held)))
            (λ j ne. omega (
              arith,
              copies-push j c.semaphore.fresh c.semaphore.queue,
              copies-other c.semaphore.fresh j [] ne,
            ))
            (λ j ne. copies-other c.semaphore.fresh j c.held ne);
      unused =
          unused-update c.semaphore.nodes (c.semaphore.fresh + 1) c.semaphore.fresh _
            (λ j le. inv.unused j (omega arith)) (omega arith);
      threads = inv.threads;
    },
    omega arith,
  )
]

pub blocks-Kept : (c : Clients) → Inv c → blocked c + 1 < word_limit → Kept c (happens blocks c)
unfolding happens blocking_wait u64
blocks-Kept c inv few = elim (Bool-cases (ltb 0 c.semaphore.counter)) [
  | inl e ↦ rw e (
    _,
    refl,
    record { owned = inv.owned; unused = inv.unused; threads = inv.threads },
    omega arith,
  )
  | inr e ↦ rw e (
    _,
    refl,
    record { owned = inv.owned; unused = inv.unused; threads = omega (arith, inv.threads) },
    omega arith,
  )
]

pub spurious-Kept : (c : Clients) → Inv c → Kept c (happens spurious c)
unfolding happens
spurious-Kept c inv = elim (Bool-cases (ltb 0 c.semaphore.sleeping)) [
  | inl e ↦
      let pos = ltb→lt 0 c.semaphore.sleeping e in
      rw e (
        _,
        refl,
        record { owned = inv.owned; unused = inv.unused; threads = omega (arith, inv.threads) },
        omega arith,
      )
  | inr e ↦ rw e (_, refl, inv, omega arith)
]

pub wakes_up-Kept : (c : Clients) → Inv c → blocked c < word_limit → Kept c (happens wakes_up c)
unfolding happens blocking_wait_end u64 u64_dec
wakes_up-Kept c inv few = elim (Bool-cases (ltb 0 c.semaphore.woken)) [
  | inl e ↦
      let pos = ltb→lt 0 c.semaphore.woken e in
      rw e (
        _,
        refl,
        record { owned = inv.owned; unused = inv.unused; threads = omega (arith, inv.threads) },
        omega arith,
      )
  | inr e ↦ rw e (_, refl, inv, omega arith)
]

pub has-copies : (id : ℕ) (ids : List ℕ) → has id ids ≡ true → 0 < copies id ids
unfolding has
has-copies id [] h = absurd (ground arith)
has-copies id (x ∷ ids) h = ground (arith, has-copies id ids)

copies-without :
    (id : ℕ) (ids : List ℕ) → has id ids ≡ true → copies id (without id ids) + 1 ≡ copies id ids
unfolding has without
copies-without id [] h = absurd (ground arith)
copies-without id (x ∷ ids) h = ground (arith, copies-without id ids)

copies-without_other : (id j : ℕ) (ids : List ℕ) → id ≢ j → copies j (without id ids) ≡ copies j ids
unfolding without
copies-without_other id j [] ne = refl
copies-without_other id j (x ∷ ids) ne = ground (arith, copies-without_other id j ids ne)

pub cleans_up-Kept : (id : ℕ) (c : Clients) → Inv c → Kept c (happens (cleans_up id) c)
unfolding happens wait_cleanup
cleans_up-Kept id c inv = elim (Bool-cases (has id c.held)) [
  | inr e ↦ rw e (c, refl, inv, omega arith)
  | inl e ↦
      let s = c.semaphore in
      let q = copies id s.queue in
      let h = copies id c.held in
      let pos : 0 < q + h = omega (arith, has-copies id c.held e) in
      let bounds = Owned-bounds (s.nodes id) q h (inv.owned id) in
      let (o, dropped, left) = node_drop-Released id s q h (inv.owned id) pos in
      let gone = copies-without id c.held e in
      rw (e, dropped)
        (
          _,
          refl,
          record {
            owned =
                Owned-update s.nodes s.queue c.held s.queue (without id c.held) id o inv.owned
                  (left q (copies id (without id c.held)) (omega arith) bounds.0 (omega arith))
                  (λ j ne. refl) (λ j ne. copies-without_other id j c.held ne);
            unused =
                unused-update s.nodes s.fresh id o inv.unused
                  (Owned-allocated s.nodes s.fresh id q h inv.unused (inv.owned id) pos);
            threads = inv.threads;
          },
          omega arith,
        )
]
