-- ===== src/Semaphore/Queued.antt =====
-- A future that has come into the queue of a semaphore (src/sync/semaphore.c), with its node.
use mathlib.Core.Path.{fun_ext}
use taskio.Prelude.{
  ℕ, ◌+◌, ◌≡◌, ◌∙◌, refl, ap, Bool, true, false, none, some, List, [], ◌∷◌, ◌++◌, arith, ltb, ◌==◌,
  if◌then◌else◌, update, Bool-cases, inl, inr, u64, u64_dec, done,
}
use taskio.Vec.Contents.{push_last}
use taskio.Semaphore.{
  Node, Semaphore, plain, timed, wait, node_drop, node_count, node_is_timed, signal, signal_queue,
  signal_async,
}

-- The flags of a node with both owners.
abbrev pub node_counter : Bool → ℕ
node_counter is_timed = if is_timed then timed + 2 else plain + 2

-- A semaphore with one more future in its queue, by the counter of its node.
unfoldable pub queued : ℕ → ℕ → Semaphore → Semaphore
queued counter waker s = record s {
  nodes = update s.nodes s.fresh (some (record { counter = counter; waker = waker }));
  fresh = s.fresh + 1;
  queue = s.queue ++ (s.fresh ∷ []);
}

pub wait_lem :
    (k : ℕ) (s : Semaphore) (is_timed : Bool)
    → s.counter ≡ 0
    → (wait s is_timed k).1 ≡ queued (node_counter is_timed) k s
unfolding wait queued push_last
wait_lem k s is_timed none_left = let e : ltb 0 s.counter ≡ false = ground arith in rw e refl

update_twice :
    {A : Type 0} (f : ℕ → A) (i : ℕ) (a b : A) (j : ℕ)
    → update (update f i a) i b j ≡ update f i b j
update_twice f i a b j = elim (Bool-cases (i == j)) [ inl e ↦ rw e refl | inr e ↦ rw e refl ]

-- One of the two owners lets go.
pub node_drop-queued :
    (k : ℕ) (s : Semaphore) (is_timed : Bool)
    → node_drop s.fresh true (queued (node_counter is_timed) k s)
      ≡ done (queued (if is_timed then timed + 1 else plain + 1) k s)
unfolding node_drop node_count node_is_timed u64_dec u64 queued
node_drop-queued k s true =
    let hit : (s.fresh == s.fresh) ≡ true = ground arith in
    rw (hit, node_drop)
      (ap (λ nodes. done (record (queued (timed + 2) k s) { nodes = nodes }))
        (fun_ext (update_twice s.nodes s.fresh _ _)))
node_drop-queued k s false =
    let hit : (s.fresh == s.fresh) ≡ true = ground arith in
    rw (hit, node_drop)
      (ap (λ nodes. done (record (queued (plain + 2) k s) { nodes = nodes }))
        (fun_ext (update_twice s.nodes s.fresh _ _)))

-- A signal for the head of the queue, without blocked threads
signal_head :
    (s : Semaphore) (id : ℕ) (next : List ℕ) (n : Node)
    → s.queue ≡ id ∷ next
    → s.blocking_wake_wait ≡ 0
    → s.nodes id ≡ some n
    → signal s ≡ node_drop id true (record s { queue = next; wakes = s.wakes ++ (n.waker ∷ []) })
unfolding signal signal_queue signal_async
signal_head s id next n first nobody e =
    let off : ltb 0 s.blocking_wake_wait ≡ false = ground arith in
    ap (signal_queue s) first ∙ rw (off, signal_async, e) refl

-- A timed wait that was alone in the queue has been called; its future still has the node.
abbrev pub called_alone : ℕ → Semaphore → Semaphore
called_alone waker s = record s {
  nodes =
      update (update s.nodes s.fresh (some (record { counter = timed + 2; waker = waker }))) s.fresh
        (some (record { counter = timed + 1; waker = waker }));
  fresh = s.fresh + 1;
  queue = [];
  wakes = s.wakes ++ (waker ∷ []);
}

node_drop-owned :
    (s : Semaphore) (id waker : ℕ)
    → s.nodes id ≡ some (record { counter = timed + 2; waker = waker })
    → node_drop id true s
      ≡ done (record s {
        nodes = update s.nodes id (some (record { counter = timed + 1; waker = waker }));
      })
unfolding node_drop node_count node_is_timed u64_dec u64
node_drop-owned s id waker e = rw (e, node_drop) refl

pub node_drop-last :
    (s : Semaphore) (id waker : ℕ)
    → s.nodes id ≡ some (record { counter = timed + 1; waker = waker })
    → node_drop id true s ≡ done (record s { nodes = update s.nodes id none })
unfolding node_drop node_count node_is_timed
node_drop-last s id waker e = rw (e, node_drop) refl

pub signal-queued :
    (k : ℕ) (s : Semaphore)
    → s.queue ≡ []
    → s.blocking_wake_wait ≡ 0
    → signal (queued (timed + 2) k s) ≡ done (called_alone k s)
unfolding queued
signal-queued k s alone nobody =
    let hit : (s.fresh == s.fresh) ≡ true = ground arith in
    let node : update s.nodes s.fresh (some (record { counter = timed + 2; waker = k })) s.fresh
        ≡ some (record { counter = timed + 2; waker = k }) =
      rw hit refl in
    let q = queued (timed + 2) k s in
    signal_head q s.fresh [] (record { counter = timed + 2; waker = k })
      (ap (λ xs. xs ++ (s.fresh ∷ [])) alone) nobody node
    ∙ node_drop-owned (record q { queue = []; wakes = s.wakes ++ (k ∷ []) }) s.fresh k node
