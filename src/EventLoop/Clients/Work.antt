-- ===== src/EventLoop/Clients/Work.antt =====
-- The work that is left in src/platform/linux/runtime.c, in terms of its poll queue.
use taskio.Prelude.{
  ℕ, ◌+◌, ◌≤◌, ◌<◌, ◌≡◌, ◌∙◌, refl, sym, ap, Option, none, some, List, [], ◌∷◌, arith, length,
  dec_lt, copies, copies-same, copies-other, copies-more, sum_below, sum_below-eq, sum_below-zero,
  sum_below-change, sum_below-add,
}
use taskio.EventLoop.{Status, suspended, scheduled, aborted, finished, Task}
use taskio.EventLoop.Clients.{Clients, Inv, Entry, Placed, owner, unlinked, polled}
use taskio.EventLoop.Clients.Loads.{queued, to_do, to_do-unlinked, joiners, load}

abbrev pub waiting : Option Task → ℕ
waiting none = 0
waiting (some t) = joiners t.wake_on_ready

abbrev pub all_joiners : Clients → ℕ
all_joiners c = sum_below c.runtime.fresh (λ id. waiting (c.runtime.tasks id))

-- The lengths of lists of numbers below `n`
sum_below-copies :
    (n : ℕ) (xs : List ℕ)
    → ((id : ℕ) → n ≤ id → copies id xs ≡ 0)
    → sum_below n (λ id. copies id xs) ≡ length xs
sum_below-copies n [] out = sum_below-zero n (λ id. copies id []) (λ k lt. refl)
sum_below-copies n (x ∷ xs) out =
    let lt : x < n = elim (dec_lt x n) [
      | yes lt ↦ lt
      | no ge ↦ absurd (omega (arith, out x (omega arith), copies-same x xs))
    ] in
    let change =
      sum_below-change n (λ id. copies id xs) (λ id. copies id (x ∷ xs)) x
        (λ k _ ne. copies-other x k xs ne) lt in
    let rest = sum_below-copies n xs (λ id le. omega (arith, out id le, copies-more id x xs)) in
    omega (arith, change, rest, copies-same x xs)

queued_lem :
    (s : Status) (counter h q : ℕ) → counter ≡ h + owner s q → Placed s q → queued s counter h ≡ q
queued_lem suspended counter h q e p = sym p
queued_lem scheduled counter h q e p = sym p
queued_lem aborted counter h q e p = omega arith
queued_lem finished counter h q e p = sym p

to_do_lem : (o : Option Task) (h q r : ℕ) → Entry o h q r → to_do h o ≡ q + waiting o
to_do_lem none h q r entry = omega (arith, entry.1)
to_do_lem (some t) h q r entry =
    omega (arith, queued_lem t.status t.counter h q (entry.0) (entry.2))

waiting-unlinked : (o : Option Task) → waiting (unlinked o) ≡ waiting o
waiting-unlinked none = refl
waiting-unlinked (some t) = refl

-- The work that is left is the tasks in the queue and the joiners of all tasks.
pub load_lem : (c : Clients) (inv : Inv c) → load c ≡ length inv.tasks + all_joiners c
load_lem c inv =
    let each : (id : ℕ)
        → to_do (c.handles id) (c.runtime.tasks id)
          ≡ copies id inv.tasks + waiting (c.runtime.tasks id) =
      λ id.
        sym (to_do-unlinked (c.handles id) (c.runtime.tasks id))
        ∙ to_do_lem (unlinked (c.runtime.tasks id)) (c.handles id) (copies id inv.tasks)
            (polled c.running id) (inv.entries id)
        ∙ ap (λ n. copies id inv.tasks + n) (waiting-unlinked (c.runtime.tasks id)) in
    sum_below-eq c.runtime.fresh _ _ (λ id _. each id)
    ∙ sum_below-add c.runtime.fresh (λ id. copies id inv.tasks) (λ id. waiting (c.runtime.tasks id))
    ∙ ap (λ n. n + all_joiners c)
        (sum_below-copies c.runtime.fresh inv.tasks
          (λ id le. let entry = rw (inv.unused id le) at (inv.entries id) in entry.1))
