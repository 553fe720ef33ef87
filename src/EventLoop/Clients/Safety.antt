-- ===== src/EventLoop/Clients/Safety.antt =====
-- The tasks of src/platform/linux/runtime.c under any order of its callers: none is used after it is
-- freed.
use taskio.Prelude.{
  ℕ, ◌*◌, ◌+◌, ◌<◌, ◌≤◌, ◌≡◌, refl, none, List, [], ◌∷◌, arith, length, word_limit, done,
}
use taskio.EventLoop.{Runtime}
use taskio.EventLoop.Clients.{
  Event, spawns, clones, drops, aborts, wakes, joins, detaches, takes, answers, Clients, happens,
  happen, Inv,
}
use taskio.EventLoop.Clients.Loads.{Kept, load}
use taskio.EventLoop.Clients.Owners.{clones-Kept, drops-Kept}
use taskio.EventLoop.Clients.Calls.{spawns-Kept, aborts-Kept, wakes-Kept}
use taskio.EventLoop.Clients.Joins.{joins-Kept}
use taskio.EventLoop.Clients.Detached.{detaches-Kept}
use taskio.EventLoop.Clients.Takes.{takes-Kept}
use taskio.EventLoop.Clients.Polls.{answers-Kept}

-- Every event keeps the invariant.
pub happens-Kept :
    (event : Event) (c : Clients)
    → Inv c
    → ((id : ℕ) → c.handles id + 2 < word_limit)
    → Kept c 2 (happens event c)
happens-Kept (spawns out) c inv few = spawns-Kept c out inv
happens-Kept detaches c inv few = detaches-Kept c inv (few c.runtime.fresh)
happens-Kept (clones id) c inv few = clones-Kept c id inv (few id)
happens-Kept (drops id) c inv few = drops-Kept c id inv (omega (arith, few id))
happens-Kept (aborts id) c inv few = aborts-Kept c id inv
happens-Kept (wakes id) c inv few = wakes-Kept c id inv
happens-Kept (joins id waker out) c inv few = joins-Kept c id waker out inv
happens-Kept takes c inv few = takes-Kept c inv few
happens-Kept (answers is_main poll) c inv few = answers-Kept is_main poll c inv few

-- A sequence of events, with the handles that it makes at most.
pub happen-Kept :
    (events : List Event) (c : Clients)
    → Inv c
    → ((id : ℕ) → c.handles id + length events + 1 < word_limit)
    → (c' : Clients) × (happen events c ≡ done c')
      × Inv c'
      × ((id : ℕ) → c'.handles id ≤ c.handles id + length events)
      × (load c' ≤ load c + 2 * length events)
unfolding happen
happen-Kept [] c inv few = (c, refl, inv, λ id. omega arith, omega arith)
happen-Kept (event ∷ events) c inv few =
    let (c', e, inv', more, work) = happens-Kept event c inv (λ id. omega (arith, few id)) in
    let (c'', e', inv'', more', work') =
      happen-Kept events c' inv' (λ id. omega (arith, more id, few id)) in
    rw (e, e')
      (c'', refl, inv'', λ id. omega (arith, more id, more' id), omega (arith, work, work'))

-- From a state that satisfies the invariant, any sequence of spawns with a handle and without,
-- clones and drops of handles, aborts, joins, wakes, tasks taken by the worker and answers of
-- polls, fewer than 2^64 with the handles of each task, runs without a fault, when a waker is
-- called only for a task that is suspended or scheduled, and a poll is ready only if its task was
-- not woken or aborted in it and its joiners may be woken: no task is used after it is freed or
-- freed twice. The invariant holds again: the poll queue has the tasks that are scheduled or were
-- aborted in it, each once, and a task is allocated exactly as long as a handle or the worker owns
-- it.
pub happen-Inv :
    (events : List Event) (c : Clients)
    → Inv c
    → ((id : ℕ) → c.handles id + length events + 1 < word_limit)
    → (c' : Clients) × (happen events c ≡ done c') × Inv c'
happen-Inv events c inv few =
    let (c', e, inv', _, _) = happen-Kept events c inv few in (c', e, inv')

-- A runtime without tasks satisfies the invariant.
pub empty-Inv :
    (rt : Runtime)
    → rt.poll_head ≡ none
    → rt.poll_tail ≡ none
    → ((id : ℕ) → rt.tasks id ≡ none)
    → Inv (record { runtime = rt; handles = λ _. 0; running = none })
empty-Inv rt head tail no_tasks = record {
  tasks = [];
  queue = record { chain = head; tail = tail; distinct = tt };
  entries = λ id. rw (no_tasks id) (refl, refl, refl);
  rests = λ id. rw (no_tasks id) tt;
  unused = λ id le. no_tasks id;
}
