-- ===== src/EventLoop/Clients/Tests.antt =====
-- The callers of src/platform/linux/runtime.c from a runtime without tasks: runs, and the theorems
-- there.
use taskio.Prelude.{
  ℕ, zero, suc, ◌+◌, ◌≡◌, refl, true, false, Option, none, some, List, [], ◌∷◌, arith, update,
  if◌then◌else◌, u64_dec, Run, done, ◌>>=◌,
}
use taskio.EventLoop.{
  Runtime, scheduled, new_task, spawn, task_add_event_loop, enqueue, link, signal_event, store,
  deref, task_drop, task_wake_wakers, wake_all, after_wake, copy_out,
}
use taskio.EventLoop.Handles.{
  Poll, pending, ready, taskio_spawn, handle_drop, handle_join, add_joiner, take_task, begin_poll,
  end_poll, clean,
}
use taskio.EventLoop.Worker.Entry.{zeroed}
use taskio.EventLoop.Clients.{
  Event, spawns, joins, drops, detaches, takes, answers, Clients, happens, happen, Inv, may_end,
  may_answer, may_wake, may_wake_all, take_one, take_next, answer,
}
use taskio.EventLoop.Clients.Safety.{happen-Inv, empty-Inv}

abbrev start : Clients
start = record { runtime = zeroed; handles = λ _. 0; running = none }

start-Inv : Inv start
start-Inv = empty-Inv zeroed refl refl (λ id. refl)

-- Task 0 joins task 1, which is ready with 7; then task 0 is woken and ready. Task 2 is spawned without
-- a handle.
abbrev story : List Event
story =
    spawns none
    ∷ spawns (some 0)
    ∷ takes
    ∷ joins 1 0 (some 50)
    ∷ answers false pending
    ∷ takes
    ∷ answers false (ready 7)
    ∷ takes
    ∷ answers true (ready 0)
    ∷ drops 0
    ∷ drops 1
    ∷ detaches
    ∷ takes
    ∷ answers false (ready 3)
    ∷ []

ends : Clients → ℕ × Option ℕ × List ℕ × Option ℕ
ends c = (c.runtime.memory 50, c.runtime.poll_head, c.runtime.cleaned, c.running)

story_lem : happen story start >>= (λ c. done (ends c)) ≡ done (7, none, 1 ∷ 0 ∷ 2 ∷ [], none)
unfolding happen happens taskio_spawn ends take_next take_one answer may_answer may_end may_wake
    may_wake_all spawn task_add_event_loop enqueue link signal_event store deref task_drop
    task_wake_wakers wake_all after_wake copy_out handle_drop handle_join add_joiner take_task
    begin_poll end_poll clean u64_dec
story_lem = refl

happen-Inv_example : (c : Clients) × (happen story start ≡ done c) × Inv c
happen-Inv_example = happen-Inv story start start-Inv (λ id. omega arith)

-- A future that is ready as soon as it may be, and counts its polls.
polls_ready : ℕ → Runtime → ℕ → Run (Poll × Runtime × ℕ)
polls_ready id rt polls = done (if may_end id rt then ready 0 else pending, rt, polls + 1)

cleans : ℕ → ℕ → Run ℕ
cleans id polls = done polls

abbrev two_tasks : Clients
two_tasks = record {
  runtime = record zeroed {
    tasks =
        update
          (update (λ _. none) 0
            (some (record (new_task false none) { status = scheduled; next = some 1 })))
          1 (some (record (new_task false (some 0)) { status = scheduled }));
    fresh = 2;
    poll_head = some 0;
    poll_tail = some 1;
    poll_scheduled = true;
    event_fd = 1;
  };
  handles = update (update (λ _. 0) 0 1) 1 1;
  running = none;
}

abbrev ends_of : Clients → Option ℕ × Option ℕ × ℕ
ends_of c = (c.runtime.poll_head, c.runtime.poll_tail, c.runtime.fresh)

spawned_two :
    happen (spawns none ∷ spawns (some 0) ∷ []) start >>= (λ c. done (ends_of c))
    ≡ done (some 0, some 1, 2)
unfolding happen happens spawn task_add_event_loop enqueue link signal_event store deref
spawned_two = refl

abbrev two_tasks-Inv : Inv two_tasks
two_tasks-Inv = record {
  tasks = 0 ∷ 1 ∷ [];
  queue = record {
    chain = (refl, _, refl, (refl, _, refl, refl));
    tail = refl;
    distinct = ((omega arith, tt), (tt, tt));
  };
  entries = λ id. ground arith;
  rests = λ id. ground arith;
  unused = λ id le. ground arith;
}

-- A future that wakes its own task while calls are left, and waits.
polls_again : ℕ → Runtime → ℕ → Run (Poll × Runtime × ℕ)
polls_again id rt zero = done (if may_end id rt then ready 0 else pending, rt, 0)
polls_again id rt (suc left) =
    if may_wake id rt
    then (task_add_event_loop id rt >>= λ rt'. done (pending, rt', left))
    else done (pending, rt, left)
