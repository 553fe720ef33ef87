-- ===== src/EventLoop/Clients/Turns.antt =====
-- One round of the inner loop of worker_run in src/platform/linux/runtime.c, with futures that call
-- what the callers of a runtime may call.
use taskio.Prelude.{
  ℕ, ◌+◌, ◌*◌, ◌<◌, ◌≤◌, ◌≡◌, ◌∙◌, refl, sym, ap, subst, Bool, true, false, Option, none, some,
  List, arith, length, word_limit, ◌==◌, Run, done, done-injective, fault, ◌>>=◌, bind_ext,
  bind_assoc,
}
use taskio.EventLoop.{Status, suspended, scheduled, aborted, finished, Runtime, deref, task_drop}
use taskio.EventLoop.Handles.{Poll, ready, take_task, begin_poll, clean, end_poll, run_task}
use taskio.EventLoop.Clients.{Event, Clients, Inv, happen, answer, may_answer, take_one}
use taskio.EventLoop.Clients.Entries.{in_runtime-done}
use taskio.EventLoop.Clients.Loads.{load}
use taskio.EventLoop.Clients.Takes.{took}
use taskio.EventLoop.Clients.Polls.{answer-Kept}
use taskio.EventLoop.Clients.Safety.{happen-Kept}

abbrev taken : Option ℕ → Runtime → Run (Option ℕ × Runtime)
taken r rt = done (r, rt)

module _ {X : Type 0} (poll : ℕ → Runtime → X → Run (Poll × Runtime × X))
    (clean_up : ℕ → X → Run X) where
  -- A poll takes the world from `x` to `x'` by calls of those that the callers may make, so many that
  -- `Spends` relates their number to both, and gives an answer that is allowed; a clean-up does not
  -- fault.
  pub record Behaves (Spends : X → ℕ → X → Type 0) : Type 0 where
    pub polls :
        (id : ℕ) (x : X) (c : Clients)
        → Inv c
        → c.running ≡ some id
        → (events : List Event) × (answered : Poll) × (c' : Clients) × (x' : X) × Spends x
            (length events)
            x'
          × (happen events c ≡ done c')
          × (c'.running ≡ some id)
          × (poll id c.runtime x ≡ done (answered, c'.runtime, x'))
          × (may_answer answered id c'.runtime ≡ true)
    pub cleans : (id : ℕ) (x : X) → (x' : X) × (clean_up id x ≡ done x') × Spends x 0 x'

  module _ (main : Option ℕ) (id : ℕ) (x x' : X) (cleaned : clean_up id x ≡ done x') where
    is_main : ℕ → Bool
    is_main i = elim main [ none ↦ false | some m ↦ m == i ]

    -- What run_task does behind take_one.
    after_poll : ℕ → Poll × Runtime × X → Run (Bool × Runtime × X)
    after_poll i polled = end_poll (is_main i) i (polled.0) (polled.1) >>= λ ended.
        done (elim (polled.0) [ ready _ ↦ is_main i | _ ↦ false ], ended, polled.2)

    after_take : Option ℕ × Runtime → Run (Bool × Runtime × X)
    after_take (none, rt) = done (is_main id, rt, x')
    after_take (some i, rt) = poll i rt x >>= after_poll i

    drops_next :
        (run : Run Runtime)
        → run >>= (λ rt. done (is_main id, rt, x')) ≡ (run >>= λ rt. taken none rt) >>= after_take
    unfolding after_take
    drops_next (done rt) = refl
    drops_next (fault e) = refl

    polls_next :
        (run : Run Runtime)
        → run >>= (λ rt. poll id rt x >>= after_poll id)
          ≡ (run >>= λ rt. taken (some id) rt) >>= after_take
    unfolding after_take
    polls_next (done rt) = refl
    polls_next (fault e) = refl

    -- The branch of run_task that the status of a task takes.
    by_status :
        (s : Status) (rt : Runtime)
        → elim s as (λ _. Run (Bool × Runtime × X)) [
          | aborted ↦ clean_up id x >>= λ x''.
              task_drop id (clean id rt) >>= λ rt'. done (is_main id, rt', x'')
          | _ ↦ begin_poll id rt >>= λ rt'. poll id rt' x >>= after_poll id
        ]
          ≡ elim s as (λ _. Run (Option ℕ × Runtime)) [
            | aborted ↦ task_drop id (clean id rt) >>= λ rt'. done (none, rt')
            | _ ↦ begin_poll id rt >>= λ rt'. done (some id, rt')
          ]
            >>= after_take
    by_status suspended rt = polls_next (begin_poll id rt)
    by_status scheduled rt = polls_next (begin_poll id rt)
    by_status aborted rt = rw cleaned (drops_next (task_drop id (clean id rt)))
    by_status finished rt = polls_next (begin_poll id rt)

    run_task-take :
        (rt : Runtime) → run_task poll clean_up main id rt x ≡ take_one id rt >>= after_take
    unfolding run_task take_one is_main after_poll
    run_task-take rt =
        bind_ext (take_task rt id) _ _ (λ rt'.
          bind_ext (deref rt' id) _ _ (λ task. by_status task.status rt')
          ∙ sym (bind_assoc (deref rt' id) _ _))
        ∙ sym (bind_assoc (take_task rt id) _ _)

-- The end of a poll with an answer that is allowed.
answered_lem :
    (c : Clients) (id : ℕ) (main : Bool) (poll : Poll)
    → Inv c
    → c.running ≡ some id
    → may_answer poll id c.runtime ≡ true
    → ((j : ℕ) → c.handles j + 2 < word_limit)
    → (rt : Runtime) × (end_poll main id poll c.runtime ≡ done rt)
      × Inv (record c { runtime = rt; running = none })
      × (load (record c { runtime = rt; running = none }) ≤ load c)
unfolding answer
answered_lem c id main poll inv busy may few =
    let (c', run, inv', _, work) = answer-Kept (some id) main poll c busy inv few in
    let run' = rw may at run in
    let (rt, ended, same) =
      in_runtime-done (record c { running = none }) c' (end_poll main id poll c.runtime) run' in
    let less : load c' ≤ load c = omega (arith, work) in
    (rt, ended, subst Inv (sym same) inv', subst (λ s. load s ≤ load c) (sym same) less)

module _ {X : Type 0} (poll : ℕ → Runtime → X → Run (Poll × Runtime × X)) (clean_up : ℕ → X → Run X)
    (main : Option ℕ) (Spends : X → ℕ → X → Type 0) (b : Behaves poll clean_up Spends) where
  -- A round without a fault: the invariant holds again, no task is polled, and there is one poll less
  -- to do, but for those that the calls add.
  pub record Turn (handles : ℕ → ℕ) (w : ℕ) (x : X) (run : Run (Bool × Runtime × X)) : Type 0 where
    pub ending : Bool
    pub after : Clients
    pub world : X
    pub calls : ℕ
    pub ran : run ≡ done (ending, after.runtime, world)
    pub inv : Inv after
    pub idle : after.running ≡ none
    pub spent : Spends x calls world
    pub more : (j : ℕ) → after.handles j ≤ handles j + calls
    pub work : load after + 1 ≤ w + 2 * calls

  -- Fewer handles than the counters hold, whatever a poll does
  abbrev pub Few : Clients → X → Type 0
  Few c x = (n : ℕ) (x' : X) → Spends x n x' → (j : ℕ) → c.handles j + n + 2 < word_limit

  taken-Turn :
      (id i w : ℕ) (x x' : X) (cleaned : clean_up id x ≡ done x') (c : Clients)
      → Inv c
      → c.running ≡ some i
      → load c + 1 ≤ w
      → Few c x
      → Turn c.handles w x (after_take poll clean_up main id x x' cleaned (some i, c.runtime))
  unfolding after_take after_poll
  taken-Turn id i w x x' cleaned c inv busy less few =
      let (events, answered, c', x'', spent, ran, busy', polled, may) = b.polls i x c inv busy in
      let few' = few (length events) x'' spent in
      let (c'', ran', inv'', more, work) = happen-Kept events c inv (λ j. omega (arith, few' j)) in
      let same = done-injective c'' c' (sym ran' ∙ ran) in
      let inv' = subst Inv same inv'' in
      let more' : (j : ℕ) → c'.handles j ≤ c.handles j + length events =
        λ j. omega (arith, ap (λ (s : Clients). s.handles j) same, more j) in
      let (rt, ended, inv3, work') =
        answered_lem c' i (is_main poll clean_up main id x x' cleaned i) answered inv' busy' may
          (λ j. omega (arith, more' j, few' j)) in
      record {
        ending = elim answered [
          | ready _ ↦ is_main poll clean_up main id x x' cleaned i
          | _ ↦ false
        ];
        after = record c' { runtime = rt; running = none };
        world = x'';
        calls = length events;
        ran = rw (polled, ended) refl;
        inv = inv3;
        idle = refl;
        spent = spent;
        more = more';
        work = omega (arith, ap load same, work, work', less);
      }

  -- A round of the loop.
  pub run_task-Turn :
      (c : Clients) (id : ℕ) (x : X)
      → Inv c
      → c.running ≡ none
      → c.runtime.poll_head ≡ some id
      → Few c x
      → Turn c.handles (load c) x (run_task poll clean_up main id c.runtime x)
  unfolding after_take
  run_task-Turn c id x inv idle head few =
      let (x', cleaned, spent) = b.cleans id x in
      let (r, rt, took_it, inv', less) =
        took c id inv head idle (omega (arith, few 0 x' spent id)) in
      rw (run_task-take poll clean_up main id x x' cleaned c.runtime, took_it)
        (elim r
            as (λ r.
              Inv (record c { runtime = rt; running = r })
              → Turn c.handles (load c) x (after_take poll clean_up main id x x' cleaned (r, rt))) [
                | none ↦ λ inv1. record {
                  ending = is_main poll clean_up main id x x' cleaned id;
                  after = record c { runtime = rt; running = none };
                  world = x';
                  calls = 0;
                  ran = refl;
                  inv = inv1;
                  idle = refl;
                  spent = spent;
                  more = λ j. omega arith;
                  work = omega (arith, less);
                }
                | some i ↦ λ inv1.
                    taken-Turn id i (load c) x x' cleaned
                      (record c { runtime = rt; running = some i }) inv1 refl less few
              ]
          inv')
