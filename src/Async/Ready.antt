-- ===== src/Async/Ready.antt =====
-- When an async function (include/taskio/async.h) is ready: one without loops, whose scopes all wait
-- for something, is ready after as many polls as these waits take.
use native.Mathlib.Nat.{mul-suc}
use taskio.Prelude.{
  ℕ, zero, suc, ◌+◌, ◌*◌, ◌<◌, ◌≤◌, ◌≡◌, ◌∙◌, refl, ap, Option, none, some, List, [], ◌∷◌, ◌++◌,
  length, drop, arith, u64, Run, done, map_run-done, ◌>>=◌,
}
use taskio.Async.{
  Answer, undefined, pending, ready, FutureOps, Action, yields, suspends, breaks, falls, awaits,
  returns, Scope, scope, scope_while, AsyncFn, clean, clear_value, new_future, resume, drive,
  unless_ready, store_out,
}
use taskio.Async.Program.{Program, answered, stop, run_one, continue, resumed, go_on}
use taskio.Async.Drive.{seen_all, drive-refines}

module _ {K X C W : Type 0} (child : FutureOps K X C W) where
  abbrev pub Cleans : C → Type 0
  Cleans c = (x : X) → (r : C × X) × (clean child c x ≡ done r)

  abbrev pub next_poll : C → C
  next_poll c = child.set_counter (u64 (child.get_counter c + 1)) c

  abbrev pub Later : (C → Type 0) → Answer W → C → Type 0
  Later Rest (ready w) c = Cleans c
  Later Rest pending c = Rest c
  Later Rest undefined c = Rest c

  -- The future is ready within `n` polls behind the next, in every context, and its clean-up then
  -- does not fault.
  abbrev pub Finishes : ℕ → C → Type 0
  Finishes zero c =
      (k : K) (x : X)
      → (a : Answer W) × (c' : C) × (x' : X) × (child.poll (some k) c x ≡ done (a, c', x'))
        × Later (λ _. ⊥) a c'
  Finishes (suc n) c =
      (k : K) (x : X)
      → (a : Answer W) × (c' : C) × (x' : X) × (child.poll (some k) c x ≡ done (a, c', x'))
        × Later (λ d. Finishes n (next_poll d)) a c'

  module _ (E V : Type 0) where
    -- What an action leaves to do, when `Rest` is of the scopes behind it.
    abbrev pub Waits : ℕ → Type 0 → Action E C W V → Type 0
    Waits n Rest yields = Rest
    Waits n Rest suspends = Rest
    Waits n Rest (returns v) = Unit
    Waits n Rest (awaits c out) = Finishes n (child.set_counter 1 c) × Rest
    Waits n Rest breaks = ⊥
    Waits n Rest falls = ⊥

    -- Every body ends without a fault, in a wait or with the result, the last one with the result.
    abbrev pub Straight : ℕ → List (Scope K X E C W V) → Type 0
    Straight n [] = ⊥
    Straight n (scope_while cond body ∷ ss) = ⊥
    Straight n (scope body ∷ ss) =
        (k : K) (env : E) (x : X)
        → (a : Action E C W V) × (env' : E) × (x' : X) × (body k env x ≡ done (a, env', x'))
          × Waits n (Straight n ss) a

-- The polls end in one that is ready.
abbrev pub EndsReady : {S X V : Type 0} → Run (List (Answer V) × S × X) → Type 0
EndsReady {S = S} {X = X} {V = V} run =
    (before : List (Answer V)) × (v : V) × (s : S) × (x : X) × (run
      ≡ done (before ++ (ready v ∷ []), s, x))

EndsReady-cons :
    {S X V : Type 0} (a : Answer V) (run : Run (List (Answer V) × S × X))
    → EndsReady run
    → EndsReady (run >>= λ (t : List (Answer V) × S × X). done (a ∷ t.0, t.1, t.2))
EndsReady-cons a run (before, v, s, x, e) = (a ∷ before, v, s, x, rw e refl)

-- As many polls as the scopes take.
abbrev pub polls_of : {A : Type 0} → ℕ → List A → ℕ
polls_of n [] = 0
polls_of n (s ∷ ss) = suc n + polls_of n ss

polls_of_lem : {A : Type 0} (n : ℕ) (ss : List A) → polls_of n ss ≡ suc n * length ss
polls_of_lem n [] = omega arith
polls_of_lem n (s ∷ ss) = omega (arith, polls_of_lem n ss, mul-suc (suc n) (length ss))

module _ {K X E C W V : Type 0} (wake : K → X → X) (child : FutureOps K X C W) (n : ℕ) where
  abbrev at_scopes :
      List (Scope K X E C W V) → Option C → Option (W → E → E) → E → Program K X E C W V
  at_scopes ss awaited out env = record { rest = ss; awaited = awaited; out = out; env = env }

  abbrev ReadyFrom : List (Scope K X E C W V) → Type 0
  ReadyFrom ss =
      (ks : List K) (out : Option (W → E → E)) (env : E) (x : X)
      → polls_of n ss ≤ length ks
      → EndsReady (drive (go_on wake child) ks (at_scopes ss none out env) x)

  WaitingAt : List (Scope K X E C W V) → ℕ → Type 0
  WaitingAt ss m =
      (c : C) (ks : List K) (out : Option (W → E → E)) (env : E) (x : X)
      → Finishes child m (next_poll child c)
      → polls_of n ss + m ≤ length ks
      → EndsReady (drive (go_on wake child) ks (at_scopes ss (some c) out env) x)

  -- The poll in which a child is ready is a poll of the scopes behind it.
  answer_lem :
      (ss : List (Scope K X E C W V)) (k : K) (ks : List K) (out : Option (W → E → E)) (env : E)
      (a : Answer W) (c : C) (x : X) (Rest : C → Type 0)
      → ReadyFrom ss
      → polls_of n ss ≤ length (k ∷ ks)
      → Later child Rest a c
      → (Rest c → EndsReady (drive (go_on wake child) ks (at_scopes ss (some c) out env) x))
      → (d : C)
      → EndsReady (
          resumed wake child k a c (at_scopes ss (some d) out env) x >>= λ r.
          unless_ready
            (r.0)
            (r.1)
            (r.2)
            (drive (go_on wake child) ks (r.1) (r.2) >>= λ t. done (r.0 ∷ t.0, t.1, t.2)))
  unfolding drive go_on resumed
  answer_lem ss k ks out env (ready w) c x Rest go enough cleans later d =
      let ((c', x'), e) = cleans x in rw e (go (k ∷ ks) none (store_out out w env) x' enough)
  answer_lem ss k ks out env pending c x Rest go enough rest later d =
      EndsReady-cons pending _ (later rest)
  answer_lem ss k ks out env undefined c x Rest go enough rest later d =
      EndsReady-cons pending _ (later rest)

  waiting_lem :
      (ss : List (Scope K X E C W V)) (m : ℕ) → ReadyFrom ss → 0 < polls_of n ss → WaitingAt ss m
  unfolding WaitingAt drive go_on
  waiting_lem ss zero go pos c [] out env x finishes enough = absurd (omega arith)
  waiting_lem ss (suc m) go pos c [] out env x finishes enough = absurd (omega arith)
  waiting_lem ss zero go pos c (k ∷ ks) out env x finishes enough =
      let (a, c', x', e, later) = finishes k x in
      rw e
        (answer_lem ss k ks out env a c' x' (λ _. ⊥) go (omega arith) later (λ none. absurd none) c)
  waiting_lem ss (suc m) go pos c (k ∷ ks) out env x finishes enough =
      let (a, c', x', e, later) = finishes k x in
      rw e (
        answer_lem ss k ks out env a c' x' (λ d. Finishes child m (next_poll child d)) go
          (omega arith) later (λ rest. waiting_lem ss m go pos c' ks out env x' rest (omega arith))
          c)

  first_lem :
      (ss : List (Scope K X E C W V)) (k : K) (ks : List K) (out : Option (W → E → E)) (env : E)
      (a : Answer W) (c : C) (x : X) (Rest : C → Type 0)
      → ReadyFrom ss
      → polls_of n ss ≤ length ks
      → Later child Rest a c
      → (Rest c → EndsReady (drive (go_on wake child) ks (at_scopes ss (some c) out env) x))
      → EndsReady (
          answered wake child k a c (at_scopes ss none out env) x >>= λ r.
          unless_ready
            (r.0)
            (r.1)
            (r.2)
            (drive (go_on wake child) ks (r.1) (r.2) >>= λ t. done (r.0 ∷ t.0, t.1, t.2)))
  unfolding answered
  first_lem ss k ks out env (ready w) c x Rest go enough cleans later =
      let ((c', x'), e) = cleans x in
      rw e (EndsReady-cons pending _ (go ks none (store_out out w env) (wake k x') enough))
  first_lem ss k ks out env pending c x Rest go enough rest later =
      EndsReady-cons pending _ (later rest)
  first_lem ss k ks out env undefined c x Rest go enough rest later =
      EndsReady-cons pending _ (later rest)

  first_poll :
      (m : ℕ) (ss : List (Scope K X E C W V)) (k : K) (ks : List K) (c : C)
      (out : Option (W → E → E)) (env : E) (x : X)
      → ReadyFrom ss
      → 0 < polls_of n ss
      → polls_of n ss + m ≤ length ks
      → Finishes child m c
      → EndsReady (
          (child.poll (some k) c x >>= λ (r : Answer W × C × X).
          answered wake child k (r.0) (r.1) (at_scopes ss none out env) (r.2))
          >>= λ r.
              unless_ready
                (r.0)
                (r.1)
                (r.2)
                (drive (go_on wake child) ks (r.1) (r.2) >>= λ t. done (r.0 ∷ t.0, t.1, t.2)))
  unfolding WaitingAt
  first_poll zero ss k ks c out env x go pos enough finishes =
      let (a, c', x', e, later) = finishes k x in
      rw e (first_lem ss k ks out env a c' x' (λ _. ⊥) go (omega arith) later (λ none. absurd none))
  first_poll (suc m) ss k ks c out env x go pos enough finishes =
      let (a, c', x', e, later) = finishes k x in
      rw e (
        first_lem ss k ks out env a c' x' (λ d. Finishes child m (next_poll child d)) go
          (omega arith) later (λ rest. waiting_lem ss m go pos c' ks out env x' rest (omega arith)))

  -- The poll of a body that ends with an action.
  act_lem :
      (ss after : List (Scope K X E C W V)) (k : K) (ks : List K) (a : Action E C W V)
      (out : Option (W → E → E)) (env : E) (x : X)
      → (Straight child E V n ss → ReadyFrom ss)
      → (Straight child E V n ss → 0 < polls_of n ss)
      → polls_of n ss + n ≤ length ks
      → Waits child E V n (Straight child E V n ss) a
      → EndsReady (
          stop wake child k (at_scopes ss none out env) after a x >>= λ r.
          unless_ready
            (r.0)
            (r.1)
            (r.2)
            (drive (go_on wake child) ks (r.1) (r.2) >>= λ t. done (r.0 ∷ t.0, t.1, t.2)))
  unfolding stop
  act_lem ss after k ks yields out env x go pos enough rest =
      EndsReady-cons pending _ (go rest ks out env (wake k x) (omega arith))
  act_lem ss after k ks suspends out env x go pos enough rest =
      EndsReady-cons pending _ (go rest ks out env x (omega arith))
  act_lem ss after k ks (returns v) out env x go pos enough rest = ([], v, _, x, refl)
  act_lem ss after k ks (awaits c out') out env x go pos enough (finishes, rest) =
      first_poll n ss k ks (child.set_counter 1 c) out' env x (go rest) (pos rest) enough finishes
  act_lem ss after k ks breaks out env x go pos enough rest = absurd rest
  act_lem ss after k ks falls out env x go pos enough rest = absurd rest

  polls_of-pos : (ss : List (Scope K X E C W V)) → Straight child E V n ss → 0 < polls_of n ss
  polls_of-pos [] straight = absurd straight
  polls_of-pos (s ∷ ss) straight = omega arith

  ready_lem : (ss : List (Scope K X E C W V)) → Straight child E V n ss → ReadyFrom ss
  unfolding drive go_on continue run_one
  ready_lem [] straight ks out env x enough = absurd straight
  ready_lem (scope_while cond body ∷ ss) straight ks out env x enough = absurd straight
  ready_lem (scope body ∷ ss) straight [] out env x enough = absurd (omega arith)
  ready_lem (scope body ∷ ss) straight (k ∷ ks) out env x enough =
      let (a, env', x', e, waits) = straight k env x in
      rw e (
        act_lem ss (drop 1 ss) k ks a out env' x' (ready_lem ss) (polls_of-pos ss) (omega arith)
          waits)

  -- An async function of scopes without a condition (no async_scope_while), whose bodies fault
  -- nowhere and end in a wait or in the result, not in async_break or at their end, the last in the
  -- result, and where the polls of the futures that are awaited fault nowhere, each is ready within
  -- `n` polls behind its first, and their clean-ups do not fault, is ready after `n + 1` polls for
  -- each scope, or fewer, in all contexts, and faults nowhere, when the polls and twice the scopes
  -- stay four below the counter of a clean-up.
  pub drive-EndsReady :
      (fn : AsyncFn K X E C W V) (ks : List K) (env : E) (x : X)
      → Straight child E V n fn.scopes
      → suc n * length fn.scopes ≤ length ks
      → 2 * length fn.scopes + 4 + length ks < clear_value
      → EndsReady (drive (resume wake child fn) ks (new_future env) x)
  drive-EndsReady fn ks env x straight enough fits =
      let (before, v, p, x', run) =
        ready_lem fn.scopes straight ks none env x (omega (arith, polls_of_lem n fn.scopes)) in
      let ((answers, f, x''), ran, same) =
        map_run-done (seen_all wake child fn) (drive (resume wake child fn) ks (new_future env) x) _
          (drive-refines wake child fn ks env x fits ∙ run) in
      let all : answers ≡ before ++ (ready v ∷ []) =
        ap (λ (r : List (Answer V) × Program K X E C W V × X). r.0) same in
      (before, v, f, x'', ran ∙ ap (λ l. done (l, f, x'')) all)
