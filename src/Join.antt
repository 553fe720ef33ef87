-- ===== src/Join.antt =====
-- src/common/join_ext.c with its two users, src/common/join.c and src/common/select.c: several
-- futures polled as one. A future is known by its index in the array of tasks; what its polls and its
-- clean-up do to the world X is a parameter, and so is the value of rand().
pub mod Round
pub mod First
pub mod Cleanup
pub mod Wakes
pub mod Arrays
pub mod Future
mod Tests
use taskio.Prelude.{
  ℕ, zero, suc, ◌+◌, ◌-◌, ◌%◌, Bool, true, false, Option, none, some, List, [], ◌∷◌, ◌++◌, length,
  get_elem?, ltb, ◌==◌, ◌&&◌, if◌then◌else◌, update, Run, done, fault, null_pointer, out_of_fuel,
  ◌>>=◌,
}
use taskio.Async.{Answer, undefined, pending, ready}

-- struct taskio_join_task: whether `future` is not NULL, and `next`.
pub record JoinTask : Type 0 where
  pub present : Bool
  pub next : Option ℕ

-- struct taskio_join_ext_env with struct taskio_select_env: `selects` where the handlers are those of
-- a select, `selected` its nodes from `head` to `tail`; `wakes` counts the calls of `waker`.
pub record JoinEnv : Type 0 where
  pub len : ℕ
  pub completed_len : ℕ
  pub tasks : ℕ → JoinTask
  pub poll_head : Option ℕ
  pub poll_tail : Option ℕ
  pub selects : Bool
  pub biased : Bool
  pub selected : List ℕ
  pub wakes : ℕ

-- taskio_join and taskio_select, with taskio_join_ext
unfoldable pub join_env : Bool → Bool → ℕ → JoinEnv
join_env selects biased len = record {
  len = len;
  completed_len = 0;
  tasks = λ i. record { present = true; next = if ltb (i + 1) len then some (i + 1) else none };
  poll_head = if ltb 0 len then some 0 else none;
  poll_tail = if ltb 0 len then some (len - 1) else none;
  selects = selects;
  biased = biased;
  selected = [];
  wakes = 0;
}

unfoldable pub set_next : ℕ → Option ℕ → JoinEnv → JoinEnv
set_next i next env = record env {
  tasks = update env.tasks i (record (env.tasks i) { next = next });
}

-- _join_wake
unfoldable pub join_wake : ℕ → JoinEnv → JoinEnv
unfolding set_next
join_wake i env =
    let cut = set_next i none env in
    let linked : JoinEnv = elim cut.poll_tail [
      | some t ↦ set_next t (some i) cut
      | none ↦ record cut { poll_head = some i }
    ] in
    record linked { poll_tail = some i; wakes = linked.wakes + 1 }

-- _on_ready of select.c
unfoldable pub on_ready : ℕ → JoinEnv → JoinEnv
on_ready i env = if env.selects then record env { selected = env.selected ++ (i ∷ []) } else env

-- The switch on what a poll of the future left.
unfoldable pub settle : {V : Type 0} → ℕ → Answer V → JoinEnv → JoinEnv
unfolding on_ready
settle i undefined env = env
settle i pending env = env
settle i (ready _) env =
    let noted = on_ready i env in
    record noted {
      completed_len = noted.completed_len + 1;
      tasks = update noted.tasks i (record (noted.tasks i) { present = false });
    }

-- _on_finish of select.c; the skipped nodes are as many as the remainder of rand().
unfoldable pub on_finish : ℕ → JoinEnv → Option ℕ
on_finish random env =
    if env.biased
    then get_elem? env.selected 0
    else get_elem? env.selected (random % length env.selected)

-- What a poll of the joined future leaves; a join is ready without a value.
pub data Joined : Type 0 where
  joined : Joined
  selected_index : ℕ → Joined
  waits : Joined

unfoldable pub outcome : ℕ → JoinEnv → Joined
unfolding on_finish
outcome random env =
    let complete = if env.len == env.completed_len then joined else waits in
    if env.selects
    then elim (on_finish random env) [ none ↦ complete | some i ↦ selected_index i ]
    else complete

-- The clean-up of a future that is ready, as the world has it.
unfoldable pub clean_ready : {V X : Type 0} → (ℕ → X → Run X) → ℕ → Answer V → X → Run X
clean_ready clean i undefined x = done x
clean_ready clean i pending x = done x
clean_ready clean i (ready _) x = clean i x

module _ {V X : Type 0} (poll : ℕ → JoinEnv → X → Run (Answer V × JoinEnv × X))
    (clean : ℕ → X → Run X) where
  -- The loop over the tasks to poll, with fuel for them; a task whose future is NULL is accessed.
  unfoldable pub poll_all : ℕ → Option ℕ → JoinEnv → X → Run (JoinEnv × X)
  unfolding clean_ready
  poll_all zero o env x = fault out_of_fuel
  poll_all (suc fuel) o env x = elim o [
    | none ↦ done (env, x)
    | some i ↦
        if (env.tasks i).present
        then (poll i env x >>= λ (r : Answer V × JoinEnv × X).
            clean_ready clean i (r.0) (r.2) >>= λ (x' : X).
            poll_all fuel ((env.tasks i).next) (settle i (r.0) (r.1)) x')
        else fault null_pointer
  ]

  -- taskio_join_ext, one poll
  unfoldable pub join_poll : ℕ → ℕ → JoinEnv → X → Run (Joined × JoinEnv × X)
  join_poll fuel random env x =
      poll_all fuel env.poll_head (record env { poll_head = none; poll_tail = none }) x
      >>= λ (r : JoinEnv × X). done (outcome random (r.0), r.0, r.1)

module _ {X : Type 0} (clean : ℕ → X → Run X) where
  -- taskio_join_ext, the loop of the cleanup: `n` tasks from `i` on
  unfoldable pub cleanup_from : ℕ → ℕ → ℕ → JoinEnv → X → Run (JoinEnv × X)
  cleanup_from zero i pending_len env x = done (env, x)
  cleanup_from (suc n) i pending_len env x =
      let skipped = cleanup_from n (i + 1) pending_len env x in
      let one = clean i x >>= λ (x' : X). cleanup_from n (i + 1) (pending_len - 1) env x' in
      if ltb 0 pending_len then (if (env.tasks i).present then one else skipped) else done (env, x)

  -- taskio_join_ext, the cleanup, with _on_cleanup of select.c
  unfoldable pub cleanup : JoinEnv → X → Run (JoinEnv × X)
  unfolding cleanup_from
  cleanup env x =
      cleanup_from env.len 0 (env.len - env.completed_len) (record env { selected = [] }) x
