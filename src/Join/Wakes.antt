-- ===== src/Join/Wakes.antt =====
-- _join_wake of src/common/join_ext.c, which puts a task into the poll list without asking whether it
-- is there.
use taskio.Prelude.{
  ℕ, suc, ◌≡◌, refl, true, none, some, arith, ◌==◌, Run, done, fault, null_pointer,
}
use taskio.Async.{Answer, ready}
use taskio.Join.{JoinEnv, join_wake, set_next, join_poll, poll_all, settle, clean_ready}

-- Futures that do nothing but answer
abbrev pub answering :
    {X : Type 0} → (ℕ → Answer ℕ) → ℕ → JoinEnv → X → Run (Answer ℕ × JoinEnv × X)
answering answers i env x = done (answers i, env, x)

abbrev pub quiet_clean : {X : Type 0} → ℕ → X → Run X
quiet_clean i x = done x

woken_twice :
    (i : ℕ) (env : JoinEnv)
    → env.poll_tail ≡ none
    → ((join_wake i (join_wake i env)).poll_head ≡ some i)
      × (((join_wake i (join_wake i env)).tasks i).next ≡ some i)
      × (((join_wake i (join_wake i env)).tasks i).present ≡ (env.tasks i).present)
unfolding join_wake set_next
woken_twice i env none_listed =
    let hit : (i == i) ≡ true = ground arith in rw (none_listed, hit) (refl, refl, refl)

-- A task that is woken twice before the next poll follows itself in the poll list: if its future is
-- then ready, the poll accesses the future again, which is NULL.
pub join_wake-twice :
    {X : Type 0} (answers : ℕ → Answer ℕ) (fuel random i value : ℕ) (env : JoinEnv) (x : X)
    → env.poll_tail ≡ none
    → (env.tasks i).present ≡ true
    → answers i ≡ ready value
    → join_poll
        (answering answers)
        quiet_clean
        (suc (suc fuel))
        random
        (join_wake i (join_wake i env))
        x
      ≡ fault null_pointer
unfolding join_poll poll_all settle clean_ready
join_wake-twice answers fuel random i value env x none_listed here is_ready =
    let (head, next, present) = woken_twice i env none_listed in
    let hit : (i == i) ≡ true = ground arith in rw (head, present, here, next, is_ready, hit) refl
