-- ===== src/Mutex/Tests.antt =====
-- The mutex of src/sync/mutex.c with concrete users.
use taskio.Prelude.{
  ℕ, ◌+◌, ◌≤◌, ◌≡◌, refl, false, List, [], ◌∷◌, arith, length, Run, done, ◌>>=◌, u64, u64_dec,
}
use taskio.Vec.Contents.{push_last}
use taskio.Semaphore
use taskio.Semaphore.{
  Semaphore, wait, wait_cleanup, blocking_wait, blocking_wait_end, signal, signal_queue,
  signal_async, signal_sync, node_drop, node_count, node_is_timed, getvalue,
}
use taskio.Semaphore.Clients.{happens, has, without}
use taskio.Mutex.{
  Act, locks, resumes, blocking_locks, returns, unlocks, Users, performs, perform, mutex_init,
  try_lock, try_lock_test,
}
use taskio.Mutex.Counts.{given}
use taskio.Mutex.Exclusion.{unlocked, perform-Exclusive}

-- A future has the lock; another and a thread wait; the lock goes to the future, then to the thread.
abbrev story : List Act
story = locks 1 ∷ locks 2 ∷ blocking_locks ∷ unlocks ∷ resumes ∷ unlocks ∷ returns ∷ []

after_story : Run (ℕ × ℕ × List ℕ)
after_story = perform story unlocked >>= λ u.
    done (u.holders, getvalue u.clients.semaphore, u.clients.semaphore.wakes)

one_holder : after_story ≡ done (1, 0, 2 ∷ [])
unfolding after_story perform performs happens wait wait_cleanup blocking_wait blocking_wait_end
    signal signal_queue signal_async signal_sync node_drop node_count node_is_timed push_last
    getvalue mutex_init Semaphore.init u64 u64_dec has without
one_holder = refl

try_twice : (try_lock (try_lock mutex_init).1).0 ≡ false
unfolding try_lock try_lock_test blocking_wait getvalue mutex_init Semaphore.init
try_twice = refl

perform-Exclusive_example :
    (u : Users) × (perform story unlocked ≡ done u)
    × (u.holders ≤ 1)
    × (given u.clients + u.holders ≡ 1 + u.resumed)
    × (u.resumed ≤ length u.clients.semaphore.wakes)
perform-Exclusive_example = perform-Exclusive story (omega arith)
