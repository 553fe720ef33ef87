-- ===== src/Mutex.antt =====
-- src/sync/mutex.c: a semaphore with one permit. A lock is a wait, an unlock a signal.
pub mod Counts
pub mod Exclusion
pub mod Locks
pub mod TimedLocks
mod Tests
use taskio.Prelude.{
  ℕ, zero, suc, ◌+◌, ◌-◌, Bool, true, false, not, List, [], ◌∷◌, length, ltb, ◌==◌, if◌then◌else◌,
  Run, done, ◌>>=◌,
}
use taskio.Semaphore
use taskio.Semaphore.{Semaphore, getvalue, blocking_wait, signal}
use taskio.Semaphore.Clients.{Clients, Event, polls, cleans_up, blocks, wakes_up, signals, happens}

-- taskio_mutex_init
unfoldable pub mutex_init : Semaphore
mutex_init = Semaphore.init 1

-- taskio_mutex_try_lock: whether it goes on to the wait, for which it locks `mtx_guard` again
unfoldable pub try_lock_test : Semaphore → Bool
try_lock_test s = not (getvalue s == 0)

-- taskio_mutex_try_lock, where nothing happens between the two: whether it has the lock.
unfoldable pub try_lock : Semaphore → Bool × Semaphore
unfolding try_lock_test
try_lock s = if try_lock_test s then blocking_wait s else (false, s)

-- What the users of a mutex do: `locks` is the first scope of the wait of taskio_mutex_lock and
-- `resumes` the second, of a future whose waker was called; `gives_up` is the clean-up of a future's
-- node, `blocking_locks` and `returns` are taskio_mutex_blocking_lock (and the wait of a try_lock)
-- before and behind cnd_wait, `unlocks` is taskio_mutex_unlock.
pub data Act : Type 0 where
  locks : ℕ → Act
  resumes : Act
  gives_up : ℕ → Act
  blocking_locks : Act
  returns : Act
  unlocks : Act

-- A mutex with its waiters, how many wakes have been followed by a resume, and how many users have
-- the lock.
pub record Users : Type 0 where
  pub clients : Clients
  pub resumed : ℕ
  pub holders : ℕ

abbrev pub if_pos : ℕ → ℕ
if_pos n = if ltb 0 n then 1 else 0

abbrev pub after : Event → Users → ℕ → Run Users
after event u holders =
    happens event u.clients >>= λ c. done (record u { clients = c; holders = holders })

-- A user that has no lock does not unlock, and a future that was not woken does not resume.
unfoldable pub performs : Act → Users → Run Users
performs (locks waker) u =
    after (polls false waker) u (u.holders + if_pos u.clients.semaphore.counter)
performs resumes u = done (
    if ltb u.resumed (length u.clients.semaphore.wakes)
    then record u { resumed = u.resumed + 1; holders = u.holders + 1 }
    else u)
performs (gives_up id) u = after (cleans_up id) u u.holders
performs blocking_locks u = after blocks u (u.holders + if_pos u.clients.semaphore.counter)
performs returns u = after wakes_up u (u.holders + if_pos u.clients.semaphore.woken)
performs unlocks u = if ltb 0 u.holders then after signals u (u.holders - 1) else done u

unfoldable pub perform : List Act → Users → Run Users
perform [] u = done u
perform (act ∷ acts) u = performs act u >>= perform acts
