-- ===== src/Semaphore/TimedTests.antt =====
-- Timed waits of src/sync/semaphore.c from a new runtime.
use taskio.Prelude.{ℕ, ◌+◌, refl, arith}
use taskio.Hierarchy.{wheel_setup}
use taskio.Hierarchy.Setup.{setup-Inv}
use taskio.Hierarchy.Agenda.{pending as agenda}
use taskio.Async.{pending}
use taskio.Semaphore.{Semaphore, init}
use taskio.Semaphore.Timed.{Timed}
use taskio.Semaphore.TimesOut.{TimedOut, timedwait-TimedOut}

abbrev one_permit : Semaphore
unfolding init
one_permit = init 1

-- The tasks of the select have the wakers 10 and 11.
abbrev task_waker : ℕ → ℕ
task_waker i = 10 + i

timedwait-TimedOut_example : TimedOut task_waker 3 3 0 250 (init 0) wheel_setup
unfolding wheel_setup init
timedwait-TimedOut_example =
    timedwait-TimedOut task_waker 3 3 0 250 (init 0) wheel_setup setup-Inv (omega arith)
      (omega arith) (omega arith) refl
