-- ===== src/Sleep/Tests.antt =====
-- taskio_sleep (src/common/sleep.c) from a new hierarchy: runs, and its theorems there.
use taskio.Prelude.{ℕ, arith}
use taskio.Hierarchy.{Timers, wheel_setup, add_timer}
use taskio.Hierarchy.Setup.{setup-Inv}
use taskio.Hierarchy.Agenda.{pending}
use taskio.Async.{pending as suspended}
use taskio.Sleep.{sleep_handler}
use taskio.Sleep.Course.{Slept, sleep-Slept}

abbrev quiet : ℕ → Timers → Timers
quiet waker h = h

sleep-Slept_example : Slept quiet 3 4 250 0 wheel_setup
unfolding wheel_setup
sleep-Slept_example =
    sleep-Slept quiet 3 4 250 0 wheel_setup setup-Inv (omega arith) (omega arith) (omega arith)

abbrev started : Timers
started = (add_timer wheel_setup 250 sleep_handler 3).0
