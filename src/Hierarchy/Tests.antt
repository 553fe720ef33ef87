-- ===== src/Hierarchy/Tests.antt =====
-- The hierarchy of src/platform/linux/ at concrete times: runs, and its theorems at these states.
use taskio.Prelude.{
  ℕ, ◌+◌, ◌<◌, ◌≤◌, ◌≡◌, refl, sym, ap, subst, [], ◌∷◌, List, arith, Run, done, fault,
  out_of_bounds, u64, u64_dec, map, ◌++◌, ◌^◌,
}
use taskio.Vec.Contents.{push_last, remove_if}
use taskio.Wheel.{
  Timer, timer_valid, wheel_time, find_bucket, wheel_add_from, new_timer, wheel_add, timer_abort,
  remove_from, abort_predicate,
}
use taskio.Hierarchy.{
  Timers, wheel_setup, find_wheel, add_timer, increase_timer_len, decrease_timer_len, handle_level,
  reschedule_time, add_timer_from, wheel_expiry, expire, expire_all, tick_wheel, tick_timers,
  run_expirations, runtime_timer_abort,
}
use taskio.Hierarchy.Levels.{horizon}
use taskio.Hierarchy.Placement.{Inv}
use taskio.Hierarchy.Insert.{slot_of}
use taskio.Hierarchy.Agenda.{Refined, tick_timers-refines, Elapsed, run_expirations-Elapsed, count}
use taskio.Hierarchy.Add.{Scheduled, add_timer-Scheduled, add_timer_early, added_timer, handle_of}
use taskio.Hierarchy.Setup.{setup-Inv}
use taskio.Hierarchy.Abort.{searched_level}
use taskio.Hierarchy.Missed.{abort_late}
use taskio.Hierarchy.Horizon.{tick_timers_last}

abbrev value : Run Timers → Timers
value (done h) = h
value (fault _) = wheel_setup

-- A sleep of 15 ms from the start.
abbrev one : Timers
one = (add_timer wheel_setup 15 7 8).0

abbrev fifteen : Timer
fifteen = added_timer 0 wheel_setup 15 7 8

-- Its state after some ticks.
later : ℕ → Timers
later n = value (run_expirations n one)

calls_after : ℕ → List ℕ
unfolding later run_expirations tick_timers tick_wheel expire_all expire wheel_expiry add_timer_from
    reschedule_time add_timer wheel_add new_timer find_bucket wheel_time wheel_add_from find_wheel
    increase_timer_len decrease_timer_len timer_valid wheel_setup push_last u64 u64_dec
calls_after n = map (λ x. x.expiry_time) (later n).calls

-- It is called by the 15th tick and not before.
not_called : calls_after 14 ≡ []
unfolding calls_after
not_called = refl

called : calls_after 15 ≡ 15 ∷ []
unfolding calls_after
called = refl

scheduled : Scheduled 0 wheel_setup fifteen 15 (add_timer wheel_setup 15 7 8)
unfolding wheel_setup
scheduled =
    add_timer-Scheduled 0 wheel_setup setup-Inv (omega arith) 15 7 8 (omega arith) (omega arith)
      (omega arith)

elapsed : (n : ℕ) → n < horizon → Elapsed 0 n one (run_expirations n one)
elapsed n lt = run_expirations-Elapsed n 0 one scheduled.inv (omega arith)

later-Inv : (n : ℕ) → n < horizon → Inv n (later n)
unfolding later
later-Inv n lt =
    let e = elapsed n lt in
    let state : e.after ≡ value (run_expirations n one) = sym (ap value e.ran) in
    subst (Inv n) state (subst (λ m. Inv m e.after) (omega arith) e.inv)

-- Aborted after 8 ms, on the wheel of its delay, the timer is called all the same.
aborted_calls : ℕ → List ℕ
unfolding calls_after runtime_timer_abort handle_level timer_abort remove_from abort_predicate
    remove_if
aborted_calls n =
    map (λ x. x.expiry_time)
      (value (run_expirations n (runtime_timer_abort (later 8) (handle_of fifteen)))).calls

aborted_called : aborted_calls 7 ≡ 15 ∷ []
unfolding aborted_calls
aborted_called = refl

tick_timers-refines_example : Refined 8 (later 8) (tick_timers (later 8))
tick_timers-refines_example =
    tick_timers-refines 8 (later 8) (later-Inv 8 (omega arith)) (omega arith)

run_expirations-Elapsed_example : Elapsed 8 7 (later 8) (run_expirations 7 (later 8))
run_expirations-Elapsed_example =
    run_expirations-Elapsed 7 8 (later 8) (later-Inv 8 (omega arith)) (omega arith)

later_few : (later 5).timer_len + 1 < 2 ^ 64
unfolding calls_after
later_few = omega arith

add_timer-Scheduled_example :
    Scheduled 5 (later 5) (added_timer 5 (later 5) 10 1 2) 10 (add_timer (later 5) 10 1 2)
add_timer-Scheduled_example =
    add_timer-Scheduled 5 (later 5) (later-Inv 5 (omega arith)) (omega arith) 10 1 2 (omega arith)
      (omega arith) later_few

-- A sleep of 10 ms, 5 ms after the wheel of 10 ms has ticked, ends after 5 ms.
add_timer_early_example :
    (5 < 10)
    × (g : Timers) × (run_expirations 5 (add_timer (later 5) 10 1 2).0 ≡ done g)
    × (count (added_timer 5 (later 5) 10 1 2) (later 5).calls + 1
        ≤ count (added_timer 5 (later 5) 10 1 2) g.calls)
unfolding find_wheel
add_timer_early_example =
    add_timer_early 5 (later 5) 10 1 2 (later-Inv 5 (omega arith)) (omega arith) (omega arith)
      later_few (omega arith)

abort_late_example :
    let h' = runtime_timer_abort (later 8) (handle_of fifteen) in
    (searched_level 8 (handle_of fifteen) < 1)
    × ((h'.wheels 1).timer_buckets (slot_of 1 15) ≡ [] ++ (fifteen ∷ []))
    × (h'.timer_len ≡ u64_dec (later 8).timer_len)
    × (¬ Inv 8 h')
unfolding calls_after
abort_late_example =
    abort_late 8 (later 8) fifteen 1 [] [] (later-Inv 8 (omega arith)) (omega arith) (omega arith)
      (omega arith) (omega arith) (omega arith) refl tt

-- The last tick of the fourth year, with the timer of the start long called.
tick_timers_last_example : tick_timers (later 126143999999) ≡ fault out_of_bounds
tick_timers_last_example =
    tick_timers_last 126143999999 (later 126143999999) (later-Inv 126143999999 (omega arith)) refl
