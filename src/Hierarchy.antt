-- ===== src/Hierarchy.antt =====
-- The hierarchy of eight wheels: src/platform/linux/runtime_ext.c, and of
-- src/platform/linux/runtime.c the setup of the wheels, their two handlers and the ticks that the
-- event loop makes; of src/wheel.c the tick, which calls those handlers. `timer_fd` is armed or
-- disarmed.
pub mod Levels
pub mod Slots
pub mod Weight
pub mod Placement
pub mod Insert
pub mod Drain
pub mod Carry
pub mod Take
pub mod Advance
pub mod Tick
pub mod Agenda
pub mod Add
pub mod Abort
pub mod Missed
pub mod Horizon
pub mod Setup
mod Tests
use taskio.Prelude.{
  ℕ, zero, suc, ◌+◌, ◌-◌, ◌*◌, ◌/◌, ◌%◌, Bool, true, false, ◌&&◌, List, [], ◌∷◌, ◌++◌, ltb, leb,
  ◌==◌, if◌then◌else◌, update, get_or, u64, u64_dec, Run, done, fault, out_of_bounds, null_pointer,
  assert_failed, out_of_fuel, ◌>>=◌,
}
use taskio.Wheel.{
  Timer, TimerHandle, Wheel, put_bucket, timer_valid, wheel_time, wheel_add_from, wheel_add,
  timer_fire, timer_abort, wheel_drop,
}

-- WHEEL_LEVEL_SIZE and the two tables of _wheel_setup
abbrev pub wheel_levels : ℕ
wheel_levels = 8

abbrev pub resolutions : ℕ → ℕ
resolutions i = get_or (1 ∷ 10 ∷ 100 ∷ 1000 ∷ 60000 ∷ 3600000 ∷ 86400000 ∷ 31536000000 ∷ []) i 0

abbrev pub lengths : ℕ → ℕ
lengths i = get_or (10 ∷ 10 ∷ 10 ∷ 60 ∷ 60 ∷ 24 ∷ 365 ∷ 4 ∷ []) i 0

-- struct taskio_hierarchy_wheel_timer with the timer descriptor, the static `next_timer_id` and
-- the handler calls made so far.
pub record Timers : Type 0 where
  pub timer_len : ℕ
  pub wheels : ℕ → Wheel
  pub armed : Bool
  pub next_timer_id : ℕ
  pub calls : List Timer

abbrev pub put_wheel : Timers → ℕ → Wheel → Timers
put_wheel h i w = record h { wheels = update h.wheels i w }

-- The wheel and the calls that an operation on wheel `i` leaves.
abbrev pub after_wheel : Timers → ℕ → Wheel × List Timer → Timers
after_wheel h i (w, calls) = record h { wheels = update h.wheels i w; calls = h.calls ++ calls }

-- _wheel_setup, over wheels with the empty buckets of a zeroed runtime
unfoldable pub wheel_setup : Timers
wheel_setup = record {
  timer_len = 0;
  wheels = λ i. record {
    tick = 0;
    id = i;
    resolution = resolutions i;
    wheel_size = lengths i;
    timer_buckets = λ _. [];
    loop_handler = true;
    expiry_handler = true;
  };
  armed = false;
  next_timer_id = 0;
  calls = [];
}

-- _find_wheel
unfoldable pub find_wheel : ℕ → ℕ
find_wheel delay =
    if ltb 0 (delay / 31536000000)
    then 7
    else if ltb 0 (delay / 86400000)
    then 6
    else if ltb 0 (delay / 3600000)
    then 5
    else if ltb 0 (delay / 60000)
    then 4
    else if ltb 0 (delay / 1000)
    then 3
    else if ltb 0 (delay / 100)
    then 2
    else if ltb 0 (delay / 10)
    then 1
    else 0

-- _increase_timer_len arms the descriptor for the first timer.
unfoldable pub increase_timer_len : Timers → Timers
increase_timer_len h = record h {
  timer_len = u64 (h.timer_len + 1);
  armed = if h.timer_len == 0 then true else h.armed;
}

-- _decrease_timer_len disarms it after the last one.
unfoldable pub decrease_timer_len : Timers → Timers
decrease_timer_len h = record h {
  timer_len = u64_dec h.timer_len;
  armed = if h.timer_len == 1 then false else h.armed;
}

-- taskio_runtime_add_timer
unfoldable pub add_timer : Timers → ℕ → ℕ → ℕ → Timers × TimerHandle
add_timer h delay handler payload =
    let i = find_wheel delay in
    let added = wheel_add (h.wheels i) h.next_timer_id delay handler payload in
    let h' : Timers = record h {
      wheels = update h.wheels i added.wheel;
      next_timer_id = added.next_timer_id;
      calls = h.calls ++ added.calls;
    } in
    (if timer_valid added.handle then increase_timer_len h' else h', added.handle)

-- The clock of taskio_runtime_add_timer_from: during a tick it is one step ahead.
unfoldable pub reschedule_time : Timers → Bool → ℕ
reschedule_time h is_rescheduling =
    let time = wheel_time (h.wheels 0) in
    if is_rescheduling then u64 (time + (h.wheels 0).resolution) else time

-- taskio_runtime_add_timer_from
unfoldable pub add_timer_from : Timers → Timer → Bool → Run Timers
unfolding reschedule_time
add_timer_from h timer is_rescheduling =
    let time = reschedule_time h is_rescheduling in
    let i = find_wheel (timer.expiry_time - time) in
    let h' = if is_rescheduling then h else increase_timer_len h in
    let moved = after_wheel h' i (wheel_add_from (h'.wheels i) timer) in
    if leb timer.expiry_time time
    then if is_rescheduling
      then fault assert_failed
      else done (record h { calls = h.calls ++ (timer ∷ []) })
    else done moved

-- The level that taskio_runtime_timer_fire and _abort look at, unless the time has come.
unfoldable pub handle_level : Timers → TimerHandle → ℕ
handle_level h handle = find_wheel (handle.expiry_time - wheel_time (h.wheels 0))

-- taskio_runtime_timer_fire
unfoldable pub runtime_timer_fire : Timers → TimerHandle → Timers
runtime_timer_fire h handle =
    let i = handle_level h handle in
    if leb handle.expiry_time (wheel_time (h.wheels 0))
    then h
    else decrease_timer_len (after_wheel h i (timer_fire (h.wheels i) handle))

-- taskio_runtime_timer_abort
unfoldable pub runtime_timer_abort : Timers → TimerHandle → Timers
runtime_timer_abort h handle =
    let i = handle_level h handle in
    if leb handle.expiry_time (wheel_time (h.wheels 0))
    then h
    else decrease_timer_len (after_wheel h i (timer_abort (h.wheels i) handle))

-- _wheel_expiry
unfoldable pub wheel_expiry : Timers → Timer → Bool → Run Timers
wheel_expiry h timer has_remaining_ticks =
    if has_remaining_ticks then add_timer_from h timer true else done (decrease_timer_len h)

-- One round of the loop of taskio_wheel_timer_tick, for wheel `i` at `time`.
unfoldable pub expire : ℕ → ℕ → Timers → Timer → Run Timers
expire i time h timer =
    let fired : Timers = record h { calls = h.calls ++ (timer ∷ []) } in
    let handled = (h.wheels i).expiry_handler in
    if leb timer.expiry_time time
    then if handled then wheel_expiry fired timer false else fault null_pointer
    else if handled
    then wheel_expiry h timer true
    else done (after_wheel h i (wheel_add_from (h.wheels i) timer))

unfoldable pub expire_all : ℕ → ℕ → List Timer → Timers → Run Timers
expire_all i time [] h = done h
expire_all i time (x ∷ xs) h = expire i time h x >>= expire_all i time xs

-- `wheel_timer->tick += 1`
abbrev pub advance : ℕ → Timers → Timers
advance i h = put_wheel h i (record (h.wheels i) { tick = u64 ((h.wheels i).tick + 1) })

-- The wheel with the bucket taken out by taskio_vec_move.
abbrev pub take_bucket : ℕ → ℕ → Timers → Timers
take_bucket i index h = put_wheel h i (put_bucket (h.wheels i) index [])

-- taskio_wheel_timer_tick on wheel `i`. _wheel_loop ticks the wheel above, whose index is read from
-- `id`; the array has no wheel 8. Each level takes one unit of fuel.
unfoldable pub tick_wheel : ℕ → ℕ → Timers → Run Timers
tick_wheel zero i h = fault out_of_fuel
tick_wheel (suc fuel) i h =
    let w = h.wheels i in
    let tick = u64 (w.tick + 1) in
    let index = tick % w.wheel_size in
    let loop = λ (h' : Timers). tick_wheel fuel ((h'.wheels i).id + 1) h' in
    let ticked : Run Timers = do
      h' ← expire_all i (u64 (tick * w.resolution)) (w.timer_buckets index) (take_bucket i index h)
      h'' ← if (h'.wheels i).loop_handler && (ltb 0 tick && index == 0) then loop h' else done h'
      done (advance i h'')
    in if ltb i wheel_levels then ticked else fault out_of_bounds

-- One expiration of the timer descriptor: the tick of wheel 0. Nine units of fuel are one for each
-- wheel and one for the check of the index that follows the last.
unfoldable pub tick_timers : Timers → Run Timers
tick_timers h = tick_wheel 9 0 h

-- The loop of worker_run over the expirations that it read.
unfoldable pub run_expirations : ℕ → Timers → Run Timers
run_expirations zero h = done h
run_expirations (suc expirations) h = tick_timers h >>= run_expirations expirations

-- The wheels after taskio_runtime_drop.
unfoldable pub drop_wheels : Timers → Timers
drop_wheels h = record h {
  wheels = λ i. if ltb i wheel_levels then wheel_drop (h.wheels i) else h.wheels i;
}
