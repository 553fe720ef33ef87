-- ===== src/Wheel.antt =====
-- src/wheel.c and src/wheel.h: one timing wheel. A call of a timer's handler, `handler(data)`, is
-- recorded by the timer in a list of calls, since the handlers are the program's own (the one in
-- the repository wakes a task). A bucket is the sequence that its vector stands for.
pub mod Remove
use taskio.Prelude.{
  ℕ, ◌+◌, ◌-◌, ◌*◌, ◌/◌, ◌%◌, Bool, false, not, ◌||◌, Option, none, some, List, [], ◌∷◌, ◌++◌, ltb,
  leb, ◌==◌, if◌then◌else◌, update, u64,
}
use taskio.Vec.Contents.{Predicate, false_, true_finish, push_last, remove_if}

-- struct taskio_timer_handle
pub record TimerHandle : Type 0 where
  pub id : ℕ
  pub expiry_time : ℕ

-- struct taskio_timer
pub record Timer : Type 0 where
  pub id : ℕ
  pub expiry_time : ℕ
  pub handler : ℕ
  pub payload : ℕ

-- struct taskio_wheel_timer. A handler of the wheel is set or NULL: `Hierarchy` has the functions
-- that the runtime sets.
pub record Wheel : Type 0 where
  pub tick : ℕ
  pub id : ℕ
  pub resolution : ℕ
  pub wheel_size : ℕ
  pub timer_buckets : ℕ → List Timer
  pub loop_handler : Bool
  pub expiry_handler : Bool

-- &wheel_timer->timer_buckets[index] with another content
abbrev pub put_bucket : Wheel → ℕ → List Timer → Wheel
put_bucket w index timers = record w { timer_buckets = update w.timer_buckets index timers }

-- The handle `(struct taskio_timer_handle){}`.
abbrev pub no_handle : TimerHandle
no_handle = record { id = 0; expiry_time = 0 }

unfoldable pub timer_valid : TimerHandle → Bool
timer_valid h = not (h.id == 0) || not (h.expiry_time == 0)

-- The time of the wheel's last tick.
unfoldable pub wheel_time : Wheel → ℕ
wheel_time w = u64 (w.tick * w.resolution)

-- _find_bucket; `none` is its NULL.
unfoldable pub find_bucket : Wheel → ℕ → Option ℕ
unfolding wheel_time
find_bucket w expiry_time =
    let time = wheel_time w in
    let remaining_ticks = (expiry_time - time) / w.resolution in
    if leb expiry_time time then none else some (u64 (w.tick + remaining_ticks) % w.wheel_size)

-- taskio_wheel_timer_add_from, with the calls that it makes
unfoldable pub wheel_add_from : Wheel → Timer → Wheel × List Timer
wheel_add_from w timer = elim (find_bucket w timer.expiry_time) [
  | none ↦ (w, timer ∷ [])
  | some index ↦ (put_bucket w index (push_last (w.timer_buckets index) timer), [])
]

-- The timer that taskio_wheel_timer_add makes under the next id.
unfoldable pub new_timer : Wheel → ℕ → ℕ → ℕ → ℕ → Timer
unfolding wheel_time
new_timer w next_id delay handler payload = record {
  id = next_id;
  expiry_time = u64 (wheel_time w + delay);
  handler = handler;
  payload = payload;
}

-- What taskio_wheel_timer_add leaves: the wheel, the counter of ids, the calls, and the handle.
pub record Added : Type 0 where
  pub wheel : Wheel
  pub next_timer_id : ℕ
  pub calls : List Timer
  pub handle : TimerHandle

-- taskio_wheel_timer_add; the static `next_timer_id` is an argument. At delay 0 the handler is
-- called and no timer is made.
unfoldable pub wheel_add : Wheel → ℕ → ℕ → ℕ → ℕ → Added
wheel_add w next_id delay handler payload =
    let timer = new_timer w next_id delay handler payload in
    let (w', calls) = wheel_add_from w timer in
    if delay == 0
    then record {
      wheel = w;
      next_timer_id = next_id;
      calls = record { id = 0; expiry_time = 0; handler = handler; payload = payload } ∷ [];
      handle = no_handle;
    }
    else record {
      wheel = w';
      next_timer_id = u64 (next_id + 1);
      calls = calls;
      handle = record { id = timer.id; expiry_time = timer.expiry_time };
    }

-- _fire_predicate and _abort_predicate
unfoldable pub fire_predicate : TimerHandle → Timer → List Timer → Predicate × List Timer
fire_predicate handle timer calls =
    if timer.id == handle.id then (true_finish, calls ++ (timer ∷ [])) else (false_, calls)

unfoldable pub abort_predicate : TimerHandle → Timer → List Timer → Predicate × List Timer
abort_predicate handle timer calls =
    if timer.id == handle.id then (true_finish, calls) else (false_, calls)

-- taskio_vec_remove_if on one bucket of the wheel
unfoldable pub remove_from :
    (Timer → List Timer → Predicate × List Timer) → Wheel → ℕ → Wheel × List Timer
remove_from p w index =
    let (timers, calls) = remove_if p (w.timer_buckets index) [] in
    (put_bucket w index timers, calls)

-- taskio_timer_fire
unfoldable pub timer_fire : Wheel → TimerHandle → Wheel × List Timer
unfolding fire_predicate remove_from
timer_fire w handle = elim (find_bucket w handle.expiry_time) [
  | none ↦ (w, [])
  | some index ↦ remove_from (fire_predicate handle) w index
]

-- taskio_timer_abort
unfoldable pub timer_abort : Wheel → TimerHandle → Wheel × List Timer
unfolding abort_predicate remove_from
timer_abort w handle = elim (find_bucket w handle.expiry_time) [
  | none ↦ (w, [])
  | some index ↦ remove_from (abort_predicate handle) w index
]

-- taskio_wheel_timer_drop
unfoldable pub wheel_drop : Wheel → Wheel
wheel_drop w = record {
  tick = 0;
  id = 0;
  resolution = 0;
  wheel_size = 0;
  timer_buckets = λ index. if ltb index w.wheel_size then [] else w.timer_buckets index;
  loop_handler = false;
  expiry_handler = false;
}
