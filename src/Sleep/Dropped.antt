-- ===== src/Sleep/Dropped.antt =====
-- A sleep (src/common/sleep.c) that is dropped before its time, or polled by a stray wake.
use taskio.Prelude.{
  List, ℕ, ◌+◌, ◌-◌, ◌%◌, ◌<◌, ◌≡◌, ◌≢◌, ◌∙◌, refl, ap, true, false, not, ◌||◌, [], ◌∷◌, ◌++◌,
  arith, word_limit, All, ◌==◌, update,
}
use taskio.Wheel.{put_bucket, Timer, TimerHandle, timer_valid}
use taskio.Vec.Contents.{push_last}
use taskio.Hierarchy.{
  Timers, resolutions, find_wheel, add_timer, runtime_timer_abort, increase_timer_len,
}
use taskio.Hierarchy.Levels.{horizon}
use taskio.Hierarchy.Placement.{Inv}
use taskio.Hierarchy.Insert.{slot_of}
use taskio.Hierarchy.Agenda.{pending}
use taskio.Hierarchy.Abort.{searched, abort_found}
use taskio.Hierarchy.Add.{added_timer, handle_of, add_timer_lem}
use taskio.Async.{pending as suspended}
use taskio.Sleep.{sleep_handler}
use taskio.Sleep.Course.{scheduled}

module _ (wake : ℕ → Timers → Timers) (waker t ms : ℕ) (h : Timers) (v : Inv t h)
    (lt : t + ms < horizon) (pos : 0 < ms) (few : h.timer_len + 1 < word_limit) where
  abbrev x : Timer
  x = added_timer t h ms sleep_handler waker

  abbrev h' : Timers
  h' = (add_timer h ms sleep_handler waker).0

  pub valid_lem : timer_valid (handle_of x) ≡ true
  unfolding timer_valid
  valid_lem =
      let d = scheduled wake waker 0 ms t h v lt pos few in
      let late : (x.expiry_time == 0) ≡ false = ground (arith, d.to_come) in
      rw late (let e : (not (h.next_timer_id == 0) || true) ≡ true = ground arith in e)

  at_its_place :
      (k j : ℕ)
      → (update h.wheels k
            (put_bucket (h.wheels k) j (push_last ((h.wheels k).timer_buckets j) x))
            k).timer_buckets
          j
        ≡ (h.wheels k).timer_buckets j ++ (x ∷ [])
  unfolding push_last
  at_its_place k j =
      let on : (k == k) ≡ true = ground arith in
      let at : (j == j) ≡ true = ground arith in rw (on, at) refl

  bucket_lem :
      t % resolutions (find_wheel ms) ≡ 0
      → searched t h' (handle_of x)
        ≡ (h.wheels (find_wheel ms)).timer_buckets (slot_of (find_wheel ms) x.expiry_time)
          ++ (x ∷ [])
  unfolding increase_timer_len push_last
  bucket_lem whole =
      let d = scheduled wake waker 0 ms t h v lt pos few in
      let rest : x.expiry_time - t ≡ ms = omega (arith, d.expiry, whole) in
      let added = add_timer_lem t h v (omega arith) ms sleep_handler waker pos (omega arith) in
      let k = find_wheel ms in
      let j = slot_of k x.expiry_time in
      ap
        (λ (n : ℕ). (h'.wheels (find_wheel n)).timer_buckets (slot_of (find_wheel n) x.expiry_time))
        rest
      ∙ ap (λ (r : Timers × TimerHandle). (r.0.wheels k).timer_buckets j) added
      ∙ at_its_place k j

  -- The bucket that its timer comes into.
  abbrev pub its_bucket : List Timer
  its_bucket = (h.wheels (find_wheel ms)).timer_buckets (slot_of (find_wheel ms) x.expiry_time)

  -- The timer taken off again, when the wheel for the delay is between two steps.
  pub taken_off :
      t % resolutions (find_wheel ms) ≡ 0
      → All (λ y. y.id ≢ h.next_timer_id) its_bucket
      → let h'' = runtime_timer_abort h' (handle_of x) in
        Inv t h'' × ((y : Timer) → pending y h'' ≡ pending y h) × (h''.calls ≡ h.calls)
  taken_off whole fresh =
      let d = scheduled wake waker 0 ms t h v lt pos few in
      let (inv, gone, quiet) =
        abort_found t h' d.inv (omega arith) (handle_of x) d.to_come (omega (arith, d.expiry)) x
          its_bucket [] (bucket_lem whole) refl fresh in
      (inv, (λ y. omega (arith, gone y, d.pending_one_more y)), quiet ∙ d.calls)
