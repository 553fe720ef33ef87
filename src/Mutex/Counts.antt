-- ===== src/Mutex/Counts.antt =====
-- The permits of src/sync/semaphore.c through each event: those free, and those given to a future
-- that was woken or a thread that is to return.
use taskio.Prelude.{
  copies, ℕ, ◌+◌, ◌<◌, ◌≤◌, ◌≡◌, ◌∙◌, refl, ap, inl, inr, Bool, [], ◌∷◌, arith, length,
  length-append, ltb, ltb→lt, Bool-cases, Run, done, word_limit,
}
use taskio.Semaphore.{wait, wait_cleanup, blocking_wait, blocking_wait_end}
use taskio.Semaphore.Nodes.{node_drop-Released}
use taskio.Semaphore.Clients.{
  Clients, polls, cleans_up, blocks, wakes_up, signals, happens, Inv, has,
}
use taskio.Semaphore.Waits.{has-copies}
use taskio.Semaphore.Signals.{signal-Delivers}
use taskio.Mutex.{if_pos}

abbrev pub given : Clients → ℕ
given c = c.semaphore.counter + length c.semaphore.wakes + c.semaphore.woken

-- `out` permits go, `back` come, and no waker is uncalled.
abbrev pub Counted : Clients → ℕ → ℕ → Clients → Type 0
Counted c out back c' =
    (given c' + out ≡ given c + back) × (length c.semaphore.wakes ≤ length c'.semaphore.wakes)

abbrev pub Counts : Clients → ℕ → ℕ → Run Clients → Type 0
Counts c out back run = (c' : Clients) × (run ≡ done c') × Counted c out back c'

pub polls-Counts :
    (is_timed : Bool) (waker : ℕ) (c : Clients)
    → Counts c (if_pos c.semaphore.counter) 0 (happens (polls is_timed waker) c)
unfolding happens wait
polls-Counts is_timed waker c = elim (Bool-cases (ltb 0 c.semaphore.counter)) [
  | inl e ↦ let pos = ltb→lt 0 c.semaphore.counter e in rw e (_, refl, (omega arith, omega arith))
  | inr e ↦ rw e (_, refl, (omega arith, omega arith))
]

pub blocks-Counts : (c : Clients) → Counts c (if_pos c.semaphore.counter) 0 (happens blocks c)
unfolding happens blocking_wait
blocks-Counts c = elim (Bool-cases (ltb 0 c.semaphore.counter)) [
  | inl e ↦ let pos = ltb→lt 0 c.semaphore.counter e in rw e (_, refl, (omega arith, omega arith))
  | inr e ↦ rw e (_, refl, (omega arith, omega arith))
]

pub wakes_up-Counts : (c : Clients) → Counts c (if_pos c.semaphore.woken) 0 (happens wakes_up c)
unfolding happens blocking_wait_end
wakes_up-Counts c = elim (Bool-cases (ltb 0 c.semaphore.woken)) [
  | inl e ↦ let pos = ltb→lt 0 c.semaphore.woken e in rw e (_, refl, (omega arith, omega arith))
  | inr e ↦ rw e (_, refl, (omega arith, omega arith))
]

pub cleans_up-Counts : (id : ℕ) (c : Clients) → Inv c → Counts c 0 0 (happens (cleans_up id) c)
unfolding happens wait_cleanup
cleans_up-Counts id c inv = elim (Bool-cases (has id c.held)) [
  | inr e ↦ rw e (c, refl, (omega arith, omega arith))
  | inl e ↦
      let s = c.semaphore in
      let pos : 0 < copies id s.queue + copies id c.held = omega (arith, has-copies id c.held e) in
      let (o, dropped, left) =
        node_drop-Released id s (copies id s.queue) (copies id c.held) (inv.owned id) pos in
      rw (e, dropped) (_, refl, (omega arith, omega arith))
]

pub signals-Counts :
    (c : Clients)
    → Inv c
    → c.semaphore.woken ≡ 0
    → c.semaphore.counter + 1 < word_limit
    → Counts c 0 1 (happens signals c)
unfolding happens
signals-Counts c inv all_returned few =
    let (s', run, what) = signal-Delivers c inv all_returned few in
    rw run (
      _,
      refl,
      elim what [
        | inl kept ↦
            let w = ap length kept.4 in (omega (arith, kept.3, w, kept.6), omega (arith, w))
        | inr (inl to_future) ↦
            let (_, n, _, _, wakes, counter, _, woken) = to_future in
            let w = ap length wakes ∙ length-append c.semaphore.wakes (n.waker ∷ []) in
            (omega (arith, counter, w, woken), omega (arith, w))
        | inr (inr to_thread) ↦
            let w = ap length to_thread.1 in
            (omega (arith, to_thread.2, w, to_thread.4), omega (arith, w))
      ],
    )
