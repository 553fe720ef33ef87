-- ===== src/Vec/Remove.antt =====
-- taskio_vec_remove_if of src/collections/vec.h, which moves elements under a running index, is the
-- filter of the sequence that the vector holds.
use mathlib.Core.List.{append-nil, append_assoc}
use taskio.Prelude.{
  ℕ, zero, suc, ◌+◌, ◌<◌, ◌≡◌, refl, ap, List, [], ◌∷◌, ◌++◌, Option, false, arith, length,
  length-append, u64, u64_dec, u64_small, word_limit, Run, done, ltb, lt→ltb,
}
use taskio.Vec.{Vec, init, remove_loop, remove_if}
use taskio.Vec.Contents
use taskio.Vec.Contents.{Predicate, true_, false_, true_finish, false_finish}
use taskio.Vec.Stores.{
  Stores, unallocated, allocated, filled, at-filled, erase-filled, spare_after, length-spare_after,
}

index_back : (i : ℕ) → i < word_limit → u64 (u64_dec i + 1) ≡ i
unfolding u64 u64_dec
index_back i lt = omega arith

module _ {ℓ κ} {A : Type ℓ} {S : Type κ} where
  -- The run ends with a vector that holds the list, and with the state.
  abbrev pub EndsWith : Run (Vec A × S) → List A × S → Type (ℓ ⊔ κ)
  EndsWith run (xs, s) = (v : Vec A) × (run ≡ done (v, s)) × Stores v xs

  module _ (p : A → S → Predicate × S) where
    -- What the loop does on `fuel` rounds, with the elements of `kept` behind it.
    abbrev Filters : ℕ → Type (ℓ ⊔ κ)
    Filters fuel =
        (kept todo : List A) (spare : List (Option A)) (capacity : ℕ) (s : S)
        → length todo < fuel
        → length (kept ++ todo) < word_limit
        → 0 < capacity
        → capacity ≡ length (kept ++ todo) + length spare
        → EndsWith (remove_loop p fuel (filled (kept ++ todo) spare capacity) (length kept) s)
            (kept ++ (Contents.remove_if p todo s).0, (Contents.remove_if p todo s).1)

    round_lem :
        (fuel : ℕ) (kept todo : List A) (spare : List (Option A)) (capacity : ℕ) (x : A) (s : S)
        (answer : Predicate)
        → Filters fuel
        → (p x s).0 ≡ answer
        → length todo < fuel
        → length (kept ++ (x ∷ todo)) < word_limit
        → 0 < capacity
        → capacity ≡ length (kept ++ (x ∷ todo)) + length spare
        → EndsWith
            (remove_loop p (suc fuel) (filled (kept ++ (x ∷ todo)) spare capacity) (length kept) s)
            (kept ++ (Contents.remove_if p (x ∷ todo) s).0, (Contents.remove_if p (x ∷ todo) s).1)
    unfolding remove_loop Contents.remove_if
    round_lem fuel kept todo spare capacity x s true_ rest e short lt pos full =
        let more = length-append kept (x ∷ todo) in
        let less = length-append kept todo in
        rw
          (
            lt→ltb (length kept) (length (kept ++ (x ∷ todo))) (omega arith),
            at-filled kept todo spare capacity x,
            e,
            erase-filled kept todo spare capacity x lt,
            index_back (length kept) (omega arith),
          )
          (rest kept todo (spare_after x todo spare) capacity (p x s).1 short (omega arith) pos
            (omega (arith, length-spare_after x todo spare)))
    round_lem fuel kept todo spare capacity x s false_ rest e short lt pos full =
        let more = length-append kept (x ∷ todo) in
        let next : length (kept ++ (x ∷ [])) ≡ length kept + 1 =
          omega (arith, length-append kept (x ∷ [])) in
        rw
          (
            lt→ltb (length kept) (length (kept ++ (x ∷ todo))) (omega arith),
            at-filled kept todo spare capacity x,
            e,
            u64_small (length kept + 1) (omega arith),
          )
          ((rw
              (
                append_assoc kept (x ∷ []) todo,
                next,
                append_assoc kept (x ∷ []) (Contents.remove_if p todo (p x s).1).0,
              )
              at (rest (kept ++ (x ∷ [])) todo spare capacity (p x s).1 short))
            lt pos full)
    round_lem fuel kept todo spare capacity x s true_finish rest e short lt pos full =
        let more = length-append kept (x ∷ todo) in
        let less = length-append kept todo in
        rw
          (
            lt→ltb (length kept) (length (kept ++ (x ∷ todo))) (omega arith),
            at-filled kept todo spare capacity x,
            e,
            erase-filled kept todo spare capacity x lt,
          )
          (
            _,
            refl,
            allocated (kept ++ todo) (spare_after x todo spare) capacity pos
                (omega (arith, length-spare_after x todo spare)),
          )
    round_lem fuel kept todo spare capacity x s false_finish rest e short lt pos full =
        let more = length-append kept (x ∷ todo) in
        rw
          (
            lt→ltb (length kept) (length (kept ++ (x ∷ todo))) (omega arith),
            at-filled kept todo spare capacity x,
            e,
          )
          (_, refl, allocated (kept ++ (x ∷ todo)) spare capacity pos full)

    remove_loop-Filters : (fuel : ℕ) → Filters fuel
    unfolding remove_loop Contents.remove_if
    remove_loop-Filters zero kept todo spare capacity s short lt pos full = absurd (omega arith)
    remove_loop-Filters (suc fuel) kept [] spare capacity s short lt pos full =
        let e : length (kept ++ []) ≡ length kept = ap length (append-nil kept) in
        let stop : ltb (length kept) (length (kept ++ [])) ≡ false = ground arith in
        rw stop (_, refl, allocated (kept ++ []) spare capacity pos full)
    remove_loop-Filters (suc fuel) kept (x ∷ todo) spare capacity s short lt pos full =
        round_lem fuel kept todo spare capacity x s (p x s).0 (remove_loop-Filters fuel) refl
          (omega arith) lt pos full

    -- On a vector that holds a sequence, `taskio_vec_remove_if` faults nowhere, ends, leaves the
    -- vector with exactly the elements that the list's filter leaves, in their order, and calls the
    -- predicate on the elements in order until it answers that it has finished: the state that the
    -- calls go through is the filter's.
    pub remove_if-refines :
        (v : Vec A) (xs : List A) (s : S)
        → Stores v xs
        → v.len < word_limit
        → EndsWith (remove_if p v s) (Contents.remove_if p xs s)
    unfolding remove_if Contents.remove_if remove_loop init
    remove_if-refines _ _ s unallocated lt = (_, refl, unallocated)
    remove_if-refines _ _ s (allocated xs spare capacity pos e) lt =
        remove_loop-Filters (length xs + 1) [] xs spare capacity s (omega arith) lt pos e
