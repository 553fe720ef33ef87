-- ===== src/Vec/Push.antt =====
-- taskio_vec_push_last, taskio_vec_move, taskio_vec_clear and taskio_vec_shrink of
-- src/collections/vec.h on a vector that holds a sequence.
use taskio.Prelude.{
  ℕ, ◌+◌, ◌*◌, ◌<◌, ◌≡◌, refl, sym, ap, Option, none, some, List, [], ◌∷◌, ◌++◌, arith, map, length,
  replicate, length-append, length-replicate, length-drop, drop, set, u64, u64_small, word_limit,
  Run, done, fault, freed_pointer, lt→ltb, le→leb, lt→leb, ◌>>=◌, ◌==◌, false,
}
use taskio.Vec.{
  Vec, live, init, at, put, push_last, grow, relocate, memcpy, alloc, shrink, cells_of,
}
use taskio.Vec.Contents
use taskio.Vec.Stores.{Stores, unallocated, allocated, filled, length-cells, take-cells}

module _ {ℓ} {A : Type ℓ} where
  -- The run ends with a vector that holds the list.
  abbrev pub Pushed : List A → Run (Vec A) → Type ℓ
  Pushed xs run = (v' : Vec A) × (run ≡ done v') × Stores v' xs

  set-cells :
      (xs : List A) (spare : List (Option A)) (c : Option A) (x : A)
      → set (map some xs ++ (c ∷ spare)) (length xs) (some x) ≡ map some (xs ++ (x ∷ [])) ++ spare
  set-cells [] spare c x = refl
  set-cells (y ∷ xs) spare c x = ap (◌∷◌ (some y)) (set-cells xs spare c x)

  -- With a spare cell, it takes the element.
  store_lem :
      (xs : List A) (spare : List (Option A)) (capacity : ℕ) (x : A)
      → 0 < length spare
      → capacity ≡ length xs + length spare
      → capacity < word_limit
      → Pushed (xs ++ (x ∷ [])) (
          put (filled xs spare capacity) (length xs) x >>= λ v.
          done (record v { len = u64 (v.len + 1) }))
  unfolding put cells_of
  store_lem xs [] capacity x some_left full lt = absurd (omega arith)
  store_lem xs (c ∷ spare) capacity x some_left full lt =
      let n = length-cells xs (c ∷ spare) in
      let len : length (xs ++ (x ∷ [])) ≡ length xs + 1 = length-append xs (x ∷ []) in
      rw
        (
          lt→ltb (length xs) (length (map some xs ++ (c ∷ spare))) (omega arith),
          set-cells xs spare c x,
          u64_small (length xs + 1) (omega arith),
          sym len,
        )
        (_, refl, allocated (xs ++ (x ∷ [])) spare capacity (omega arith) (omega arith))

  -- Without one, the cells go to the front of a block with twice as many.
  new_spare : List A → List (Option A)
  new_spare xs = drop (length xs) (replicate (length xs * 2) none)

  new_cells : (xs : List A) → length (replicate {A = Option A} (length xs * 2) none) ≡ length xs * 2
  new_cells xs = length-replicate (length xs * 2) none

  length-new_spare : (xs : List A) → length (new_spare xs) ≡ length xs
  unfolding new_spare
  length-new_spare xs =
      omega (
        arith,
        length-drop (length xs) (replicate {A = Option A} (length xs * 2) none),
        new_cells xs,
      )

  grow_full :
      (xs : List A)
      → 0 < length xs
      → length xs * 2 < word_limit
      → grow (filled xs [] (length xs)) ≡ done (filled xs (new_spare xs) (length xs * 2))
  unfolding grow relocate memcpy alloc cells_of new_spare
  grow_full xs pos lt =
      let n = length-cells xs [] in
      let m = new_cells xs in
      rw
        (
          lt→ltb 0 (length xs) pos,
          u64_small (length xs * 2) lt,
          le→leb (length xs) (length (map some xs ++ [])) (omega arith),
          le→leb (length xs) (length (replicate {A = Option A} (length xs * 2) none)) (omega arith),
          take-cells xs [],
        )
        refl

  grow_null : grow (init {A = A}) ≡ done (filled [] (replicate 16 none) 16)
  unfolding grow relocate init alloc
  grow_null = refl

  -- Pushing to a vector that holds a sequence does not fault and leaves one that holds the sequence
  -- with the element behind it, when the block may double without `size_t` wrapping.
  pub push_last-refines :
      (v : Vec A) (xs : List A) (x : A)
      → Stores v xs
      → v.capacity * 2 < word_limit
      → Pushed (Contents.push_last xs x) (push_last v x)
  unfolding push_last Contents.push_last init put
  push_last-refines _ _ x unallocated lt =
      rw grow_null (store_lem [] (replicate 16 none) 16 x (omega arith) refl (omega arith))
  push_last-refines _ _ x (allocated xs [] capacity pos e) lt =
      let len : capacity ≡ length xs = omega arith in
      rw
        (
          len,
          le→leb (length xs) (length xs) (omega arith),
          grow_full xs (omega arith) (omega arith),
        )
        (store_lem xs (new_spare xs) (length xs * 2) x (omega (arith, length-new_spare xs))
          (omega (arith, length-new_spare xs)) (omega arith))
  push_last-refines _ _ x (allocated xs (c ∷ spare) capacity pos e) lt =
      rw (lt→leb capacity (length xs) (omega arith))
        (store_lem xs (c ∷ spare) capacity x (omega arith) e (omega arith))

  copied :
      (xs : List A) (spare : List (Option A))
      → memcpy (length xs) (alloc (length xs)) (live (map some xs ++ spare))
        ≡ done (live (map some xs ++ drop (length xs) (replicate {A = Option A} (length xs) none)))
  unfolding memcpy alloc cells_of
  copied xs spare =
      let n = length-cells xs spare in
      let m = length-replicate {A = Option A} (length xs) none in
      rw
        (
          le→leb (length xs) (length (map some xs ++ spare)) (omega arith),
          le→leb (length xs) (length (replicate {A = Option A} (length xs) none)) (omega arith),
          take-cells xs spare,
        )
        refl

  -- Shrinking a vector that holds a non-empty sequence and has a spare cell ends, and leaves the
  -- length as it was and a vector whose block is freed: every read of an element then faults, and so
  -- does the next push.
  pub shrink-Dangles :
      (v : Vec A) (xs : List A) (i : ℕ) (x : A)
      → Stores v xs
      → 0 < v.len
      → v.len < v.capacity
      → (v' : Vec A) × (shrink v ≡ done v')
        × (v'.len ≡ length xs)
        × (at v' i ≡ fault freed_pointer)
        × (push_last v' x ≡ fault freed_pointer)
  unfolding shrink at push_last grow relocate cells_of init
  shrink-Dangles _ _ i x unallocated some_in room = absurd (omega arith)
  shrink-Dangles _ _ i x (allocated xs spare capacity pos e) some_in room =
      let filled_in : (length xs == 0) ≡ false = ground arith in
      rw (lt→ltb (length xs) capacity room, filled_in, copied xs spare)
        (_, refl, refl, refl, rw (le→leb (length xs) (length xs) (omega arith)) refl)
