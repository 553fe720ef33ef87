-- ===== src/Vec/Stores.antt =====
-- When a vector of src/collections/vec.h holds a sequence: it has no block and the sequence is
-- empty, or its block has `capacity` cells and starts with the sequence.
use taskio.Prelude.{
  ℕ, ◌+◌, ◌-◌, ◌≤◌, ◌<◌, ◌≡◌, refl, sym, ap, List, [], ◌∷◌, ◌++◌, some, Option, arith, map, length,
  take, drop, get_elem?, length-append, length-map, drop-suc, u64_dec, u64_dec_pos, word_limit,
  done, le→leb, lt→ltb,
}
use taskio.Vec.{Vec, live, init, at, cells_of, erase}

module _ {ℓ} {A : Type ℓ} where
  abbrev pub filled : List A → List (Option A) → ℕ → Vec A
  filled xs spare capacity = record {
    len = length xs;
    capacity = capacity;
    block = live (map some xs ++ spare);
  }

  pub data Stores : Vec A → List A → Type ℓ where
    unallocated : Stores init []
    allocated :
        (xs : List A) (spare : List (Option A)) (capacity : ℕ)
        → 0 < capacity
        → capacity ≡ length xs + length spare
        → Stores (filled xs spare capacity) xs

  pub length-cells :
      (xs : List A) (spare : List (Option A))
      → length (map some xs ++ spare) ≡ length xs + length spare
  length-cells xs spare = omega (arith, length-append (map some xs) spare, length-map some xs)

  at-cells :
      (kept xs : List A) (spare : List (Option A)) (x : A)
      → get_elem? (map some (kept ++ (x ∷ xs)) ++ spare) (length kept) ≡ some (some x)
  at-cells [] xs spare x = refl
  at-cells (y ∷ kept) xs spare x = at-cells kept xs spare x

  pub at-filled :
      (kept xs : List A) (spare : List (Option A)) (capacity : ℕ) (x : A)
      → at (filled (kept ++ (x ∷ xs)) spare capacity) (length kept) ≡ done x
  unfolding at
  at-filled kept xs spare capacity x = rw (at-cells kept xs spare x) refl

  -- The cells behind the elements after one element is gone.
  pub spare_after : A → List A → List (Option A) → List (Option A)
  spare_after x xs spare = drop (length xs) (some x ∷ (map some xs ++ spare))

  pub length-spare_after :
      (x : A) (xs : List A) (spare : List (Option A))
      → length (spare_after x xs spare) ≡ 1 + length spare
  unfolding spare_after
  length-spare_after x [] spare = omega arith
  length-spare_after x (y ∷ xs) spare = length-spare_after y xs spare

  -- What `memmove` makes of the cells.
  moved : ℕ → ℕ → List (Option A) → List (Option A)
  moved i n cells = take i cells ++ (take n (drop (i + 1) cells) ++ drop (i + n) cells)

  pub take-cells :
      (xs : List A) (spare : List (Option A))
      → take (length xs) (map some xs ++ spare) ≡ map some xs
  take-cells [] spare = refl
  take-cells (x ∷ xs) spare = ap (◌∷◌ (some x)) (take-cells xs spare)

  moved_cells :
      (kept xs : List A) (spare : List (Option A)) (x : A)
      → moved (length kept) (length xs) (map some (kept ++ (x ∷ xs)) ++ spare)
        ≡ map some (kept ++ xs) ++ spare_after x xs spare
  unfolding moved spare_after
  moved_cells [] xs spare x =
      let e : 0 + length xs ≡ length xs = omega arith in
      rw (take-cells xs spare) (ap (λ k. map some xs ++ drop k (some x ∷ (map some xs ++ spare))) e)
  moved_cells (y ∷ kept) xs spare x =
      let cells = map some (kept ++ (x ∷ xs)) ++ spare in
      rw
        (drop-suc (length kept) 1 (some y) cells, drop-suc (length kept) (length xs) (some y) cells)
        (ap (◌∷◌ (some y)) (moved_cells kept xs spare x))

  erase_moves :
      (len i n capacity : ℕ) (cells : List (Option A))
      → len ≡ i + 1 + n
      → 0 < n
      → len ≤ length cells
      → len < word_limit
      → erase (record { len = len; capacity = capacity; block = live cells }) i
        ≡ done (record { len = i + n; capacity = capacity; block = live (moved i n cells) })
  unfolding erase cells_of moved
  erase_moves len i n capacity cells e pos le lt =
      let en : len - i - 1 ≡ n = omega arith in
      let el : u64_dec len ≡ i + n = omega (arith, u64_dec_pos len) in
      let bound : i + 1 + n ≤ length cells = omega arith in
      rw (en, el, lt→ltb 0 n pos, le→leb (i + 1 + n) (length cells) bound) refl

  erase_last :
      (len i capacity : ℕ) (cells : List (Option A))
      → len ≡ i + 1
      → len < word_limit
      → erase (record { len = len; capacity = capacity; block = live cells }) i
        ≡ done (record { len = i; capacity = capacity; block = live cells })
  unfolding erase cells_of
  erase_last len i capacity cells e lt =
      let en : len - i - 1 ≡ 0 = omega arith in
      let el : u64_dec len ≡ i = omega (arith, u64_dec_pos len) in rw (en, el) refl

  last_cells :
      (kept : List A) (spare : List (Option A)) (x : A)
      → map some (kept ++ (x ∷ [])) ++ spare ≡ map some (kept ++ []) ++ (some x ∷ spare)
  last_cells [] spare x = refl
  last_cells (y ∷ kept) spare x = ap (◌∷◌ (some y)) (last_cells kept spare x)

  pub erase-filled :
      (kept xs : List A) (spare : List (Option A)) (capacity : ℕ) (x : A)
      → length (kept ++ (x ∷ xs)) < word_limit
      → erase (filled (kept ++ (x ∷ xs)) spare capacity) (length kept)
        ≡ done (filled (kept ++ xs) (spare_after x xs spare) capacity)
  unfolding spare_after
  erase-filled kept [] spare capacity x lt =
      let e : length (kept ++ (x ∷ [])) ≡ length kept + 1 =
        omega (arith, length-append kept (x ∷ [])) in
      let e' : length (kept ++ []) ≡ length kept = omega (arith, length-append kept []) in
      rw (e', sym (last_cells kept spare x))
        (erase_last (length (kept ++ (x ∷ []))) (length kept) capacity
          (map some (kept ++ (x ∷ [])) ++ spare) e lt)
  erase-filled kept (y ∷ xs) spare capacity x lt =
      let zs = kept ++ (x ∷ y ∷ xs) in
      let e : length zs ≡ length kept + 1 + length (y ∷ xs) =
        omega (arith, length-append kept (x ∷ y ∷ xs)) in
      let e' : length (kept ++ (y ∷ xs)) ≡ length kept + length (y ∷ xs) =
        length-append kept (y ∷ xs) in
      rw (e', sym (moved_cells kept (y ∷ xs) spare x))
        (erase_moves (length zs) (length kept) (length (y ∷ xs)) capacity (map some zs ++ spare) e
          (omega arith) (omega (arith, length-cells zs spare)) lt)
