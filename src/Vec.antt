-- ===== src/Vec.antt =====
-- src/collections/vec.h: the growable arrays as the macros build them, over a block of memory that
-- one vector owns. The allocator is taken to return fresh memory; sizes count elements, not bytes.
-- `taskio_vec_pop_last` is left out: its text names a `T` that is no parameter of the macro.
pub mod Contents
pub mod Stores
pub mod Push
pub mod Remove
mod Tests
use taskio.Prelude.{
  ℕ, zero, suc, ◌+◌, ◌-◌, ◌*◌, ◌≡◌, Bool, Option, none, some, List, [], ◌++◌, ltb, leb, ◌==◌,
  if◌then◌else◌, length, get_elem?, set, take, drop, replicate, u64, u64_dec, Run, done, fault,
  out_of_bounds, null_pointer, freed_pointer, uninitialised, out_of_fuel, ◌>>=◌,
}
use Contents.{Predicate, true_, false_, true_finish, false_finish}

-- What the pointer `data` points to: a block of cells, which hold a value or were never written.
pub data Block {ℓ} (A : Type ℓ) : Type ℓ where
  null : Block A
  live : List (Option A) → Block A
  freed : Block A

-- taskio_vec_impl
pub record Vec {ℓ} (A : Type ℓ) : Type ℓ where
  pub len : ℕ
  pub capacity : ℕ
  pub block : Block A

module _ {ℓ} {A : Type ℓ} where
  -- taskio_vec_init
  unfoldable pub init : Vec A
  init = record { len = 0; capacity = 0; block = null }

  -- taskio_vec_move: the destination, and the source.
  unfoldable pub move : Vec A → Vec A × Vec A
  unfolding init
  move src = (src, init)

  -- taskio_vec_clear without a destructor, which is taskio_vec_destroy
  unfoldable pub clear : Vec A → Run (Vec A)
  unfolding init
  clear v = elim v.block [ null ↦ done init | live _ ↦ done init | freed ↦ fault freed_pointer ]

  -- allocator->alloc of `n` elements
  unfoldable pub alloc : ℕ → Block A
  alloc n = live (replicate n none)

  cells_of : Block A → Run (List (Option A))
  cells_of null = fault null_pointer
  cells_of (live cells) = done cells
  cells_of freed = fault freed_pointer

  -- The value of a cell that a pointer leads to.
  cell : Option (Option A) → Run A
  cell none = fault out_of_bounds
  cell (some none) = fault uninitialised
  cell (some (some a)) = done a

  -- taskio_vec_at, read
  unfoldable pub at : Vec A → ℕ → Run A
  unfolding cells_of cell
  at v index = do cells ← cells_of v.block; cell (get_elem? cells index)

  -- taskio_vec_at, assigned
  unfoldable pub put : Vec A → ℕ → A → Run (Vec A)
  unfolding cells_of
  put v index a = do
    cells ← cells_of v.block
    if ltb index (length cells)
        then done (record v { block = live (set cells index (some a)) })
        else fault out_of_bounds

  -- memcpy of `n` elements to the start of another block
  unfoldable pub memcpy : ℕ → Block A → Block A → Run (Block A)
  unfolding cells_of
  memcpy n dst src = do
    from ← cells_of src
    to ← cells_of dst
    if leb n (length from)
        then (if leb n (length to)
            then done (live (take n from ++ drop n to))
            else fault out_of_bounds)
        else fault out_of_bounds

  -- `if ((vec)->data) { memcpy … free … }`
  unfoldable pub relocate : Vec A → Block A → Run (Block A)
  relocate v new_data = elim v.block [
    | null ↦ done new_data
    | live _ ↦ memcpy v.capacity new_data v.block
    | freed ↦ fault freed_pointer
  ]

  unfoldable pub grow : Vec A → Run (Vec A)
  grow v =
      let new_capacity = if ltb 0 v.capacity then u64 (v.capacity * 2) else 16 in
      do
        new_data ← relocate v (alloc new_capacity)
        done (record v { capacity = new_capacity; block = new_data })

  -- taskio_vec_push_last
  unfoldable pub push_last : Vec A → A → Run (Vec A)
  push_last v obj = do
    v' ← if leb v.capacity v.len then grow v else done v
    v'' ← put v' v'.len obj
    done (record v'' { len = u64 (v''.len + 1) })

  -- taskio_vec_shrink: the block that is freed is the new one.
  unfoldable pub shrink : Vec A → Run (Vec A)
  shrink v =
      let shrunk : Run (Vec A) = do
        _ ← memcpy v.len (alloc v.len) v.block
        done (record v { capacity = v.len; block = freed })
      in if ltb v.len v.capacity
        then if v.len == 0 then done (record v { capacity = v.len; block = null }) else shrunk
        else done v

  -- `memmove` of the elements behind `i` to `i`, and the shorter length
  unfoldable pub erase : Vec A → ℕ → Run (Vec A)
  unfolding cells_of
  erase v i =
      let n = v.len - i - 1 in
      do
        cells ← cells_of v.block
        if ltb 0 n
            then (if leb (i + 1 + n) (length cells)
                then done (record v {
                  len = u64_dec v.len;
                  block =
                      live (take i cells ++ (take n (drop (i + 1) cells) ++ drop (i + n) cells));
                })
                else fault out_of_bounds)
            else done (record v { len = u64_dec v.len })

  -- taskio_vec_remove_if from index `i` on; `_vec_var_i -= 1` may wrap before `_vec_var_i++`.
  module _ {κ} {S : Type κ} (p : A → S → Predicate × S) where
    unfoldable pub remove_loop : ℕ → Vec A → ℕ → S → Run (Vec A × S)
    remove_loop zero v i s = fault out_of_fuel
    remove_loop (suc fuel) v i s =
        let keep = λ (s' : S). remove_loop fuel v (u64 (i + 1)) s' in
        let drop_it =
          λ (s' : S). erase v i >>= λ v'. remove_loop fuel v' (u64 (u64_dec i + 1)) s' in
        let round : Run (Vec A × S) = at v i >>= λ x.
        let (answer, s') = p x s in
        elim answer [
          | true_ ↦ drop_it s'
          | false_ ↦ keep s'
          | true_finish ↦ erase v i >>= λ v'. done (v', s')
          | false_finish ↦ done (v, s')
        ] in
        if ltb i v.len then round else done (v, s)

    -- taskio_vec_remove_if; each round keeps an element or makes the vector shorter.
    unfoldable pub remove_if : Vec A → S → Run (Vec A × S)
    unfolding remove_loop
    remove_if v s = remove_loop (v.len + 1) v 0 s
