-- ===== src/Vec/Tests.antt =====
-- The vectors of src/collections/vec.h at concrete contents: runs, and the theorems at these.
use taskio.Prelude.{
  ℕ, ◌+◌, ◌≡◌, refl, [], ◌∷◌, none, some, arith, u64, u64_dec, done, fault, freed_pointer, ltb,
  if◌then◌else◌,
}
use taskio.Vec.{
  Vec, at, put, push_last, grow, relocate, alloc, memcpy, shrink, erase, remove_loop, remove_if,
}
use taskio.Vec.Contents
use taskio.Vec.Contents.{Predicate, true_, false_, true_finish, false_finish}
use taskio.Vec.Stores.{Stores, allocated, filled}
use taskio.Vec.Push.{Pushed, push_last-refines, shrink-Dangles}
use taskio.Vec.Remove.{EndsWith, remove_if-refines}

abbrev three : Vec ℕ
three = filled (5 ∷ 6 ∷ 7 ∷ []) (none ∷ []) 4

abbrev three-Stores : Stores three (5 ∷ 6 ∷ 7 ∷ [])
three-Stores = allocated (5 ∷ 6 ∷ 7 ∷ []) (none ∷ []) 4 (omega arith) (omega arith)

-- Take the first value above 5, and count the calls.
abbrev above : ℕ → ℕ → Predicate × ℕ
above x calls = (if ltb 5 x then true_finish else false_, calls + 1)

full : Vec ℕ
full = filled (5 ∷ 6 ∷ []) [] 2

remove_middle : remove_if above three 0 ≡ done (filled (5 ∷ 7 ∷ []) (some 7 ∷ none ∷ []) 4, 2)
unfolding remove_if remove_loop at erase u64 u64_dec
remove_middle = refl

push_full : push_last full 9 ≡ done (filled (5 ∷ 6 ∷ 9 ∷ []) (none ∷ []) 4)
unfolding push_last grow relocate alloc memcpy put u64 full
push_full = refl

push_last-refines_example : Pushed (Contents.push_last (5 ∷ 6 ∷ 7 ∷ []) 9) (push_last three 9)
push_last-refines_example = push_last-refines three (5 ∷ 6 ∷ 7 ∷ []) 9 three-Stores (omega arith)

remove_if-refines_example :
    EndsWith (remove_if above three 0) (Contents.remove_if above (5 ∷ 6 ∷ 7 ∷ []) 0)
remove_if-refines_example =
    remove_if-refines above three (5 ∷ 6 ∷ 7 ∷ []) 0 three-Stores (omega arith)

shrink-Dangles_example :
    (v' : Vec ℕ) × (shrink three ≡ done v')
    × (v'.len ≡ 3)
    × (at v' 0 ≡ fault freed_pointer)
    × (push_last v' 8 ≡ fault freed_pointer)
shrink-Dangles_example =
    shrink-Dangles three (5 ∷ 6 ∷ 7 ∷ []) 0 8 three-Stores (omega arith) (omega arith)
