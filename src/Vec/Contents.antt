-- ===== src/Vec/Contents.antt =====
-- The operations of src/collections/vec.h on the sequence that a vector stands for. The wheels
-- (src/wheel.c) are written over these; the vectors themselves are in the parent module.
use taskio.Prelude.{List, [], ◌∷◌, ◌++◌}

-- enum taskio_predicate
pub data Predicate : Type 0 where
  true_ false_ true_finish false_finish : Predicate

module _ {ℓ} {A : Type ℓ} where
  unfoldable pub push_last : List A → A → List A
  push_last xs obj = xs ++ (obj ∷ [])

  -- What the predicate does besides answering goes through a state.
  module _ {κ} {S : Type κ} where
    remove_if_step : A → List A → Predicate × S → (S → List A × S) → List A × S
    remove_if_step x xs (true_, s) rest = rest s
    remove_if_step x xs (false_, s) rest = let (kept, s') = rest s in (x ∷ kept, s')
    remove_if_step x xs (true_finish, s) rest = (xs, s)
    remove_if_step x xs (false_finish, s) rest = (x ∷ xs, s)

    unfoldable pub remove_if : (A → S → Predicate × S) → List A → S → List A × S
    unfolding remove_if_step
    remove_if p [] s = ([], s)
    remove_if p (x ∷ xs) s = remove_if_step x xs (p x s) (remove_if p xs)
