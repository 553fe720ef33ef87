-- ===== src/Wheel/Remove.antt =====
-- taskio_vec_remove_if in a bucket under _abort_predicate and _fire_predicate of src/wheel.c: the
-- first timer with the id goes.
use mathlib.Core.List.{append-nil}
use taskio.Prelude.{
  ℕ, ◌+◌, ◌≡◌, ◌≢◌, refl, inl, inr, List, [], ◌∷◌, ◌++◌, arith, ◌==◌, if◌then◌else◌, Bool-cases,
  All, weight,
}
use taskio.Vec.Contents.{remove_if}
use taskio.Wheel.{Timer, TimerHandle, abort_predicate, fire_predicate}

-- The timers without the first one of the id, and that one.
pub without : ℕ → List Timer → List Timer
without id [] = []
without id (x ∷ xs) = if x.id == id then xs else x ∷ without id xs

pub found : ℕ → List Timer → List Timer
found id [] = []
found id (x ∷ xs) = if x.id == id then x ∷ [] else found id xs

pub remove_if-abort :
    (handle : TimerHandle) (xs calls : List Timer)
    → remove_if (abort_predicate handle) xs calls ≡ (without handle.id xs, calls)
unfolding remove_if abort_predicate without
remove_if-abort handle [] calls = refl
remove_if-abort handle (x ∷ xs) calls = elim (Bool-cases (x.id == handle.id)) [
  | inl e ↦ rw e refl
  | inr e ↦ rw (e, remove_if-abort handle xs calls) refl
]

pub remove_if-fire :
    (handle : TimerHandle) (xs calls : List Timer)
    → remove_if (fire_predicate handle) xs calls
      ≡ (without handle.id xs, calls ++ found handle.id xs)
unfolding remove_if fire_predicate without found
remove_if-fire handle [] calls = rw (append-nil calls) refl
remove_if-fire handle (x ∷ xs) calls = elim (Bool-cases (x.id == handle.id)) [
  | inl e ↦ rw e refl
  | inr e ↦ rw (e, remove_if-fire handle xs calls) refl
]

pub weight-without :
    (w : Timer → ℕ) (id : ℕ) (xs : List Timer)
    → weight w (without id xs) + weight w (found id xs) ≡ weight w xs
unfolding without found
weight-without w id [] = omega arith
weight-without w id (x ∷ xs) = ground (arith, weight-without w id xs)

pub All-without {κ} :
    (P : Timer → Type κ) (id : ℕ) (xs : List Timer) → All P xs → All P (without id xs)
unfolding without
All-without P id [] h = tt
All-without P id (x ∷ xs) h = elim (Bool-cases (x.id == id)) [
  | inl e ↦ rw e (h.1)
  | inr e ↦ rw e (h.0, All-without P id xs h.1)
]

-- Nothing is found, and nothing goes, exactly where no timer has the id.
pub found-nil : (id : ℕ) (xs : List Timer) → All (λ y. y.id ≢ id) xs → found id xs ≡ []
unfolding found
found-nil id [] h = refl
found-nil id (x ∷ xs) h = ground (arith, found-nil id xs h.1)

pub found-hit :
    (id : ℕ) (before after : List Timer) (x : Timer)
    → All (λ y. y.id ≢ id) before
    → x.id ≡ id
    → found id (before ++ (x ∷ after)) ≡ x ∷ []
unfolding found
found-hit id [] after x h e = ground arith
found-hit id (y ∷ before) after x h e = ground (arith, found-hit id before after x h.1)
