-- ===== src/Prelude/Copies.antt =====
-- How often a list of numbers has one of them.
use Prim.Native.Nat.{ℕ, ◌+◌, ◌≤◌}
use mathlib.Core.Path.{◌≡◌}
use mathlib.Core.Logic.{◌≢◌}
use mathlib.Core.List.{List, [], ◌∷◌, ◌++◌}
use native.Mathlib.Omega.{arith}
use taskio.Prelude.Tests.{◌==◌, if◌then◌else◌}
use taskio.Prelude.Lists.{weight, weight-append, All}

abbrev pub copies : ℕ → List ℕ → ℕ
copies id ids = weight (λ x. if x == id then 1 else 0) ids

pub copies-push :
    (j id : ℕ) (ids : List ℕ) → copies j (ids ++ (id ∷ [])) ≡ copies j ids + copies j (id ∷ [])
copies-push j id ids = weight-append (λ x. if x == j then 1 else 0) ids (id ∷ [])

pub copies-same : (id : ℕ) (ids : List ℕ) → copies id (id ∷ ids) ≡ copies id ids + 1
copies-same id ids = ground arith

pub copies-other : (id j : ℕ) (ids : List ℕ) → id ≢ j → copies j (id ∷ ids) ≡ copies j ids
copies-other id j ids ne = ground arith

pub copies-more : (j id : ℕ) (ids : List ℕ) → copies j ids ≤ copies j (id ∷ ids)
copies-more j id ids = omega arith

pub copies-none : (id : ℕ) (ids : List ℕ) → copies id ids ≡ 0 → All (λ j. j ≢ id) ids
copies-none id [] e = tt
copies-none id (x ∷ ids) e = ((ground arith), copies-none id ids (ground arith))
