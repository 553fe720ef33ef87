-- ===== src/Prelude/Sums.antt =====
-- Sums of the first values of a family of numbers.
use Prim.Native.Nat.{ℕ, zero, suc, ◌+◌, ◌<◌}
use mathlib.Core.Path.{◌≡◌, refl, ap}
use mathlib.Core.Logic.{◌≢◌}
use native.Mathlib.Omega.{arith}
use native.Mathlib.Decide.{dec_lt}

unfoldable pub sum_below : ℕ → (ℕ → ℕ) → ℕ
sum_below zero f = 0
sum_below (suc n) f = sum_below n f + f n

pub sum_below-next : (n : ℕ) (f : ℕ → ℕ) → sum_below (n + 1) f ≡ sum_below n f + f n
unfolding sum_below
sum_below-next n f = let next : n + 1 ≡ suc n = omega arith in ap (λ k. sum_below k f) next

pub sum_below-eq :
    (n : ℕ) (f g : ℕ → ℕ) → ((k : ℕ) → k < n → f k ≡ g k) → sum_below n f ≡ sum_below n g
unfolding sum_below
sum_below-eq zero f g h = refl
sum_below-eq (suc n) f g h =
    omega (arith, h n (omega arith), sum_below-eq n f g (λ k lt. h k (omega arith)))

pub sum_below-zero : (n : ℕ) (f : ℕ → ℕ) → ((k : ℕ) → k < n → f k ≡ 0) → sum_below n f ≡ 0
unfolding sum_below
sum_below-zero zero f h = refl
sum_below-zero (suc n) f h =
    omega (arith, h n (omega arith), sum_below-zero n f (λ k lt. h k (omega arith)))

-- Two families that differ at `i` only.
pub sum_below-change :
    (n : ℕ) (f g : ℕ → ℕ) (i : ℕ)
    → ((k : ℕ) → k < n → i ≢ k → g k ≡ f k)
    → i < n
    → sum_below n g + f i ≡ sum_below n f + g i
unfolding sum_below
sum_below-change zero f g i same h = absurd (omega arith)
sum_below-change (suc n) f g i same h = elim (dec_lt i n) [
  | yes below ↦ omega (
    arith,
    same n (omega arith) (omega arith),
    sum_below-change n f g i (λ k lt ne. same k (omega arith) ne) below,
  )
  | no last ↦
      let e : i ≡ n = omega arith in
      rw e (omega (arith, sum_below-eq n g f (λ k lt. same k (omega arith) (omega arith))))
]

pub sum_below-add :
    (n : ℕ) (f g : ℕ → ℕ) → sum_below n (λ k. f k + g k) ≡ sum_below n f + sum_below n g
unfolding sum_below
sum_below-add zero f g = refl
sum_below-add (suc n) f g = omega (arith, sum_below-add n f g)
