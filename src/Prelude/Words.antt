-- ===== src/Prelude/Words.antt =====
-- `uint64_t` and the 64-bit `size_t`: arithmetic modulo 2^64.
use Prim.Native.Nat.{ℕ, ◌+◌, ◌-◌, ◌%◌, ◌^◌, ◌<◌}
use mathlib.Core.Path.{◌≡◌, refl}
use mathlib.Core.Logic.{◌≢◌}
use native.Mathlib.Omega.{arith}

abbrev pub word_limit : ℕ
word_limit = 2 ^ 64

-- The value that a 64-bit variable holds of a result.
unfoldable pub u64 : ℕ → ℕ
u64 n = n % word_limit

-- `n--` and `n - 1` wrap round below 0.
unfoldable pub u64_dec : ℕ → ℕ
unfolding u64
u64_dec n = u64 (n + word_limit - 1)

pub u64_small : (n : ℕ) → n < word_limit → u64 n ≡ n
unfolding u64
u64_small n h = omega arith

pub u64-lt-limit : (n : ℕ) → u64 n < word_limit
unfolding u64
u64-lt-limit n = omega arith

pub u64_dec_pos : (n : ℕ) → 0 < n → n < word_limit → u64_dec n + 1 ≡ n
unfolding u64_dec
u64_dec_pos n h lt = omega arith

pub u64_dec_suc : (n m : ℕ) → n ≡ m + 1 → n < word_limit → u64_dec n ≡ m
unfolding u64 u64_dec
u64_dec_suc n m e lt = omega arith

pub u64_dec-ne : (n : ℕ) → n < word_limit → u64_dec n ≢ n
unfolding u64_dec
u64_dec-ne n h = omega arith

pub u64_dec_zero : u64_dec 0 ≡ word_limit - 1
unfolding u64_dec
u64_dec_zero = refl
