-- ===== src/Hierarchy/Levels.antt =====
-- The arithmetic of the levels: the tables of _wheel_setup and the choice of _find_wheel in
-- src/platform/linux/.
use taskio.Prelude.{ℕ, zero, suc, ◌*◌, ◌/◌, ◌%◌, ◌≤◌, ◌<◌, ◌≡◌, refl, arith}
use taskio.Hierarchy.{wheel_levels, resolutions, lengths, find_wheel}

-- The times at which the last wheel has turned once: four years of milliseconds.
abbrev pub horizon : ℕ
horizon = 126144000000

-- What the tables say of a level: a turn of a wheel does not pass the horizon, which is a
-- number of whole turns.
pub record IsLevel (i : ℕ) : Type 0 where
  pub step_pos : 0 < resolutions i
  pub step_le : resolutions i ≤ horizon
  pub size_pos : 0 < lengths i
  pub turn_le : resolutions i * lengths i ≤ horizon
  pub step_divides : horizon % resolutions i ≡ 0
  pub turn_divides : horizon / resolutions i % lengths i ≡ 0

pub level : (i : ℕ) → i < wheel_levels → IsLevel i
level zero h = omega arith
level (suc zero) h = omega arith
level (suc (suc zero)) h = omega arith
level (suc (suc (suc zero))) h = omega arith
level (suc (suc (suc (suc zero)))) h = omega arith
level (suc (suc (suc (suc (suc zero))))) h = omega arith
level (suc (suc (suc (suc (suc (suc zero)))))) h = omega arith
level (suc (suc (suc (suc (suc (suc (suc zero))))))) h = omega arith
level (suc (suc (suc (suc (suc (suc (suc (suc i)))))))) h = absurd (omega arith)

-- A turn of a wheel is one step of the wheel above.
pub resolutions-suc :
    (i : ℕ) → suc i < wheel_levels → resolutions (suc i) ≡ resolutions i * lengths i
resolutions-suc zero h = refl
resolutions-suc (suc zero) h = refl
resolutions-suc (suc (suc zero)) h = refl
resolutions-suc (suc (suc (suc zero))) h = refl
resolutions-suc (suc (suc (suc (suc zero)))) h = refl
resolutions-suc (suc (suc (suc (suc (suc zero))))) h = refl
resolutions-suc (suc (suc (suc (suc (suc (suc zero)))))) h = refl
resolutions-suc (suc (suc (suc (suc (suc (suc (suc i))))))) h = absurd (omega arith)

-- A delay goes to the wheel whose step it reaches and whose turn it does not.
pub record Fits (i d : ℕ) : Type 0 where
  pub in_range : i < wheel_levels
  pub reaches : resolutions i ≤ d
  pub within : d < resolutions i * lengths i

pub find_wheel-Fits : (d : ℕ) → 0 < d → d < horizon → Fits (find_wheel d) d
unfolding find_wheel
find_wheel-Fits d pos small = ground arith

pub find_wheel-lt : (i d : ℕ) → i < wheel_levels → d < resolutions i → 0 < d → find_wheel d < i
unfolding find_wheel
find_wheel-lt zero d h lt pos = absurd (omega arith)
find_wheel-lt (suc zero) d h lt pos = ground arith
find_wheel-lt (suc (suc zero)) d h lt pos = ground arith
find_wheel-lt (suc (suc (suc zero))) d h lt pos = ground arith
find_wheel-lt (suc (suc (suc (suc zero)))) d h lt pos = ground arith
find_wheel-lt (suc (suc (suc (suc (suc zero))))) d h lt pos = ground arith
find_wheel-lt (suc (suc (suc (suc (suc (suc zero)))))) d h lt pos = ground arith
find_wheel-lt (suc (suc (suc (suc (suc (suc (suc zero))))))) d h lt pos = ground arith
find_wheel-lt (suc (suc (suc (suc (suc (suc (suc (suc i)))))))) d h lt pos = absurd (omega arith)
