-- ===== src/Hierarchy/Setup.antt =====
-- _wheel_setup and taskio_runtime_drop in src/platform/linux/runtime.c: the first and the last state
-- of the hierarchy.
use native.Mathlib.Nat.{zero-div}
use taskio.Prelude.{ℕ, ◌≡◌, refl, sym, arith}
use taskio.Wheel.{Timer}
use taskio.Hierarchy.{resolutions, wheel_setup}
use taskio.Hierarchy.Weight.{weigh, weigh-zero}
use taskio.Hierarchy.Placement.{Inv}

setup_empty : (w : Timer → ℕ) → weigh w wheel_setup.wheels ≡ 0
unfolding wheel_setup
setup_empty w = weigh-zero w _ λ i hi j hj. refl

-- The runtime starts between two ticks, with nothing on the agenda.
pub setup-Inv : Inv 0 wheel_setup
unfolding wheel_setup
setup-Inv = record {
  wheels = λ i hi. record {
    tick = sym (zero-div (resolutions i));
    id = refl;
    resolution = refl;
    wheel_size = refl;
    loop_handler = refl;
    expiry_handler = refl;
  };
  placed = λ i hi j hj. tt;
  counted = sym (setup_empty (λ _. 1));
  few = omega arith;
  armed = refl;
}
