-- ===== src/Prelude/Runs.antt =====
-- Runs that may stop: what C leaves undefined, a failed `assert`, or fuel that ran out.
use mathlib.Core.Path.{◌≡◌, refl, sym, ap, subst, ◌∙◌}
use mathlib.Core.Logic.{◌⊎◌, inl, inr}

pub data Fault : Type 0 where
  out_of_bounds null_pointer freed_pointer assert_failed uninitialised out_of_fuel : Fault

pub data Run {ℓ} (A : Type ℓ) : Type ℓ where
  done : A → Run A
  fault : Fault → Run A

infixl 5 ◌>>=◌
abbrev pub ◌>>=◌ {ℓ κ} : {A : Type ℓ} {B : Type κ} → Run A → (A → Run B) → Run B
done a >>= f = f a
fault e >>= f = fault e

pub done-injective {ℓ} : {A : Type ℓ} (a b : A) → done a ≡ done b → a ≡ b
done-injective a b e = ap (λ r. elim r [ done x ↦ x | fault _ ↦ a ]) e

-- Two results of one run are one.
pub both {ℓ κ ι} :
    {A : Type ℓ} (P : A → Type κ) (Q : A → Type ι) (run : Run A)
    → ((a : A) × (run ≡ done a) × P a)
    → ((a : A) × (run ≡ done a) × Q a)
    → (a : A) × (run ≡ done a) × P a × Q a
both P Q run (a, e, p) (b, f, q) = (a, e, p, subst Q (done-injective b a (sym f ∙ e)) q)

-- A run with another result.
abbrev pub map_run {ℓ κ} : {A : Type ℓ} {B : Type κ} → (A → B) → Run A → Run B
map_run v (done a) = done (v a)
map_run v (fault e) = fault e

pub map_run-bind {ℓ κ ι} :
    {A : Type ℓ} {B : Type κ} {C : Type ι} (v : B → C) (run : Run A) (f : A → Run B) (g : A → Run C)
    → ((a : A) → map_run v (f a) ≡ g a)
    → map_run v (run >>= f) ≡ run >>= g
map_run-bind v (done a) f g h = h a
map_run-bind v (fault e) f g h = refl

-- Every result of the run has the property.
abbrev pub Ends {ℓ κ} : {A : Type ℓ} → (A → Type κ) → Run A → Type κ
Ends P (done a) = P a
Ends P (fault e) = Unit

pub Ends-bind {ℓ κ ι} :
    {A : Type ℓ} {B : Type κ} (P : B → Type ι) (run : Run A) (f : A → Run B)
    → ((a : A) → Ends P (f a))
    → Ends P (run >>= f)
Ends-bind P (done a) f h = h a
Ends-bind P (fault e) f h = tt

along {ℓ} :
    {A B C D : Type ℓ} (v : A → B) (w : C → D) (P : A → Type ℓ) (run : Run A) (f : A → Run C)
    (g : B → Run D)
    → Ends P run
    → ((a : A) → P a → map_run w (f a) ≡ g (v a))
    → map_run w (run >>= f) ≡ map_run v run >>= g
along v w P (done a) f g ends h = h a ends
along v w P (fault e) f g ends h = refl

-- Two runs that correspond, with what is run behind them.
pub map_run-along {ℓ} :
    {A B C D : Type ℓ} (v : A → B) (w : C → D) (P : A → Type ℓ) (run : Run A) (run' : Run B)
    (f : A → Run C) (g : B → Run D)
    → map_run v run ≡ run'
    → Ends P run
    → ((a : A) → P a → map_run w (f a) ≡ g (v a))
    → map_run w (run >>= f) ≡ run' >>= g
map_run-along v w P run run' f g e ends h =
    subst (λ r. map_run w (run >>= f) ≡ r >>= g) e (along v w P run f g ends h)

pub Ends-trivially {ℓ} : {A : Type ℓ} (run : Run A) → Ends {ℓ, 0} (λ _. Unit) run
Ends-trivially (done a) = tt
Ends-trivially (fault e) = tt

pub bind_assoc {ℓ κ ι} :
    {A : Type ℓ} {B : Type κ} {C : Type ι} (run : Run A) (f : A → Run B) (g : B → Run C)
    → (run >>= f) >>= g ≡ run >>= (λ a. f a >>= g)
bind_assoc (done a) f g = refl
bind_assoc (fault e) f g = refl

pub bind_ext {ℓ κ} :
    {A : Type ℓ} {B : Type κ} (run : Run A) (f g : A → Run B)
    → ((a : A) → f a ≡ g a)
    → run >>= f ≡ run >>= g
bind_ext (done a) f g h = h a
bind_ext (fault e) f g h = refl

pub Run-cases {ℓ} :
    {A : Type ℓ} (run : Run A) → ((a : A) × (run ≡ done a)) ⊎ ((e : Fault) × (run ≡ fault e))
Run-cases (done a) = inl (a, refl)
Run-cases (fault e) = inr (e, refl)

IsFault {ℓ} : {A : Type ℓ} → Run A → Type 0
IsFault (done a) = ⊥
IsFault (fault e) = Unit

pub map_run-done {ℓ κ} :
    {A : Type ℓ} {B : Type κ} (v : A → B) (run : Run A) (b : B)
    → map_run v run ≡ done b
    → (a : A) × (run ≡ done a) × (v a ≡ b)
unfolding IsFault
map_run-done v (done a) b e = (a, refl, done-injective (v a) b e)
map_run-done v (fault f) b e = absurd (subst (IsFault {κ}) e tt)
