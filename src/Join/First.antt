-- ===== src/Join/First.antt =====
-- The first poll of a join or a biased select of src/common/.
use taskio.Prelude.{
  ℕ, zero, suc, ◌+◌, ◌<◌, ◌≡◌, ◌≢◌, refl, Bool, true, false, none, some, List, [], ◌∷◌, arith,
  length, ltb, lt→ltb, ◌==◌, if◌then◌else◌, All,
}
use taskio.Join.{JoinEnv, JoinTask, join_env, Joined, joined, selected_index, waits}
use taskio.Join.Round.{Listed}

-- The numbers from `i` on.
unfoldable pub up : ℕ → ℕ → List ℕ
up i zero = []
up i (suc n) = i ∷ up (i + 1) n

up-apart : (i k n : ℕ) → i < k → All (λ j. j ≢ i) (up k n)
unfolding up
up-apart i k zero lt = tt
up-apart i k (suc n) lt = (omega arith, up-apart i (k + 1) n (omega arith))

abbrev fresh_tasks : ℕ → ℕ → JoinTask
fresh_tasks len i = record { present = true; next = if ltb (i + 1) len then some (i + 1) else none }

pub fresh-Listed :
    (len i n : ℕ)
    → i + n ≡ len
    → Listed (fresh_tasks len) (if ltb i len then some i else none) (up i n)
unfolding up
fresh-Listed len i zero e = let over : ltb i len ≡ false = ground arith in rw over refl
fresh-Listed len i (suc n) e = (
  rw (lt→ltb i len (omega arith)) refl,
  refl,
  up-apart i (i + 1) n (omega arith),
  fresh-Listed len (i + 1) n (omega arith),
)

-- A select answers with the first future that is ready; otherwise all are to be ready.
pub expected : Bool → ℕ → List ℕ → Joined
expected selects len [] = if len == 0 then joined else waits
expected true len (i ∷ is) = selected_index i
expected false len (i ∷ is) = if len == length (i ∷ is) then joined else waits

-- The environment in which a first poll begins its round.
abbrev pub begun : Bool → ℕ → JoinEnv
unfolding join_env
begun selects len = record (join_env selects true len) { poll_head = none; poll_tail = none }
