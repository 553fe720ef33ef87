-- ===== src/Join/Tests.antt =====
-- Joins and selects of src/common/ at concrete futures: runs, and the theorems there.
use taskio.Prelude.{
  ℕ, zero, suc, ◌≡◌, refl, true, false, none, some, List, [], ◌∷◌, ◌++◌, Run, done, fault,
  null_pointer, ◌>>=◌,
}
use taskio.Async.{Answer, pending, ready}
use taskio.Join.{
  JoinEnv, join_env, join_poll, join_wake, set_next, poll_all, settle, clean_ready, on_ready,
  outcome, on_finish, Joined, joined, selected_index, cleanup,
}
use taskio.Join.First.{up}
use taskio.Join.Cleanup.{present_of, clean_all, cleanup-present}
use taskio.Join.Arrays.{Memory, Starts, join, select, join_from_list, cell_at, build-Array}
use taskio.Join.Wakes.{answering, quiet_clean, join_wake-twice}

-- Futures 1 and 2 are ready.
abbrev answers : ℕ → Answer ℕ
answers zero = pending
answers (suc i) = ready i

-- The world notes what is cleaned up.
abbrev noted : ℕ → List ℕ → Run (List ℕ)
noted i x = done (x ++ (i ∷ []))

-- A join of three waits for the first; woken, it is ready when that is.
story : Run (Joined × List ℕ)
story = do
  a ← join_poll (answering answers) noted 4 0 (join_env false true 3) []
  b ← join_poll (answering (λ _. ready 9)) noted 4 0 (join_wake 0 a.1) a.2
  done (b.0, b.2)

join_of_three : story ≡ done (joined, 1 ∷ 2 ∷ 0 ∷ [])
unfolding story clean_ready join_poll join_env join_wake set_next poll_all settle on_ready outcome
    on_finish
join_of_three = refl

abbrev first_selected : Run Joined
first_selected =
    join_poll {X = ℕ} (answering answers) quiet_clean 4 0 (join_env true true 3) 0 >>= λ r.
    done (r.0)

select_of_three : first_selected ≡ done (selected_index 1)
unfolding clean_ready join_poll join_env poll_all settle on_ready outcome on_finish
select_of_three = refl

abbrev half : JoinEnv
half = record {
  len = 2;
  completed_len = 1;
  tasks = λ i. elim i [
    | zero ↦ record { present = false; next = none }
    | suc _ ↦ record { present = true; next = none }
  ];
  poll_head = none;
  poll_tail = none;
  selects = true;
  biased = true;
  selected = 0 ∷ [];
  wakes = 0;
}

abbrev answer_of : ℕ → List ℕ → Run (Answer ℕ × List ℕ)
answer_of i x = done (answers i, x)

cleanup-present_example :
    cleanup noted half []
    ≡ clean_all noted (present_of half.tasks (up 0 2)) [] >>= λ x.
        done (record half { selected = [] }, x)
unfolding up present_of
cleanup-present_example = cleanup-present noted half [] refl

join_wake-twice_example :
    join_poll {X = ℕ} (answering answers) quiet_clean 4 0 (join_wake 1 (join_wake 1 half)) 0
    ≡ fault null_pointer
join_wake-twice_example = join_wake-twice answers 2 0 1 0 half 0 refl refl refl

-- Three futures, by their addresses.
abbrev three : List ℕ
three = 70 ∷ 80 ∷ 90 ∷ []

build-Array_example :
    (head head' : Memory) × (joins selects : JoinEnv) × (join none (some 7) 3 three
      ≡ done (7, head, joins))
    × (join (some 7) none 3 three ≡ done (7, head, joins))
    × (select none (some 7) true 3 three ≡ done (7, head, selects))
    × (select (some 7) none true 3 three ≡ done (7, head, selects))
    × (join_from_list (some 7) 3 three ≡ done (7, head', joins))
    × (join_from_list none 3 three ≡ fault null_pointer)
    × Starts 3 joins
    × (joins.selects ≡ false)
    × (selects ≡ record joins { selects = true; biased = true })
    × ((j : ℕ) → head j ≡ cell_at joins three j)
    × ((j : ℕ) → head' j ≡ cell_at joins three j)
build-Array_example = build-Array none 7 true three
