-- ===== src/EventLoop/Chain.antt =====
-- The chain of the `next` pointers of the tasks in src/platform/linux/runtime.c, as a list.
use taskio.Prelude.{
  ℕ, ◌≡◌, ◌≢◌, refl, sym, true, false, Option, none, some, List, [], ◌∷◌, ◌++◌, arith, ◌==◌, update,
  All, All-append,
}
use taskio.EventLoop.{Task}

abbrev pub NotIn : ℕ → List ℕ → Type 0
NotIn id xs = All (λ y. y ≢ id) xs

abbrev pub Distinct : List ℕ → Type 0
Distinct [] = Unit
Distinct (x ∷ xs) = NotIn x xs × Distinct xs

-- The tasks in the order of `next`, the last of which has none behind it.
abbrev pub Follows : (ℕ → Option Task) → Option ℕ → List ℕ → Type 0
Follows tasks o [] = o ≡ none
Follows tasks o (id ∷ xs) =
    (o ≡ some id) × (task : Task) × (tasks id ≡ some task) × Follows tasks task.next xs

abbrev pub last_of : ℕ → List ℕ → ℕ
last_of x [] = x
last_of x (y ∷ ys) = last_of y ys

abbrev pub last : List ℕ → Option ℕ
last [] = none
last (x ∷ xs) = some (last_of x xs)

pub Follows-frame :
    (tasks : ℕ → Option Task) (o : Option ℕ) (xs : List ℕ) (j : ℕ) (v : Option Task)
    → NotIn j xs
    → Follows tasks o xs
    → Follows (update tasks j v) o xs
Follows-frame tasks o [] j v absent chain = chain
Follows-frame tasks o (x ∷ xs) j v absent (first, task, e, rest) =
    let skip : (j == x) ≡ false = ground (arith, absent.0) in
    (first, task, (rw skip e), Follows-frame tasks task.next xs j v absent.1 rest)

pub last_of-ne : (id x : ℕ) (xs : List ℕ) → NotIn id (x ∷ xs) → last_of x xs ≢ id
last_of-ne id x [] absent = absent.0
last_of-ne id x (y ∷ ys) absent = last_of-ne id y ys absent.1

pub last_task :
    (tasks : ℕ → Option Task) (o : Option ℕ) (x : ℕ) (xs : List ℕ)
    → Follows tasks o (x ∷ xs)
    → (t : Task) × (tasks (last_of x xs) ≡ some t)
last_task tasks o x [] (first, task, e, rest) = (task, e)
last_task tasks o x (y ∷ ys) (first, task, e, rest) = last_task tasks task.next y ys rest

-- Behind the last task.
pub Follows-push :
    (tasks : ℕ → Option Task) (o : Option ℕ) (x : ℕ) (xs : List ℕ) (id : ℕ) (task t : Task)
    → Follows tasks o (x ∷ xs)
    → Distinct (x ∷ xs)
    → NotIn id (x ∷ xs)
    → tasks id ≡ some task
    → task.next ≡ none
    → tasks (last_of x xs) ≡ some t
    → Follows
        (update tasks (last_of x xs) (some (record t { next = some id })))
        o
        (x ∷ (xs ++ (id ∷ [])))
Follows-push tasks o x [] id task t (first, own, e, rest) distinct absent he end ht =
    let hit : (x == x) ≡ true = ground arith in
    let skip : (x == id) ≡ false = ground (arith, absent.0) in
    (first, record t { next = some id }, (rw hit refl), (refl, task, (rw skip he), end))
Follows-push tasks o x (y ∷ ys) id task t (first, own, e, rest) distinct absent he end ht =
    let ne = last_of-ne x y ys distinct.0 in
    let skip : (last_of y ys == x) ≡ false = ground (arith, ne) in
    (
      first,
      own,
      (rw skip e),
      Follows-push tasks own.next y ys id task t rest distinct.1 absent.1 he end ht,
    )

pub Distinct-push : (xs : List ℕ) (id : ℕ) → Distinct xs → NotIn id xs → Distinct (xs ++ (id ∷ []))
Distinct-push [] id d absent = (tt, tt)
Distinct-push (x ∷ xs) id d absent = (
  All-append (λ y. y ≢ x) xs (id ∷ []) d.0 ((λ e. absent.0 (sym e)), tt),
  Distinct-push xs id d.1 absent.1,
)

pub last_of-push : (x : ℕ) (xs : List ℕ) (id : ℕ) → last_of x (xs ++ (id ∷ [])) ≡ id
last_of-push x [] id = refl
last_of-push x (y ∷ ys) id = last_of-push y ys id
