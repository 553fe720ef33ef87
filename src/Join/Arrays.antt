-- ===== src/Join/Arrays.antt =====
-- The arrays of tasks that taskio_join, taskio_join_from_list (src/common/join.c) and taskio_select
-- (src/common/select.c) build, one loop for all of the futures. A future is an address, memory that
-- was not written holds none.
use taskio.Prelude.{
  true, ◌>>=◌, ℕ, zero, suc, ◌+◌, ◌<◌, ◌≤◌, ◌≡◌, ◌∙◌, refl, sym, subst, ap, inl, inr, Bool, false,
  Option, none, some, List, [], ◌∷◌, length, get_elem?, arith, ltb, ltb→lt, ◌==◌, if◌then◌else◌,
  Bool-cases, update, Run, done, fault, out_of_bounds, null_pointer, ◌-◌,
}
use taskio.Join.{JoinEnv, join_env}
use taskio.Join.Round.{Listed}
use taskio.Join.First.{up, fresh-Listed}

-- struct taskio_join_task as it is written
pub record Cell : Type 0 where
  pub index : ℕ
  pub future : ℕ
  pub next : Option ℕ

abbrev pub Memory : Type 0
Memory = ℕ → Option Cell

unfoldable pub new_cell : ℕ → ℕ → ℕ → Cell
new_cell len i future = record {
  index = i;
  future = future;
  next = if ltb (i + 1) len then some (i + 1) else none;
}

-- taskio_join and taskio_select: the loop from `i` on, with `n` rounds to go and the arguments that
-- va_arg has not read. Behind the last argument va_arg has no meaning.
unfoldable pub build_args : ℕ → ℕ → ℕ → List ℕ → Memory → Run Memory
unfolding new_cell
build_args len zero i args head = done head
build_args len (suc n) i [] head = fault out_of_bounds
build_args len (suc n) i (future ∷ args) head =
    build_args len n (i + 1) args (update head i (some (new_cell len i future)))

-- taskio_join_from_list: the same loop over an array
unfoldable pub build_list : ℕ → ℕ → ℕ → List ℕ → Memory → Run Memory
unfolding new_cell
build_list len zero i futures head = done head
build_list len (suc n) i futures head = elim (get_elem? futures i) [
  | none ↦ fault out_of_bounds
  | some future ↦ build_list len n (i + 1) futures (update head i (some (new_cell len i future)))
]

-- taskio_join and taskio_select, the allocator, with the global one of src/alloc.c; NULL is none.
unfoldable pub allocator_or_default : Option ℕ → Option ℕ → Option ℕ
allocator_or_default global none = global
allocator_or_default global (some allocator) = some allocator

-- `allocator->alloc`, for the allocator that it uses
unfoldable pub used : Option ℕ → Run ℕ
used none = fault null_pointer
used (some allocator) = done allocator

-- taskio_join, taskio_select and taskio_join_from_list: the allocator, the array, and the environment
-- that taskio_join_ext makes with them. The last uses the allocator that it is given.
unfoldable pub join : Option ℕ → Option ℕ → ℕ → List ℕ → Run (ℕ × Memory × JoinEnv)
unfolding build_args allocator_or_default used
join global allocator len args = do
  own ← used (allocator_or_default global allocator)
  head ← build_args len len 0 args (λ _. none)
  done (own, head, join_env false false len)

unfoldable pub select : Option ℕ → Option ℕ → Bool → ℕ → List ℕ → Run (ℕ × Memory × JoinEnv)
unfolding build_args allocator_or_default used
select global allocator biased len args = do
  own ← used (allocator_or_default global allocator)
  head ← build_args len len 0 args (λ _. none)
  done (own, head, join_env true biased len)

unfoldable pub join_from_list : Option ℕ → ℕ → List ℕ → Run (ℕ × Memory × JoinEnv)
unfolding build_list used
join_from_list allocator len futures = do
  own ← used allocator
  head ← build_list len len 0 futures (λ _. none)
  done (own, head, join_env false false len)

-- The array, as the model of the joined future has it.
unfoldable pub cell_at : JoinEnv → List ℕ → ℕ → Option Cell
cell_at env futures j = elim (get_elem? futures j) [
  | none ↦ none
  | some future ↦ some (record { index = j; future = future; next = (env.tasks j).next })
]

get_elem?-past : (xs : List ℕ) (j : ℕ) → length xs ≤ j → get_elem? xs j ≡ none
get_elem?-past [] j le = refl
get_elem?-past (x ∷ xs) zero le = absurd (omega arith)
get_elem?-past (x ∷ xs) (suc j) le = get_elem?-past xs j (omega arith)

get_elem?-some : (xs : List ℕ) (j : ℕ) → j < length xs → (x : ℕ) × (get_elem? xs j ≡ some x)
get_elem?-some [] j lt = absurd (omega arith)
get_elem?-some (x ∷ xs) zero lt = (x, refl)
get_elem?-some (x ∷ xs) (suc j) lt = get_elem?-some xs j (omega arith)

module _ (selects biased : Bool) (futures : List ℕ) where
  -- The first `i` tasks are built.
  abbrev Built : ℕ → Memory → Type 0
  Built i head =
      ((j : ℕ) → j < i → head j ≡ cell_at (join_env selects biased (length futures)) futures j)
      × ((j : ℕ) → i ≤ j → head j ≡ none)

  Built-next :
      (i future : ℕ) (head : Memory)
      → Built i head
      → get_elem? futures i ≡ some future
      → Built (i + 1) (update head i (some (new_cell (length futures) i future)))
  unfolding cell_at new_cell join_env
  Built-next i future head (built, rest) here = (
    (λ j lt. elim (Bool-cases (i == j)) [
      | inl hit ↦
          let same : i ≡ j = ground (arith, hit) in
          let cell : cell_at (join_env selects biased (length futures)) futures i
              ≡ some (new_cell (length futures) i future) =
            rw (cell_at, here) refl in
          rw hit (
            subst
              (λ m.
                some (new_cell (length futures) i future)
                ≡ cell_at (join_env selects biased (length futures)) futures m)
              same (sym cell))
      | inr skip ↦ rw skip (built j (ground (arith, skip, lt)))
    ]),
    (λ j le. let skip : (i == j) ≡ false = ground arith in rw skip (rest j (omega arith))),
  )

  build_args-Built :
      (args : List ℕ) (i : ℕ) (head : Memory)
      → i + length args ≡ length futures
      → ((j : ℕ) → get_elem? args j ≡ get_elem? futures (i + j))
      → Built i head
      → (head' : Memory) × (build_args (length futures) (length args) i args head ≡ done head')
        × Built (length futures) head'
  unfolding build_args
  build_args-Built [] i head full same built =
      let e : i ≡ length futures = omega (arith, full) in
      (head, refl, subst (λ m. Built m head) e built)
  build_args-Built (future ∷ args) i head full same built =
      let at : i ≡ i + 0 = omega arith in
      build_args-Built args (i + 1) _ (omega (arith, full))
        (λ j.
          let e : i + suc j ≡ i + 1 + j = omega arith in same (suc j) ∙ ap (get_elem? futures) e)
        (Built-next i future head built (ap (get_elem? futures) at ∙ sym (same 0)))

  build_list-Built :
      (n i : ℕ) (head : Memory)
      → i + n ≡ length futures
      → Built i head
      → (head' : Memory) × (build_list (length futures) n i futures head ≡ done head')
        × Built (length futures) head'
  unfolding build_list
  build_list-Built zero i head full built =
      let e : i ≡ length futures = omega (arith, full) in
      (head, refl, subst (λ m. Built m head) e built)
  build_list-Built (suc n) i head full built =
      let (future, here) = get_elem?-some futures i (omega (arith, full)) in
      rw (build_list, here)
        (build_list-Built n (i + 1) _ (omega (arith, full)) (Built-next i future head built here))

  Built-all :
      (head : Memory)
      → Built (length futures) head
      → (j : ℕ) → head j ≡ cell_at (join_env selects biased (length futures)) futures j
  unfolding cell_at
  Built-all head (built, rest) j = elim (Bool-cases (ltb j (length futures))) [
    | inl lt ↦ built j (ltb→lt _ _ lt)
    | inr ge ↦
        let le : length futures ≤ j = ground (arith, ge) in
        rw (cell_at, get_elem?-past futures j le) (rest j le)
  ]

-- A joined future of `len` futures at its start: none is completed or selected, and the poll list has
-- all tasks, in the order of the array.
pub record Starts (len : ℕ) (env : JoinEnv) : Type 0 where
  pub all : env.len ≡ len
  pub completed : env.completed_len ≡ 0
  pub selected : env.selected ≡ []
  pub listed : Listed env.tasks env.poll_head (up 0 len)
  pub tail : env.poll_tail ≡ (if ltb 0 len then some (len - 1) else none)

join_env-Starts : (selects biased : Bool) (len : ℕ) → Starts len (join_env selects biased len)
unfolding join_env
join_env-Starts selects biased len = record {
  all = refl;
  completed = refl;
  selected = refl;
  listed = fresh-Listed len 0 len (omega arith);
  tail = refl;
}

-- With as many futures as the length says: taskio_join and taskio_select do not fault with an
-- allocator, which they use whatever the global one is, or with NULL and a global one, which they
-- use; they build the same array, from memory that was not written, and put all tasks into the poll
-- list, in the order of the array. Their environments differ only in what makes one of them a
-- select. taskio_join_from_list with an allocator makes the environment of taskio_join and an array
-- with the same tasks; with NULL it accesses NULL, whatever the global one is. The array has a task
-- for each future with its index, linked as the environment has them, and nothing behind the last.
pub build-Array :
    (global : Option ℕ) (own : ℕ) (biased : Bool) (futures : List ℕ)
    → let len = length futures in
      (head head' : Memory) × (joins selects : JoinEnv) × (join global (some own) len futures
        ≡ done (own, head, joins))
      × (join (some own) none len futures ≡ done (own, head, joins))
      × (select global (some own) biased len futures ≡ done (own, head, selects))
      × (select (some own) none biased len futures ≡ done (own, head, selects))
      × (join_from_list (some own) len futures ≡ done (own, head', joins))
      × (join_from_list none len futures ≡ fault null_pointer)
      × Starts len joins
      × (joins.selects ≡ false)
      × (selects ≡ record joins { selects = true; biased = biased })
      × ((j : ℕ) → head j ≡ cell_at joins futures j)
      × ((j : ℕ) → head' j ≡ cell_at joins futures j)
unfolding join select join_from_list allocator_or_default used join_env
build-Array global own biased futures =
    let len = length futures in
    let empty : Built false false futures 0 (λ _. none) =
      ((λ j lt. absurd (omega arith)), (λ j le. refl)) in
    let (head, args, built) =
      build_args-Built false false futures futures 0 (λ _. none) (omega arith)
        (λ j. let e : j ≡ 0 + j = omega arith in ap (get_elem? futures) e) empty in
    let (head', list, built') =
      build_list-Built false false futures len 0 (λ _. none) (omega arith) empty in
    (
      head,
      head',
      join_env false false len,
      join_env true biased len,
      (rw args refl),
      (rw args refl),
      (rw args refl),
      (rw args refl),
      (rw list refl),
      refl,
      join_env-Starts false false len,
      refl,
      refl,
      Built-all false false futures head built,
      Built-all false false futures head' built',
    )
