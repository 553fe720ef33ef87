-- ===== src/Join/Cleanup.antt =====
-- The cleanup of a joined future in src/common/join_ext.c.
use taskio.Prelude.{
  ℕ, zero, suc, ◌+◌, ◌-◌, ◌≡◌, ◌∙◌, refl, sym, inl, inr, List, [], ◌∷◌, arith, length, ltb,
  if◌then◌else◌, Bool-cases, Run, done, ◌>>=◌, bind_assoc, bind_ext,
}
use taskio.Join.{JoinEnv, JoinTask, cleanup, cleanup_from}
use taskio.Join.First.{up}

-- The tasks that still have their futures.
unfoldable pub present_of : (ℕ → JoinTask) → List ℕ → List ℕ
present_of tasks [] = []
present_of tasks (i ∷ is) =
    if (tasks i).present then i ∷ present_of tasks is else present_of tasks is

length_zero : (is : List ℕ) → length is ≡ 0 → is ≡ []
length_zero [] e = refl
length_zero (i ∷ is) e = absurd (omega arith)

module _ {X : Type 0} (clean : ℕ → X → Run X) where
  -- The clean-ups of some futures, one after the other.
  pub clean_all : List ℕ → X → Run X
  clean_all [] x = done x
  clean_all (i ∷ is) x = clean i x >>= clean_all is

  cleanup_from_lem :
      (n i pending_len : ℕ) (env : JoinEnv) (x : X)
      → length (present_of env.tasks (up i n)) ≡ pending_len
      → cleanup_from clean n i pending_len env x
        ≡ clean_all (present_of env.tasks (up i n)) x >>= λ x'. done (env, x')
  unfolding cleanup_from present_of up clean_all
  cleanup_from_lem zero i pending_len env x e = refl
  cleanup_from_lem (suc n) i pending_len env x e = elim (Bool-cases (ltb 0 pending_len)) [
    | inr over ↦
        let none_left : length (present_of env.tasks (up i (suc n))) ≡ 0 = ground arith in
        rw (over, length_zero _ none_left) refl
    | inl some_left ↦ elim (Bool-cases (env.tasks i).present) [
      | inl here ↦
          let e' = rw here at e in
          rw (some_left, here)
            (bind_ext (clean i x) _ _
                (λ x'. cleanup_from_lem n (i + 1) (pending_len - 1) env x' (omega (arith, e')))
              ∙ sym (bind_assoc (clean i x) _ _))
      | inr gone ↦
          let e' = rw gone at e in
          rw (some_left, gone) (cleanup_from_lem n (i + 1) pending_len env x e')
    ]
  ]

  -- When as many tasks have their futures as are not completed, the cleanup of a joined future cleans
  -- up exactly the futures that are left, each once, in the order of the array.
  pub cleanup-present :
      (env : JoinEnv) (x : X)
      → length (present_of env.tasks (up 0 env.len)) + env.completed_len ≡ env.len
      → cleanup clean env x
        ≡ clean_all (present_of env.tasks (up 0 env.len)) x >>= λ x'.
            done (record env { selected = [] }, x')
  unfolding cleanup
  cleanup-present env x e =
      cleanup_from_lem env.len 0 (env.len - env.completed_len) (record env { selected = [] }) x
        (omega (arith, e))
