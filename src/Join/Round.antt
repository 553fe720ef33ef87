-- ===== src/Join/Round.antt =====
-- One poll of a joined future (src/common/join_ext.c), whose futures do not wake while they are
-- polled: each task of the poll list is polled once, in the order of the list.
use taskio.Prelude.{
  ℕ, zero, suc, ◌+◌, ◌<◌, ◌≡◌, ◌≢◌, ◌∙◌, ap, sym, refl, inl, inr, true, false, Option, none, some,
  List, [], ◌∷◌, ◌++◌, arith, length, length-append, ◌==◌, if◌then◌else◌, Bool-cases, update, All,
  Run, done, ◌>>=◌, bind_assoc, bind_ext,
}
use mathlib.Core.List.{append_assoc, append-nil}
use taskio.Async.{Answer, undefined, pending, ready}
use taskio.Join.{JoinEnv, JoinTask, poll_all, settle, on_ready, clean_ready}

-- The tasks of the list, along `next`, with their futures.
abbrev pub Listed : (ℕ → JoinTask) → Option ℕ → List ℕ → Type 0
Listed tasks o [] = o ≡ none
Listed tasks o (i ∷ is) =
    (o ≡ some i)
    × ((tasks i).present ≡ true)
    × All (λ j. j ≢ i) is
    × Listed tasks ((tasks i).next) is

Listed-update :
    (tasks : ℕ → JoinTask) (o : Option ℕ) (is : List ℕ) (i : ℕ) (task : JoinTask)
    → All (λ j. j ≢ i) is
    → Listed tasks o is
    → Listed (update tasks i task) o is
Listed-update tasks o [] i task apart list = list
Listed-update tasks o (j ∷ is) i task apart (first, here, distinct, rest) =
    let skip : (i == j) ≡ false = ground (arith, apart.0) in
    (
      first,
      (rw skip here),
      distinct,
      rw skip (Listed-update tasks ((tasks j).next) is i task apart.1 rest),
    )

-- The environment after the futures of some tasks were ready, in this order.
pub settled : List ℕ → JoinEnv → JoinEnv
settled [] env = env
settled (i ∷ is) env = settled is (settle i (ready tt) env)

-- What a round leaves of the futures that are ready.
abbrev pub Settled : List ℕ → JoinEnv → JoinEnv → Type 0
Settled is env env' =
    (env'.completed_len ≡ env.completed_len + length is)
    × (env'.selected ≡ (if env.selects then env.selected ++ is else env.selected))
    × (env'.selects ≡ env.selects)
    × (env'.biased ≡ env.biased)
    × (env'.len ≡ env.len)

settle-Settled : (i : ℕ) (env : JoinEnv) → Settled (i ∷ []) env (settle i (ready tt) env)
unfolding settle on_ready
settle-Settled i env = elim (Bool-cases env.selects) [
  | inl e ↦ rw e (omega arith, refl, refl, refl, refl)
  | inr e ↦ rw e (omega arith, refl, refl, refl, refl)
]

-- Two rounds after each other.
Settled-trans :
    (is js : List ℕ) (a b c : JoinEnv) → Settled is a b → Settled js b c → Settled (is ++ js) a c
Settled-trans is js a b c (completed, sel, kind, bias, len) (completed', sel', kind', bias', len') =
    (
      omega (arith, completed, completed', length-append is js),
      elim (Bool-cases a.selects) [
        | inl on ↦
            let s = rw on at sel in
            let s' = rw (kind ∙ on) at sel' in
            rw on (s' ∙ ap (λ (l : List ℕ). l ++ js) s ∙ append_assoc a.selected is js)
        | inr off ↦ let s = rw off at sel in let s' = rw (kind ∙ off) at sel' in rw off (s' ∙ s)
      ],
      kind' ∙ kind,
      bias' ∙ bias,
      len' ∙ len,
    )

pub settled-Settled : (is : List ℕ) (env : JoinEnv) → Settled is env (settled is env)
unfolding settled
settled-Settled [] env = elim (Bool-cases env.selects) [
  | inl e ↦ (omega arith, (rw e (sym (append-nil env.selected))), refl, refl, refl)
  | inr e ↦ (omega arith, (rw e refl), refl, refl, refl)
]
settled-Settled (i ∷ is) env =
    Settled-trans (i ∷ []) is env (settle i (ready tt) env) (settled (i ∷ is) env)
      (settle-Settled i env) (settled-Settled is (settle i (ready tt) env))

settle-Listed :
    {V : Type 0} (i : ℕ) (answer : Answer V) (env : JoinEnv) (o : Option ℕ) (is : List ℕ)
    → All (λ j. j ≢ i) is
    → Listed env.tasks o is
    → Listed ((settle i answer env).tasks) o is
unfolding settle on_ready
settle-Listed i undefined env o is apart list = list
settle-Listed i pending env o is apart list = list
settle-Listed i (ready _) env o is apart list = elim (Bool-cases env.selects) [
  | inl e ↦ rw e (Listed-update env.tasks o is i _ apart list)
  | inr e ↦ rw e (Listed-update env.tasks o is i _ apart list)
]

module _ {V X : Type 0} (poll : ℕ → X → Run (Answer V × X)) (clean : ℕ → X → Run X) where
  -- A poll that wakes nothing leaves the environment as it is.
  abbrev pub quiet : ℕ → JoinEnv → X → Run (Answer V × JoinEnv × X)
  quiet i env x = poll i x >>= λ (r : Answer V × X). done (r.0, env, r.1)

  -- What follows a poll: a future that is ready is cleaned up, and comes into the list.
  noted : ℕ → Answer V → (X → Run (List ℕ × X)) → X → Run (List ℕ × X)
  noted i undefined rest x = rest x
  noted i pending rest x = rest x
  noted i (ready v) rest x =
      clean i x >>= λ (x' : X). rest x' >>= λ (s : List ℕ × X). done (i ∷ s.0, s.1)

  -- The futures polled, each once, in their order, and one that is ready is cleaned up before the
  -- next is polled; with the list of those that are ready.
  pub each : List ℕ → X → Run (List ℕ × X)
  unfolding noted
  each [] x = done ([], x)
  each (i ∷ is) x = poll i x >>= λ (r : Answer V × X). noted i (r.0) (each is) (r.1)

  -- A round from `env` that goes as `run` does
  abbrev pub after_round : JoinEnv → Run (List ℕ × X) → Run (JoinEnv × X)
  after_round env run = run >>= λ (s : List ℕ × X). done (settled (s.0) env, s.1)

  round_lem :
      (i : ℕ) (answer : Answer V) (env : JoinEnv) (rest : X → Run (List ℕ × X))
      (next : JoinEnv → X → Run (JoinEnv × X)) (x : X)
      → ((x' : X) → next (settle i answer env) x' ≡ after_round (settle i answer env) (rest x'))
      → (clean_ready clean i answer x >>= λ (x' : X). next (settle i answer env) x')
        ≡ after_round env (noted i answer rest x)
  unfolding clean_ready noted settle settled
  round_lem i undefined env rest next x same = same x
  round_lem i pending env rest next x same = same x
  round_lem i (ready v) env rest next x same =
      bind_ext (clean i x) _ _ (λ x'. same x' ∙ sym (bind_assoc (rest x') _ _))
      ∙ sym (bind_assoc (clean i x) _ _)

  -- With a unit of fuel more than there are tasks, the loop over a poll list polls each task on it
  -- once and settles those that are ready, in their order.
  pub poll_all-each :
      (fuel : ℕ) (o : Option ℕ) (is : List ℕ) (env : JoinEnv) (x : X)
      → Listed env.tasks o is
      → length is < fuel
      → poll_all quiet clean fuel o env x ≡ after_round env (each is x)
  unfolding poll_all each settled
  poll_all-each zero o is env x list enough = absurd (omega arith)
  poll_all-each (suc fuel) o [] env x list enough = rw list refl
  poll_all-each (suc fuel) o (i ∷ is) env x (first, here, apart, rest) enough =
      rw (first, here)
        (bind_assoc (poll i x) _ _
          ∙ bind_ext (poll i x) _ _ (λ r.
            round_lem i (r.0) env (each is) (poll_all quiet clean fuel ((env.tasks i).next)) (r.1)
              (λ x'.
                poll_all-each fuel ((env.tasks i).next) is (settle i (r.0) env) x'
                  (settle-Listed i (r.0) env ((env.tasks i).next) is apart rest) (omega arith)))
          ∙ sym (bind_assoc (poll i x) _ _))
