-- ===== src/EventLoop/Worker/Calls.antt =====
-- The handlers that worker_run in src/platform/linux/runtime.c calls in its ticks.
use taskio.Prelude.{◌≡◌, ◌∙◌, refl, sym, ap, true, List, [], ◌∷◌, arith, Run, done, ◌>>=◌}
use taskio.Wheel.{Timer}
use taskio.Hierarchy.{Timers}
use taskio.Hierarchy.Weight.{same, one_if}
use taskio.Hierarchy.Agenda.{count}
use taskio.EventLoop.{Runtime}
use taskio.EventLoop.Worker.{run_calls, make_calls}

-- Timers that are the same by their fields are one.
same-≡ : (a b : Timer) → same a b ≡ true → a ≡ b
same-≡ a b e =
    let id : a.id ≡ b.id = ground (arith, e) in
    let expiry : a.expiry_time ≡ b.expiry_time = ground (arith, e) in
    let handler : a.handler ≡ b.handler = ground (arith, e) in
    let payload : a.payload ≡ b.payload = ground (arith, e) in
    ap (λ i. record a { id = i }) id
    ∙ ap (λ i. record a { id = b.id; expiry_time = i }) expiry
    ∙ ap (λ i. record b { handler = i; payload = a.payload }) handler
    ∙ ap (λ i. record b { payload = i }) payload

-- A list in which one timer is once, and no other, has it alone.
pub alone :
    (x : Timer) (xs : List Timer) → ((y : Timer) → count y xs ≡ one_if (same y x)) → xs ≡ x ∷ []
alone x [] h = absurd (ground (arith, h x))
alone x (z ∷ []) h =
    let e : same z x ≡ true = ground (arith, h z) in ap (λ y. y ∷ []) (same-≡ z x e)
alone x (z ∷ w ∷ ws) h = absurd (ground (arith, h z, h w))

-- A list without any timer is empty.
pub never : (xs : List Timer) → ((y : Timer) → count y xs ≡ 0) → xs ≡ []
never [] h = refl
never (z ∷ zs) h = absurd (ground (arith, h z))

module _ (call : Timer → Runtime → Run Runtime) (rt : Runtime) (h : Timers) where
  pub make_calls-none : h.calls ≡ [] → make_calls call rt h ≡ done (rt, h)
  unfolding make_calls run_calls
  make_calls-none e =
      ap (λ xs. run_calls call xs rt >>= λ rt'. done (rt', record h { calls = [] })) e
      ∙ ap (λ xs. done (rt, record h { calls = xs })) (sym e)

  pub make_calls-one :
      (x : Timer) (rt' : Runtime)
      → h.calls ≡ x ∷ []
      → call x rt ≡ done rt'
      → make_calls call rt h ≡ done (rt', record h { calls = [] })
  unfolding make_calls run_calls
  make_calls-one x rt' e run =
      ap (λ xs. run_calls call xs rt >>= λ rt'. done (rt', record h { calls = [] })) e
      ∙ (rw run refl)
