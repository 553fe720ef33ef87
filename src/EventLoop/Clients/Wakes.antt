-- ===== src/EventLoop/Clients/Wakes.antt =====
-- The calls of wakers in src/platform/linux/runtime.c keep the invariant of the tasks.
use taskio.Prelude.{
  ℕ, ◌+◌, ◌≤◌, ◌≡◌, ◌≢◌, ◌∙◌, refl, sym, ap, inl, inr, Bool, true, false, Option, none, some, [],
  ◌∷◌, ◌++◌, arith, copies, copies-push, copies-same, Option-cases, ℕ_discrete, Run, done, ◌>>=◌,
}
use taskio.EventLoop.{
  Status, suspended, scheduled, aborted, finished, Joiners, null, dangling, node, Task, Runtime,
  enqueue, task_add_event_loop, copy_out, wake_all,
}
use taskio.EventLoop.Queue.{task_add_event_loop-scheduled, add_idle}
use taskio.EventLoop.Clients.{Clients, Inv, unlinked, Whole, may_wake, may_wake_all}
use taskio.EventLoop.Clients.Loads.{load, load-change, joiners}
use taskio.EventLoop.Clients.Owners.{fresh_lem}
use taskio.EventLoop.Clients.Around.{around, close, Around-enqueue}

-- What may be woken still may, what a call does not wake is as it was but for its `next`, and there is
-- `n` more to do at most.
pub record Woken (c : Clients) (id n : ℕ) (run : Run Runtime) : Type 0 where
  pub after : Runtime
  pub ran : run ≡ done after
  pub inv : Inv (record c { runtime = after })
  pub wakes : (j : ℕ) → may_wake j c.runtime ≡ true → may_wake j after ≡ true
  pub frame : unlinked (after.tasks id) ≡ unlinked (c.runtime.tasks id)
  pub work : load (record c { runtime = after }) ≤ load c + n

wakeable : Option Task → Bool
wakeable o = elim o [
  | none ↦ false
  | some task ↦ elim task.status [
    | suspended ↦ true
    | scheduled ↦ true
    | aborted ↦ false
    | finished ↦ false
  ]
]

may_wake_lem : (id : ℕ) (rt : Runtime) → may_wake id rt ≡ wakeable (rt.tasks id)
unfolding may_wake wakeable
may_wake_lem id rt = refl

wakeable-unlinked : (o : Option Task) → wakeable (unlinked o) ≡ wakeable o
unfolding wakeable
wakeable-unlinked none = refl
wakeable-unlinked (some t) = refl

pub may_wake-same :
    (j : ℕ) (rt rt' : Runtime)
    → unlinked (rt'.tasks j) ≡ unlinked (rt.tasks j)
    → may_wake j rt' ≡ may_wake j rt
may_wake-same j rt rt' e =
    may_wake_lem j rt'
    ∙ sym (wakeable-unlinked (rt'.tasks j))
    ∙ ap wakeable e
    ∙ wakeable-unlinked (rt.tasks j)
    ∙ sym (may_wake_lem j rt)

module _ (c : Clients) (id j : ℕ) (ne : j ≢ id) (inv : Inv c) where
  -- A task that rests goes to the queue.
  pub enqueue-Woken :
      (t : Task)
      → c.runtime.tasks id ≡ some t
      → t.status ≡ suspended
      → Woken c j 1 (enqueue c.runtime id t)
  unfolding may_wake
  enqueue-Woken t e s =
      let entry = rw e at (inv.entries id) in
      let out : copies id inv.tasks ≡ 0 = rw s at (entry.2) in
      let counted = rw s at (entry.0) in
      let whole = rw s at (entry.4) in
      let poll = rw s at (entry.3) in
      let end = rw e at (inv.rests id) in
      let (rt', run, a, e', framed) =
        Around-enqueue c id inv.tasks (around c id inv) t e out (end s) in
      let last : copies id (inv.tasks ++ (id ∷ [])) ≡ 1 =
        omega (arith, copies-push id id inv.tasks, copies-same id []) in
      record {
        after = rt';
        ran = run;
        inv =
            close (record c { runtime = rt' }) id (inv.tasks ++ (id ∷ [])) _ a e'
              (counted, entry.1, last, poll, whole, entry.5) (λ s'. absurd (ground arith))
              (λ le. absurd (omega (arith, framed.0, fresh_lem c id t inv e)));
        wakes = λ i may. elim (ℕ_discrete i id) [
          | yes p ↦ rw p (rw (e', may_wake) refl)
          | no other ↦ may_wake-same i c.runtime rt' (framed.1 i other) ∙ may
        ];
        frame = framed.1 j ne;
        work = omega (
          arith,
          load-change c (record c { runtime = rt' }) id 1 0 (framed.0) (fresh_lem c id t inv e)
              (framed.1) (λ _ _. refl) (rw (e', e, s) (omega arith)),
        );
      }

  wakes-by :
      (s : Status) (t : Task)
      → c.runtime.tasks id ≡ some t
      → t.status ≡ s
      → may_wake id c.runtime ≡ true
      → Woken c j 1 (task_add_event_loop id c.runtime)
  unfolding may_wake
  wakes-by suspended t e s may =
      rw (add_idle c.runtime id t suspended s e (ground arith)) (enqueue-Woken t e s)
  wakes-by scheduled t e s may = record {
    after = c.runtime;
    ran = task_add_event_loop-scheduled c.runtime id t e s;
    inv = inv;
    wakes = λ i h. h;
    frame = refl;
    work = omega arith;
  }
  wakes-by aborted t e s may = absurd (let no_wake = rw (e, s, may_wake) at may in cc)
  wakes-by finished t e s may = absurd (let no_wake = rw (e, s, may_wake) at may in cc)

  -- A call of a waker for a task that may be woken.
  pub task_add_event_loop-Woken :
      may_wake id c.runtime ≡ true → Woken c j 1 (task_add_event_loop id c.runtime)
  unfolding may_wake
  task_add_event_loop-Woken may = elim (Option-cases (c.runtime.tasks id)) [
    | inl e ↦ absurd (let no_wake = rw (e, may_wake) at may in cc)
    | inr (t, e) ↦ wakes-by t.status t e refl may
  ]

pub Woken-bind :
    (c : Clients) (j n m : ℕ) (run : Run Runtime) (f : Runtime → Run Runtime) (a : Woken c j n run)
    → Woken (record c { runtime = a.after }) j m (f a.after)
    → Woken c j (n + m) (run >>= f)
Woken-bind c j n m run f a b = record {
  after = b.after;
  ran = ap (λ r. r >>= f) a.ran ∙ b.ran;
  inv = b.inv;
  wakes = λ i may. b.wakes i (a.wakes i may);
  frame = b.frame ∙ a.frame;
  work = omega (arith, a.work, b.work);
}

pub copy_out-Woken :
    (c : Clients) (j : ℕ) (out value : Option ℕ)
    → Inv c
    → Woken c j 0 (done (copy_out out value c.runtime))
unfolding copy_out may_wake
copy_out-Woken c j none value inv = record {
  after = c.runtime;
  ran = refl;
  inv = inv;
  wakes = λ i may. may;
  frame = refl;
  work = omega arith;
}
copy_out-Woken c j (some address) none inv = record {
  after = c.runtime;
  ran = refl;
  inv = inv;
  wakes = λ i may. may;
  frame = refl;
  work = omega arith;
}
copy_out-Woken c j (some address) (some value) inv = record {
  after = copy_out (some address) (some value) c.runtime;
  ran = refl;
  inv = record {
    tasks = inv.tasks;
    queue = record {
      chain = inv.queue.chain;
      tail = inv.queue.tail;
      distinct = inv.queue.distinct;
    };
    entries = inv.entries;
    rests = inv.rests;
    unused = inv.unused;
  };
  wakes = λ i may. may;
  frame = refl;
  work = omega arith;
}

pub may_wake_all_mono :
    (w : Joiners) (j : ℕ) (rt rt' : Runtime)
    → ((i : ℕ) → i ≢ j → may_wake i rt ≡ true → may_wake i rt' ≡ true)
    → may_wake_all w j rt ≡ true
    → may_wake_all w j rt' ≡ true
unfolding may_wake_all
may_wake_all_mono null j rt rt' h e = refl
may_wake_all_mono dangling j rt rt' h e = refl
may_wake_all_mono (node w rest) j rt rt' h e =
    let ne : w.waker ≢ j = ground arith in
    ground (arith, h w.waker ne, may_wake_all_mono rest j rt rt' h)

-- The calls of the wakers of all joiners of a task.
pub wake_all-Woken :
    (out : Option ℕ) (w : Joiners) (c : Clients) (j : ℕ)
    → Whole w
    → Inv c
    → may_wake_all w j c.runtime ≡ true
    → Woken c j (joiners w) (wake_all out w c.runtime)
unfolding wake_all may_wake_all
wake_all-Woken out null c j whole inv may = record {
  after = c.runtime;
  ran = refl;
  inv = inv;
  wakes = λ i h. h;
  frame = refl;
  work = omega arith;
}
wake_all-Woken out dangling c j whole inv may = absurd whole
wake_all-Woken out (node w rest) c j whole inv may =
    let first : may_wake w.waker c.runtime ≡ true = ground arith in
    let ne : j ≢ w.waker = ground arith in
    let others : may_wake_all rest j c.runtime ≡ true = ground arith in
    let a = copy_out-Woken c j w.out out inv in
    let copied = record c { runtime = a.after } in
    let b = task_add_event_loop-Woken copied w.waker j ne a.inv (a.wakes w.waker first) in
    let woken =
      Woken-bind c j 0 1 (done (copy_out w.out out c.runtime)) (task_add_event_loop w.waker) a b in
    Woken-bind c j 1 (joiners rest) (task_add_event_loop w.waker (copy_out w.out out c.runtime))
      (wake_all out rest) woken
      (wake_all-Woken out rest (record c { runtime = woken.after }) j whole woken.inv
        (may_wake_all_mono rest j c.runtime woken.after (λ i ne may'. woken.wakes i may') others))
