-- ===== src/EventLoop/Clients/Detached.antt =====
-- taskio_spawn of include/taskio/runtime.h keeps the invariant, with no handle left.
use mathlib.Core.Path.{fun_ext}
use taskio.Prelude.{
  ℕ, ◌+◌, ◌-◌, ◌<◌, ◌≤◌, ◌≡◌, ◌∙◌, refl, sym, ap, subst, inl, inr, true, none, arith, word_limit,
  ◌==◌, update, Bool-cases,
}
use taskio.EventLoop.{spawn}
use taskio.EventLoop.Handles.{taskio_spawn, handle_drop}
use taskio.EventLoop.Clients.{Clients, Inv, detaches, happens}
use taskio.EventLoop.Clients.Entries.{in_runtime-done}
use taskio.EventLoop.Clients.Loads.{Kept, load}
use taskio.EventLoop.Clients.Owners.{task_drop-Inv}
use taskio.EventLoop.Clients.Calls.{spawns-Kept}

-- A handle is made and dropped.
no_handle :
    (handles : ℕ → ℕ) (id : ℕ)
    → handles id ≡ 0
    → update (update handles id 1) id (update handles id 1 id - 1) ≡ handles
no_handle handles id zero = fun_ext λ j. elim (Bool-cases (id == j)) [
  | inl hit ↦
      let p : id ≡ j = ground arith in
      let self : (id == id) ≡ true = ground arith in rw (hit, self) (sym zero ∙ ap handles p)
  | inr skip ↦ rw skip refl
]

pub detaches-Kept :
    (c : Clients)
    → Inv c
    → c.handles c.runtime.fresh + 2 < word_limit
    → Kept c 2 (happens detaches c)
unfolding happens taskio_spawn handle_drop spawn
detaches-Kept c inv few =
    let id = c.runtime.fresh in
    let free = inv.unused id (omega arith) in
    let entry = rw free at (inv.entries id) in
    let c0 = record c { handles = update c.handles id 1 } in
    let hit : (id == id) ≡ true = ground arith in
    let self : c0.handles id ≡ 1 = rw hit refl in
    let (c1, run, inv1, _, work) = spawns-Kept c none inv in
    let (rt, spawned, same) = in_runtime-done c0 c1 (spawn none c.runtime).1 run in
    let c2 = record c0 { runtime = rt } in
    let inv2 : Inv c2 = subst Inv (sym same) inv1 in
    let work2 : load c2 ≤ load c + 2 = subst (λ s. load s ≤ load c + 2) (sym same) work in
    let (rt', dropped, inv3, less) =
      task_drop-Inv c2 id inv2 (omega (arith, self)) (omega (arith, self, few)) in
    let (inv4, less') =
      subst
        (λ h.
          Inv (record c { runtime = rt'; handles = h })
          × (load (record c { runtime = rt'; handles = h }) ≤ load c2))
        (no_handle c.handles id (entry.0)) (inv3, less) in
    rw (spawned, dropped)
      (record c { runtime = rt' }, refl, inv4, λ j. omega arith, omega (arith, work2, less'))
