-- ===== src/System/Leases/Runs.antt =====
-- What the tasks know of their slots, after any steps in any order.
use lm_server.Prelude.{
  ℕ, zero, suc, ◌+◌, ◌^◌, ◌<◌, ◌≤◌, ◌≡◌, refl, subst, ap, true, Text, All, All-append, length,
  get_elem?, List, [], ◌∷◌, Option, some, none, arith,
}
use mathlib.Core.Option
use lm_server.Types.{ContainerProfile, Config}
use lm_server.Store.{lookup}
use lm_server.Store.Laws.{lookup-swap_at}
use lm_server.Orchestrator.State.{
  SlotState, busy, removing, ContainerSlot, Orchestrator, Lease, new_lease_locked,
}
use lm_server.Orchestrator.Select.{select_profile, new}
use lm_server.Orchestrator.Maintenance.{state_under}
use lm_server.System.{
  Task, serving, destroying, maintaining, Event, System, Choice, arrive, pick, reorder, advance,
  advance_at, arrived, step, run, start,
}
use lm_server.System.Claims.{claim, claims, total_claims, holds, held, is_owned}
use lm_server.System.Moves.{IsStore}
use lm_server.System.Sound.{IsSound, step-seq, step-IsSound, start-IsSound}
use lm_server.System.Safety.{reachable, mine}
use lm_server.System.Leases.{
  lease_at, container_at, Backed, Keeps, bystander-Backed, bystanders-Backed,
}
use lm_server.System.Leases.Steps.{advance-StepsWell}

module _ (o : Orchestrator) (h : IsStore o) (small : suc o.slot_seq < 2 ^ 64) where
  advance_at-Backed :
      (i : ℕ) (e : Event) (ts : List Task)
      → ((k : Text) (st : SlotState) → total_claims ts k st ≤ holds (lookup k o.slots) st)
      → All (Backed o) ts
      → Keeps o (advance_at o i e ts).0 (total_claims ts)
        × All (Backed (advance_at o i e ts).0) (advance_at o i e ts).1
  unfolding advance_at
  advance_at-Backed i e [] own b = ((λ k st held free. refl), tt)
  advance_at-Backed zero e (t ∷ ts) own b =
      let r = advance o t e in
      let (keep, new) = advance-StepsWell o h t e small (λ k st. omega (arith, own k st)) b.0 in
      (
        (λ k st held free. keep k st held (omega arith)),
        All-append (Backed r.0) r.1 ts new
            (bystanders-Backed o r.0 (claims t) keep ts (λ k st. own k st) b.1),
      )
  advance_at-Backed (suc i) e (t ∷ ts) own b =
      let (keep, rest) = advance_at-Backed i e ts (λ k st. omega (arith, own k st)) b.1 in
      (
        (λ k st held free. keep k st held (omega arith)),
        (
          bystander-Backed o (advance_at o i e ts).0 (total_claims ts) keep t
              (λ k st. omega (arith, own k st)) b.0,
          rest,
        ),
      )

arrived-Backed :
    (o : Orchestrator) (x : Option ContainerProfile) (ts : List Task)
    → All (Backed o) ts
    → All (Backed o) (arrived x ts)
unfolding arrived
arrived-Backed o none ts b = b
arrived-Backed o (some p) ts b = (tt, b)

-- No claims are needed where every lease stays.
reorder-Keeps :
    (sys : System) (i : ℕ)
    → IsSound sys
    → Keeps sys.orchestrator (step sys (reorder i)).orchestrator (λ k st. 0)
unfolding step
reorder-Keeps sys i h k st held free =
    rw (lookup-swap_at i k sys.orchestrator.slots h.store.distinct) refl

step-Backed :
    (sys : System) (c : Choice)
    → suc sys.orchestrator.slot_seq < 2 ^ 64
    → IsSound sys
    → All (Backed sys.orchestrator) sys.tasks
    → All (Backed (step sys c).orchestrator) (step sys c).tasks
unfolding step
step-Backed sys (arrive meta) small h b =
    arrived-Backed sys.orchestrator (select_profile sys.orchestrator meta) sys.tasks b
step-Backed sys (pick i e) small h b =
    (advance_at-Backed sys.orchestrator h.store small i e sys.tasks
      (λ k st. omega (arith, h.owned k st)) b).1
step-Backed sys (reorder i) small h b =
    bystanders-Backed sys.orchestrator (step sys (reorder i)).orchestrator (λ k st. 0)
      (reorder-Keeps sys i h) sys.tasks (λ k st. omega (arith, h.owned k st)) b

run-Backed :
    (sys : System) (cs : List Choice)
    → sys.orchestrator.slot_seq + length cs < 2 ^ 64
    → IsSound sys
    → All (Backed sys.orchestrator) sys.tasks
    → All (Backed (run sys cs).orchestrator) (run sys cs).tasks
unfolding run
run-Backed sys [] small h b = b
run-Backed sys (c ∷ cs) small h b =
    let next : suc sys.orchestrator.slot_seq < 2 ^ 64 = omega arith in
    run-Backed (step sys c) cs (omega (arith, step-seq sys c)) (step-IsSound sys c next h)
      (step-Backed sys c next h b)

pub start-Backed :
    (cfg : Config) (cs : List Choice)
    → length cs < 2 ^ 64
    → All (Backed (reachable cfg cs).orchestrator) (reachable cfg cs).tasks
unfolding start new
start-Backed cfg cs small = run-Backed (start cfg) cs (omega arith) (start-IsSound cfg) (tt, tt)

elem-Backed :
    (o : Orchestrator) (ts : List Task) (i : ℕ) (t : Task)
    → get_elem? ts i ≡ some t
    → All (Backed o) ts
    → Backed o t
elem-Backed o [] i t e b = cc
elem-Backed o (u ∷ ts) zero t e b = let same : u ≡ t = cc in subst (Backed o) same b.0
elem-Backed o (u ∷ ts) (suc i) t e b = elem-Backed o ts i t e b.1

-- The slot that gives a lease, or a container.
slot_at :
    (o : Orchestrator) (id : Text) (st : SlotState)
    → is_owned st ≡ true
    → claim id st id st ≤ holds (lookup id o.slots) st
    → (s : ContainerSlot) × (lookup id o.slots ≡ some s)
      × (s.state ≡ st)
      × (lease_at o id ≡ some (new_lease_locked s))
slot_at o id st own room =
    let (s, found, e) = held (lookup id o.slots) id st own room in
    (s, found, e, ap (Option.map new_lease_locked) found)

some-injective : {A : Type 0} (x : Option A) (a b : A) → x ≡ some a → x ≡ some b → a ≡ b
some-injective x a b e e' = cc

-- A slot in a state, for a container.
abbrev pub HasSlot : Orchestrator → Text → SlotState → Text → Type 0
HasSlot o id st container =
    (s : ContainerSlot) × (lookup id o.slots ≡ some s)
    × (s.state ≡ st)
    × (s.container_id ≡ container)

-- The slots of the containers that a task makes Docker remove or pause.
abbrev pub HasTargets : Orchestrator → Task → Type 0
HasTargets o (destroying id container) = HasSlot o id removing container
HasTargets o (maintaining (a ∷ rest)) = HasSlot o a.slot_id (state_under a.kind) a.container_id
HasTargets o _ = Unit

container-HasSlot :
    (o : Orchestrator) (id : Text) (st : SlotState) (container : Text)
    → is_owned st ≡ true
    → claim id st id st ≤ holds (lookup id o.slots) st
    → container_at o id ≡ some container
    → HasSlot o id st container
unfolding new_lease_locked
container-HasSlot o id st container own room b =
    let (s, found, e, l) = slot_at o id st own room in
    (
      s,
      found,
      e,
      some-injective (container_at o id) s.container_id container
          (ap (Option.map (λ l. l.container_id)) l) b,
    )

targets :
    (o : Orchestrator) (t : Task)
    → ((k : Text) (st : SlotState) → claims t k st ≤ holds (lookup k o.slots) st)
    → Backed o t
    → HasTargets o t
targets o (destroying id container) own b =
    container-HasSlot o id removing container refl (own id removing) b
targets o (maintaining []) own b = tt
targets o (maintaining (a ∷ rest)) own b =
    let st = state_under a.kind in
    container-HasSlot o a.slot_id st a.container_id (ground arith) (omega (arith, own a.slot_id st))
      b.0
targets o _ own b = tt

module _ (cfg : Config) (cs : List Choice) (small : length cs < 2 ^ 64) where
  -- After any steps in any order (fewer than 2^64), a request that holds a lease has its slot in the
  -- map: it is busy, and its container, target URL and profile are still those of the lease.
  pub lease_matches :
      (i : ℕ) (l : Lease)
      → get_elem? (reachable cfg cs).tasks i ≡ some (serving l)
      → (s : ContainerSlot) × (lookup l.slot_id (reachable cfg cs).orchestrator.slots ≡ some s)
        × (s.state ≡ busy)
        × (new_lease_locked s ≡ l)
  lease_matches i l e =
      let o = (reachable cfg cs).orchestrator in
      let (s, found, is_busy, given) =
        slot_at o l.slot_id busy refl (mine cfg cs small i (serving l) e l.slot_id busy) in
      let b = elem-Backed o (reachable cfg cs).tasks i (serving l) e (start-Backed cfg cs small) in
      (s, found, is_busy, some-injective (lease_at o l.slot_id) (new_lease_locked s) l given b)

  -- After any steps in any order (fewer than 2^64), `destroySlot`'s goroutine and `runMaintenance` tell
  -- Docker to remove or to pause only the container of a slot that is marked for it: the goroutine
  -- has a slot that is being removed, and the next action of `runMaintenance` a slot that is being
  -- paused or removed, as the action says, and the container is the slot's own. (A launch that fails
  -- removes the container that it has just created, which no slot has yet; that is not said here.)
  pub docker_targets :
      (i : ℕ) (t : Task)
      → get_elem? (reachable cfg cs).tasks i ≡ some t
      → HasTargets (reachable cfg cs).orchestrator t
  docker_targets i t e =
      let o = (reachable cfg cs).orchestrator in
      targets o t (mine cfg cs small i t e)
        (elem-Backed o (reachable cfg cs).tasks i t e (start-Backed cfg cs small))
