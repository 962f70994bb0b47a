-- ===== src/System/Progress.antt =====
-- A request gets its lease: `Acquire`, where a slot is free or may be launched and Docker answers.
use lm_server.Prelude.{
  ℕ, zero, suc, ◌^◌, ◌<◌, ◌≡◌, refl, ap, Text, text_eq_refl, Bool, true, false, ◌||◌, length,
  get_elem?, List, [], ◌∷◌, ◌++◌, Option, some, none, arith,
}
use lm_server.Types.{ContainerProfile, Config}
use lm_server.Store.{lookup}
use lm_server.Store.Laws.{lookup-put, lookup-update}
use lm_server.Orchestrator.State.{
  starting, ready, busy, paused, resuming, ContainerSlot, Orchestrator, Lease, new_lease_locked,
}
use lm_server.Orchestrator.SlotId.{slot_id, next_seq}
use lm_server.Orchestrator.Plan.{
  first_slot, can_launch_locked, touch, write_slot, fresh_slot, reserve,
}
use lm_server.Orchestrator.Plan.Outcome.{plan_cases}
use lm_server.Orchestrator.Slots.{LaunchedContainer, launched_slot, finish_launch, finish_resume}
use lm_server.System.{
  Task, acquiring, launching, starting_up, resume_planned, unpausing, serving, Event, lock,
  answered, advance, follow, begun, served, System, Choice, pick, advance_at, step, run,
}
use lm_server.System.Keys.{first_slot-lookup}
use lm_server.System.Moves.{IsStore}
use lm_server.System.Requests.{begin_launch-found, begin_resume-found}
use lm_server.System.Safety.{reachable, sound}

abbrev is_some : Option ContainerSlot → Bool
is_some none = false
is_some (some s) = true

-- There is a ready slot or a paused slot for the profile, or one may be launched.
abbrev pub can_serve : Orchestrator → ContainerProfile → Bool
can_serve o p =
    is_some (first_slot ready p.name o.slots)
    || is_some (first_slot paused p.name o.slots)
    || can_launch_locked o p

-- The task's next three stretches under the lock end with a lease on a slot of the profile.
abbrev pub Serves :
    Orchestrator → ContainerProfile → ℕ → LaunchedContainer → ℕ → Orchestrator → Task → Type 0
Serves o p now l later o1 t1 =
    (o2 : Orchestrator) × (t2 : Task) × (o3 : Orchestrator) × (lease : Lease) × (advance o1 t1
        (lock now now)
      ≡ (o2, t2 ∷ []))
    × (advance o2 t2 (answered l later) ≡ (o3, serving lease ∷ []))
    × (lease.profile.name ≡ p.name)

module _ (o : Orchestrator) (p : ContainerProfile) (now : ℕ) (l : LaunchedContainer)
    (later : ℕ) where
  granted-Serves :
      (lease : Lease) → lease.profile.name ≡ p.name → Serves o p now l later o (serving lease)
  unfolding advance
  granted-Serves lease e = (o, serving lease, o, lease, refl, refl, e)

  resumed-Serves :
      (id : Text) (s : ContainerSlot)
      → lookup id o.slots ≡ some s
      → s.state ≡ resuming
      → s.profile.name ≡ p.name
      → Serves o p now l later o (resume_planned p id)
  unfolding advance begun served finish_resume new_lease_locked
  resumed-Serves id s found e name = (
    o,
    unpausing p id,
    write_slot o id (touch busy later),
    new_lease_locked (touch busy later s),
    rw (begin_resume-found o id s found e) refl,
    rw (found, finish_resume) refl,
    name,
  )

  launched-Serves :
      (id : Text) (s : ContainerSlot)
      → lookup id o.slots ≡ some s
      → s.state ≡ starting
      → s.profile.name ≡ p.name
      → Serves o p now l later o (launching p id)
  unfolding advance begun served finish_launch new_lease_locked
  launched-Serves id s found e name = (
    o,
    starting_up p id,
    write_slot o id (launched_slot l later),
    new_lease_locked (launched_slot l later s),
    rw (begin_launch-found o id s found e) refl,
    rw (found, finish_launch) refl,
    name,
  )

pub plan-Serves :
    (o : Orchestrator) (p : ContainerProfile) (now stamp : ℕ) (l : LaunchedContainer) (later : ℕ)
    → IsStore o
    → can_serve o p ≡ true
    → (o1 : Orchestrator) × (t1 : Task) × (advance o (acquiring p) (lock now stamp) ≡ (o1, t1 ∷ []))
      × Serves o p now l later o1 t1
unfolding advance follow
plan-Serves o p now stamp l later h can =
    plan_cases
      (λ r.
        (o1 : Orchestrator) × (t1 : Task) × (◌≡◌ {A = Orchestrator × List Task}
          (r.0, follow p r.1 ∷ []) (o1, t1 ∷ []))
        × Serves o p now l later o1 t1)
      o p now stamp
      (λ s e.
        let (_, _, name) = first_slot-lookup ready p.name s o.slots h.distinct h.keyed e in
        let o1 = write_slot o s.slot_id (touch busy now) in
        let lease = new_lease_locked (touch busy now s) in
        (
          o1,
          serving lease,
          refl,
          granted-Serves o1 p now l later lease (unfold new_lease_locked in name),
        ))
      (λ s _ e.
        let (found, _, name) = first_slot-lookup paused p.name s o.slots h.distinct h.keyed e in
        let o1 = write_slot o s.slot_id (touch resuming now) in
        (
          o1,
          resume_planned p s.slot_id,
          refl,
          resumed-Serves o1 p now l later s.slot_id (touch resuming now s)
              (ground (
                arith,
                found,
                lookup-update s.slot_id s.slot_id (touch resuming now) o.slots,
                text_eq_refl s.slot_id,
              ))
              refl name,
        ))
      (λ _ _ _.
        let id = slot_id (next_seq o.slot_seq) in
        let s = fresh_slot o p now stamp in
        let o1 = (reserve o p now stamp).0 in
        unfold reserve in
        (
          o1,
          launching p id,
          refl,
          launched-Serves o1 p now l later id s
              (ground (arith, lookup-put id id s o.slots, text_eq_refl id)) refl refl,
        ))
      (λ e e' no. absurd (ground (arith, e, e', no)))

-- A step of the task at an index, as its place in the list sees it.
advance_at-elem :
    (o : Orchestrator) (i : ℕ) (e : Event) (ts : List Task) (t : Task) (o' : Orchestrator)
    (u : Task)
    → get_elem? ts i ≡ some t
    → advance o t e ≡ (o', u ∷ [])
    → ((advance_at o i e ts).0 ≡ o') × (get_elem? (advance_at o i e ts).1 i ≡ some u)
unfolding advance_at
advance_at-elem o i e [] t o' u at r = cc
advance_at-elem o zero e (v ∷ ts) t o' u at r =
    let same : v ≡ t = cc in
    let r' : advance o v e ≡ (o', u ∷ []) = rw same r in
    (ap (λ x. x.0) r', ap (λ x. get_elem? (x.1 ++ ts) 0) r')
advance_at-elem o (suc i) e (v ∷ ts) t o' u at r = advance_at-elem o i e ts t o' u at r

pick-elem :
    (sys : System) (i : ℕ) (e : Event) (t : Task) (o o' : Orchestrator) (u : Task)
    → (sys.orchestrator ≡ o) × (get_elem? sys.tasks i ≡ some t)
    → advance o t e ≡ (o', u ∷ [])
    → ((step sys (pick i e)).orchestrator ≡ o') × (get_elem? (step sys (pick i e)).tasks i ≡ some u)
unfolding step
pick-elem sys i e t o o' u (same, at) r =
    advance_at-elem sys.orchestrator i e sys.tasks t o' u at (rw same r)

-- The request's stretches of code, with no other task between them.
abbrev pub alone : ℕ → ℕ → ℕ → LaunchedContainer → ℕ → List Choice
alone i now stamp l later =
    pick i (lock now stamp) ∷ pick i (lock now now) ∷ pick i (answered l later) ∷ []

-- After any steps in any order (fewer than 2^64), a request in the loop of `Acquire` for whose
-- profile there is a ready slot or a paused one, or for which a container may be launched, gets a
-- lease on a slot of that profile, if it may take its next three steps and Docker and the health
-- check succeed.
pub acquire_served :
    (cfg : Config) (cs : List Choice)
    → length cs < 2 ^ 64
    → (i : ℕ) (p : ContainerProfile) (now stamp : ℕ) (l : LaunchedContainer) (later : ℕ)
    → get_elem? (reachable cfg cs).tasks i ≡ some (acquiring p)
    → can_serve (reachable cfg cs).orchestrator p ≡ true
    → (lease : Lease) × (get_elem? (run (reachable cfg cs) (alone i now stamp l later)).tasks i
        ≡ some (serving lease))
      × (lease.profile.name ≡ p.name)
unfolding run
acquire_served cfg cs small i p now stamp l later at can =
    let sys = reachable cfg cs in
    let o = sys.orchestrator in
    let (o1, t1, e1, serves) = plan-Serves o p now stamp l later (sound cfg cs small).store can in
    let (o2, t2, o3, lease, e2, e3, name) = serves in
    let s1 = pick-elem sys i (lock now stamp) (acquiring p) o o1 t1 (refl, at) e1 in
    let sys1 = step sys (pick i (lock now stamp)) in
    let s2 = pick-elem sys1 i (lock now now) t1 o1 o2 t2 s1 e2 in
    let sys2 = step sys1 (pick i (lock now now)) in
    let s3 = pick-elem sys2 i (answered l later) t2 o2 o3 (serving lease) s2 e3 in
    (lease, s3.1, name)
