-- ===== src/System/Maintained.antt =====
-- `runMaintenance` as a whole: what becomes of each slot.
pub mod Loop
use lm_server.Prelude.{
  ℕ, ◌≡◌, refl, Text, text_eq, text_eq_iff, ◌&&◌, ◌||◌, List, [], ◌∷◌, Option, none, some,
  if◌then◌else◌, Option-cases, inl, inr, sub_ℕ, arith, ◌∙◌, ap,
}
use mathlib.Core.Option
use lm_server.Store.{lookup, Distinct}
use lm_server.Store.Laws.{lookup-update, lookup-delete, update-Distinct, delete-Distinct}
use lm_server.Orchestrator.State.{
  SlotState, ready, paused, same_state, ContainerSlot, Slots, Orchestrator, GoError,
}
use lm_server.Orchestrator.Maintenance.{
  ActionKind, pause, remove, MaintenanceAction, is_over, action_for, marked, collect_actions,
  collect_maintenance_actions, finish_pause, finish_remove, finish_action,
}
use lm_server.Orchestrator.Plan.{write_slot}
use lm_server.Orchestrator.Cycle.{docker_call, run_actions, run_maintenance}
use lm_server.Docker.Client.{Client, Containers, remove_container, pause_container}
use lm_server.System.Keys.{Keyed}
use lm_server.System.Moves.{IsStore}
use lm_server.System.Sweep.{action_for-IsAction, collect-Distinct}

-- The specification: what a slot becomes, by its own state and its profile's limits. `none` is a
-- slot that goes away.
abbrev pub maintained : Client → ℕ → ContainerSlot → Option ContainerSlot
maintained d now s =
    let idle_for = sub_ℕ now s.last_used_at in
    if (same_state s.state ready || same_state s.state paused)
      && is_over s.profile.idle_destroy_after idle_for
    then elim (d.remove s.container_id) [ none ↦ none | some e ↦ some s ]
    else if same_state s.state ready && is_over s.profile.idle_pause_after idle_for
    then elim (d.pause s.container_id) [
      | none ↦ some (record s { state = paused })
      | some e ↦ some s
    ]
    else some s

abbrev with_state : SlotState → ContainerSlot → ContainerSlot
with_state st s = record s { state = st }

-- What Docker answers to an action, and what that makes of the action's slot.
abbrev answer : Client → MaintenanceAction → Option GoError
answer d a = elim a.kind [ pause ↦ d.pause a.container_id | remove ↦ d.remove a.container_id ]

abbrev ended : MaintenanceAction → Option GoError → Option ContainerSlot → Option ContainerSlot
ended a (some e) x = Option.map (with_state a.previous) x
ended a none x = elim a.kind [ pause ↦ Option.map (with_state paused) x | remove ↦ none ]

-- What a list of actions makes of the slot under one ID.
abbrev all_ended :
    Client → Text → List MaintenanceAction → Option ContainerSlot → Option ContainerSlot
all_ended d k [] x = x
all_ended d k (a ∷ rest) x =
    all_ended d k rest (if text_eq a.slot_id k then ended a (answer d a) x else x)

-- A write through `o.slots[id]`, where there is such a slot.
found_write :
    (o : Orchestrator) (id k : Text) (f : ContainerSlot → ContainerSlot)
    → Distinct o.slots
    → let o' : Orchestrator = elim (lookup id o.slots) [ none ↦ o | some s ↦ write_slot o id f ] in
      (lookup k o'.slots
        ≡ (if text_eq id k then Option.map f (lookup k o.slots) else lookup k o.slots))
      × Distinct o'.slots
found_write o id k f d = elim (Option-cases (lookup id o.slots)) [
  | inl e ↦ rw e (ground (arith, text_eq_iff id k), d)
  | inr (s, e) ↦ rw e (
    ground (arith, text_eq_iff id k, lookup-update id k f o.slots),
    update-Distinct id f o.slots d,
  )
]

finish-lookup :
    (o : Orchestrator) (kind : ActionKind) (id container : Text) (previous : SlotState)
    (err : Option GoError) (k : Text)
    → Distinct o.slots
    → let a : MaintenanceAction = record {
      kind = kind;
      slot_id = id;
      container_id = container;
      previous = previous;
    } in
      (lookup k (finish_action o a err).slots
        ≡ (if text_eq id k then ended a err (lookup k o.slots) else lookup k o.slots))
      × Distinct (finish_action o a err).slots
unfolding finish_action finish_pause finish_remove
finish-lookup o pause id container previous (some x) k d =
    found_write o id k (with_state previous) d
finish-lookup o pause id container previous none k d = found_write o id k (with_state paused) d
finish-lookup o remove id container previous (some x) k d =
    found_write o id k (with_state previous) d
finish-lookup o remove id container previous none k d =
    (ground (arith, text_eq_iff id k, lookup-delete id k o.slots d), delete-Distinct id o.slots d)

docker_call-answer :
    (d : Client) (cs : Containers) (kind : ActionKind) (id container : Text) (previous : SlotState)
    → let a : MaintenanceAction = record {
      kind = kind;
      slot_id = id;
      container_id = container;
      previous = previous;
    } in
      (docker_call d cs a).1 ≡ answer d a
unfolding pause_container remove_container
docker_call-answer d cs pause id container previous = refl
docker_call-answer d cs remove id container previous = elim (Option-cases (d.remove container)) [
  | inl e ↦ rw e refl
  | inr (x, e) ↦ rw e refl
]

run_actions-lookup :
    (d : Client) (o : Orchestrator) (cs : Containers) (actions : List MaintenanceAction) (k : Text)
    → Distinct o.slots
    → lookup k (run_actions d o cs actions).0.slots ≡ all_ended d k actions (lookup k o.slots)
unfolding run_actions
run_actions-lookup d o cs [] k distinct = refl
run_actions-lookup d o cs (a ∷ rest) k distinct =
    let (cs', err) = docker_call d cs a in
    let (found, distinct') =
      finish-lookup o a.kind a.slot_id a.container_id a.previous err k distinct in
    let same = docker_call-answer d cs a.kind a.slot_id a.container_id a.previous in
    run_actions-lookup d (finish_action o a err) cs' rest k distinct'
    ∙ ap (all_ended d k rest) (
        found
        ∙ ap (λ e. if text_eq a.slot_id k then ended a e (lookup k o.slots) else lookup k o.slots)
            same)

abbrev pub maintained_at : Client → ℕ → Option ContainerSlot → Option ContainerSlot
maintained_at d now none = none
maintained_at d now (some s) = maintained d now s

idle-maintained :
    (d : Client) (now : ℕ) (s : ContainerSlot)
    → action_for now s ≡ none
    → maintained d now s ≡ some s
unfolding action_for
idle-maintained d now s e = ground arith

acted-maintained :
    (d : Client) (now : ℕ) (s : ContainerSlot) (a : MaintenanceAction)
    → action_for now s ≡ some a
    → ended a (answer d a) (some (marked (some a) s)) ≡ maintained d now s
unfolding action_for
acted-maintained d now s a e = ground arith

absent-all_ended :
    (d : Client) (now : ℕ) (k : Text) (m : Slots) (x : Option ContainerSlot)
    → Keyed m
    → lookup k m ≡ none
    → all_ended d k (collect_actions now m).1 x ≡ x
unfolding lookup collect_actions
absent-all_ended d now k [] x h e = refl
absent-all_ended d now k ((j, s) ∷ m) x h e = elim (Option-cases (action_for now s)) [
  | inl f ↦ rw f (absent-all_ended d now k m x h.1 (ground arith))
  | inr (a, f) ↦
      let own = (action_for-IsAction now s a f).own_id in
      rw f (
        ground (
          arith,
          own,
          h.0,
          text_eq_iff j k,
          text_eq_iff a.slot_id k,
          absent-all_ended d now k m x h.1,
        ))
]

collect-maintained :
    (d : Client) (now : ℕ) (k : Text) (m : Slots)
    → Distinct m
    → Keyed m
    → all_ended d k (collect_actions now m).1 (lookup k (collect_actions now m).0)
      ≡ maintained_at d now (lookup k m)
unfolding lookup collect_actions
collect-maintained d now k [] distinct h = refl
collect-maintained d now k ((j, s) ∷ m) distinct h = elim (Option-cases (action_for now s)) [
  | inl f ↦ rw f (
      ground (
        arith,
        text_eq_iff j k,
        idle-maintained d now s f,
        absent-all_ended d now k m (some s) h.1,
        collect-maintained d now k m distinct.1 h.1,
      ))
  | inr (a, f) ↦ rw f (
      ground (
        arith,
        (action_for-IsAction now s a f).own_id,
        h.0,
        text_eq_iff j k,
        text_eq_iff a.slot_id k,
        acted-maintained d now s a f,
        absent-all_ended d now k m (ended a (answer d a) (some (marked (some a) s))) h.1,
        collect-maintained d now k m distinct.1 h.1,
      ))
]

pub run_maintenance-lookup :
    (d : Client) (o : Orchestrator) (cs : Containers) (now : ℕ) (k : Text)
    → Distinct o.slots
    → Keyed o.slots
    → lookup k (run_maintenance d o cs now).0.slots ≡ maintained_at d now (lookup k o.slots)
unfolding run_maintenance collect_maintenance_actions
run_maintenance-lookup d o cs now k distinct keyed =
    let r = collect_actions now o.slots in
    run_actions-lookup d (record o { slots = r.0 }) cs r.1 k (collect-Distinct now o.slots distinct)
    ∙ collect-maintained d now k o.slots distinct keyed
