-- ===== src/Orchestrator/Maintenance.antt =====
-- internal/orchestrator/orchestrator.go: `collectMaintenanceActions`, `finishPause`, `finishRemove`.
use lm_server.Prelude.{
  ℕ, ℤ, pos, sub_ℕ, ltb_ℤ, leb_ℤ, Text, Bool, ◌&&◌, List, [], ◌∷◌, Option, none, some,
  if◌then◌else◌,
}
use lm_server.Store.{lookup}
use lm_server.Orchestrator.State.{
  SlotState, ready, paused, pausing, removing, ContainerSlot, Slots, Orchestrator, GoError,
}
use lm_server.Orchestrator.Plan.{write_slot}
use lm_server.Orchestrator.Slots.{delete_slot}

pub data ActionKind : Type 0 where
  pause remove : ActionKind

pub record MaintenanceAction : Type 0 where
  pub kind : ActionKind
  pub slot_id : Text
  pub container_id : Text
  pub previous : SlotState

-- `limit > 0 && idleFor >= limit`
abbrev pub is_over : ℤ → ℤ → Bool
is_over limit idle_for = ltb_ℤ (pos 0) limit && leb_ℤ limit idle_for

abbrev pub action : ActionKind → SlotState → ContainerSlot → MaintenanceAction
action kind previous s = record {
  kind = kind;
  slot_id = s.slot_id;
  container_id = s.container_id;
  previous = previous;
}

-- The `switch` in the loop's body: the action for one slot, by its state.
decide : SlotState → ℤ → ContainerSlot → Option MaintenanceAction
decide ready idle_for s =
    if is_over s.profile.idle_destroy_after idle_for
    then some (action remove ready s)
    else if is_over s.profile.idle_pause_after idle_for
    then some (action pause ready s)
    else none
decide paused idle_for s =
    if is_over s.profile.idle_destroy_after idle_for then some (action remove paused s) else none
decide _ idle_for s = none

unfoldable pub action_for : ℕ → ContainerSlot → Option MaintenanceAction
unfolding decide
action_for now s = decide s.state (sub_ℕ now s.last_used_at) s

abbrev pub state_under : ActionKind → SlotState
state_under pause = pausing
state_under remove = removing

abbrev pub marked : Option MaintenanceAction → ContainerSlot → ContainerSlot
marked none s = s
marked (some a) s = record s { state = state_under a.kind }

abbrev pub added : Option MaintenanceAction → List MaintenanceAction → List MaintenanceAction
added none rest = rest
added (some a) rest = a ∷ rest

-- The loop of `collectMaintenanceActions`: the slots after it, and the actions in its order.
unfoldable pub collect_actions : ℕ → Slots → Slots × List MaintenanceAction
collect_actions now [] = ([], [])
collect_actions now ((k, s) ∷ m) =
    let (m', actions) = collect_actions now m in
    let a = action_for now s in ((k, marked a s) ∷ m', added a actions)

unfoldable pub collect_maintenance_actions :
    Orchestrator → ℕ → Orchestrator × List MaintenanceAction
unfolding collect_actions
collect_maintenance_actions o now =
    let (slots, actions) = collect_actions now o.slots in (record o { slots = slots }, actions)

-- `none` is the nil error.
unfoldable pub finish_pause : Orchestrator → MaintenanceAction → Option GoError → Orchestrator
finish_pause o a err = elim (lookup a.slot_id o.slots) [
  | none ↦ o
  | some s ↦ elim err [
    | some e ↦ write_slot o a.slot_id (λ t. record t { state = a.previous })
    | none ↦ write_slot o a.slot_id (λ t. record t { state = paused })
  ]
]

unfoldable pub finish_remove : Orchestrator → MaintenanceAction → Option GoError → Orchestrator
finish_remove o a (some e) = elim (lookup a.slot_id o.slots) [
  | some s ↦ write_slot o a.slot_id (λ t. record t { state = a.previous })
  | none ↦ o
]
finish_remove o a none = delete_slot o a.slot_id

-- The body of `runMaintenance`'s loop, with the answer of Docker to the action.
unfoldable pub finish_action : Orchestrator → MaintenanceAction → Option GoError → Orchestrator
unfolding finish_pause finish_remove
finish_action o a err = elim a.kind [
  | pause ↦ finish_pause o a err
  | remove ↦ finish_remove o a err
]
