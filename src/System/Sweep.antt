-- ===== src/System/Sweep.antt =====
-- `collectMaintenanceActions`: each action that it returns comes with the slot that it has marked.
use lm_server.Prelude.{
  ℕ, ◌+◌, ◌≡◌, refl, Text, text_eq_iff, false, [], ◌∷◌, some, arith, All, List, Option-cases, inl,
  inr,
}
use mathlib.Core.Option
use lm_server.Store.{lookup, Distinct}
use lm_server.Orchestrator.State.{SlotState, ContainerSlot, Slots, Orchestrator}
use lm_server.Orchestrator.Maintenance.{
  MaintenanceAction, action_for, marked, collect_actions, collect_maintenance_actions,
}
use lm_server.Orchestrator.SlotId.{slot_id}
use lm_server.System.Claims.{holds, is_owned, action_claims}
use lm_server.System.Keys.{Keyed}
use lm_server.System.Moves.{IsStore, Moves, no_claim}

-- A slot that an action is for was free, and goes back to a free state if the action fails.
pub record IsAction (a : MaintenanceAction) (s : ContainerSlot) : Type 0 where
  pub own_id : a.slot_id ≡ s.slot_id
  pub was_free : is_owned s.state ≡ false
  pub back_free : is_owned a.previous ≡ false
  pub own_container : a.container_id ≡ s.container_id

pub action_for-IsAction :
    (now : ℕ) (s : ContainerSlot) (a : MaintenanceAction) → action_for now s ≡ some a → IsAction a s
unfolding action_for
action_for-IsAction now s a e = ground arith

abbrev pub sweep : ℕ → ContainerSlot → ContainerSlot
sweep now s = marked (action_for now s) s

pub lookup-collect :
    (now : ℕ) (k : Text) (m : Slots)
    → lookup k (collect_actions now m).0 ≡ Option.map (sweep now) (lookup k m)
unfolding lookup collect_actions
lookup-collect now k [] = refl
lookup-collect now k ((j, s) ∷ m) = ground (arith, lookup-collect now k m)

pub collect-Distinct : (now : ℕ) (m : Slots) → Distinct m → Distinct (collect_actions now m).0
unfolding collect_actions
collect-Distinct now [] d = tt
collect-Distinct now ((j, s) ∷ m) d =
    (ground (arith, lookup-collect now j m), collect-Distinct now m d.1)

pub collect-Keyed : (now : ℕ) (m : Slots) → Keyed m → Keyed (collect_actions now m).0
unfolding collect_actions
collect-Keyed now [] h = tt
collect-Keyed now ((j, s) ∷ m) h = (ground arith, collect-Keyed now m h.1)

collect_balance :
    (now : ℕ) (m : Slots) (k : Text) (st : SlotState)
    → Distinct m
    → Keyed m
    → action_claims (collect_actions now m).1 k st + holds (lookup k m) st
      ≡ holds (lookup k (collect_actions now m).0) st
unfolding lookup collect_actions
collect_balance now [] k st d h = refl
collect_balance now ((j, s) ∷ m) k st d h = elim (Option-cases (action_for now s)) [
  | inl e ↦
      rw e (
        ground (arith, text_eq_iff j k, lookup-collect now k m, collect_balance now m k st d.1 h.1))
  | inr (a, e) ↦ rw e (
      ground (
        arith,
        text_eq_iff j k,
        text_eq_iff a.slot_id k,
        action_for-IsAction now s a e,
        lookup-collect now k m,
        collect_balance now m k st d.1 h.1,
      ))
]

abbrev pub AreActions : List MaintenanceAction → Type 0
AreActions = All (λ a. is_owned a.previous ≡ false)

pub collect-AreActions : (now : ℕ) (m : Slots) → AreActions (collect_actions now m).1
unfolding collect_actions
collect-AreActions now [] = tt
collect-AreActions now ((j, s) ∷ m) = elim (Option-cases (action_for now s)) [
  | inl e ↦ rw e (collect-AreActions now m)
  | inr (a, e) ↦ rw e ((action_for-IsAction now s a e).back_free, collect-AreActions now m)
]

pub collect-Moves :
    (o : Orchestrator) (now : ℕ)
    → IsStore o
    → Moves o
        (collect_maintenance_actions o now).0
        no_claim
        (action_claims (collect_maintenance_actions o now).1)
unfolding collect_maintenance_actions
collect-Moves o now h = record {
  store = record {
    distinct = collect-Distinct now o.slots h.distinct;
    keyed = collect-Keyed now o.slots h.keyed;
    fresh =
        λ n lt small. ground (arith, lookup-collect now (slot_id n) o.slots, h.fresh n lt small);
  };
  balance = λ k st. omega (arith, collect_balance now o.slots k st h.distinct h.keyed);
}
