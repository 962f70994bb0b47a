-- ===== src/Orchestrator/Snapshot.antt =====
-- internal/orchestrator/orchestrator.go: `Snapshot`.
use lm_server.Prelude.{
  ℕ, ◌≡◌, refl, ℤ, pos, add64, Text, codes, true, false, List, [], ◌∷◌, ◌++◌, map, Option, none,
  some, if◌then◌else◌, Bool-cases, inl, inr, arith, sym,
}
use mathlib.Core.List.{append_assoc, append-nil}
use lm_server.Types.{QueueClass, same_class, Backend}
use lm_server.Orchestrator.State.{
  SlotState, starting, ready, busy, paused, pausing, resuming, removing, same_state, ContainerSlot,
  Slots, Orchestrator,
}
use lm_server.Orchestrator.Plan.{usage_from, budget_in}

abbrev pub state_text : SlotState → Text
state_text starting = codes "starting"
state_text ready = codes "ready"
state_text busy = codes "busy"
state_text paused = codes "paused"
state_text pausing = codes "pausing"
state_text resuming = codes "resuming"
state_text removing = codes "removing"

pub record ContainerSnapshot : Type 0 where
  pub slot_id : Text
  pub container_id : Text
  pub name : Text
  pub profile : Text
  pub queue_class : QueueClass
  pub backend : Backend
  pub state : Text
  pub target_url : Text
  pub vram_mb : ℤ
  pub created_at : ℕ
  pub last_used_at : ℕ

pub record RuntimeSnapshot : Type 0 where
  pub total_vram_mb : ℤ
  pub used_vram_mb : ℤ
  pub class_usage_mb : QueueClass → Option ℤ
  pub containers : List ContainerSnapshot

abbrev pub container_snapshot : ContainerSlot → ContainerSnapshot
container_snapshot s = record {
  slot_id = s.slot_id;
  container_id = s.container_id;
  name = s.name;
  profile = s.profile.name;
  queue_class = s.profile.queue_class;
  backend = s.profile.backend;
  state = state_text s.state;
  target_url = s.target_url;
  vram_mb = s.profile.vram_mb;
  created_at = s.created_at;
  last_used_at = s.last_used_at;
}

-- The body of the loop for a slot that is not being removed.
abbrev pub counted : RuntimeSnapshot → ContainerSlot → RuntimeSnapshot
counted r s = record r {
  used_vram_mb = add64 r.used_vram_mb s.profile.vram_mb;
  class_usage_mb = λ c.
      if same_class s.profile.queue_class c
      then some (add64 (budget_in (r.class_usage_mb c)) s.profile.vram_mb)
      else r.class_usage_mb c;
  containers = r.containers ++ container_snapshot s ∷ [];
}

unfoldable pub snapshot_from : RuntimeSnapshot → Slots → RuntimeSnapshot
snapshot_from r [] = r
snapshot_from r ((k, s) ∷ m) = elim (same_state s.state removing) [
  | true ↦ snapshot_from r m
  | false ↦ snapshot_from (counted r s) m
]

unfoldable pub runtime_snapshot : Orchestrator → RuntimeSnapshot
unfolding snapshot_from
runtime_snapshot o =
    snapshot_from
      (record {
        total_vram_mb = o.total_vram_mb;
        used_vram_mb = pos 0;
        class_usage_mb = λ _. none;
        containers = [];
      })
      o.slots

-- The slots that are not being removed.
abbrev pub counted_slots : Slots → List ContainerSlot
counted_slots [] = []
counted_slots ((k, s) ∷ m) =
    if same_state s.state removing then counted_slots m else s ∷ counted_slots m

snapshot_from-usage :
    (r : RuntimeSnapshot) (c : QueueClass) (m : Slots)
    → let q = snapshot_from r m in
      let used = usage_from c r.used_vram_mb (budget_in (r.class_usage_mb c)) m in
      (q.used_vram_mb ≡ used.0)
      × (budget_in (q.class_usage_mb c) ≡ used.1)
      × (q.containers ≡ r.containers ++ map container_snapshot (counted_slots m))
unfolding snapshot_from usage_from
snapshot_from-usage r c [] = (refl, refl, sym (append-nil r.containers))
snapshot_from-usage r c ((k, s) ∷ m) = elim (Bool-cases (same_state s.state removing)) [
  | inl y ↦ ground (arith, snapshot_from-usage r c m)
  | inr n ↦ ground (
    arith,
    snapshot_from-usage (counted r s) c m,
    append_assoc r.containers (container_snapshot s ∷ [])
        (map container_snapshot (counted_slots m)),
  )
]

-- The snapshot gives the very usage that the scheduler decides by, in total and for each class, with
-- the wrap of its sums, and one entry for each slot that is not being removed.
pub snapshot-usage :
    (o : Orchestrator) (c : QueueClass)
    → let q = runtime_snapshot o in
      let used = usage_from c (pos 0) (pos 0) o.slots in
      (q.used_vram_mb ≡ used.0)
      × (budget_in (q.class_usage_mb c) ≡ used.1)
      × (q.containers ≡ map container_snapshot (counted_slots o.slots))
unfolding runtime_snapshot
snapshot-usage o c =
    snapshot_from-usage
      (record {
        total_vram_mb = o.total_vram_mb;
        used_vram_mb = pos 0;
        class_usage_mb = λ _. none;
        containers = [];
      })
      c o.slots
