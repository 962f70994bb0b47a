-- ===== src/Orchestrator/Plan.antt =====
-- internal/orchestrator/orchestrator.go: `planAcquire`, `canLaunchLocked` and the loops below them.
pub mod Launch
pub mod Outcome
use lm_server.Prelude.{
  ℕ, ◌+◌, ◌≡◌, ℤ, pos, add64, ltb_ℤ, leb_ℤ, Text, codes, text_eq, Bool, true, false, not, ◌&&◌, [],
  ◌∷◌, ◌++◌, Option, none, some, if◌then◌else◌,
}
use lm_server.Types.{QueueClass, same_class, ContainerProfile}
use lm_server.Store.{put, update}
use lm_server.Orchestrator.State.{
  SlotState, starting, ready, busy, paused, resuming, removing, same_state, ContainerSlot, Slots,
  Orchestrator, new_lease_locked, AcquirePlan, granted, resume, launch, wait,
}
use lm_server.Orchestrator.SlotId.{decimal, slot_id, next_seq}

-- The first slot that a loop of `planAcquire` stops at.
unfoldable pub first_slot : SlotState → Text → Slots → Option ContainerSlot
first_slot st name [] = none
first_slot st name ((k, s) ∷ m) =
    if text_eq s.profile.name name && same_state s.state st then some s else first_slot st name m

-- `totalSlotsForProfileLocked`
unfoldable pub total_slots_for_profile_locked : Text → Slots → ℕ
total_slots_for_profile_locked name [] = 0
total_slots_for_profile_locked name ((k, s) ∷ m) =
    (if text_eq s.profile.name name && not (same_state s.state removing) then 1 else 0)
    + total_slots_for_profile_locked name m

-- The loop of `canLaunchLocked`, over its variables `totalUsed` and `classUsed`.
unfoldable pub usage_from : QueueClass → ℤ → ℤ → Slots → ℤ × ℤ
usage_from c total_used class_used [] = (total_used, class_used)
usage_from c total_used class_used ((k, s) ∷ m) = elim (same_state s.state removing) [
  | true ↦ usage_from c total_used class_used m
  | false ↦
      usage_from c (add64 total_used s.profile.vram_mb)
        (if same_class s.profile.queue_class c
          then add64 class_used s.profile.vram_mb
          else class_used)
        m
]

-- A read of the map `classBudgetMB`: 0 where the class is missing.
abbrev pub budget_in : Option ℤ → ℤ
budget_in b = elim b [ some n ↦ n | none ↦ pos 0 ]

abbrev pub budget_of : Orchestrator → QueueClass → ℤ
budget_of o c = budget_in (o.class_budget_mb c)

unfoldable pub can_launch_locked : Orchestrator → ContainerProfile → Bool
unfolding total_slots_for_profile_locked usage_from
can_launch_locked o p =
    let used = usage_from p.queue_class (pos 0) (pos 0) o.slots in
    if leb_ℤ p.max_containers (pos (total_slots_for_profile_locked p.name o.slots))
    then false
    else if ltb_ℤ o.total_vram_mb (add64 used.0 p.vram_mb)
    then false
    else if ltb_ℤ (pos 0) (budget_of o p.queue_class)
        && ltb_ℤ (budget_of o p.queue_class) (add64 used.1 p.vram_mb)
    then false
    else true

-- `slot.State = state; slot.LastUsedAt = now`
abbrev pub touch : SlotState → ℕ → ContainerSlot → ContainerSlot
touch st now s = record s { state = st; last_used_at = now }

abbrev pub write_slot : Orchestrator → Text → (ContainerSlot → ContainerSlot) → Orchestrator
write_slot o id f = record o { slots = update id f o.slots }

-- The slot that `planAcquire` reserves; `stamp` is its second reading of the clock.
abbrev pub fresh_slot : Orchestrator → ContainerProfile → ℕ → ℕ → ContainerSlot
fresh_slot o p now stamp = record {
  slot_id = slot_id (next_seq o.slot_seq);
  container_id = [];
  name = codes "lmserv-" ++ (p.name ++ (codes "-" ++ decimal stamp));
  profile = p;
  state = starting;
  target_url = [];
  health_url = [];
  created_at = now;
  last_used_at = now;
}

unfoldable pub reserve : Orchestrator → ContainerProfile → ℕ → ℕ → Orchestrator × AcquirePlan
reserve o p now stamp =
    let id = slot_id (next_seq o.slot_seq) in
    (
      record o {
        slots = put id (fresh_slot o p now stamp) o.slots;
        slot_seq = next_seq o.slot_seq;
      },
      launch id,
    )

unfoldable pub plan_acquire : Orchestrator → ContainerProfile → ℕ → ℕ → Orchestrator × AcquirePlan
unfolding first_slot reserve
plan_acquire o p now stamp = elim (first_slot ready p.name o.slots) [
  | some s ↦
      (write_slot o s.slot_id (touch busy now), granted (new_lease_locked (touch busy now s)))
  | none ↦ elim (first_slot paused p.name o.slots) [
    | some s ↦ (write_slot o s.slot_id (touch resuming now), resume s.slot_id)
    | none ↦ if can_launch_locked o p then reserve o p now stamp else (o, wait)
  ]
]
