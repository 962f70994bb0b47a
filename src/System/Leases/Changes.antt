-- ===== src/System/Leases/Changes.antt =====
-- What each change of the map of slots does to the leases that the slots give.
use lm_server.Prelude.{
  ℕ, suc, ◌^◌, ◌<◌, ◌≡◌, refl, Text, text_eq_iff, text_eq_refl, sym, subst, All, All-imp, [], ◌∷◌,
  Option, some, none, Option-cases, inl, inr, arith,
}
use mathlib.Core.Option
use lm_server.Types.{ContainerProfile}
use lm_server.Store.{lookup, Distinct}
use lm_server.Store.Laws.{lookup-put, lookup-update, lookup-delete}
use lm_server.Orchestrator.State.{SlotState, ContainerSlot, Slots, Orchestrator, new_lease_locked}
use lm_server.Orchestrator.SlotId.{slot_id, next_seq}
use lm_server.Orchestrator.Plan.{write_slot, fresh_slot, reserve}
use lm_server.Orchestrator.Slots.{delete_slot}
use lm_server.Orchestrator.Maintenance.{
  MaintenanceAction, action_for, marked, collect_actions, collect_maintenance_actions,
}
use lm_server.System.Claims.{claim}
use lm_server.System.Keys.{Keyed}
use lm_server.System.Moves.{IsStore, no_claim, unused}
use lm_server.System.Sweep.{lookup-collect, IsAction, action_for-IsAction}
use lm_server.System.Leases.{lease_at, container_at, name_at, Backed, Keeps}
use lm_server.System.{serving}

-- A write that only touches the state and the time of last use.
abbrev pub SameLease : (ContainerSlot → ContainerSlot) → Type 0
SameLease f = (s : ContainerSlot) → new_lease_locked (f s) ≡ new_lease_locked s

pub lease_at-write :
    (o : Orchestrator) (id k : Text) (f : ContainerSlot → ContainerSlot)
    → SameLease f
    → lease_at (write_slot o id f) k ≡ lease_at o k
lease_at-write o id k f same = elim (Option-cases (lookup k o.slots)) [
  | inl e ↦ ground (arith, lookup-update id k f o.slots, text_eq_iff id k)
  | inr (s, e) ↦ ground (arith, lookup-update id k f o.slots, text_eq_iff id k, same s)
]

pub write-Keeps :
    (o : Orchestrator) (id : Text) (f : ContainerSlot → ContainerSlot) (c : Text → SlotState → ℕ)
    → SameLease f
    → Keeps o (write_slot o id f) c
write-Keeps o id f c same k st held free = lease_at-write o id k f same

module _ (o : Orchestrator) (id : Text) (s : ContainerSlot)
    (found : lookup id o.slots ≡ some s) where
  pub lease_at-written :
      (f : ContainerSlot → ContainerSlot)
      → lease_at (write_slot o id f) id ≡ some (new_lease_locked (f s))
  lease_at-written f = ground (arith, lookup-update id id f o.slots, text_eq_refl id)

  -- The lease of the slot as it is written.
  pub grant-Backed :
      (f : ContainerSlot → ContainerSlot)
      → (f s).slot_id ≡ id
      → Backed (write_slot o id f) (serving (new_lease_locked (f s)))
  grant-Backed f key =
      let e : id ≡ (new_lease_locked (f s)).slot_id = unfold new_lease_locked in sym key in
      subst (λ k. lease_at (write_slot o id f) k ≡ some (new_lease_locked (f s))) e
        (lease_at-written f)

  module _ (st : SlotState) (e : s.state ≡ st) where
    -- The slot of the task that changes it may get any lease.
    pub write-Keeps_own :
        (f : ContainerSlot → ContainerSlot) → Keeps o (write_slot o id f) (claim id st)
    write-Keeps_own f k st' held free =
        ground (arith, e, lookup-update id k f o.slots, text_eq_iff id k)

    pub delete-Keeps : Distinct o.slots → Keeps o (delete_slot o id) (claim id st)
    delete-Keeps d k st' held free =
        ground (arith, e, lookup-delete id k o.slots d, text_eq_iff id k)

pub reserve-Keeps :
    (o : Orchestrator) (p : ContainerProfile) (now stamp : ℕ)
    → IsStore o
    → suc o.slot_seq < 2 ^ 64
    → Keeps o (reserve o p now stamp).0 no_claim
unfolding reserve
reserve-Keeps o p now stamp h small k st held free =
    let id = slot_id (next_seq o.slot_seq) in
    ground (
      arith,
      lookup-put id k (fresh_slot o p now stamp) o.slots,
      text_eq_iff id k,
      unused o p now stamp h small,
    )

-- The slot that is reserved is of the profile.
pub reserve-name_at :
    (o : Orchestrator) (p : ContainerProfile) (now stamp : ℕ)
    → name_at (reserve o p now stamp).0 (slot_id (next_seq o.slot_seq)) ≡ some p.name
unfolding reserve new_lease_locked
reserve-name_at o p now stamp =
    let id = slot_id (next_seq o.slot_seq) in
    ground (arith, lookup-put id id (fresh_slot o p now stamp) o.slots, text_eq_refl id)

marked-lease :
    (x : Option MaintenanceAction) (s : ContainerSlot)
    → new_lease_locked (marked x s) ≡ new_lease_locked s
unfolding new_lease_locked
marked-lease none s = refl
marked-lease (some a) s = refl

pub lease_at-collect :
    (o : Orchestrator) (now : ℕ) (k : Text)
    → lease_at (collect_maintenance_actions o now).0 k ≡ lease_at o k
unfolding collect_maintenance_actions
lease_at-collect o now k = elim (Option-cases (lookup k o.slots)) [
  | inl e ↦ ground (arith, lookup-collect now k o.slots)
  | inr (s, e) ↦ ground (arith, lookup-collect now k o.slots, marked-lease (action_for now s) s)
]

abbrev container_in : Slots → Text → Option Text
container_in m k = Option.map (λ s. s.container_id) (lookup k m)

pub container_in-lease : (o : Orchestrator) (k : Text) → container_at o k ≡ container_in o.slots k
unfolding new_lease_locked
container_in-lease o k = ground arith

abbrev pub HasTarget : Slots → MaintenanceAction → Type 0
HasTarget m a = container_in m a.slot_id ≡ some a.container_id

cons-HasTarget :
    (j : Text) (s : ContainerSlot) (m : Slots)
    → lookup j m ≡ none
    → (a : MaintenanceAction) → HasTarget m a
    → HasTarget ((j, s) ∷ m) a
unfolding lookup
cons-HasTarget j s m e a h = ground (arith, text_eq_iff j a.slot_id)

head-HasTarget :
    (j : Text) (s : ContainerSlot) (m : Slots)
    → s.slot_id ≡ j
    → (a : MaintenanceAction) → IsAction a s
    → HasTarget ((j, s) ∷ m) a
unfolding lookup
head-HasTarget j s m e a h = ground (arith, text_eq_iff j a.slot_id, h.own_id, h.own_container)

-- Each action that `collectMaintenanceActions` returns is for the container of its slot.
pub collect-HasTarget :
    (now : ℕ) (m : Slots) → Distinct m → Keyed m → All (HasTarget m) (collect_actions now m).1
unfolding collect_actions
collect-HasTarget now [] d h = tt
collect-HasTarget now ((j, s) ∷ m) d h =
    let rest =
      All-imp (HasTarget m) (HasTarget ((j, s) ∷ m)) (collect_actions now m).1
        (cons-HasTarget j s m d.0) (collect-HasTarget now m d.1 h.1) in
    elim (Option-cases (action_for now s)) [
      | inl e ↦ rw e rest
      | inr (a, e) ↦ rw e (head-HasTarget j s m h.0 a (action_for-IsAction now s a e), rest)
    ]
