-- ===== src/System/Leases.antt =====
-- What a slot's lease says of its container, and who may change it.
pub mod Changes
pub mod Requests
pub mod Steps
pub mod Runs
use lm_server.Prelude.{
  ℕ, ◌+◌, ◌≤◌, ◌<◌, ◌≡◌, Text, text_eq_refl, refl, true, All, List, [], ◌∷◌, ◌++◌, Option, some,
  none, arith,
}
use mathlib.Core.Option
use lm_server.Store.{lookup}
use lm_server.Orchestrator.State.{
  SlotState, starting, resuming, busy, removing, ContainerSlot, Orchestrator, Lease,
  new_lease_locked,
}
use lm_server.Orchestrator.Maintenance.{MaintenanceAction, state_under}
use lm_server.System.{
  Task, serving, destroying, maintaining, acquiring, launching, starting_up, resume_planned,
  unpausing,
}
use lm_server.System.Claims.{
  claim, claims, total_claims, holds, holds-le-one, action_claims, is_owned,
}

-- The lease that the slot under an ID gives, and its container.
abbrev pub lease_at : Orchestrator → Text → Option Lease
lease_at o k = Option.map new_lease_locked (lookup k o.slots)

abbrev pub container_at : Orchestrator → Text → Option Text
container_at o k = Option.map (λ l. l.container_id) (lease_at o k)

abbrev pub name_at : Orchestrator → Text → Option Text
name_at o k = Option.map (λ l. l.profile.name) (lease_at o k)

-- What a task knows of its slots is what the map says.
abbrev pub Backed : Orchestrator → Task → Type 0
Backed o (serving l) = lease_at o l.slot_id ≡ some l
Backed o (destroying id container) = container_at o id ≡ some container
Backed o (maintaining actions) = All (λ a. container_at o a.slot_id ≡ some a.container_id) actions
Backed o (launching p id) = name_at o id ≡ some p.name
Backed o (starting_up p id) = name_at o id ≡ some p.name
Backed o (resume_planned p id) = name_at o id ≡ some p.name
Backed o (unpausing p id) = name_at o id ≡ some p.name
Backed o (acquiring p) = Unit

-- From o to o', owned slots without a claim in `c` keep their leases.
abbrev pub Keeps : Orchestrator → Orchestrator → (Text → SlotState → ℕ) → Type 0
Keeps o o' c =
    (k : Text) (st : SlotState)
    → 0 < holds (lookup k o.slots) st
    → c k st ≡ 0
    → lease_at o' k ≡ lease_at o k

module _ (o o' : Orchestrator) (c : Text → SlotState → ℕ) (keep : Keeps o o' c) where
  here :
      (id : Text) (st : SlotState)
      → is_owned st ≡ true
      → c id st + claim id st id st ≤ holds (lookup id o.slots) st
      → lease_at o' id ≡ lease_at o id
  here id st own room =
      let one : claim id st id st ≡ 1 = ground (arith, text_eq_refl id) in
      keep id st (omega arith) (ground (arith, holds-le-one (lookup id o.slots) st))

  actions-Backed :
      (actions : List MaintenanceAction)
      → ((k : Text) (st : SlotState)
          → c k st + action_claims actions k st ≤ holds (lookup k o.slots) st)
      → Backed o (maintaining actions)
      → Backed o' (maintaining actions)
  actions-Backed [] room b = tt
  actions-Backed (a ∷ rest) room b =
      let st = state_under a.kind in
      let own : is_owned st ≡ true = ground arith in
      let same = here a.slot_id st own (omega (arith, room a.slot_id st)) in
      (rw same b.0, actions-Backed rest (λ k st. omega (arith, room k st)) b.1)

  -- A task that owns its slots beside the claims in `c`.
  pub bystander-Backed :
      (t : Task)
      → ((k : Text) (st : SlotState) → c k st + claims t k st ≤ holds (lookup k o.slots) st)
      → Backed o t
      → Backed o' t
  bystander-Backed (serving l) room b = rw (here l.slot_id busy refl (room l.slot_id busy)) b
  bystander-Backed (launching p id) room b = rw (here id starting refl (room id starting)) b
  bystander-Backed (starting_up p id) room b = rw (here id starting refl (room id starting)) b
  bystander-Backed (resume_planned p id) room b = rw (here id resuming refl (room id resuming)) b
  bystander-Backed (unpausing p id) room b = rw (here id resuming refl (room id resuming)) b
  bystander-Backed (destroying id x) room b = rw (here id removing refl (room id removing)) b
  bystander-Backed (maintaining actions) room b = actions-Backed actions room b
  bystander-Backed _ room b = tt

  pub bystanders-Backed :
      (ts : List Task)
      → ((k : Text) (st : SlotState) → c k st + total_claims ts k st ≤ holds (lookup k o.slots) st)
      → All (Backed o) ts
      → All (Backed o') ts
  bystanders-Backed [] room b = tt
  bystanders-Backed (t ∷ ts) room b = (
    bystander-Backed t (λ k st. omega (arith, room k st)) b.0,
    bystanders-Backed ts (λ k st. omega (arith, room k st)) b.1,
  )
