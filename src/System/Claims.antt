-- ===== src/System/Claims.antt =====
-- Who is in charge of a slot. A slot that is starting, busy, resuming, pausing or removing belongs to
-- the task that put it there; a ready or paused one is free.
use lm_server.Prelude.{
  ℕ, ◌+◌, ◌≤◌, ◌≡◌, refl, Text, text_eq, text_eq_refl, bit, Bool, true, false, ◌&&◌, List, [], ◌∷◌,
  ◌++◌, Option, none, some, arith,
}
use lm_server.Orchestrator.State.{
  SlotState, starting, ready, busy, paused, resuming, removing, same_state, ContainerSlot,
}
use lm_server.Orchestrator.Maintenance.{MaintenanceAction, state_under}
use lm_server.System.{
  Task, acquiring, launching, starting_up, resume_planned, unpausing, serving, destroying,
  maintaining,
}

abbrev pub is_owned : SlotState → Bool
is_owned ready = false
is_owned paused = false
is_owned _ = true

-- One claim on slot `id` in state `st`, counted at slot `k` and state `st'`.
abbrev pub claim : Text → SlotState → Text → SlotState → ℕ
claim id st k st' = bit (text_eq id k && is_owned st && same_state st st')

abbrev pub action_claims : List MaintenanceAction → Text → SlotState → ℕ
action_claims [] k st = 0
action_claims (a ∷ rest) k st = claim a.slot_id (state_under a.kind) k st + action_claims rest k st

abbrev pub claims : Task → Text → SlotState → ℕ
claims (acquiring p) k st = 0
claims (launching p id) k st = claim id starting k st
claims (starting_up p id) k st = claim id starting k st
claims (resume_planned p id) k st = claim id resuming k st
claims (unpausing p id) k st = claim id resuming k st
claims (serving l) k st = claim l.slot_id busy k st
claims (destroying id container) k st = claim id removing k st
claims (maintaining actions) k st = action_claims actions k st

abbrev pub total_claims : List Task → Text → SlotState → ℕ
total_claims [] k st = 0
total_claims (t ∷ ts) k st = claims t k st + total_claims ts k st

-- Whether the map holds a slot in state `st` that must have an owner.
abbrev pub holds : Option ContainerSlot → SlotState → ℕ
holds none st = 0
holds (some s) st = bit (is_owned s.state && same_state s.state st)

pub total_claims-append :
    (ts us : List Task) (k : Text) (st : SlotState)
    → total_claims (ts ++ us) k st ≡ total_claims ts k st + total_claims us k st
total_claims-append [] us k st = omega arith
total_claims-append (t ∷ ts) us k st = omega (arith, total_claims-append ts us k st)

pub same_state-eq : (a b : SlotState) → same_state a b ≡ true → a ≡ b
same_state-eq a b e = ground arith

pub held :
    (x : Option ContainerSlot) (id : Text) (st : SlotState)
    → is_owned st ≡ true
    → claim id st id st ≤ holds x st
    → (s : ContainerSlot) × (x ≡ some s) × (s.state ≡ st)
held none id st o h = absurd (ground (arith, text_eq_refl id))
held (some s) id st o h = (s, refl, same_state-eq s.state st (ground (arith, text_eq_refl id)))

pub holds-le-one : (x : Option ContainerSlot) (st : SlotState) → holds x st ≤ 1
holds-le-one none st = omega arith
holds-le-one (some s) st = ground arith
