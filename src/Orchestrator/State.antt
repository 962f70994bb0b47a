-- ===== src/Orchestrator/State.antt =====
-- internal/orchestrator/orchestrator.go: slots, leases, plans and the orchestrator's own state.
use lm_server.Prelude.{ℕ, ℤ, Text, Bool, List, Option, ◌==◌}
use lm_server.Types.{QueueClass, Backend, ContainerProfile}

pub data SlotState : Type 0 where
  starting ready busy paused pausing resuming removing : SlotState

abbrev pub rank : SlotState → ℕ
rank starting = 0
rank ready = 1
rank busy = 2
rank paused = 3
rank pausing = 4
rank resuming = 5
rank removing = 6

abbrev pub same_state : SlotState → SlotState → Bool
same_state s t = rank s == rank t

-- `containerSlot`; a `time.Time` is a number of nanoseconds.
pub record ContainerSlot : Type 0 where
  pub slot_id : Text
  pub container_id : Text
  pub name : Text
  pub profile : ContainerProfile
  pub state : SlotState
  pub target_url : Text
  pub health_url : Text
  pub created_at : ℕ
  pub last_used_at : ℕ

abbrev pub Slots : Type 0
Slots = List (Text × ContainerSlot)

-- The fields of `Orchestrator` that its methods read and write. The logger, the HTTP client, the
-- Docker client and the three intervals decide no branch of them.
pub record Orchestrator : Type 0 where
  pub total_vram_mb : ℤ
  pub class_budget_mb : QueueClass → Option ℤ
  pub profiles_by_class : QueueClass → List ContainerProfile
  pub slots : Slots
  pub slot_seq : ℕ

pub record Lease : Type 0 where
  pub slot_id : Text
  pub container_id : Text
  pub target_url : Text
  pub profile : ContainerProfile

-- The methods of a lease that read it.
abbrev pub lease_backend : Lease → Backend
lease_backend l = l.profile.backend

abbrev pub lease_class : Lease → QueueClass
lease_class l = l.profile.queue_class

abbrev pub lease_container_id : Lease → Text
lease_container_id l = l.container_id

unfoldable pub new_lease_locked : ContainerSlot → Lease
new_lease_locked slot = record {
  slot_id = slot.slot_id;
  container_id = slot.container_id;
  target_url = slot.target_url;
  profile = slot.profile;
}

-- What `planAcquire` returns: a lease, or an `acquirePlan` of one of three kinds.
pub data AcquirePlan : Type 0 where
  granted : Lease → AcquirePlan
  resume : Text → AcquirePlan
  launch : Text → AcquirePlan
  wait : AcquirePlan

-- An `error`, by what `errors.Is` and `errors.As` find in its chain; `net_timeout` is the answer of
-- a `net.Error` in the chain to `Timeout`.
pub record GoError : Type 0 where
  pub text : Text
  pub is_unhealthy_upstream : Bool
  pub is_canceled : Bool
  pub is_deadline_exceeded : Bool
  pub net_timeout : Option Bool
