-- ===== src/Orchestrator/Slots.antt =====
-- internal/orchestrator/orchestrator.go: what happens to a reserved slot. The methods give up the
-- lock while Docker works; each function here is the code of one method between taking the lock and
-- giving it up.
use lm_server.Prelude.{ℕ, Text, Bool, true, false, not, ◌||◌, Option, none, some, if◌then◌else◌}
use lm_server.Types.{ContainerProfile}
use lm_server.Store.{lookup, delete}
use lm_server.Orchestrator.State.{
  starting, ready, busy, resuming, removing, same_state, ContainerSlot, Orchestrator, Lease,
  new_lease_locked, GoError,
}
use lm_server.Orchestrator.Plan.{touch, write_slot}

abbrev pub delete_slot : Orchestrator → Text → Orchestrator
delete_slot o id = record o { slots = delete id o.slots }

-- The parts of `launchedContainer` that a slot keeps.
pub record LaunchedContainer : Type 0 where
  pub container_id : Text
  pub target_url : Text
  pub health_url : Text

-- `launchReservedSlot` up to the launch: the profile and the name to launch under; `none` is the
-- error "slot no longer available for launch".
unfoldable pub begin_launch : Orchestrator → Text → Option (ContainerProfile × Text)
begin_launch o id = elim (lookup id o.slots) [
  | some s ↦ if same_state s.state starting then some (s.profile, s.name) else none
  | none ↦ none
]

abbrev pub launched_slot : LaunchedContainer → ℕ → ContainerSlot → ContainerSlot
launched_slot l now s = record s {
  container_id = l.container_id;
  target_url = l.target_url;
  health_url = l.health_url;
  state = busy;
  last_used_at = now;
}

-- The end of `launchReservedSlot`, once the container answers; `none` is "vanished during launch".
unfoldable pub finish_launch :
    Orchestrator → Text → LaunchedContainer → ℕ → Orchestrator × Option Lease
finish_launch o id l now = elim (lookup id o.slots) [
  | some s ↦
      (write_slot o id (launched_slot l now), some (new_lease_locked (launched_slot l now s)))
  | none ↦ (o, none)
]

-- Both error returns of `launchReservedSlot` after the reservation.
unfoldable pub abort_launch : Orchestrator → Text → Orchestrator
abort_launch o id = delete_slot o id

-- `resumeReservedSlot` up to the unpausing: the container and its health URL.
unfoldable pub begin_resume : Orchestrator → Text → Option (Text × Text)
begin_resume o id = elim (lookup id o.slots) [
  | some s ↦ if same_state s.state resuming then some (s.container_id, s.health_url) else none
  | none ↦ none
]

unfoldable pub finish_resume : Orchestrator → Text → ℕ → Orchestrator × Option Lease
finish_resume o id now = elim (lookup id o.slots) [
  | some s ↦ (write_slot o id (touch busy now), some (new_lease_locked (touch busy now s)))
  | none ↦ (o, none)
]

-- `destroySlot` up to the goroutine: the container that the goroutine removes, if it is started.
unfoldable pub destroy_slot : Orchestrator → Text → Orchestrator × Option Text
destroy_slot o id = elim (lookup id o.slots) [
  | some s ↦ (write_slot o id (λ t. record t { state = removing }), some s.container_id)
  | none ↦ (o, none)
]

-- The end of that goroutine; the outcome of `removeContainer` is only logged.
unfoldable pub finish_destroy : Orchestrator → Text → Orchestrator
finish_destroy o id = delete_slot o id

-- `isFatalSlotError`; `none` is the nil error.
unfoldable pub is_fatal_slot_error : Option GoError → Bool
is_fatal_slot_error none = false
is_fatal_slot_error (some e) =
    if e.is_unhealthy_upstream
    then true
    else if e.is_canceled || e.is_deadline_exceeded
    then false
    else elim e.net_timeout [ none ↦ true | some timeout ↦ not timeout ]

unfoldable pub mark_ready : Orchestrator → Text → ℕ → Orchestrator
mark_ready o id now = elim (lookup id o.slots) [
  | some s ↦ write_slot o id (touch ready now)
  | none ↦ o
]

-- `release`, with the container whose removal it starts.
unfoldable pub release : Orchestrator → Text → Option GoError → ℕ → Orchestrator × Option Text
unfolding destroy_slot mark_ready
release o id err now =
    if is_fatal_slot_error err then destroy_slot o id else (mark_ready o id now, none)

-- `Release` of a lease
abbrev pub lease_release : Orchestrator → Lease → Option GoError → ℕ → Orchestrator × Option Text
lease_release o l err now = release o l.slot_id err now
