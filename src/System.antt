-- ===== src/System.antt =====
-- Requests, maintenance and removals as tasks that share one orchestrator and take turns at its lock
-- (internal/orchestrator/orchestrator.go). A task's code between taking the lock and giving it up is
-- one step; what Docker, the network and the clock answer comes with the step.
pub mod Claims
pub mod Keys
pub mod Moves
pub mod Sweep
pub mod Handover
pub mod Requests
pub mod Upkeep
pub mod Ownership
pub mod Sound
pub mod Safety
pub mod Leases
pub mod Names
pub mod Profiles
pub mod Progress
pub mod Detail
pub mod Maintained
pub mod Tests
pub mod Weight
pub mod Budget
use lm_server.Prelude.{ℕ, zero, suc, Text, List, [], ◌∷◌, ◌++◌, Option, none, some}
use lm_server.Types.{ContainerProfile, RequestMeta, Config}
use lm_server.Store.{swap_at}
use lm_server.Orchestrator.State.{
  Orchestrator, Lease, AcquirePlan, granted, resume, launch, wait, GoError,
}
use lm_server.Orchestrator.Select.{select_profile, new}
use lm_server.Orchestrator.Plan.{plan_acquire}
use lm_server.Orchestrator.Slots.{
  LaunchedContainer, begin_launch, finish_launch, abort_launch, begin_resume, finish_resume,
  destroy_slot, finish_destroy, lease_release,
}
use lm_server.Orchestrator.Maintenance.{
  MaintenanceAction, collect_maintenance_actions, finish_action,
}

pub data Task : Type 0 where
  -- in the loop of `Acquire`, before `planAcquire`
  acquiring : ContainerProfile → Task
  -- at the start of `launchReservedSlot`, and while Docker launches
  launching : ContainerProfile → Text → Task
  starting_up : ContainerProfile → Text → Task
  -- at the start of `resumeReservedSlot`, and while Docker unpauses
  resume_planned : ContainerProfile → Text → Task
  unpausing : ContainerProfile → Text → Task
  -- a lease that has not been released: a request, a worker or the dispatcher's channel has it until
  -- `Release`; where its result is abandoned in the channel, no goroutine has it any more and the
  -- task takes no further step
  serving : Lease → Task
  -- the goroutine of `destroySlot`, with the slot and its container
  destroying : Text → Text → Task
  -- `maintenanceLoop`, with the actions that `runMaintenance` has still to do
  maintaining : List MaintenanceAction → Task

pub data Event : Type 0 where
  -- the task takes the lock; the clock reads `now`, then `stamp`
  lock : (now stamp : ℕ) → Event
  -- Docker, and the health check, succeed
  answered : LaunchedContainer → ℕ → Event
  -- Docker or the health check fails
  failed : GoError → Event
  -- the request's context is done
  canceled : Event
  -- the holder of a lease calls `Release`
  released : Option GoError → ℕ → Event

-- What the loop of `Acquire` does with a plan. After `wait` it sleeps and goes round.
unfoldable pub follow : ContainerProfile → AcquirePlan → Task
follow p (granted l) = serving l
follow p (resume id) = resume_planned p id
follow p (launch id) = launching p id
follow p wait = acquiring p

-- An error of `launchReservedSlot` or `resumeReservedSlot` is logged, and the loop goes round.
unfoldable pub served : ContainerProfile → Option Lease → Task
served p (some l) = serving l
served p none = acquiring p

unfoldable pub begun : Task → Task → {A : Type 0} → Option A → Task
begun next retry (some a) = next
begun next retry none = retry

unfoldable pub goroutine : Text → Option Text → List Task
goroutine id (some container) = destroying id container ∷ []
goroutine id none = []

-- One step of a task: the orchestrator after it, and what the task becomes. A task that an event
-- does not concern stays as it is.
unfoldable pub advance : Orchestrator → Task → Event → Orchestrator × List Task
unfolding follow served begun goroutine
advance o (acquiring p) (lock now stamp) =
    let (o', plan) = plan_acquire o p now stamp in (o', follow p plan ∷ [])
advance o (acquiring p) canceled = (o, [])
advance o (launching p id) (lock now stamp) =
    (o, begun (starting_up p id) (acquiring p) (begin_launch o id) ∷ [])
advance o (starting_up p id) (answered l now) =
    let (o', lease) = finish_launch o id l now in (o', served p lease ∷ [])
advance o (starting_up p id) (failed e) = (abort_launch o id, acquiring p ∷ [])
advance o (resume_planned p id) (lock now stamp) =
    (o, begun (unpausing p id) (acquiring p) (begin_resume o id) ∷ [])
advance o (unpausing p id) (answered l now) =
    let (o', lease) = finish_resume o id now in (o', served p lease ∷ [])
advance o (unpausing p id) (failed e) =
    let (o', removal) = destroy_slot o id in (o', acquiring p ∷ goroutine id removal)
advance o (serving l) (released err now) =
    let (o', removal) = lease_release o l err now in (o', goroutine l.slot_id removal)
advance o (destroying id container) (lock now stamp) = (finish_destroy o id, [])
advance o (maintaining []) (lock now stamp) =
    let (o', actions) = collect_maintenance_actions o now in (o', maintaining actions ∷ [])
advance o (maintaining (a ∷ rest)) (answered l now) =
    (finish_action o a none, maintaining rest ∷ [])
advance o (maintaining (a ∷ rest)) (failed e) = (finish_action o a (some e), maintaining rest ∷ [])
advance o t e = (o, t ∷ [])

pub record System : Type 0 where
  pub orchestrator : Orchestrator
  pub tasks : List Task

pub data Choice : Type 0 where
  -- a request calls `Acquire`
  arrive : RequestMeta → Choice
  -- the task at an index takes a step
  pick : ℕ → Event → Choice
  -- the entries at an index and after it change places in the order of the map
  reorder : ℕ → Choice

unfoldable pub advance_at : Orchestrator → ℕ → Event → List Task → Orchestrator × List Task
unfolding advance
advance_at o i e [] = (o, [])
advance_at o zero e (t ∷ ts) = let (o', new_tasks) = advance o t e in (o', new_tasks ++ ts)
advance_at o (suc i) e (t ∷ ts) = let (o', ts') = advance_at o i e ts in (o', t ∷ ts')

unfoldable pub arrived : Option ContainerProfile → List Task → List Task
arrived none ts = ts
arrived (some p) ts = acquiring p ∷ ts

unfoldable pub step : System → Choice → System
unfolding arrived advance_at
step sys (arrive meta) = record sys {
  tasks = arrived (select_profile sys.orchestrator meta) sys.tasks;
}
step sys (pick i e) =
    let (o', ts') = advance_at sys.orchestrator i e sys.tasks in
    record { orchestrator = o'; tasks = ts' }
step sys (reorder i) = record sys {
  orchestrator = record sys.orchestrator { slots = swap_at i sys.orchestrator.slots };
}

unfoldable pub run : System → List Choice → System
run sys [] = sys
run sys (c ∷ cs) = run (step sys c) cs

-- After `New` and `Start`: no slot, and the maintenance loop.
unfoldable pub start : Config → System
start cfg = record { orchestrator = new cfg; tasks = maintaining [] ∷ [] }
