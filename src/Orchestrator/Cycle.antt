-- ===== src/Orchestrator/Cycle.antt =====
-- internal/orchestrator/orchestrator.go: `runMaintenance` and its loop as a whole, with Docker, when no other task
-- takes the lock meanwhile.
use lm_server.Prelude.{ℕ, List, [], ◌∷◌, Option}
use lm_server.Orchestrator.State.{Orchestrator, GoError}
use lm_server.Orchestrator.Maintenance.{
  pause, remove, MaintenanceAction, collect_maintenance_actions, finish_action,
}
use lm_server.Docker.Client.{Client, Containers, remove_container, pause_container}

-- The call of Docker for an action: the containers afterwards, and the error.
abbrev pub docker_call : Client → Containers → MaintenanceAction → Containers × Option GoError
docker_call d cs a = elim a.kind [
  | pause ↦ (cs, pause_container d a.container_id)
  | remove ↦ remove_container d cs a.container_id
]

unfoldable pub run_actions :
    Client → Orchestrator → Containers → List MaintenanceAction → Orchestrator × Containers
unfolding finish_action pause_container remove_container
run_actions d o cs [] = (o, cs)
run_actions d o cs (a ∷ rest) =
    let (cs', err) = docker_call d cs a in run_actions d (finish_action o a err) cs' rest

unfoldable pub run_maintenance : Client → Orchestrator → Containers → ℕ → Orchestrator × Containers
unfolding run_actions collect_maintenance_actions
run_maintenance d o cs now =
    let (o', actions) = collect_maintenance_actions o now in run_actions d o' cs actions

-- What the `select` of `maintenanceLoop` finds ready: the ticker, with the time at which the lock is
-- taken, or the end of the context. Where both are, the order is Go's choice.
pub data LoopEvent : Type 0 where
  ticks : ℕ → LoopEvent
  ends : LoopEvent

unfoldable pub maintenance_loop :
    Client → Orchestrator → Containers → List LoopEvent → Orchestrator × Containers
unfolding run_maintenance
maintenance_loop d o cs [] = (o, cs)
maintenance_loop d o cs (ends ∷ es) = (o, cs)
maintenance_loop d o cs (ticks now ∷ es) =
    let (o', cs') = run_maintenance d o cs now in maintenance_loop d o' cs' es
