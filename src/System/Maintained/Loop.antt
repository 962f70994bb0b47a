-- ===== src/System/Maintained/Loop.antt =====
-- `maintenanceLoop`: what becomes of each slot from tick to tick.
use lm_server.Prelude.{
  ℕ, ◌≡◌, refl, ap, ◌∙◌, Text, List, [], ◌∷◌, Option, none, some, Option-cases, inl, inr,
}
use lm_server.Store.{lookup, Distinct}
use lm_server.Store.Laws.{update-Distinct, delete-Distinct}
use lm_server.Orchestrator.State.{SlotState, paused, ContainerSlot, Orchestrator, GoError}
use lm_server.Orchestrator.Maintenance.{
  ActionKind, pause, remove, MaintenanceAction, collect_actions, collect_maintenance_actions,
  finish_pause, finish_remove, finish_action,
}
use lm_server.Orchestrator.Plan.{write_slot}
use lm_server.Orchestrator.Cycle.{
  docker_call, run_actions, run_maintenance, LoopEvent, ticks, ends, maintenance_loop,
}
use lm_server.Docker.Client.{Client, Containers}
use lm_server.System.Keys.{Keyed, update-Keyed, delete-Keyed}
use lm_server.System.Moves.{IsStore}
use lm_server.System.Sweep.{collect-Distinct, collect-Keyed}
use lm_server.System.Maintained.{maintained_at, run_maintenance-lookup}

-- The map holds each slot once, under its own ID.
abbrev IsMap : Orchestrator → Type 0
IsMap o = Distinct o.slots × Keyed o.slots

found_write-IsMap :
    (o : Orchestrator) (id : Text) (f : ContainerSlot → ContainerSlot)
    → ((s : ContainerSlot) → (f s).slot_id ≡ s.slot_id)
    → IsMap o
    → IsMap (elim (lookup id o.slots) [ none ↦ o | some s ↦ write_slot o id f ])
found_write-IsMap o id f same (d, h) = elim (Option-cases (lookup id o.slots)) [
  | inl e ↦ rw e (d, h)
  | inr (s, e) ↦ rw e (update-Distinct id f o.slots d, update-Keyed id f o.slots same h)
]

finish-IsMap :
    (o : Orchestrator) (kind : ActionKind) (id container : Text) (previous : SlotState)
    (err : Option GoError)
    → IsMap o
    → let a : MaintenanceAction = record {
      kind = kind;
      slot_id = id;
      container_id = container;
      previous = previous;
    } in
      IsMap (finish_action o a err)
unfolding finish_action finish_pause finish_remove
finish-IsMap o pause id container previous (some x) h =
    found_write-IsMap o id (λ s. record s { state = previous }) (λ s. refl) h
finish-IsMap o pause id container previous none h =
    found_write-IsMap o id (λ s. record s { state = paused }) (λ s. refl) h
finish-IsMap o remove id container previous (some x) h =
    found_write-IsMap o id (λ s. record s { state = previous }) (λ s. refl) h
finish-IsMap o remove id container previous none h =
    (delete-Distinct id o.slots h.0, delete-Keyed id o.slots h.1)

run_actions-IsMap :
    (d : Client) (o : Orchestrator) (cs : Containers) (actions : List MaintenanceAction)
    → IsMap o
    → IsMap (run_actions d o cs actions).0
unfolding run_actions
run_actions-IsMap d o cs [] h = h
run_actions-IsMap d o cs (a ∷ rest) h =
    let (cs', err) = docker_call d cs a in
    run_actions-IsMap d (finish_action o a err) cs' rest
      (finish-IsMap o a.kind a.slot_id a.container_id a.previous err h)

run_maintenance-IsMap :
    (d : Client) (o : Orchestrator) (cs : Containers) (now : ℕ)
    → IsMap o
    → IsMap (run_maintenance d o cs now).0
unfolding run_maintenance collect_maintenance_actions
run_maintenance-IsMap d o cs now (distinct, keyed) =
    let r = collect_actions now o.slots in
    run_actions-IsMap d (record o { slots = r.0 }) cs r.1
      (collect-Distinct now o.slots distinct, collect-Keyed now o.slots keyed)

-- The specification: the times of the ticks before the end of the context, and what a slot becomes
-- at one tick after another.
abbrev pub times_of : List LoopEvent → List ℕ
times_of [] = []
times_of (ticks now ∷ es) = now ∷ times_of es
times_of (ends ∷ es) = []

abbrev pub maintained_over : Client → List ℕ → Option ContainerSlot → Option ContainerSlot
maintained_over d [] x = x
maintained_over d (now ∷ times) x = maintained_over d times (maintained_at d now x)

loop-lookup :
    (d : Client) (o : Orchestrator) (cs : Containers) (es : List LoopEvent) (k : Text)
    → IsMap o
    → lookup k (maintenance_loop d o cs es).0.slots
      ≡ maintained_over d (times_of es) (lookup k o.slots)
unfolding maintenance_loop
loop-lookup d o cs [] k h = refl
loop-lookup d o cs (ends ∷ es) k h = refl
loop-lookup d o cs (ticks now ∷ es) k h =
    let (o', cs') = run_maintenance d o cs now in
    loop-lookup d o' cs' es k (run_maintenance-IsMap d o cs now h)
    ∙ ap (maintained_over d (times_of es)) (run_maintenance-lookup d o cs now k h.0 h.1)

-- If no other task takes the lock meanwhile, the maintenance loop does to every slot, at each tick
-- until the context ends and not after that, what the slot's own state and its profile's limits say
-- at that time: a ready or paused slot that is idle for the limit of destruction goes
-- away for good, and another ready slot that is idle for the limit of pausing is paused, each if Docker
-- does so; any other slot, and one for which Docker fails, stays as it is.
pub maintenance_loop-slots :
    (d : Client) (o : Orchestrator) (cs : Containers) (es : List LoopEvent) (k : Text)
    → IsStore o
    → lookup k (maintenance_loop d o cs es).0.slots
      ≡ maintained_over d (times_of es) (lookup k o.slots)
maintenance_loop-slots d o cs es k h = loop-lookup d o cs es k (h.distinct, h.keyed)
