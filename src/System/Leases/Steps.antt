-- ===== src/System/Leases/Steps.antt =====
-- A step of a task changes the leases of no slot but its own, and the tasks that it leaves know their
-- slots as they are.
use lm_server.Prelude.{
  ℕ, suc, ◌^◌, ◌≤◌, ◌<◌, ◌≡◌, ◌∙◌, refl, ap, Text, All-imp, List, [], ◌∷◌, Option, some, none,
  arith,
}
use mathlib.Core.Option
use lm_server.Types.{ContainerProfile}
use lm_server.Store.{lookup}
use lm_server.Orchestrator.State.{
  SlotState, starting, paused, pausing, resuming, removing, Orchestrator, GoError,
}
use lm_server.Orchestrator.Slots.{begin_launch, abort_launch, begin_resume, finish_destroy}
use lm_server.Orchestrator.Maintenance.{
  ActionKind, MaintenanceAction, pause, remove, state_under, finish_pause, finish_remove,
  finish_action, collect_maintenance_actions,
}
use lm_server.System.{
  Task, acquiring, launching, starting_up, resume_planned, unpausing, serving, destroying,
  maintaining, Event, lock, answered, failed, canceled, released, advance, begun,
}
use lm_server.System.Claims.{claim, holds, held}
use lm_server.System.Moves.{IsStore}
use lm_server.System.Handover.{Mine}
use lm_server.System.Leases.{container_at, Backed, Keeps, bystander-Backed}
use lm_server.System.Leases.Changes.{
  write-Keeps, lease_at-collect, container_in-lease, HasTarget, collect-HasTarget,
}
use lm_server.System.Leases.Requests.{
  StepsWell, state-SameLease, plan-StepsWell, launched-StepsWell, resumed-StepsWell,
  destroy-StepsWell, release-StepsWell, delete_own-Keeps,
}

module _ (o : Orchestrator) (h : IsStore o) where
  finish-Keeps :
      (kind : ActionKind) (id container : Text) (previous : SlotState) (err : Option GoError)
      → claim id (state_under kind) id (state_under kind)
        ≤ holds (lookup id o.slots) (state_under kind)
      → Keeps o
          (finish_action o
            (record { kind = kind; slot_id = id; container_id = container; previous = previous })
            err)
          (claim id (state_under kind))
  unfolding finish_action
  finish-Keeps pause id container previous (some e) own =
      let (s, found, _) = held (lookup id o.slots) id pausing refl own in
      rw (found, finish_pause)
        (write-Keeps o id (λ t. record t { state = previous }) _ (state-SameLease previous))
  finish-Keeps pause id container previous none own =
      let (s, found, _) = held (lookup id o.slots) id pausing refl own in
      rw (found, finish_pause)
        (write-Keeps o id (λ t. record t { state = paused }) _ (state-SameLease paused))
  finish-Keeps remove id container previous (some e) own =
      let (s, found, _) = held (lookup id o.slots) id removing refl own in
      rw (found, finish_remove)
        (write-Keeps o id (λ t. record t { state = previous }) _ (state-SameLease previous))
  finish-Keeps remove id container previous none own = delete_own-Keeps o h id removing refl own

  -- The actions that are left are those of a bystander.
  action-StepsWell :
      (a : MaintenanceAction) (rest : List MaintenanceAction) (err : Option GoError)
      → Mine o (maintaining (a ∷ rest))
      → Backed o (maintaining (a ∷ rest))
      → StepsWell o (maintaining (a ∷ rest)) (finish_action o a err, maintaining rest ∷ [])
  action-StepsWell a rest err mine b =
      let st = state_under a.kind in
      let keep =
        finish-Keeps a.kind a.slot_id a.container_id a.previous err
          (omega (arith, mine a.slot_id st)) in
      (
        (λ k st' held free. keep k st' held (omega arith)),
        (
          bystander-Backed o (finish_action o a err) (claim a.slot_id st) keep (maintaining rest)
              mine b.1,
          tt,
        ),
      )

  collect-StepsWell :
      (now stamp : ℕ) → StepsWell o (maintaining []) (advance o (maintaining []) (lock now stamp))
  unfolding advance
  collect-StepsWell now stamp =
      let r = collect_maintenance_actions o now in
      (
        (λ k st held free. lease_at-collect o now k),
        (
          All-imp (HasTarget o.slots) (λ a. container_at r.0 a.slot_id ≡ some a.container_id) r.1
              (λ a t.
                ap (Option.map (λ l. l.container_id)) (lease_at-collect o now a.slot_id)
                ∙ (container_in-lease o a.slot_id ∙ t))
              (unfold collect_maintenance_actions in
                collect-HasTarget now o.slots h.distinct h.keyed),
          tt,
        ),
      )

  begun-Backed :
      (p : ContainerProfile) (t : Task) {A : Type 0} (x : Option A)
      → Backed o t
      → Backed o (begun t (acquiring p) x)
  unfolding begun
  begun-Backed p t (some a) b = b
  begun-Backed p t none b = tt

  -- Any step of a task that owns what it claims and knows its slots as they are.
  pub advance-StepsWell :
      (t : Task) (e : Event)
      → suc o.slot_seq < 2 ^ 64
      → Mine o t
      → Backed o t
      → StepsWell o t (advance o t e)
  unfolding advance begun abort_launch finish_destroy
  advance-StepsWell (acquiring p) (lock now stamp) small mine b =
      plan-StepsWell o h p now stamp small
  advance-StepsWell (acquiring p) canceled small mine b = ((λ k st held free. refl), tt)
  advance-StepsWell (launching p id) (lock now stamp) small mine b =
      ((λ k st held free. refl), (begun-Backed p (starting_up p id) (begin_launch o id) b, tt))
  advance-StepsWell (starting_up p id) (answered l now) small mine b =
      launched-StepsWell o h p id l now mine
  advance-StepsWell (starting_up p id) (failed e) small mine b =
      (delete_own-Keeps o h id starting refl (mine id starting), (tt, tt))
  advance-StepsWell (resume_planned p id) (lock now stamp) small mine b =
      ((λ k st held free. refl), (begun-Backed p (unpausing p id) (begin_resume o id) b, tt))
  advance-StepsWell (unpausing p id) (answered l now) small mine b =
      resumed-StepsWell o h p id l now mine
  advance-StepsWell (unpausing p id) (failed e) small mine b =
      let (keep, left) = destroy-StepsWell o h id resuming _ refl (mine id resuming) in
      (keep, (tt, left))
  advance-StepsWell (serving l) (released err now) small mine b =
      release-StepsWell o h l err now mine
  advance-StepsWell (destroying id container) (lock now stamp) small mine b =
      (delete_own-Keeps o h id removing refl (mine id removing), tt)
  advance-StepsWell (maintaining []) (lock now stamp) small mine b = collect-StepsWell now stamp
  advance-StepsWell (maintaining (a ∷ rest)) (answered l now) small mine b =
      action-StepsWell a rest none mine b
  advance-StepsWell (maintaining (a ∷ rest)) (failed e) small mine b =
      action-StepsWell a rest (some e) mine b
  advance-StepsWell t e small mine b = ((λ k st held free. refl), (b, tt))
