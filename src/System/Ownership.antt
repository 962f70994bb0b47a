-- ===== src/System/Ownership.antt =====
-- Each step of a task keeps the map of slots in order, and passes ownership on with the slot.
use lm_server.System.Handover.{as_claims, Follows, Mine, delete-Follows, destroy-Follows}
use lm_server.System.Requests.{
  plan-Follows, launched-Follows, resumed-Follows, release-Follows, begun-Follows,
  begin_launch-some, begin_resume-some,
}
use lm_server.System.Upkeep.{action-Follows}
use lm_server.Prelude.{suc, ◌^◌, ◌<◌, refl, [], ◌∷◌, none, some, arith}
use lm_server.Orchestrator.State.{starting, resuming, removing, Orchestrator}
use lm_server.Orchestrator.Slots.{abort_launch, finish_destroy}
use lm_server.System.{
  Task, acquiring, launching, starting_up, resume_planned, unpausing, serving, destroying,
  maintaining, Event, lock, answered, failed, canceled, released, advance,
}
use lm_server.System.Claims.{claims}
use lm_server.System.Moves.{IsStore, stay-Moves}
use lm_server.System.Sweep.{collect-Moves, AreActions}

-- The actions that a task has still to do go back to free states.
abbrev pub IsOrderly : Task → Type 0
IsOrderly (maintaining actions) = AreActions actions
IsOrderly _ = Unit

module _ (o : Orchestrator) (h : IsStore o) where
  idle-Follows : (t : Task) → Follows o t (o, t ∷ [])
  idle-Follows t = as_claims _ _ (stay-Moves o (claims t) h) (λ k st. refl) (λ k st. omega arith)

  -- Any step of a task that owns what it claims.
  pub advance-Follows :
      (t : Task) (e : Event)
      → suc o.slot_seq < 2 ^ 64
      → Mine o t
      → IsOrderly t
      → Follows o t (advance o t e)
  unfolding advance abort_launch finish_destroy
  advance-Follows (acquiring p) (lock now stamp) small mine ord = plan-Follows o h p now stamp small
  advance-Follows (acquiring p) canceled small mine ord = stay-Moves o _ h
  advance-Follows (launching p id) (lock now stamp) small mine ord =
      let (r, e) = begin_launch-some o h p id mine in
      begun-Follows o h (launching p id) (starting_up p id) (acquiring p) id _ r e (λ k st. refl)
  advance-Follows (starting_up p id) (answered l now) small mine ord =
      launched-Follows o h p id l now mine
  advance-Follows (starting_up p id) (failed e) small mine ord =
      as_claims _ _ (delete-Follows o h id starting refl (mine id starting)) (λ k st. refl)
        (λ k st. omega arith)
  advance-Follows (resume_planned p id) (lock now stamp) small mine ord =
      let (r, e) = begin_resume-some o h p id mine in
      begun-Follows o h (resume_planned p id) (unpausing p id) (acquiring p) id _ r e (λ k st. refl)
  advance-Follows (unpausing p id) (answered l now) small mine ord =
      resumed-Follows o h p id l now mine
  advance-Follows (unpausing p id) (failed e) small mine ord =
      as_claims _ _ (destroy-Follows o h id resuming refl (mine id resuming)) (λ k st. refl)
        (λ k st. omega arith)
  advance-Follows (serving l) (released err now) small mine ord = release-Follows o h l err now mine
  advance-Follows (destroying id container) (lock now stamp) small mine ord =
      delete-Follows o h id removing refl (mine id removing)
  advance-Follows (maintaining []) (lock now stamp) small mine ord =
      as_claims _ _ (collect-Moves o now h) (λ k st. refl) (λ k st. omega arith)
  advance-Follows (maintaining (a ∷ rest)) (answered l now) small mine ord =
      action-Follows o h a rest none ord.0 mine
  advance-Follows (maintaining (a ∷ rest)) (failed e) small mine ord =
      action-Follows o h a rest (some e) ord.0 mine
  advance-Follows t e small mine ord = idle-Follows t
