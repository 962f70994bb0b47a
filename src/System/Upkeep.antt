-- ===== src/System/Upkeep.antt =====
-- The steps of maintenance: an action that is done, or fails, frees the slot or removes it.
use lm_server.System.Handover.{as_claims, Follows, Mine, write-Follows, delete-Follows}
use lm_server.Prelude.{◌≤◌, ◌≡◌, refl, Text, false, [], ◌∷◌, Option, none, some, arith, List}
use lm_server.Store.{lookup}
use lm_server.Orchestrator.State.{SlotState, paused, pausing, removing, Orchestrator, GoError}
use lm_server.Orchestrator.Maintenance.{
  ActionKind, MaintenanceAction, pause, remove, state_under, finish_pause, finish_remove,
  finish_action,
}
use lm_server.System.{maintaining}
use lm_server.System.Claims.{claim, holds, held, is_owned}
use lm_server.System.Moves.{IsStore, Moves, no_claim}

module _ (o : Orchestrator) (h : IsStore o) where
  finish_action-Moves :
      (kind : ActionKind) (id container : Text) (previous : SlotState) (err : Option GoError)
      → is_owned previous ≡ false
      → claim id (state_under kind) id (state_under kind)
        ≤ holds (lookup id o.slots) (state_under kind)
      → Moves o
          (finish_action o
            (record { kind = kind; slot_id = id; container_id = container; previous = previous })
            err)
          (claim id (state_under kind))
          no_claim
  unfolding finish_action
  finish_action-Moves pause id container previous (some e) free own =
      let (s, found, _) = held (lookup id o.slots) id pausing refl own in
      rw (found, finish_pause)
        (as_claims _ _
          (write-Follows o h id pausing refl own (λ t. record t { state = previous }) previous
            (λ t. refl) (λ t. refl))
          (λ k st. refl) (λ k st. ground arith))
  finish_action-Moves pause id container previous none free own =
      let (s, found, _) = held (lookup id o.slots) id pausing refl own in
      rw (found, finish_pause)
        (as_claims _ _
          (write-Follows o h id pausing refl own (λ t. record t { state = paused }) paused
            (λ t. refl) (λ t. refl))
          (λ k st. refl) (λ k st. ground arith))
  finish_action-Moves remove id container previous (some e) free own =
      let (s, found, _) = held (lookup id o.slots) id removing refl own in
      rw (found, finish_remove)
        (as_claims _ _
          (write-Follows o h id removing refl own (λ t. record t { state = previous }) previous
            (λ t. refl) (λ t. refl))
          (λ k st. refl) (λ k st. ground arith))
  finish_action-Moves remove id container previous none free own =
      delete-Follows o h id removing refl own

  pub action-Follows :
      (a : MaintenanceAction) (rest : List MaintenanceAction) (err : Option GoError)
      → is_owned a.previous ≡ false
      → Mine o (maintaining (a ∷ rest))
      → Follows o (maintaining (a ∷ rest)) (finish_action o a err, maintaining rest ∷ [])
  action-Follows a rest err free mine =
      let own = mine a.slot_id (state_under a.kind) in
      let m =
        finish_action-Moves a.kind a.slot_id a.container_id a.previous err free (omega arith) in
      record { store = m.store; balance = λ k st. omega (arith, m.balance k st) }
