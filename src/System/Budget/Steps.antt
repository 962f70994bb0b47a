-- ===== src/System/Budget/Steps.antt =====
-- One step of a task keeps the budgets.
use lm_server.Prelude.{
  ℕ, suc, ◌^◌, ◌<◌, ◌≤◌, ◌≡◌, refl, ap, Text, List, [], ◌∷◌, false, Option, some, none, pos_part,
  arith, Bool-cases, inl, inr, ◌⊎◌,
}
use lm_server.Types.{ContainerProfile}
use lm_server.Store.{lookup}
use lm_server.Orchestrator.State.{
  SlotState, starting, ready, busy, paused, pausing, resuming, Orchestrator, Lease, GoError,
}
use lm_server.Orchestrator.Load.{vram, class_vram, one_of}
use lm_server.Orchestrator.Plan.{budget_in, budget_of, touch}
use lm_server.Orchestrator.Plan.Outcome.{plan_cases}
use lm_server.Orchestrator.Slots.{
  LaunchedContainer, launched_slot, finish_launch, abort_launch, finish_resume, finish_destroy,
  mark_ready, release, is_fatal_slot_error,
}
use lm_server.Orchestrator.Maintenance.{
  state_under, ActionKind, pause, remove, MaintenanceAction, finish_action, finish_pause,
  finish_remove,
}
use lm_server.System.{
  Task, acquiring, launching, starting_up, resume_planned, unpausing, serving, destroying,
  maintaining, Event, lock, answered, failed, released, advance,
}
use lm_server.System.Claims.{claim, holds, held}
use lm_server.System.Keys.{first_slot-lookup}
use lm_server.System.Moves.{IsStore}
use lm_server.System.Handover.{Mine}
use lm_server.System.Weight.{
  Lightens, write-Lightens, delete-Lightens, collect-Lightens, destroy-Lightens,
}
use lm_server.System.Budget.{IsWithin, AsksCapped, is_failed_removal}
use lm_server.System.Budget.Reserve.{reserve-IsWithin}

module _ (o : Orchestrator) (h : IsStore o) where
  launched-Lightens :
      (p : ContainerProfile) (id : Text) (l : LaunchedContainer) (now : ℕ)
      → Mine o (starting_up p id)
      → Lightens o (finish_launch o id l now).0
  unfolding finish_launch
  launched-Lightens p id l now mine =
      let (s, found, e) = held (lookup id o.slots) id starting refl (mine id starting) in
      rw (found, finish_launch)
        (write-Lightens o id s (launched_slot l now) found (λ t. refl) (λ g. ground arith))

  resumed-Lightens :
      (p : ContainerProfile) (id : Text) (now : ℕ)
      → Mine o (unpausing p id)
      → Lightens o (finish_resume o id now).0
  unfolding finish_resume
  resumed-Lightens p id now mine =
      let (s, found, e) = held (lookup id o.slots) id resuming refl (mine id resuming) in
      rw (found, finish_resume)
        (write-Lightens o id s (touch busy now) found (λ t. refl) (λ g. ground arith))

  released-Lightens :
      (l : Lease) (err : Option GoError) (now : ℕ)
      → Mine o (serving l)
      → Lightens o (release o l.slot_id err now).0
  unfolding release mark_ready
  released-Lightens l err now mine =
      let (s, found, e) =
        held (lookup l.slot_id o.slots) l.slot_id busy refl (mine l.slot_id busy) in
      elim (Bool-cases (is_fatal_slot_error err)) [
        | inl fatal ↦ rw (fatal, release) (destroy-Lightens o l.slot_id)
        | inr mild ↦
            rw (mild, found, release, mark_ready)
              (write-Lightens o l.slot_id s (touch ready now) found (λ t. refl) (λ g. ground arith))
      ]

  paused-Lightens :
      (a : MaintenanceAction) (err : Option GoError)
      → claim a.slot_id pausing a.slot_id pausing ≤ holds (lookup a.slot_id o.slots) pausing
      → Lightens o (finish_pause o a err)
  unfolding finish_pause
  paused-Lightens a none own =
      let (s, found, e) = held (lookup a.slot_id o.slots) a.slot_id pausing refl own in
      rw (found, finish_pause)
        (write-Lightens o a.slot_id s (λ t. record t { state = paused }) found (λ t. refl)
          (λ g. ground arith))
  paused-Lightens a (some e) own =
      let (s, found, e) = held (lookup a.slot_id o.slots) a.slot_id pausing refl own in
      rw (found, finish_pause)
        (write-Lightens o a.slot_id s (λ t. record t { state = a.previous }) found (λ t. refl)
          (λ g. ground arith))

  action-Lightens :
      (kind : ActionKind) (id container : Text) (previous : SlotState)
      (rest : List MaintenanceAction) (err : Option GoError)
      → claim id (state_under kind) id (state_under kind)
        ≤ holds (lookup id o.slots) (state_under kind)
      → (kind ≡ pause) ⊎ (err ≡ none)
      → Lightens o (
          finish_action o
            (record { kind = kind; slot_id = id; container_id = container; previous = previous })
            err)
  unfolding finish_action finish_remove
  action-Lightens pause id container previous rest err own calm =
      paused-Lightens
        (record { kind = pause; slot_id = id; container_id = container; previous = previous }) err
        own
  action-Lightens remove id container previous rest none own calm = delete-Lightens o id
  action-Lightens remove id container previous rest (some e) own (inl calm) = cc
  action-Lightens remove id container previous rest (some e) own (inr calm) = cc

-- Less weight under the same configuration is still within the budgets.
pub Lightens-IsWithin :
    (most : Text → ℕ) (o o' : Orchestrator) → Lightens o o' → IsWithin most o → IsWithin most o'
Lightens-IsWithin most o o' l w = record {
  nonneg = l.nonneg w.nonneg;
  total = omega (arith, l.lighter vram, w.total, ap pos_part l.same_total);
  of_class = λ c has.
      let b : budget_of o' c ≡ budget_of o c = ap (λ m. budget_in (m c)) l.same_budget in
      let b' = ap pos_part b in
      omega (arith, b', w.of_class c (omega (arith, b')), l.lighter (class_vram c));
  number = λ name. omega (arith, l.lighter (one_of name), w.number name);
}

-- A step of a task that owns what it claims, and is not told that a removal by maintenance failed,
-- keeps the budgets.
pub advance-IsWithin :
    (most : Text → ℕ) (o : Orchestrator) (t : Task) (e : Event)
    → IsStore o
    → suc o.slot_seq < 2 ^ 64
    → Mine o t
    → AsksCapped most o.total_vram_mb t
    → is_failed_removal t e ≡ false
    → IsWithin most o
    → IsWithin most (advance o t e).0
unfolding advance abort_launch finish_destroy
advance-IsWithin most o (acquiring p) (lock now stamp) h small mine asks calm w =
    plan_cases (λ r. IsWithin most r.0) o p now stamp
      (λ s e.
        let (found, is_ready, _) = first_slot-lookup ready p.name s o.slots h.distinct h.keyed e in
        Lightens-IsWithin most o _
          (write-Lightens o s.slot_id s (touch busy now) found (λ t. refl) (λ g. ground arith)) w)
      (λ s _ e.
        let (found, is_paused, _) =
          first_slot-lookup paused p.name s o.slots h.distinct h.keyed e in
        Lightens-IsWithin most o _
          (write-Lightens o s.slot_id s (touch resuming now) found (λ t. refl) (λ g. ground arith))
          w)
      (λ _ _ c. reserve-IsWithin most o p now stamp h small asks w c) (λ _ _ _. w)
advance-IsWithin most o (starting_up p id) (answered l now) h small mine asks calm w =
    Lightens-IsWithin most o _ (launched-Lightens o h p id l now mine) w
advance-IsWithin most o (starting_up p id) (failed e) h small mine asks calm w =
    Lightens-IsWithin most o _ (delete-Lightens o id) w
advance-IsWithin most o (unpausing p id) (answered l now) h small mine asks calm w =
    Lightens-IsWithin most o _ (resumed-Lightens o h p id now mine) w
advance-IsWithin most o (unpausing p id) (failed e) h small mine asks calm w =
    Lightens-IsWithin most o _ (destroy-Lightens o id) w
advance-IsWithin most o (serving l) (released err now) h small mine asks calm w =
    Lightens-IsWithin most o _ (released-Lightens o h l err now mine) w
advance-IsWithin most o (destroying id c) (lock now stamp) h small mine asks calm w =
    Lightens-IsWithin most o _ (delete-Lightens o id) w
advance-IsWithin most o (maintaining []) (lock now stamp) h small mine asks calm w =
    Lightens-IsWithin most o _ (collect-Lightens o now) w
advance-IsWithin most o (maintaining (a ∷ rest)) (answered l now) h small mine asks calm w =
    let own = mine a.slot_id (state_under a.kind) in
    Lightens-IsWithin most o _
      (action-Lightens o h a.kind a.slot_id a.container_id a.previous rest none (omega arith)
        (inr refl))
      w
advance-IsWithin most o (maintaining (a ∷ rest)) (failed e) h small mine asks calm w =
    let own = mine a.slot_id (state_under a.kind) in
    Lightens-IsWithin most o _
      (action-Lightens o h a.kind a.slot_id a.container_id a.previous rest (some e) (omega arith)
        (inl (ground arith)))
      w
advance-IsWithin most o (launching p id) (lock now stamp) h small mine asks calm w = w
advance-IsWithin most o (resume_planned p id) (lock now stamp) h small mine asks calm w = w
advance-IsWithin most o t e h small mine asks calm w = w
