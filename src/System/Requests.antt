-- ===== src/System/Requests.antt =====
-- The steps of a request, from `planAcquire` to `Release`, pass ownership on with the slot.
use lm_server.System.Handover.{as_claims, Follows, Mine, write-Follows, destroy-Follows, keyed_here}
use lm_server.Prelude.{
  ℕ, suc, ◌^◌, ◌<◌, ◌≡◌, refl, Text, [], ◌∷◌, Option, some, arith, Bool-cases, inl, inr,
}
use lm_server.Types.{ContainerProfile}
use lm_server.Store.{lookup}
use lm_server.Orchestrator.Plan.Outcome.{plan_cases}
use lm_server.Orchestrator.State.{
  SlotState, starting, ready, busy, paused, resuming, ContainerSlot, Orchestrator, Lease,
  new_lease_locked, GoError,
}
use lm_server.Orchestrator.Plan.{touch, reserve}
use lm_server.Orchestrator.Slots.{
  LaunchedContainer, begin_launch, finish_launch, begin_resume, finish_resume, mark_ready, release,
  is_fatal_slot_error, launched_slot,
}
use lm_server.System.{
  Task, acquiring, launching, starting_up, resume_planned, unpausing, serving, lock, answered,
  released, advance, follow, begun,
}
use lm_server.System.Claims.{claims, total_claims, held}
use lm_server.System.Keys.{first_slot-lookup}
use lm_server.System.Moves.{IsStore, Moves, stay-Moves, write-Moves, reserve-Moves}

module _ (o : Orchestrator) where
  pub begin_launch-found :
      (id : Text) (s : ContainerSlot)
      → lookup id o.slots ≡ some s
      → s.state ≡ starting
      → begin_launch o id ≡ some (s.profile, s.name)
  unfolding begin_launch
  begin_launch-found id s found e = ground arith

  pub begin_resume-found :
      (id : Text) (s : ContainerSlot)
      → lookup id o.slots ≡ some s
      → s.state ≡ resuming
      → begin_resume o id ≡ some (s.container_id, s.health_url)
  unfolding begin_resume
  begin_resume-found id s found e = ground arith

module _ (o : Orchestrator) (h : IsStore o) where
  pub plan-Follows :
      (p : ContainerProfile) (now stamp : ℕ)
      → suc o.slot_seq < 2 ^ 64
      → Follows o (acquiring p) (advance o (acquiring p) (lock now stamp))
  unfolding advance reserve new_lease_locked
  plan-Follows p now stamp small =
      plan_cases (λ r. Follows o (acquiring p) (r.0, follow p r.1 ∷ [])) o p now stamp
        (λ s e.
          let (found, is_ready, _) =
            first_slot-lookup ready p.name s o.slots h.distinct h.keyed e in
          as_claims _ _ (write-Moves o s.slot_id s h found (touch busy now) (λ t. refl))
            (λ k st. ground arith) (λ k st. ground arith))
        (λ s _ e.
          let (found, is_paused, _) =
            first_slot-lookup paused p.name s o.slots h.distinct h.keyed e in
          as_claims _ _ (write-Moves o s.slot_id s h found (touch resuming now) (λ t. refl))
            (λ k st. ground arith) (λ k st. ground arith))
        (λ _ _ _.
          as_claims _ _ (reserve-Moves o p now stamp h small) (λ k st. refl) (λ k st. omega arith))
        (λ _ _ _. stay-Moves o _ h)

  pub launched-Follows :
      (p : ContainerProfile) (id : Text) (l : LaunchedContainer) (now : ℕ)
      → Mine o (starting_up p id)
      → Follows o (starting_up p id) (advance o (starting_up p id) (answered l now))
  unfolding advance finish_launch new_lease_locked
  launched-Follows p id l now mine =
      let own = mine id starting in
      let (s, found, e) = held (lookup id o.slots) id starting refl own in
      rw (found, finish_launch)
        (as_claims _ _
          (write-Follows o h id starting refl own (launched_slot l now) busy (λ t. refl)
            (λ t. refl))
          (λ k st. refl) (λ k st. rw (keyed_here o h id starting refl own s found) (omega arith)))

  pub resumed-Follows :
      (p : ContainerProfile) (id : Text) (l : LaunchedContainer) (now : ℕ)
      → Mine o (unpausing p id)
      → Follows o (unpausing p id) (advance o (unpausing p id) (answered l now))
  unfolding advance finish_resume new_lease_locked
  resumed-Follows p id l now mine =
      let own = mine id resuming in
      let (s, found, e) = held (lookup id o.slots) id resuming refl own in
      rw (found, finish_resume)
        (as_claims _ _
          (write-Follows o h id resuming refl own (touch busy now) busy (λ t. refl) (λ t. refl))
          (λ k st. refl) (λ k st. rw (keyed_here o h id resuming refl own s found) (omega arith)))

  pub release-Follows :
      (l : Lease) (err : Option GoError) (now : ℕ)
      → Mine o (serving l)
      → Follows o (serving l) (advance o (serving l) (released err now))
  unfolding advance release mark_ready
  release-Follows l err now mine =
      let own = mine l.slot_id busy in
      let (s, found, e) = held (lookup l.slot_id o.slots) l.slot_id busy refl own in
      elim (Bool-cases (is_fatal_slot_error err)) [
        | inl fatal ↦ rw (fatal, release) (destroy-Follows o h l.slot_id busy refl own)
        | inr mild ↦
            rw (mild, found, release, mark_ready)
              (as_claims _ _
                (write-Follows o h l.slot_id busy refl own (touch ready now) ready (λ t. refl)
                  (λ t. refl))
                (λ k st. refl) (λ k st. ground arith))
      ]

  pub begun-Follows :
      (t next retry : Task) (id : Text) {A : Type 0} (x : Option A) (a : A)
      → x ≡ some a
      → ((k : Text) (st : SlotState) → claims next k st ≡ claims t k st)
      → Moves o o (claims t) (total_claims (begun next retry x ∷ []))
  unfolding begun
  begun-Follows t next retry id x a e same =
      rw e (
        as_claims _ _ (stay-Moves o (claims t) h) (λ k st. refl) (λ k st. omega (arith, same k st)))

  -- The slot is still there in its state, so neither "no longer available" error is returned.
  pub begin_launch-some :
      (p : ContainerProfile) (id : Text)
      → Mine o (launching p id)
      → (r : ContainerProfile × Text) × (begin_launch o id ≡ some r)
  begin_launch-some p id mine =
      let (s, found, e) = held (lookup id o.slots) id starting refl (mine id starting) in
      ((s.profile, s.name), begin_launch-found o id s found e)

  pub begin_resume-some :
      (p : ContainerProfile) (id : Text)
      → Mine o (resume_planned p id)
      → (r : Text × Text) × (begin_resume o id ≡ some r)
  begin_resume-some p id mine =
      let (s, found, e) = held (lookup id o.slots) id resuming refl (mine id resuming) in
      ((s.container_id, s.health_url), begin_resume-found o id s found e)
