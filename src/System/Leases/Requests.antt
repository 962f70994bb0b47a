-- ===== src/System/Leases/Requests.antt =====
-- The steps of a request change the leases of no slot but its own, and leave tasks that know their
-- slots as they are.
use lm_server.Prelude.{
  ℕ, suc, ◌^◌, ◌≤◌, ◌<◌, ◌≡◌, ◌∙◌, refl, true, ap, Text, All, List, [], ◌∷◌, Option, some,
  Bool-cases, inl, inr,
}
use mathlib.Core.Option
use lm_server.Types.{ContainerProfile}
use lm_server.Store.{lookup}
use lm_server.Orchestrator.State.{
  SlotState, starting, ready, busy, paused, resuming, removing, Orchestrator, Lease,
  new_lease_locked, GoError,
}
use lm_server.Orchestrator.Plan.{touch, reserve}
use lm_server.Orchestrator.Plan.Outcome.{plan_cases}
use lm_server.Orchestrator.Slots.{
  LaunchedContainer, launched_slot, finish_launch, finish_resume, delete_slot, destroy_slot,
  mark_ready, release, is_fatal_slot_error,
}
use lm_server.System.{
  Task, acquiring, starting_up, unpausing, serving, lock, answered, released, advance, follow,
  served, goroutine,
}
use lm_server.System.Claims.{claim, claims, holds, held, is_owned}
use lm_server.System.Keys.{first_slot-lookup}
use lm_server.System.Moves.{IsStore}
use lm_server.System.Handover.{Mine, keyed_here}
use lm_server.System.Leases.{Backed, Keeps}
use lm_server.System.Leases.Changes.{
  SameLease, write-Keeps, write-Keeps_own, delete-Keeps, lease_at-written, grant-Backed,
  reserve-Keeps, reserve-name_at,
}

-- What a step of `t` does, with the outcome `r`.
abbrev pub StepsWell : Orchestrator → Task → Orchestrator × List Task → Type 0
StepsWell o t r = Keeps o r.0 (claims t) × All (Backed r.0) r.1

touch-SameLease : (st : SlotState) (now : ℕ) → SameLease (touch st now)
unfolding new_lease_locked
touch-SameLease st now s = refl

pub state-SameLease : (st : SlotState) → SameLease (λ t. record t { state = st })
unfolding new_lease_locked
state-SameLease st s = refl

module _ (o : Orchestrator) (h : IsStore o) where
  pub plan-StepsWell :
      (p : ContainerProfile) (now stamp : ℕ)
      → suc o.slot_seq < 2 ^ 64
      → StepsWell o (acquiring p) (advance o (acquiring p) (lock now stamp))
  unfolding advance follow
  plan-StepsWell p now stamp small =
      plan_cases (λ r. StepsWell o (acquiring p) (r.0, follow p r.1 ∷ [])) o p now stamp
        (λ s e.
          let (found, _, _) = first_slot-lookup ready p.name s o.slots h.distinct h.keyed e in
          (
            write-Keeps o s.slot_id (touch busy now) _ (touch-SameLease busy now),
            (grant-Backed o s.slot_id s found (touch busy now) refl, tt),
          ))
        (λ s _ e.
          let (found, _, name) = first_slot-lookup paused p.name s o.slots h.distinct h.keyed e in
          (
            write-Keeps o s.slot_id (touch resuming now) _ (touch-SameLease resuming now),
            (
              unfold new_lease_locked in
                  ap (Option.map (λ l. l.profile.name))
                    (lease_at-written o s.slot_id s found (touch resuming now))
                  ∙ ap some name,
              tt,
            ),
          ))
        (λ _ _ _.
          let named = reserve-name_at o p now stamp in
          unfold reserve in (reserve-Keeps o p now stamp h small, (named, tt)))
        (λ _ _ _. ((λ k st held free. refl), (tt, tt)))

  pub launched-StepsWell :
      (p : ContainerProfile) (id : Text) (l : LaunchedContainer) (now : ℕ)
      → Mine o (starting_up p id)
      → StepsWell o (starting_up p id) (advance o (starting_up p id) (answered l now))
  unfolding advance served finish_launch
  launched-StepsWell p id l now mine =
      let (s, found, e) = held (lookup id o.slots) id starting refl (mine id starting) in
      let key = keyed_here o h id starting refl (mine id starting) s found in
      rw (found, finish_launch)
        (
          write-Keeps_own o id s found starting e (launched_slot l now),
          (grant-Backed o id s found (launched_slot l now) key, tt),
        )

  pub resumed-StepsWell :
      (p : ContainerProfile) (id : Text) (l : LaunchedContainer) (now : ℕ)
      → Mine o (unpausing p id)
      → StepsWell o (unpausing p id) (advance o (unpausing p id) (answered l now))
  unfolding advance served finish_resume
  resumed-StepsWell p id l now mine =
      let (s, found, e) = held (lookup id o.slots) id resuming refl (mine id resuming) in
      let key = keyed_here o h id resuming refl (mine id resuming) s found in
      rw (found, finish_resume)
        (
          write-Keeps o id (touch busy now) _ (touch-SameLease busy now),
          (grant-Backed o id s found (touch busy now) key, tt),
        )

  pub destroy-StepsWell :
      (id : Text) (st : SlotState) (c : Text → SlotState → ℕ)
      → is_owned st ≡ true
      → claim id st id st ≤ holds (lookup id o.slots) st
      → Keeps o (destroy_slot o id).0 c
        × All (Backed (destroy_slot o id).0) (goroutine id (destroy_slot o id).1)
  unfolding goroutine destroy_slot
  destroy-StepsWell id st c own mine =
      let (s, found, _) = held (lookup id o.slots) id st own mine in
      rw (found, destroy_slot)
        (
          write-Keeps o id (λ t. record t { state = removing }) c (state-SameLease removing),
          (
            unfold new_lease_locked in
                ap (Option.map (λ l. l.container_id))
                  (lease_at-written o id s found (λ t. record t { state = removing })),
            tt,
          ),
        )

  pub release-StepsWell :
      (l : Lease) (err : Option GoError) (now : ℕ)
      → Mine o (serving l)
      → StepsWell o (serving l) (advance o (serving l) (released err now))
  unfolding advance release mark_ready goroutine
  release-StepsWell l err now mine =
      let (s, found, _) =
        held (lookup l.slot_id o.slots) l.slot_id busy refl (mine l.slot_id busy) in
      elim (Bool-cases (is_fatal_slot_error err)) [
        | inl fatal ↦
            rw (fatal, release) (destroy-StepsWell l.slot_id busy _ refl (mine l.slot_id busy))
        | inr mild ↦
            rw (mild, found, release, mark_ready)
              (write-Keeps o l.slot_id (touch ready now) _ (touch-SameLease ready now), tt)
      ]

  pub delete_own-Keeps :
      (id : Text) (st : SlotState)
      → is_owned st ≡ true
      → claim id st id st ≤ holds (lookup id o.slots) st
      → Keeps o (delete_slot o id) (claim id st)
  delete_own-Keeps id st own mine =
      let (s, found, e) = held (lookup id o.slots) id st own mine in
      delete-Keeps o id s found st e h.distinct
