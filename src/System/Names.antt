-- ===== src/System/Names.antt =====
-- A request asks for slots under one profile's name until the end, and gets one of that name.
use lm_server.Prelude.{ℕ, ◌≡◌, refl, ◌∙◌, Text, All, [], ◌∷◌, Option, none, some, arith}
use lm_server.Types.{ContainerProfile}
use lm_server.Store.{lookup}
use lm_server.Orchestrator.State.{
  starting, ready, resuming, ContainerSlot, Orchestrator, new_lease_locked,
}
use lm_server.Orchestrator.Plan.{reserve}
use lm_server.Orchestrator.Plan.Outcome.{plan_cases}
use lm_server.Orchestrator.Slots.{
  LaunchedContainer, begin_launch, finish_launch, begin_resume, finish_resume,
}
use lm_server.System.{
  Task, acquiring, launching, starting_up, resume_planned, unpausing, serving, destroying,
  maintaining, Event, lock, answered, failed, canceled, released, advance, follow, served, begun,
  goroutine,
}
use lm_server.System.Claims.{held}
use lm_server.System.Keys.{first_slot-lookup}
use lm_server.System.Moves.{IsStore}
use lm_server.System.Handover.{Mine}
use lm_server.System.Leases.{name_at, Backed}

-- The name that a request asks for, or whose slot it has.
abbrev pub Named : Text → Task → Type 0
Named n (acquiring p) = p.name ≡ n
Named n (launching p id) = p.name ≡ n
Named n (starting_up p id) = p.name ≡ n
Named n (resume_planned p id) = p.name ≡ n
Named n (unpausing p id) = p.name ≡ n
Named n (serving l) = l.profile.name ≡ n
Named n _ = Unit

goroutine-Named : (n : Text) (id : Text) (x : Option Text) → All (Named n) (goroutine id x)
unfolding goroutine
goroutine-Named n id none = tt
goroutine-Named n id (some c) = (tt, tt)

begun-Named :
    (n : Text) (t : Task) (p : ContainerProfile) {A : Type 0} (x : Option A)
    → Named n t
    → p.name ≡ n
    → Named n (begun t (acquiring p) x)
unfolding begun
begun-Named n t p (some a) h e = h
begun-Named n t p none h e = e

module _ (o : Orchestrator) (h : IsStore o) (n : Text) where
  plan-Named :
      (p : ContainerProfile) (now stamp : ℕ)
      → p.name ≡ n
      → All (Named n) (advance o (acquiring p) (lock now stamp)).1
  unfolding advance follow
  plan-Named p now stamp e =
      plan_cases (λ r. All (Named n) (follow p r.1 ∷ [])) o p now stamp
        (λ s f.
          let (_, _, name) = first_slot-lookup ready p.name s o.slots h.distinct h.keyed f in
          unfold new_lease_locked in (name ∙ e, tt))
        (λ s _ f. (e, tt)) (λ _ _ _. unfold reserve in (e, tt)) (λ _ _ _. (e, tt))

  -- The slot's name is what the task was told.
  slot_name :
      (id : Text) (s : ContainerSlot) (name : Text)
      → lookup id o.slots ≡ some s
      → name_at o id ≡ some name
      → s.profile.name ≡ name
  unfolding new_lease_locked
  slot_name id s name found b = ground (arith, found)

  launched-Named :
      (p : ContainerProfile) (id : Text) (l : LaunchedContainer) (now : ℕ)
      → Mine o (starting_up p id)
      → Backed o (starting_up p id)
      → p.name ≡ n
      → All (Named n) (advance o (starting_up p id) (answered l now)).1
  unfolding advance served finish_launch new_lease_locked
  launched-Named p id l now mine b e =
      let (s, found, _) = held (lookup id o.slots) id starting refl (mine id starting) in
      rw (found, finish_launch) (slot_name id s p.name found b ∙ e, tt)

  resumed-Named :
      (p : ContainerProfile) (id : Text) (l : LaunchedContainer) (now : ℕ)
      → Mine o (unpausing p id)
      → Backed o (unpausing p id)
      → p.name ≡ n
      → All (Named n) (advance o (unpausing p id) (answered l now)).1
  unfolding advance served finish_resume new_lease_locked
  resumed-Named p id l now mine b e =
      let (s, found, _) = held (lookup id o.slots) id resuming refl (mine id resuming) in
      rw (found, finish_resume) (slot_name id s p.name found b ∙ e, tt)

  -- Any step of a task that owns what it claims and knows its slots as they are.
  pub advance-Named :
      (t : Task) (e : Event) → Mine o t → Backed o t → Named n t → All (Named n) (advance o t e).1
  unfolding advance
  advance-Named (acquiring p) (lock now stamp) mine b a = plan-Named p now stamp a
  advance-Named (acquiring p) canceled mine b a = tt
  advance-Named (launching p id) (lock now stamp) mine b a =
      (begun-Named n (starting_up p id) p (begin_launch o id) a a, tt)
  advance-Named (starting_up p id) (answered l now) mine b a = launched-Named p id l now mine b a
  advance-Named (starting_up p id) (failed e) mine b a = (a, tt)
  advance-Named (resume_planned p id) (lock now stamp) mine b a =
      (begun-Named n (unpausing p id) p (begin_resume o id) a a, tt)
  advance-Named (unpausing p id) (answered l now) mine b a = resumed-Named p id l now mine b a
  advance-Named (unpausing p id) (failed e) mine b a = (a, goroutine-Named n id _)
  advance-Named (serving l) (released err now) mine b a = goroutine-Named n l.slot_id _
  advance-Named (destroying id container) (lock now stamp) mine b a = tt
  advance-Named (maintaining []) (lock now stamp) mine b a = (tt, tt)
  advance-Named (maintaining (x ∷ rest)) (answered l now) mine b a = (tt, tt)
  advance-Named (maintaining (x ∷ rest)) (failed e) mine b a = (tt, tt)
  advance-Named t e mine b a = (a, tt)
