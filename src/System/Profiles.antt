-- ===== src/System/Profiles.antt =====
-- The profiles of the slots and of the requests are those of the configuration.
pub mod Runs
use lm_server.Prelude.{
  ℕ, zero, suc, ◌≡◌, refl, sym, ◌∙◌, subst, Text, text_eq, All, All-append, List, [], ◌∷◌, ◌++◌,
  ◌&&◌, Option, none, some, if◌then◌else◌, Bool-cases, Option-cases, inl, inr, arith,
}
use lm_server.Types.{QueueClass, ContainerProfile, RequestMeta, Config}
use lm_server.Store.{lookup, put, update, delete, swap_at}
use lm_server.Orchestrator.State.{
  SlotState, same_state, ContainerSlot, Slots, Orchestrator, Lease, GoError, new_lease_locked,
  AcquirePlan, granted, resume, launch, wait,
}
use lm_server.Orchestrator.Plan.{first_slot, reserve}
use lm_server.Orchestrator.Plan.Outcome.{plan_cases}
use lm_server.Orchestrator.Select.{new, IfSome, select_profile-All, new-All}
use lm_server.Orchestrator.Slots.{
  LaunchedContainer, begin_launch, begin_resume, finish_launch, abort_launch, finish_resume,
  destroy_slot, is_fatal_slot_error, mark_ready, release, finish_destroy,
}
use lm_server.Orchestrator.Maintenance.{
  ActionKind, pause, remove, action_for, marked, MaintenanceAction, collect_actions, finish_pause,
  finish_remove, finish_action, collect_maintenance_actions,
}
use lm_server.System.{
  Task, acquiring, launching, starting_up, resume_planned, unpausing, serving, destroying,
  maintaining, Event, lock, answered, failed, canceled, released, advance, follow, served, begun,
  goroutine, advance_at, System, Choice, arrive, pick, reorder, arrived, step, run, start,
}
use lm_server.System.Budget.Runs.{advance_at-SameConfig}

-- The profile that a task asks for, or whose slot it has.
abbrev pub profile_of : Task → Option ContainerProfile
profile_of (acquiring p) = some p
profile_of (launching p id) = some p
profile_of (starting_up p id) = some p
profile_of (resume_planned p id) = some p
profile_of (unpausing p id) = some p
profile_of (serving l) = some l.profile
profile_of _ = none

module _ (P : ContainerProfile → Type 0) where
  abbrev pub Uses : Task → Type 0
  Uses t = IfSome P (profile_of t)

  abbrev pub AllSlots : Slots → Type 0
  AllSlots = All (λ e. P e.1.profile)

  put-AllSlots :
      (k : Text) (s : ContainerSlot) (m : Slots) → P s.profile → AllSlots m → AllSlots (put k s m)
  unfolding put
  put-AllSlots k s [] hs h = (hs, tt)
  put-AllSlots k s ((j, t) ∷ m) hs h = elim (Bool-cases (text_eq j k)) [
    | inl e ↦ rw e (hs, h.1)
    | inr e ↦ rw e (h.0, put-AllSlots k s m hs h.1)
  ]

  update-AllSlots :
      (k : Text) (f : ContainerSlot → ContainerSlot) (m : Slots)
      → ((s : ContainerSlot) → (f s).profile ≡ s.profile)
      → AllSlots m
      → AllSlots (update k f m)
  unfolding update
  update-AllSlots k f [] same h = tt
  update-AllSlots k f ((j, t) ∷ m) same h = elim (Bool-cases (text_eq j k)) [
    | inl e ↦ rw e (subst P (sym (same t)) h.0, h.1)
    | inr e ↦ rw e (h.0, update-AllSlots k f m same h.1)
  ]

  pub delete-AllSlots : (k : Text) (m : Slots) → AllSlots m → AllSlots (delete k m)
  unfolding delete
  delete-AllSlots k [] h = tt
  delete-AllSlots k ((j, t) ∷ m) h = elim (Bool-cases (text_eq j k)) [
    | inl e ↦ rw e h.1
    | inr e ↦ rw e (h.0, delete-AllSlots k m h.1)
  ]

  pub swap_at-AllSlots : (i : ℕ) (m : Slots) → AllSlots m → AllSlots (swap_at i m)
  unfolding swap_at
  swap_at-AllSlots i [] h = tt
  swap_at-AllSlots i (a ∷ []) h = h
  swap_at-AllSlots zero (a ∷ b ∷ m) h = (h.1.0, (h.0, h.1.1))
  swap_at-AllSlots (suc i) (a ∷ b ∷ m) h = (h.0, swap_at-AllSlots i (b ∷ m) h.1)

  marked-profile :
      (x : Option MaintenanceAction) (s : ContainerSlot) → (marked x s).profile ≡ s.profile
  marked-profile none s = refl
  marked-profile (some a) s = refl

  pub collect-AllSlots : (now : ℕ) (m : Slots) → AllSlots m → AllSlots (collect_actions now m).0
  unfolding collect_actions
  collect-AllSlots now [] h = tt
  collect-AllSlots now ((j, s) ∷ m) h =
      (subst P (sym (marked-profile (action_for now s) s)) h.0, collect-AllSlots now m h.1)

  lookup-AllSlots :
      (k : Text) (s : ContainerSlot) (m : Slots) → lookup k m ≡ some s → AllSlots m → P s.profile
  unfolding lookup
  lookup-AllSlots k s [] e h = cc
  lookup-AllSlots k s ((j, t) ∷ m) e h = elim (Bool-cases (text_eq j k)) [
    | inl b ↦ let same : t ≡ s = ground (arith, b, e) in subst (λ x. P x.profile) same h.0
    | inr b ↦ lookup-AllSlots k s m (ground (arith, b, e)) h.1
  ]

  first_slot-AllSlots :
      (st : SlotState) (name : Text) (s : ContainerSlot) (m : Slots)
      → first_slot st name m ≡ some s
      → AllSlots m
      → P s.profile
  unfolding first_slot
  first_slot-AllSlots st name s [] e h = cc
  first_slot-AllSlots st name s ((j, t) ∷ m) e h =
      elim (Bool-cases (text_eq t.profile.name name && same_state t.state st)) [
        | inl b ↦ let same : t ≡ s = ground (arith, b, e) in subst (λ x. P x.profile) same h.0
        | inr b ↦ first_slot-AllSlots st name s m (ground (arith, b, e)) h.1
      ]

  -- What a step leaves: the slots, and the tasks that the task becomes.
  abbrev pub AllProfiles : Orchestrator × List Task → Type 0
  AllProfiles r = AllSlots r.0.slots × All Uses r.1

  pub goroutine-Uses : (id : Text) (x : Option Text) → All Uses (goroutine id x)
  unfolding goroutine
  goroutine-Uses id none = tt
  goroutine-Uses id (some c) = (tt, tt)

  pub begun-Uses : (t u : Task) {A : Type 0} (x : Option A) → Uses t → Uses u → Uses (begun t u x)
  unfolding begun
  begun-Uses t u none h h' = h'
  begun-Uses t u (some a) h h' = h

  pub plan-AllProfiles :
      (o : Orchestrator) (p : ContainerProfile) (now stamp : ℕ)
      → AllSlots o.slots
      → P p
      → AllProfiles (advance o (acquiring p) (lock now stamp))
  unfolding advance follow reserve
  plan-AllProfiles o p now stamp h hp =
      plan_cases (λ r. AllProfiles (r.0, follow p r.1 ∷ [])) o p now stamp
        (λ s e. (
          update-AllSlots _ _ _ (λ t. refl) h,
          unfold new_lease_locked in (first_slot-AllSlots _ _ s _ e h, tt),
        ))
        (λ s _ e. (update-AllSlots _ _ _ (λ t. refl) h, (hp, tt)))
        (λ _ _ _. (put-AllSlots _ _ _ hp h, (hp, tt))) (λ _ _ _. (h, (hp, tt)))

  pub launched-AllProfiles :
      (o : Orchestrator) (p : ContainerProfile) (id : Text) (l : LaunchedContainer) (now : ℕ)
      → AllSlots o.slots
      → P p
      → AllProfiles (advance o (starting_up p id) (answered l now))
  unfolding advance served finish_launch
  launched-AllProfiles o p id l now h hp = elim (Option-cases (lookup id o.slots)) [
    | inl e ↦ rw (e, finish_launch) (h, (hp, tt))
    | inr (s, e) ↦
        rw (e, finish_launch)
          (
            update-AllSlots _ _ _ (λ t. refl) h,
            unfold new_lease_locked in (lookup-AllSlots id s _ e h, tt),
          )
  ]

  pub resumed-AllProfiles :
      (o : Orchestrator) (p : ContainerProfile) (id : Text) (l : LaunchedContainer) (now : ℕ)
      → AllSlots o.slots
      → P p
      → AllProfiles (advance o (unpausing p id) (answered l now))
  unfolding advance served finish_resume
  resumed-AllProfiles o p id l now h hp = elim (Option-cases (lookup id o.slots)) [
    | inl e ↦ rw (e, finish_resume) (h, (hp, tt))
    | inr (s, e) ↦
        rw (e, finish_resume)
          (
            update-AllSlots _ _ _ (λ t. refl) h,
            unfold new_lease_locked in (lookup-AllSlots id s _ e h, tt),
          )
  ]

  pub destroy_slot-AllSlots :
      (o : Orchestrator) (id : Text) → AllSlots o.slots → AllSlots (destroy_slot o id).0.slots
  unfolding destroy_slot
  destroy_slot-AllSlots o id h = elim (Option-cases (lookup id o.slots)) [
    | inl e ↦ rw (e, destroy_slot) h
    | inr (s, e) ↦ rw (e, destroy_slot) (update-AllSlots _ _ _ (λ t. refl) h)
  ]

  mark_ready-AllSlots :
      (o : Orchestrator) (id : Text) (now : ℕ)
      → AllSlots o.slots
      → AllSlots (mark_ready o id now).slots
  unfolding mark_ready
  mark_ready-AllSlots o id now h = elim (Option-cases (lookup id o.slots)) [
    | inl e ↦ rw (e, mark_ready) h
    | inr (s, e) ↦ rw (e, mark_ready) (update-AllSlots _ _ _ (λ t. refl) h)
  ]

  pub release-AllSlots :
      (o : Orchestrator) (id : Text) (err : Option GoError) (now : ℕ)
      → AllSlots o.slots
      → AllSlots (release o id err now).0.slots
  unfolding release
  release-AllSlots o id err now h = elim (Bool-cases (is_fatal_slot_error err)) [
    | inl e ↦ rw (e, release) (destroy_slot-AllSlots o id h)
    | inr e ↦ rw (e, release) (mark_ready-AllSlots o id now h)
  ]

  finish_pause-AllSlots :
      (o : Orchestrator) (a : MaintenanceAction) (err : Option GoError)
      → AllSlots o.slots
      → AllSlots (finish_pause o a err).slots
  unfolding finish_pause
  finish_pause-AllSlots o a none h = elim (Option-cases (lookup a.slot_id o.slots)) [
    | inl e ↦ rw (e, finish_pause) h
    | inr (s, e) ↦ rw (e, finish_pause) (update-AllSlots _ _ _ (λ t. refl) h)
  ]
  finish_pause-AllSlots o a (some x) h = elim (Option-cases (lookup a.slot_id o.slots)) [
    | inl e ↦ rw (e, finish_pause) h
    | inr (s, e) ↦ rw (e, finish_pause) (update-AllSlots _ _ _ (λ t. refl) h)
  ]

  finish_remove-AllSlots :
      (o : Orchestrator) (a : MaintenanceAction) (err : Option GoError)
      → AllSlots o.slots
      → AllSlots (finish_remove o a err).slots
  unfolding finish_remove
  finish_remove-AllSlots o a none h = delete-AllSlots _ _ h
  finish_remove-AllSlots o a (some x) h = elim (Option-cases (lookup a.slot_id o.slots)) [
    | inl e ↦ rw (e, finish_remove) h
    | inr (s, e) ↦ rw (e, finish_remove) (update-AllSlots _ _ _ (λ t. refl) h)
  ]

  pub finish_action-AllSlots :
      (o : Orchestrator) (a : MaintenanceAction) (err : Option GoError)
      → AllSlots o.slots
      → AllSlots (finish_action o a err).slots
  unfolding finish_action
  finish_action-AllSlots o a err h =
      elim a.kind as (λ k. AllSlots (finish_action o (record a { kind = k }) err).slots) [
        | pause ↦ finish_pause-AllSlots o (record a { kind = pause }) err h
        | remove ↦ finish_remove-AllSlots o (record a { kind = remove }) err h
      ]
