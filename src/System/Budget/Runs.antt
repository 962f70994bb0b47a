-- ===== src/System/Budget/Runs.antt =====
-- The budgets over whole runs.
use lm_server.Prelude.{
  ℕ, ℤ, zero, suc, ◌^◌, ◌<◌, ◌≤◌, ◌≡◌, refl, Text, List, [], ◌∷◌, ◌++◌, All, false, Option, some,
  none, arith,
}
use lm_server.Types.{ContainerProfile}
use lm_server.Store.{lookup}
use lm_server.Orchestrator.State.{
  SlotState, Orchestrator, Lease, GoError, AcquirePlan, granted, resume, launch, wait,
}
use lm_server.Orchestrator.Plan.{reserve}
use lm_server.Orchestrator.Plan.Outcome.{plan_cases}
use lm_server.Orchestrator.Slots.{
  begin_launch, begin_resume, finish_launch, abort_launch, finish_resume, destroy_slot, mark_ready,
  release, finish_destroy,
}
use lm_server.Orchestrator.Maintenance.{
  MaintenanceAction, finish_action, collect_maintenance_actions,
}
use lm_server.System.{
  Task, acquiring, launching, starting_up, resume_planned, unpausing, serving, destroying,
  maintaining, Event, lock, answered, failed, canceled, released, advance, follow, served, begun,
  goroutine, advance_at,
}
use lm_server.System.Claims.{total_claims, holds}
use lm_server.System.Moves.{IsStore}
use lm_server.System.Budget.{IsWithin, IsCapped, AsksCapped, fails_at}
use lm_server.System.Budget.Steps.{advance-IsWithin}

-- What no method changes: the sizes and the profiles.
pub record SameConfig (o o' : Orchestrator) : Type 0 where
  pub total : o'.total_vram_mb ≡ o.total_vram_mb
  pub budgets : o'.class_budget_mb ≡ o.class_budget_mb
  pub profiles : o'.profiles_by_class ≡ o.profiles_by_class

finish_action-SameConfig :
    (o : Orchestrator) (a : MaintenanceAction) (err : Option GoError)
    → SameConfig o (finish_action o a err)
unfolding finish_action
finish_action-SameConfig o a err = ground arith

pub advance-SameConfig : (o : Orchestrator) (t : Task) (e : Event) → SameConfig o (advance o t e).0
unfolding advance finish_launch abort_launch finish_resume destroy_slot release mark_ready
    finish_destroy collect_maintenance_actions reserve
advance-SameConfig o (acquiring p) (lock now stamp) =
    plan_cases (λ r. SameConfig o r.0) o p now stamp
      (λ _ _. record { total = refl; budgets = refl; profiles = refl })
      (λ _ _ _. record { total = refl; budgets = refl; profiles = refl })
      (λ _ _ _. record { total = refl; budgets = refl; profiles = refl })
      (λ _ _ _. record { total = refl; budgets = refl; profiles = refl })
advance-SameConfig o (starting_up p id) (answered l now) = ground arith
advance-SameConfig o (unpausing p id) (answered l now) = ground arith
advance-SameConfig o (unpausing p id) (failed e) = ground arith
advance-SameConfig o (serving l) (released err now) = ground arith
advance-SameConfig o (maintaining (a ∷ rest)) (answered l now) = finish_action-SameConfig o a none
advance-SameConfig o (maintaining (a ∷ rest)) (failed e) = finish_action-SameConfig o a (some e)
advance-SameConfig o t e = ground arith

module _ (most : Text → ℕ) (total : ℤ) where
  abbrev pub Asks : Task → Type 0
  Asks = AsksCapped most total

  follow-Asks :
      (p : ContainerProfile) (plan : AcquirePlan) → IsCapped most total p → Asks (follow p plan)
  unfolding follow
  follow-Asks p (granted l) h = tt
  follow-Asks p (resume id) h = h
  follow-Asks p (launch id) h = h
  follow-Asks p wait h = h

  served-Asks :
      (p : ContainerProfile) (x : Option Lease) → IsCapped most total p → Asks (served p x)
  unfolding served
  served-Asks p none h = h
  served-Asks p (some l) h = tt

  begun-Asks : (t u : Task) {A : Type 0} (x : Option A) → Asks t → Asks u → Asks (begun t u x)
  unfolding begun
  begun-Asks t u none h h' = h'
  begun-Asks t u (some a) h h' = h

  goroutine-Asks : (id : Text) (x : Option Text) → All Asks (goroutine id x)
  unfolding goroutine
  goroutine-Asks id none = tt
  goroutine-Asks id (some c) = (tt, tt)

  advance-Asks : (o : Orchestrator) (t : Task) (e : Event) → Asks t → All Asks (advance o t e).1
  unfolding advance
  advance-Asks o (acquiring p) (lock now stamp) h = (follow-Asks p _ h, tt)
  advance-Asks o (acquiring p) canceled h = tt
  advance-Asks o (launching p id) (lock now stamp) h =
      (begun-Asks (starting_up p id) (acquiring p) (begin_launch o id) h h, tt)
  advance-Asks o (starting_up p id) (answered l now) h = (served-Asks p _ h, tt)
  advance-Asks o (starting_up p id) (failed e) h = (h, tt)
  advance-Asks o (resume_planned p id) (lock now stamp) h =
      (begun-Asks (unpausing p id) (acquiring p) (begin_resume o id) h h, tt)
  advance-Asks o (unpausing p id) (answered l now) h = (served-Asks p _ h, tt)
  advance-Asks o (unpausing p id) (failed e) h = (h, goroutine-Asks id _)
  advance-Asks o (serving l) (released err now) h = goroutine-Asks l.slot_id _
  advance-Asks o (destroying id c) (lock now stamp) h = tt
  advance-Asks o (maintaining []) (lock now stamp) h = (tt, tt)
  advance-Asks o (maintaining (a ∷ rest)) (answered l now) h = (tt, tt)
  advance-Asks o (maintaining (a ∷ rest)) (failed e) h = (tt, tt)
  advance-Asks o t e h = (h, tt)

  All-append : (ts us : List Task) → All Asks ts → All Asks us → All Asks (ts ++ us)
  All-append [] us h h' = h'
  All-append (t ∷ ts) us h h' = (h.0, All-append ts us h.1 h')

  pub advance_at-Asks :
      (o : Orchestrator) (i : ℕ) (e : Event) (ts : List Task)
      → All Asks ts
      → All Asks (advance_at o i e ts).1
  unfolding advance_at
  advance_at-Asks o i e [] h = tt
  advance_at-Asks o zero e (t ∷ ts) h = All-append (advance o t e).1 ts (advance-Asks o t e h.0) h.1
  advance_at-Asks o (suc i) e (t ∷ ts) h = (h.0, advance_at-Asks o i e ts h.1)

pub advance_at-SameConfig :
    (o : Orchestrator) (i : ℕ) (e : Event) (ts : List Task) → SameConfig o (advance_at o i e ts).0
unfolding advance_at
advance_at-SameConfig o i e [] = record { total = refl; budgets = refl; profiles = refl }
advance_at-SameConfig o zero e (t ∷ ts) = advance-SameConfig o t e
advance_at-SameConfig o (suc i) e (t ∷ ts) = advance_at-SameConfig o i e ts

pub advance_at-IsWithin :
    (most : Text → ℕ) (o : Orchestrator) (i : ℕ) (e : Event) (ts : List Task)
    → IsStore o
    → suc o.slot_seq < 2 ^ 64
    → ((k : Text) (st : SlotState) → total_claims ts k st ≤ holds (lookup k o.slots) st)
    → All (AsksCapped most o.total_vram_mb) ts
    → fails_at ts i e ≡ false
    → IsWithin most o
    → IsWithin most (advance_at o i e ts).0
unfolding advance_at
advance_at-IsWithin most o i e [] h small own asks calm w = w
advance_at-IsWithin most o zero e (t ∷ ts) h small own asks calm w =
    advance-IsWithin most o t e h small (λ k st. omega (arith, own k st)) asks.0 calm w
advance_at-IsWithin most o (suc i) e (t ∷ ts) h small own asks calm w =
    advance_at-IsWithin most o i e ts h small (λ k st. omega (arith, own k st)) asks.1 calm w
