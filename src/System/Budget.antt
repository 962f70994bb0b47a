-- ===== src/System/Budget.antt =====
-- The budgets of video memory, of each class and of each profile, over all steps of the tasks.
pub mod Reserve
pub mod Steps
pub mod Runs
pub mod Bounds
pub mod Overcommit
use lm_server.Prelude.{
  ℕ, ℤ, zero, suc, ◌+◌, ◌^◌, ◌<◌, ◌≤◌, ◌≡◌, Text, List, [], ◌∷◌, ◌++◌, All, Bool, true, false,
  Option, some, none, pos_part, neg_part, length,
}
use lm_server.Types.{QueueClass, ContainerProfile, Config}
use lm_server.Orchestrator.State.{Orchestrator}
use lm_server.Orchestrator.Load.{load, vram, class_vram, one_of}
use lm_server.Orchestrator.Plan.{budget_of}
use lm_server.Orchestrator.Plan.Launch.{AllNonneg, IsSane}
use lm_server.Orchestrator.Maintenance.{ActionKind, pause, remove, MaintenanceAction}
use lm_server.System.{
  Task, acquiring, launching, starting_up, resume_planned, unpausing, maintaining, Event, failed,
  System, Choice, pick, step,
}

-- Slots that are not being removed fit the machine, each class with a budget, and the number of
-- containers that is allowed under each profile name.
pub record IsWithin (most : Text → ℕ) (o : Orchestrator) : Type 0 where
  pub nonneg : AllNonneg o.slots
  pub total : load vram o.slots ≤ pos_part o.total_vram_mb
  pub of_class :
      (c : QueueClass)
      → 0 < pos_part (budget_of o c)
      → load (class_vram c) o.slots ≤ pos_part (budget_of o c)
  pub number : (name : Text) → load (one_of name) o.slots ≤ most name

-- A profile of sane size, with no more containers than the bound on its name.
abbrev pub IsCapped : (Text → ℕ) → ℤ → ContainerProfile → Type 0
IsCapped most total p = IsSane total p × (pos_part p.max_containers ≤ most p.name)

-- The profile that a request goes by.
abbrev pub AsksCapped : (Text → ℕ) → ℤ → Task → Type 0
AsksCapped most total (acquiring p) = IsCapped most total p
AsksCapped most total (launching p id) = IsCapped most total p
AsksCapped most total (starting_up p id) = IsCapped most total p
AsksCapped most total (resume_planned p id) = IsCapped most total p
AsksCapped most total (unpausing p id) = IsCapped most total p
AsksCapped most total _ = Unit

-- The answer of Docker that a removal by `runMaintenance` failed: the one event after which
-- `finishRemove` counts a slot again that was not counted before.
abbrev pub is_failed_removal : Task → Event → Bool
is_failed_removal (maintaining (a ∷ rest)) (failed e) = elim a.kind [
  | remove ↦ true
  | pause ↦ false
]
is_failed_removal _ _ = false

abbrev pub fails_at : List Task → ℕ → Event → Bool
fails_at [] i e = false
fails_at (t ∷ ts) zero e = is_failed_removal t e
fails_at (t ∷ ts) (suc i) e = fails_at ts i e

abbrev pub fails_removal : System → Choice → Bool
fails_removal sys (pick i e) = fails_at sys.tasks i e
fails_removal sys _ = false

-- No removal by maintenance fails along the run.
abbrev pub IsUndisturbed : System → List Choice → Type 0
IsUndisturbed sys [] = Unit
IsUndisturbed sys (c ∷ cs) = (fails_removal sys c ≡ false) × IsUndisturbed (step sys c) cs
