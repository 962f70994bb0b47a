-- ===== src/System/Profiles/Runs.antt =====
-- The profiles of the slots and of the requests are those of the configuration, over all steps.
use lm_server.Prelude.{
  ℕ, zero, suc, ◌≡◌, sym, subst, Text, text_eq, if◌then◌else◌, All, All-append, List, [], ◌∷◌,
  Option, none, some,
}
use lm_server.Types.{QueueClass, ContainerProfile, Config}
use lm_server.Orchestrator.State.{Orchestrator}
use lm_server.Orchestrator.Select.{new, IfSome, select_profile-All, new-All}
use lm_server.Orchestrator.Slots.{begin_launch, begin_resume, finish_destroy, abort_launch}
use lm_server.Orchestrator.Maintenance.{collect_maintenance_actions}
use lm_server.System.{
  Task, acquiring, launching, starting_up, resume_planned, unpausing, serving, destroying,
  maintaining, Event, lock, answered, failed, canceled, released, advance, advance_at, System,
  Choice, arrive, pick, reorder, arrived, step, run, start,
}
use lm_server.System.Budget.Runs.{advance_at-SameConfig}
use lm_server.System.Profiles.{
  Uses, AllSlots, AllProfiles, swap_at-AllSlots, delete-AllSlots, collect-AllSlots, goroutine-Uses,
  begun-Uses, plan-AllProfiles, launched-AllProfiles, resumed-AllProfiles, destroy_slot-AllSlots,
  release-AllSlots, finish_action-AllSlots,
}

module _ (P : ContainerProfile → Type 0) where
  advance-AllProfiles :
      (o : Orchestrator) (t : Task) (e : Event)
      → AllSlots P o.slots
      → Uses P t
      → AllProfiles P (advance o t e)
  unfolding advance abort_launch finish_destroy collect_maintenance_actions
  advance-AllProfiles o (acquiring p) (lock now stamp) h u = plan-AllProfiles P o p now stamp h u
  advance-AllProfiles o (acquiring p) canceled h u = (h, tt)
  advance-AllProfiles o (launching p id) (lock now stamp) h u =
      (h, (begun-Uses P (starting_up p id) (acquiring p) (begin_launch o id) u u, tt))
  advance-AllProfiles o (starting_up p id) (answered l now) h u =
      launched-AllProfiles P o p id l now h u
  advance-AllProfiles o (starting_up p id) (failed e) h u = (delete-AllSlots P id _ h, (u, tt))
  advance-AllProfiles o (resume_planned p id) (lock now stamp) h u =
      (h, (begun-Uses P (unpausing p id) (acquiring p) (begin_resume o id) u u, tt))
  advance-AllProfiles o (unpausing p id) (answered l now) h u =
      resumed-AllProfiles P o p id l now h u
  advance-AllProfiles o (unpausing p id) (failed e) h u =
      (destroy_slot-AllSlots P o id h, (u, goroutine-Uses P id _))
  advance-AllProfiles o (serving l) (released err now) h u =
      (release-AllSlots P o l.slot_id err now h, goroutine-Uses P l.slot_id _)
  advance-AllProfiles o (destroying id container) (lock now stamp) h u =
      (delete-AllSlots P id _ h, tt)
  advance-AllProfiles o (maintaining []) (lock now stamp) h u =
      (collect-AllSlots P now _ h, (tt, tt))
  advance-AllProfiles o (maintaining (a ∷ rest)) (answered l now) h u =
      (finish_action-AllSlots P o a none h, (tt, tt))
  advance-AllProfiles o (maintaining (a ∷ rest)) (failed e) h u =
      (finish_action-AllSlots P o a (some e) h, (tt, tt))
  advance-AllProfiles o t e h u = (h, (u, tt))

  advance_at-AllProfiles :
      (o : Orchestrator) (i : ℕ) (e : Event) (ts : List Task)
      → AllSlots P o.slots
      → All (Uses P) ts
      → AllProfiles P (advance_at o i e ts)
  unfolding advance_at
  advance_at-AllProfiles o i e [] h u = (h, tt)
  advance_at-AllProfiles o zero e (t ∷ ts) h u =
      let (slots, tasks) = advance-AllProfiles o t e h u.0 in
      (slots, All-append (Uses P) (advance o t e).1 ts tasks u.1)
  advance_at-AllProfiles o (suc i) e (t ∷ ts) h u =
      let (slots, tasks) = advance_at-AllProfiles o i e ts h u.1 in (slots, (u.0, tasks))

  record IsProfiled (sys : System) : Type 0 where
    slots : AllSlots P sys.orchestrator.slots
    tasks : All (Uses P) sys.tasks
    groups : (c : QueueClass) → All P (sys.orchestrator.profiles_by_class c)

  arrived-Uses :
      (x : Option ContainerProfile) (ts : List Task)
      → IfSome P x
      → All (Uses P) ts
      → All (Uses P) (arrived x ts)
  unfolding arrived
  arrived-Uses none ts h u = u
  arrived-Uses (some p) ts h u = (h, u)

  step-IsProfiled : (sys : System) (c : Choice) → IsProfiled sys → IsProfiled (step sys c)
  unfolding step
  step-IsProfiled sys (arrive meta) h = record {
    slots = h.slots;
    tasks =
        arrived-Uses _ sys.tasks
          (select_profile-All P sys.orchestrator meta (h.groups meta.queue_class)) h.tasks;
    groups = h.groups;
  }
  step-IsProfiled sys (pick i e) h =
      let (slots, tasks) = advance_at-AllProfiles sys.orchestrator i e sys.tasks h.slots h.tasks in
      let config = advance_at-SameConfig sys.orchestrator i e sys.tasks in
      record {
        slots = slots;
        tasks = tasks;
        groups = λ c. subst (λ f. All P (f c)) (sym config.profiles) (h.groups c);
      }
  step-IsProfiled sys (reorder i) h = record {
    slots = swap_at-AllSlots P i _ h.slots;
    tasks = h.tasks;
    groups = h.groups;
  }

  run-IsProfiled : (sys : System) (cs : List Choice) → IsProfiled sys → IsProfiled (run sys cs)
  unfolding run
  run-IsProfiled sys [] h = h
  run-IsProfiled sys (c ∷ cs) h = run-IsProfiled (step sys c) cs (step-IsProfiled sys c h)

  -- What holds of all profiles of the configuration holds of the one of any task, after any run.
  pub run-Uses :
      (cfg : Config) (cs : List Choice)
      → All P cfg.profiles
      → All (Uses P) (run (start cfg) cs).tasks
  unfolding start
  run-Uses cfg cs h =
      (run-IsProfiled (start cfg) cs (record {
        slots = unfold new in tt;
        tasks = (tt, tt);
        groups = λ c. new-All P cfg c h;
      })).tasks

-- The first profile of a name.
abbrev pub find_profile : Text → List ContainerProfile → Option ContainerProfile
find_profile name [] = none
find_profile name (p ∷ ps) = if text_eq p.name name then some p else find_profile name ps

-- No two profiles of the configuration share a name.
abbrev pub IsNamedOnce : Config → Type 0
IsNamedOnce cfg = All (λ p. find_profile p.name cfg.profiles ≡ some p) cfg.profiles
