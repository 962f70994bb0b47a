-- ===== src/System/Budget/Bounds.antt =====
-- The budgets after any run in which no removal by maintenance fails.
use lm_server.Prelude.{
  ℕ, ℤ, zero, suc, ◌+◌, ◌^◌, ◌<◌, ◌≡◌, refl, sym, ◌∙◌, subst, Text, List, [], ◌∷◌, All, false,
  Option, some, none, arith, length,
}
use lm_server.Types.{QueueClass, ContainerProfile, Config}
use lm_server.Store.{swap_at}
use lm_server.Orchestrator.State.{Orchestrator, Slots}
use lm_server.Orchestrator.Load.{load, load-swap_at}
use lm_server.Orchestrator.Plan.Launch.{AllNonneg}
use lm_server.Orchestrator.Select.{new, IfSome, select_profile-All, new-All}
use lm_server.System.{System, Choice, arrive, pick, reorder, arrived, step, run, start}
use lm_server.System.Sound.{IsSound, step-IsSound, step-seq, start-IsSound}
use lm_server.System.Budget.{IsWithin, IsCapped, AsksCapped, fails_removal, IsUndisturbed}
use lm_server.System.Budget.Steps.{Lightens-IsWithin}
use lm_server.System.Budget.Runs.{advance_at-SameConfig, advance_at-IsWithin, advance_at-Asks}
use lm_server.System.Weight.{Lightens}

swap_at-AllNonneg : (i : ℕ) (m : Slots) → AllNonneg m → AllNonneg (swap_at i m)
unfolding swap_at
swap_at-AllNonneg i [] h = tt
swap_at-AllNonneg i (a ∷ []) h = h
swap_at-AllNonneg zero (a ∷ b ∷ m) h = (h.1.0, (h.0, h.1.1))
swap_at-AllNonneg (suc i) (a ∷ b ∷ m) h = (h.0, swap_at-AllNonneg i (b ∷ m) h.1)

swap-Lightens : (o : Orchestrator) (i : ℕ) → Lightens o (record o { slots = swap_at i o.slots })
swap-Lightens o i = record {
  lighter = λ g. omega (arith, load-swap_at g i o.slots);
  nonneg = swap_at-AllNonneg i o.slots;
  same_total = refl;
  same_budget = refl;
  same_profiles = refl;
}

module _ (most : Text → ℕ) (total : ℤ) (budgets : QueueClass → Option ℤ) where
  -- All that a step needs to keep the budgets.
  record IsBudgeted (sys : System) : Type 0 where
    sound : IsSound sys
    within : IsWithin most sys.orchestrator
    asks : All (AsksCapped most total) sys.tasks
    same : sys.orchestrator.total_vram_mb ≡ total
    same_budgets : sys.orchestrator.class_budget_mb ≡ budgets
    groups : (c : QueueClass) → All (IsCapped most total) (sys.orchestrator.profiles_by_class c)

  arrived-asks :
      (sys : System) (x : Option ContainerProfile)
      → IfSome (IsCapped most total) x
      → All (AsksCapped most total) sys.tasks
      → All (AsksCapped most total) (arrived x sys.tasks)
  unfolding arrived
  arrived-asks sys none h asks = asks
  arrived-asks sys (some p) h asks = (h, asks)

  step-IsBudgeted :
      (sys : System) (c : Choice)
      → suc sys.orchestrator.slot_seq < 2 ^ 64
      → fails_removal sys c ≡ false
      → IsBudgeted sys
      → IsBudgeted (step sys c)
  unfolding step
  step-IsBudgeted sys (arrive meta) small calm b = record {
    sound = step-IsSound sys (arrive meta) small b.sound;
    within = b.within;
    asks =
        arrived-asks sys _
          (select_profile-All (IsCapped most total) sys.orchestrator meta
            (b.groups meta.queue_class))
          b.asks;
    same = b.same;
    same_budgets = b.same_budgets;
    groups = b.groups;
  }
  step-IsBudgeted sys (pick i e) small calm b =
      let o = sys.orchestrator in
      let config = advance_at-SameConfig o i e sys.tasks in
      record {
        sound = step-IsSound sys (pick i e) small b.sound;
        within =
            advance_at-IsWithin most o i e sys.tasks b.sound.store small
              (λ k st. omega (arith, b.sound.owned k st))
              (subst (λ n. All (AsksCapped most n) sys.tasks) (sym b.same) b.asks) calm b.within;
        asks = advance_at-Asks most total o i e sys.tasks b.asks;
        same = config.total ∙ b.same;
        same_budgets = config.budgets ∙ b.same_budgets;
        groups =
            λ c. subst (λ f. All (IsCapped most total) (f c)) (sym config.profiles) (b.groups c);
      }
  step-IsBudgeted sys (reorder i) small calm b = record {
    sound = step-IsSound sys (reorder i) small b.sound;
    within = Lightens-IsWithin most sys.orchestrator _ (swap-Lightens sys.orchestrator i) b.within;
    asks = b.asks;
    same = b.same;
    same_budgets = b.same_budgets;
    groups = b.groups;
  }

  run-IsBudgeted :
      (sys : System) (cs : List Choice)
      → sys.orchestrator.slot_seq + length cs < 2 ^ 64
      → IsUndisturbed sys cs
      → IsBudgeted sys
      → IsBudgeted (run sys cs)
  unfolding run
  run-IsBudgeted sys [] small calm b = b
  run-IsBudgeted sys (c ∷ cs) small calm b =
      run-IsBudgeted (step sys c) cs (omega (arith, step-seq sys c)) calm.1
        (step-IsBudgeted sys c (omega arith) calm.0 b)

start-IsWithin : (most : Text → ℕ) (cfg : Config) → IsWithin most (new cfg)
unfolding new load
start-IsWithin most cfg = record {
  nonneg = tt;
  total = omega arith;
  of_class = λ c h. omega arith;
  number = λ name. omega arith;
}

start-IsBudgeted :
    (most : Text → ℕ) (cfg : Config)
    → All (IsCapped most cfg.total_vram_mb) cfg.profiles
    → IsBudgeted most cfg.total_vram_mb cfg.class_budget_mb (start cfg)
unfolding start
start-IsBudgeted most cfg sane = record {
  sound = start-IsSound cfg;
  within = start-IsWithin most cfg;
  asks = (tt, tt);
  same = unfold new in refl;
  same_budgets = unfold new in refl;
  groups = λ c. new-All (IsCapped most cfg.total_vram_mb) cfg c sane;
}

-- Let every profile of the configuration have a size that is not negative and leaves 64-bit sums in
-- range, and let `most` bound the number of containers under each profile name. Then after any steps
-- (fewer than 2^64) in any order, none of which is a failed removal by maintenance, the slots that
-- are not being removed fit the machine's memory, those of each class that has a budget fit it, and
-- there are no more under a profile name than `most` allows; and the machine's memory and the
-- budgets of the classes are those of the configuration.
pub budgets_kept :
    (most : Text → ℕ) (cfg : Config) (cs : List Choice)
    → All (IsCapped most cfg.total_vram_mb) cfg.profiles
    → length cs < 2 ^ 64
    → IsUndisturbed (start cfg) cs
    → IsWithin most (run (start cfg) cs).orchestrator
      × ((run (start cfg) cs).orchestrator.total_vram_mb ≡ cfg.total_vram_mb)
      × ((run (start cfg) cs).orchestrator.class_budget_mb ≡ cfg.class_budget_mb)
unfolding new start
budgets_kept most cfg cs sane small calm =
    let b =
      run-IsBudgeted most cfg.total_vram_mb cfg.class_budget_mb (start cfg) cs (omega arith) calm
        (start-IsBudgeted most cfg sane) in
    (b.within, b.same, b.same_budgets)
