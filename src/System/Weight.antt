-- ===== src/System/Weight.antt =====
-- Which steps add weight to the slots (Orchestrator/Load.antt): none but a launch, and a removal
-- that fails.
use lm_server.Prelude.{ℕ, ◌≤◌, ◌≡◌, refl, Text, [], ◌∷◌, some, arith, Option-cases, inl, inr}
use lm_server.Store.{lookup, update, delete}
use lm_server.Orchestrator.State.{removing, ContainerSlot, Slots, Orchestrator}
use lm_server.Orchestrator.Load.{Weight, weigh, load, load-update, load-delete}
use lm_server.Orchestrator.Plan.Launch.{AllNonneg}
use lm_server.Orchestrator.Slots.{destroy_slot}
use lm_server.Orchestrator.Maintenance.{
  action_for, collect_actions, collect_maintenance_actions, marked,
}

-- From o to o' no weight is added, and the configuration stays.
pub record Lightens (o o' : Orchestrator) : Type 0 where
  pub lighter : (g : Weight) → load g o'.slots ≤ load g o.slots
  pub nonneg : AllNonneg o.slots → AllNonneg o'.slots
  pub same_total : o'.total_vram_mb ≡ o.total_vram_mb
  pub same_budget : o'.class_budget_mb ≡ o.class_budget_mb
  pub same_profiles : o'.profiles_by_class ≡ o.profiles_by_class

update-AllNonneg :
    (k : Text) (f : ContainerSlot → ContainerSlot) (m : Slots)
    → ((s : ContainerSlot) → (f s).profile ≡ s.profile)
    → AllNonneg m
    → AllNonneg (update k f m)
unfolding update
update-AllNonneg k f [] same h = tt
update-AllNonneg k f ((j, t) ∷ m) same h = ground (arith, same t, update-AllNonneg k f m same h.1)

delete-AllNonneg : (k : Text) (m : Slots) → AllNonneg m → AllNonneg (delete k m)
unfolding delete
delete-AllNonneg k [] h = tt
delete-AllNonneg k ((j, t) ∷ m) h = ground (arith, delete-AllNonneg k m h.1)

module _ (o : Orchestrator) (id : Text) where
  pub write-Lightens :
      (s : ContainerSlot) (f : ContainerSlot → ContainerSlot)
      → lookup id o.slots ≡ some s
      → ((t : ContainerSlot) → (f t).profile ≡ t.profile)
      → ((g : Weight) → weigh g (f s) ≤ weigh g s)
      → Lightens o (record o { slots = update id f o.slots })
  write-Lightens s f found same lighter = record {
    lighter = λ g. omega (arith, load-update g id f s o.slots found, lighter g);
    nonneg = update-AllNonneg id f o.slots same;
    same_total = refl;
    same_budget = refl;
    same_profiles = refl;
  }

  pub delete-Lightens : Lightens o (record o { slots = delete id o.slots })
  delete-Lightens = record {
    lighter = λ g. load-delete g id o.slots;
    nonneg = delete-AllNonneg id o.slots;
    same_total = refl;
    same_budget = refl;
    same_profiles = refl;
  }

pub stay-Lightens : (o : Orchestrator) → Lightens o o
stay-Lightens o = record {
  lighter = λ g. omega arith;
  nonneg = λ h. h;
  same_total = refl;
  same_budget = refl;
  same_profiles = refl;
}

sweep-weigh :
    (g : Weight) (now : ℕ) (s : ContainerSlot) → weigh g (marked (action_for now s) s) ≤ weigh g s
unfolding action_for
sweep-weigh g now s = ground arith

collect-load : (g : Weight) (now : ℕ) (m : Slots) → load g (collect_actions now m).0 ≤ load g m
unfolding collect_actions load
collect-load g now [] = omega arith
collect-load g now ((k, s) ∷ m) = omega (arith, sweep-weigh g now s, collect-load g now m)

collect-AllNonneg : (now : ℕ) (m : Slots) → AllNonneg m → AllNonneg (collect_actions now m).0
unfolding collect_actions
collect-AllNonneg now [] h = tt
collect-AllNonneg now ((k, s) ∷ m) h = (ground arith, collect-AllNonneg now m h.1)

pub collect-Lightens :
    (o : Orchestrator) (now : ℕ) → Lightens o (collect_maintenance_actions o now).0
unfolding collect_maintenance_actions
collect-Lightens o now = record {
  lighter = λ g. collect-load g now o.slots;
  nonneg = collect-AllNonneg now o.slots;
  same_total = refl;
  same_budget = refl;
  same_profiles = refl;
}

pub destroy-Lightens : (o : Orchestrator) (id : Text) → Lightens o (destroy_slot o id).0
unfolding destroy_slot
destroy-Lightens o id = elim (Option-cases (lookup id o.slots)) [
  | inl e ↦ rw (e, destroy_slot) (stay-Lightens o)
  | inr (s, e) ↦
      rw (e, destroy_slot)
        (write-Lightens o id s (λ t. record t { state = removing }) e (λ t. refl)
          (λ g. omega arith))
]
