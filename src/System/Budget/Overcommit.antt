-- ===== src/System/Budget/Overcommit.antt =====
-- What `finishRemove` does to the budgets when Docker fails to remove a container: the slot, which
-- was not counted while it was being removed, is counted again, and nothing is checked.
use lm_server.Prelude.{◌+◌, ◌<◌, ◌≡◌, pos_part, some, false, arith}
use lm_server.Store.{lookup}
use lm_server.Orchestrator.State.{removing, ContainerSlot, Orchestrator, GoError}
use lm_server.Orchestrator.Load.{Weight, load, load-update, vram}
use lm_server.Orchestrator.Maintenance.{MaintenanceAction, finish_remove}
use lm_server.System.Claims.{is_owned}

module _ (o : Orchestrator) (a : MaintenanceAction) (e : GoError) (s : ContainerSlot) where
  failed_removal-load :
      (g : Weight)
      → lookup a.slot_id o.slots ≡ some s
      → s.state ≡ removing
      → is_owned a.previous ≡ false
      → load g (finish_remove o a (some e)).slots ≡ load g o.slots + g s.profile
  unfolding finish_remove
  failed_removal-load g found gone free =
      rw (found, finish_remove)
        (ground
          (arith, load-update g a.slot_id (λ t. record t { state = a.previous }) s o.slots found))

  -- If a removal by maintenance fails while the memory of its slot has been given to others (the
  -- slots that count, and this one, do not fit the machine together), then the slots that count no
  -- longer fit the machine.
  pub failed_removal_overcommits :
      lookup a.slot_id o.slots ≡ some s
      → s.state ≡ removing
      → is_owned a.previous ≡ false
      → pos_part o.total_vram_mb < load vram o.slots + pos_part s.profile.vram_mb
      → pos_part o.total_vram_mb < load vram (finish_remove o a (some e)).slots
  failed_removal_overcommits found gone free full =
      omega (arith, failed_removal-load vram found gone free)
