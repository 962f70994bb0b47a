-- ===== src/System/Tests/Overcommit.antt =====
-- A machine of 8192 MB that is overcommitted: a text container of 3072 MB is idle and is being removed,
-- an image container of 6144 MB is launched in its place, and then the removal fails.
use lm_server.Prelude.{◌<◌, ◌≡◌, refl, pos, codes, List, [], ◌∷◌, ◌++◌, some, none, true, arith}
use lm_server.Types.{high_latency, unset, RequestMeta, Config}
use lm_server.Orchestrator.State.{ready, removing, ContainerSlot}
use lm_server.Orchestrator.Load.{load, vram}
use lm_server.Orchestrator.Maintenance.{
  remove, MaintenanceAction, action_for, finish_remove, finish_action, collect_maintenance_actions,
}
use lm_server.Orchestrator.Plan.{first_slot}
use lm_server.Orchestrator.Slots.{release, mark_ready, is_fatal_slot_error}
use lm_server.System.{Choice, arrive, pick, lock, failed, released}
use lm_server.System.Safety.{reachable}
use lm_server.System.Budget.Overcommit.{failed_removal_overcommits}
use lm_server.System.Tests.{config, leased, leased_slot, docker_error, trial}

abbrev small : Config
small = record config { total_vram_mb = pos 8192 }

abbrev image_request : RequestMeta
image_request = record { queue_class = high_latency; backend_hint = unset; has_images = true }

abbrev crowding : List Choice
crowding =
    leased
    ++ (pick 0 (released none 12)
        ∷ pick 0 (lock 700_000_000_000 0)
        ∷ arrive image_request
        ∷ pick 0 (lock 700_000_000_001 700_000_000_002)
        ∷ [])

abbrev removal_of_text : MaintenanceAction
removal_of_text = record {
  kind = remove;
  slot_id = codes "slot-000001";
  container_id = codes "c1";
  previous = ready;
}

abbrev removing_text : ContainerSlot
removing_text = record leased_slot { state = removing; last_used_at = 12 }

overcommits_example :
    8192
    < load vram
        (finish_remove
          (reachable small crowding).orchestrator
          removal_of_text
          (some docker_error)).slots
unfolding trial release mark_ready is_fatal_slot_error action_for collect_maintenance_actions
    first_slot load
overcommits_example =
    failed_removal_overcommits (reachable small crowding).orchestrator removal_of_text docker_error
      removing_text refl refl refl (omega arith)

-- The step of the maintenance in which that happens.
reachable_overcommit :
    load vram (reachable small (crowding ++ pick 1 (failed docker_error) ∷ [])).orchestrator.slots
    ≡ 9216
unfolding trial release mark_ready is_fatal_slot_error action_for collect_maintenance_actions
    first_slot load finish_action
reachable_overcommit = refl
