-- ===== src/System/Tests/Maintained.antt =====
-- A slot that is idle, and what maintenance does to it.
use lm_server.Prelude.{◌++◌, ◌≡◌, refl, codes, [], ◌∷◌, some, none, inl, arith, List}
use lm_server.Store.{lookup}
use lm_server.Orchestrator.State.{ready, paused, ContainerSlot}
use lm_server.Orchestrator.Slots.{release, mark_ready, is_fatal_slot_error}
use lm_server.Orchestrator.Maintenance.{action_for}
use lm_server.Orchestrator.Cycle.{run_maintenance, LoopEvent, ticks, ends, maintenance_loop}
use lm_server.Docker.Client.{Client}
use lm_server.System.{Choice, released, pick}
use lm_server.System.Maintained.Loop.{maintenance_loop-slots}
use lm_server.System.Safety.{reachable, sound}
use lm_server.System.Tests.{config, leased, leased_slot, docker_error, trial}

-- The container can be paused, but not removed.
abbrev docker : Client
docker = record {
  new_port = λ t. inl t;
  create = λ c h name. inl (codes "c9");
  start = λ id. none;
  inspect = λ id port. inl [];
  remove = λ id. some docker_error;
  pause = λ id. none;
  unpause = λ id. none;
}

abbrev used : List Choice
used = leased ++ pick 0 (released none 12) ∷ []

abbrev idle_slot : ContainerSlot
idle_slot = record leased_slot { state = ready; last_used_at = 12 }

slot_idle : lookup (codes "slot-000001") (reachable config used).orchestrator.slots ≡ some idle_slot
unfolding trial release mark_ready is_fatal_slot_error
slot_idle = refl

-- The loop has ended before the second tick.
abbrev one_tick : List LoopEvent
one_tick = ticks 100_000_000_000 ∷ ends ∷ ticks 900_000_000_000 ∷ []

maintenance_loop-slots_example :
    lookup
      (codes "slot-000001")
      (maintenance_loop docker
        (reachable config used).orchestrator
        (codes "c1" ∷ [])
        one_tick).0.slots
    ≡ some (record idle_slot { state = paused })
unfolding trial release mark_ready is_fatal_slot_error
maintenance_loop-slots_example =
    maintenance_loop-slots docker (reachable config used).orchestrator (codes "c1" ∷ []) one_tick
      (codes "slot-000001") (sound config used (omega arith)).store

-- Behind the limit of destruction too the slot stays, since the removal fails.
removal_fails :
    lookup
      (codes "slot-000001")
      (run_maintenance docker
        (reachable config used).orchestrator
        (codes "c1" ∷ [])
        900_000_000_000).0.slots
    ≡ some idle_slot
unfolding trial release mark_ready is_fatal_slot_error run_maintenance action_for
removal_fails = refl
