-- ===== src/System/Tests/Leases.antt =====
-- What requests and removals know of their slots, at a run, and a request that gets its lease.
use lm_server.Prelude.{◌≡◌, refl, codes, List, [], ◌∷◌, ◌++◌, some, arith, get_elem?, true}
use lm_server.Store.{lookup}
use lm_server.Orchestrator.State.{Lease, new_lease_locked, ContainerSlot, busy, GoError}
use lm_server.Orchestrator.Plan.{first_slot}
use lm_server.Orchestrator.Slots.{release, is_fatal_slot_error}
use lm_server.System.{acquiring, serving, destroying, released, Choice, arrive, pick, run}
use lm_server.System.Leases.Runs.{HasSlot, lease_matches, docker_targets}
use lm_server.System.Progress.{can_serve, alone, acquire_served}
use lm_server.Orchestrator.State.{removing}
use lm_server.System.Safety.{reachable}
use lm_server.System.Tests.{
  config, text_profile, text_request, launched, leased, lease, leased_serving, docker_error, trial,
}

lease_matches_example :
    (s : ContainerSlot) × (lookup lease.slot_id (reachable config leased).orchestrator.slots
      ≡ some s)
    × (s.state ≡ busy)
    × (new_lease_locked s ≡ lease)
lease_matches_example = lease_matches config leased (omega arith) 0 lease leased_serving

-- The request tells the orchestrator that its container is not well.
abbrev unhealthy : GoError
unhealthy = record docker_error { is_unhealthy_upstream = true }

abbrev rejected : List Choice
rejected = leased ++ pick 0 (released (some unhealthy) 12) ∷ []

removal_running :
    get_elem? (reachable config rejected).tasks 0
    ≡ some (destroying (codes "slot-000001") (codes "c1"))
unfolding trial release is_fatal_slot_error
removal_running = refl

docker_targets_example :
    HasSlot (reachable config rejected).orchestrator (codes "slot-000001") removing (codes "c1")
docker_targets_example =
    docker_targets config rejected (omega arith) 0 (destroying (codes "slot-000001") (codes "c1"))
      removal_running

arrived_request :
    (get_elem? (reachable config (arrive text_request ∷ [])).tasks 0
      ≡ some (acquiring text_profile))
    × (can_serve (reachable config (arrive text_request ∷ [])).orchestrator text_profile ≡ true)
unfolding trial first_slot
arrived_request = (refl, refl)

acquire_served_example :
    (l : Lease) × (get_elem?
        (run (reachable config (arrive text_request ∷ [])) (alone 0 5 6 launched 9)).tasks
        0
      ≡ some (serving l))
    × (l.profile.name ≡ codes "text-llama")
acquire_served_example =
    acquire_served config (arrive text_request ∷ []) (omega arith) 0 text_profile 5 6 launched 9
      arrived_request.0 arrived_request.1
