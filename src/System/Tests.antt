-- ===== src/System/Tests.antt =====
-- A machine with two profiles, runs over it, and the theorems at those runs.
mod Leases
mod Overcommit
mod Maintained
use lm_server.Prelude.{
  ◌<◌, ◌↔◌, add64, ℕ, pos, ◌≡◌, refl, Text, codes, List, [], ◌∷◌, ◌++◌, some, none, arith,
  get_elem?, true, false, if◌then◌else◌, text_eq,
}
use lm_server.Types.{
  low_latency, high_latency, unset, llama_cpp, vllm, same_class, ContainerProfile, RequestMeta,
  Config,
}
use lm_server.Store.{lookup, put, update}
use lm_server.Orchestrator.State.{Lease, new_lease_locked, ContainerSlot, busy, GoError}
use lm_server.Orchestrator.SlotId.{slot_id, next_seq}
use lm_server.Orchestrator.Select.{new, select_profile}
use lm_server.Orchestrator.Snapshot.{runtime_snapshot, container_snapshot, snapshot-usage}
use lm_server.Orchestrator.Plan.{first_slot, usage_from, budget_in, plan_acquire, can_launch_locked}
use lm_server.Orchestrator.Slots.{
  LaunchedContainer, begin_launch, finish_launch, release, is_fatal_slot_error,
}
use lm_server.System.{
  Task, acquiring, starting_up, serving, destroying, lock, answered, released, Choice, arrive, pick,
  step, run, start, System,
}
use lm_server.System.Claims.{total_claims, claims}
use lm_server.System.Leases.Runs.{HasSlot, lease_matches, docker_targets}
use lm_server.System.Progress.{can_serve, alone, acquire_served}
use lm_server.Orchestrator.State.{Orchestrator, removing, ready}
use lm_server.Orchestrator.Maintenance.{MaintenanceAction, remove, finish_remove}
use lm_server.Orchestrator.Load.{load, vram}
use lm_server.Orchestrator.Plan.Launch.{Fits, can_launch-Fits}
use lm_server.System.Budget.Overcommit.{failed_removal_overcommits}
use lm_server.System.Budget.{IsWithin}
use lm_server.System.Budget.Bounds.{budgets_kept}
use lm_server.System.Safety.{reachable, FindsSlot, lease_exclusive, owner_exists, reservation_kept}

abbrev pub text_profile : ContainerProfile
text_profile = record {
  name = codes "text-llama";
  queue_class = low_latency;
  backend = llama_cpp;
  image = codes "lmserv/llama-cpp-rocm:latest";
  command = [];
  env = [];
  container_port = codes "8080";
  target_path = codes "/v1/chat/completions";
  health_path = codes "/health";
  vram_mb = pos 3072;
  max_containers = pos 2;
  start_timeout = pos 90_000_000_000;
  idle_pause_after = pos 90_000_000_000;
  idle_destroy_after = pos 600_000_000_000;
}

abbrev pub image_profile : ContainerProfile
image_profile = record {
  name = codes "multimodal-vllm";
  queue_class = high_latency;
  backend = vllm;
  image = codes "lmserv/vllm-rocm:latest";
  command = [];
  env = [];
  container_port = codes "8000";
  target_path = codes "/v1/chat/completions";
  health_path = codes "/health";
  vram_mb = pos 6144;
  max_containers = pos 1;
  start_timeout = pos 120_000_000_000;
  idle_pause_after = pos 120_000_000_000;
  idle_destroy_after = pos 720_000_000_000;
}

abbrev pub config : Config
config = record {
  docker_host = [];
  total_vram_mb = pos 10240;
  class_budget_mb = λ c. if same_class c low_latency then some (pos 4096) else some (pos 6144);
  queue_capacity = λ c. if same_class c low_latency then some (pos 64) else some (pos 16);
  workers = λ c. if same_class c low_latency then some (pos 2) else some (pos 1);
  scheduling_poll_interval = pos 150_000_000;
  maintenance_interval = pos 20_000_000_000;
  container_ready_interval = pos 500_000_000;
  profiles = text_profile ∷ image_profile ∷ [];
}

abbrev text_request : RequestMeta
text_request = record { queue_class = low_latency; backend_hint = unset; has_images = false }

abbrev launched : LaunchedContainer
launched = record {
  container_id = codes "c1";
  target_url = codes "http://127.0.0.1:4000/v1/chat/completions";
  health_url = codes "http://127.0.0.1:4000/health";
}

-- A request that has reserved a slot, and that holds a lease in the end.
abbrev reserved : List Choice
reserved = arrive text_request ∷ pick 0 (lock 5 6) ∷ pick 0 (lock 7 7) ∷ []

abbrev leased : List Choice
leased =
    arrive text_request ∷ pick 0 (lock 5 6) ∷ pick 0 (lock 7 7) ∷ pick 0 (answered launched 9) ∷ []

abbrev lease : Lease
lease = record {
  slot_id = codes "slot-000001";
  container_id = codes "c1";
  target_url = codes "http://127.0.0.1:4000/v1/chat/completions";
  profile = text_profile;
}

-- A run of the machine, with all that a test computes through.
trial : List Choice → System
unfolding run step start new select_profile plan_acquire can_launch_locked add64 slot_id next_seq
    lookup put update begin_launch finish_launch new_lease_locked text_eq
trial cs = reachable config cs

leased_serving : get_elem? (reachable config leased).tasks 0 ≡ some (serving lease)
unfolding trial
leased_serving = refl

lease_exclusive_example : ◌≡◌ {A = ℕ} 0 0
lease_exclusive_example =
    lease_exclusive config leased (omega arith) 0 0 lease lease leased_serving leased_serving refl

abbrev leased_slot : ContainerSlot
leased_slot = record {
  slot_id = codes "slot-000001";
  container_id = codes "c1";
  name = codes "lmserv-text-llama-6";
  profile = text_profile;
  state = busy;
  target_url = codes "http://127.0.0.1:4000/v1/chat/completions";
  health_url = codes "http://127.0.0.1:4000/health";
  created_at = 5;
  last_used_at = 9;
}

slot_of_lease :
    lookup (codes "slot-000001") (reachable config leased).orchestrator.slots ≡ some leased_slot
unfolding trial
slot_of_lease = refl

owner_exists_example :
    (i : ℕ) × (t : Task) × (get_elem? (reachable config leased).tasks i ≡ some t)
    × (0 < claims t (codes "slot-000001") busy)
    × (total_claims (reachable config leased).tasks (codes "slot-000001") busy ≡ 1)
owner_exists_example =
    owner_exists config leased (omega arith) (codes "slot-000001") leased_slot slot_of_lease refl

reserved_launching :
    get_elem? (reachable config reserved).tasks 0
    ≡ some (starting_up text_profile (codes "slot-000001"))
unfolding trial
reserved_launching = refl

reservation_kept_example :
    FindsSlot
      (reachable config reserved).orchestrator
      (starting_up text_profile (codes "slot-000001"))
reservation_kept_example =
    reservation_kept config reserved (omega arith) 0
      (starting_up text_profile (codes "slot-000001")) reserved_launching

abbrev at_most : Text → ℕ
at_most name = 2

budgets_kept_example :
    IsWithin at_most (run (start config) leased).orchestrator
    × ((run (start config) leased).orchestrator.total_vram_mb ≡ config.total_vram_mb)
    × ((run (start config) leased).orchestrator.class_budget_mb ≡ config.class_budget_mb)
unfolding trial
budgets_kept_example =
    budgets_kept at_most config leased (omega arith) (omega arith)
      (refl, (refl, (refl, (refl, tt))))

-- A container that is being removed, and one that is busy.
abbrev busy_image : ContainerSlot
busy_image = record leased_slot { slot_id = codes "slot-000002"; profile = image_profile }

abbrev removing_text : ContainerSlot
removing_text = record leased_slot { state = removing }

abbrev crowded : Orchestrator
crowded = record {
  total_vram_mb = pos 8192;
  class_budget_mb = config.class_budget_mb;
  profiles_by_class = λ c. [];
  slots = (codes "slot-000001", removing_text) ∷ (codes "slot-000002", busy_image) ∷ [];
  slot_seq = 2;
}

abbrev docker_error : GoError
docker_error = record {
  text = codes "removal failed";
  is_unhealthy_upstream = false;
  is_canceled = false;
  is_deadline_exceeded = false;
  net_timeout = none;
}

can_launch-Fits_example :
    (can_launch_locked (new config) image_profile ≡ true) ↔ Fits (new config) image_profile
unfolding new load
can_launch-Fits_example = can_launch-Fits (new config) image_profile (omega arith) tt (omega arith)

slot_id_wide : slot_id 1234567 ≡ codes "slot-1234567"
unfolding slot_id
slot_id_wide = refl

snapshot-usage_example :
    let q = runtime_snapshot crowded in
    (q.used_vram_mb ≡ pos 6144)
    × (budget_in (q.class_usage_mb high_latency) ≡ pos 6144)
    × (q.containers ≡ container_snapshot busy_image ∷ [])
unfolding usage_from add64
snapshot-usage_example = snapshot-usage crowded high_latency
