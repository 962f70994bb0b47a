-- ===== src/Config/Default.antt =====
-- internal/orchestrator/config.go: `DefaultConfig`.
pub mod Budgets
use lm_server.Prelude.{ℕ, ◌*◌, ℤ, pos, Text, codes, List, [], ◌∷◌, Option, some}
use lm_server.Types.{
  low_latency, high_latency, llama_cpp, vllm, QueueClass, ContainerProfile, Config,
}
use lm_server.Config.Values.{Surroundings, env_string, env_int, env_duration}
use lm_server.Config.Lists.{env_list}
use lm_server.Config.Fields.{env_fields}

abbrev millisecond : ℕ
millisecond = 1_000_000

abbrev second : ℕ
second = 1000 * millisecond

abbrev minute : ℕ
minute = 60 * second

module _ (env : Surroundings) where
  abbrev by_class : ℤ → ℤ → QueueClass → Option ℤ
  by_class low high low_latency = some low
  by_class low high high_latency = some high

  unfoldable pub text_profile : ContainerProfile
  unfolding env_string env_int env_duration env_list env_fields
  text_profile = record {
    name = codes "text-llama";
    queue_class = low_latency;
    backend = llama_cpp;
    image = env_string env (codes "LMSERV_TEXT_IMAGE") (codes "lmserv/llama-cpp-rocm:latest");
    command = env_fields env (codes "LMSERV_TEXT_COMMAND");
    env = env_list env (codes "LMSERV_TEXT_ENV");
    container_port = env_string env (codes "LMSERV_TEXT_CONTAINER_PORT") (codes "8080");
    target_path = env_string env (codes "LMSERV_TEXT_TARGET_PATH") (codes "/v1/chat/completions");
    health_path = env_string env (codes "LMSERV_TEXT_HEALTH_PATH") (codes "/health");
    vram_mb = env_int env (codes "LMSERV_TEXT_VRAM_MB") (pos 3072);
    max_containers = env_int env (codes "LMSERV_TEXT_MAX_CONTAINERS") (pos 2);
    start_timeout = env_duration env (codes "LMSERV_TEXT_START_TIMEOUT") (pos (90 * second));
    idle_pause_after = env_duration env (codes "LMSERV_TEXT_IDLE_PAUSE_AFTER") (pos (90 * second));
    idle_destroy_after =
        env_duration env (codes "LMSERV_TEXT_IDLE_DESTROY_AFTER") (pos (10 * minute));
  }

  unfoldable pub image_profile : ContainerProfile
  unfolding env_string env_int env_duration env_list env_fields
  image_profile = record {
    name = codes "multimodal-vllm";
    queue_class = high_latency;
    backend = vllm;
    image = env_string env (codes "LMSERV_IMAGE_IMAGE") (codes "lmserv/vllm-rocm:latest");
    command = env_fields env (codes "LMSERV_IMAGE_COMMAND");
    env = env_list env (codes "LMSERV_IMAGE_ENV");
    container_port = env_string env (codes "LMSERV_IMAGE_CONTAINER_PORT") (codes "8000");
    target_path = env_string env (codes "LMSERV_IMAGE_TARGET_PATH") (codes "/v1/chat/completions");
    health_path = env_string env (codes "LMSERV_IMAGE_HEALTH_PATH") (codes "/health");
    vram_mb = env_int env (codes "LMSERV_IMAGE_VRAM_MB") (pos 6144);
    max_containers = env_int env (codes "LMSERV_IMAGE_MAX_CONTAINERS") (pos 1);
    start_timeout = env_duration env (codes "LMSERV_IMAGE_START_TIMEOUT") (pos (120 * second));
    idle_pause_after = env_duration env (codes "LMSERV_IMAGE_IDLE_PAUSE_AFTER") (pos (2 * minute));
    idle_destroy_after =
        env_duration env (codes "LMSERV_IMAGE_IDLE_DESTROY_AFTER") (pos (12 * minute));
  }

  unfoldable pub default_config : Config
  unfolding env_int env_duration text_profile image_profile
  default_config = record {
    docker_host = env.getenv (codes "DOCKER_HOST");
    total_vram_mb = env_int env (codes "LMSERV_TOTAL_VRAM_MB") (pos 10240);
    class_budget_mb =
        by_class (env_int env (codes "LMSERV_TEXT_CLASS_BUDGET_MB") (pos 4096))
          (env_int env (codes "LMSERV_IMAGE_CLASS_BUDGET_MB") (pos 6144));
    queue_capacity =
        by_class (env_int env (codes "LMSERV_TEXT_QUEUE_CAPACITY") (pos 64))
          (env_int env (codes "LMSERV_IMAGE_QUEUE_CAPACITY") (pos 16));
    workers =
        by_class (env_int env (codes "LMSERV_TEXT_WORKERS") (pos 2))
          (env_int env (codes "LMSERV_IMAGE_WORKERS") (pos 1));
    scheduling_poll_interval =
        env_duration env (codes "LMSERV_SCHEDULER_POLL_INTERVAL") (pos (150 * millisecond));
    maintenance_interval =
        env_duration env (codes "LMSERV_MAINTENANCE_INTERVAL") (pos (20 * second));
    container_ready_interval =
        env_duration env (codes "LMSERV_CONTAINER_READY_INTERVAL") (pos (500 * millisecond));
    profiles = text_profile ∷ image_profile ∷ [];
  }
