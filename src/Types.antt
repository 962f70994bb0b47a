-- ===== src/Types.antt =====
-- internal/orchestrator/types.go: the data that the configuration and the requests are made of.
use lm_server.Prelude.{ℤ, Text, Bool, true, false, List, Option}

-- `QueueClass`, a string type with two constants.
pub data QueueClass : Type 0 where
  low_latency high_latency : QueueClass

-- `Backend`, a string type with two constants; `unset` is the empty string.
pub data Backend : Type 0 where
  unset llama_cpp vllm : Backend

abbrev pub same_class : QueueClass → QueueClass → Bool
same_class low_latency low_latency = true
same_class high_latency high_latency = true
same_class _ _ = false

abbrev pub same_backend : Backend → Backend → Bool
same_backend unset unset = true
same_backend llama_cpp llama_cpp = true
same_backend vllm vllm = true
same_backend _ _ = false

-- Durations are nanoseconds.
pub record ContainerProfile : Type 0 where
  pub name : Text
  pub queue_class : QueueClass
  pub backend : Backend
  pub image : Text
  pub command : List Text
  pub env : List Text
  pub container_port : Text
  pub target_path : Text
  pub health_path : Text
  pub vram_mb : ℤ
  pub max_containers : ℤ
  pub start_timeout : ℤ
  pub idle_pause_after : ℤ
  pub idle_destroy_after : ℤ

-- A map with few keys is a function; `none` is a key that the map does not hold.
pub record Config : Type 0 where
  pub docker_host : Text
  pub total_vram_mb : ℤ
  pub class_budget_mb : QueueClass → Option ℤ
  pub queue_capacity : QueueClass → Option ℤ
  pub workers : QueueClass → Option ℤ
  pub scheduling_poll_interval : ℤ
  pub maintenance_interval : ℤ
  pub container_ready_interval : ℤ
  pub profiles : List ContainerProfile

pub record RequestMeta : Type 0 where
  pub queue_class : QueueClass
  pub backend_hint : Backend
  pub has_images : Bool
