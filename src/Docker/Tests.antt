-- ===== src/Docker/Tests.antt =====
-- Environments, and the theorems about them at those.
use lm_server.Prelude.{◌≡◌, refl, Text, codes, List, [], ◌∷◌, some, text_eq, if◌then◌else◌}
use lm_server.Prelude.{arith, inl, pos, none}
use lm_server.Types.{ContainerProfile, low_latency, vllm}
use lm_server.Docker.Client.{Client}
use lm_server.Docker.Launch.{
  launch_ephemeral_container, launched_at, no_binding, IsAccounted, launch-IsAccounted,
}
use lm_server.Store.{lookup, put}
use lm_server.Docker.Env.{
  merge_env, entries, put_all, merge_env-put_all, container_env, hsa_key, hsa_override,
  container_env-lookup, key_of,
}
use mathlib.Core.List.{flatten}

abbrev env : List Text
env = codes "A=1" ∷ codes "HSA_OVERRIDE_GFX_VERSION=9.0.0" ∷ codes "A=2" ∷ codes "FLAG" ∷ []

merge_env-put_all_example :
    entries (merge_env (env ∷ env ∷ [])) ≡ put_all [] (flatten (env ∷ env ∷ []))
merge_env-put_all_example = merge_env-put_all (env ∷ env ∷ [])

container_env-lookup_example :
    lookup hsa_key (entries (container_env env))
    ≡ (if text_eq hsa_key hsa_key then some hsa_override else lookup hsa_key (put_all [] env))
container_env-lookup_example = container_env-lookup env hsa_key

-- The later value of A stands at the place of the first.
container_env_runs : container_env env ≡ codes "A=2" ∷ hsa_override ∷ codes "FLAG" ∷ []
unfolding container_env merge_env lookup put text_eq key_of
container_env_runs = refl

-- A container whose start fails is removed again; the removal works.
abbrev failing : Client
failing = record {
  new_port = λ t. inl t;
  create = λ c h name. inl (codes "c9");
  start = λ id. some (no_binding id);
  inspect = λ id port. inl [];
  remove = λ id. none;
  pause = λ id. none;
  unpause = λ id. none;
}

abbrev working : Client
working = record failing { start = λ id. none; inspect = λ id port. inl (codes "32768" ∷ []) }

abbrev profile : ContainerProfile
profile = record {
  name = codes "p";
  queue_class = low_latency;
  backend = vllm;
  image = [];
  command = [];
  env = env;
  container_port = codes "8080";
  target_path = codes "/v1";
  health_path = codes "/health";
  vram_mb = pos 10;
  max_containers = pos 1;
  start_timeout = pos 0;
  idle_pause_after = pos 0;
  idle_destroy_after = pos 0;
}

launched_container : launch_ephemeral_container working (codes "c1" ∷ []) profile (codes "n") ≡ (
  codes "c9" ∷ codes "c1" ∷ [],
  inl (launched_at profile (codes "n") (codes "c9") (codes "32768")),
)
unfolding launch_ephemeral_container
launched_container = refl

launch-IsAccounted_example :
    IsAccounted failing
      (codes "c1" ∷ [])
      (launch_ephemeral_container failing (codes "c1" ∷ []) profile (codes "n"))
launch-IsAccounted_example =
    launch-IsAccounted failing (codes "c1" ∷ []) profile (codes "n")
      (λ c h id e. ((λ (x : codes "c1" ≡ id). ground arith), tt))
