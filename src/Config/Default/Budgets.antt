-- ===== src/Config/Default/Budgets.antt =====
-- The configuration of the environment keeps the scheduler's budgets.
use lm_server.Prelude.{
  ℕ, ◌+◌, ◌^◌, ◌<◌, ◌≤◌, ◌≡◌, ◌∙◌, refl, ap, pos, pos_part, neg_part, Text, codes, text_eq, List,
  if◌then◌else◌, length, arith,
}
use lm_server.Types.{low_latency, high_latency}
use lm_server.Orchestrator.State.{Slots, Orchestrator}
use lm_server.Orchestrator.Plan.{budget_in, budget_of}
use lm_server.Orchestrator.Load.{load, vram, class_vram, one_of}
use lm_server.System.{Choice, run, start}
use lm_server.System.Budget.{IsWithin, IsCapped, IsUndisturbed}
use lm_server.System.Budget.Bounds.{budgets_kept}
use lm_server.Config.Values.{Surroundings, env_int}
use lm_server.Config.Default.{text_profile, image_profile, default_config}

-- Sizes in MiB, and the numbers of containers.
pub record Sizes : Type 0 where
  pub total : ℕ
  pub text : ℕ
  pub image : ℕ
  pub text_budget : ℕ
  pub image_budget : ℕ
  pub text_containers : ℕ
  pub image_containers : ℕ

-- The environment, with the defaults of `DefaultConfig`, holds these sizes; sums of them are in
-- range, and neither class goes without a budget.
pub record IsRead (env : Surroundings) (z : Sizes) : Type 0 where
  pub total : env_int env (codes "LMSERV_TOTAL_VRAM_MB") (pos 10240) ≡ pos z.total
  pub text : env_int env (codes "LMSERV_TEXT_VRAM_MB") (pos 3072) ≡ pos z.text
  pub image : env_int env (codes "LMSERV_IMAGE_VRAM_MB") (pos 6144) ≡ pos z.image
  pub text_budget : env_int env (codes "LMSERV_TEXT_CLASS_BUDGET_MB") (pos 4096) ≡ pos z.text_budget
  pub image_budget :
      env_int env (codes "LMSERV_IMAGE_CLASS_BUDGET_MB") (pos 6144) ≡ pos z.image_budget
  pub text_containers :
      env_int env (codes "LMSERV_TEXT_MAX_CONTAINERS") (pos 2) ≡ pos z.text_containers
  pub image_containers :
      env_int env (codes "LMSERV_IMAGE_MAX_CONTAINERS") (pos 1) ≡ pos z.image_containers
  pub text_fits : z.total + z.text < 2 ^ 63
  pub image_fits : z.total + z.image < 2 ^ 63
  pub has_budgets : (0 < z.text_budget) × (0 < z.image_budget)

-- The slots that are not being removed keep within the sizes.
pub record Keeps (z : Sizes) (m : Slots) : Type 0 where
  pub machine : load vram m ≤ z.total
  pub text_class : load (class_vram low_latency) m ≤ z.text_budget
  pub image_class : load (class_vram high_latency) m ≤ z.image_budget
  pub texts : load (one_of (codes "text-llama")) m ≤ z.text_containers
  pub images : load (one_of (codes "multimodal-vllm")) m ≤ z.image_containers

module _ (env : Surroundings) where
  -- The number of containers that the configuration allows under each name.
  abbrev allowed : Text → ℕ
  allowed name =
      if text_eq name (codes "text-llama")
      then pos_part (text_profile env).max_containers
      else pos_part (image_profile env).max_containers

  text-IsCapped :
      (total text : ℕ)
      → env_int env (codes "LMSERV_TEXT_VRAM_MB") (pos 3072) ≡ pos text
      → total + text < 2 ^ 63
      → IsCapped allowed (pos total) (text_profile env)
  unfolding text_profile text_eq
  text-IsCapped total text e h = (
    record { nonneg = ap neg_part e; total_nonneg = refl; in_range = omega (arith, ap pos_part e) },
    omega arith,
  )

  image-IsCapped :
      (total image : ℕ)
      → env_int env (codes "LMSERV_IMAGE_VRAM_MB") (pos 6144) ≡ pos image
      → total + image < 2 ^ 63
      → IsCapped allowed (pos total) (image_profile env)
  unfolding image_profile text_eq
  image-IsCapped total image e h = (
    record { nonneg = ap neg_part e; total_nonneg = refl; in_range = omega (arith, ap pos_part e) },
    omega arith,
  )

  -- The budgets that the orchestrator of the configuration keeps, as numbers.
  within-Keeps :
      (z : Sizes) (o : Orchestrator)
      → IsRead env z
      → o.total_vram_mb ≡ (default_config env).total_vram_mb
      → o.class_budget_mb ≡ (default_config env).class_budget_mb
      → IsWithin allowed o
      → Keeps z o.slots
  unfolding default_config text_profile image_profile text_eq
  within-Keeps z o r same_total same_budgets w =
      let low : budget_of o low_latency ≡ pos z.text_budget =
        ap (λ f. budget_in (f low_latency)) same_budgets ∙ r.text_budget in
      let high : budget_of o high_latency ≡ pos z.image_budget =
        ap (λ f. budget_in (f high_latency)) same_budgets ∙ r.image_budget in
      record {
        machine = omega (arith, w.total, ap pos_part (same_total ∙ r.total));
        text_class = omega (
          arith,
          w.of_class low_latency (omega (arith, ap pos_part low, r.has_budgets.0)),
          ap pos_part low,
        );
        image_class = omega (
          arith,
          w.of_class high_latency (omega (arith, ap pos_part high, r.has_budgets.1)),
          ap pos_part high,
        );
        texts = omega (arith, w.number (codes "text-llama"), ap pos_part r.text_containers);
        images = omega (arith, w.number (codes "multimodal-vllm"), ap pos_part r.image_containers);
      }

  -- Let the environment, with the defaults where it holds no number, give the memory of the machine
  -- and of a container of either profile, a budget above 0 for each class, and numbers of containers,
  -- none of them negative, and let the sums of memory be in range. Then after any steps (fewer than
  -- 2^64) in any order, none of which is a failed removal by maintenance, the slots that are not
  -- being removed fit `LMSERV_TOTAL_VRAM_MB`; those of the low-latency class fit
  -- `LMSERV_TEXT_CLASS_BUDGET_MB`, those of the high-latency class `LMSERV_IMAGE_CLASS_BUDGET_MB`;
  -- and there are no more of them than `LMSERV_TEXT_MAX_CONTAINERS` and
  -- `LMSERV_IMAGE_MAX_CONTAINERS` allow.
  pub default_budgets :
      (z : Sizes) (cs : List Choice)
      → IsRead env z
      → length cs < 2 ^ 64
      → IsUndisturbed (start (default_config env)) cs
      → Keeps z (run (start (default_config env)) cs).orchestrator.slots
  unfolding default_config
  default_budgets z cs r small calm =
      let (w, same_total, same_budgets) =
        budgets_kept allowed (default_config env) cs
          (rw r.total (
            text-IsCapped z.total z.text r.text r.text_fits,
            (image-IsCapped z.total z.image r.image r.image_fits, tt),
          ))
          small calm in
      within-Keeps z _ r same_total same_budgets w
