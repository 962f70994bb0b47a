-- ===== src/Config/Tests.antt =====
-- Environments, and the theorems at those.
use lm_server.Prelude.{
  add64, false, ◌≡◌, refl, pos, negsuc, Text, codes, text_eq, some, none, List, [], ◌∷◌, arith,
}
use lm_server.Types.{low_latency, unset}
use lm_server.System.{run, start, Choice, arrive, pick, lock, step, advance_at, arrived, advance}
use lm_server.Store.{put}
use lm_server.Orchestrator.Load.{load, vram}
use lm_server.Orchestrator.Plan.{plan_acquire, can_launch_locked}
use lm_server.Orchestrator.Select.{select_profile, new}
use lm_server.Orchestrator.SlotId.{decimal}
use lm_server.Config.Values.{Surroundings, env_string, env_int, itoa, env_int-itoa}
use lm_server.Config.Lists.{env_list}
use lm_server.Config.Fields.{env_fields}
use lm_server.Config.Default.{text_profile, image_profile, default_config}
use lm_server.Config.Default.Budgets.{Sizes, IsRead, Keeps, default_budgets}

abbrev empty : Surroundings
empty = record { getenv = λ key. []; parse_duration = λ t. none }

-- Every variable holds the same text.
abbrev holding : Text → Surroundings
holding t = record { getenv = λ key. t; parse_duration = λ t. none }

padded_int : env_int (holding (codes " +42\n")) [] (pos 7) ≡ pos 42
unfolding env_int text_eq
padded_int = refl

bad_int : env_int (holding (codes "4x")) [] (pos 7) ≡ pos 7
unfolding env_int text_eq
bad_int = refl

too_large : env_int (holding (codes "9223372036854775808")) [] (pos 7) ≡ pos 7
unfolding env_int text_eq
too_large = refl

messy_list : env_list (holding (codes " A=1 ,,B=2, ")) [] ≡ codes "A=1" ∷ codes "B=2" ∷ []
unfolding env_list text_eq
messy_list = refl

-- A no-break space counts as white space, in the UTF-8 of two bytes.
no_break_space : env_string (holding (0xc2 ∷ 0xa0 ∷ b'x' ∷ [])) [] [] ≡ codes "x"
unfolding env_string text_eq
no_break_space = refl

messy_fields :
    env_fields (holding (codes "  --port 80\t-v")) []
    ≡ codes "--port" ∷ codes "80" ∷ codes "-v" ∷ []
unfolding env_fields text_eq
messy_fields = refl

default_text_budget : (default_config empty).class_budget_mb low_latency ≡ some (pos 4096)
unfolding default_config text_eq
default_text_budget = refl

env_int-itoa_example : env_int (holding (codes "-17")) (codes "X") (pos 7) ≡ negsuc 16
unfolding itoa decimal
env_int-itoa_example =
    env_int-itoa (holding (codes "-17")) (codes "X") (negsuc 16) (pos 7) (omega arith) refl

-- A text request comes, and reserves a slot.
abbrev visit : List Choice
visit =
    arrive (record { queue_class = low_latency; backend_hint = unset; has_images = false })
    ∷ pick 0 (lock 5 6)
    ∷ []

abbrev default_sizes : Sizes
default_sizes = record {
  total = 10240;
  text = 3072;
  image = 6144;
  text_budget = 4096;
  image_budget = 6144;
  text_containers = 2;
  image_containers = 1;
}

default_sizes-IsRead : IsRead empty default_sizes
unfolding env_int text_eq
default_sizes-IsRead = record {
  total = refl;
  text = refl;
  image = refl;
  text_budget = refl;
  image_budget = refl;
  text_containers = refl;
  image_containers = refl;
  text_fits = omega arith;
  image_fits = omega arith;
  has_budgets = (omega arith, omega arith);
}

-- The run of the witness has a slot that weighs.
visit_weighs : load vram (run (start (default_config empty)) visit).orchestrator.slots ≡ 3072
unfolding run start default_config text_eq env_int step advance_at arrived advance plan_acquire
    select_profile new load put can_launch_locked text_profile image_profile add64
visit_weighs = refl

default_budgets_example :
    Keeps default_sizes (run (start (default_config empty)) visit).orchestrator.slots
unfolding run start default_config text_eq env_int step advance_at arrived advance select_profile
    new
default_budgets_example =
    default_budgets empty default_sizes visit default_sizes-IsRead (omega arith) (refl, (refl, tt))
