-- ===== src/System/Detail/Tests.antt =====
-- A launch and a resumption in full, and the theorems at those.
use lm_server.Prelude.{◌≡◌, refl, pos, codes, text_eq, true, [], ◌∷◌, some, none, inl, arith}
use lm_server.Store.{lookup}
use lm_server.Orchestrator.State.{SlotState, starting, resuming, ContainerSlot, Orchestrator}
use lm_server.Orchestrator.Slots.{begin_launch, begin_resume}
use lm_server.Orchestrator.Ready.{deadline_exceeded}
use lm_server.Orchestrator.Reserved.{World, launch_reserved_slot, resume_reserved_slot}
use lm_server.Docker.Client.{Client}
use lm_server.System.Detail.{
  IsEnding, Launches, Resumes, launch_reserved_slot-advance, resume_reserved_slot-advance,
}
use lm_server.System.Tests.{text_profile}

abbrev slot : SlotState → ContainerSlot
slot st = record {
  slot_id = codes "slot-000001";
  container_id = codes "c1";
  name = codes "lmserv-text-llama-6";
  profile = text_profile;
  state = st;
  target_url = codes "http://127.0.0.1:4000/v1/chat/completions";
  health_url = codes "http://127.0.0.1:4000/health";
  created_at = 5;
  last_used_at = 5;
}

abbrev machine : SlotState → Orchestrator
machine st = record {
  total_vram_mb = pos 8192;
  class_budget_mb = λ c. none;
  profiles_by_class = λ c. [];
  slots = (codes "slot-000001", slot st) ∷ [];
  slot_seq = 1;
}

abbrev docker : Client
docker = record {
  new_port = λ t. inl t;
  create = λ c h name. inl (codes "c9");
  start = λ id. none;
  inspect = λ id port. inl (codes "4000" ∷ []);
  remove = λ id. none;
  pause = λ id. none;
  unpause = λ id. none;
}

-- A container that answers 503 for good, to a wait of ten rounds.
abbrev world : World
world = record {
  docker = docker;
  health = λ url. record {
    request = none;
    reply = λ now. record { header = 1; body = 0; status = inl 503 };
    first = λ now. true;
  };
  interval = 2;
  over = 9;
  why = deadline_exceeded;
  fuel = 11;
  asked = 0;
  now = 20;
}

world-IsEnding : IsEnding world
world-IsEnding = record {
  rounds_left = 10;
  fuelled = refl;
  paced = omega arith;
  enough = omega arith;
}

launch_reserved_slot-advance_example :
    Launches docker (machine starting) text_profile (codes "slot-000001") (codes "c1" ∷ []) (
      launch_reserved_slot world
        (machine starting)
        (machine starting)
        (codes "c1" ∷ [])
        (codes "slot-000001"))
unfolding begin_launch lookup text_eq
launch_reserved_slot-advance_example =
    launch_reserved_slot-advance world world-IsEnding (machine starting) (machine starting)
      (codes "c1" ∷ []) text_profile (codes "slot-000001")
      (text_profile, codes "lmserv-text-llama-6") (slot starting) refl refl
      (λ c h name n e. ((λ (x : codes "c1" ≡ n). ground arith), tt))

-- The container never answers well, so it is removed again.
launch_given_up :
    (launch_reserved_slot world
      (machine starting)
      (machine starting)
      (codes "c1" ∷ [])
      (codes "slot-000001")).containers
    ≡ codes "c1" ∷ []
unfolding launch_reserved_slot lookup text_eq
launch_given_up = refl

resume_reserved_slot-advance_example :
    Resumes (machine resuming) text_profile (codes "slot-000001") (codes "c1" ∷ []) (
      resume_reserved_slot world
        (machine resuming)
        (machine resuming)
        (codes "c1" ∷ [])
        (codes "slot-000001"))
unfolding begin_resume lookup text_eq
resume_reserved_slot-advance_example =
    resume_reserved_slot-advance world world-IsEnding (machine resuming) (machine resuming)
      (codes "c1" ∷ []) text_profile (codes "slot-000001")
      (codes "c1", codes "http://127.0.0.1:4000/health") (slot resuming) refl refl

resume_given_up :
    (resume_reserved_slot world
      (machine resuming)
      (machine resuming)
      (codes "c1" ∷ [])
      (codes "slot-000001")).removal
    ≡ some (codes "c1")
unfolding resume_reserved_slot lookup text_eq
resume_given_up = refl
