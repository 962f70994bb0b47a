-- ===== src/Dispatcher/Tests.antt =====
-- Runs of the queues and of the hand-over, and the theorems at those.
use lm_server.Prelude.{
  ℕ, ◌≤◌, ◌≡◌, refl, codes, pos, List, [], ◌∷◌, ◌++◌, some, none, true, false, inl, arith,
}
use lm_server.Types.{low_latency, high_latency, Config, ContainerProfile, vllm}
use lm_server.Orchestrator.State.{Lease}
use lm_server.Dispatcher.Queue.{
  Op, submits, receives, submit, receive, new_dispatcher, start, run, step, worker_count, snapshot,
}
use lm_server.Dispatcher.Queue.Fifo.{queue_fifo}
use lm_server.Dispatcher.Job.{
  JobResult, JobEvent, process_job, job_step, job_run, queued_job, gave_up, processes, cancels,
  delivers, takes, discards, gives_up,
}
use lm_server.Prelude.{text_eq, Text, Option}
use lm_server.Classifier.Text.{has_prefix}
use lm_server.Classifier.Image.{GoLib, looks_like_encoded_image}
use lm_server.Classifier.Payload.{
  Value, string, inspect_request, extract_backend_hint, contains_encoded_image,
}
use lm_server.Dispatcher.Submit.{submit_request, drained, submit_request-drained}
use lm_server.Dispatcher.Queue.{queued, taken, refused, queue_full, channel, Dispatcher}
use lm_server.Dispatcher.Progress.{uncanceled_returns}
use lm_server.Dispatcher.Handover.{is_returned, lease_accounted, in_channel}
use lm_server.Dispatcher.Abandoned.{abandonment, abandoned_lease_stays}

abbrev cfg : Config
cfg = record {
  docker_host = [];
  total_vram_mb = pos 0;
  class_budget_mb = λ _. none;
  queue_capacity = λ _. some (pos 2);
  workers = λ _. none;
  scheduling_poll_interval = pos 0;
  maintenance_interval = pos 0;
  container_ready_interval = pos 0;
  profiles = [];
}

-- The third job does not fit; a worker then takes the first.
abbrev ops : List Op
ops =
    submits low_latency 1 false true false
    ∷ submits low_latency 2 false true false
    ∷ submits high_latency 7 false true false
    ∷ submits low_latency 3 false true false
    ∷ receives low_latency
    ∷ submits low_latency 4 false true false
    ∷ []

queue_fifo_example : (◌++◌ {A = ℕ} (1 ∷ []) (2 ∷ 4 ∷ []) ≡ 1 ∷ 2 ∷ 4 ∷ []) × (2 ≤ 2)
unfolding run step submit receive new_dispatcher
queue_fifo_example = queue_fifo cfg ops low_latency

one_worker : worker_count (new_dispatcher cfg) low_latency ≡ pos 1
unfolding worker_count new_dispatcher
one_worker = refl

pending_jobs :
    snapshot (run (start cfg) ops).dispatcher low_latency
    ≡ some (record { pending = 2; workers = pos 0; capacity = pos 2 })
unfolding snapshot run step submit receive new_dispatcher
pending_jobs = refl

abbrev profile : ContainerProfile
profile = record {
  name = codes "p";
  queue_class = low_latency;
  backend = vllm;
  image = [];
  command = [];
  env = [];
  container_port = [];
  target_path = [];
  health_path = [];
  vram_mb = pos 10;
  max_containers = pos 1;
  start_timeout = pos 0;
  idle_pause_after = pos 0;
  idle_destroy_after = pos 0;
}

abbrev lease : Lease
lease = record {
  slot_id = codes "slot-1";
  container_id = codes "c";
  target_url = [];
  profile = profile;
}

-- The order in which `Submit` gets the response.
abbrev answered : List JobEvent
answered = processes (inl lease) (inl 5) 30 ∷ delivers ∷ takes ∷ []

lease_accounted_example : ([] ++ [] ++ [] ++ lease ∷ [] ≡ lease ∷ []) × (1 ≤ 1)
unfolding job_run job_step process_job
lease_accounted_example = lease_accounted answered

abbrev answer : JobResult
answer = record { response = some 5; lease = some lease; err = none }

abandoned_lease_stays_example :
    let j = job_run queued_job (abandonment lease 5 30 ++ cancels ∷ takes ∷ discards ∷ []) in
    (in_channel j.result_ch ≡ lease ∷ [])
    × (j.submitter ≡ gave_up)
    × (j.releases ≡ [])
    × (j.closed ≡ [])
abandoned_lease_stays_example = abandoned_lease_stays lease 5 30 (cancels ∷ takes ∷ discards ∷ [])

-- The context is done and the worker sees it first: it releases the lease.
discarded_lease :
    (job_run queued_job
      (processes (inl lease) (inl 5) 30 ∷ cancels ∷ discards ∷ gives_up ∷ [])).releases
    ≡ record { lease = lease; err = none } ∷ []
unfolding job_run job_step process_job
discarded_lease = refl

uncanceled_returns_example :
    is_returned
      (job_run queued_job (
        (gives_up ∷ discards ∷ [])
        ++ processes (inl lease) (inl 5) 30 ∷ delivers ∷ takes ∷ [])).submitter
    ≡ true
uncanceled_returns_example =
    uncanceled_returns (gives_up ∷ discards ∷ []) (inl lease) (inl 5) 30 (refl, (refl, tt))

-- A body whose JSON is one string with an image in it.
abbrev go : GoLib
go = record { to_lower = λ t. t; trim_space = λ t. t; decode_base64 = λ t. none }

abbrev image_body : Text → Option Value
image_body t = some (string (codes "data:image/png;base64,AA"))

-- A job of the class waits.
abbrev one_waits : Dispatcher
one_waits = (submit (new_dispatcher cfg) high_latency 5 false true false).0

submit_request-drained_example :
    let r = submit_request go image_body one_waits [] 8 false true false in
    (r.1 ≡ queued) × (drained 2 r.0 high_latency ≡ 5 ∷ 8 ∷ [])
unfolding inspect_request extract_backend_hint contains_encoded_image looks_like_encoded_image
    has_prefix text_eq new_dispatcher submit submit_request
submit_request-drained_example =
    submit_request-drained go image_body one_waits [] high_latency 8 2 false true false
      (omega arith)

-- A channel without a buffer, while a worker waits at it and while none does.
abbrev unbuffered : Dispatcher
unbuffered = record {
  queues = λ c. some (channel (pos 0));
  workers = λ c. none;
  capacity = λ c. none;
}

unbuffered_taken : (submit unbuffered low_latency 8 false true true).1 ≡ taken
unfolding submit
unbuffered_taken = refl

unbuffered_full : (submit unbuffered low_latency 8 false true false).1 ≡ refused queue_full
unfolding submit
unbuffered_full = refl
