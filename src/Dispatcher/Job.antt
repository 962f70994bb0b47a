-- ===== src/Dispatcher/Job.antt =====
-- internal/orchestrator/dispatcher.go: `processJob`, and the hand-over of one job's result between
-- the worker and the second `select` of `Submit`.
use lm_server.Prelude.{
  ℕ, Text, codes, Bool, true, false, ◌||◌, List, [], ◌∷◌, ◌++◌, Option, none, some, if◌then◌else◌,
  ◌⊎◌, inl, inr,
}
use lm_server.Types.{QueueClass, low_latency, high_latency, Backend, unset, llama_cpp, vllm}
use lm_server.Orchestrator.State.{Lease, lease_backend, lease_class, lease_container_id, GoError}
use lm_server.Metrics.Recorder.{
  Call, set_classification, set_backend, set_container_id, set_error, mark_dispatched,
}

abbrev pub class_text : QueueClass → Text
class_text low_latency = codes "low_latency"
class_text high_latency = codes "high_latency"

abbrev pub backend_text : Backend → Text
backend_text unset = []
backend_text llama_cpp = codes "llama.cpp"
backend_text vllm = codes "vllm"

-- `jobResult`, with the fields of its `DispatchResult`. A response is the number it is known by, and
-- `none` is nil.
pub record JobResult : Type 0 where
  pub response : Option ℕ
  pub lease : Option Lease
  pub err : Option GoError

-- A call of `Release` on a lease.
pub record Release : Type 0 where
  pub lease : Lease
  pub err : Option GoError

-- What `processJob` returns, the leases that it releases, and its calls on the recorder where that
-- is not nil.
pub record Processed : Type 0 where
  pub result : JobResult
  pub releases : List Release
  pub calls : List Call

abbrev pub error_result : GoError → JobResult
error_result e = record { response = none; lease = none; err = some e }

-- The error that `processJob` releases a lease with: nil if the request was given up.
abbrev pub release_error : GoError → Option GoError
release_error e = if e.is_canceled || e.is_deadline_exceeded then none else some e

abbrev pub dispatch_calls : Lease → ℕ → List Call
dispatch_calls l now =
    mark_dispatched now
    ∷ set_classification (class_text (lease_class l))
    ∷ set_backend (backend_text (lease_backend l))
    ∷ set_container_id (lease_container_id l)
    ∷ []

-- `processJob`, at the answers of `Acquire` and `Forward` and the time between them.
unfoldable pub process_job : Lease ⊎ GoError → ℕ ⊎ GoError → ℕ → Processed
process_job (inr e) forwarded now = record {
  result = error_result e;
  releases = [];
  calls = set_error (some e.text) ∷ [];
}
process_job (inl l) (inr e) now = record {
  result = error_result e;
  releases = record { lease = l; err = release_error e } ∷ [];
  calls = dispatch_calls l now ++ set_error (some e.text) ∷ [];
}
process_job (inl l) (inl response) now = record {
  result = record { response = some response; lease = some l; err = none };
  releases = [];
  calls = dispatch_calls l now;
}

-- Where the worker is with the job: it has not taken it, it is in the `select` after `processJob`,
-- or it has gone on.
pub data Worker : Type 0 where
  pending : Worker
  delivering : JobResult → Worker
  finished : Worker

-- Where `Submit` is, after the job is queued: in its second `select`, or it has returned the result
-- or the context's error.
pub data Submitter : Type 0 where
  awaiting : Submitter
  returned : JobResult → Submitter
  gave_up : Submitter

-- `acquired`, `releases` and `closed` list the lease that the job got, the calls of `Release` that
-- were made here, and the responses whose bodies the worker has closed.
pub record Job : Type 0 where
  pub done : Bool
  pub worker : Worker
  pub result_ch : Option JobResult
  pub submitter : Submitter
  pub acquired : List Lease
  pub releases : List Release
  pub closed : List ℕ

abbrev pub queued_job : Job
queued_job = record {
  done = false;
  worker = pending;
  result_ch = none;
  submitter = awaiting;
  acquired = [];
  releases = [];
  closed = [];
}

pub data JobEvent : Type 0 where
  -- the request's context is done
  cancels : JobEvent
  -- a worker takes the job and runs `processJob`
  processes : Lease ⊎ GoError → ℕ ⊎ GoError → ℕ → JobEvent
  -- the worker's `select` takes the send, or the context
  delivers discards : JobEvent
  -- the `select` of `Submit` takes the result, or the context
  takes gives_up : JobEvent

abbrev pub lease_list : Lease ⊎ GoError → List Lease
lease_list (inl l) = l ∷ []
lease_list (inr e) = []

abbrev pub drop_lease : Option Lease → List Release
drop_lease none = []
drop_lease (some l) = record { lease = l; err = none } ∷ []

abbrev pub body_of : Option ℕ → List ℕ
body_of none = []
body_of (some response) = response ∷ []

abbrev pub processed : Job → Lease ⊎ GoError → ℕ ⊎ GoError → ℕ → Worker → Job
unfolding process_job
processed j a f now pending =
    let p = process_job a f now in
    record j {
      worker = delivering p.result;
      acquired = j.acquired ++ lease_list a;
      releases = j.releases ++ p.releases;
    }
processed j a f now _ = j

-- The channel holds one result, and a send waits while it is full.
abbrev pub delivered : Job → Worker → Option JobResult → Job
delivered j (delivering r) none = record j { worker = finished; result_ch = some r }
delivered j _ _ = j

abbrev pub discarded : Job → Worker → Bool → Job
discarded j (delivering r) true = record j {
  worker = finished;
  releases = j.releases ++ drop_lease r.lease;
  closed = j.closed ++ body_of r.response;
}
discarded j _ _ = j

abbrev pub received : Job → Submitter → Option JobResult → Job
received j awaiting (some r) = record j { submitter = returned r; result_ch = none }
received j _ _ = j

abbrev pub given_up : Job → Submitter → Bool → Job
given_up j awaiting true = record j { submitter = gave_up }
given_up j _ _ = j

-- One step. A case of a `select` that is not ready is not taken.
unfoldable pub job_step : Job → JobEvent → Job
job_step j cancels = record j { done = true }
job_step j (processes a f now) = processed j a f now j.worker
job_step j delivers = delivered j j.worker j.result_ch
job_step j discards = discarded j j.worker j.done
job_step j takes = received j j.submitter j.result_ch
job_step j gives_up = given_up j j.submitter j.done

unfoldable pub job_run : Job → List JobEvent → Job
job_run j [] = j
job_run j (e ∷ es) = job_run (job_step j e) es
