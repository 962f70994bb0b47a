-- ===== src/Api/Health.antt =====
-- internal/api/server.go: `handleHealth`.
use lm_server.Prelude.{ℕ, Text, codes, Bool, Option, if◌then◌else◌}
use lm_server.Types.{QueueClass}
use lm_server.Orchestrator.State.{Orchestrator}
use lm_server.Orchestrator.Snapshot.{RuntimeSnapshot, runtime_snapshot}
use lm_server.Dispatcher.Queue.{Dispatcher, QueueSnapshot, snapshot}
use lm_server.Metrics.Status.{StatusRecorder}
use lm_server.Api.Headers.{Header}
use lm_server.Api.Inference.{Handled, method_not_allowed, write_json}

-- `healthResponse`; the time is in nanoseconds.
pub record HealthResponse : Type 0 where
  pub status : Text
  pub time : ℕ
  pub queues : QueueClass → Option QueueSnapshot
  pub orchestrator : RuntimeSnapshot

unfoldable pub health_response : Dispatcher → Orchestrator → ℕ → HealthResponse
unfolding snapshot runtime_snapshot
health_response d o now = record {
  status = codes "ok";
  time = now;
  queues = snapshot d;
  orchestrator = runtime_snapshot o;
}

-- `canonical` is `http.CanonicalHeaderKey`; `encode` and `encode_health` are `json.Encoder`, on the
-- map of an error's text and on the response.
module _ (canonical : Text → Text) (encode : Text → Text)
    (encode_health : HealthResponse → Text) where
  unfoldable pub handle_health :
      StatusRecorder → Header → Bool → Dispatcher → Orchestrator → ℕ → Handled
  unfolding health_response
  handle_health w h is_get d o now =
      if is_get
      then write_json canonical encode w h 200 (encode_health (health_response d o now))
      else method_not_allowed canonical encode w h
