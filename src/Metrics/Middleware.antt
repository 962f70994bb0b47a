-- ===== src/Metrics/Middleware.antt =====
-- internal/metrics/middleware.go: `Middleware`; internal/metrics/recorder.go: `NewRequestID` and
-- `LogValues`.
use lm_server.Prelude.{
  minus, ap, ℕ, suc, ◌/◌, ◌≡◌, refl, ◌∙◌, ℤ, pos, negsuc, Text, codes, text_eq, List, [], ◌∷◌, ◌++◌,
  some, if◌then◌else◌,
}
use lm_server.Store.{lookup}
use lm_server.Orchestrator.SlotId.{decimal, pad6}
use lm_server.Metrics.Recorder.{
  Snapshot, Call, new_recorder, apply, apply_all, snapshot, set_status_code, mark_completed,
}
use lm_server.Metrics.Status.{
  StatusRecorder, Sent, Use, new_status_recorder, use_writer, response, status_of,
  use_writer-response,
}

-- `fmt.Sprintf("%d-%06d", nanoseconds, seq)`
unfoldable pub new_request_id : ℕ → ℕ → Text
unfolding decimal pad6
new_request_id nanoseconds seq = decimal nanoseconds ++ (codes "-" ++ pad6 (decimal seq))

-- A value of the log.
pub data LogValue : Type 0 where
  text : Text → LogValue
  number : ℤ → LogValue

-- `Duration.Milliseconds`: the quotient, towards zero.
unfoldable pub milliseconds : ℤ → ℤ
milliseconds (pos n) = pos (n / 1_000_000)
milliseconds (negsuc n) = minus (suc n / 1_000_000)

abbrev pub Log : Type 0
Log = List (Text × LogValue)

-- The values of `LogValues`, each with its key.
unfoldable pub log_values : Snapshot → Log
unfolding milliseconds
log_values s =
    (codes "queue_class", text s.queue_class)
    ∷ (codes "backend", text s.backend)
    ∷ (codes "container_id", text s.container_id)
    ∷ (codes "status_code", number (pos s.status_code))
    ∷ (codes "total_ms", number (milliseconds s.total_duration))
    ∷ (codes "queue_wait_ms", number (milliseconds s.queue_wait))
    ∷ (codes "ttft_ms", number (milliseconds s.ttft))
    ∷ (codes "generation_ms", number (milliseconds s.generation))
    ∷ (if text_eq s.error [] then [] else (codes "error", text s.error) ∷ [])

-- What the middleware reads of a request, and the times at which it looks at the clock. `fresh` is
-- the ID that `NewRequestID` would give.
pub record Arrival : Type 0 where
  pub id : Text
  pub fresh : Text
  pub verb : Text
  pub path : Text
  pub remote_addr : Text
  pub started : ℕ
  pub ended : ℕ
  pub logged : ℕ

-- What the handler behind the middleware does with the writer, and with the recorder.
pub record Behaviour : Type 0 where
  pub uses : List Use
  pub calls : List Call

-- What goes out: the X-Request-ID header that the handler gets the writer with, the response, and the line of the log.
pub record Served : Type 0 where
  pub request_id : Text
  pub sent : List Sent
  pub log : Log

unfoldable pub request_id_of : Arrival → Text
request_id_of a = if text_eq a.id [] then a.fresh else a.id

-- What is done once the handler has returned: it has left the writer `rec`, and has made `calls` on
-- the recorder.
unfoldable pub finish_request : Arrival → StatusRecorder → List Call → Served
unfolding request_id_of
finish_request a rec calls =
    let id = request_id_of a in
    let recorder = apply_all (new_recorder id a.started) calls in
    let done = apply (apply recorder (set_status_code rec.status_code)) (mark_completed a.ended) in
    record {
      request_id = id;
      sent = rec.sent;
      log =
          (codes "event", text (codes "http_request_completed"))
          ∷ (codes "request_id", text id)
          ∷ (codes "method", text a.verb)
          ∷ (codes "path", text a.path)
          ∷ (codes "remote_addr", text a.remote_addr)
          ∷ log_values (snapshot done a.logged);
    }

unfoldable pub middleware : Arrival → Behaviour → Served
unfolding finish_request
middleware a b = finish_request a (use_writer new_status_recorder b.uses) b.calls

-- The status that the log gets is the writer's, whatever the recorder heard before.
pub finish_request-log :
    (a : Arrival) (rec : StatusRecorder) (calls : List Call)
    → let log = (finish_request a rec calls).log in
      (lookup (codes "status_code") log ≡ some (number (pos rec.status_code)))
      × (lookup (codes "request_id") log ≡ some (text (request_id_of a)))
      × (lookup (codes "method") log ≡ some (text a.verb))
      × (lookup (codes "path") log ≡ some (text a.path))
unfolding finish_request apply snapshot log_values lookup text_eq
finish_request-log a rec calls = (refl, refl, refl, refl)

-- Whatever the handler does with the writer and the recorder, the response that goes out is the one
-- that the handler means to send, and the line of the log has the status of that response and the ID
-- that the middleware set as its X-Request-ID header: the client's own, unless that is missing or
-- empty.
pub middleware-log :
    (a : Arrival) (b : Behaviour)
    → let r = middleware a b in
      (r.sent ≡ response b.uses)
      × (lookup (codes "status_code") r.log ≡ some (number (pos (status_of b.uses))))
      × (lookup (codes "request_id") r.log ≡ some (text r.request_id))
      × (r.request_id ≡ (if text_eq a.id [] then a.fresh else a.id))
unfolding middleware finish_request
middleware-log a b =
    let (sent, status) = use_writer-response b.uses in
    let rec = use_writer new_status_recorder b.uses in
    let (logged, id, _, _) = finish_request-log a rec b.calls in
    (sent, logged ∙ ap (λ n. some (number (pos n))) status, id, refl)
