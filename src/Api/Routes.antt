-- ===== src/Api/Routes.antt =====
-- internal/api/server.go: `NewServer`, from the request that the middleware gets to the line of its log.
pub mod Outcome
use lm_server.Prelude.{
  ℕ, ltb, length, ◌≡◌, refl, sym, ap, ◌∙◌, pos, Text, codes, text_eq, Bool, true, false, not, ◌&&◌,
  List, [], ◌∷◌, ◌++◌, Option, none, some, if◌then◌else◌, ◌⊎◌, inl, inr, Bool-cases, arith,
}
use lm_server.Store.{lookup}
use lm_server.Orchestrator.State.{Orchestrator, GoError}
use lm_server.Dispatcher.Queue.{Dispatcher}
use lm_server.Metrics.Recorder.{Call}
use lm_server.Metrics.Status.{StatusRecorder, new_status_recorder}
use lm_server.Metrics.Middleware.{
  Arrival, Served, LogValue, number, text, request_id_of, finish_request, finish_request-log,
}
use lm_server.Api.Headers.{Header, one_of, set_header}
use lm_server.Api.Stream.{
  Result, streaming, returned, first_stop, stream_response, stream_response-bytes,
}
use lm_server.Api.Inference.{
  Request, Dispatched, refused, dispatched, Handled, handle_inference, plain_error,
}
use lm_server.Api.Inference.Outcome.{status_for, handle_inference-settled}
use lm_server.Api.Health.{HealthResponse, health_response, handle_health}

abbrev pub health_path : Text
health_path = codes "/health"

abbrev pub inference_path : Text
inference_path = codes "/v1/inference"

-- The patterns that `NewServer` gives to `HandleFunc`.
abbrev pub patterns : List Text
patterns = health_path ∷ inference_path ∷ []

-- `http.ServeMux`: the pattern that it takes a path to, and what it answers by itself where it finds
-- none (404, or a redirect).
pub record Mux : Type 0 where
  pub pattern_of : List Text → Text → Option Text
  pub own : Text → StatusRecorder → Header → Handled

-- As documented, a pattern that does not end in a slash is for just that path.
pub record IsExact (mux : Mux) : Type 0 where
  pub found :
      (path : Text)
      → mux.pattern_of patterns path ≡ (if one_of path patterns then some path else none)

abbrev pub max_request_body_bytes : ℕ
max_request_body_bytes = 33_554_432

-- `io.ReadAll` of the body under `http.MaxBytesReader`: an error where the body is longer than the
-- limit, or where the connection gives one.
abbrev pub read_limited : Text → Option GoError → Text ⊎ GoError
read_limited bytes broken =
    if ltb max_request_body_bytes (length bytes)
    then inr (plain_error (codes "http: request body too large"))
    else elim broken [ none ↦ inl bytes | some e ↦ inr e ]

-- What a request meets on its way: its body, and the error of the connection that carries it, if
-- there is one; what `Submit` returns, the calls that
-- `Submit` and the worker make on its recorder, the dispatcher and the orchestrator that the health
-- check sees, and the time at the end.
pub record Meets : Type 0 where
  pub body : Text
  pub broken : Option GoError
  pub submitted : Dispatched
  pub submit_calls : List Call
  pub dispatcher : Dispatcher
  pub orchestrator : Orchestrator
  pub now : ℕ

abbrev pub request_of : Arrival → Meets → Request
request_of a q = record {
  is_post = text_eq a.verb (codes "POST");
  body = read_limited q.body q.broken;
}

abbrev pub has_body : Text ⊎ GoError → Bool
has_body (inl bytes) = not (text_eq bytes [])
has_body (inr e) = false

-- The calls on the recorder that come from `Submit`, where the handler gets to it.
abbrev pub submit_calls_of : Request → Meets → List Call
submit_calls_of req q = if req.is_post && has_body req.body then q.submit_calls else []

module _ (canonical : Text → Text) (encode : Text → Text) (encode_health : HealthResponse → Text)
    (mux : Mux) where
  -- The handler of a pattern.
  unfoldable pub handler : Option Text → Arrival → Meets → StatusRecorder → Header → Handled
  unfolding handle_health handle_inference
  handler none a q w h = mux.own a.path w h
  handler (some pattern) a q w h =
      if text_eq pattern health_path
      then handle_health canonical encode encode_health w h (text_eq a.verb (codes "GET"))
          q.dispatcher q.orchestrator q.now
      else (let req = request_of a q in
          let r = handle_inference canonical encode w h req q.submitted q.now in
          record r { calls = submit_calls_of req q ++ r.calls })

  abbrev pub handled : Arrival → Meets → Handled
  handled a q =
      handler (mux.pattern_of patterns a.path) a q new_status_recorder
        (set_header canonical (codes "X-Request-ID") (request_id_of a) [])

  -- The server's handler; `none` while the handler has not returned.
  unfoldable pub serve : Arrival → Meets → Option Served
  unfolding handler finish_request new_status_recorder request_id_of
  serve a q =
      let r = handled a q in if r.finished then some (finish_request a r.writer r.calls) else none
