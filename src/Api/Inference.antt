-- ===== src/Api/Inference.antt =====
-- internal/api/server.go: `handleInference`, `writeError` and `writeJSON`.
pub mod Outcome
use lm_server.Prelude.{
  ℕ, Text, codes, text_eq, Bool, true, false, not, ◌||◌, leb, List, [], ◌∷◌, ◌++◌, Option, none,
  some, if◌then◌else◌, ◌⊎◌, inl, inr,
}
use lm_server.Orchestrator.State.{Lease, lease_backend, lease_container_id, GoError}
use lm_server.Metrics.Recorder.{Call, set_status_code, set_error, mark_completed}
use lm_server.Metrics.Status.{StatusRecorder, write, write_header}
use lm_server.Dispatcher.Job.{Release, backend_text}
use lm_server.Api.Headers.{Header, set_header, copy_response_headers}
use lm_server.Api.Stream.{Read, Result, streaming, returned, stream_response}

-- A request, by its method and what `io.ReadAll` of its limited body returns.
pub record Request : Type 0 where
  pub is_post : Bool
  pub body : Text ⊎ GoError

-- The response of a container, with the rounds of `streamResponse` that read it.
pub record Upstream : Type 0 where
  pub status_code : ℕ
  pub header : Header
  pub reads : List Read

-- What `Submit` returns; `refused` says whether the error is `ErrQueueFull`.
pub data Dispatched : Type 0 where
  refused : Bool → GoError → Dispatched
  dispatched : Lease → Upstream → Dispatched

-- What a call of the handler has done: the writer and the header of the response, the calls on the
-- recorder and of `Release`, and whether it has returned.
pub record Handled : Type 0 where
  pub writer : StatusRecorder
  pub header : Header
  pub calls : List Call
  pub released : List Release
  pub finished : Bool

abbrev pub is_context_cancellation : GoError → Bool
is_context_cancellation e = e.is_canceled || e.is_deadline_exceeded

abbrev pub plain_error : Text → GoError
plain_error t = record {
  text = t;
  is_unhealthy_upstream = false;
  is_canceled = false;
  is_deadline_exceeded = false;
  net_timeout = none;
}

abbrev pub err_unhealthy_upstream : GoError
err_unhealthy_upstream = record (plain_error (codes "upstream returned unhealthy response")) {
  is_unhealthy_upstream = true;
}

-- The error that the deferred function releases the lease with.
unfoldable pub release_err : Option GoError → ℕ → Option GoError
release_err (some e) status = if is_context_cancellation e then none else some e
release_err none status = if leb 500 status then some err_unhealthy_upstream else none

abbrev pub text_of : Option GoError → Option Text
text_of none = none
text_of (some e) = some e.text

-- `canonical` is `http.CanonicalHeaderKey`, and `encode` is `json.Encoder` on the map that holds an
-- error's text.
module _ (canonical : Text → Text) (encode : Text → Text) where
  -- `http.Error(w, http.StatusText(405), 405)`
  abbrev pub method_not_allowed : StatusRecorder → Header → Handled
  method_not_allowed w h = record {
    writer = write (write_header w 405) (codes "Method Not Allowed\n");
    header =
        set_header canonical (codes "X-Content-Type-Options") (codes "nosniff")
          (set_header canonical (codes "Content-Type") (codes "text/plain; charset=utf-8") h);
    calls = [];
    released = [];
    finished = true;
  }

  -- `writeJSON`, of what the encoder makes of the payload.
  abbrev pub write_json : StatusRecorder → Header → ℕ → Text → Handled
  write_json w h status encoded = record {
    writer = write (write_header w status) encoded;
    header = set_header canonical (codes "Content-Type") (codes "application/json") h;
    calls = [];
    released = [];
    finished = true;
  }

  unfoldable pub write_error : StatusRecorder → Header → ℕ → GoError → Handled
  write_error w h status e = record (write_json w h status (encode e.text)) {
    calls = set_status_code status ∷ set_error (some e.text) ∷ [];
  }

  abbrev pub response_header : Header → Header → Lease → Header
  response_header h upstream l =
      set_header canonical (codes "X-LMServ-Container") (lease_container_id l) (
        set_header canonical (codes "X-LMServ-Backend") (backend_text (lease_backend l))
          (copy_response_headers canonical h upstream))

  -- The return, with the deferred function.
  abbrev pub returning : Handled → Lease → ℕ → ℕ → Result → Handled
  returning r l status now streaming = r
  returning r l status now (returned err) = record r {
    calls = r.calls ++ mark_completed now ∷ set_error (text_of (release_err err status)) ∷ [];
    released = record { lease = l; err = release_err err status } ∷ [];
    finished = true;
  }

  -- The handler after `Submit` has given a response; `now` is the time at the end.
  unfoldable pub forward_response : StatusRecorder → Header → Lease → Upstream → ℕ → Handled
  forward_response w h l up now =
      let s = stream_response (write_header w up.status_code) up.reads in
      returning
        (record {
          writer = s.writer;
          header = response_header h up.header l;
          calls = set_status_code up.status_code ∷ s.calls;
          released = [];
          finished = false;
        })
        l up.status_code now s.result

  abbrev pub submit_failed : StatusRecorder → Header → Bool → GoError → Handled
  submit_failed w h is_queue_full e =
      if is_queue_full
      then write_error w h 429 e
      else if is_context_cancellation e
      then record { writer = w; header = h; calls = []; released = []; finished = true }
      else write_error w h 503 e

  abbrev pub after_submit : StatusRecorder → Header → Dispatched → ℕ → Handled
  after_submit w h (refused is_queue_full e) now = submit_failed w h is_queue_full e
  after_submit w h (dispatched l up) now = forward_response w h l up now

  abbrev pub after_read : StatusRecorder → Header → Text ⊎ GoError → Dispatched → ℕ → Handled
  after_read w h (inr e) d now = write_error w h 400 e
  after_read w h (inl body) d now =
      if text_eq body []
      then write_error w h 400 (plain_error (codes "empty request body"))
      else after_submit w h d now

  unfoldable pub handle_inference : StatusRecorder → Header → Request → Dispatched → ℕ → Handled
  unfolding write_error forward_response
  handle_inference w h req d now =
      if req.is_post then after_read w h req.body d now else method_not_allowed w h
