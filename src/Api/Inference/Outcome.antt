-- ===== src/Api/Inference/Outcome.antt =====
-- internal/api/server.go: the status, the body and the release of every call of `handleInference`.
use lm_server.Prelude.{
  ℕ, ◌≡◌, refl, Text, text_eq, Bool, true, false, List, [], ◌∷◌, some, if◌then◌else◌, ◌⊎◌, inl, inr,
  Bool-cases, arith, codes, text_eq_refl,
}
use lm_server.Store.{lookup}
use lm_server.Store.Laws.{lookup-update}
use lm_server.Orchestrator.State.{Orchestrator, ContainerSlot, Lease, GoError, removing}
use lm_server.Orchestrator.Slots.{release, destroy_slot, is_fatal_slot_error}
use lm_server.Metrics.Recorder.{set_status_code}
use lm_server.Metrics.Status.{new_status_recorder, write_header, write}
use lm_server.Dispatcher.Handover.{released}
use lm_server.Api.Headers.{Header}
use lm_server.Api.Stream.{
  Read, ReadEnd, Result, streaming, returned, stream_response, stream_response-bytes,
}
use lm_server.Api.Inference.{
  Request, Upstream, Dispatched, refused, dispatched, Handled, is_context_cancellation, release_err,
  returning, forward_response, write_error, submit_failed, after_submit, after_read,
  handle_inference, response_header, plain_error,
}

-- The specification: the status of a request, by the first thing that is wrong with it. A request
-- whose context is done gets no answer, and counts with the status 200 that the writer begins with.
abbrev pub refusal_status : Bool → GoError → ℕ
refusal_status is_queue_full e =
    if is_queue_full then 429 else if is_context_cancellation e then 200 else 503

abbrev pub submit_status : Dispatched → ℕ
submit_status (refused is_queue_full e) = refusal_status is_queue_full e
submit_status (dispatched l up) = up.status_code

abbrev pub body_status : Text ⊎ GoError → Dispatched → ℕ
body_status (inr e) d = 400
body_status (inl body) d = if text_eq body [] then 400 else submit_status d

abbrev pub status_for : Request → Dispatched → ℕ
status_for req d = if req.is_post then body_status req.body d else 405

-- The leases that the request has got.
abbrev pub submit_leases : Dispatched → List Lease
submit_leases (refused is_queue_full e) = []
submit_leases (dispatched l up) = l ∷ []

abbrev pub body_leases : Text ⊎ GoError → Dispatched → List Lease
body_leases (inr e) d = []
body_leases (inl body) d = if text_eq body [] then [] else submit_leases d

abbrev pub leases_for : Request → Dispatched → List Lease
leases_for req d = if req.is_post then body_leases req.body d else []

abbrev IsSettled : Handled → ℕ → List Lease → Type 0
IsSettled r status leases =
    (r.writer.status_code ≡ status) × (released r.released ≡ (if r.finished then leases else []))

module _ (canonical : Text → Text) (encode : Text → Text) (h : Header) (now : ℕ) where
  returning-IsSettled :
      (r : Handled) (l : Lease) (status : ℕ) (result : Result)
      → r.writer.status_code ≡ status
      → r.released ≡ []
      → r.finished ≡ false
      → IsSettled (returning canonical encode r l status now result) status (l ∷ [])
  returning-IsSettled r l status streaming e e' f = ground arith
  returning-IsSettled r l status (returned err) e e' f = ground arith

  forward-IsSettled :
      (l : Lease) (up : Upstream)
      → IsSettled
          (forward_response canonical encode new_status_recorder h l up now)
          up.status_code
          (l ∷ [])
  unfolding forward_response write_header new_status_recorder
  forward-IsSettled l up =
      let w = write_header new_status_recorder up.status_code in
      let s = stream_response w up.reads in
      returning-IsSettled
        (record {
          writer = s.writer;
          header = response_header canonical encode h up.header l;
          calls = set_status_code up.status_code ∷ s.calls;
          released = [];
          finished = false;
        })
        l up.status_code s.result ((stream_response-bytes w up.reads refl).2) refl refl

  write_error-IsSettled :
      (status : ℕ) (e : GoError)
      → IsSettled (write_error canonical encode new_status_recorder h status e) status []
  unfolding write_error write write_header new_status_recorder
  write_error-IsSettled status e = (refl, refl)

  submit_failed-IsSettled :
      (is_queue_full : Bool) (e : GoError)
      → IsSettled
          (submit_failed canonical encode new_status_recorder h is_queue_full e)
          (refusal_status is_queue_full e)
          []
  unfolding new_status_recorder
  submit_failed-IsSettled true e = write_error-IsSettled 429 e
  submit_failed-IsSettled false e = elim (Bool-cases (is_context_cancellation e)) [
    | inl y ↦ rw y (refl, refl)
    | inr n ↦ rw n (write_error-IsSettled 503 e)
  ]

  after_submit-IsSettled :
      (d : Dispatched)
      → IsSettled
          (after_submit canonical encode new_status_recorder h d now)
          (submit_status d)
          (submit_leases d)
  after_submit-IsSettled (refused is_queue_full e) = submit_failed-IsSettled is_queue_full e
  after_submit-IsSettled (dispatched l up) = forward-IsSettled l up

  after_read-IsSettled :
      (body : Text ⊎ GoError) (d : Dispatched)
      → IsSettled
          (after_read canonical encode new_status_recorder h body d now)
          (body_status body d)
          (body_leases body d)
  after_read-IsSettled (inr e) d = write_error-IsSettled 400 e
  after_read-IsSettled (inl body) d = elim (Bool-cases (text_eq body [])) [
    | inl y ↦ rw y (write_error-IsSettled 400 (plain_error (codes "empty request body")))
    | inr n ↦ rw n (after_submit-IsSettled d)
  ]

  -- Whatever the request and whatever the queues and the container answer: the status that is
  -- recorded is that of the first thing that is wrong (405, 400, 429, 503), or the container's; and
  -- once the handler has returned, it has released the lease it got exactly once, and before that
  -- not at all.
  pub handle_inference-settled :
      (req : Request) (d : Dispatched)
      → let r = handle_inference canonical encode new_status_recorder h req d now in
        (r.writer.status_code ≡ status_for req d)
        × (released r.released ≡ (if r.finished then leases_for req d else []))
  unfolding handle_inference write write_header new_status_recorder
  handle_inference-settled req d = elim (Bool-cases req.is_post) [
    | inl y ↦ rw y (after_read-IsSettled req.body d)
    | inr n ↦ rw n (refl, refl)
  ]

  -- When the first write of a response to the client fails with a network error
  -- that is no timeout, as when the client has gone, and not the end of the context, the lease is
  -- released with that error: the slot goes into state removing, and its container is removed,
  -- whatever it answered.
  pub client_error_destroys :
      (l : Lease) (up : Upstream) (c : ℕ) (cs : Text) (at : ℕ) (end : ReadEnd) (rest : List Read)
      (e : GoError) (o : Orchestrator) (s : ContainerSlot)
      → up.reads ≡ record { chunk = c ∷ cs; at = at; end = end; write_error = some e } ∷ rest
      → is_context_cancellation e ≡ false
      → e.net_timeout ≡ some false
      → lookup l.slot_id o.slots ≡ some s
      → ((forward_response canonical encode new_status_recorder h l up now).released
          ≡ record { lease = l; err = some e } ∷ [])
        × ((release o l.slot_id (some e) now).1 ≡ some s.container_id)
        × (lookup l.slot_id (release o l.slot_id (some e) now).0.slots
            ≡ some (record s { state = removing }))
  unfolding forward_response stream_response release_err release destroy_slot is_fatal_slot_error
  client_error_destroys l up c cs at end rest e o s er ec et es = (
    rw (er, ec) refl,
    ground (arith),
    ground (
      arith,
      lookup-update l.slot_id l.slot_id (λ t. record t { state = removing }) o.slots,
      text_eq_refl l.slot_id,
    ),
  )
