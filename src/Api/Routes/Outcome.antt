-- ===== src/Api/Routes/Outcome.antt =====
-- internal/api/server.go: the answer to each path and method, and what the log says of it.
use lm_server.Prelude.{
  ℕ, ◌≡◌, refl, ap, ◌∙◌, pos, Text, codes, text_eq, Bool, true, false, [], ◌∷◌, none, some,
  if◌then◌else◌, ◌⊎◌, inl, inr, Bool-cases, arith,
}
use lm_server.Store.{lookup}
use lm_server.Orchestrator.State.{GoError, Lease}
use lm_server.Metrics.Status.{
  StatusRecorder, header, body, new_status_recorder, write_header, write,
}
use lm_server.Metrics.Middleware.{
  Arrival, Served, number, text, request_id_of, finish_request, finish_request-log,
}
use lm_server.Api.Headers.{Header, set_header}
use lm_server.Api.Stream.{
  Result, streaming, returned, first_stop, stream_response, stream_response-bytes,
}
use lm_server.Api.Inference.{
  Request, Dispatched, refused, dispatched, Handled, handle_inference, forward_response,
  write_error, returning, after_submit, after_read,
}
use lm_server.Api.Inference.Outcome.{status_for, handle_inference-settled}
use lm_server.Api.Health.{HealthResponse, health_response, handle_health}
use lm_server.Api.Routes.{
  health_path, inference_path, patterns, Mux, IsExact, Meets, request_of, handler, handled, serve,
}

-- The specification: whether the stream of a response comes to an end.
abbrev pub is_returned : Result → Bool
is_returned streaming = false
is_returned (returned e) = true

abbrev pub submit_ends : Dispatched → Bool
submit_ends (refused is_queue_full e) = true
submit_ends (dispatched l up) = is_returned (first_stop up.reads)

abbrev pub body_ends : Text ⊎ GoError → Dispatched → Bool
body_ends (inr e) d = true
body_ends (inl bytes) d = if text_eq bytes [] then true else submit_ends d

abbrev pub inference_ends : Request → Dispatched → Bool
inference_ends req d = if req.is_post then body_ends req.body d else true

wrote : (w : StatusRecorder) (code : ℕ) → (write_header w code).wrote_header ≡ true
unfolding write_header
wrote w code = ground arith

module _ (canonical : Text → Text) (encode : Text → Text) (w : StatusRecorder) (h : Header)
    (now : ℕ) where
  returning-finished :
      (r : Handled) (l : Lease) (status : ℕ) (result : Result)
      → r.finished ≡ false
      → (returning canonical encode r l status now result).finished ≡ is_returned result
  returning-finished r l status streaming e = e
  returning-finished r l status (returned err) e = refl

  after_submit-finished :
      (d : Dispatched) → (after_submit canonical encode w h d now).finished ≡ submit_ends d
  unfolding write_error forward_response
  after_submit-finished (refused true e) = refl
  after_submit-finished (refused false e) = ground arith
  after_submit-finished (dispatched l up) =
      let w' = write_header w up.status_code in
      let s = stream_response w' up.reads in
      let (_, stop, _) = stream_response-bytes w' up.reads (wrote w up.status_code) in
      returning-finished _ l up.status_code s.result refl ∙ ap is_returned stop

  after_read-finished :
      (b : Text ⊎ GoError) (d : Dispatched)
      → (after_read canonical encode w h b d now).finished ≡ body_ends b d
  unfolding write_error
  after_read-finished (inr e) d = refl
  after_read-finished (inl bytes) d = elim (Bool-cases (text_eq bytes [])) [
    | inl y ↦ rw y refl
    | inr n ↦ rw n (after_submit-finished d)
  ]

  handle_inference-finished :
      (req : Request) (d : Dispatched)
      → (handle_inference canonical encode w h req d now).finished ≡ inference_ends req d
  unfolding handle_inference
  handle_inference-finished req d = elim (Bool-cases req.is_post) [
    | inl y ↦ rw y (after_read-finished req.body d)
    | inr n ↦ rw n refl
  ]

module _ (canonical : Text → Text) (encode : Text → Text) (encode_health : HealthResponse → Text)
    (mux : Mux) (exact : IsExact mux) (a : Arrival) (q : Meets) where
  -- The header that the handlers begin with.
  abbrev first_header : Header
  first_header = set_header canonical (codes "X-Request-ID") (request_id_of a) []

  -- What the mux answers to a path that has no pattern.
  abbrev pub own_answer : Handled
  own_answer = mux.own a.path new_status_recorder first_header

  -- The specification: the status by path and method, and whether the handler comes to its end.
  abbrev pub route_status : ℕ
  route_status =
      if text_eq a.path health_path
      then (if text_eq a.verb (codes "GET") then 200 else 405)
      else (if text_eq a.path inference_path
          then status_for (request_of a q) q.submitted
          else own_answer.writer.status_code)

  abbrev pub route_ends : Bool
  route_ends =
      if text_eq a.path health_path
      then true
      else (if text_eq a.path inference_path
          then inference_ends (request_of a q) q.submitted
          else own_answer.finished)

  abbrev IsRouted : Handled → Type 0
  IsRouted r = (r.writer.status_code ≡ route_status) × (r.finished ≡ route_ends)

  routed_health : text_eq a.path health_path ≡ true → mux.pattern_of patterns a.path ≡ some a.path
  routed_health e = exact.found a.path ∙ rw e refl

  health-IsRouted :
      text_eq a.path health_path ≡ true → IsRouted (handled canonical encode encode_health mux a q)
  unfolding handler handle_health new_status_recorder write_header write
  health-IsRouted e =
      rw (routed_health e, e)
        (elim (Bool-cases (text_eq a.verb (codes "GET"))) [
          | inl y ↦ rw y (refl, refl)
          | inr n ↦ rw n (refl, refl)
        ])

  inference-IsRouted :
      text_eq a.path health_path ≡ false
      → text_eq a.path inference_path ≡ true
      → IsRouted (handled canonical encode encode_health mux a q)
  unfolding handler
  inference-IsRouted n e =
      let routed : mux.pattern_of patterns a.path ≡ some a.path =
        exact.found a.path ∙ rw (n, e) refl in
      rw (routed, n, e)
        (
          (handle_inference-settled canonical encode first_header q.now (request_of a q)
              q.submitted).0,
          handle_inference-finished canonical encode new_status_recorder first_header q.now
              (request_of a q) q.submitted,
        )

  other-IsRouted :
      text_eq a.path health_path ≡ false
      → text_eq a.path inference_path ≡ false
      → IsRouted (handled canonical encode encode_health mux a q)
  unfolding handler
  other-IsRouted n n' =
      let routed : mux.pattern_of patterns a.path ≡ none = exact.found a.path ∙ rw (n, n') refl in
      rw (routed, n, n') (refl, refl)

  handled-IsRouted : IsRouted (handled canonical encode encode_health mux a q)
  handled-IsRouted = elim (Bool-cases (text_eq a.path health_path)) [
    | inl y ↦ health-IsRouted y
    | inr n ↦ elim (Bool-cases (text_eq a.path inference_path)) [
      | inl y ↦ inference-IsRouted n y
      | inr n' ↦ other-IsRouted n n'
    ]
  ]

  -- Where the mux takes a pattern for just that path: a request whose handler comes to its end, as it
  -- does unless a container's response never ends, is served, and the status in the line of the log is
  -- by path and method. /health gives 200 to a GET and 405 to other methods; /v1/inference gives the
  -- status of the first thing that is wrong (405, 400, 429, 503), 200 where the context is done, or the
  -- container's status; all other paths, the mux's own. The line has the request's path, method and ID.
  pub served_status :
      route_ends ≡ true
      → (s : Served) × (serve canonical encode encode_health mux a q ≡ some s)
        × (lookup (codes "status_code") s.log ≡ some (number (pos route_status)))
        × (lookup (codes "path") s.log ≡ some (text a.path))
        × (lookup (codes "method") s.log ≡ some (text a.verb))
        × (lookup (codes "request_id") s.log ≡ some (text (request_id_of a)))
  unfolding serve
  served_status ends =
      let r = handled canonical encode encode_health mux a q in
      let (status, finished) = handled-IsRouted in
      let (logged, id, verb, path) = finish_request-log a r.writer r.calls in
      (
        finish_request a r.writer r.calls,
        rw (finished ∙ ends) refl,
        logged ∙ ap (λ n. some (number (pos n))) status,
        path,
        verb,
        id,
      )

  -- A GET of /health is answered with 200 and the encoding of the two snapshots.
  health_served :
      text_eq a.path health_path ≡ true
      → text_eq a.verb (codes "GET") ≡ true
      → (s : Served) × (serve canonical encode encode_health mux a q ≡ some s)
        × (s.sent
            ≡ header 200
              ∷ body (encode_health (health_response q.dispatcher q.orchestrator q.now))
              ∷ [])
  unfolding serve handler handle_health new_status_recorder write_header write finish_request
  health_served e g =
      let r = handled canonical encode encode_health mux a q in
      (
        finish_request a r.writer r.calls,
        rw (routed_health e, e, g) refl,
        rw (routed_health e, e, g) refl,
      )
