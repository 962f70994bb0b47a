-- ===== src/Metrics/Tests.antt =====
-- Calls on a recorder and on a response writer, and the theorems at those.
use lm_server.Prelude.{◌≡◌, codes, List, [], ◌∷◌, pos}
use lm_server.Prelude.{refl, some, text_eq, negsuc}
use lm_server.Store.{lookup}
use lm_server.Metrics.Middleware.{
  Arrival, new_request_id, middleware, middleware-log, milliseconds, number, text,
}
use lm_server.Metrics.Recorder.{
  Call, mark_dispatched, mark_first_token, mark_completed, set_backend,
}
use lm_server.Metrics.Status.{Use, writes_header, writes, response}

abbrev calls : List Call
calls =
    mark_dispatched 120
    ∷ set_backend (codes "vllm")
    ∷ mark_first_token 150
    ∷ mark_dispatched 160
    ∷ mark_completed 300
    ∷ []

abbrev uses : List Use
uses = writes (codes "a") ∷ writes_header 500 ∷ writes (codes "b") ∷ []

abbrev arrival : Arrival
arrival = record {
  id = [];
  fresh = new_request_id 17 3;
  verb = codes "POST";
  path = codes "/v1/inference";
  remote_addr = codes "[::1]:9";
  started = 1_000_000;
  ended = 9_500_000;
  logged = 9_900_000;
}

middleware-log_example :
    let r = middleware arrival (record { uses = uses; calls = calls }) in
    (r.sent ≡ response uses)
    × (lookup (codes "status_code") r.log ≡ some (number (pos 200)))
    × (lookup (codes "request_id") r.log ≡ some (text r.request_id))
    × (r.request_id ≡ codes "17-000003")
unfolding new_request_id text_eq
middleware-log_example = middleware-log arrival (record { uses = uses; calls = calls })

-- The quotient of a negative duration is rounded towards zero.
truncated : milliseconds (negsuc 1_499_999) ≡ negsuc 0
unfolding milliseconds
truncated = refl
