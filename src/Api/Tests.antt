-- ===== src/Api/Tests.antt =====
-- Calls of the handler, and the theorems at those.
use lm_server.Prelude.{
  ◌≡◌, refl, pos, if◌then◌else◌, Text, codes, text_eq, true, false, List, [], ◌∷◌, none, some, inl,
}
use lm_server.Types.{ContainerProfile, low_latency, vllm}
use lm_server.Store.{lookup}
use lm_server.Orchestrator.State.{Orchestrator, ContainerSlot, Lease, GoError, busy, removing}
use lm_server.Orchestrator.Slots.{release}
use lm_server.Metrics.Status.{new_status_recorder, write_header}
use lm_server.Dispatcher.Handover.{released}
use lm_server.Api.Headers.{Header}
use lm_server.Api.Headers.Copy.{IsCanonical}
use lm_server.Api.Stream.{
  Read, more, eof, returned, stream_response, bytes_sent, stream_response-bytes,
}
use lm_server.Api.Inference.{
  Request, Upstream, dispatched, refused, forward_response, handle_inference, plain_error,
}
use lm_server.Api.Inference.Outcome.{handle_inference-settled, client_error_destroys}
use lm_server.Dispatcher.Queue.{Dispatcher}
use lm_server.Metrics.Middleware.{Arrival, Served, number, text, request_id_of}
use lm_server.Api.Headers.{one_of}
use lm_server.Api.Inference.{write_json}
use lm_server.Api.Health.{HealthResponse}
use lm_server.Api.Routes.{Mux, IsExact, Meets, serve}
use lm_server.Api.Routes.Outcome.{served_status}

-- Keys that are canonical as they stand.
abbrev canonical : Text → Text
canonical t = t

abbrev upstream_header : Header
upstream_header =
    (codes "Connection", codes "close" ∷ [])
    ∷ (codes "Vary", codes "Accept" ∷ codes "Origin" ∷ [])
    ∷ []

upstream_header-IsCanonical : IsCanonical canonical upstream_header
unfolding IsCanonical lookup text_eq
upstream_header-IsCanonical = ((refl, (refl, tt)), (refl, (refl, tt)))

abbrev tokens : List Read
tokens =
    record { chunk = codes "to"; at = 5; end = more; write_error = none }
    ∷ record { chunk = []; at = 6; end = more; write_error = none }
    ∷ record { chunk = codes "ken"; at = 7; end = eof; write_error = none }
    ∷ []

stream_response-bytes_example :
    let s = stream_response (write_header new_status_recorder 206) tokens in
    (bytes_sent s.writer.sent ≡ codes "token")
    × (s.result ≡ returned none)
    × (s.writer.status_code ≡ 206)
unfolding write_header new_status_recorder
stream_response-bytes_example =
    stream_response-bytes (write_header new_status_recorder 206) tokens refl

abbrev profile : ContainerProfile
profile = record {
  name = codes "p";
  queue_class = low_latency;
  backend = vllm;
  image = [];
  command = [];
  env = [];
  container_port = [];
  target_path = [];
  health_path = [];
  vram_mb = pos 10;
  max_containers = pos 1;
  start_timeout = pos 0;
  idle_pause_after = pos 0;
  idle_destroy_after = pos 0;
}

abbrev slot : ContainerSlot
slot = record {
  slot_id = codes "s";
  container_id = codes "c";
  name = codes "n";
  profile = profile;
  state = busy;
  target_url = [];
  health_url = [];
  created_at = 1;
  last_used_at = 2;
}

abbrev lease : Lease
lease = record { slot_id = codes "s"; container_id = codes "c"; target_url = []; profile = profile }

abbrev request : Request
request = record { is_post = true; body = inl (codes "{}") }

abbrev up : Upstream
up = record { status_code = 206; header = upstream_header; reads = tokens }

handle_inference-settled_example :
    let r =
      handle_inference canonical canonical new_status_recorder [] request (dispatched lease up) 9 in
    (r.writer.status_code ≡ 206) × (released r.released ≡ lease ∷ [])
unfolding handle_inference forward_response stream_response text_eq
handle_inference-settled_example =
    handle_inference-settled canonical canonical [] 9 request (dispatched lease up)

-- The queue is full.
rejected :
    (handle_inference canonical canonical new_status_recorder [] request
      (refused true (plain_error (codes "full")))
      9).writer.status_code
    ≡ 429
unfolding text_eq
rejected =
    (handle_inference-settled canonical canonical [] 9 request
      (refused true (plain_error (codes "full")))).0

abbrev broken_pipe : GoError
broken_pipe = record (plain_error (codes "broken pipe")) { net_timeout = some false }

abbrev one_slot : Orchestrator
one_slot = record {
  total_vram_mb = pos 100;
  class_budget_mb = λ _. none;
  profiles_by_class = λ _. profile ∷ [];
  slots = (codes "s", slot) ∷ [];
  slot_seq = 1;
}

abbrev cut_off : Upstream
cut_off = record up {
  reads = record { chunk = codes "to"; at = 5; end = more; write_error = some broken_pipe } ∷ [];
}

client_error_destroys_example :
    ((forward_response canonical canonical new_status_recorder [] lease cut_off 9).released
      ≡ record { lease = lease; err = some broken_pipe } ∷ [])
    × ((release one_slot (codes "s") (some broken_pipe) 9).1 ≡ some (codes "c"))
    × (lookup (codes "s") (release one_slot (codes "s") (some broken_pipe) 9).0.slots
        ≡ some (record slot { state = removing }))
unfolding lookup text_eq
client_error_destroys_example =
    client_error_destroys canonical canonical [] 9 lease cut_off b't' (codes "o") 5 more []
      broken_pipe one_slot slot refl refl refl refl

-- The mux takes the two patterns for their own paths, and answers 404 otherwise.
abbrev mux : Mux
mux = record {
  pattern_of = λ ps path. if one_of path ps then some path else none;
  own = λ path w h. write_json canonical canonical w h 404 (codes "404 page not found\n");
}

mux-IsExact : IsExact mux
mux-IsExact = record { found = λ path. refl }

abbrev arrival : Arrival
arrival = record {
  id = codes "r1";
  fresh = codes "17-000003";
  verb = codes "POST";
  path = codes "/v1/inference";
  remote_addr = codes "[::1]:9";
  started = 1;
  ended = 9;
  logged = 9;
}

abbrev no_queues : Dispatcher
no_queues = record { queues = λ c. none; workers = λ c. none; capacity = λ c. none }

abbrev meets : Meets
meets = record {
  body = codes "{}";
  broken = none;
  submitted = dispatched lease up;
  submit_calls = [];
  dispatcher = no_queues;
  orchestrator = one_slot;
  now = 9;
}

abbrev encode_health : HealthResponse → Text
encode_health r = r.status

served_status_example :
    (s : Served) × (serve canonical canonical encode_health mux arrival meets ≡ some s)
    × (lookup (codes "status_code") s.log ≡ some (number (pos 206)))
    × (lookup (codes "path") s.log ≡ some (text (codes "/v1/inference")))
    × (lookup (codes "method") s.log ≡ some (text (codes "POST")))
    × (lookup (codes "request_id") s.log ≡ some (text (codes "r1")))
unfolding text_eq request_id_of
served_status_example =
    served_status canonical canonical encode_health mux mux-IsExact arrival meets refl
