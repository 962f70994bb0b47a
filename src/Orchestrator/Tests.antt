-- ===== src/Orchestrator/Tests.antt =====
-- Waits for a container and requests to one, and the theorems at those.
use lm_server.Prelude.{
  ◌≡◌, ◌≢◌, ◌≤◌, inl, refl, Text, codes, text_eq, false, ltb, [], ◌∷◌, none, if◌then◌else◌, arith,
}
use lm_server.Store.{lookup}
use lm_server.Orchestrator.Ready.{
  Health, waiting, ready, gave_up, begins, wait_until_ready, deadline_exceeded,
  wait_until_ready-ends, well_container-ready,
}
use lm_server.Dispatcher.Headers.{clone_headers, job_header-values_at}
use lm_server.Orchestrator.Forward.{request_header, content_type, is_hop_by_hop_header}
use lm_server.Api.Headers.{Header, values_at}
use lm_server.Api.Headers.Copy.{IsCanonical}

-- A container that takes 20 time units to come up and answers in 5.
abbrev slow : Health
slow = record {
  request = none;
  reply = λ now. record { header = 3; body = 2; status = if ltb now 20 then inl 503 else inl 200 };
  first = λ now. false;
}

abbrev url : Text
url = codes "http://127.0.0.1:32768/health"

in_time : (wait_until_ready slow 10 90 deadline_exceeded url 9 0).0 ≡ ready
unfolding wait_until_ready text_eq
in_time = refl

too_late : (wait_until_ready slow 10 12 deadline_exceeded url 9 0).0 ≡ gave_up deadline_exceeded
unfolding wait_until_ready text_eq
too_late = refl

wait_until_ready-ends_example :
    let r = wait_until_ready slow 10 12 deadline_exceeded url 14 0 in (r.0 ≢ waiting) × (r.1 ≤ 12)
wait_until_ready-ends_example =
    wait_until_ready-ends slow 10 12 deadline_exceeded url 13 0 (omega arith) (omega arith)

-- A container that answers after the context is done is not ready: the wait ends at the deadline.
abbrev hanging : Health
hanging = record {
  request = none;
  reply = λ now. record { header = 1000; body = 0; status = inl 200 };
  first = λ now. false;
}

cut_off : wait_until_ready hanging 10 12 deadline_exceeded url 9 0 ≡ (gave_up deadline_exceeded, 12)
unfolding wait_until_ready text_eq
cut_off = refl

well_container-ready_example : (wait_until_ready slow 10 90 deadline_exceeded url 9 0).0 ≡ ready
unfolding begins
well_container-ready_example =
    well_container-ready slow 10 90 deadline_exceeded url 9 0 2 refl (omega arith)
      (refl, omega arith, omega arith)

abbrev canonical : Text → Text
canonical t = t

abbrev client_header : Header
client_header =
    (codes "Te", codes "trailers" ∷ []) ∷ (codes "Accept", codes "a" ∷ codes "b" ∷ []) ∷ []

client_header-IsCanonical : IsCanonical canonical client_header
unfolding IsCanonical lookup text_eq
client_header-IsCanonical = ((refl, (refl, tt)), (refl, (refl, tt)))

job_header-values_at_example :
    values_at content_type (request_header canonical (clone_headers client_header))
    ≡ codes "application/json" ∷ []
unfolding lookup text_eq is_hop_by_hop_header
job_header-values_at_example =
    job_header-values_at canonical client_header content_type client_header-IsCanonical refl
