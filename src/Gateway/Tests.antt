-- ===== src/Gateway/Tests.antt =====
-- A gateway over the machine of the other tests, and the theorems at runs of it.
use lm_server.Prelude.{
  ℕ, ◌+◌, ◌≤◌, ◌≡◌, refl, add64, codes, text_eq, true, false, if◌then◌else◌, get_elem?, List, [],
  ◌∷◌, some, arith,
}
use lm_server.Types.{low_latency, unset, RequestMeta}
use lm_server.Store.{lookup, put, update}
use lm_server.Orchestrator.State.{new_lease_locked}
use lm_server.Orchestrator.SlotId.{slot_id, next_seq}
use lm_server.Orchestrator.Select.{new, select_profile}
use lm_server.Orchestrator.Plan.{first_slot, plan_acquire, can_launch_locked}
use lm_server.Orchestrator.Slots.{LaunchedContainer, begin_launch, finish_launch}
use lm_server.Dispatcher.Queue.{new_dispatcher, worker_count, submit, receive}
use lm_server.System.{advance, starting_up, lock}
use lm_server.System.Tests.{config, text_profile}
use lm_server.Gateway.{working, Gateway, Move, starts, arrives, fetches, runs, moves, open_gateway}
use lm_server.Gateway.Counts.{at_work}
use lm_server.Gateway.Once.{queued_times, held_times, job_once}
use lm_server.Gateway.Staff.{configured_workers, workers_accounted}
use lm_server.Gateway.Lanes.Jobs.{Does, jobs_in_lane}
use lm_server.Gateway.Service.{IsServed, serves_next, queued_job-IsServed}

-- All jobs are for text.
abbrev requests : ℕ → RequestMeta
requests job = record { queue_class = low_latency; backend_hint = unset; has_images = false }

abbrev launched : LaunchedContainer
launched = record {
  container_id = codes "c1";
  target_url = codes "http://127.0.0.1:4000/v1/chat/completions";
  health_url = codes "http://127.0.0.1:4000/health";
}

-- Two requests wait, and the workers are idle.
abbrev two_wait : List Move
two_wait = arrives 7 false true false ∷ arrives 8 false true false ∷ starts ∷ []

-- A worker is at work on the first of them.
abbrev one_begun : List Move
one_begun =
    arrives 7 false true false
    ∷ arrives 8 false true false
    ∷ starts
    ∷ fetches low_latency
    ∷ runs 0 (lock 5 6)
    ∷ runs 0 (lock 7 7)
    ∷ []

play : List Move → Gateway
unfolding moves open_gateway new new_dispatcher worker_count submit receive select_profile
    plan_acquire can_launch_locked add64 slot_id next_seq lookup put update begin_launch
    finish_launch new_lease_locked text_eq first_slot advance
play ms = moves requests (open_gateway config) ms

one_working :
    get_elem? (moves requests (open_gateway config) one_begun).processes 0
    ≡ some (record {
      role = working low_latency 7;
      task = starting_up text_profile (codes "slot-000001");
    })
unfolding play
one_working = refl

workers_accounted_example :
    let g = moves requests (open_gateway config) one_begun in
    (g.idle low_latency + at_work low_latency g.processes + g.stopped low_latency
      ≡ (if g.started then configured_workers config low_latency else 0))
    × (at_work low_latency g.processes ≤ configured_workers config low_latency)
workers_accounted_example = workers_accounted requests config one_begun low_latency

jobs_in_lane_example :
    Does config
      (requests 7)
      (working low_latency 7)
      (starting_up text_profile (codes "slot-000001"))
unfolding text_eq
jobs_in_lane_example =
    jobs_in_lane requests config one_begun (refl, (refl, tt)) (omega arith) 0
      (record {
        role = working low_latency 7;
        task = starting_up text_profile (codes "slot-000001");
      })
      7 one_working refl

queued_job-IsServed_example :
    let g = moves requests (open_gateway config) two_wait in
    IsServed g
      (moves requests g (serves_next low_latency 5 6 launched 9))
      low_latency
      7
      (8 ∷ [])
      text_profile
unfolding play
queued_job-IsServed_example =
    queued_job-IsServed requests config two_wait (omega arith) low_latency 7 (8 ∷ []) text_profile 5
      6 launched 9 (omega arith) refl refl refl

-- One of the jobs waits, and a worker has the other.
job_once_example :
    let g = moves requests (open_gateway config) one_begun in
    queued_times 7 g.dispatcher + held_times 7 g.processes ≤ 1
job_once_example = job_once requests config one_begun 7
