-- ===== src/Gateway.antt =====
-- The dispatcher's queues and workers over the orchestrator that they share
-- (internal/orchestrator/dispatcher.go, internal/orchestrator/orchestrator.go): requests that wait in
-- a queue, workers that are idle or at work on a job, handlers that answer under a lease, and the
-- tasks that belong to nobody, in any interleaving.
pub mod View
pub mod Counts
pub mod Staff
pub mod Lanes
pub mod Service
pub mod Once
mod Tests
use lm_server.Prelude.{
  ℕ, zero, suc, ◌-◌, ◌+◌, ◌==◌, ltb, pos_part, Text, Bool, true, false, not, ◌&&◌, ◌||◌, List, [],
  ◌∷◌, ◌++◌, Option, none, some, if◌then◌else◌,
}
use lm_server.Types.{QueueClass, same_class, RequestMeta, ContainerProfile, Config}
use lm_server.Store.{swap_at}
use lm_server.Orchestrator.State.{Orchestrator}
use lm_server.Orchestrator.Select.{select_profile, new}
use lm_server.Classifier.Image.{GoLib}
use lm_server.Classifier.Payload.{Value, inspect_request}
use lm_server.Dispatcher.Queue.{
  Submitted, queued, taken, refused, Channel, Dispatcher, new_dispatcher, worker_count, submit,
  receive,
}
use lm_server.System.{
  Task, acquiring, launching, starting_up, resume_planned, unpausing, serving, destroying,
  maintaining, Event, advance,
}

-- Whose work a task is: of a worker, from the start of `processJob` until it has sent the result or
-- dropped it; of the handler behind `Submit`, which has the lease then, or lets it lie where it has
-- gone before the send; or of nobody.
pub data Role : Type 0 where
  working : (c : QueueClass) (job : ℕ) → Role
  answering : (job : ℕ) → Role
  background : Role

pub record Process : Type 0 where
  pub role : Role
  pub task : Task

-- `idle` and `stopped` count the workers of a class that wait for a job, and that have returned.
pub record Gateway : Type 0 where
  pub orchestrator : Orchestrator
  pub processes : List Process
  pub dispatcher : Dispatcher
  pub started : Bool
  pub idle : QueueClass → ℕ
  pub stopped : QueueClass → ℕ

pub data Move : Type 0 where
  -- a call of the dispatcher's `Start`
  starts : Move
  -- a request calls `Submit`; `done` and `first` are as in `enqueue`, and `parked` says whether an
  -- idle worker waits at the queue already
  arrives : (job : ℕ) (done first parked : Bool) → Move
  -- an idle worker takes a job, or sees that its context is done
  fetches : QueueClass → Move
  quits : QueueClass → Move
  -- the process at an index takes its next step
  runs : ℕ → Event → Move
  -- the worker's process at an index sends its response to `Submit`
  hands_over : ℕ → Move
  -- the entries at an index and after it change places in the order of the map of slots
  reorders : ℕ → Move

abbrev pub is_request : Task → Bool
is_request (destroying id container) = false
is_request (maintaining actions) = false
is_request _ = true

-- A goroutine that a request has started is nobody's.
abbrev pub with_roles : Role → List Task → List Process
with_roles r [] = []
with_roles r (t ∷ ts) =
    record { role = if is_request t then r else background; task = t } ∷ with_roles r ts

abbrev pub has_request : List Task → Bool
has_request [] = false
has_request (t ∷ ts) = is_request t || has_request ts

-- The class of the worker that has finished its job, if the request behind it has ended.
abbrev pub freed : Role → List Task → Option QueueClass
freed (working c job) ts = if has_request ts then none else some c
freed _ ts = none

abbrev pub one_more : Option QueueClass → (QueueClass → ℕ) → QueueClass → ℕ
one_more none count = count
one_more (some c) count = λ c'. if same_class c c' then suc (count c') else count c'

abbrev pub one_less : QueueClass → (QueueClass → ℕ) → QueueClass → ℕ
one_less c count = λ c'. if same_class c c' then count c' - 1 else count c'

pub run_process :
    Orchestrator → ℕ → Event → List Process → Orchestrator × List Process × Option QueueClass
run_process o i e [] = (o, [], none)
run_process o zero e (p ∷ ps) =
    let (o', ts) = advance o p.task e in (o', with_roles p.role ts ++ ps, freed p.role ts)
run_process o (suc i) e (p ∷ ps) = let (o', ps', c) = run_process o i e ps in (o', p ∷ ps', c)

-- The worker has sent a result with a lease, which is the handler's now.
abbrev pub handed : Process → Process × Option QueueClass
handed p = elim p.role [
  | working c job ↦ elim p.task [
    | serving l ↦ (record { role = answering job; task = p.task }, some c)
    | _ ↦ (p, none)
  ]
  | _ ↦ (p, none)
]

pub hand_over : ℕ → List Process → List Process × Option QueueClass
hand_over i [] = ([], none)
hand_over zero (p ∷ ps) = let (p', c) = handed p in (p' ∷ ps, c)
hand_over (suc i) (p ∷ ps) = let (ps', c) = hand_over i ps in (p ∷ ps', c)

-- How many workers `Start` starts for a class: none without a queue.
abbrev pub staff : Dispatcher → QueueClass → ℕ
staff d c = elim (d.queues c) [ none ↦ 0 | some q ↦ pos_part (worker_count d c) ]

unfoldable pub start_workers : Gateway → Gateway
unfolding worker_count
start_workers g = if g.started then g else record g { started = true; idle = staff g.dispatcher }

-- `meta` is what `InspectRequest` makes of a job's body.
module _ (meta : ℕ → RequestMeta) where
  -- An idle worker has the job: it calls `Acquire`, or returns the error of `selectProfile` and is
  -- idle again.
  abbrev pub begin_job : Gateway → QueueClass → ℕ → Option ContainerProfile → Gateway
  begin_job g c job none = g
  begin_job g c job (some p) = record g {
    processes = record { role = working c job; task = acquiring p } ∷ g.processes;
    idle = one_less c g.idle;
  }

  abbrev pub take_job : Gateway → QueueClass → Dispatcher × Option ℕ → Gateway
  take_job g c (d, none) = record g { dispatcher = d }
  take_job g c (d, some job) =
      begin_job (record g { dispatcher = d }) c job (select_profile g.orchestrator (meta job))

  unfoldable pub fetch : Gateway → QueueClass → Gateway
  unfolding receive select_profile
  fetch g c = if ltb 0 (g.idle c) then take_job g c (receive g.dispatcher c) else g

  -- After the send of `Submit`. A worker that waits at a channel without a buffer has the job at once.
  abbrev pub sent_job : Gateway → QueueClass → ℕ → Dispatcher × Submitted → Gateway
  sent_job g c job (d, taken) =
      begin_job (record g { dispatcher = d }) c job (select_profile g.orchestrator (meta job))
  sent_job g c job (d, queued) = record g { dispatcher = d }
  sent_job g c job (d, refused e) = record g { dispatcher = d }

  -- `Submit`
  unfoldable pub admit : Gateway → ℕ → Bool → Bool → Bool → Gateway
  unfolding submit select_profile
  admit g job done first parked =
      let c = (meta job).queue_class in
      sent_job g c job (submit g.dispatcher c job done first (parked && ltb 0 (g.idle c)))

  unfoldable pub move : Gateway → Move → Gateway
  unfolding start_workers admit fetch run_process hand_over
  move g starts = start_workers g
  move g (arrives job done first parked) = admit g job done first parked
  move g (fetches c) = fetch g c
  move g (quits c) =
      if ltb 0 (g.idle c)
      then record g { idle = one_less c g.idle; stopped = one_more (some c) g.stopped }
      else g
  move g (runs i e) =
      let (o, ps, c) = run_process g.orchestrator i e g.processes in
      record g { orchestrator = o; processes = ps; idle = one_more c g.idle }
  move g (hands_over i) =
      let (ps, c) = hand_over i g.processes in record g { processes = ps; idle = one_more c g.idle }
  move g (reorders i) = record g {
    orchestrator = record g.orchestrator { slots = swap_at i g.orchestrator.slots };
  }

  unfoldable pub moves : Gateway → List Move → Gateway
  unfolding move
  moves g [] = g
  moves g (m ∷ ms) = moves (move g m) ms

-- After `New`, `NewDispatcher` and the orchestrator's `Start`.
unfoldable pub open_gateway : Config → Gateway
unfolding new new_dispatcher
open_gateway cfg = record {
  orchestrator = new cfg;
  processes = record { role = background; task = maintaining [] } ∷ [];
  dispatcher = new_dispatcher cfg;
  started = false;
  idle = λ c. 0;
  stopped = λ c. 0;
}
