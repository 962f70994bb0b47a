-- ===== src/Gateway/Once.antt =====
-- No job is taken twice.
use lm_server.Prelude.{
  ℕ, ℤ, zero, suc, ◌+◌, ◌≤◌, ◌≡◌, refl, ap, ◌∙◌, bit, ◌==◌, Bool, true, false, ◌&&◌, ltb,
  if◌then◌else◌, List, [], ◌∷◌, ◌++◌, Option, none, some, inl, inr, arith,
}
use lm_server.Types.{
  QueueClass, low_latency, high_latency, same_class, ContainerProfile, RequestMeta, Config,
}
use lm_server.Orchestrator.State.{Orchestrator}
use lm_server.Orchestrator.Select.{select_profile}
use lm_server.Dispatcher.Queue.{
  Submitted, queued, taken, refused, Dispatcher, buffer_of, queue_in, new_dispatcher, submit,
  receive,
}
use lm_server.Dispatcher.Queue.Fifo.{List-cases}
use lm_server.Dispatcher.Queue.Reception.{Takes, receive-empty, receive-Takes}
use lm_server.Dispatcher.Submit.{admission, is_queued, submit-queue}
use lm_server.System.{Task, Event, advance}
use lm_server.Gateway.{
  Role, working, answering, background, Process, Gateway, Move, starts, arrives, fetches, quits,
  runs, hands_over, reorders, with_roles, run_process, handed, hand_over, begin_job, sent_job,
  take_job, fetch, admit, start_workers, move, moves, open_gateway,
}
use lm_server.Gateway.Counts.{requests, advance-requests}

-- How often a job stands in a list, in the queues, and with a worker or a handler.
abbrev pub times_in : ℕ → List ℕ → ℕ
times_in j [] = 0
times_in j (k ∷ ks) = bit (k == j) + times_in j ks

abbrev pub queued_times : ℕ → Dispatcher → ℕ
queued_times j d =
    times_in j (buffer_of (d.queues low_latency)) + times_in j (buffer_of (d.queues high_latency))

abbrev pub is_for : ℕ → Role → Bool
is_for j (working c job) = job == j
is_for j (answering job) = job == j
is_for j background = false

abbrev pub held_times : ℕ → List Process → ℕ
held_times j [] = 0
held_times j (p ∷ ps) = bit (is_for j p.role) + held_times j ps

-- How often a job calls `Submit` in a list of moves.
abbrev pub arrivals : ℕ → List Move → ℕ
arrivals j [] = 0
arrivals j (arrives job done first parked ∷ ms) = bit (job == j) + arrivals j ms
arrivals j (starts ∷ ms) = arrivals j ms
arrivals j (fetches c ∷ ms) = arrivals j ms
arrivals j (quits c ∷ ms) = arrivals j ms
arrivals j (runs i e ∷ ms) = arrivals j ms
arrivals j (hands_over i ∷ ms) = arrivals j ms
arrivals j (reorders i ∷ ms) = arrivals j ms

module _ (j : ℕ) where
  times_in-append : (ks ls : List ℕ) → times_in j (ks ++ ls) ≡ times_in j ks + times_in j ls
  times_in-append [] ls = omega arith
  times_in-append (k ∷ ks) ls = omega (arith, times_in-append ks ls)

  held_times-append :
      (ps qs : List Process) → held_times j (ps ++ qs) ≡ held_times j ps + held_times j qs
  held_times-append [] qs = omega arith
  held_times-append (p ∷ ps) qs = omega (arith, held_times-append ps qs)

  held_times-with_roles :
      (r : Role) (ts : List Task)
      → held_times j (with_roles r ts) ≡ (if is_for j r then requests ts else 0)
  held_times-with_roles r [] = ground arith
  held_times-with_roles r (t ∷ ts) = ground (arith, held_times-with_roles r ts)

  run_process-held :
      (o : Orchestrator) (i : ℕ) (e : Event) (ps : List Process)
      → held_times j (run_process o i e ps).1 ≤ held_times j ps
  unfolding run_process
  run_process-held o i e [] = omega arith
  run_process-held o zero e (p ∷ ps) =
      let ts = (advance o p.task e).1 in
      ground (
        arith,
        held_times-append (with_roles p.role ts) ps,
        held_times-with_roles p.role ts,
        advance-requests o p.task e,
      )
  run_process-held o (suc i) e (p ∷ ps) = omega (arith, run_process-held o i e ps)

  handed-held : (p : Process) → is_for j (handed p).0.role ≡ is_for j p.role
  handed-held p = ground arith

  hand_over-held : (i : ℕ) (ps : List Process) → held_times j (hand_over i ps).0 ≡ held_times j ps
  unfolding hand_over
  hand_over-held i [] = refl
  hand_over-held zero (p ∷ ps) = omega (arith, ap bit (handed-held p))
  hand_over-held (suc i) (p ∷ ps) = omega (arith, hand_over-held i ps)

  if-times_in :
      (b : Bool) (ks : List ℕ) (job : ℕ)
      → times_in j (if b then ks ++ job ∷ [] else ks)
        ≡ times_in j ks + (if b then bit (job == j) else 0)
  if-times_in true ks job = omega (arith, times_in-append ks (job ∷ []))
  if-times_in false ks job = omega arith

  submit-times_in :
      (d : Dispatcher) (c c' : QueueClass) (job : ℕ) (done first parked : Bool)
      → times_in j (buffer_of ((submit d c job done first parked).0.queues c'))
        ≡ times_in j (buffer_of (d.queues c'))
          + (if same_class c c' && is_queued (submit d c job done first parked).1
              then bit (job == j)
              else 0)
  submit-times_in d c c' job done first parked =
      let (answer, buffers) = submit-queue d c c' job done first parked in
      let grows = same_class c c' && is_queued (admission (d.queues c) done first parked) in
      rw (answer, buffers) (if-times_in grows (buffer_of (d.queues c')) job)

  -- A job that a worker has got by the send.
  abbrev sent_times : ℕ → Submitted → ℕ
  sent_times job taken = bit (job == j)
  sent_times job queued = 0
  sent_times job (refused e) = 0

  queued-sent :
      (job : ℕ) (r : Submitted)
      → (if is_queued r then bit (job == j) else 0) + sent_times job r ≤ bit (job == j)
  queued-sent job taken = omega arith
  queued-sent job queued = omega arith
  queued-sent job (refused e) = omega arith

  submit-queued :
      (d : Dispatcher) (c : QueueClass) (job : ℕ) (done first parked : Bool)
      → let r = submit d c job done first parked in
        queued_times j r.0 + sent_times job r.1 ≤ queued_times j d + bit (job == j)
  submit-queued d low_latency job done first parked = omega (
    arith,
    submit-times_in d low_latency low_latency job done first parked,
    submit-times_in d low_latency high_latency job done first parked,
    queued-sent job (submit d low_latency job done first parked).1,
  )
  submit-queued d high_latency job done first parked = omega (
    arith,
    submit-times_in d high_latency low_latency job done first parked,
    submit-times_in d high_latency high_latency job done first parked,
    queued-sent job (submit d high_latency job done first parked).1,
  )

  abbrev taken_times : Option ℕ → ℕ
  taken_times none = 0
  taken_times (some job) = bit (job == j)

  received-queued :
      (d : Dispatcher) (c : QueueClass) (job : ℕ) (rest : List ℕ)
      → Takes d c job rest
      → queued_times j (receive d c).0 + bit (job == j) ≡ queued_times j d
  received-queued d low_latency job rest t = ground (
    arith,
    ap (times_in j) (t.left low_latency),
    ap (times_in j) (t.left high_latency),
    ap (times_in j) t.was,
  )
  received-queued d high_latency job rest t = ground (
    arith,
    ap (times_in j) (t.left low_latency),
    ap (times_in j) (t.left high_latency),
    ap (times_in j) t.was,
  )

  receive-queued :
      (d : Dispatcher) (c : QueueClass)
      → queued_times j (receive d c).0 + taken_times (receive d c).1 ≡ queued_times j d
  receive-queued d c = elim (List-cases (buffer_of (d.queues c))) [
    | inl e ↦ rw (receive-empty d c e) (omega arith)
    | inr (job, rest, e) ↦
        let t = receive-Takes d c job rest e in
        ap (λ x. queued_times j (receive d c).0 + taken_times x) t.got
        ∙ received-queued d c job rest t
  ]

  -- How often the job is anywhere.
  abbrev pub present : Gateway → ℕ
  present g = queued_times j g.dispatcher + held_times j g.processes

module _ (meta : ℕ → RequestMeta) (j : ℕ) where
  begin_job-present :
      (g : Gateway) (c : QueueClass) (job : ℕ) (x : Option ContainerProfile)
      → present j (begin_job meta g c job x) ≤ present j g + bit (job == j)
  begin_job-present g c job none = omega arith
  begin_job-present g c job (some p) = omega arith

  take_job-present :
      (g : Gateway) (c : QueueClass) (r : Dispatcher × Option ℕ)
      → queued_times j r.0 + taken_times j r.1 ≡ queued_times j g.dispatcher
      → present j (take_job meta g c r) ≤ present j g
  take_job-present g c (d, none) e = omega arith
  take_job-present g c (d, some job) e =
      let begun =
        begin_job-present (record g { dispatcher = d }) c job
          (select_profile g.orchestrator (meta job)) in
      omega (arith, begun)

  if-present :
      (b : Bool) (g g' : Gateway) (n : ℕ)
      → present j g ≤ n
      → present j g' ≤ n
      → present j (if b then g else g') ≤ n
  if-present true g g' n h h' = h
  if-present false g g' n h h' = h'

  sent_job-present :
      (g : Gateway) (c : QueueClass) (job : ℕ) (r : Dispatcher × Submitted)
      → queued_times j r.0 + sent_times j job r.1 ≤ queued_times j g.dispatcher + bit (job == j)
      → present j (sent_job meta g c job r) ≤ present j g + bit (job == j)
  sent_job-present g c job (d, taken) h =
      let begun =
        begin_job-present (record g { dispatcher = d }) c job
          (select_profile g.orchestrator (meta job)) in
      omega (arith, begun)
  sent_job-present g c job (d, queued) h = omega arith
  sent_job-present g c job (d, refused e) h = omega arith

  admit-present :
      (g : Gateway) (job : ℕ) (done first parked : Bool)
      → present j (admit meta g job done first parked) ≤ present j g + bit (job == j)
  unfolding admit
  admit-present g job done first parked =
      let c = (meta job).queue_class in
      let waits = parked && ltb 0 (g.idle c) in
      sent_job-present g c job (submit g.dispatcher c job done first waits)
        (submit-queued j g.dispatcher c job done first waits)

  move-present :
      (g : Gateway) (m : Move) → present j (move meta g m) ≤ present j g + arrivals j (m ∷ [])
  unfolding move
  move-present g starts = unfold start_workers in ground arith
  move-present g (arrives job done first parked) =
      omega (arith, admit-present g job done first parked)
  move-present g (fetches c) =
      unfold fetch in
      if-present (ltb 0 (g.idle c)) (take_job meta g c (receive g.dispatcher c)) g _
        (omega
          (arith, take_job-present g c (receive g.dispatcher c) (receive-queued j g.dispatcher c)))
        (omega arith)
  move-present g (quits c) = ground arith
  move-present g (runs i e) = omega (arith, run_process-held j g.orchestrator i e g.processes)
  move-present g (hands_over i) = omega (arith, hand_over-held j i g.processes)
  move-present g (reorders i) = omega arith

  arrivals-first :
      (m : Move) (ms : List Move) → arrivals j (m ∷ ms) ≡ arrivals j (m ∷ []) + arrivals j ms
  arrivals-first m ms = ground arith

  moves-present :
      (g : Gateway) (ms : List Move) → present j (moves meta g ms) ≤ present j g + arrivals j ms
  unfolding moves
  moves-present g [] = omega arith
  moves-present g (m ∷ ms) =
      omega (arith, moves-present (move meta g m) ms, move-present g m, arrivals-first m ms)

open_gateway-present : (cfg : Config) (j : ℕ) → present j (open_gateway cfg) ≡ 0
unfolding open_gateway new_dispatcher
open_gateway-present cfg j = omega (
  arith,
  new_queue-empty (cfg.queue_capacity low_latency),
  new_queue-empty (cfg.queue_capacity high_latency),
)
  where
    new_queue-empty : (x : Option ℤ) → times_in j (buffer_of (queue_in x)) ≡ 0
    new_queue-empty none = refl
    new_queue-empty (some n) = refl

-- After any moves in any order, a job stands in the queues, with the workers and with the handlers
-- together at most as often as it has called `Submit`. So a job that is submitted once is never
-- in a queue and with a worker, with two workers, or with a worker and its handler, at one time.
pub job_once :
    (meta : ℕ → RequestMeta) (cfg : Config) (ms : List Move) (j : ℕ)
    → let g = moves meta (open_gateway cfg) ms in
      queued_times j g.dispatcher + held_times j g.processes ≤ arrivals j ms
job_once meta cfg ms j =
    omega (arith, moves-present meta j (open_gateway cfg) ms, open_gateway-present cfg j)
