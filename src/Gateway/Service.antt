-- ===== src/Gateway/Service.antt =====
-- A job that waits in a queue gets its lease: a worker takes it, and hands the answer over.
use lm_server.Prelude.{
  ℕ, ◌^◌, ◌<◌, ◌≡◌, refl, ap, ◌∙◌, true, ltb, if◌then◌else◌, length, List, [], ◌∷◌, none, some,
  arith,
}
use lm_server.Types.{QueueClass, same_class, ContainerProfile, RequestMeta, Config}
use lm_server.Orchestrator.State.{Orchestrator, Lease}
use lm_server.Orchestrator.Select.{select_profile, new}
use lm_server.Orchestrator.Slots.{LaunchedContainer}
use lm_server.Dispatcher.Queue.{Dispatcher, buffer_of, receive}
use lm_server.Dispatcher.Queue.Reception.{receive-Takes}
use lm_server.System.{
  Task, acquiring, serving, destroying, maintaining, Event, lock, answered, advance,
}
use lm_server.System.Progress.{can_serve, plan-Serves}
use lm_server.Gateway.{
  working, answering, Process, Gateway, Move, fetches, runs, hands_over, is_request, one_less,
  one_more, run_process, hand_over, fetch, move, moves, open_gateway,
}
use lm_server.Gateway.Counts.{one_more-more, one_less-balance}
use lm_server.Gateway.Lanes.Runs.{select-same, opened-IsLaned, opened-IsBacked}

-- A task that becomes a request's is one.
asks_before :
    (o : Orchestrator) (t : Task) (e : Event) (o' : Orchestrator) (u : Task)
    → advance o t e ≡ (o', u ∷ [])
    → is_request u ≡ true
    → is_request t ≡ true
unfolding advance
asks_before o (destroying id container) e o' u r h = ground arith
asks_before o (maintaining actions) e o' u r h = ground arith
asks_before o t e o' u r h = refl

abbrev worker_on : QueueClass → ℕ → Task → Process
worker_on c job t = record { role = working c job; task = t }

-- The parts of a gateway.
record At (g : Gateway) (o : Orchestrator) (ps : List Process) (d : Dispatcher)
    (count : QueueClass → ℕ) : Type 0 where
  store : g.orchestrator ≡ o
  processes : g.processes ≡ ps
  dispatcher : g.dispatcher ≡ d
  idle : (c : QueueClass) → g.idle c ≡ count c

run_process-first :
    (o : Orchestrator) (c : QueueClass) (job : ℕ) (t : Task) (ps : List Process) (e : Event)
    (o' : Orchestrator) (u : Task)
    → advance o t e ≡ (o', u ∷ [])
    → is_request u ≡ true
    → run_process o 0 e (worker_on c job t ∷ ps) ≡ (o', worker_on c job u ∷ ps, none)
unfolding run_process
run_process-first o c job t ps e o' u r asks = rw (r, asks) refl

module _ (meta : ℕ → RequestMeta) (c : QueueClass) (job : ℕ) where
  fetch-At :
      (g : Gateway) (rest : List ℕ) (p : ContainerProfile)
      → 0 < g.idle c
      → buffer_of (g.dispatcher.queues c) ≡ job ∷ rest
      → select_profile g.orchestrator (meta job) ≡ some p
      → At
          (move meta g (fetches c))
          g.orchestrator
          (worker_on c job (acquiring p) ∷ g.processes)
          (receive g.dispatcher c).0
          (one_less c g.idle)
  unfolding move fetch
  fetch-At g rest p waits queued chosen =
      let t = receive-Takes g.dispatcher c job rest queued in
      let some_wait : ltb 0 (g.idle c) ≡ true = ground arith in
      let got : receive g.dispatcher c ≡ ((receive g.dispatcher c).0, some job) =
        λ i. ((receive g.dispatcher c).0, t.got i) in
      rw (some_wait, got, chosen)
        (record { store = refl; processes = refl; dispatcher = refl; idle = λ c'. refl })

  run-At :
      (g : Gateway) (o : Orchestrator) (t : Task) (ps : List Process) (d : Dispatcher)
      (count : QueueClass → ℕ) (e : Event) (o' : Orchestrator) (u : Task)
      → At g o (worker_on c job t ∷ ps) d count
      → advance o t e ≡ (o', u ∷ [])
      → is_request u ≡ true
      → At (move meta g (runs 0 e)) o' (worker_on c job u ∷ ps) d count
  unfolding move
  run-At g o t ps d count e o' u a r asks =
      let ran : run_process g.orchestrator 0 e g.processes ≡ (o', worker_on c job u ∷ ps, none) =
        (λ i. run_process (a.store i) 0 e (a.processes i))
        ∙ run_process-first o c job t ps e o' u r asks in
      record {
        store = ap (λ x. x.0) ran;
        processes = ap (λ x. x.1) ran;
        dispatcher = a.dispatcher;
        idle = λ c'. ap (λ x. one_more x.2 g.idle c') ran ∙ a.idle c';
      }

  hand_over-At :
      (g : Gateway) (o : Orchestrator) (l : Lease) (ps : List Process) (d : Dispatcher)
      (count : QueueClass → ℕ)
      → At g o (worker_on c job (serving l) ∷ ps) d count
      → At
          (move meta g (hands_over 0))
          o
          (record { role = answering job; task = serving l } ∷ ps)
          d
          (one_more (some c) count)
  unfolding move hand_over
  hand_over-At g o l ps d count a =
      let given : hand_over 0 g.processes
          ≡ (record { role = answering job; task = serving l } ∷ ps, some c) =
        ap (hand_over 0) a.processes in
      record {
        store = a.store;
        processes = ap (λ x. x.0) given;
        dispatcher = a.dispatcher;
        idle = λ c'. ap (λ x. one_more x.1 g.idle c') given ∙ ground (arith, a.idle c');
      }

-- A worker takes the oldest job of a class, runs its next three stretches of code, in which Docker
-- answers, and sends the result, with no other move between them.
abbrev pub serves_next : QueueClass → ℕ → ℕ → LaunchedContainer → ℕ → List Move
serves_next c now stamp l later =
    fetches c
    ∷ runs 0 (lock now stamp)
    ∷ runs 0 (lock now now)
    ∷ runs 0 (answered l later)
    ∷ hands_over 0
    ∷ []

idle_again :
    (g : Gateway) (c c' : QueueClass)
    → 0 < g.idle c
    → one_more (some c) (one_less c g.idle) c' ≡ g.idle c'
idle_again g c c' h =
    omega (arith, one_more-more (some c) (one_less c g.idle) c', one_less-balance c g.idle c' h)

-- The job's handler has a lease, the worker is idle, and the job is gone from the queue; what else
-- there was stays.
pub record IsServed (g g' : Gateway) (c : QueueClass) (job : ℕ) (rest : List ℕ)
    (p : ContainerProfile) : Type 0 where
  lease : Lease
  processes : g'.processes ≡ record { role = answering job; task = serving lease } ∷ g.processes
  profile : lease.profile.name ≡ p.name
  idle : (c' : QueueClass) → g'.idle c' ≡ g.idle c'
  queues :
      (c' : QueueClass)
      → buffer_of (g'.dispatcher.queues c')
        ≡ (if same_class c c' then rest else buffer_of (g.dispatcher.queues c'))

-- After any moves in any order (fewer than 2^64): where a worker of a class is idle and jobs wait in
-- the queue, where a profile is selected for the oldest of them, and there is a ready slot or a paused
-- one of that profile, or a container may be launched, the worker's taking the job and its next steps,
-- in which Docker and the health check succeed, end with a lease on a slot of that profile in the
-- hands of the job's handler. The worker is idle again, the job has left its queue, and the
-- other jobs, the other queue and the other tasks are as before.
pub queued_job-IsServed :
    (meta : ℕ → RequestMeta) (cfg : Config) (ms : List Move)
    → length ms < 2 ^ 64
    → (c : QueueClass) (job : ℕ) (rest : List ℕ) (p : ContainerProfile) (now stamp : ℕ)
      (l : LaunchedContainer) (later : ℕ)
    → let g = moves meta (open_gateway cfg) ms in
      0 < g.idle c
      → buffer_of (g.dispatcher.queues c) ≡ job ∷ rest
      → select_profile (new cfg) (meta job) ≡ some p
      → can_serve g.orchestrator p ≡ true
      → IsServed g (moves meta g (serves_next c now stamp l later)) c job rest p
unfolding moves
queued_job-IsServed meta cfg ms small c job rest p now stamp l later waits queued chosen can =
    let g = moves meta (open_gateway cfg) ms in
    let h = opened-IsLaned cfg meta ms small in
    let b = opened-IsBacked cfg meta ms small in
    let (o1, t1, e1, serves) = plan-Serves g.orchestrator p now stamp l later b.sound.store can in
    let (o2, t2, o3, lease, e2, e3, name) = serves in
    let found = select-same cfg meta g.orchestrator (meta job) h.profiles ∙ chosen in
    let asks2 = asks_before o2 t2 (answered l later) o3 (serving lease) e3 refl in
    let asks1 = asks_before o1 t1 (lock now now) o2 t2 e2 asks2 in
    let a0 = fetch-At meta c job g rest p waits queued found in
    let a1 = run-At meta c job _ _ _ _ _ _ (lock now stamp) o1 t1 a0 e1 asks1 in
    let a2 = run-At meta c job _ _ _ _ _ _ (lock now now) o2 t2 a1 e2 asks2 in
    let a3 = run-At meta c job _ _ _ _ _ _ (answered l later) o3 (serving lease) a2 e3 refl in
    let a4 = hand_over-At meta c job _ o3 lease _ _ _ a3 in
    record {
      lease = lease;
      processes = a4.processes;
      profile = name;
      idle = λ c'. a4.idle c' ∙ idle_again g c c' waits;
      queues = λ c'.
          ap (λ d. buffer_of (d.queues c')) a4.dispatcher
          ∙ (receive-Takes g.dispatcher c job rest queued).left c';
    }
