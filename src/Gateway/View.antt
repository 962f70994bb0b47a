-- ===== src/Gateway/View.antt =====
-- What the gateway does to the orchestrator is a run of its tasks.
use lm_server.Prelude.{
  ltb, ◌&&◌, ℕ, zero, suc, ◌≤◌, ◌≡◌, refl, sym, ap, ◌∙◌, Bool, true, false, if◌then◌else◌, List, [],
  ◌∷◌, ◌++◌, Option, none, some, length, length-append, arith,
}
use lm_server.Types.{QueueClass, ContainerProfile, RequestMeta, Config}
use lm_server.Orchestrator.State.{Orchestrator}
use lm_server.Orchestrator.Select.{select_profile}
use lm_server.Dispatcher.Queue.{Submitted, queued, taken, refused, submit, Dispatcher, receive}
use lm_server.System.{
  Task, Event, advance, advance_at, arrived, System, Choice, arrive, pick, reorder, step, run,
  start,
}
use lm_server.Gateway.{
  Role, Process, Gateway, Move, starts, arrives, fetches, quits, runs, hands_over, reorders,
  with_roles, run_process, handed, hand_over, begin_job, sent_job, take_job, fetch, admit,
  start_workers, move, moves, open_gateway,
}

abbrev pub tasks_of : List Process → List Task
tasks_of [] = []
tasks_of (p ∷ ps) = p.task ∷ tasks_of ps

abbrev pub view : Gateway → System
view g = record { orchestrator = g.orchestrator; tasks = tasks_of g.processes }

tasks_of-append : (ps qs : List Process) → tasks_of (ps ++ qs) ≡ tasks_of ps ++ tasks_of qs
tasks_of-append [] qs = refl
tasks_of-append (p ∷ ps) qs = ap (λ l. p.task ∷ l) (tasks_of-append ps qs)

tasks_of-with_roles : (r : Role) (ts : List Task) → tasks_of (with_roles r ts) ≡ ts
tasks_of-with_roles r [] = refl
tasks_of-with_roles r (t ∷ ts) = ap (λ l. t ∷ l) (tasks_of-with_roles r ts)

run_process-advance_at :
    (o : Orchestrator) (i : ℕ) (e : Event) (ps : List Process)
    → ((run_process o i e ps).0 ≡ (advance_at o i e (tasks_of ps)).0)
      × (tasks_of (run_process o i e ps).1 ≡ (advance_at o i e (tasks_of ps)).1)
unfolding run_process advance_at
run_process-advance_at o i e [] = (refl, refl)
run_process-advance_at o zero e (p ∷ ps) =
    let (o', ts) = advance o p.task e in
    (
      refl,
      tasks_of-append (with_roles p.role ts) ps
          ∙ ap (λ l. l ++ tasks_of ps) (tasks_of-with_roles p.role ts),
    )
run_process-advance_at o (suc i) e (p ∷ ps) =
    let (same, rest) = run_process-advance_at o i e ps in (same, ap (λ l. p.task ∷ l) rest)

handed-task : (p : Process) → (handed p).0.task ≡ p.task
handed-task p = ground arith

tasks_of-hand_over : (i : ℕ) (ps : List Process) → tasks_of (hand_over i ps).0 ≡ tasks_of ps
unfolding hand_over
tasks_of-hand_over i [] = refl
tasks_of-hand_over zero (p ∷ ps) = ap (λ t. t ∷ tasks_of ps) (handed-task p)
tasks_of-hand_over (suc i) (p ∷ ps) = ap (λ l. p.task ∷ l) (tasks_of-hand_over i ps)

-- A move of the gateway is one step of the tasks, or none.
abbrev pub Simulates : System → System → Type 0
Simulates sys sys' = (cs : List Choice) × (length cs ≤ 1) × (sys' ≡ run sys cs)

stays : (sys : System) → Simulates sys sys
unfolding run
stays sys = ([], omega arith, refl)

steps : (sys sys' : System) (c : Choice) → sys' ≡ step sys c → Simulates sys sys'
unfolding run
steps sys sys' c e = (c ∷ [], omega arith, e)

if-Simulates :
    (sys : System) (b : Bool) (g g' : Gateway)
    → Simulates sys (view g)
    → Simulates sys (view g')
    → Simulates sys (view (if b then g else g'))
if-Simulates sys true g g' s s' = s
if-Simulates sys false g g' s s' = s'

same_system :
    {o o' : Orchestrator} {ts ts' : List Task}
    → o ≡ o'
    → ts ≡ ts'
    → ◌≡◌ {A = System}
        (record { orchestrator = o; tasks = ts })
        (record { orchestrator = o'; tasks = ts' })
same_system e e' = λ i. record { orchestrator = e i; tasks = e' i }

module _ (meta : ℕ → RequestMeta) where
  begin_job-Simulates :
      (g : Gateway) (c : QueueClass) (job : ℕ) (d : Dispatcher) (x : Option ContainerProfile)
      → select_profile g.orchestrator (meta job) ≡ x
      → Simulates (view g) (view (begin_job meta (record g { dispatcher = d }) c job x))
  unfolding step arrived
  begin_job-Simulates g c job d none e = stays (view g)
  begin_job-Simulates g c job d (some p) e = steps (view g) _ (arrive (meta job)) (rw e refl)

  take_job-Simulates :
      (g : Gateway) (c : QueueClass) (r : Dispatcher × Option ℕ)
      → Simulates (view g) (view (take_job meta g c r))
  take_job-Simulates g c (d, none) = stays (view g)
  take_job-Simulates g c (d, some job) = begin_job-Simulates g c job d _ refl

  sent_job-Simulates :
      (g : Gateway) (c : QueueClass) (job : ℕ) (r : Dispatcher × Submitted)
      → Simulates (view g) (view (sent_job meta g c job r))
  sent_job-Simulates g c job (d, taken) = begin_job-Simulates g c job d _ refl
  sent_job-Simulates g c job (d, queued) = stays (view g)
  sent_job-Simulates g c job (d, refused e) = stays (view g)

  pub move-Simulates : (g : Gateway) (m : Move) → Simulates (view g) (view (move meta g m))
  unfolding move
  move-Simulates g starts =
      unfold start_workers in if-Simulates (view g) g.started _ _ (stays (view g)) (stays (view g))
  move-Simulates g (arrives job done first parked) =
      let c = (meta job).queue_class in
      unfold admit in
      sent_job-Simulates g c job (submit g.dispatcher c job done first (parked && ltb 0 (g.idle c)))
  move-Simulates g (fetches c) =
      unfold fetch in
      if-Simulates (view g) _ _ _ (take_job-Simulates g c (receive g.dispatcher c)) (stays (view g))
  move-Simulates g (quits c) = if-Simulates (view g) _ _ _ (stays (view g)) (stays (view g))
  move-Simulates g (runs i e) =
      let (same, rest) = run_process-advance_at g.orchestrator i e g.processes in
      steps (view g) _ (pick i e) (unfold step in same_system same rest)
  move-Simulates g (hands_over i) =
      unfold run in ([], omega arith, same_system refl (tasks_of-hand_over i g.processes))
  move-Simulates g (reorders i) = steps (view g) _ (reorder i) (unfold step in refl)

pub run-append : (sys : System) (cs ds : List Choice) → run sys (cs ++ ds) ≡ run (run sys cs) ds
unfolding run
run-append sys [] ds = refl
run-append sys (c ∷ cs) ds = run-append (step sys c) cs ds

moves-run :
    (meta : ℕ → RequestMeta) (g : Gateway) (ms : List Move)
    → (cs : List Choice) × (length cs ≤ length ms) × (view (moves meta g ms) ≡ run (view g) cs)
unfolding moves run
moves-run meta g [] = ([], omega arith, refl)
moves-run meta g (m ∷ ms) =
    let (cs, one, first) = move-Simulates meta g m in
    let (ds, few, rest) = moves-run meta (move meta g m) ms in
    (
      cs ++ ds,
      omega (arith, length-append cs ds),
      rest ∙ (ap (λ sys. run sys ds) first ∙ sym (run-append (view g) cs ds)),
    )

-- Whatever the queues and the workers do, what the orchestrator and its tasks go through is a run of
-- the tasks alone, of no more steps: every moment of the gateway is one of `System`.
pub gateway-run :
    (meta : ℕ → RequestMeta) (cfg : Config) (ms : List Move)
    → (cs : List Choice) × (length cs ≤ length ms)
      × (view (moves meta (open_gateway cfg) ms) ≡ run (start cfg) cs)
unfolding open_gateway start
gateway-run meta cfg ms = moves-run meta (open_gateway cfg) ms
