-- ===== src/Gateway/Lanes.antt =====
-- Each job stays with its class and its profile: the steps of the processes, and the queues.
pub mod Runs
pub mod Jobs
use lm_server.Prelude.{
  ℕ, zero, suc, ◌+◌, ◌^◌, ◌<◌, ◌≤◌, ◌≡◌, refl, sym, subst, ap, ◌∙◌, Text, Bool, true, false, not,
  ◌&&◌, ltb, if◌then◌else◌, All, All-append, length, get_elem?, List, [], ◌∷◌, ◌++◌, Option, none,
  some, Option-cases, Bool-cases, inl, inr, arith,
}
use lm_server.Types.{
  QueueClass, low_latency, high_latency, same_class, ContainerProfile, RequestMeta, Config,
}
use lm_server.Store.{lookup}
use lm_server.Orchestrator.State.{SlotState, Orchestrator, Lease}
use lm_server.Orchestrator.Select.{select_profile, new}
use lm_server.Dispatcher.Queue.{Dispatcher, Channel, buffer_of, new_dispatcher, submit, receive}
use lm_server.System.{Task, acquiring, serving, Event, advance, run, start}
use lm_server.System.Claims.{total_claims, holds}
use lm_server.System.Moves.{IsStore}
use lm_server.System.Budget.Runs.{SameConfig, advance-SameConfig}
use lm_server.System.Leases.{Backed}
use lm_server.System.Names.{Named, advance-Named}
use lm_server.Dispatcher.Queue.Fifo.{List-cases}
use lm_server.Dispatcher.Queue.Reception.{Takes, receive-empty, receive-Takes}
use lm_server.Dispatcher.Submit.{admission, is_queued, submit-queue}
use lm_server.Gateway.{
  Role, working, answering, background, Process, Gateway, Move, starts, arrives, fetches, quits,
  runs, hands_over, reorders, is_request, with_roles, run_process, handed, hand_over, begin_job,
  take_job, fetch, admit, start_workers, one_less, one_more, staff, move, moves, open_gateway,
}
use lm_server.Gateway.View.{view, tasks_of}

pub same_class-eq : (a b : QueueClass) → same_class a b ≡ true → a ≡ b
same_class-eq a b e = ground arith

module _ (cfg : Config) (meta : ℕ → RequestMeta) where
  -- A task that asks for, or has, a slot of the profile that is selected for a job.
  abbrev pub Suits : ℕ → Task → Type 0
  Suits job t =
      (p : ContainerProfile) × (select_profile (new cfg) (meta job) ≡ some p)
      × (is_request t ≡ true)
      × Named p.name t

  -- A worker's job is of the worker's class.
  abbrev pub Lane : Role → Task → Type 0
  Lane (working c job) t = ((meta job).queue_class ≡ c) × Suits job t
  Lane (answering job) t = Suits job t
  Lane background t = Unit

  abbrev pub InLane : Process → Type 0
  InLane p = Lane p.role p.task

  abbrev pub IsOf : QueueClass → ℕ → Type 0
  IsOf c job = (meta job).queue_class ≡ c

  with_roles-InLane :
      (r : Role) (P : Task → Type 0) (ts : List Task)
      → ((t : Task) → is_request t ≡ true → P t → Lane r t)
      → All P ts
      → All InLane (with_roles r ts)
  with_roles-InLane r P [] f h = tt
  with_roles-InLane r P (t ∷ ts) f h = elim (Bool-cases (is_request t)) [
    | inl e ↦ (rw e (f t e h.0), with_roles-InLane r P ts f h.1)
    | inr e ↦ (rw e tt, with_roles-InLane r P ts f h.1)
  ]

  -- What a process leaves behind, where its task's names stay.
  left-InLane :
      (r : Role) (t : Task) (ts : List Task)
      → ((n : Text) → Named n t → All (Named n) ts)
      → Lane r t
      → All InLane (with_roles r ts)
  left-InLane (working c job) t ts follows (own, suits) =
      let (p, chosen, _, named) = suits in
      with_roles-InLane (working c job) (Named p.name) ts (λ u asks n. (own, (p, chosen, asks, n)))
        (follows p.name named)
  left-InLane (answering job) t ts follows suits =
      let (p, chosen, _, named) = suits in
      with_roles-InLane (answering job) (Named p.name) ts (λ u asks n. (p, chosen, asks, n))
        (follows p.name named)
  left-InLane background t ts follows suits =
      with_roles-InLane background (λ u. Unit {0}) ts (λ u asks n. tt) (all_unit ts)
    where
      all_unit : (us : List Task) → All (λ u. Unit {0}) us
      all_unit [] = tt
      all_unit (u ∷ us) = (tt, all_unit us)

  pub run_process-InLane :
      (o : Orchestrator) (i : ℕ) (e : Event) (ps : List Process)
      → IsStore o
      → ((k : Text) (st : SlotState)
          → total_claims (tasks_of ps) k st ≤ holds (lookup k o.slots) st)
      → All (Backed o) (tasks_of ps)
      → All InLane ps
      → All InLane (run_process o i e ps).1
  unfolding run_process
  run_process-InLane o i e [] h own b l = tt
  run_process-InLane o zero e (p ∷ ps) h own b l =
      let ts = (advance o p.task e).1 in
      All-append InLane (with_roles p.role ts) ps
        (left-InLane p.role p.task ts
          (λ n. advance-Named o h n p.task e (λ k st. omega (arith, own k st)) b.0) l.0)
        l.1
  run_process-InLane o (suc i) e (p ∷ ps) h own b l =
      (l.0, run_process-InLane o i e ps h (λ k st. omega (arith, own k st)) b.1 l.1)

  pub run_process-SameConfig :
      (o : Orchestrator) (i : ℕ) (e : Event) (ps : List Process)
      → (run_process o i e ps).0.profiles_by_class ≡ o.profiles_by_class
  unfolding run_process
  run_process-SameConfig o i e [] = refl
  run_process-SameConfig o zero e (p ∷ ps) = (advance-SameConfig o p.task e).profiles
  run_process-SameConfig o (suc i) e (p ∷ ps) = run_process-SameConfig o i e ps

  handed-InLane :
      (r : Role) (t : Task) → Lane r t → InLane (handed (record { role = r; task = t })).0
  handed-InLane (working c job) (serving l) h = h.1
  handed-InLane (working c job) t h = h
  handed-InLane (answering job) t h = h
  handed-InLane background t h = h

  pub hand_over-InLane : (i : ℕ) (ps : List Process) → All InLane ps → All InLane (hand_over i ps).0
  unfolding hand_over
  hand_over-InLane i [] l = tt
  hand_over-InLane zero (p ∷ ps) l = (handed-InLane p.role p.task l.0, l.1)
  hand_over-InLane (suc i) (p ∷ ps) l = (l.0, hand_over-InLane i ps l.1)

  -- The queue of a class holds jobs of that class.
  abbrev pub Sorted : Dispatcher → Type 0
  Sorted d = (c : QueueClass) → All (IsOf c) (buffer_of (d.queues c))

  pub submit-Sorted :
      (d : Dispatcher) (job : ℕ) (done first parked : Bool)
      → Sorted d
      → Sorted (submit d (meta job).queue_class job done first parked).0
  submit-Sorted d job done first parked h c =
      let at = (meta job).queue_class in
      let (answer, buffers) = submit-queue d at c job done first parked in
      elim (Bool-cases (same_class at c && is_queued (admission (d.queues at) done first parked))) [
        | inl e ↦
            let longer : buffer_of ((submit d at job done first parked).0.queues c)
                ≡ buffer_of (d.queues c) ++ job ∷ [] =
              ground (arith, buffers, e) in
            subst (All (IsOf c)) (sym longer) (
              All-append (IsOf c) (buffer_of (d.queues c)) (job ∷ []) (h c)
                (same_class-eq at c (ground arith), tt))
        | inr e ↦
            let same : buffer_of ((submit d at job done first parked).0.queues c)
                ≡ buffer_of (d.queues c) =
              ground (arith, buffers, e) in
            subst (All (IsOf c)) (sym same) (h c)
      ]

  -- A job that is received is of the class, and so are those that are left.
  pub receive-Sorted :
      (d : Dispatcher) (c : QueueClass)
      → Sorted d
      → Sorted (receive d c).0
        × ((job : ℕ) → (receive d c).1 ≡ some job → (meta job).queue_class ≡ c)
  receive-Sorted d c h = elim (List-cases (buffer_of (d.queues c))) [
    | inl e ↦ rw (receive-empty d c e) (h, λ job got. cc)
    | inr (job, rest, e) ↦
        let t = receive-Takes d c job rest e in
        let all : All (IsOf c) (job ∷ rest) = subst (All (IsOf c)) e (h c) in
        (
          λ c'. elim (Bool-cases (same_class c c')) [
            | inl same ↦
                rw (t.left c', same)
                  (subst (λ x. All (IsOf x) rest) (same_class-eq c c' same) all.1)
            | inr other ↦ rw (t.left c', other) (h c')
          ],
          λ other got. let same : other ≡ job = ground (arith, got, t.got) in rw same all.0,
        )
  ]
