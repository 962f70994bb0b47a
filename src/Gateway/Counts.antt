-- ===== src/Gateway/Counts.antt =====
-- The processes and the workers, counted by class, over one step.
use lm_server.Prelude.{
  ℕ, zero, suc, ◌⊎◌, ◌+◌, ◌≤◌, ◌<◌, ◌≡◌, refl, bit, Bool, false, if◌then◌else◌, List, [], ◌∷◌, ◌++◌,
  Option, none, some, inl, Text, arith,
}
use lm_server.Types.{QueueClass, low_latency, high_latency, same_class}
use lm_server.Orchestrator.State.{Orchestrator}
use lm_server.System.{
  Task, acquiring, unpausing, serving, destroying, Event, lock, failed, canceled, released, advance,
  goroutine,
}
use lm_server.Gateway.{
  Role, working, answering, background, Process, is_request, has_request, with_roles, freed,
  one_more, one_less, run_process, handed, hand_over,
}

abbrev pub works_for : QueueClass → Role → Bool
works_for c (working c' job) = same_class c' c
works_for c _ = false

-- How many workers of a class are at work.
abbrev pub at_work : QueueClass → List Process → ℕ
at_work c [] = 0
at_work c (p ∷ ps) = bit (works_for c p.role) + at_work c ps

abbrev pub requests : List Task → ℕ
requests [] = 0
requests (t ∷ ts) = bit (is_request t) + requests ts

goroutine-requests : (id : Text) (x : Option Text) → requests (goroutine id x) ≡ 0
unfolding goroutine
goroutine-requests id none = refl
goroutine-requests id (some c) = refl

-- A request's step leaves the request, or nothing of it.
pub advance-requests : (o : Orchestrator) (t : Task) (e : Event) → requests (advance o t e).1 ≤ 1
unfolding advance
advance-requests o (acquiring p) canceled = omega arith
advance-requests o (unpausing p id) (failed e) = ground (arith, goroutine-requests id)
advance-requests o (serving l) (released err now) = ground (arith, goroutine-requests l.slot_id)
advance-requests o (destroying id container) (lock now stamp) = omega arith
advance-requests o t e = ground arith

at_work-append :
    (c : QueueClass) (ps qs : List Process) → at_work c (ps ++ qs) ≡ at_work c ps + at_work c qs
at_work-append c [] qs = omega arith
at_work-append c (p ∷ ps) qs = omega (arith, at_work-append c ps qs)

at_work-with_roles :
    (c : QueueClass) (r : Role) (ts : List Task)
    → at_work c (with_roles r ts) ≡ (if works_for c r then requests ts else 0)
at_work-with_roles c r [] = ground arith
at_work-with_roles c r (t ∷ ts) = ground (arith, at_work-with_roles c r ts)

requests-has_request : (ts : List Task) → (has_request ts ≡ false) ⊎ (0 < requests ts)
requests-has_request [] = inl refl
requests-has_request (t ∷ ts) = ground (arith, requests-has_request ts)

no_request : (ts : List Task) → has_request ts ≡ false → requests ts ≡ 0
no_request [] h = refl
no_request (t ∷ ts) h = ground (arith, no_request ts)

-- A worker that has become free, counted at a class.
abbrev pub more : Option QueueClass → QueueClass → ℕ
more none c = 0
more (some c') c = bit (same_class c' c)

pub one_more-more :
    (x : Option QueueClass) (count : QueueClass → ℕ) (c : QueueClass)
    → one_more x count c ≡ count c + more x c
one_more-more none count c = omega arith
one_more-more (some c') count c = ground arith

freed-balance :
    (c : QueueClass) (r : Role) (ts : List Task)
    → requests ts ≤ 1
    → at_work c (with_roles r ts) + more (freed r ts) c ≡ bit (works_for c r)
freed-balance c (working c' job) ts h =
    ground (arith, at_work-with_roles c (working c' job) ts, requests-has_request ts, no_request ts)
freed-balance c (answering job) ts h = ground (arith, at_work-with_roles c (answering job) ts)
freed-balance c background ts h = ground (arith, at_work-with_roles c background ts)

pub run_process-balance :
    (c : QueueClass) (o : Orchestrator) (i : ℕ) (e : Event) (ps : List Process)
    → at_work c (run_process o i e ps).1 + more (run_process o i e ps).2 c ≡ at_work c ps
unfolding run_process
run_process-balance c o i e [] = omega arith
run_process-balance c o zero e (p ∷ ps) =
    let (o', ts) = advance o p.task e in
    omega (
      arith,
      at_work-append c (with_roles p.role ts) ps,
      freed-balance c p.role ts (advance-requests o p.task e),
    )
run_process-balance c o (suc i) e (p ∷ ps) = omega (arith, run_process-balance c o i e ps)

handed-balance :
    (c : QueueClass) (r : Role) (t : Task)
    → let p : Process = record { role = r; task = t } in
      bit (works_for c (handed p).0.role) + more (handed p).1 c ≡ bit (works_for c r)
handed-balance c (working c' job) t = ground arith
handed-balance c (answering job) t = ground arith
handed-balance c background t = ground arith

pub hand_over-balance :
    (c : QueueClass) (i : ℕ) (ps : List Process)
    → at_work c (hand_over i ps).0 + more (hand_over i ps).1 c ≡ at_work c ps
unfolding hand_over
hand_over-balance c i [] = omega arith
hand_over-balance c zero (p ∷ ps) = omega (arith, handed-balance c p.role p.task)
hand_over-balance c (suc i) (p ∷ ps) = omega (arith, hand_over-balance c i ps)

pub one_less-balance :
    (c : QueueClass) (count : QueueClass → ℕ) (c' : QueueClass)
    → 0 < count c
    → one_less c count c' + bit (same_class c c') ≡ count c'
one_less-balance low_latency count low_latency h = ground arith
one_less-balance low_latency count high_latency h = ground arith
one_less-balance high_latency count low_latency h = ground arith
one_less-balance high_latency count high_latency h = ground arith
