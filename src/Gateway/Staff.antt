-- ===== src/Gateway/Staff.antt =====
-- The workers of each class: idle, at work on one job each, or gone.
use lm_server.Prelude.{
  ◌<◌, ℕ, ◌+◌, ◌≤◌, ◌≡◌, refl, ◌∙◌, Bool, true, false, ◌&&◌, ltb, if◌then◌else◌, List, [], ◌∷◌,
  Option, none, some, inl, arith, ℤ, pos, negsuc, pos_part, leb_ℤ, sym, Option-cases, inr,
}
use lm_server.Types.{QueueClass, low_latency, high_latency, ContainerProfile, RequestMeta, Config}
use lm_server.Dispatcher.Submit.{submit-taken}
use lm_server.Dispatcher.Queue.{
  Submitted, queued, taken, refused, int_in, Dispatcher, new_dispatcher, submit, receive,
  worker_count,
}
use lm_server.Gateway.{
  Gateway, Move, starts, arrives, fetches, quits, runs, hands_over, reorders, one_more, one_less,
  run_process, hand_over, staff, begin_job, sent_job, take_job, fetch, admit, start_workers, move,
  moves, open_gateway,
}
use lm_server.Gateway.Counts.{
  at_work, run_process-balance, hand_over-balance, one_more-more, one_less-balance,
}

-- Every worker that `Start` has started is idle, at work on one job, or has returned.
pub record IsStaffed (cfg : Config) (g : Gateway) : Type 0 where
  pub posts : (c : QueueClass) → staff g.dispatcher c ≡ staff (new_dispatcher cfg) c
  pub balance :
      (c : QueueClass)
      → g.idle c + at_work c g.processes + g.stopped c
        ≡ (if g.started then staff (new_dispatcher cfg) c else 0)

submit-staff :
    (d : Dispatcher) (c : QueueClass) (job : ℕ) (done first parked : Bool) (c' : QueueClass)
    → staff (submit d c job done first parked).0 c' ≡ staff d c'
unfolding submit worker_count
submit-staff d low_latency job done first parked low_latency = ground arith
submit-staff d low_latency job done first parked high_latency = ground arith
submit-staff d high_latency job done first parked low_latency = ground arith
submit-staff d high_latency job done first parked high_latency = ground arith

receive-staff : (d : Dispatcher) (c c' : QueueClass) → staff (receive d c).0 c' ≡ staff d c'
unfolding receive worker_count
receive-staff d low_latency low_latency = ground arith
receive-staff d low_latency high_latency = ground arith
receive-staff d high_latency low_latency = ground arith
receive-staff d high_latency high_latency = ground arith

module _ (meta : ℕ → RequestMeta) (cfg : Config) where
  if-IsStaffed :
      (b : Bool) (g g' : Gateway)
      → (b ≡ true → IsStaffed cfg g)
      → (b ≡ false → IsStaffed cfg g')
      → IsStaffed cfg (if b then g else g')
  if-IsStaffed true g g' h h' = h refl
  if-IsStaffed false g g' h h' = h' refl

  begin_job-IsStaffed :
      (g : Gateway) (c : QueueClass) (job : ℕ) (x : Option ContainerProfile)
      → 0 < g.idle c
      → IsStaffed cfg g
      → IsStaffed cfg (begin_job meta g c job x)
  begin_job-IsStaffed g c job none h s = s
  begin_job-IsStaffed g c job (some p) h s = record {
    posts = s.posts;
    balance = λ c'. omega (arith, s.balance c', one_less-balance c g.idle c' h);
  }

  sent_job-IsStaffed :
      (g : Gateway) (c : QueueClass) (job : ℕ) (r : Dispatcher × Submitted)
      → (r.1 ≡ taken → 0 < g.idle c)
      → ((c' : QueueClass) → staff r.0 c' ≡ staff g.dispatcher c')
      → IsStaffed cfg g
      → IsStaffed cfg (sent_job meta g c job r)
  sent_job-IsStaffed g c job (d, taken) free same s =
      begin_job-IsStaffed (record g { dispatcher = d }) c job _ (free refl)
        (record { posts = λ c'. same c' ∙ s.posts c'; balance = s.balance })
  sent_job-IsStaffed g c job (d, queued) free same s = record {
    posts = λ c'. same c' ∙ s.posts c';
    balance = s.balance;
  }
  sent_job-IsStaffed g c job (d, refused e) free same s = record {
    posts = λ c'. same c' ∙ s.posts c';
    balance = s.balance;
  }

  waits_idle : (parked : Bool) (n : ℕ) → (parked && ltb 0 n) ≡ true → 0 < n
  waits_idle parked n e = ground arith

  admit-IsStaffed :
      (g : Gateway) (job : ℕ) (done first parked : Bool)
      → IsStaffed cfg g
      → IsStaffed cfg (admit meta g job done first parked)
  unfolding admit
  admit-IsStaffed g job done first parked s =
      let c = (meta job).queue_class in
      let waits = parked && ltb 0 (g.idle c) in
      sent_job-IsStaffed g c job (submit g.dispatcher c job done first waits)
        (λ e. waits_idle parked (g.idle c) (submit-taken g.dispatcher c job done first waits e))
        (submit-staff g.dispatcher c job done first waits) s

  take_job-IsStaffed :
      (g : Gateway) (c : QueueClass) (r : Dispatcher × Option ℕ)
      → 0 < g.idle c
      → ((c' : QueueClass) → staff r.0 c' ≡ staff g.dispatcher c')
      → IsStaffed cfg g
      → IsStaffed cfg (take_job meta g c r)
  take_job-IsStaffed g c (d, none) h same s = kept_dispatcher
    where
      kept_dispatcher : IsStaffed cfg (record g { dispatcher = d })
      kept_dispatcher = record { posts = λ c'. same c' ∙ s.posts c'; balance = s.balance }
  take_job-IsStaffed g c (d, some job) h same s =
      begin_job-IsStaffed (record g { dispatcher = d }) c job _ h
        (record { posts = λ c'. same c' ∙ s.posts c'; balance = s.balance })

  move-IsStaffed : (g : Gateway) (m : Move) → IsStaffed cfg g → IsStaffed cfg (move meta g m)
  unfolding move
  move-IsStaffed g starts s =
      unfold start_workers in
      if-IsStaffed g.started g (record g { started = true; idle = staff g.dispatcher }) (λ h. s)
        (λ h. record { posts = s.posts; balance = λ c. ground (arith, s.balance c, s.posts c) })
  move-IsStaffed g (arrives job done first parked) s = admit-IsStaffed g job done first parked s
  move-IsStaffed g (fetches c) s =
      unfold fetch in
      if-IsStaffed (ltb 0 (g.idle c)) _ _
        (λ h.
          take_job-IsStaffed g c (receive g.dispatcher c) (ground arith)
            (receive-staff g.dispatcher c) s)
        (λ h. s)
  move-IsStaffed g (quits c) s =
      if-IsStaffed (ltb 0 (g.idle c))
        (record g { idle = one_less c g.idle; stopped = one_more (some c) g.stopped }) g
        (λ h. record {
          posts = s.posts;
          balance = λ c'. omega (
            arith,
            s.balance c',
            one_less-balance c g.idle c' (ground arith),
            one_more-more (some c) g.stopped c',
          );
        })
        (λ h. s)
  move-IsStaffed g (runs i e) s = record {
    posts = s.posts;
    balance = λ c.
        let r = run_process g.orchestrator i e g.processes in
        omega (
          arith,
          s.balance c,
          run_process-balance c g.orchestrator i e g.processes,
          one_more-more r.2 g.idle c,
        );
  }
  move-IsStaffed g (hands_over i) s = record {
    posts = s.posts;
    balance = λ c. omega (
      arith,
      s.balance c,
      hand_over-balance c i g.processes,
      one_more-more (hand_over i g.processes).1 g.idle c,
    );
  }
  move-IsStaffed g (reorders i) s = record { posts = s.posts; balance = s.balance }

  moves-IsStaffed :
      (g : Gateway) (ms : List Move) → IsStaffed cfg g → IsStaffed cfg (moves meta g ms)
  unfolding moves
  moves-IsStaffed g [] s = s
  moves-IsStaffed g (m ∷ ms) s = moves-IsStaffed (move meta g m) ms (move-IsStaffed g m s)

open_gateway-IsStaffed : (cfg : Config) → IsStaffed cfg (open_gateway cfg)
unfolding open_gateway
open_gateway-IsStaffed cfg = record { posts = λ c. refl; balance = λ c. refl }

-- The specification: how many workers a configuration asks for, without a queue none, and otherwise
-- at least one.
abbrev workers_in : Option ℤ → ℕ
workers_in none = 1
workers_in (some n) = if ltb 1 (pos_part n) then pos_part n else 1

abbrev pub configured_workers : Config → QueueClass → ℕ
configured_workers cfg c = elim (cfg.queue_capacity c) [
  | none ↦ 0
  | some size ↦ workers_in (cfg.workers c)
]

workers_in-count :
    (x : Option ℤ) → pos_part (if leb_ℤ (int_in x) (pos 0) then pos 1 else int_in x) ≡ workers_in x
workers_in-count none = refl
workers_in-count (some (pos n)) = ground arith
workers_in-count (some (negsuc n)) = ground arith

staff-configured :
    (cfg : Config) (c : QueueClass) → staff (new_dispatcher cfg) c ≡ configured_workers cfg c
unfolding new_dispatcher worker_count
staff-configured cfg c = elim (Option-cases (cfg.queue_capacity c)) [
  | inl e ↦ ground (arith, e)
  | inr (size, e) ↦ ground (arith, e, workers_in-count (cfg.workers c))
]

-- Whatever happens, in any order, and however often `Start` is called: each worker of a class is
-- idle, at work on one job, or has returned, and together they are as many as the configuration says
-- (one where it says none or fewer, and none without a queue), or none before `Start`. So no more
-- requests of a class than that are ever in `Acquire` and `Forward`.
pub workers_accounted :
    (meta : ℕ → RequestMeta) (cfg : Config) (ms : List Move) (c : QueueClass)
    → let g = moves meta (open_gateway cfg) ms in
      (g.idle c + at_work c g.processes + g.stopped c
        ≡ (if g.started then configured_workers cfg c else 0))
      × (at_work c g.processes ≤ configured_workers cfg c)
workers_accounted meta cfg ms c =
    let s = moves-IsStaffed meta cfg (open_gateway cfg) ms (open_gateway-IsStaffed cfg) in
    let count = staff-configured cfg c in
    (rw (sym count) (s.balance c), ground (arith, s.balance c, count))
