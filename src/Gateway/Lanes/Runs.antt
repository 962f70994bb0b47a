-- ===== src/Gateway/Lanes/Runs.antt =====
-- Jobs, their classes and their profiles, over all moves of the gateway.
use lm_server.Prelude.{
  ℕ, ℤ, ◌+◌, ◌^◌, ◌<◌, ◌≡◌, refl, sym, ap, ◌∙◌, Bool, true, false, ◌&&◌, ltb, if◌then◌else◌, All,
  length, length-append, List, [], ◌∷◌, ◌++◌, Option, none, some, arith,
}
use lm_server.Types.{QueueClass, ContainerProfile, RequestMeta, Config}
use lm_server.Orchestrator.State.{Orchestrator}
use lm_server.Orchestrator.Select.{select_profile, new}
use lm_server.Dispatcher.Queue.{
  Submitted, queued, taken, refused, submit, Dispatcher, buffer_of, queue_in, new_dispatcher,
  receive,
}
use lm_server.System.{Event, System, Choice, run, start}
use lm_server.System.Sound.{IsSound, run-start-IsSound}
use lm_server.System.Leases.{Backed}
use lm_server.System.Leases.Runs.{start-Backed}
use lm_server.Gateway.{
  Gateway, Move, starts, arrives, fetches, quits, runs, hands_over, reorders, begin_job, sent_job,
  take_job, fetch, admit, start_workers, move, moves, open_gateway,
}
use lm_server.Gateway.View.{view, move-Simulates, run-append, gateway-run}
use lm_server.Gateway.Lanes.{
  InLane, IsOf, Sorted, run_process-InLane, run_process-SameConfig, hand_over-InLane, submit-Sorted,
  receive-Sorted,
}

-- What the tasks' own steps keep.
pub record IsBacked (sys : System) : Type 0 where
  pub sound : IsSound sys
  pub backed : All (Backed sys.orchestrator) sys.tasks

module _ (cfg : Config) (meta : ℕ → RequestMeta) where
  pub record IsLaned (g : Gateway) : Type 0 where
    pub profiles : g.orchestrator.profiles_by_class ≡ (new cfg).profiles_by_class
    pub queues : Sorted cfg meta g.dispatcher
    pub lanes : All (InLane cfg meta) g.processes

  if-IsLaned :
      (b : Bool) (g g' : Gateway)
      → (b ≡ true → IsLaned g)
      → (b ≡ false → IsLaned g')
      → IsLaned (if b then g else g')
  if-IsLaned true g g' h h' = h refl
  if-IsLaned false g g' h h' = h' refl

  pub select-same :
      (o : Orchestrator) (m : RequestMeta)
      → o.profiles_by_class ≡ (new cfg).profiles_by_class
      → select_profile o m ≡ select_profile (new cfg) m
  unfolding select_profile
  select-same o m e = rw e refl

  begin_job-IsLaned :
      (g : Gateway) (c : QueueClass) (job : ℕ) (x : Option ContainerProfile)
      → (meta job).queue_class ≡ c
      → select_profile (new cfg) (meta job) ≡ x
      → IsLaned g
      → IsLaned (begin_job meta g c job x)
  begin_job-IsLaned g c job none own chosen h = h
  begin_job-IsLaned g c job (some p) own chosen h = record {
    profiles = h.profiles;
    queues = h.queues;
    lanes = ((own, (p, chosen, refl, refl)), h.lanes);
  }

  take_job-IsLaned :
      (g : Gateway) (c : QueueClass) (r : Dispatcher × Option ℕ)
      → Sorted cfg meta r.0
      → ((job : ℕ) → r.1 ≡ some job → (meta job).queue_class ≡ c)
      → IsLaned g
      → IsLaned (take_job meta g c r)
  take_job-IsLaned g c (d, none) sorted own h = record {
    profiles = h.profiles;
    queues = sorted;
    lanes = h.lanes;
  }
  take_job-IsLaned g c (d, some job) sorted own h =
      begin_job-IsLaned (record g { dispatcher = d }) c job _ (own job refl)
        (sym (select-same g.orchestrator (meta job) h.profiles))
        (record { profiles = h.profiles; queues = sorted; lanes = h.lanes })

  sent_job-IsLaned :
      (g : Gateway) (c : QueueClass) (job : ℕ) (r : Dispatcher × Submitted)
      → (meta job).queue_class ≡ c
      → Sorted cfg meta r.0
      → IsLaned g
      → IsLaned (sent_job meta g c job r)
  sent_job-IsLaned g c job (d, taken) own sorted h =
      begin_job-IsLaned (record g { dispatcher = d }) c job _ own
        (sym (select-same g.orchestrator (meta job) h.profiles))
        (record { profiles = h.profiles; queues = sorted; lanes = h.lanes })
  sent_job-IsLaned g c job (d, queued) own sorted h = record {
    profiles = h.profiles;
    queues = sorted;
    lanes = h.lanes;
  }
  sent_job-IsLaned g c job (d, refused e) own sorted h = record {
    profiles = h.profiles;
    queues = sorted;
    lanes = h.lanes;
  }

  admit-IsLaned :
      (g : Gateway) (job : ℕ) (done first parked : Bool)
      → IsLaned g
      → IsLaned (admit meta g job done first parked)
  unfolding admit
  admit-IsLaned g job done first parked h =
      let c = (meta job).queue_class in
      let waits = parked && ltb 0 (g.idle c) in
      sent_job-IsLaned g c job (submit g.dispatcher c job done first waits) refl
        (submit-Sorted cfg meta g.dispatcher job done first waits h.queues) h

  runs-IsLaned :
      (g : Gateway) (i : ℕ) (e : Event)
      → IsBacked (view g)
      → IsLaned g
      → IsLaned (move meta g (runs i e))
  unfolding move
  runs-IsLaned g i e b h = record {
    profiles = run_process-SameConfig cfg meta g.orchestrator i e g.processes ∙ h.profiles;
    queues = h.queues;
    lanes =
        run_process-InLane cfg meta g.orchestrator i e g.processes b.sound.store
          (λ k st. omega (arith, b.sound.owned k st)) b.backed h.lanes;
  }

  move-IsLaned : (g : Gateway) (m : Move) → IsBacked (view g) → IsLaned g → IsLaned (move meta g m)
  unfolding move
  move-IsLaned g starts b h =
      unfold start_workers in
      if-IsLaned g.started _ _ (λ e. h)
        (λ e. record { profiles = h.profiles; queues = h.queues; lanes = h.lanes })
  move-IsLaned g (arrives job done first parked) b h = admit-IsLaned g job done first parked h
  move-IsLaned g (fetches c) b h =
      let (sorted, own) = receive-Sorted cfg meta g.dispatcher c h.queues in
      unfold fetch in
      if-IsLaned (ltb 0 (g.idle c)) _ _
        (λ e. take_job-IsLaned g c (receive g.dispatcher c) sorted own h) (λ e. h)
  move-IsLaned g (quits c) b h =
      if-IsLaned (ltb 0 (g.idle c)) _ _
        (λ e. record { profiles = h.profiles; queues = h.queues; lanes = h.lanes }) (λ e. h)
  move-IsLaned g (runs i e) b h = runs-IsLaned g i e b h
  move-IsLaned g (hands_over i) b h = record {
    profiles = h.profiles;
    queues = h.queues;
    lanes = hand_over-InLane cfg meta i g.processes h.lanes;
  }
  move-IsLaned g (reorders i) b h = record {
    profiles = h.profiles;
    queues = h.queues;
    lanes = h.lanes;
  }

  run-IsBacked :
      (sys : System) (cs : List Choice)
      → length cs < 2 ^ 64
      → sys ≡ run (start cfg) cs
      → IsBacked sys
  run-IsBacked sys cs small e =
      rw e (record { sound = run-start-IsSound cfg cs small; backed = start-Backed cfg cs small })

  -- With the steps `cs` behind it, and the moves `ms` before it.
  moves-IsLaned :
      (g : Gateway) (ms : List Move) (cs : List Choice)
      → length cs + length ms < 2 ^ 64
      → view g ≡ run (start cfg) cs
      → IsLaned g
      → IsLaned (moves meta g ms)
  unfolding moves
  moves-IsLaned g [] cs small past h = h
  moves-IsLaned g (m ∷ ms) cs small past h =
      let (ds, one, next) = move-Simulates meta g m in
      moves-IsLaned (move meta g m) ms (cs ++ ds) (omega (arith, length-append cs ds))
        (next ∙ (ap (λ sys. run sys ds) past ∙ sym (run-append (start cfg) cs ds)))
        (move-IsLaned g m (run-IsBacked (view g) cs (omega arith) past) h)

  open_gateway-IsLaned : IsLaned (open_gateway cfg)
  unfolding open_gateway new_dispatcher
  open_gateway-IsLaned = record {
    profiles = refl;
    queues = λ c. new_queue-IsOf c (cfg.queue_capacity c);
    lanes = (tt, tt);
  }
    where
      new_queue-IsOf :
          (c : QueueClass) (x : Option ℤ) → All (IsOf cfg meta c) (buffer_of (queue_in x))
      new_queue-IsOf c none = tt
      new_queue-IsOf c (some n) = tt

  -- After any moves in any order (fewer than 2^64).
  pub opened-IsLaned :
      (ms : List Move) → length ms < 2 ^ 64 → IsLaned (moves meta (open_gateway cfg) ms)
  opened-IsLaned ms small =
      moves-IsLaned (open_gateway cfg) ms [] (omega arith) (unfold run open_gateway start in refl)
        open_gateway-IsLaned

  pub opened-IsBacked :
      (ms : List Move) → length ms < 2 ^ 64 → IsBacked (view (moves meta (open_gateway cfg) ms))
  opened-IsBacked ms small =
      let (cs, few, e) = gateway-run meta cfg ms in run-IsBacked _ cs (omega arith) e
