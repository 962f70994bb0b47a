-- ===== src/System/Detail.antt =====
-- `launchReservedSlot` and `resumeReservedSlot` in full are what the steps of a task say of them.
mod Tests
use lm_server.Prelude.{
  ℕ, suc, ◌+◌, ◌<◌, ◌≡◌, ◌≢◌, refl, sym, subst, Text, [], ◌∷◌, Option, none, some, ◌⊎◌, inl, inr,
}
use lm_server.Types.{ContainerProfile}
use lm_server.Store.{lookup}
use lm_server.Orchestrator.State.{ContainerSlot, Orchestrator, GoError, new_lease_locked}
use lm_server.Orchestrator.Slots.{
  begin_launch, begin_resume, finish_launch, finish_resume, destroy_slot, LaunchedContainer,
}
use lm_server.Orchestrator.Ready.{
  Wait, waiting, ready, gave_up, wait_until_ready, wait_until_ready-ends,
}
use lm_server.Orchestrator.Reserved.{
  Reservation, leased, refused, pending, Finished, kept_of, World, waits, after_wait, after_launch,
  after_begin_launch, after_begin_resume, destroyed, after_resumed, after_unpause,
  launch_reserved_slot, resume_reserved_slot,
}
use lm_server.Docker.Client.{ContainerConfig, HostConfig, Client, Containers, unpause_container}
use lm_server.Docker.Launch.{
  Launched, Outcome, Lacks, IsAccounted, launch_ephemeral_container, launch-IsAccounted,
  undo-IsAccounted,
}
use lm_server.System.{
  Task, acquiring, starting_up, unpausing, serving, Event, answered, failed, advance, served,
  goroutine,
}

-- The waits end: there is a pause between rounds, and fuel for as many rounds as `waitUntilReady` can
-- need.
pub record IsEnding (w : World) : Type 0 where
  pub rounds_left : ℕ
  pub fuelled : w.fuel ≡ suc rounds_left
  pub paced : 0 < w.interval
  pub enough : w.over < w.asked + rounds_left

-- What the request's task becomes, in the loop of `Acquire`.
abbrev pub next_task : ContainerProfile → Task → Reservation → Task
next_task p t (leased l) = serving l
next_task p t (refused e) = acquiring p
next_task p t pending = t

-- A lease comes with its container; behind an error no container is left, unless its removal failed.
abbrev pub Accounts : Client → Containers → Reservation → Containers → Type 0
Accounts d cs (leased l) cs' = cs' ≡ l.container_id ∷ cs
Accounts d cs (refused e) cs' = (cs' ≡ cs) ⊎ ((id : Text) × (d.remove id ≢ none) × (cs' ≡ id ∷ cs))
Accounts d cs pending cs' = ⊥

-- The end of a launch is a step of its task.
abbrev pub Launches :
    Client → Orchestrator → ContainerProfile → Text → Containers → Finished → Type 0
Launches d o p id cs f =
    ((e : Event) × (advance o (starting_up p id) e
        ≡ (f.orchestrator, next_task p (starting_up p id) f.reservation ∷ [])))
    × Accounts d cs f.reservation f.containers

-- The end of a resumption is a step of its task, and nothing happens to the containers.
abbrev pub Resumes : Orchestrator → ContainerProfile → Text → Containers → Finished → Type 0
Resumes o p id cs f =
    ((e : Event) × (advance o (unpausing p id) e
        ≡ (f.orchestrator, next_task p (unpausing p id) f.reservation ∷ goroutine id f.removal)))
    × (f.reservation ≢ pending)
    × (f.containers ≡ cs)

-- The step after an unpausing does not look at the container.
abbrev no_container : LaunchedContainer
no_container = record { container_id = []; target_url = []; health_url = [] }

module _ (w : World) (ends : IsEnding w) where
  waits-end : (url : Text) → waits w url ≢ waiting
  waits-end url =
      subst
        (λ n. (wait_until_ready (w.health url) w.interval w.over w.why url n w.asked).0 ≢ waiting)
        (sym ends.fuelled)
        (wait_until_ready-ends (w.health url) w.interval w.over w.why url ends.rounds_left w.asked
          ends.paced ends.enough).0

  module _ (o : Orchestrator) (p : ContainerProfile) (id : Text) (s : ContainerSlot)
      (found : lookup id o.slots ≡ some s) where
    waited-Launches :
        (cs : Containers) (l : Launched) (r : Wait)
        → r ≢ waiting
        → Lacks l.container_id cs
        → Launches w.docker o p id cs (after_wait w o (l.container_id ∷ cs) id l r)
    unfolding advance served finish_launch new_lease_locked
    waited-Launches cs l ready n new =
        rw (found, finish_launch)
          ((answered (kept_of l) w.now, rw (found, finish_launch) refl), refl)
    waited-Launches cs l (gave_up e) n new =
        ((failed e, refl), undo-IsAccounted w.docker cs l.container_id e new)
    waited-Launches cs l waiting n new = absurd (n refl)

    outcome-Launches :
        (cs : Containers) (r : Outcome)
        → IsAccounted w.docker cs r
        → Launches w.docker o p id cs (after_launch w o id r)
    unfolding advance
    outcome-Launches cs (cs', inr e) acc = ((failed e, refl), acc)
    outcome-Launches cs (cs', inl l) (acc, new) =
        rw acc (waited-Launches cs l (waits w l.health_url) (waits-end l.health_url) new)

    begun-Launches :
        (first : Orchestrator) (cs : Containers) (r : Option (ContainerProfile × Text))
        → ((x : ContainerProfile × Text) × (r ≡ some x))
        → ((c : ContainerConfig) (h : HostConfig) (name n : Text)
            → w.docker.create c h name ≡ inl n
            → Lacks n cs)
        → Launches w.docker o p id cs (after_begin_launch w first o cs id r)
    begun-Launches first cs none (x, e) new = cc
    begun-Launches first cs (some (q, name)) (x, e) new =
        outcome-Launches cs (launch_ephemeral_container w.docker cs q name)
          (launch-IsAccounted w.docker cs q name (λ c h n. new c h name n))

    destroyed-Resumes :
        (cs : Containers) (e : GoError) → Resumes o p id cs (destroyed w cs e (destroy_slot o id))
    unfolding advance destroy_slot goroutine
    destroyed-Resumes cs e =
        rw (found, destroy_slot) ((failed e, rw (found, destroy_slot) refl), (λ h. cc), refl)

    waited-Resumes :
        (cs : Containers) (r : Wait) → r ≢ waiting → Resumes o p id cs (after_resumed w o cs id r)
    unfolding advance served finish_resume goroutine
    waited-Resumes cs ready n =
        rw (found, finish_resume)
          ((answered no_container w.now, rw (found, finish_resume) refl), (λ h. cc), refl)
    waited-Resumes cs (gave_up e) n = destroyed-Resumes cs e
    waited-Resumes cs waiting n = absurd (n refl)

    unpaused-Resumes :
        (cs : Containers) (url : Text) (r : Option GoError)
        → Resumes o p id cs (after_unpause w o cs id url r)
    unpaused-Resumes cs url (some e) = destroyed-Resumes cs e
    unpaused-Resumes cs url none = waited-Resumes cs (waits w url) (waits-end url)

    begun-Resumes :
        (first : Orchestrator) (cs : Containers) (r : Option (Text × Text))
        → ((x : Text × Text) × (r ≡ some x))
        → Resumes o p id cs (after_begin_resume w first o cs id r)
    unfolding unpause_container
    begun-Resumes first cs none (x, e) = cc
    begun-Resumes first cs (some (container, url)) (x, e) =
        unpaused-Resumes cs url (unpause_container w.docker container)

  -- Let the waits end, and let Docker give new containers new IDs. Where the slot passes the check at
  -- the start of `launchReservedSlot`, and is there when the lock is taken again, the method returns,
  -- whatever Docker and the container answer, and its end is a step of the task that has reserved the
  -- slot: the orchestrator is that of the step, and the request serves or goes back into the loop of
  -- `Acquire` as it says. With a lease, the lease's container has come to the containers; with an
  -- error they are as before, unless a removal failed too, which leaves that one container behind.
  pub launch_reserved_slot-advance :
      (first o : Orchestrator) (cs : Containers) (p : ContainerProfile) (id : Text)
      (x : ContainerProfile × Text) (s : ContainerSlot)
      → begin_launch first id ≡ some x
      → lookup id o.slots ≡ some s
      → ((c : ContainerConfig) (h : HostConfig) (name n : Text)
          → w.docker.create c h name ≡ inl n
          → Lacks n cs)
      → Launches w.docker o p id cs (launch_reserved_slot w first o cs id)
  unfolding launch_reserved_slot
  launch_reserved_slot-advance first o cs p id x s e found new =
      begun-Launches o p id s found first cs (begin_launch first id) (x, e) new

  -- Let the waits end. Where the slot passes the check at the start of `resumeReservedSlot`, and is
  -- there when the lock is taken again, the method returns, whatever Docker and the container answer,
  -- and its end is a step of the task that has reserved the slot: the orchestrator is that of the
  -- step, the request serves or goes back into the loop of `Acquire` as it says, and the goroutine
  -- of `destroySlot` that is started, if any, is the step's. The method itself removes no container.
  pub resume_reserved_slot-advance :
      (first o : Orchestrator) (cs : Containers) (p : ContainerProfile) (id : Text)
      (x : Text × Text) (s : ContainerSlot)
      → begin_resume first id ≡ some x
      → lookup id o.slots ≡ some s
      → Resumes o p id cs (resume_reserved_slot w first o cs id)
  unfolding resume_reserved_slot
  resume_reserved_slot-advance first o cs p id x s e found =
      begun-Resumes o p id s found first cs (begin_resume first id) (x, e)
