-- ===== src/Orchestrator/Reserved.antt =====
-- internal/orchestrator/orchestrator.go: `launchReservedSlot` and `resumeReservedSlot` as a whole,
-- with Docker and the wait for the container. What other tasks do meanwhile to the slots is an
-- argument; the containers that they create or remove are left out.
use lm_server.Prelude.{ℕ, Text, codes, ◌++◌, false, Option, none, some, inl, inr}
use lm_server.Types.{ContainerProfile}
use lm_server.Orchestrator.State.{Orchestrator, Lease, GoError}
use lm_server.Orchestrator.Slots.{
  LaunchedContainer, begin_launch, finish_launch, abort_launch, begin_resume, finish_resume,
  destroy_slot,
}
use lm_server.Orchestrator.Ready.{Health, Wait, waiting, ready, gave_up, wait_until_ready}
use lm_server.Docker.Client.{Client, Containers, remove_container, unpause_container}
use lm_server.Docker.Launch.{Launched, Outcome, launch_ephemeral_container}

-- `pending` is a method that still waits when the fuel of its wait has ended.
pub data Reservation : Type 0 where
  leased : Lease → Reservation
  refused : GoError → Reservation
  pending : Reservation

-- The orchestrator and the containers at the end of a method, what it returns, and the container
-- that a goroutine of `destroySlot` removes, if the method has started one.
pub record Finished : Type 0 where
  pub orchestrator : Orchestrator
  pub containers : Containers
  pub reservation : Reservation
  pub removal : Option Text

-- The errors of `fmt.Errorf`.
abbrev pub slot_error : Text → Text → GoError
slot_error id what = record {
  text = codes "slot " ++ (id ++ what);
  is_unhealthy_upstream = false;
  is_canceled = false;
  is_deadline_exceeded = false;
  net_timeout = none;
}

abbrev pub with_lease : Containers → GoError → Orchestrator × Option Lease → Finished
with_lease cs e (o, some lease) = record {
  orchestrator = o;
  containers = cs;
  reservation = leased lease;
  removal = none;
}
with_lease cs e (o, none) = record {
  orchestrator = o;
  containers = cs;
  reservation = refused e;
  removal = none;
}

-- What a slot keeps of a container.
abbrev pub kept_of : Launched → LaunchedContainer
kept_of l = record {
  container_id = l.container_id;
  target_url = l.target_url;
  health_url = l.health_url;
}

-- Docker; how the container behind a health URL answers; the arguments of `waitUntilReady`: the
-- interval, the time at which the context is done and its error then, the fuel and the time; and the
-- time when the lock is taken again.
pub record World : Type 0 where
  pub docker : Client
  pub health : Text → Health
  pub interval : ℕ
  pub over : ℕ
  pub why : GoError
  pub fuel : ℕ
  pub asked : ℕ
  pub now : ℕ

module _ (w : World) where
  abbrev pub waits : Text → Wait
  waits url = (wait_until_ready (w.health url) w.interval w.over w.why url w.fuel w.asked).0

  -- `o` is the orchestrator when the lock is taken again.
  abbrev pub after_wait : Orchestrator → Containers → Text → Launched → Wait → Finished
  after_wait o cs id l ready =
      with_lease cs (slot_error id (codes " vanished during launch"))
        (finish_launch o id (kept_of l) w.now)
  after_wait o cs id l (gave_up e) = record {
    orchestrator = abort_launch o id;
    containers = (remove_container w.docker cs l.container_id).0;
    reservation = refused e;
    removal = none;
  }
  after_wait o cs id l waiting = record {
    orchestrator = o;
    containers = cs;
    reservation = pending;
    removal = none;
  }

  abbrev pub after_launch : Orchestrator → Text → Outcome → Finished
  after_launch o id (cs, inr e) = record {
    orchestrator = abort_launch o id;
    containers = cs;
    reservation = refused e;
    removal = none;
  }
  after_launch o id (cs, inl l) = after_wait o cs id l (waits l.health_url)

  abbrev pub after_begin_launch :
      Orchestrator → Orchestrator → Containers → Text → Option (ContainerProfile × Text) → Finished
  after_begin_launch o o' cs id none =
      with_lease cs (slot_error id (codes " no longer available for launch")) (o, none)
  after_begin_launch o o' cs id (some (p, name)) =
      after_launch o' id (launch_ephemeral_container w.docker cs p name)

  -- `o` is the orchestrator at the start, and `o'` the one when the lock is taken again.
  unfoldable pub launch_reserved_slot : Orchestrator → Orchestrator → Containers → Text → Finished
  unfolding begin_launch finish_launch abort_launch launch_ephemeral_container remove_container
      wait_until_ready
  launch_reserved_slot o o' cs id = after_begin_launch o o' cs id (begin_launch o id)

  -- `destroySlot`, and the return of the error.
  abbrev pub destroyed : Containers → GoError → Orchestrator × Option Text → Finished
  destroyed cs e (o, removal) = record {
    orchestrator = o;
    containers = cs;
    reservation = refused e;
    removal = removal;
  }

  abbrev pub after_resumed : Orchestrator → Containers → Text → Wait → Finished
  after_resumed o cs id ready =
      with_lease cs (slot_error id (codes " vanished during resume")) (finish_resume o id w.now)
  after_resumed o cs id (gave_up e) = destroyed cs e (destroy_slot o id)
  after_resumed o cs id waiting = record {
    orchestrator = o;
    containers = cs;
    reservation = pending;
    removal = none;
  }

  abbrev pub after_unpause : Orchestrator → Containers → Text → Text → Option GoError → Finished
  after_unpause o cs id url (some e) = destroyed cs e (destroy_slot o id)
  after_unpause o cs id url none = after_resumed o cs id (waits url)

  abbrev pub after_begin_resume :
      Orchestrator → Orchestrator → Containers → Text → Option (Text × Text) → Finished
  after_begin_resume o o' cs id none =
      with_lease cs (slot_error id (codes " no longer available for resume")) (o, none)
  after_begin_resume o o' cs id (some (container, url)) =
      after_unpause o' cs id url (unpause_container w.docker container)

  unfoldable pub resume_reserved_slot : Orchestrator → Orchestrator → Containers → Text → Finished
  unfolding begin_resume finish_resume destroy_slot unpause_container wait_until_ready
  resume_reserved_slot o o' cs id = after_begin_resume o o' cs id (begin_resume o id)
