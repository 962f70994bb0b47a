-- ===== src/Dispatcher/Queue/Fifo.antt =====
-- The queues lose, repeat and reorder no job, and stay within their capacities.
use lm_server.Prelude.{
  ℕ, ◌≤◌, ◌≡◌, refl, pos_part, Bool, List, [], ◌∷◌, ◌++◌, Option, none, some, length, length-append,
  arith, Option-cases, inl, inr, ◌⊎◌,
}
use mathlib.Core.List.{append_assoc, append-nil}
use lm_server.Types.{QueueClass, Config, low_latency, high_latency}
use lm_server.Dispatcher.Queue.{
  Channel, int_in, new_dispatcher, buffer_of, submit, receive, Op, submits, receives, Log, step,
  run, start,
}

-- The room in the channel that a queue has.
abbrev room_of : Option Channel → ℕ
room_of none = 0
room_of (some q) = q.capacity

record IsFifo (cfg : Config) (l : Log) (c : QueueClass) : Type 0 where
  order : l.received_jobs c ++ buffer_of (l.dispatcher.queues c) ≡ l.queued_jobs c
  room : room_of (l.dispatcher.queues c) ≡ pos_part (int_in (cfg.queue_capacity c))
  bounded : length (buffer_of (l.dispatcher.queues c)) ≤ room_of (l.dispatcher.queues c)

pub List-cases : (xs : List ℕ) → (xs ≡ []) ⊎ ((x : ℕ) × (rest : List ℕ) × (xs ≡ x ∷ rest))
List-cases [] = inl refl
List-cases (x ∷ rest) = inr (x, rest, refl)

submit-IsFifo :
    (cfg : Config) (l : Log) (c c' : QueueClass) (job : ℕ) (done first parked : Bool)
    → IsFifo cfg l c
    → IsFifo cfg l c'
    → IsFifo cfg (step l (submits c job done first parked)) c'
unfolding step submit
submit-IsFifo cfg l low_latency low_latency job done first parked h h' =
    elim (List-cases (buffer_of (l.dispatcher.queues low_latency))) [
      | inl e ↦ ground (
        arith,
        e,
        append-nil (l.received_jobs low_latency),
        append-nil (l.received_jobs low_latency ++ job ∷ []),
      )
      | inr (x, rest, e) ↦ ground (
        arith,
        e,
        append_assoc (l.received_jobs low_latency) (buffer_of (l.dispatcher.queues low_latency))
            (job ∷ []),
        length-append (buffer_of (l.dispatcher.queues low_latency)) (job ∷ []),
      )
    ]
submit-IsFifo cfg l low_latency high_latency job done first parked h h' = ground arith
submit-IsFifo cfg l high_latency low_latency job done first parked h h' = ground arith
submit-IsFifo cfg l high_latency high_latency job done first parked h h' =
    elim (List-cases (buffer_of (l.dispatcher.queues high_latency))) [
      | inl e ↦ ground (
        arith,
        e,
        append-nil (l.received_jobs high_latency),
        append-nil (l.received_jobs high_latency ++ job ∷ []),
      )
      | inr (x, rest, e) ↦ ground (
        arith,
        e,
        append_assoc (l.received_jobs high_latency) (buffer_of (l.dispatcher.queues high_latency))
            (job ∷ []),
        length-append (buffer_of (l.dispatcher.queues high_latency)) (job ∷ []),
      )
    ]

-- No queue, an empty one, or one with an oldest job.
pub buffer_cases :
    (o : Option Channel)
    → ((o ≡ none) ⊎ ((q : Channel) × ((o ≡ some q) × (q.buffer ≡ []))))
      ⊎ ((q : Channel) × (job : ℕ) × (rest : List ℕ) × ((o ≡ some q) × (q.buffer ≡ job ∷ rest)))
buffer_cases none = inl (inl refl)
buffer_cases (some q) = elim (List-cases q.buffer) [
  | inl e ↦ inl (inr (q, (refl, e)))
  | inr (job, rest, e) ↦ inr (q, job, rest, (refl, e))
]

receive-IsFifo :
    (cfg : Config) (l : Log) (c c' : QueueClass)
    → IsFifo cfg l c
    → IsFifo cfg l c'
    → IsFifo cfg (step l (receives c)) c'
unfolding step receive
receive-IsFifo cfg l low_latency low_latency h h' =
    elim (buffer_cases (l.dispatcher.queues low_latency)) [
      | inl (inl e) ↦ ground arith
      | inl (inr (q, (e, e'))) ↦ ground arith
      | inr (q, job, rest, (e, e')) ↦
          ground (arith, append_assoc (l.received_jobs low_latency) (job ∷ []) rest)
    ]
receive-IsFifo cfg l low_latency high_latency h h' =
    elim (buffer_cases (l.dispatcher.queues low_latency)) [
      | inl (inl e) ↦ ground arith
      | inl (inr (q, (e, e'))) ↦ ground arith
      | inr (q, job, rest, (e, e')) ↦
          ground (arith, append_assoc (l.received_jobs low_latency) (job ∷ []) rest)
    ]
receive-IsFifo cfg l high_latency low_latency h h' =
    elim (buffer_cases (l.dispatcher.queues high_latency)) [
      | inl (inl e) ↦ ground arith
      | inl (inr (q, (e, e'))) ↦ ground arith
      | inr (q, job, rest, (e, e')) ↦
          ground (arith, append_assoc (l.received_jobs high_latency) (job ∷ []) rest)
    ]
receive-IsFifo cfg l high_latency high_latency h h' =
    elim (buffer_cases (l.dispatcher.queues high_latency)) [
      | inl (inl e) ↦ ground arith
      | inl (inr (q, (e, e'))) ↦ ground arith
      | inr (q, job, rest, (e, e')) ↦
          ground (arith, append_assoc (l.received_jobs high_latency) (job ∷ []) rest)
    ]

step-IsFifo :
    (cfg : Config) (l : Log) (op : Op)
    → ((c : QueueClass) → IsFifo cfg l c)
    → (c : QueueClass) → IsFifo cfg (step l op) c
step-IsFifo cfg l (submits c job done first parked) h c' =
    submit-IsFifo cfg l c c' job done first parked (h c) (h c')
step-IsFifo cfg l (receives c) h c' = receive-IsFifo cfg l c c' (h c) (h c')

run-IsFifo :
    (cfg : Config) (l : Log) (ops : List Op)
    → ((c : QueueClass) → IsFifo cfg l c)
    → (c : QueueClass) → IsFifo cfg (run l ops) c
unfolding run
run-IsFifo cfg l [] h = h
run-IsFifo cfg l (op ∷ ops) h = run-IsFifo cfg (step l op) ops (step-IsFifo cfg l op h)

start-IsFifo : (cfg : Config) (c : QueueClass) → IsFifo cfg (start cfg) c
unfolding new_dispatcher
start-IsFifo cfg c = elim (Option-cases (cfg.queue_capacity c)) [
  | inl e ↦ ground arith
  | inr (n, e) ↦ ground arith
]

-- After any sequence of submissions and receptions the jobs that workers have got from a class,
-- followed by those that wait in its queue, are the jobs that were accepted for it, in the order of
-- their acceptance; and no more wait than the configured capacity.
pub queue_fifo :
    (cfg : Config) (ops : List Op) (c : QueueClass)
    → ((run (start cfg) ops).received_jobs c
          ++ buffer_of ((run (start cfg) ops).dispatcher.queues c)
        ≡ (run (start cfg) ops).queued_jobs c)
      × (length (buffer_of ((run (start cfg) ops).dispatcher.queues c))
          ≤ pos_part (int_in (cfg.queue_capacity c)))
queue_fifo cfg ops c =
    let h = run-IsFifo cfg (start cfg) ops (start-IsFifo cfg) c in (h.order, ground arith)
