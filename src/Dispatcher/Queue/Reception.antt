-- ===== src/Dispatcher/Queue/Reception.antt =====
-- What a worker gets from a queue, by the queue's buffer.
use lm_server.Prelude.{ℕ, ◌≡◌, List, [], ◌∷◌, none, some, if◌then◌else◌, inl, inr, arith}
use lm_server.Types.{QueueClass, low_latency, high_latency, same_class}
use lm_server.Dispatcher.Queue.{Dispatcher, buffer_of, receive}
use lm_server.Dispatcher.Queue.Fifo.{buffer_cases}

-- Nothing is there, and nothing changes; or the oldest job is taken from its queue.
pub record Takes (d : Dispatcher) (c : QueueClass) (job : ℕ) (rest : List ℕ) : Type 0 where
  pub was : buffer_of (d.queues c) ≡ job ∷ rest
  pub got : (receive d c).1 ≡ some job
  pub left :
      (c' : QueueClass)
      → buffer_of ((receive d c).0.queues c')
        ≡ (if same_class c c' then rest else buffer_of (d.queues c'))

pub receive-empty :
    (d : Dispatcher) (c : QueueClass) → buffer_of (d.queues c) ≡ [] → receive d c ≡ (d, none)
unfolding receive
receive-empty d c e = elim (buffer_cases (d.queues c)) [
  | inl (inl f) ↦ ground arith
  | inl (inr (q, (f, f'))) ↦ ground arith
  | inr (q, job, rest, (f, f')) ↦ ground arith
]

receive-left :
    (d : Dispatcher) (c : QueueClass) (job : ℕ) (rest : List ℕ)
    → buffer_of (d.queues c) ≡ job ∷ rest
    → (c' : QueueClass)
    → buffer_of ((receive d c).0.queues c')
      ≡ (if same_class c c' then rest else buffer_of (d.queues c'))
unfolding receive
receive-left d low_latency job rest e low_latency = elim (buffer_cases (d.queues low_latency)) [
  | inl (inl f) ↦ ground arith
  | inl (inr (q, (f, f'))) ↦ ground arith
  | inr (q, other, more, (f, f')) ↦ ground arith
]
receive-left d low_latency job rest e high_latency = elim (buffer_cases (d.queues low_latency)) [
  | inl (inl f) ↦ ground arith
  | inl (inr (q, (f, f'))) ↦ ground arith
  | inr (q, other, more, (f, f')) ↦ ground arith
]
receive-left d high_latency job rest e low_latency = elim (buffer_cases (d.queues high_latency)) [
  | inl (inl f) ↦ ground arith
  | inl (inr (q, (f, f'))) ↦ ground arith
  | inr (q, other, more, (f, f')) ↦ ground arith
]
receive-left d high_latency job rest e high_latency = elim (buffer_cases (d.queues high_latency)) [
  | inl (inl f) ↦ ground arith
  | inl (inr (q, (f, f'))) ↦ ground arith
  | inr (q, other, more, (f, f')) ↦ ground arith
]

pub receive-Takes :
    (d : Dispatcher) (c : QueueClass) (job : ℕ) (rest : List ℕ)
    → buffer_of (d.queues c) ≡ job ∷ rest
    → Takes d c job rest
unfolding receive
receive-Takes d c job rest e = record { was = e; got = got; left = receive-left d c job rest e }
  where
    got : (receive d c).1 ≡ some job
    got = elim (buffer_cases (d.queues c)) [
      | inl (inl f) ↦ ground arith
      | inl (inr (q, (f, f'))) ↦ ground arith
      | inr (q, other, more, (f, f')) ↦ ground arith
    ]
