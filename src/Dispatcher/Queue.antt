-- ===== src/Dispatcher/Queue.antt =====
-- internal/orchestrator/dispatcher.go: `NewDispatcher`, `Start`, the first half of `Submit`, the
-- receiving of a `worker`, and `Snapshot`.
pub mod Fifo
pub mod Reception
use lm_server.Prelude.{
  ◌==◌, ◌||◌, ◌&&◌, not, ℕ, zero, suc, ◌+◌, ◌≤◌, ◌<◌, ◌≡◌, refl, ℤ, pos, pos_part, neg_part, leb_ℤ,
  ltb, Bool, true, false, List, [], ◌∷◌, ◌++◌, Option, none, some, if◌then◌else◌, length,
  length-append, arith, Option-cases, Bool-cases, inl, inr, ap, sym, ◌∙◌,
}
use lm_server.Types.{QueueClass, same_class, Config}

-- A buffered channel, oldest first. A job is the number that its submission is known by.
pub record Channel : Type 0 where
  pub buffer : List ℕ
  pub capacity : ℕ

pub record Dispatcher : Type 0 where
  pub queues : QueueClass → Option Channel
  pub workers : QueueClass → Option ℤ
  pub capacity : QueueClass → Option ℤ

-- `make(chan *job, size)`; a negative size panics, and has no model here.
abbrev pub channel : ℤ → Channel
channel size = record { buffer = []; capacity = pos_part size }

abbrev pub queue_in : Option ℤ → Option Channel
queue_in none = none
queue_in (some size) = some (channel size)

unfoldable pub new_dispatcher : Config → Dispatcher
new_dispatcher cfg = record {
  queues = λ c. queue_in (cfg.queue_capacity c);
  workers = cfg.workers;
  capacity = cfg.queue_capacity;
}

-- A read of a `map[QueueClass]int`: 0 where the class is missing.
abbrev pub int_in : Option ℤ → ℤ
int_in none = pos 0
int_in (some n) = n

-- How many workers `Start` gives a class: at least one.
unfoldable pub worker_count : Dispatcher → QueueClass → ℤ
worker_count d c = let n = int_in (d.workers c) in if leb_ℤ n (pos 0) then pos 1 else n

pub data SubmitError : Type 0 where
  not_configured queue_full context_done : SubmitError

-- `taken` is a job that a waiting worker has got from a channel without a buffer.
pub data Submitted : Type 0 where
  queued : Submitted
  taken : Submitted
  refused : SubmitError → Submitted

abbrev pub write_queue : Dispatcher → QueueClass → Channel → Dispatcher
write_queue d c q = record d { queues = λ c'. if same_class c c' then some q else d.queues c' }

-- A channel with a buffer takes a job while it has room; one without, when a worker waits at it.
abbrev pub can_send : Channel → Bool → Bool
can_send q parked = ltb (length q.buffer) q.capacity || (q.capacity == 0 && parked)

-- The send: into the buffer, or straight to the worker.
abbrev pub send : Dispatcher → QueueClass → Channel → ℕ → Dispatcher × Submitted
send d c q job =
    if q.capacity == 0
    then (d, taken)
    else (write_queue d c (record q { buffer = q.buffer ++ job ∷ [] }), queued)

-- The first `select` of `Submit`. `done` says whether the context is done, `first` which of two
-- cases that are ready Go takes, the send or the context's, and `parked` whether a worker waits at
-- the channel.
enqueue : Dispatcher → QueueClass → Channel → ℕ → Bool → Bool → Bool → Dispatcher × Submitted
enqueue d c q job done first parked =
    if can_send q parked
    then (if done && not first then (d, refused context_done) else send d c q job)
    else (d, if done then refused context_done else refused queue_full)

unfoldable pub submit : Dispatcher → QueueClass → ℕ → Bool → Bool → Bool → Dispatcher × Submitted
unfolding enqueue
submit d c job done first parked = elim (d.queues c) [
  | none ↦ (d, refused not_configured)
  | some q ↦ enqueue d c q job done first parked
]

-- `item := <-queue` in `worker`: the oldest job, where there is one.
unfoldable pub receive : Dispatcher → QueueClass → Dispatcher × Option ℕ
receive d c = elim (d.queues c) [
  | none ↦ (d, none)
  | some q ↦ elim q.buffer [
    | [] ↦ (d, none)
    | job ∷ rest ↦ (write_queue d c (record q { buffer = rest }), some job)
  ]
]

pub record QueueSnapshot : Type 0 where
  pub pending : ℕ
  pub workers : ℤ
  pub capacity : ℤ

-- `Snapshot`, at one class; `none` is a key that the result does not hold.
unfoldable pub snapshot : Dispatcher → QueueClass → Option QueueSnapshot
snapshot d c = elim (d.queues c) [
  | none ↦ none
  | some q ↦ some (record {
    pending = length q.buffer;
    workers = int_in (d.workers c);
    capacity = int_in (d.capacity c);
  })
]

-- What goes in and out of a queue over time.
pub data Op : Type 0 where
  submits : QueueClass → ℕ → (done first parked : Bool) → Op
  receives : QueueClass → Op

abbrev pub buffer_of : Option Channel → List ℕ
buffer_of none = []
buffer_of (some q) = q.buffer

-- The jobs that a run has accepted for a class, and those that it has handed to workers, in order.
pub record Log : Type 0 where
  pub dispatcher : Dispatcher
  pub queued_jobs : QueueClass → List ℕ
  pub received_jobs : QueueClass → List ℕ

abbrev pub note : (QueueClass → List ℕ) → QueueClass → ℕ → QueueClass → List ℕ
note jobs c job c' = if same_class c c' then jobs c' ++ job ∷ [] else jobs c'

abbrev pub note_submitted : (QueueClass → List ℕ) → QueueClass → ℕ → Submitted → QueueClass → List ℕ
note_submitted jobs c job queued = note jobs c job
note_submitted jobs c job taken = note jobs c job
note_submitted jobs c job (refused e) = jobs

abbrev pub note_received : (QueueClass → List ℕ) → QueueClass → Option ℕ → QueueClass → List ℕ
note_received jobs c none = jobs
note_received jobs c (some job) = note jobs c job

-- A job that is taken has been received too.
abbrev pub note_taken : (QueueClass → List ℕ) → QueueClass → ℕ → Submitted → QueueClass → List ℕ
note_taken jobs c job taken = note jobs c job
note_taken jobs c job queued = jobs
note_taken jobs c job (refused e) = jobs

unfoldable pub step : Log → Op → Log
step l (submits c job done first parked) =
    let (d, r) = submit l.dispatcher c job done first parked in
    record l {
      dispatcher = d;
      queued_jobs = note_submitted l.queued_jobs c job r;
      received_jobs = note_taken l.received_jobs c job r;
    }
step l (receives c) =
    let (d, r) = receive l.dispatcher c in
    record l { dispatcher = d; received_jobs = note_received l.received_jobs c r }

unfoldable pub run : Log → List Op → Log
run l [] = l
run l (op ∷ ops) = run (step l op) ops

abbrev pub start : Config → Log
start cfg = record {
  dispatcher = new_dispatcher cfg;
  queued_jobs = λ _. [];
  received_jobs = λ _. [];
}
