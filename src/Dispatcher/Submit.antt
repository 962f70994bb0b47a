-- ===== src/Dispatcher/Submit.antt =====
-- internal/orchestrator/dispatcher.go: `Submit` up to its second `select`: the classification of the
-- request, what the recorder gets, and the queueing.
use lm_server.Prelude.{
  ℕ, zero, suc, ◌<◌, ◌≤◌, ◌≡◌, refl, ap, sym, ◌∙◌, Text, Bool, true, false, ◌==◌, ◌&&◌, ltb, List,
  [], ◌∷◌, ◌++◌, Option, none, some, if◌then◌else◌, length, length-append, arith,
}
use mathlib.Core.List.{append-nil}
use lm_server.Types.{QueueClass, low_latency, high_latency, same_class, Backend, unset, RequestMeta}
use lm_server.Metrics.Recorder.{Call, set_classification, set_backend}
use lm_server.Classifier.Image.{GoLib}
use lm_server.Classifier.Payload.{Value, inspect_request}
use lm_server.Dispatcher.Queue.{
  Channel, Dispatcher, not_configured, queue_full, context_done, Submitted, queued, taken, refused,
  buffer_of, submit, receive,
}
use lm_server.Dispatcher.Queue.Reception.{receive-empty, receive-Takes}
use lm_server.Dispatcher.Job.{class_text, backend_text}

-- What the recorder gets, where it is not nil.
abbrev pub hint_calls : Backend → List Call
hint_calls unset = []
hint_calls b = set_backend (backend_text b) ∷ []

abbrev pub meta_calls : RequestMeta → List Call
meta_calls meta = set_classification (class_text meta.queue_class) ∷ hint_calls meta.backend_hint

module _ (go : GoLib) (unmarshal : Text → Option Value) where
  -- The job, if it is queued, is the number `job`; `done`, `first` and `parked` are as in
  -- `enqueue`.
  unfoldable pub submit_request :
      Dispatcher → Text → ℕ → Bool → Bool → Bool → Dispatcher × Submitted × List Call
  submit_request d body job done first parked =
      let meta = inspect_request go unmarshal body in
      let (d', r) = submit d meta.queue_class job done first parked in (d', r, meta_calls meta)

-- The specification: what becomes of a job, by the queue of its class.
abbrev pub admission : Option Channel → Bool → Bool → Bool → Submitted
admission none done first parked = refused not_configured
admission (some q) done first parked =
    if q.capacity == 0
    then (if done
        then (if parked && first then taken else refused context_done)
        else (if parked then taken else refused queue_full))
    else (if done
        then (if ltb (length q.buffer) q.capacity && first then queued else refused context_done)
        else (if ltb (length q.buffer) q.capacity then queued else refused queue_full))

abbrev pub is_queued : Submitted → Bool
is_queued queued = true
is_queued taken = false
is_queued (refused e) = false

pub submit-queue :
    (d : Dispatcher) (c c' : QueueClass) (job : ℕ) (done first parked : Bool)
    → ((submit d c job done first parked).1 ≡ admission (d.queues c) done first parked)
      × (buffer_of ((submit d c job done first parked).0.queues c') ≡ (
          if same_class c c' && is_queued (admission (d.queues c) done first parked)
          then buffer_of (d.queues c') ++ job ∷ []
          else buffer_of (d.queues c')))
unfolding submit
submit-queue d low_latency low_latency job done first parked = ground arith
submit-queue d low_latency high_latency job done first parked = ground arith
submit-queue d high_latency low_latency job done first parked = ground arith
submit-queue d high_latency high_latency job done first parked = ground arith

-- Only a worker that waits takes a job.
pub submit-taken :
    (d : Dispatcher) (c : QueueClass) (job : ℕ) (done first parked : Bool)
    → (submit d c job done first parked).1 ≡ taken
    → parked ≡ true
unfolding submit
submit-taken d c job done first parked e = ground arith

abbrev pub jobs_in : Option ℕ → List ℕ
jobs_in none = []
jobs_in (some job) = job ∷ []

-- What workers of a class get in a number of receptions, in order.
unfoldable pub drained : ℕ → Dispatcher → QueueClass → List ℕ
drained zero d c = []
drained (suc n) d c = let (d', x) = receive d c in jobs_in x ++ drained n d' c

same_class_refl : (c : QueueClass) → same_class c c ≡ true
same_class_refl low_latency = refl
same_class_refl high_latency = refl

drained-buffer :
    (n : ℕ) (buffer : List ℕ) (d : Dispatcher) (c : QueueClass)
    → buffer_of (d.queues c) ≡ buffer
    → length buffer ≤ n
    → drained n d c ≡ buffer
unfolding drained
drained-buffer zero [] d c e h = refl
drained-buffer zero (job ∷ rest) d c e h = grind arith
drained-buffer (suc n) [] d c e h =
    rw (receive-empty d c e) (drained-buffer n [] d c e (omega arith))
drained-buffer (suc n) (job ∷ rest) d c e h =
    let t = receive-Takes d c job rest e in
    let left : buffer_of ((receive d c).0.queues c) ≡ rest =
      t.left c ∙ rw (same_class_refl c) refl in
    rw t.got (ap (λ jobs. job ∷ jobs) (drained-buffer n rest (receive d c).0 c left (omega arith)))

-- A job goes to the end, or nothing changes.
added_last :
    (b : Bool) (job n : ℕ) (jobs : List ℕ)
    → length jobs < n
    → let added = jobs ++ (if b then job ∷ [] else []) in
      ((if b then jobs ++ job ∷ [] else jobs) ≡ added) × (length added ≤ n)
added_last true job n jobs h = (refl, omega (arith, length-append jobs (job ∷ [])))
added_last false job n jobs h = (sym (append-nil jobs), omega (arith, length-append jobs []))

-- A request goes by the class that its body is classified into. It is refused if that class has no
-- channel, if the channel cannot take it, or if its context is done (and, where the channel can take
-- it too, Go chooses so). A channel with a buffer takes it while there is room, and one without a
-- buffer just when a worker waits, who gets the job at once. What workers of any class get from then
-- on, in at least one reception more than there were jobs, is the jobs that waited, in order, and
-- after those of its own class the job, if it is queued: nothing overtakes it and none is lost.
pub submit_request-drained :
    (go : GoLib) (unmarshal : Text → Option Value) (d : Dispatcher) (body : Text) (c' : QueueClass)
    (job n : ℕ) (done first parked : Bool)
    → length (buffer_of (d.queues c')) < n
    → let c = (inspect_request go unmarshal body).queue_class in
      let r = submit_request go unmarshal d body job done first parked in
      (r.1 ≡ admission (d.queues c) done first parked)
      × (drained n r.0 c'
          ≡ buffer_of (d.queues c') ++ (if same_class c c' && is_queued r.1 then job ∷ [] else []))
unfolding submit_request
submit_request-drained go unmarshal d body c' job n done first parked h =
    let c = (inspect_request go unmarshal body).queue_class in
    let (answer, buffers) = submit-queue d c c' job done first parked in
    let (last, few) =
      added_last (same_class c c' && is_queued (admission (d.queues c) done first parked)) job n
        (buffer_of (d.queues c')) h in
    (
      answer,
      rw answer (drained-buffer n _ (submit d c job done first parked).0 c' (buffers ∙ last) few),
    )
