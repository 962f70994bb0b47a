-- ===== src/Metrics/Recorder.antt =====
-- internal/metrics/recorder.go: the times and the outcome of a request.
use lm_server.Prelude.{
  ℕ, ◌+◌, ◌<◌, ◌≡◌, refl, ℤ, pos, sub_ℕ, pos_part, neg_part, Text, List, [], ◌∷◌, Option, none,
  some, if◌then◌else◌, ◌==◌, not, ◌&&◌, arith,
}

-- A `time.Time` is a number of nanoseconds, and 0 is the zero time.
pub record Recorder : Type 0 where
  pub request_id : Text
  pub started_at : ℕ
  pub enqueued_at : ℕ
  pub dispatched_at : ℕ
  pub first_token_at : ℕ
  pub completed_at : ℕ
  pub queue_class : Text
  pub backend : Text
  pub container_id : Text
  pub status_code : ℕ
  pub err_text : Text

pub record Snapshot : Type 0 where
  pub request_id : Text
  pub started_at : ℕ
  pub enqueued_at : ℕ
  pub completed_at : ℕ
  pub queue_class : Text
  pub backend : Text
  pub container_id : Text
  pub status_code : ℕ
  pub error : Text
  pub total_duration : ℤ
  pub queue_wait : ℤ
  pub ttft : ℤ
  pub generation : ℤ

unfoldable pub new_recorder : Text → ℕ → Recorder
new_recorder id now = record {
  request_id = id;
  started_at = now;
  enqueued_at = now;
  dispatched_at = 0;
  first_token_at = 0;
  completed_at = 0;
  queue_class = [];
  backend = [];
  container_id = [];
  status_code = 0;
  err_text = [];
}

-- The methods that write. `set_error none` is a call with the nil error.
pub data Call : Type 0 where
  set_classification set_backend set_container_id : Text → Call
  set_status_code : ℕ → Call
  set_error : Option Text → Call
  mark_dispatched mark_first_token mark_completed : ℕ → Call

-- A time that is set once.
abbrev pub mark : ℕ → ℕ → ℕ
mark old at = if old == 0 then at else old

unfoldable pub apply : Recorder → Call → Recorder
apply r (set_classification c) = record r { queue_class = c }
apply r (set_backend b) = record r { backend = b }
apply r (set_container_id c) = record r { container_id = c }
apply r (set_status_code s) = record r { status_code = s }
apply r (set_error none) = record r { err_text = [] }
apply r (set_error (some e)) = record r { err_text = e }
apply r (mark_dispatched at) = record r { dispatched_at = mark r.dispatched_at at }
apply r (mark_first_token at) = record r { first_token_at = mark r.first_token_at at }
apply r (mark_completed at) = record r { completed_at = mark r.completed_at at }

unfoldable pub apply_all : Recorder → List Call → Recorder
apply_all r [] = r
apply_all r (c ∷ cs) = apply_all (apply r c) cs

unfoldable pub snapshot : Recorder → ℕ → Snapshot
snapshot r now =
    let completed = mark r.completed_at now in
    let dispatched = not (r.dispatched_at == 0) in
    record {
      request_id = r.request_id;
      started_at = r.started_at;
      enqueued_at = r.enqueued_at;
      completed_at = completed;
      queue_class = r.queue_class;
      backend = r.backend;
      container_id = r.container_id;
      status_code = r.status_code;
      error = r.err_text;
      total_duration = sub_ℕ completed r.started_at;
      queue_wait = if dispatched then sub_ℕ r.dispatched_at r.enqueued_at else pos 0;
      generation = if dispatched then sub_ℕ completed r.dispatched_at else pos 0;
      ttft =
          if dispatched && not (r.first_token_at == 0)
          then sub_ℕ r.first_token_at r.dispatched_at
          else pos 0;
    }

-- The times that the calls of one kind carry, in order.
abbrev pub dispatch_times : List Call → List ℕ
dispatch_times [] = []
dispatch_times (mark_dispatched at ∷ cs) = at ∷ dispatch_times cs
dispatch_times (_ ∷ cs) = dispatch_times cs

abbrev pub first_token_times : List Call → List ℕ
first_token_times [] = []
first_token_times (mark_first_token at ∷ cs) = at ∷ first_token_times cs
first_token_times (_ ∷ cs) = first_token_times cs

abbrev pub completion_times : List Call → List ℕ
completion_times [] = []
completion_times (mark_completed at ∷ cs) = at ∷ completion_times cs
completion_times (_ ∷ cs) = completion_times cs

-- The first time that is not the zero time, or the zero time.
abbrev pub first_set : List ℕ → ℕ
first_set [] = 0
first_set (t ∷ ts) = mark t (first_set ts)

marks_after :
    (r : Recorder) (cs : List Call)
    → ((apply_all r cs).dispatched_at ≡ mark r.dispatched_at (first_set (dispatch_times cs)))
      × ((apply_all r cs).first_token_at ≡ mark r.first_token_at (first_set (first_token_times cs)))
      × ((apply_all r cs).completed_at ≡ mark r.completed_at (first_set (completion_times cs)))
unfolding apply_all apply
marks_after r [] = ground arith
marks_after r (set_classification t ∷ cs) =
    ground (arith, marks_after (apply r (set_classification t)) cs)
marks_after r (c ∷ cs) = ground (arith, marks_after (apply r c) cs)

-- What the calls do not change.
starts_after :
    (r : Recorder) (cs : List Call)
    → ((apply_all r cs).started_at ≡ r.started_at) × ((apply_all r cs).enqueued_at ≡ r.enqueued_at)
unfolding apply_all apply
starts_after r [] = (refl, refl)
starts_after r (set_classification t ∷ cs) = starts_after (apply r (set_classification t)) cs
starts_after r (c ∷ cs) = ground (arith, starts_after (apply r c) cs)

-- After any calls on a new recorder the snapshot goes by the first time of each kind that was marked
-- (a zero time does not count), and later marks change nothing: it is complete at the first
-- completion, or at the time of the snapshot; the wait in the queue ends at the first dispatch; and
-- the time to the first token runs from there to the first token. Without a dispatch the three
-- partial durations are 0.
snapshot_times :
    (id : Text) (start now : ℕ) (cs : List Call)
    → let s = snapshot (apply_all (new_recorder id start) cs) now in
      let dispatched = first_set (dispatch_times cs) in
      let token = first_set (first_token_times cs) in
      let completed = mark (first_set (completion_times cs)) now in
      (s.completed_at ≡ completed)
      × (s.total_duration ≡ sub_ℕ completed start)
      × (s.queue_wait ≡ (if dispatched == 0 then pos 0 else sub_ℕ dispatched start))
      × (s.generation ≡ (if dispatched == 0 then pos 0 else sub_ℕ completed dispatched))
      × (s.ttft ≡ (
          if dispatched == 0 then pos 0 else if token == 0 then pos 0 else sub_ℕ token dispatched))
unfolding snapshot new_recorder
snapshot_times id start now cs =
    let (d, f, c) = marks_after (new_recorder id start) cs in
    let (s, q) = starts_after (new_recorder id start) cs in
    rw (d, f, c, s, q) (refl, refl, ground arith, ground arith, ground arith)

-- Once a request is dispatched, its total duration is its wait in the queue and its generation time
-- together (written with the positive and negative parts of the three numbers).
pub durations_add :
    (id : Text) (start now : ℕ) (cs : List Call)
    → 0 < first_set (dispatch_times cs)
    → let s = snapshot (apply_all (new_recorder id start) cs) now in
      pos_part s.total_duration + neg_part s.queue_wait + neg_part s.generation
      ≡ neg_part s.total_duration + pos_part s.queue_wait + pos_part s.generation
durations_add id start now cs h = ground (arith, snapshot_times id start now cs)
