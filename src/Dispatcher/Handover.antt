-- ===== src/Dispatcher/Handover.antt =====
-- internal/orchestrator/dispatcher.go: where the lease of a job is, in every order of the steps of
-- the worker, of `Submit` and of the request's context.
use lm_server.Prelude.{
  ℕ, ◌≡◌, refl, ap, Bool, true, false, List, [], ◌∷◌, ◌++◌, Option, none, some, ◌⊎◌, inl, inr,
  arith, length, ◌≤◌,
}
use mathlib.Core.List.{append-nil}
use lm_server.Orchestrator.State.{Lease, GoError}
use lm_server.Dispatcher.Job.{
  JobResult, Release, process_job, Worker, pending, delivering, finished, Submitter, awaiting,
  returned, gave_up, Job, queued_job, JobEvent, cancels, processes, delivers, discards, takes,
  gives_up, job_step, job_run, processed, delivered, discarded, received, given_up, drop_lease,
}

abbrev option_list : Option Lease → List Lease
option_list none = []
option_list (some l) = l ∷ []

abbrev with_worker : Worker → List Lease
with_worker (delivering r) = option_list r.lease
with_worker _ = []

abbrev pub in_channel : Option JobResult → List Lease
in_channel none = []
in_channel (some r) = option_list r.lease

abbrev pub with_caller : Submitter → List Lease
with_caller (returned r) = option_list r.lease
with_caller _ = []

abbrev pub is_returned : Submitter → Bool
is_returned (returned r) = true
is_returned _ = false

no_result-no_lease : (s : Submitter) → is_returned s ≡ false → with_caller s ≡ []
no_result-no_lease awaiting e = refl
no_result-no_lease (returned r) e = cc
no_result-no_lease gave_up e = refl

abbrev pub released : List Release → List Lease
released [] = []
released (r ∷ rs) = r.lease ∷ released rs

-- The lease that the job has got is in one place. The worker holds a result only while the channel
-- is empty and the caller has no result.
abbrev IsAccounted : Job → Worker → Type 0
IsAccounted j pending =
    (j.result_ch ≡ none) × (is_returned j.submitter ≡ false) × (j.releases ≡ []) × (j.acquired ≡ [])
IsAccounted j (delivering r) =
    (j.result_ch ≡ none)
    × (is_returned j.submitter ≡ false)
    × (released j.releases ++ option_list r.lease ≡ j.acquired)
    × (length j.acquired ≤ 1)
IsAccounted j finished =
    (released j.releases ++ in_channel j.result_ch ++ with_caller j.submitter ≡ j.acquired)
    × (length j.acquired ≤ 1)
    × ((is_returned j.submitter ≡ false) ⊎ (j.result_ch ≡ none))

released-append : (rs qs : List Release) → released (rs ++ qs) ≡ released rs ++ released qs
released-append [] qs = refl
released-append (r ∷ rs) qs = ap (λ ls. r.lease ∷ ls) (released-append rs qs)

released-drop : (o : Option Lease) → released (drop_lease o) ≡ option_list o
released-drop none = refl
released-drop (some l) = refl

processes-IsAccounted :
    (j : Job) (a : Lease ⊎ GoError) (f : ℕ ⊎ GoError) (now : ℕ) (w : Worker)
    → j.worker ≡ w
    → IsAccounted j w
    → IsAccounted (processed j a f now w) (processed j a f now w).worker
unfolding process_job
processes-IsAccounted j (inl l) (inl r) now pending e h = ground arith
processes-IsAccounted j (inl l) (inr x) now pending e h = ground arith
processes-IsAccounted j (inr x) f now pending e h = ground arith
processes-IsAccounted j a f now (delivering r) e h = rw e h
processes-IsAccounted j a f now finished e h = rw e h

delivers-IsAccounted :
    (j : Job) (w : Worker) (ch : Option JobResult)
    → j.worker ≡ w
    → j.result_ch ≡ ch
    → IsAccounted j w
    → IsAccounted (delivered j w ch) (delivered j w ch).worker
delivers-IsAccounted j pending ch e e' h = rw e h
delivers-IsAccounted j (delivering r) none e e' h =
    ground (
      arith,
      no_result-no_lease j.submitter,
      append-nil (released j.releases ++ option_list r.lease),
    )
delivers-IsAccounted j (delivering r) (some x) e e' h = rw e h
delivers-IsAccounted j finished ch e e' h = rw e h

discards-IsAccounted :
    (j : Job) (w : Worker) (d : Bool)
    → j.worker ≡ w
    → IsAccounted j w
    → IsAccounted (discarded j w d) (discarded j w d).worker
discards-IsAccounted j pending d e h = rw e h
discards-IsAccounted j (delivering r) true e h = ground (
  arith,
  released-append j.releases (drop_lease r.lease),
  released-drop r.lease,
  no_result-no_lease j.submitter,
  append-nil (released j.releases ++ option_list r.lease),
)
discards-IsAccounted j (delivering r) false e h = rw e h
discards-IsAccounted j finished d e h = rw e h

takes-IsAccounted :
    (j : Job) (w : Worker) (s : Submitter) (ch : Option JobResult)
    → j.worker ≡ w
    → j.submitter ≡ s
    → j.result_ch ≡ ch
    → IsAccounted j w
    → IsAccounted (received j s ch) (received j s ch).worker
takes-IsAccounted j w (returned r) ch e es ec h = rw e h
takes-IsAccounted j w gave_up ch e es ec h = rw e h
takes-IsAccounted j w awaiting none e es ec h = rw e h
takes-IsAccounted j pending awaiting (some r) e es ec h = ground arith
takes-IsAccounted j (delivering x) awaiting (some r) e es ec h = ground arith
takes-IsAccounted j finished awaiting (some r) e es ec h = rw e (
    ground (
      arith,
      append-nil (released j.releases),
      append-nil (released j.releases ++ option_list r.lease),
    ))

gives_up-IsAccounted :
    (j : Job) (w : Worker) (s : Submitter) (d : Bool)
    → j.worker ≡ w
    → j.submitter ≡ s
    → IsAccounted j w
    → IsAccounted (given_up j s d) (given_up j s d).worker
gives_up-IsAccounted j w (returned r) d e es h = rw e h
gives_up-IsAccounted j w gave_up d e es h = rw e h
gives_up-IsAccounted j w awaiting false e es h = rw e h
gives_up-IsAccounted j pending awaiting true e es h = rw e (ground arith)
gives_up-IsAccounted j (delivering x) awaiting true e es h = rw e (ground arith)
gives_up-IsAccounted j finished awaiting true e es h = rw e (ground arith)

cancels-IsAccounted :
    (j : Job) (w : Worker)
    → j.worker ≡ w
    → IsAccounted j w
    → IsAccounted (record j { done = true }) w
cancels-IsAccounted j pending e h = h
cancels-IsAccounted j (delivering x) e h = h
cancels-IsAccounted j finished e h = h

step-IsAccounted :
    (j : Job) (e : JobEvent)
    → IsAccounted j j.worker
    → IsAccounted (job_step j e) (job_step j e).worker
unfolding job_step
step-IsAccounted j cancels h = cancels-IsAccounted j j.worker refl h
step-IsAccounted j (processes a f now) h = processes-IsAccounted j a f now j.worker refl h
step-IsAccounted j delivers h = delivers-IsAccounted j j.worker j.result_ch refl refl h
step-IsAccounted j discards h = discards-IsAccounted j j.worker j.done refl h
step-IsAccounted j takes h = takes-IsAccounted j j.worker j.submitter j.result_ch refl refl refl h
step-IsAccounted j gives_up h = gives_up-IsAccounted j j.worker j.submitter j.done refl refl h

run-IsAccounted :
    (j : Job) (es : List JobEvent)
    → IsAccounted j j.worker
    → IsAccounted (job_run j es) (job_run j es).worker
unfolding job_run
run-IsAccounted j [] h = h
run-IsAccounted j (e ∷ es) h = run-IsAccounted (job_step j e) es (step-IsAccounted j e h)

places :
    (j : Job) (w : Worker)
    → IsAccounted j w
    → (released j.releases ++ with_worker w ++ in_channel j.result_ch ++ with_caller j.submitter
        ≡ j.acquired)
      × (length j.acquired ≤ 1)
places j pending h = ground (arith, no_result-no_lease j.submitter)
places j (delivering r) h =
    ground (
      arith,
      no_result-no_lease j.submitter,
      append-nil (released j.releases ++ option_list r.lease),
    )
places j finished h = ground (arith, append-nil (released j.releases))

-- In every order of steps, from the moment that a job is queued, the lease that it has got, if any,
-- is in exactly one place: released here once, in the hands of the worker, in the result channel, or
-- with the caller of `Submit`.
pub lease_accounted :
    (es : List JobEvent)
    → let j = job_run queued_job es in
      (released j.releases
          ++ with_worker j.worker
          ++ in_channel j.result_ch
          ++ with_caller j.submitter
        ≡ j.acquired)
      × (length j.acquired ≤ 1)
lease_accounted es =
    places (job_run queued_job es) (job_run queued_job es).worker
      (run-IsAccounted queued_job es (refl, refl, refl, refl))

settled :
    (j : Job) (w : Worker) (r : JobResult)
    → IsAccounted j w
    → j.submitter ≡ returned r
    → released j.releases ++ option_list r.lease ≡ j.acquired
settled j pending r h e = ground arith
settled j (delivering x) r h e = ground arith
settled j finished r h e = ground (arith, append-nil (released j.releases))

-- In every order of steps, once `Submit` has returned a result, the lease that the job got, if any,
-- is either in that result or was released, and not both: none is left in the channel.
returned-settled :
    (es : List JobEvent) (r : JobResult)
    → (job_run queued_job es).submitter ≡ returned r
    → released (job_run queued_job es).releases ++ option_list r.lease
      ≡ (job_run queued_job es).acquired
returned-settled es r e =
    settled (job_run queued_job es) (job_run queued_job es).worker r
      (run-IsAccounted queued_job es (refl, refl, refl, refl)) e
