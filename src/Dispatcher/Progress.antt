-- ===== src/Dispatcher/Progress.antt =====
-- internal/orchestrator/dispatcher.go: a job whose context is not done comes to its end.
use lm_server.Prelude.{
  ℕ, ◌≡◌, refl, Bool, true, false, List, [], ◌∷◌, ◌++◌, Option, none, some, ◌⊎◌, inl, inr, All,
  arith,
}
use lm_server.Orchestrator.State.{Lease, GoError}
use lm_server.Dispatcher.Job.{
  JobResult, process_job, Worker, pending, delivering, finished, Submitter, awaiting, returned, Job,
  queued_job, JobEvent, cancels, processes, delivers, discards, takes, gives_up, job_step, job_run,
  processed,
}
use lm_server.Dispatcher.Handover.{is_returned}

abbrev pub is_cancel : JobEvent → Bool
is_cancel cancels = true
is_cancel _ = false

-- Where a job can be while its context is not done: nothing is in the channel before the worker is
-- through, and `Submit` waits until it has taken the result.
abbrev is_open : Worker → Option JobResult → Submitter → Bool
is_open finished (some r) awaiting = true
is_open finished none (returned r) = true
is_open pending none awaiting = true
is_open (delivering r) none awaiting = true
is_open _ _ _ = false

abbrev IsLive : Job → Type 0
IsLive j = (j.done ≡ false) × (is_open j.worker j.result_ch j.submitter ≡ true)

processed-IsLive :
    (j : Job) (a : Lease ⊎ GoError) (f : ℕ ⊎ GoError) (now : ℕ) (w : Worker)
    → j.worker ≡ w
    → IsLive j
    → IsLive (processed j a f now w)
unfolding process_job
processed-IsLive j (inl l) (inl r) now pending e h = ground arith
processed-IsLive j (inl l) (inr x) now pending e h = ground arith
processed-IsLive j (inr x) f now pending e h = ground arith
processed-IsLive j a f now (delivering r) e h = h
processed-IsLive j a f now finished e h = h

step-IsLive : (j : Job) (e : JobEvent) → is_cancel e ≡ false → IsLive j → IsLive (job_step j e)
unfolding job_step
step-IsLive j cancels c h = cc
step-IsLive j (processes a f now) c h = processed-IsLive j a f now j.worker refl h
step-IsLive j delivers c h = ground arith
step-IsLive j discards c h = ground arith
step-IsLive j takes c h = ground arith
step-IsLive j gives_up c h = ground arith

run-IsLive :
    (j : Job) (es : List JobEvent)
    → All (λ e. is_cancel e ≡ false) es
    → IsLive j
    → IsLive (job_run j es)
unfolding job_run
run-IsLive j [] c h = h
run-IsLive j (e ∷ es) (c, cs) h = run-IsLive (job_step j e) es cs (step-IsLive j e c h)

abbrev is_pending : Worker → Bool
is_pending pending = true
is_pending _ = false

processed-moves :
    (j : Job) (a : Lease ⊎ GoError) (f : ℕ ⊎ GoError) (now : ℕ) (w : Worker)
    → j.worker ≡ w
    → is_pending (processed j a f now w).worker ≡ false
unfolding process_job
processed-moves j (inl l) (inl r) now pending e = refl
processed-moves j (inl l) (inr x) now pending e = refl
processed-moves j (inr x) f now pending e = refl
processed-moves j a f now (delivering r) e = rw e refl
processed-moves j a f now finished e = rw e refl

delivers-finishes :
    (j : Job) → IsLive j → is_pending j.worker ≡ false → (job_step j delivers).worker ≡ finished
unfolding job_step
delivers-finishes j h n = ground arith

takes-returns :
    (j : Job) → IsLive j → j.worker ≡ finished → is_returned (job_step j takes).submitter ≡ true
unfolding job_step
takes-returns j h e = ground arith

ended :
    (j : Job) (a : Lease ⊎ GoError) (f : ℕ ⊎ GoError) (now : ℕ)
    → IsLive j
    → is_returned (job_run j (processes a f now ∷ delivers ∷ takes ∷ [])).submitter ≡ true
unfolding job_run
ended j a f now h =
    let j1 = job_step j (processes a f now) in
    let h1 = step-IsLive j (processes a f now) refl h in
    let moved : is_pending j1.worker ≡ false =
      unfold job_step in processed-moves j a f now j.worker refl in
    takes-returns (job_step j1 delivers) (step-IsLive j1 delivers refl h1)
      (delivers-finishes j1 h1 moved)

job_run-append :
    (j : Job) (es fs : List JobEvent) → job_run j (es ++ fs) ≡ job_run (job_run j es) fs
unfolding job_run
job_run-append j [] fs = refl
job_run-append j (e ∷ es) fs = job_run-append (job_step j e) es fs

-- As long as the request's context is not done, no order of steps can keep `Submit` from returning
-- a result: after any of them, it is enough that the worker gets to run `processJob`, to send, and
-- `Submit` to receive, whatever `Acquire` and the container answer.
pub uncanceled_returns :
    (es : List JobEvent) (a : Lease ⊎ GoError) (f : ℕ ⊎ GoError) (now : ℕ)
    → All (λ e. is_cancel e ≡ false) es
    → is_returned (job_run queued_job (es ++ processes a f now ∷ delivers ∷ takes ∷ [])).submitter
      ≡ true
uncanceled_returns es a f now c =
    rw (job_run-append queued_job es (processes a f now ∷ delivers ∷ takes ∷ []))
      (ended (job_run queued_job es) a f now (run-IsLive queued_job es c (refl, refl)))
