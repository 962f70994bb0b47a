-- ===== src/Dispatcher/Abandoned.antt =====
-- internal/orchestrator/dispatcher.go: a result that nobody takes out of its channel.
use lm_server.Prelude.{ℕ, ◌≡◌, refl, ap, List, [], ◌∷◌, ◌++◌, none, some, ◌⊎◌, inl, arith}
use lm_server.Orchestrator.State.{Lease, GoError}
use lm_server.Dispatcher.Job.{
  JobResult, process_job, Worker, finished, gave_up, Job, queued_job, JobEvent, cancels, processes,
  delivers, discards, takes, gives_up, job_step, job_run, processed,
}
use lm_server.Dispatcher.Handover.{in_channel}

-- The worker has put its result into the channel, and `Submit` has returned.
IsAbandoned : Job → JobResult → Type 0
IsAbandoned j r =
    (j.worker ≡ finished)
    × (j.submitter ≡ gave_up)
    × (j.result_ch ≡ some r)
    × (j.releases ≡ [])
    × (j.closed ≡ [])

finished_stays :
    (j : Job) (a : Lease ⊎ GoError) (f : ℕ ⊎ GoError) (now : ℕ) (w : Worker)
    → w ≡ finished
    → processed j a f now w ≡ j
unfolding process_job
finished_stays j a f now w e = rw e refl

step-IsAbandoned :
    (j : Job) (r : JobResult) (e : JobEvent) → IsAbandoned j r → IsAbandoned (job_step j e) r
unfolding job_step IsAbandoned
step-IsAbandoned j r cancels h = ground arith
step-IsAbandoned j r (processes a f now) h = rw (finished_stays j a f now j.worker (h.0)) h
step-IsAbandoned j r delivers h = ground arith
step-IsAbandoned j r discards h = ground arith
step-IsAbandoned j r takes h = ground arith
step-IsAbandoned j r gives_up h = ground arith

run-IsAbandoned :
    (j : Job) (r : JobResult) (es : List JobEvent) → IsAbandoned j r → IsAbandoned (job_run j es) r
unfolding job_run
run-IsAbandoned j r [] h = h
run-IsAbandoned j r (e ∷ es) h = run-IsAbandoned (job_step j e) r es (step-IsAbandoned j r e h)

abbrev pub abandonment : Lease → ℕ → ℕ → List JobEvent
abandonment l response now =
    processes (inl l) (inl response) now ∷ cancels ∷ delivers ∷ gives_up ∷ []

-- When the context of a request is done after its response has come, the worker may still take the
-- send into the result channel, and `Submit` the context: then whatever happens later, the lease
-- stays in the channel, it is never released, and the response is never closed.
pub abandoned_lease_stays :
    (l : Lease) (response now : ℕ) (es : List JobEvent)
    → let j = job_run queued_job (abandonment l response now ++ es) in
      (in_channel j.result_ch ≡ l ∷ [])
      × (j.submitter ≡ gave_up)
      × (j.releases ≡ [])
      × (j.closed ≡ [])
unfolding job_run job_step process_job IsAbandoned
abandoned_lease_stays l response now es =
    let (w, s, c, rs, cs) =
      run-IsAbandoned (job_run queued_job (abandonment l response now))
        (record { response = some response; lease = some l; err = none }) es
        (refl, refl, refl, refl, refl) in
    (ap in_channel c, s, rs, cs)
