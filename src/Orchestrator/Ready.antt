-- ===== src/Orchestrator/Ready.antt =====
-- internal/orchestrator/orchestrator.go: `waitUntilReady`.
use lm_server.Prelude.{
  ℕ, zero, suc, ◌+◌, ◌-◌, ◌*◌, ◌≤◌, ◌<◌, ◌≡◌, ◌≢◌, refl, Text, codes, text_eq, text_eq_iff, Bool,
  true, false, leb, ltb, [], Option, none, some, if◌then◌else◌, ◌⊎◌, inl, inr, arith, Bool-cases,
}
use lm_server.Orchestrator.State.{GoError}

-- What the container does in a round that begins at some time, were it given all the time: how long
-- until the header of its response, or the error of the connection, and how long the body takes then.
pub record Reply : Type 0 where
  pub header : ℕ
  pub body : ℕ
  pub status : ℕ ⊎ GoError

-- `Timeout` of the client: three seconds.
abbrev pub client_timeout : ℕ
client_timeout = 3_000_000_000

abbrev at_most : ℕ → ℕ → ℕ
at_most a b = if ltb a b then a else b

-- The container as the loop sees it over time; `first` says whether Go takes the context's case where
-- the timer and the deadline come at one time.
pub record Health : Type 0 where
  pub request : Option GoError
  pub reply : ℕ → Reply
  pub first : ℕ → Bool

-- `waiting` is a loop that has not ended when its fuel has; `gave_up` returns an error.
pub data Wait : Type 0 where
  waiting : Wait
  ready : Wait
  gave_up : GoError → Wait

abbrev pub deadline_exceeded : GoError
deadline_exceeded = record {
  text = codes "context deadline exceeded";
  is_unhealthy_upstream = false;
  is_canceled = false;
  is_deadline_exceeded = true;
  net_timeout = some true;
}

abbrev pub client_timed_out : GoError
client_timed_out = record deadline_exceeded {
  text = codes "Client.Timeout exceeded while awaiting headers";
}

-- `err == nil && resp.StatusCode < 500`
abbrev pub is_well : ℕ ⊎ GoError → Bool
is_well (inl status) = ltb status 500
is_well (inr e) = false

abbrev pub error_of : ℕ ⊎ GoError → GoError → GoError
error_of (inl status) over = over
error_of (inr e) over = e

-- `interval` is the wait between two rounds, `over` the time at which the context is done: at the
-- end of the time-out, or before, when the request's context is; `why` is the context's error then.
module _ (health : Health) (interval over : ℕ) (why : GoError) where
  -- Whether the context is done before the timer runs out.
  abbrev pub is_late : ℕ → Bool
  is_late end =
      if ltb over (end + interval)
      then true
      else if ltb (end + interval) over
      then false
      else health.first end

  -- How long a round may take: until the client's time-out, or until the context is done.
  abbrev pub limit : ℕ → ℕ
  limit now = at_most client_timeout (over - now)

  -- What `client.Do` returns, and when the body is read, or given up, after it.
  abbrev pub outcome : ℕ → ℕ ⊎ GoError
  outcome now =
      if ltb (health.reply now).header (limit now)
      then (health.reply now).status
      else inr (if ltb client_timeout (over - now) then client_timed_out else why)

  abbrev pub round_end : ℕ → ℕ
  round_end now = now + at_most ((health.reply now).header + (health.reply now).body) (limit now)

  -- The loop, from a round that begins at a time, and when it returns.
  unfoldable pub rounds : ℕ → ℕ → Wait × ℕ
  rounds zero now = (waiting, now)
  rounds (suc fuel) now =
      let r = outcome now in
      let end = round_end now in
      let next = rounds fuel (end + interval) in
      if is_well r
      then (ready, end)
      else if is_late end
      then (gave_up (error_of r why), if ltb end over then over else end)
      else next

  abbrev pub after_request : Option GoError → ℕ → ℕ → Wait × ℕ
  unfolding rounds
  after_request (some e) fuel now = (gave_up e, now)
  after_request none fuel now = rounds fuel now

  unfoldable pub wait_until_ready : Text → ℕ → ℕ → Wait × ℕ
  unfolding rounds
  wait_until_ready url fuel now =
      if text_eq url [] then (ready, now) else after_request health.request fuel now

  -- When the round of a number begins, if the loop gets so far.
  unfoldable pub begins : ℕ → ℕ → ℕ
  begins now zero = now
  begins now (suc k) = begins (round_end now + interval) k

  round_end-ge : (now : ℕ) → now ≤ round_end now
  round_end-ge now = omega arith

  round_end-bounded : (now : ℕ) → round_end now ≤ now + (over - now)
  round_end-bounded now = ground arith

  rounds-end : (fuel now : ℕ) → over < now + fuel * interval → (rounds (suc fuel) now).0 ≢ waiting
  unfolding rounds
  rounds-end zero now h = ground (arith, round_end-ge now)
  rounds-end (suc fuel) now h =
      let next = round_end now + interval in
      elim (Bool-cases (leb next over)) [
        | inl y ↦ ground (arith, rounds-end fuel next (grind (arith, round_end-ge now)))
        | inr n ↦ ground arith
      ]

  rounds-time : (fuel now : ℕ) → (rounds fuel now).1 ≤ now + (over - now)
  unfolding rounds
  rounds-time zero now = omega arith
  rounds-time (suc fuel) now =
      ground (
        arith,
        rounds-time fuel (round_end now + interval),
        round_end-bounded now,
        round_end-ge now,
      )

  begins-le : (now k : ℕ) → now ≤ begins now k
  unfolding begins
  begins-le now zero = omega arith
  begins-le now (suc k) = omega (arith, begins-le (round_end now + interval) k, round_end-ge now)

  -- The container answers below 500, before the client's time-out and before the context is done.
  abbrev pub AnswersWell : ℕ → Type 0
  AnswersWell now =
      (is_well (health.reply now).status ≡ true)
      × ((health.reply now).header < client_timeout)
      × (now + (health.reply now).header < over)

  answered-outcome : (now : ℕ) → AnswersWell now → is_well (outcome now) ≡ true
  answered-outcome now (w, soon, before) = ground arith

  well-ready :
      (fuel now k : ℕ)
      → k < fuel
      → begins now k < over
      → is_well (outcome (begins now k)) ≡ true
      → (rounds fuel now).0 ≡ ready
  unfolding rounds begins
  well-ready zero now k h lt w = absurd (omega arith)
  well-ready (suc fuel) now zero h lt w = ground arith
  well-ready (suc fuel) now (suc k) h lt w =
      let next = round_end now + interval in
      ground (arith, well-ready fuel next k (omega arith) lt w, begins-le next k)

  outcome-answered : (now : ℕ) → is_well (outcome now) ≡ true → AnswersWell now
  outcome-answered now h = ground arith

  ready-well : (fuel now : ℕ) → (rounds fuel now).0 ≡ ready → (k : ℕ) × AnswersWell (begins now k)
  unfolding rounds begins
  ready-well zero now h = cc
  ready-well (suc fuel) now h = elim (Bool-cases (is_well (outcome now))) [
    | inl y ↦ (0, unfold begins in outcome-answered now y)
    | inr n ↦
        let next = round_end now + interval in
        let (k, w) = ready-well fuel next (ground arith) in (suc k, w)
  ]

  fuel_suffices : (f now : ℕ) → 0 < interval → over < now + f → over < now + f * interval
  fuel_suffices f now h lt = grind arith

  -- If there is a pause between the rounds, the wait ends, whatever the container answers and however
  -- long it takes: as many rounds as there are nanoseconds until the context is done, and two, are
  -- enough; and it ends no later than the context is done, or at once if that is so already.
  pub wait_until_ready-ends :
      (url : Text) (fuel now : ℕ)
      → 0 < interval
      → over < now + fuel
      → let r = wait_until_ready url (suc fuel) now in (r.0 ≢ waiting) × (r.1 ≤ now + (over - now))
  unfolding wait_until_ready
  wait_until_ready-ends url fuel now pos lt = elim (Bool-cases (text_eq url [])) [
    | inl y ↦ rw y ((λ h. cc), omega arith)
    | inr n ↦ rw n (requested health.request)
  ]
    where
      requested :
          (r : Option GoError)
          → ((after_request r (suc fuel) now).0 ≢ waiting)
            × ((after_request r (suc fuel) now).1 ≤ now + (over - now))
      requested none =
          (rounds-end fuel now (fuel_suffices fuel now pos lt), rounds-time (suc fuel) now)
      requested (some e) = ((λ h. cc), omega arith)

  -- If the request can be built, and in some round the container answers below 500, before the
  -- client's time-out of three seconds and before the context is done, then the wait ends well.
  pub well_container-ready :
      (url : Text) (fuel now k : ℕ)
      → health.request ≡ none
      → k < fuel
      → AnswersWell (begins now k)
      → (wait_until_ready url fuel now).0 ≡ ready
  unfolding wait_until_ready
  well_container-ready url fuel now k r h w = elim (Bool-cases (text_eq url [])) [
    | inl y ↦ rw y refl
    | inr n ↦
        rw (n, r) (well-ready fuel now k h (omega (arith, w.2)) (answered-outcome (begins now k) w))
  ]

  -- The wait ends well only without a health URL, or after a round in which the container answered
  -- below 500, before the client's time-out and before the context was done.
  ready_needs_answer :
      (url : Text) (fuel now : ℕ)
      → (wait_until_ready url fuel now).0 ≡ ready
      → (url ≡ []) ⊎ ((k : ℕ) × AnswersWell (begins now k))
  unfolding wait_until_ready
  ready_needs_answer url fuel now h = elim (Bool-cases (text_eq url [])) [
    | inl y ↦ inl ((text_eq_iff url []).0 y)
    | inr n ↦ inr (requested health.request (ground arith))
  ]
    where
      requested :
          (r : Option GoError)
          → (after_request r fuel now).0 ≡ ready
          → (k : ℕ) × AnswersWell (begins now k)
      requested none e = ready-well fuel now e
      requested (some x) e = cc
