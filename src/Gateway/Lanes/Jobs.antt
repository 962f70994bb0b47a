-- ===== src/Gateway/Lanes/Jobs.antt =====
-- What is done for each job, after any moves.
use lm_server.Prelude.{
  ℕ, zero, suc, ◌^◌, ◌<◌, ◌≡◌, sym, ap, ◌∙◌, subst, true, All, length, get_elem?, List, [], ◌∷◌,
  Option, none, some, Bool-cases, inl, inr,
}
use lm_server.Types.{QueueClass, same_class, ContainerProfile, RequestMeta, Config}
use lm_server.Orchestrator.Select.{
  select_profile, new, new-of_class, of_class, select_profile-All, new-All, IfSome,
}
use lm_server.System.{
  Task, acquiring, launching, starting_up, resume_planned, unpausing, serving, destroying,
  maintaining,
}
use lm_server.System.Profiles.{profile_of, Uses}
use lm_server.System.Profiles.Runs.{find_profile, IsNamedOnce, run-Uses}
use lm_server.System.Names.{Named}
use lm_server.Gateway.{
  Role, working, answering, background, Process, Move, is_request, moves, open_gateway,
}
use lm_server.Gateway.View.{tasks_of, gateway-run}
use lm_server.Gateway.Lanes.{Lane, InLane, Suits, same_class-eq}
use lm_server.Gateway.Lanes.Runs.{opened-IsLaned}

of_class-IsOf :
    (c : QueueClass) (ps : List ContainerProfile) → All (λ p. p.queue_class ≡ c) (of_class c ps)
of_class-IsOf c [] = tt
of_class-IsOf c (p ∷ ps) = elim (Bool-cases (same_class p.queue_class c)) [
  | inl e ↦ rw e (same_class-eq p.queue_class c e, of_class-IsOf c ps)
  | inr e ↦ rw e (of_class-IsOf c ps)
]

-- The profile that is selected is of the class of the job.
selected_class :
    (cfg : Config) (m : RequestMeta) (p : ContainerProfile)
    → select_profile (new cfg) m ≡ some p
    → p.queue_class ≡ m.queue_class
selected_class cfg m p e =
    let c = m.queue_class in
    let all : All (λ q. q.queue_class ≡ c) ((new cfg).profiles_by_class c) =
      rw (new-of_class cfg c) (of_class-IsOf c cfg.profiles) in
    subst (IfSome (λ q. q.queue_class ≡ c)) e
      (select_profile-All (λ q. q.queue_class ≡ c) (new cfg) m all)

-- The job that a worker, or a handler, sees to.
abbrev pub job_of : Role → Option ℕ
job_of (working c job) = some job
job_of (answering job) = some job
job_of background = none

abbrev pub IsIn : QueueClass → Role → Type 0
IsIn c (working c' job) = c' ≡ c
IsIn c _ = Unit

module _ (Q : Process → Type 0) where
  elem-All : (ps : List Process) (i : ℕ) (p : Process) → get_elem? ps i ≡ some p → All Q ps → Q p
  elem-All [] i p e l = cc
  elem-All (q ∷ ps) zero p e l = let same : q ≡ p = cc in subst Q same l.0
  elem-All (q ∷ ps) (suc i) p e l = elem-All ps i p e l.1

All-tasks_of :
    (P : Task → Type 0) (ps : List Process) → All P (tasks_of ps) → All (λ p. P p.task) ps
All-tasks_of P [] h = tt
All-tasks_of P (p ∷ ps) h = (h.0, All-tasks_of P ps h.1)

-- The profile that the configuration has first under its name.
abbrev pub IsFound : Config → ContainerProfile → Type 0
IsFound cfg p = find_profile p.name cfg.profiles ≡ some p

selected-IsFound :
    (cfg : Config) (m : RequestMeta) (p : ContainerProfile)
    → IsNamedOnce cfg
    → select_profile (new cfg) m ≡ some p
    → IsFound cfg p
selected-IsFound cfg m p once e =
    subst (IfSome (IsFound cfg)) e
      (select_profile-All (IsFound cfg) (new cfg) m (new-All (IsFound cfg) cfg m.queue_class once))

module _ (cfg : Config) (q : ContainerProfile) (at : IsFound cfg q) where
  same_name : (p : ContainerProfile) → p.name ≡ q.name → IsFound cfg p → some p ≡ some q
  same_name p e h = sym h ∙ (ap (λ n. find_profile n cfg.profiles) e ∙ at)

  -- A request that goes by the name of a profile of the configuration goes by that profile.
  Named-profile_of :
      (t : Task)
      → is_request t ≡ true
      → Named q.name t
      → Uses (IsFound cfg) t
      → profile_of t ≡ some q
  Named-profile_of (acquiring p) r n u = same_name p n u
  Named-profile_of (launching p id) r n u = same_name p n u
  Named-profile_of (starting_up p id) r n u = same_name p n u
  Named-profile_of (resume_planned p id) r n u = same_name p n u
  Named-profile_of (unpausing p id) r n u = same_name p n u
  Named-profile_of (serving l) r n u = same_name l.profile n u
  Named-profile_of (destroying id c) r n u = cc
  Named-profile_of (maintaining actions) r n u = cc

-- What a process does for a job: the profile of its task, or of the lease that it has, is the one
-- that is selected for the job.
abbrev pub Does : Config → RequestMeta → Role → Task → Type 0
Does cfg m r t =
    IsIn m.queue_class r
    × (q : ContainerProfile) × (select_profile (new cfg) m ≡ some q)
    × (q.queue_class ≡ m.queue_class)
    × (is_request t ≡ true)
    × (profile_of t ≡ some q)

module _ (cfg : Config) (once : IsNamedOnce cfg) (meta : ℕ → RequestMeta) where
  Suits-Does :
      (r : Role) (t : Task) (job : ℕ)
      → IsIn (meta job).queue_class r
      → Suits cfg meta job t
      → Uses (IsFound cfg) t
      → Does cfg (meta job) r t
  Suits-Does r t job own (q, chosen, asks, named) u = (
    own,
    q,
    chosen,
    selected_class cfg (meta job) q chosen,
    asks,
    Named-profile_of cfg q (selected-IsFound cfg (meta job) q once chosen) t asks named u,
  )

  Lane-Does :
      (r : Role) (t : Task) (job : ℕ)
      → job_of r ≡ some job
      → Lane cfg meta r t
      → Uses (IsFound cfg) t
      → Does cfg (meta job) r t
  Lane-Does (working c job') t job e (own, suits) u =
      let same : job' ≡ job = cc in
      subst (λ j. Does cfg (meta j) (working c job') t) same
        (Suits-Does (working c job') t job' (sym own) suits u)
  Lane-Does (answering job') t job e suits u =
      let same : job' ≡ job = cc in
      subst (λ j. Does cfg (meta j) (answering job') t) same
        (Suits-Does (answering job') t job' tt suits u)
  Lane-Does background t job e l u = cc

-- Let no two profiles of the configuration share a name. Then after any moves in any order (fewer
-- than 2^64), a worker that is at work on a job, or a handler that has the answer to one, asks for a
-- slot of just the profile that `selectProfile` chooses for the job under the configuration, or holds
-- a lease whose profile is that one; it is a profile of the job's class, and the worker is of that
-- class too.
pub jobs_in_lane :
    (meta : ℕ → RequestMeta) (cfg : Config) (ms : List Move)
    → IsNamedOnce cfg
    → length ms < 2 ^ 64
    → (i : ℕ) (p : Process) (job : ℕ)
    → get_elem? (moves meta (open_gateway cfg) ms).processes i ≡ some p
    → job_of p.role ≡ some job
    → Does cfg (meta job) p.role p.task
jobs_in_lane meta cfg ms once small i p job at e =
    let h = opened-IsLaned cfg meta ms small in
    let (cs, _, same) = gateway-run meta cfg ms in
    let used =
      subst (λ sys. All (Uses (IsFound cfg)) sys.tasks) (sym same)
        (run-Uses (IsFound cfg) cfg cs once) in
    Lane-Does cfg once meta p.role p.task job e (elem-All (InLane cfg meta) _ i p at h.lanes) (
      elem-All (λ r. Uses (IsFound cfg) r.task) _ i p at (All-tasks_of (Uses (IsFound cfg)) _ used))
