-- ===== src/Orchestrator/Select.antt =====
-- internal/orchestrator/orchestrator.go: grouping the profiles by class (`New`), `selectProfile`.
use lm_server.Prelude.{
  All, List, [], ◌∷◌, ◌++◌, Option, none, some, if◌then◌else◌, ◌≡◌, refl, sym, Bool-cases, inl, inr,
  ◌∙◌,
}
use lm_server.Types.{
  QueueClass, Backend, unset, same_class, same_backend, ContainerProfile, RequestMeta, Config,
}
use lm_server.Orchestrator.State.{Orchestrator}
use mathlib.Core.List.{append_assoc, append-nil}

-- `profilesByClass[profile.Class] = append(profilesByClass[profile.Class], profile)`
add_profile :
    (QueueClass → List ContainerProfile) → ContainerProfile → QueueClass → List ContainerProfile
add_profile groups p c = if same_class p.queue_class c then groups c ++ p ∷ [] else groups c

group_profiles :
    (QueueClass → List ContainerProfile)
    → List ContainerProfile
    → QueueClass
    → List ContainerProfile
group_profiles groups [] = groups
group_profiles groups (p ∷ ps) = group_profiles (add_profile groups p) ps

-- The orchestrator that `New` returns once the Docker client is connected.
unfoldable pub new : Config → Orchestrator
unfolding group_profiles add_profile
new cfg = record {
  total_vram_mb = cfg.total_vram_mb;
  class_budget_mb = cfg.class_budget_mb;
  profiles_by_class = group_profiles (λ _. []) cfg.profiles;
  slots = [];
  slot_seq = 0;
}

find_backend : Backend → List ContainerProfile → Option ContainerProfile
find_backend b [] = none
find_backend b (p ∷ ps) = if same_backend p.backend b then some p else find_backend b ps

or_first : Option ContainerProfile → ContainerProfile → ContainerProfile
or_first (some p) q = p
or_first none q = q

choose : Backend → List ContainerProfile → Option ContainerProfile
unfolding find_backend or_first
choose hint [] = none
choose hint (p ∷ ps) =
    if same_backend hint unset then some p else some (or_first (find_backend hint (p ∷ ps)) p)

-- `none` is the error "no container profile for queue class".
unfoldable pub select_profile : Orchestrator → RequestMeta → Option ContainerProfile
unfolding choose
select_profile o meta = choose meta.backend_hint (o.profiles_by_class meta.queue_class)

-- The profiles of one class, in the order of the configuration.
abbrev pub of_class : QueueClass → List ContainerProfile → List ContainerProfile
of_class c [] = []
of_class c (p ∷ ps) = if same_class p.queue_class c then p ∷ of_class c ps else of_class c ps

group_profiles-of_class :
    (groups : QueueClass → List ContainerProfile) (ps : List ContainerProfile) (c : QueueClass)
    → group_profiles groups ps c ≡ groups c ++ of_class c ps
unfolding group_profiles add_profile
group_profiles-of_class groups [] c = sym (append-nil (groups c))
group_profiles-of_class groups (p ∷ ps) c = elim (Bool-cases (same_class p.queue_class c)) [
  | inl e ↦
      group_profiles-of_class (add_profile groups p) ps c
      ∙ rw e (append_assoc (groups c) (p ∷ []) (of_class c ps))
  | inr e ↦ group_profiles-of_class (add_profile groups p) ps c ∙ rw e refl
]

pub new-of_class :
    (cfg : Config) (c : QueueClass) → (new cfg).profiles_by_class c ≡ of_class c cfg.profiles
unfolding new
new-of_class cfg c = group_profiles-of_class (λ _. []) cfg.profiles c

module _ {ℓ} (P : ContainerProfile → Type ℓ) where
  All-of_class : (c : QueueClass) (ps : List ContainerProfile) → All P ps → All P (of_class c ps)
  All-of_class c [] h = tt
  All-of_class c (p ∷ ps) h = elim (Bool-cases (same_class p.queue_class c)) [
    | inl e ↦ rw e (h.0, All-of_class c ps h.1)
    | inr e ↦ rw e (All-of_class c ps h.1)
  ]

  find_backend-All :
      (b : Backend) (ps : List ContainerProfile) (q : ContainerProfile)
      → All P ps
      → P q
      → P (or_first (find_backend b ps) q)
  unfolding find_backend or_first
  find_backend-All b [] q h hq = hq
  find_backend-All b (p ∷ ps) q h hq = elim (Bool-cases (same_backend p.backend b)) [
    | inl e ↦ rw e h.0
    | inr e ↦ rw e (find_backend-All b ps q h.1 hq)
  ]

  -- A statement about the profile that may be missing.
  abbrev pub IfSome : Option ContainerProfile → Type ℓ
  IfSome (some p) = P p
  IfSome none = Unit

  choose-All : (hint : Backend) (ps : List ContainerProfile) → All P ps → IfSome (choose hint ps)
  unfolding choose
  choose-All hint [] h = tt
  choose-All hint (p ∷ ps) h = elim (Bool-cases (same_backend hint unset)) [
    | inl e ↦ rw e h.0
    | inr e ↦ rw e (find_backend-All hint (p ∷ ps) p h h.0)
  ]

  -- What holds of all profiles of a class holds of the one that is selected.
  pub select_profile-All :
      (o : Orchestrator) (meta : RequestMeta)
      → All P (o.profiles_by_class meta.queue_class)
      → IfSome (select_profile o meta)
  unfolding select_profile
  select_profile-All o meta h = choose-All meta.backend_hint _ h

  -- What holds of all profiles of the configuration holds of the groups that `New` makes.
  pub new-All :
      (cfg : Config) (c : QueueClass) → All P cfg.profiles → All P ((new cfg).profiles_by_class c)
  new-All cfg c h = rw (new-of_class cfg c) (All-of_class c cfg.profiles h)
