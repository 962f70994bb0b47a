-- ===== src/Docker/Env.antt =====
-- internal/orchestrator/docker.go: `mergeEnv`, and the environment of a container that is launched.
use lm_server.Prelude.{
  ℕ, zero, suc, ◌≡◌, refl, subst, sym, ap, ◌∙◌, Text, codes, text_eq, text_eq_iff, ◌==◌, List, [],
  ◌∷◌, ◌++◌, map, Option, some, none, if◌then◌else◌, set, length, Option-cases, inl, inr, arith,
}
use mathlib.Core.List.{flatten}
use mathlib.Core.Option
use lm_server.Store.{lookup, put, Distinct}
use lm_server.Store.Laws.{lookup-put, put-Distinct}

-- The text before the first '=', or the whole text.
unfoldable pub key_of : Text → Text
key_of [] = []
key_of (c ∷ t) = if c == b'=' then [] else c ∷ key_of t

pub record Merging : Type 0 where
  pub seen : List (Text × ℕ)
  pub merged : List Text

-- The body of the inner loop.
merge_value : Merging → Text → Merging
merge_value m value = elim (lookup (key_of value) m.seen) [
  | some pos ↦ record m { merged = set m.merged pos value }
  | none ↦ record {
    seen = put (key_of value) (length m.merged) m.seen;
    merged = m.merged ++ value ∷ [];
  }
]

merge_group : Merging → List Text → Merging
merge_group m [] = m
merge_group m (value ∷ rest) = merge_group (merge_value m value) rest

merge_groups : Merging → List (List Text) → Merging
unfolding merge_group merge_value
merge_groups m [] = m
merge_groups m (group ∷ rest) = merge_groups (merge_group m group) rest

unfoldable pub merge_env : List (List Text) → List Text
unfolding merge_groups
merge_env values = (merge_groups (record { seen = []; merged = [] }) values).merged

abbrev pub hsa_override : Text
hsa_override = codes "HSA_OVERRIDE_GFX_VERSION=10.3.0"

-- The `Env` of the container that `launchEphemeralContainer` creates.
unfoldable pub container_env : List Text → List Text
container_env env = merge_env (env ∷ (hsa_override ∷ []) ∷ [])

-- An environment as a map, in its order.
abbrev pub entries : List Text → List (Text × Text)
entries = map λ v. (key_of v, v)

-- The specification: the values are put into an empty map, one after the other.
abbrev pub put_all : List (Text × Text) → List Text → List (Text × Text)
put_all m [] = m
put_all m (v ∷ vs) = put_all (put (key_of v) v m) vs

-- Where a key stands in an environment.
position : Text → List Text → Option ℕ
position k [] = none
position k (v ∷ vs) = if text_eq (key_of v) k then some 0 else Option.map suc (position k vs)

set-put :
    (v : Text) (i : ℕ) (vs : List Text)
    → position (key_of v) vs ≡ some i
    → entries (set vs i v) ≡ put (key_of v) v (entries vs)
unfolding position put
set-put v i [] e = cc
set-put v zero (w ∷ vs) e = ground (arith, text_eq_iff (key_of w) (key_of v))
set-put v (suc i) (w ∷ vs) e = ground (arith, set-put v i vs)

append-put :
    (v : Text) (vs : List Text)
    → position (key_of v) vs ≡ none
    → entries (vs ++ v ∷ []) ≡ put (key_of v) v (entries vs)
unfolding position put
append-put v [] e = refl
append-put v (w ∷ vs) e = ground (arith, append-put v vs)

position-append :
    (k v : Text) (vs : List Text)
    → position (key_of v) vs ≡ none
    → position k (vs ++ v ∷ []) ≡ (if text_eq (key_of v) k then some (length vs) else position k vs)
unfolding position
position-append k v [] e = refl
position-append k v (w ∷ vs) e = ground (
  arith,
  text_eq_iff (key_of w) k,
  text_eq_iff (key_of v) k,
  text_eq_iff (key_of w) (key_of v),
  position-append k v vs,
)

position-set :
    (k v : Text) (i : ℕ) (vs : List Text)
    → position (key_of v) vs ≡ some i
    → position k (set vs i v) ≡ position k vs
unfolding position
position-set k v i [] e = cc
position-set k v zero (w ∷ vs) e = ground (arith, text_eq_iff (key_of w) (key_of v))
position-set k v (suc i) (w ∷ vs) e = ground (arith, position-set k v i vs)

-- `seen` has the position of every key.
abbrev IsIndexed : Merging → Type 0
IsIndexed m = (k : Text) → lookup k m.seen ≡ position k m.merged

merge_value-put :
    (m : Merging) (v : Text)
    → IsIndexed m
    → entries (merge_value m v).merged ≡ put (key_of v) v (entries m.merged)
unfolding merge_value
merge_value-put m v h = elim (Option-cases (lookup (key_of v) m.seen)) [
  | inl e ↦ rw (e, merge_value) (append-put v m.merged (sym (h (key_of v)) ∙ e))
  | inr (i, e) ↦ rw (e, merge_value) (set-put v i m.merged (sym (h (key_of v)) ∙ e))
]

merge_value-IsIndexed : (m : Merging) (v : Text) → IsIndexed m → IsIndexed (merge_value m v)
unfolding merge_value
merge_value-IsIndexed m v h k = elim (Option-cases (lookup (key_of v) m.seen)) [
  | inl e ↦ ground (
    arith,
    lookup-put (key_of v) k (length m.merged) m.seen,
    position-append k v m.merged,
    h k,
    h (key_of v),
  )
  | inr (i, e) ↦ ground (arith, position-set k v i m.merged, h k, h (key_of v))
]

merge_group-put :
    (m : Merging) (vs : List Text)
    → IsIndexed m
    → IsIndexed (merge_group m vs)
      × (entries (merge_group m vs).merged ≡ put_all (entries m.merged) vs)
unfolding merge_group
merge_group-put m [] h = (h, refl)
merge_group-put m (v ∷ vs) h =
    let (indexed, e) = merge_group-put (merge_value m v) vs (merge_value-IsIndexed m v h) in
    (indexed, e ∙ ap (λ n. put_all n vs) (merge_value-put m v h))

put_all-append :
    (m : List (Text × Text)) (us vs : List Text) → put_all m (us ++ vs) ≡ put_all (put_all m us) vs
put_all-append m [] vs = refl
put_all-append m (u ∷ us) vs = put_all-append (put (key_of u) u m) us vs

merge_groups-put :
    (m : Merging) (groups : List (List Text))
    → IsIndexed m
    → entries (merge_groups m groups).merged ≡ put_all (entries m.merged) (flatten groups)
unfolding merge_groups flatten
merge_groups-put m [] h = refl
merge_groups-put m (g ∷ gs) h =
    let (indexed, e) = merge_group-put m g h in
    merge_groups-put (merge_group m g) gs indexed
    ∙ ap (λ n. put_all n (flatten gs)) e
    ∙ sym (put_all-append (entries m.merged) g (flatten gs))

-- `mergeEnv` puts the values of all groups, in order, into an empty map under their keys: a new key
-- goes to the end, and a key that is there keeps its place and takes the later value.
pub merge_env-put_all :
    (groups : List (List Text)) → entries (merge_env groups) ≡ put_all [] (flatten groups)
unfolding merge_env position lookup
merge_env-put_all groups = merge_groups-put _ groups (λ k. refl)

put_all-Distinct : (m : List (Text × Text)) (vs : List Text) → Distinct m → Distinct (put_all m vs)
put_all-Distinct m [] d = d
put_all-Distinct m (v ∷ vs) d =
    put_all-Distinct (put (key_of v) v m) vs (put-Distinct (key_of v) v m d)

-- The result of `mergeEnv` has every key once.
pub merge_env-Distinct : (groups : List (List Text)) → Distinct (entries (merge_env groups))
merge_env-Distinct groups =
    subst Distinct (sym (merge_env-put_all groups)) (put_all-Distinct [] (flatten groups) tt)

abbrev pub hsa_key : Text
hsa_key = codes "HSA_OVERRIDE_GFX_VERSION"

container_env-put :
    (env : List Text) → entries (container_env env) ≡ put hsa_key hsa_override (put_all [] env)
unfolding container_env key_of flatten
container_env-put env =
    merge_env-put_all (env ∷ (hsa_override ∷ []) ∷ []) ∙ put_all-append [] env (hsa_override ∷ [])

-- Whatever the profile's environment holds, a launched container has HSA_OVERRIDE_GFX_VERSION at
-- 10.3.0, and under any other key what the profile's environment alone gives.
pub container_env-lookup :
    (env : List Text) (k : Text)
    → lookup k (entries (container_env env))
      ≡ (if text_eq hsa_key k then some hsa_override else lookup k (put_all [] env))
container_env-lookup env k =
    ap (lookup k) (container_env-put env) ∙ lookup-put hsa_key k hsa_override (put_all [] env)
