-- ===== src/Config/Lists.antt =====
-- internal/orchestrator/config.go: `envList`.
use lm_server.Prelude.{
  ℕ, ◌≡◌, ◌≢◌, refl, ap, ◌∙◌, Text, text_eq, text_eq_iff, text_eq_refl, ◌==◌, List, [], ◌∷◌, ◌++◌,
  if◌then◌else◌, All, Bool-cases, inl, inr, arith,
}
use lm_server.Config.Space.{trim_space}
use lm_server.Config.Values.{Surroundings}

push : ℕ → List Text → List Text
push c [] = (c ∷ []) ∷ []
push c (p ∷ ps) = (c ∷ p) ∷ ps

-- `strings.Split(t, "c")`
unfoldable pub split : ℕ → Text → List Text
unfolding push
split sep [] = [] ∷ []
split sep (c ∷ t) = let rest = split sep t in if c == sep then [] ∷ rest else push c rest

-- The loop of `envList`.
kept_parts : List Text → List Text
kept_parts [] = []
kept_parts (p ∷ ps) =
    let rest = kept_parts ps in
    let part = trim_space p in if text_eq part [] then rest else part ∷ rest

-- A nil slice and an empty one are alike here.
unfoldable pub env_list : Surroundings → Text → List Text
unfolding trim_space split kept_parts
env_list env key =
    let value = trim_space (env.getenv key) in
    if text_eq value [] then [] else kept_parts (split b',' value)

-- `strings.Join(ps, "c")`
abbrev pub join : ℕ → List Text → Text
join sep [] = []
join sep (p ∷ []) = p
join sep (p ∷ q ∷ ps) = p ++ sep ∷ join sep (q ∷ ps)

-- What can stand between two commas: a text with no white space at its ends, and no comma.
abbrev pub IsPart : Text → Type 0
IsPart p = (p ≢ []) × (trim_space p ≡ p) × All (λ c. c ≢ b',') p

split-last : (p : Text) → All (λ c. c ≢ b',') p → split b',' p ≡ p ∷ []
unfolding split
split-last [] h = refl
split-last (c ∷ p) (hc, h) = ground (arith, split-last p h)

split-next :
    (p rest : Text) → All (λ c. c ≢ b',') p → split b',' (p ++ b',' ∷ rest) ≡ p ∷ split b',' rest
unfolding split
split-next [] rest h = refl
split-next (c ∷ p) rest (hc, h) = ground (arith, split-next p rest h)

kept_parts-All : (ps : List Text) → All IsPart ps → kept_parts ps ≡ ps
unfolding kept_parts
kept_parts-All [] h = refl
kept_parts-All (p ∷ ps) ((n, t, c), h) = ground (arith, text_eq_iff p [], kept_parts-All ps h)

split-join :
    (p : Text) (ps : List Text) → All IsPart (p ∷ ps) → split b',' (join b',' (p ∷ ps)) ≡ p ∷ ps
split-join p [] ((n, t, c), h) = split-last p c
split-join p (q ∷ ps) ((n, t, c), h) =
    split-next p (join b',' (q ∷ ps)) c ∙ ap (λ qs. p ∷ qs) (split-join q ps h)

pub join-ne-nil : (sep : ℕ) (p : Text) (ps : List Text) → p ≢ [] → join sep (p ∷ ps) ≢ []
join-ne-nil sep [] ps n e = absurd (n refl)
join-ne-nil sep (c ∷ p) [] n e = cc
join-ne-nil sep (c ∷ p) (q ∷ ps) n e = cc

-- A variable that holds parts with commas between them is read as those parts, if the text as a
-- whole has no white space at its ends either.
env_list-join :
    (env : Surroundings) (key : Text) (ps : List Text)
    → All IsPart ps
    → trim_space (join b',' ps) ≡ join b',' ps
    → env.getenv key ≡ join b',' ps
    → env_list env key ≡ ps
unfolding env_list
env_list-join env key [] h w e = rw (e, w, text_eq_refl [])
env_list-join env key (p ∷ ps) h w e = elim (Bool-cases (text_eq (join b',' (p ∷ ps)) [])) [
  | inl y ↦ absurd (join-ne-nil b',' p ps (h.0.0) ((text_eq_iff (join b',' (p ∷ ps)) []).0 y))
  | inr n ↦ rw (e, w, n) (ap kept_parts (split-join p ps h) ∙ kept_parts-All (p ∷ ps) h)
]
