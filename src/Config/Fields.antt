-- ===== src/Config/Fields.antt =====
-- internal/orchestrator/config.go: `envFields`.
use lm_server.Prelude.{
  ◌≡◌, ◌≢◌, refl, sym, ap, subst, ◌∙◌, Text, text_eq, text_eq_iff, text_eq_refl, false, List, [],
  ◌∷◌, ◌++◌, if◌then◌else◌, All, Bool-cases, inl, inr,
}
use mathlib.Core.List.{append-nil}
use lm_server.Config.Space.{
  trim_space, trim_space-visible, fields, fields_from, fields_from-visible, fields_from-blank,
  fields_from_end, IsVisible, IsEndTrimmed, IsEndTrimmed-word, IsEndTrimmed-blank,
  trim_space-IsEndTrimmed, IsEndTrimmed-nil,
}
use lm_server.Config.Values.{Surroundings}
use lm_server.Config.Lists.{join, join-ne-nil}

unfoldable pub env_fields : Surroundings → Text → List Text
unfolding trim_space fields
env_fields env key =
    let value = trim_space (env.getenv key) in if text_eq value [] then [] else fields value

abbrev pub IsWord : Text → Type 0
IsWord p = (p ≢ []) × All IsVisible p

fields_from-join :
    (p : Text) (ps : List Text)
    → IsWord p
    → All IsWord ps
    → fields_from 0 [] (join b' ' (p ∷ ps)) ≡ p ∷ ps
fields_from-join [] ps (n, v) h = absurd (n refl)
fields_from-join (c ∷ p) [] (n, v) h =
    ap (fields_from 0 []) (sym (append-nil (c ∷ p)))
    ∙ fields_from-visible [] (c ∷ p) [] v
    ∙ fields_from_end c p
fields_from-join (c ∷ p) (q ∷ ps) (n, v) (hq, h) =
    fields_from-visible [] (c ∷ p) (b' ' ∷ join b' ' (q ∷ ps)) v
    ∙ fields_from-blank c p (join b' ' (q ∷ ps))
    ∙ ap (λ qs. (c ∷ p) ∷ qs) (fields_from-join q ps hq h)

not_empty : {t : Text} → t ≢ [] → text_eq t [] ≡ false
not_empty {t} n = elim (Bool-cases (text_eq t [])) [
  | inl y ↦ absurd (n ((text_eq_iff t []).0 y))
  | inr e ↦ e
]

join-IsEndTrimmed :
    (p : Text) (ps : List Text) → IsWord p → All IsWord ps → IsEndTrimmed (join b' ' (p ∷ ps))
join-IsEndTrimmed p [] (n, v) h =
    subst IsEndTrimmed (append-nil p) (IsEndTrimmed-word p [] v IsEndTrimmed-nil)
join-IsEndTrimmed p ([] ∷ ps) (n, v) ((m, w), h) = absurd (m refl)
join-IsEndTrimmed p ((c ∷ q) ∷ []) (n, v) ((m, w), h) =
    IsEndTrimmed-word p (b' ' ∷ c ∷ q) v
      (IsEndTrimmed-blank c q (w.0) (join-IsEndTrimmed (c ∷ q) [] (m, w) h))
join-IsEndTrimmed p ((c ∷ q) ∷ r ∷ rs) (n, v) ((m, w), h) =
    IsEndTrimmed-word p (b' ' ∷ join b' ' ((c ∷ q) ∷ r ∷ rs)) v (
      IsEndTrimmed-blank c (q ++ b' ' ∷ join b' ' (r ∷ rs)) (w.0)
        (join-IsEndTrimmed (c ∷ q) (r ∷ rs) (m, w) h))

trim_space-join :
    (p : Text) (ps : List Text)
    → IsWord p
    → All IsWord ps
    → trim_space (join b' ' (p ∷ ps)) ≡ join b' ' (p ∷ ps)
trim_space-join [] ps (n, v) h = absurd (n refl)
trim_space-join (c ∷ p) [] (n, v) h =
    trim_space-IsEndTrimmed c p (v.0) (join-IsEndTrimmed (c ∷ p) [] (n, v) h)
trim_space-join (c ∷ p) (q ∷ qs) (n, v) h =
    trim_space-IsEndTrimmed c (p ++ b' ' ∷ join b' ' (q ∷ qs)) (v.0)
      (join-IsEndTrimmed (c ∷ p) (q ∷ qs) (n, v) h)

-- A variable that holds words of visible ASCII characters with blanks between them is read as those
-- words.
env_fields-join :
    (env : Surroundings) (key : Text) (ps : List Text)
    → All IsWord ps
    → env.getenv key ≡ join b' ' ps
    → env_fields env key ≡ ps
unfolding env_fields
env_fields-join env key [] h e = rw (e, trim_space-visible [] tt, text_eq_refl [])
env_fields-join env key (p ∷ ps) (w, h) e =
    rw (e, trim_space-join p ps w h, not_empty (join-ne-nil b' ' p ps (w.0)))
      (fields_from-join p ps w h)
