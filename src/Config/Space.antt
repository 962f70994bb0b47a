-- ===== src/Config/Space.antt =====
-- The functions of the package `strings` that internal/orchestrator/config.go calls on white space:
-- `TrimSpace` and `Fields`, on the bytes of UTF-8.
use mathlib.Core.List.{append-nil, append_assoc}
use lm_server.Prelude.{
  ap, ◌∙◌, ℕ, zero, suc, ◌≤◌, ◌≡◌, refl, Text, Bool, true, false, ◌&&◌, ◌||◌, ◌==◌, leb, List, [],
  ◌∷◌, ◌++◌, if◌then◌else◌, All, arith,
}

-- `unicode.IsSpace` on the characters of one, two and three bytes.
abbrev is_space1 : ℕ → Bool
is_space1 c = leb 9 c && leb c 13 || c == 32

abbrev is_space2 : ℕ → ℕ → Bool
is_space2 c d = c == 0xc2 && (d == 0x85 || d == 0xa0)

abbrev is_space3 : ℕ → ℕ → ℕ → Bool
is_space3 c d e =
    c == 0xe1 && (d == 0x9a && e == 0x80)
    || (c == 0xe2
          && (d == 0x80 && (leb 0x80 e && leb e 0x8a || (e == 0xa8 || (e == 0xa9 || e == 0xaf)))
              || d == 0x81 && e == 0x9f)
        || c == 0xe3 && (d == 0x80 && e == 0x80))

abbrev width2 : ℕ → ℕ → ℕ
width2 c d = if is_space1 c then 1 else if is_space2 c d then 2 else 0

-- How many bytes the white-space character at the start of a text has; 0 if there is none.
unfoldable pub space_width : Text → ℕ
space_width [] = 0
space_width (c ∷ []) = if is_space1 c then 1 else 0
space_width (c ∷ d ∷ []) = width2 c d
space_width (c ∷ d ∷ e ∷ t) =
    if is_space1 c then 1 else if is_space2 c d then 2 else if is_space3 c d e then 3 else 0

-- A text without the white space at its start; the first argument is how many bytes of a white-space
-- character are still to be skipped.
trim_left : ℕ → Text → Text
trim_left n [] = []
trim_left (suc n) (c ∷ t) = trim_left n t
trim_left zero (c ∷ t) = elim (space_width (c ∷ t)) [ zero ↦ c ∷ t | suc w ↦ trim_left w t ]

is_empty : Text → Bool
is_empty [] = true
is_empty (c ∷ t) = false

-- A text without the white space at its end.
pub trim_end : Text → Text
trim_end [] = []
trim_end (c ∷ t) = let rest = trim_end t in if is_empty (trim_left 0 (c ∷ t)) then [] else c ∷ rest

-- `strings.TrimSpace`
unfoldable pub trim_space : Text → Text
unfolding trim_left trim_end is_empty space_width
trim_space t = trim_end (trim_left 0 t)

emit : Text → List Text → List Text
emit [] fields = fields
emit (c ∷ t) fields = (c ∷ t) ∷ fields

-- The loop of `strings.Fields`, with the field that it is in.
unfoldable pub fields_from : ℕ → Text → Text → List Text
unfolding emit
fields_from n field [] = emit field []
fields_from (suc n) field (c ∷ t) = fields_from n field t
fields_from zero field (c ∷ t) = elim (space_width (c ∷ t)) [
  | zero ↦ fields_from zero (field ++ c ∷ []) t
  | suc w ↦ emit field (fields_from w [] t)
]

-- `strings.Fields`
unfoldable pub fields : Text → List Text
unfolding fields_from space_width
fields t = fields_from 0 [] t

-- A visible ASCII character.
abbrev pub IsVisible : ℕ → Type 0
IsVisible c = (33 ≤ c) × (c ≤ 126)

visible_width : (c : ℕ) (t : Text) → IsVisible c → space_width (c ∷ t) ≡ 0
unfolding space_width
visible_width c [] h = ground arith
visible_width c (d ∷ []) h = ground arith
visible_width c (d ∷ e ∷ t) h = ground arith

trim_left-visible : (c : ℕ) (t : Text) → IsVisible c → trim_left 0 (c ∷ t) ≡ c ∷ t
unfolding trim_left
trim_left-visible c t h = ground (arith, visible_width c t h)

trim_end-visible : (t : Text) → All IsVisible t → trim_end t ≡ t
unfolding trim_end is_empty
trim_end-visible [] h = refl
trim_end-visible (c ∷ t) (hc, ht) = rw (trim_left-visible c t hc, trim_end-visible t ht)

-- A text of visible characters has nothing to trim.
pub trim_space-visible : (t : Text) → All IsVisible t → trim_space t ≡ t
unfolding trim_space
trim_space-visible [] h = unfold trim_left trim_end in refl
trim_space-visible (c ∷ t) h = rw (trim_left-visible c t h.0) (trim_end-visible (c ∷ t) h)

-- `Fields` goes through a visible text to its end.
pub fields_from-visible :
    (field word t : Text)
    → All IsVisible word
    → fields_from 0 field (word ++ t) ≡ fields_from 0 (field ++ word) t
unfolding fields_from
fields_from-visible field [] t h = rw append-nil
fields_from-visible field (c ∷ word) t (hc, h) = ground (
  arith,
  visible_width c (word ++ t) hc,
  fields_from-visible (field ++ c ∷ []) word t h,
  append_assoc field (c ∷ []) word,
)

pub fields_from-blank :
    (c : ℕ) (field t : Text)
    → fields_from 0 (c ∷ field) (b' ' ∷ t) ≡ (c ∷ field) ∷ fields_from 0 [] t
unfolding fields_from emit space_width
fields_from-blank c field [] = refl
fields_from-blank c field (d ∷ []) = refl
fields_from-blank c field (d ∷ e ∷ t) = refl

pub fields_from_end : (c : ℕ) (field : Text) → fields_from 0 (c ∷ field) [] ≡ (c ∷ field) ∷ []
unfolding fields_from emit
fields_from_end c field = refl

abbrev pub IsEndTrimmed : Text → Type 0
IsEndTrimmed t = trim_end t ≡ t

pub IsEndTrimmed-nil : IsEndTrimmed []
unfolding trim_end
IsEndTrimmed-nil = refl

pub IsEndTrimmed-word :
    (word t : Text) → All IsVisible word → IsEndTrimmed t → IsEndTrimmed (word ++ t)
unfolding trim_end is_empty
IsEndTrimmed-word [] t h e = e
IsEndTrimmed-word (c ∷ word) t (hc, h) e =
    rw (trim_left-visible c (word ++ t) hc, IsEndTrimmed-word word t h e)

trim_left-blank : (t : Text) → trim_left 0 (b' ' ∷ t) ≡ trim_left 0 t
unfolding trim_left space_width
trim_left-blank [] = refl
trim_left-blank (c ∷ []) = refl
trim_left-blank (c ∷ d ∷ t) = refl

trim_end_keep :
    (c : ℕ) (t : Text) → is_empty (trim_left 0 (c ∷ t)) ≡ false → trim_end (c ∷ t) ≡ c ∷ trim_end t
unfolding trim_end
trim_end_keep c t h = rw h

pub IsEndTrimmed-blank :
    (c : ℕ) (t : Text) → IsVisible c → IsEndTrimmed (c ∷ t) → IsEndTrimmed (b' ' ∷ c ∷ t)
unfolding is_empty
IsEndTrimmed-blank c t h e =
    trim_end_keep b' ' (c ∷ t) (ap is_empty (trim_left-blank (c ∷ t) ∙ trim_left-visible c t h))
    ∙ ap (λ s. b' ' ∷ s) e

pub trim_space-IsEndTrimmed :
    (c : ℕ) (t : Text) → IsVisible c → IsEndTrimmed (c ∷ t) → trim_space (c ∷ t) ≡ c ∷ t
unfolding trim_space
trim_space-IsEndTrimmed c t h e = ap trim_end (trim_left-visible c t h) ∙ e
