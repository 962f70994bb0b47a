-- ===== src/Classifier/Text.antt =====
-- The functions of the package `strings` that internal/orchestrator/classifier.go calls on bytes.
use lm_server.Prelude.{
  ℕ, zero, suc, ◌≤◌, ◌≡◌, refl, Text, Bool, true, false, ◌&&◌, ◌||◌, ◌==◌, [], ◌∷◌, Option, none,
  some, if◌then◌else◌, length, arith,
}

-- `strings.HasPrefix(t, p)`
unfoldable pub has_prefix : Text → Text → Bool
has_prefix t [] = true
has_prefix [] (b ∷ p) = false
has_prefix (a ∷ t) (b ∷ p) = a == b && has_prefix t p

-- `strings.Contains(t, p)`
unfoldable pub contains : Text → Text → Bool
unfolding has_prefix
contains [] p = has_prefix [] p
contains (a ∷ t) p = has_prefix (a ∷ t) p || contains t p

abbrev pub drop : ℕ → Text → Text
drop zero t = t
drop (suc n) [] = []
drop (suc n) (a ∷ t) = drop n t

abbrev pub take : ℕ → Text → Text
take zero t = []
take (suc n) [] = []
take (suc n) (a ∷ t) = a ∷ take n t

-- What follows the first occurrence of p in t, if there is one: `t[strings.Index(t, p)+len(p):]`.
unfoldable pub after : Text → Text → Option Text
unfolding has_prefix
after [] p = if has_prefix [] p then some [] else none
after (a ∷ t) p = if has_prefix (a ∷ t) p then some (drop (length p) (a ∷ t)) else after t p

-- `strings.TrimRight(t, "c")`
unfoldable pub trim_right : ℕ → Text → Text
trim_right c [] = []
trim_right c (a ∷ t) = elim (trim_right c t) [
  | [] ↦ if a == c then [] else a ∷ []
  | b ∷ u ↦ a ∷ b ∷ u
]

-- `strings.Repeat("c", n)`
abbrev pub repeat : ℕ → ℕ → Text
repeat c zero = []
repeat c (suc n) = c ∷ repeat c n

pub length-repeat : (c n : ℕ) → length (repeat c n) ≡ n
length-repeat c zero = refl
length-repeat c (suc n) = omega (arith, length-repeat c n)

pub length-take : (n : ℕ) (t : Text) → length (take n t) ≤ n
length-take zero t = omega arith
length-take (suc n) [] = omega arith
length-take (suc n) (a ∷ t) = omega (arith, length-take n t)

pub length-trim_right : (c : ℕ) (t : Text) → length (trim_right c t) ≤ length t
unfolding trim_right
length-trim_right c [] = omega arith
length-trim_right c (a ∷ t) = ground (arith, length-trim_right c t)
