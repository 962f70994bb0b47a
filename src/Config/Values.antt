-- ===== src/Config/Values.antt =====
-- internal/orchestrator/config.go: `envString`, `envInt` and `envDuration`.
use lm_server.Prelude.{
  minus, ℕ, suc, ◌+◌, ◌-◌, ◌*◌, ◌^◌, ◌<◌, ◌≡◌, refl, sym, ap, ◌∙◌, ℤ, pos, negsuc, Text, text_eq,
  false, ◌&&◌, ◌==◌, leb, ltb, [], ◌∷◌, Option, none, some, if◌then◌else◌, All, All-imp, arith,
}
use lm_server.Orchestrator.SlotId.{
  decimal, value_from, IsDigit, decimal-All, decimal_first, value_from-decimal,
}
use lm_server.Config.Space.{trim_space, trim_space-visible, IsVisible}

-- What the program gets from its surroundings: `os.Getenv`, and `time.ParseDuration`, where `none`
-- is an error.
pub record Surroundings : Type 0 where
  pub getenv : Text → Text
  pub parse_duration : Text → Option ℤ

-- `strconv.Atoi`: digits, behind a sign or not, in the range of 64 bits; `none` is an error.
read_digits : ℕ → Text → Option ℕ
read_digits n [] = some n
read_digits n (c ∷ t) =
    if leb b'0' c && leb c b'9' then read_digits (n * 10 + (c - b'0')) t else none

unsigned : Text → Option ℕ
unfolding read_digits
unsigned [] = none
unsigned (c ∷ t) = read_digits 0 (c ∷ t)

in_range : Option ℕ → Option ℤ
in_range none = none
in_range (some n) = if ltb n (2 ^ 63) then some (pos n) else none

negated : Option ℕ → Option ℤ
negated none = none
negated (some n) = if leb n (2 ^ 63) then some (minus n) else none

unfoldable pub atoi : Text → Option ℤ
unfolding unsigned in_range negated
atoi [] = none
atoi (c ∷ t) =
    if c == b'-'
    then negated (unsigned t)
    else if c == b'+'
    then in_range (unsigned t)
    else in_range (unsigned (c ∷ t))

abbrev pub or_fallback {ℓ} : {A : Type ℓ} → Option A → A → A
or_fallback (some a) fallback = a
or_fallback none fallback = fallback

module _ (env : Surroundings) where
  unfoldable pub env_string : Text → Text → Text
  unfolding trim_space
  env_string key fallback =
      let value = trim_space (env.getenv key) in if text_eq value [] then fallback else value

  unfoldable pub env_int : Text → ℤ → ℤ
  unfolding trim_space atoi
  env_int key fallback =
      let value = trim_space (env.getenv key) in
      if text_eq value [] then fallback else or_fallback (atoi value) fallback

  unfoldable pub env_duration : Text → ℤ → ℤ
  unfolding trim_space
  env_duration key fallback =
      let value = trim_space (env.getenv key) in
      if text_eq value [] then fallback else or_fallback (env.parse_duration value) fallback

-- `strconv.Itoa`
unfoldable pub itoa : ℤ → Text
itoa (pos n) = decimal n
itoa (negsuc n) = b'-' ∷ decimal (suc n)

read_digits-value : (n : ℕ) (t : Text) → All IsDigit t → read_digits n t ≡ some (value_from n t)
unfolding read_digits value_from
read_digits-value n [] h = refl
read_digits-value n (c ∷ t) (hc, h) = ground (arith, read_digits-value (n * 10 + (c - b'0')) t h)

unsigned-decimal : (n : ℕ) → n < 2 ^ 64 → unsigned (decimal n) ≡ some n
unfolding unsigned
unsigned-decimal n h =
    let (c, t, e) = decimal_first n in
    ap unsigned e
    ∙ ap (read_digits 0) (sym e)
    ∙ read_digits-value 0 (decimal n) (decimal-All n)
    ∙ ap some (value_from-decimal n h)

abbrev pub IsInt64 : ℤ → Type 0
IsInt64 (pos n) = n < 2 ^ 63
IsInt64 (negsuc n) = n < 2 ^ 63

unsigned_first :
    (s : Text) (c : ℕ) (t : Text) → s ≡ c ∷ t → All IsDigit s → atoi s ≡ in_range (unsigned s)
unfolding atoi
unsigned_first [] c t e h = cc
unsigned_first (d ∷ s) c t e h = ground arith

in_range-small : (n : ℕ) → n < 2 ^ 63 → in_range (some n) ≡ some (pos n)
unfolding in_range
in_range-small n h = ground arith

negated-small : (n : ℕ) → n < 2 ^ 63 → negated (some (suc n)) ≡ some (negsuc n)
unfolding negated
negated-small n h = ground arith

atoi-minus : (t : Text) → atoi (b'-' ∷ t) ≡ negated (unsigned t)
unfolding atoi
atoi-minus t = refl

pub atoi-itoa : (i : ℤ) → IsInt64 i → atoi (itoa i) ≡ some i
unfolding itoa
atoi-itoa (pos n) h =
    let (c, t, e) = decimal_first n in
    unsigned_first (decimal n) c t e (decimal-All n)
    ∙ ap in_range (unsigned-decimal n (omega arith))
    ∙ in_range-small n h
atoi-itoa (negsuc n) h =
    atoi-minus (decimal (suc n))
    ∙ ap negated (unsigned-decimal (suc n) (omega arith))
    ∙ negated-small n h

IsVisible-digits : (n : ℕ) → All IsVisible (decimal n)
IsVisible-digits n = All-imp IsDigit IsVisible (decimal n) (λ c h. omega arith) (decimal-All n)

itoa-IsVisible : (i : ℤ) → All IsVisible (itoa i)
unfolding itoa
itoa-IsVisible (pos n) = IsVisible-digits n
itoa-IsVisible (negsuc n) = (omega arith, IsVisible-digits (suc n))

itoa_first : (i : ℤ) → text_eq (itoa i) [] ≡ false
unfolding itoa text_eq
itoa_first (pos n) = let (c, t, e) = decimal_first n in rw e refl
itoa_first (negsuc n) = refl

-- A variable that holds a 64-bit integer in decimal is read as that integer, whatever the fallback.
pub env_int-itoa :
    (env : Surroundings) (key : Text) (i fallback : ℤ)
    → IsInt64 i
    → env.getenv key ≡ itoa i
    → env_int env key fallback ≡ i
unfolding env_int
env_int-itoa env key i fallback h e =
    rw (e, trim_space-visible (itoa i) (itoa-IsVisible i), itoa_first i, atoi-itoa i h)
