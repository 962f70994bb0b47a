-- ===== src/Orchestrator/SlotId.antt =====
-- internal/orchestrator/orchestrator.go: `nextSlotID`, the text "slot-%06d" of a uint64 counter.
use lm_server.Prelude.{
  ℕ, zero, suc, ◌+◌, ◌-◌, ◌*◌, ◌/◌, ◌%◌, ◌^◌, ◌<◌, ◌≡◌, refl, ap, ◌∙◌, sym, Text, codes, [], ◌∷◌,
  ◌++◌, if◌then◌else◌, ltb, Bool-cases, inl, inr, length, arith, All, All-append, ◌≤◌,
}
use native.Mathlib.Nat.{pow-suc}

-- Decimal digits, the most significant first; 20 rounds are enough for 64 bits.
digits_fuel : ℕ → ℕ → Text
digits_fuel zero n = []
digits_fuel (suc fuel) n =
    let rest = digits_fuel fuel (n / 10) in
    if ltb n 10 then (48 + n) ∷ [] else rest ++ (48 + n % 10) ∷ []

-- `%d`
unfoldable pub decimal : ℕ → Text
unfolding digits_fuel
decimal n = digits_fuel 20 n

zeros : ℕ → Text
zeros zero = []
zeros (suc n) = b'0' ∷ zeros n

-- `%06d`
unfoldable pub pad6 : Text → Text
unfolding zeros
pad6 t = zeros (6 - length t) ++ t

unfoldable pub slot_id : ℕ → Text
unfolding decimal pad6
slot_id n = codes "slot-" ++ pad6 (decimal n)

-- `slotSeq.Add(1)`
unfoldable pub next_seq : ℕ → ℕ
next_seq seq = (seq + 1) % 2 ^ 64

-- The number that a text of digits stands for, behind the digits read so far.
unfoldable pub value_from : ℕ → Text → ℕ
value_from acc [] = acc
value_from acc (c ∷ t) = value_from (acc * 10 + (c - 48)) t

value_from-append :
    (acc : ℕ) (s t : Text) → value_from acc (s ++ t) ≡ value_from (value_from acc s) t
unfolding value_from
value_from-append acc [] t = refl
value_from-append acc (c ∷ s) t = value_from-append (acc * 10 + (c - 48)) s t

value_from-zeros : (n : ℕ) (t : Text) → value_from 0 (zeros n ++ t) ≡ value_from 0 t
unfolding value_from zeros
value_from-zeros zero t = refl
value_from-zeros (suc n) t = value_from-zeros n t

value_from-digits : (fuel n : ℕ) → n < 10 ^ fuel → value_from 0 (digits_fuel fuel n) ≡ n
unfolding value_from digits_fuel
value_from-digits zero n h = omega arith
value_from-digits (suc fuel) n h = elim (Bool-cases (ltb n 10)) [
  | inl small ↦ rw small (ground arith)
  | inr large ↦ rw large (
      value_from-append 0 (digits_fuel fuel (n / 10)) ((48 + n % 10) ∷ [])
      ∙ omega (arith, value_from-digits fuel (n / 10) (omega (arith, pow-suc 10 fuel))))
]

abbrev pub IsDigit : ℕ → Type 0
IsDigit c = (48 ≤ c) × (c ≤ 57)

digits-All : (fuel n : ℕ) → All IsDigit (digits_fuel fuel n)
unfolding digits_fuel
digits-All zero n = tt
digits-All (suc fuel) n = elim (Bool-cases (ltb n 10)) [
  | inl small ↦ rw small (ground arith)
  | inr large ↦ rw large (
      All-append IsDigit (digits_fuel fuel (n / 10)) ((48 + n % 10) ∷ []) (digits-All fuel (n / 10))
        (omega arith))
]

digits_first : (fuel n : ℕ) → (c : ℕ) × (t : Text) × (digits_fuel (suc fuel) n ≡ c ∷ t)
unfolding digits_fuel
digits_first zero n = elim (Bool-cases (ltb n 10)) [
  | inl small ↦ (48 + n, [], rw small)
  | inr large ↦ (48 + n % 10, [], rw large)
]
digits_first (suc fuel) n = elim (Bool-cases (ltb n 10)) [
  | inl small ↦ (48 + n, [], rw small)
  | inr large ↦
      let (c, t, e) = digits_first fuel (n / 10) in
      (c, t ++ (48 + n % 10) ∷ [], rw large (ap (λ s. s ++ (48 + n % 10) ∷ []) e))
]

-- A number of at most 64 bits is written with digits, at least one, that stand for it.
pub decimal-All : (n : ℕ) → All IsDigit (decimal n)
unfolding decimal
decimal-All n = digits-All 20 n

pub decimal_first : (n : ℕ) → (c : ℕ) × (t : Text) × (decimal n ≡ c ∷ t)
unfolding decimal
decimal_first n = digits_first 19 n

pub value_from-decimal : (n : ℕ) → n < 2 ^ 64 → value_from 0 (decimal n) ≡ n
unfolding decimal
value_from-decimal n h = value_from-digits 20 n (omega arith)

tail5-injective : (s t : Text) → codes "slot-" ++ s ≡ codes "slot-" ++ t → s ≡ t
tail5-injective s t e = cc

value_from-slot_id : (n : ℕ) → n < 2 ^ 64 → value_from 0 (pad6 (decimal n)) ≡ n
unfolding pad6 decimal
value_from-slot_id n h =
    value_from-zeros (6 - length (digits_fuel 20 n)) (digits_fuel 20 n)
    ∙ value_from-digits 20 n (omega arith)

-- Two counters below 2^64 never give the same slot ID.
pub slot_id-injective : (m n : ℕ) → m < 2 ^ 64 → n < 2 ^ 64 → slot_id m ≡ slot_id n → m ≡ n
slot_id-injective m n hm hn e =
    sym (value_from-slot_id m hm)
    ∙ ap (value_from 0)
        (tail5-injective (pad6 (decimal m)) (pad6 (decimal n)) (unfold slot_id in e))
    ∙ value_from-slot_id n hn
