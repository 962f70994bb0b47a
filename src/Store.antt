-- ===== src/Store.antt =====
-- A Go map with string keys, as the list of its entries in the order in which the next `range`
-- visits them. Go fixes no such order: see `swap_at`.
pub mod Laws
use lm_server.Prelude.{
  ℕ, zero, suc, Text, text_eq, Bool, List, [], ◌∷◌, Option, none, some, if◌then◌else◌, ◌≡◌,
}

module _ {ℓ} {V : Type ℓ} where
  unfoldable pub lookup : Text → List (Text × V) → Option V
  lookup k [] = none
  lookup k ((j, v) ∷ m) = if text_eq j k then some v else lookup k m

  -- `m[k] = v`
  unfoldable pub put : Text → V → List (Text × V) → List (Text × V)
  put k v [] = (k, v) ∷ []
  put k v ((j, w) ∷ m) = if text_eq j k then (k, v) ∷ m else (j, w) ∷ put k v m

  -- A write through the pointer `m[k]`; nothing happens where the key is missing.
  unfoldable pub update : Text → (V → V) → List (Text × V) → List (Text × V)
  update k f [] = []
  update k f ((j, w) ∷ m) = if text_eq j k then (j, f w) ∷ m else (j, w) ∷ update k f m

  -- `delete(m, k)`
  unfoldable pub delete : Text → List (Text × V) → List (Text × V)
  delete k [] = []
  delete k ((j, w) ∷ m) = if text_eq j k then m else (j, w) ∷ delete k m

  -- Another order of the entries: those at i and i + 1 change places. Every order is reached by
  -- such steps.
  unfoldable pub swap_at : ℕ → List (Text × V) → List (Text × V)
  swap_at i [] = []
  swap_at i (a ∷ []) = a ∷ []
  swap_at zero (a ∷ b ∷ m) = b ∷ a ∷ m
  swap_at (suc i) (a ∷ b ∷ m) = a ∷ swap_at i (b ∷ m)

  -- A map holds a key once.
  abbrev pub Distinct : List (Text × V) → Type ℓ
  Distinct [] = Unit
  Distinct ((k, v) ∷ m) = (lookup k m ≡ none) × Distinct m
