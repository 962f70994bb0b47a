-- ===== src/Store/Laws.antt =====
-- The laws of a map's operations, in terms of `lookup`.
use lm_server.Prelude.{
  ℕ, zero, suc, Text, text_eq, text_eq_iff, List, [], ◌∷◌, none, some, if◌then◌else◌, ◌≡◌, refl,
  arith,
}
use lm_server.Store.{lookup, put, update, delete, swap_at, Distinct}
use mathlib.Core.Option

module _ {ℓ} {V : Type ℓ} where
  pub lookup-put :
      (k j : Text) (v : V) (m : List (Text × V))
      → lookup j (put k v m) ≡ (if text_eq k j then some v else lookup j m)
  unfolding lookup put
  lookup-put k j v [] = refl
  lookup-put k j v ((i, w) ∷ m) =
      ground (arith, text_eq_iff k j, text_eq_iff i k, text_eq_iff i j, lookup-put k j v m)

  pub lookup-update :
      (k j : Text) (f : V → V) (m : List (Text × V))
      → lookup j (update k f m) ≡ (if text_eq k j then Option.map f (lookup k m) else lookup j m)
  unfolding lookup update
  lookup-update k j f [] = ground arith
  lookup-update k j f ((i, w) ∷ m) =
      ground (arith, text_eq_iff k j, text_eq_iff i k, text_eq_iff i j, lookup-update k j f m)

  pub lookup-delete :
      (k j : Text) (m : List (Text × V))
      → Distinct m
      → lookup j (delete k m) ≡ (if text_eq k j then none else lookup j m)
  unfolding lookup delete
  lookup-delete k j [] d = ground arith
  lookup-delete k j ((i, w) ∷ m) d =
      ground (arith, text_eq_iff k j, text_eq_iff i k, text_eq_iff i j, lookup-delete k j m d.1)

  pub lookup-swap_at :
      (i : ℕ) (j : Text) (m : List (Text × V)) → Distinct m → lookup j (swap_at i m) ≡ lookup j m
  unfolding lookup swap_at
  lookup-swap_at i j [] d = refl
  lookup-swap_at i j (a ∷ []) d = refl
  lookup-swap_at zero j ((k, v) ∷ (l, w) ∷ m) d =
      ground (arith, text_eq_iff k j, text_eq_iff l j, text_eq_iff l k)
  lookup-swap_at (suc i) j ((k, v) ∷ (l, w) ∷ m) d =
      ground (arith, lookup-swap_at i j ((l, w) ∷ m) d.1)

  pub put-Distinct : (k : Text) (v : V) (m : List (Text × V)) → Distinct m → Distinct (put k v m)
  unfolding lookup put
  put-Distinct k v [] d = (refl, tt)
  put-Distinct k v ((i, w) ∷ m) d =
      ground (arith, text_eq_iff i k, text_eq_iff k i, lookup-put k i v m, put-Distinct k v m d.1)

  pub update-Distinct :
      (k : Text) (f : V → V) (m : List (Text × V)) → Distinct m → Distinct (update k f m)
  unfolding lookup update
  update-Distinct k f [] d = tt
  update-Distinct k f ((i, w) ∷ m) d =
      ground
        (arith, text_eq_iff i k, text_eq_iff k i, lookup-update k i f m, update-Distinct k f m d.1)

  pub delete-Distinct : (k : Text) (m : List (Text × V)) → Distinct m → Distinct (delete k m)
  unfolding lookup delete
  delete-Distinct k [] d = tt
  delete-Distinct k ((i, w) ∷ m) d =
      ground
        (arith, text_eq_iff i k, text_eq_iff k i, lookup-delete k i m d.1, delete-Distinct k m d.1)

  pub swap_at-Distinct : (i : ℕ) (m : List (Text × V)) → Distinct m → Distinct (swap_at i m)
  unfolding lookup swap_at
  swap_at-Distinct i [] d = tt
  swap_at-Distinct i (a ∷ []) d = d
  swap_at-Distinct zero ((k, v) ∷ (l, w) ∷ m) d = ground (arith, text_eq_iff k l, text_eq_iff l k)
  swap_at-Distinct (suc i) ((k, v) ∷ (l, w) ∷ m) d =
      (rw (lookup-swap_at i k ((l, w) ∷ m) d.1) d.0, swap_at-Distinct i ((l, w) ∷ m) d.1)
