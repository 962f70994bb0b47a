-- ===== src/Api/Headers/Copy.antt =====
-- internal/api/server.go: what `copyResponseHeaders` passes on.
use lm_server.Prelude.{
  ◌≡◌, Bool, Text, text_eq, text_eq_iff, List, [], ◌∷◌, ◌++◌, if◌then◌else◌, All, arith, Bool-cases,
  inl, inr,
}
use mathlib.Core.List.{append_assoc, append-nil}
use lm_server.Store.{lookup, Distinct}
use lm_server.Store.Laws.{lookup-put}
use lm_server.Api.Headers.{
  Header, values_at, add, add_values, is_skipped, copy_response_headers, copy_unless,
}

module _ (canonical : Text → Text) where
  add-values_at :
      (key value k : Text) (h : Header)
      → canonical key ≡ key
      → values_at k (add canonical key value h)
        ≡ (if text_eq key k then values_at k h ++ value ∷ [] else values_at k h)
  unfolding add
  add-values_at key value k h e =
      ground (arith, e, lookup-put key k (values_at key h ++ value ∷ []) h, text_eq_iff key k)

  add_values-values_at :
      (key k : Text) (vs : List Text) (h : Header)
      → canonical key ≡ key
      → values_at k (add_values canonical key vs h)
        ≡ (if text_eq key k then values_at k h ++ vs else values_at k h)
  unfolding add_values
  add_values-values_at key k [] h e = ground (arith, append-nil (values_at k h))
  add_values-values_at key k (v ∷ vs) h e = ground (
    arith,
    add_values-values_at key k vs (add canonical key v h) e,
    add-values_at key v k h e,
    append_assoc (values_at k h) (v ∷ []) vs,
  )

  -- A container's response header, as `net/http` gives it: its keys are different and canonical.
  unfoldable pub IsCanonical : Header → Type 0
  IsCanonical h = Distinct h × All (λ kv. canonical kv.0 ≡ kv.0) h

  pub copy_unless-values_at :
      (skip : Text → Bool) (dst src : Header) (k : Text)
      → IsCanonical src
      → values_at k (copy_unless canonical skip dst src)
        ≡ (if skip k then values_at k dst else values_at k dst ++ values_at k src)
  unfolding copy_unless IsCanonical lookup
  copy_unless-values_at skip dst [] k h = ground (arith, append-nil (values_at k dst))
  copy_unless-values_at skip dst ((key, vs) ∷ rest) k ((d, ds), (c, cs)) =
      elim (Bool-cases (skip key)) [
        | inl y ↦ ground (arith, copy_unless-values_at skip dst rest k (ds, cs), text_eq_iff key k)
        | inr n ↦ ground (
          arith,
          copy_unless-values_at skip (add_values canonical key vs dst) rest k (ds, cs),
          add_values-values_at key k vs dst c,
          text_eq_iff key k,
          append-nil (values_at k dst ++ vs),
        )
      ]

  -- Of a container's response header, as `net/http` gives it, all values under each key are added
  -- behind those that the response has, in their order, except under the hop-by-hop keys and
  -- Content-Length, under which nothing is added.
  copy_response_headers-values_at :
      (dst src : Header) (k : Text)
      → IsCanonical src
      → values_at k (copy_response_headers canonical dst src)
        ≡ (if is_skipped canonical k then values_at k dst else values_at k dst ++ values_at k src)
  unfolding copy_response_headers
  copy_response_headers-values_at dst src k h =
      copy_unless-values_at (is_skipped canonical) dst src k h
