-- ===== src/Orchestrator/Forward.antt =====
-- internal/orchestrator/orchestrator.go: `Forward`, `copyRequestHeaders` and `isHopByHopHeader`.
use lm_server.Prelude.{
  ◌≡◌, refl, Text, codes, text_eq, text_eq_iff, Bool, false, ◌&&◌, List, [], ◌∷◌, Option, none,
  some, if◌then◌else◌, ◌⊎◌, inr, arith,
}
use lm_server.Store.{lookup}
use lm_server.Store.Laws.{lookup-put}
use lm_server.Orchestrator.State.{Lease, GoError}
use lm_server.Api.Headers.{Header, values_at, one_of, hop_by_hop, copy_unless, set_header}
use lm_server.Api.Headers.Copy.{IsCanonical, copy_unless-values_at}

-- What is sent to the container.
pub record OutRequest : Type 0 where
  pub url : Text
  pub header : Header
  pub body : Text

-- `Header.Get`: the first value, or the empty text.
abbrev pub first_value : List Text → Text
first_value [] = []
first_value (v ∷ vs) = v

abbrev pub content_type : Text
content_type = codes "Content-Type"

-- `canonical` is `http.CanonicalHeaderKey`.
module _ (canonical : Text → Text) where
  -- A copy of the function in internal/api/server.go.
  unfoldable pub is_hop_by_hop_header : Text → Bool
  is_hop_by_hop_header key = one_of (canonical key) hop_by_hop

  unfoldable pub copy_request_headers : Header → Header → Header
  unfolding copy_unless
  copy_request_headers = copy_unless canonical is_hop_by_hop_header

  -- The default of `Content-Type`.
  abbrev pub with_type : Header → Header
  with_type h =
      if text_eq (first_value (values_at (canonical content_type) h)) []
      then set_header canonical content_type (codes "application/json") h
      else h

  unfoldable pub request_header : Header → Header
  request_header headers = with_type (copy_request_headers [] headers)

  -- `build` is the error of `http.NewRequestWithContext`, and `send` is `http.Client.Do`.
  module _ {ℓ} {Response : Type ℓ} where
    abbrev pub after_build :
        (OutRequest → Response ⊎ GoError) → OutRequest → Option GoError → Response ⊎ GoError
    after_build send r (some e) = inr e
    after_build send r none = send r

    unfoldable pub forward :
        (Text → Option GoError)
        → (OutRequest → Response ⊎ GoError)
        → Lease
        → Text
        → Header
        → Response ⊎ GoError
    unfolding request_header
    forward build send lease body headers =
        after_build send
          (record { url = lease.target_url; header = request_header headers; body = body })
          (build lease.target_url)

  copied-values_at :
      (src : Header) (k : Text)
      → IsCanonical canonical src
      → values_at k (copy_request_headers [] src)
        ≡ (if is_hop_by_hop_header k then [] else values_at k src)
  unfolding copy_request_headers lookup
  copied-values_at src k h = copy_unless-values_at canonical is_hop_by_hop_header [] src k h

  -- Content-Type is its own canonical form, and no hop-by-hop header.
  type_kept : canonical content_type ≡ content_type → is_hop_by_hop_header content_type ≡ false
  unfolding is_hop_by_hop_header text_eq
  type_kept e = rw e refl

  with_type-values_at :
      (src : Header) (k : Text)
      → canonical content_type ≡ content_type
      → values_at k (with_type src) ≡ (
          if text_eq content_type k && text_eq (first_value (values_at content_type src)) []
          then codes "application/json" ∷ []
          else values_at k src)
  with_type-values_at src k e = rw e (
      ground (
        arith,
        lookup-put content_type k (codes "application/json" ∷ []) src,
        text_eq_iff content_type k,
      ))

  -- Of a client's header, as `net/http` gives it, the container gets all values under each key in
  -- their order, except those under the hop-by-hop keys; and where Content-Type is missing or empty
  -- it gets application/json.
  pub request_header-values_at :
      (src : Header) (k : Text)
      → IsCanonical canonical src
      → canonical content_type ≡ content_type
      → values_at k (request_header src) ≡ (
          if is_hop_by_hop_header k
          then []
          else if text_eq content_type k && text_eq (first_value (values_at content_type src)) []
          then codes "application/json" ∷ []
          else values_at k src)
  unfolding request_header
  request_header-values_at src k h e = ground (
    arith,
    with_type-values_at (copy_request_headers [] src) k e,
    copied-values_at src k h,
    copied-values_at src content_type h,
    type_kept e,
    text_eq_iff content_type k,
  )
