-- ===== src/Dispatcher/Headers.antt =====
-- internal/orchestrator/dispatcher.go: `cloneHeaders`, and what becomes of a request's headers on the
-- way through a job to the container.
use lm_server.Prelude.{
  ◌≡◌, refl, sym, subst, ap, ◌∙◌, Text, codes, text_eq, text_eq_iff, false, ◌&&◌, List, [], ◌∷◌,
  ◌++◌, none, if◌then◌else◌, arith,
}
use mathlib.Core.List.{append_assoc, append-nil}
use lm_server.Store.{lookup, put, Distinct}
use lm_server.Api.Headers.{Header, values_at}
use lm_server.Api.Headers.Copy.{IsCanonical}
use lm_server.Orchestrator.Forward.{
  content_type, first_value, is_hop_by_hop_header, request_header, request_header-values_at,
}

-- The loop: each key gets a copy of its values.
clone_onto : Header → Header → Header
clone_onto dst [] = dst
clone_onto dst ((key, values) ∷ rest) = clone_onto (put key values dst) rest

unfoldable pub clone_headers : Header → Header
unfolding clone_onto
clone_headers src = clone_onto [] src

put-absent :
    (k : Text) (vs : List Text) (h : Header) → lookup k h ≡ none → put k vs h ≡ h ++ (k, vs) ∷ []
unfolding put lookup
put-absent k vs [] e = refl
put-absent k vs ((j, ws) ∷ h) e = ground (arith, put-absent k vs h)

not_among :
    (j k : Text) (vs : List Text) (rest dst : Header)
    → lookup j (dst ++ (k, vs) ∷ rest) ≡ none
    → text_eq k j ≡ false
unfolding lookup
not_among j k vs rest [] e = ground arith
not_among j k vs rest ((i, ws) ∷ dst) e = ground (arith, not_among j k vs rest dst)

-- A key does not stand before itself.
not_before :
    (k : Text) (vs : List Text) (rest dst : Header)
    → Distinct (dst ++ (k, vs) ∷ rest)
    → lookup k dst ≡ none
unfolding lookup
not_before k vs rest [] d = refl
not_before k vs rest ((j, ws) ∷ dst) d =
    let other = not_among j k vs rest dst d.0 in
    ground (arith, other, not_before k vs rest dst d.1, text_eq_iff k j, text_eq_iff j k)

clone_onto-append : (dst src : Header) → Distinct (dst ++ src) → clone_onto dst src ≡ dst ++ src
unfolding clone_onto
clone_onto-append dst [] d = sym (append-nil dst)
clone_onto-append dst ((key, values) ∷ rest) d =
    let grown = append_assoc dst ((key, values) ∷ []) rest in
    ap (λ h. clone_onto h rest) (put-absent key values dst (not_before key values rest dst d))
    ∙ clone_onto-append (dst ++ (key, values) ∷ []) rest (subst Distinct (sym grown) d)
    ∙ grown

-- Of a client's header, as `net/http` gives it, the container of the job gets all values under each
-- key in their order, except those under the hop-by-hop keys; and where Content-Type is missing or
-- empty it gets application/json. The copy that the job carries in between loses and adds nothing.
pub job_header-values_at :
    (canonical : Text → Text) (src : Header) (k : Text)
    → IsCanonical canonical src
    → canonical content_type ≡ content_type
    → values_at k (request_header canonical (clone_headers src)) ≡ (
        if is_hop_by_hop_header canonical k
        then []
        else if text_eq content_type k && text_eq (first_value (values_at content_type src)) []
        then codes "application/json" ∷ []
        else values_at k src)
unfolding clone_headers IsCanonical
job_header-values_at canonical src k h e =
    ap (λ x. values_at k (request_header canonical x)) (clone_onto-append [] src h.0)
    ∙ request_header-values_at canonical src k h e
