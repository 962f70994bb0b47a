-- ===== src/Api/Headers.antt =====
-- internal/api/server.go: `copyResponseHeaders` and `isHopByHopHeader`.
pub mod Copy
use lm_server.Prelude.{
  Text, codes, text_eq, Bool, true, false, ◌||◌, List, [], ◌∷◌, ◌++◌, Option, none, some,
  if◌then◌else◌,
}
use lm_server.Store.{lookup, put}

-- An `http.Header`, in the order of the next `range`.
abbrev pub Header : Type 0
Header = List (Text × List Text)

abbrev pub values_at : Text → Header → List Text
values_at key h = elim (lookup key h) [ some vs ↦ vs | none ↦ [] ]

abbrev pub one_of : Text → List Text → Bool
one_of t [] = false
one_of t (u ∷ us) = text_eq t u || one_of t us

abbrev pub hop_by_hop : List Text
hop_by_hop =
    codes "Connection"
    ∷ codes "Keep-Alive"
    ∷ codes "Proxy-Authenticate"
    ∷ codes "Proxy-Authorization"
    ∷ codes "Te"
    ∷ codes "Trailer"
    ∷ codes "Transfer-Encoding"
    ∷ codes "Upgrade"
    ∷ []

-- `canonical` is `http.CanonicalHeaderKey`.
module _ (canonical : Text → Text) where
  -- `Header.Add` and `Header.Set`
  unfoldable pub add : Text → Text → Header → Header
  add key value h = put (canonical key) (values_at (canonical key) h ++ value ∷ []) h

  abbrev pub set_header : Text → Text → Header → Header
  set_header key value h = put (canonical key) (value ∷ []) h

  unfoldable pub is_hop_by_hop_header : Text → Bool
  is_hop_by_hop_header key = one_of (canonical key) hop_by_hop

  unfoldable pub is_skipped : Text → Bool
  unfolding is_hop_by_hop_header
  is_skipped key = is_hop_by_hop_header key || text_eq (canonical key) (codes "Content-Length")

  unfoldable pub add_values : Text → List Text → Header → Header
  unfolding add
  add_values key [] dst = dst
  add_values key (value ∷ rest) dst = add_values key rest (add key value dst)

  -- The loop of `copyResponseHeaders`, and of `copyRequestHeaders` in
  -- internal/orchestrator/orchestrator.go, over the test that skips a key.
  unfoldable pub copy_unless : (Text → Bool) → Header → Header → Header
  unfolding add_values
  copy_unless skip dst [] = dst
  copy_unless skip dst ((key, values) ∷ rest) =
      copy_unless skip (if skip key then dst else add_values key values dst) rest

  unfoldable pub copy_response_headers : Header → Header → Header
  unfolding is_skipped copy_unless
  copy_response_headers = copy_unless is_skipped
