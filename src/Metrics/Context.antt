-- ===== src/Metrics/Context.antt =====
-- internal/metrics/recorder.go: `IntoContext` and `FromContext`.
use lm_server.Prelude.{
  ℕ, ◌≡◌, refl, Bool, true, false, All, List, [], ◌∷◌, ◌++◌, Option, none, some, if◌then◌else◌,
}
use lm_server.Metrics.Recorder.{Recorder}

-- The keys of a `context.Context`: `recorderKey{}`, which no other package can name, and others.
pub data ContextKey : Type 0 where
  recorder_key : ContextKey
  other_key : ℕ → ContextKey

pub data ContextValue : Type 0 where
  recorder_value : Recorder → ContextValue
  other_value : ℕ → ContextValue

-- The values of a context, newest first: `context.WithValue` adds one, and `Value` gives the newest
-- under a key.
abbrev pub Context : Type 0
Context = List (ContextKey × ContextValue)

abbrev pub is_recorder_key : ContextKey → Bool
is_recorder_key recorder_key = true
is_recorder_key (other_key n) = false

unfoldable pub recorder_in : Context → Option ContextValue
recorder_in [] = none
recorder_in ((key, value) ∷ ctx) = if is_recorder_key key then some value else recorder_in ctx

unfoldable pub into_context : Context → Recorder → Context
into_context ctx recorder = (recorder_key, recorder_value recorder) ∷ ctx

-- The type assertion; `none` is the nil recorder.
abbrev pub as_recorder : Option ContextValue → Option Recorder
as_recorder (some (recorder_value r)) = some r
as_recorder (some (other_value n)) = none
as_recorder none = none

unfoldable pub from_context : Context → Option Recorder
unfolding recorder_in
from_context ctx = as_recorder (recorder_in ctx)

abbrev pub is_other : ContextKey × ContextValue → Bool
is_other (key, value) = if is_recorder_key key then false else true

-- Every context that is made from the middleware's by adding other values gives its recorder back:
-- the handlers' tests for a nil recorder succeed.
from_context-into_context :
    (more ctx : Context) (r : Recorder)
    → All (λ kv. is_other kv ≡ true) more
    → from_context (more ++ into_context ctx r) ≡ some r
unfolding from_context recorder_in into_context
from_context-into_context [] ctx r h = refl
from_context-into_context ((recorder_key, v) ∷ more) ctx r h = cc
from_context-into_context ((other_key n, v) ∷ more) ctx r h =
    from_context-into_context more ctx r h.1
