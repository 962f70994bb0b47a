-- ===== src/Docker/Connect.antt =====
-- internal/orchestrator/docker.go: `newDockerManager` and `close`; internal/orchestrator/orchestrator.go:
-- the connection in `New`, and `Close`.
use lm_server.Prelude.{
  ℕ, ◌==◌, ◌≡◌, refl, Text, text_eq, List, [], ◌∷◌, ◌++◌, Option, none, some, if◌then◌else◌, ◌⊎◌,
  inl, inr,
}
use lm_server.Types.{Config}
use lm_server.Orchestrator.State.{Orchestrator, GoError}
use lm_server.Orchestrator.Select.{new}

-- `client.Opt`, as far as it is used.
pub data Opt : Type 0 where
  from_env with_api_version_negotiation : Opt
  with_host : Text → Opt

-- The library's `NewClientWithOpts` and `Ping`; a client is the number it is known by.
pub record Library : Type 0 where
  pub new_client_with_opts : List Opt → ℕ ⊎ GoError
  pub ping : ℕ → Option GoError

-- A host of the configuration comes last, and so replaces that of the environment.
abbrev pub client_opts : Text → List Opt
client_opts host =
    (from_env ∷ with_api_version_negotiation ∷ [])
    ++ (if text_eq host [] then [] else with_host host ∷ [])

-- A client that is made is open, until `Close`.
abbrev pub after_ping : ℕ → Option GoError → List ℕ × (ℕ ⊎ GoError)
after_ping c none = (c ∷ [], inl c)
after_ping c (some e) = ([], inr e)

abbrev pub after_client : Library → ℕ ⊎ GoError → List ℕ × (ℕ ⊎ GoError)
after_client lib (inl c) = after_ping c (lib.ping c)
after_client lib (inr e) = ([], inr e)

-- The clients that are open afterwards, and the manager's client or the error.
unfoldable pub new_docker_manager : Library → Text → List ℕ × (ℕ ⊎ GoError)
new_docker_manager lib host = after_client lib (lib.new_client_with_opts (client_opts host))

abbrev pub after_manager : Config → List ℕ × (ℕ ⊎ GoError) → List ℕ × ((ℕ × Orchestrator) ⊎ GoError)
after_manager cfg (open_clients, inl c) = (open_clients, inl (c, new cfg))
after_manager cfg (open_clients, inr e) = (open_clients, inr e)

-- `New`, the Docker client included.
unfoldable pub connect : Library → Config → List ℕ × ((ℕ × Orchestrator) ⊎ GoError)
unfolding new_docker_manager
connect lib cfg = after_manager cfg (new_docker_manager lib cfg.docker_host)

-- `Close`, of the orchestrator that has the client.
abbrev pub closed : List ℕ → ℕ → List ℕ
closed [] c = []
closed (d ∷ ds) c = let rest = closed ds c in if d == c then rest else d ∷ rest

-- What `New` leaves open: the one client of the orchestrator that it returns, or nothing.
abbrev pub clients_of : (ℕ × Orchestrator) ⊎ GoError → List ℕ
clients_of (inl (c, o)) = c ∷ []
clients_of (inr e) = []

ping-clients :
    (cfg : Config) (c : ℕ) (pinged : Option GoError)
    → let r = after_manager cfg (after_ping c pinged) in r.0 ≡ clients_of r.1
ping-clients cfg c none = refl
ping-clients cfg c (some e) = refl

made-clients :
    (lib : Library) (cfg : Config) (made : ℕ ⊎ GoError)
    → let r = after_manager cfg (after_client lib made) in r.0 ≡ clients_of r.1
made-clients lib cfg (inl c) = ping-clients cfg c (lib.ping c)
made-clients lib cfg (inr e) = refl

-- Whatever Docker answers, `New` leaves no client open but that of the orchestrator that it returns.
connect-clients :
    (lib : Library) (cfg : Config) → (connect lib cfg).0 ≡ clients_of (connect lib cfg).1
unfolding connect new_docker_manager
connect-clients lib cfg =
    made-clients lib cfg (lib.new_client_with_opts (client_opts cfg.docker_host))
