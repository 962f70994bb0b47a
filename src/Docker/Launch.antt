-- ===== src/Docker/Launch.antt =====
-- internal/orchestrator/docker.go: `launchEphemeralContainer`.
use lm_server.Prelude.{
  ◌≡◌, ◌≢◌, refl, Text, codes, text_eq_iff, text_eq_refl, false, List, [], ◌∷◌, ◌++◌, Option, none,
  some, ◌⊎◌, inl, inr, All, arith,
}
use lm_server.Types.{ContainerProfile}
use lm_server.Orchestrator.State.{GoError}
use lm_server.Dispatcher.Job.{class_text, backend_text}
use lm_server.Docker.Env.{container_env}
use lm_server.Docker.Client.{
  ContainerConfig, Device, HostConfig, Client, Containers, without, removed, remove_container,
}

-- `launchedContainer`
pub record Launched : Type 0 where
  pub container_id : Text
  pub name : Text
  pub base_url : Text
  pub target_url : Text
  pub health_url : Text

unfoldable pub container_config : ContainerProfile → Text → ContainerConfig
unfolding container_env
container_config p port = record {
  image = p.image;
  env = container_env p.env;
  cmd = p.command;
  labels =
      (codes "app", codes "lmserv")
      ∷ (codes "profile", p.name)
      ∷ (codes "class", class_text p.queue_class)
      ∷ (codes "backend", backend_text p.backend)
      ∷ [];
  exposed_port = port;
}

device : Text → Device
device path = record {
  path_on_host = path;
  path_in_container = path;
  cgroup_permissions = codes "rwm";
}

unfoldable pub host_config : Text → HostConfig
unfolding device
host_config port = record {
  group_add = codes "video" ∷ codes "render" ∷ [];
  bound_port = port;
  host_ip = codes "127.0.0.1";
  host_port = [];
  devices = device (codes "/dev/kfd") ∷ device (codes "/dev/dri") ∷ [];
}

pub no_binding : Text → GoError
no_binding id = record {
  text = codes "container " ++ (id ++ codes " started without host port binding");
  is_unhealthy_upstream = false;
  is_canceled = false;
  is_deadline_exceeded = false;
  net_timeout = none;
}

-- `bindings[0].HostPort`, if there is one that is not empty.
abbrev pub first_port : List Text → Option Text
first_port [] = none
first_port ([] ∷ ports) = none
first_port ((c ∷ port) ∷ ports) = some (c ∷ port)

abbrev pub launched_at : ContainerProfile → Text → Text → Text → Launched
launched_at p name id port =
    let base = codes "http://127.0.0.1:" ++ port in
    record {
      container_id = id;
      name = name;
      base_url = base;
      target_url = base ++ p.target_path;
      health_url = base ++ p.health_path;
    }

-- The containers afterwards, with the result.
abbrev pub Outcome : Type 0
Outcome = Containers × (Launched ⊎ GoError)

module _ (d : Client) where
  -- An error after the creation: the container is removed, and the removal's own error is dropped.
  abbrev pub undo : Containers → Text → GoError → Outcome
  undo cs id e = ((remove_container d cs id).0, inr e)

  abbrev pub after_inspect :
      Containers → ContainerProfile → Text → Text → List Text ⊎ GoError → Outcome
  after_inspect cs p name id (inr e) = undo cs id e
  after_inspect cs p name id (inl ports) = elim (first_port ports) [
    | none ↦ undo cs id (no_binding id)
    | some port ↦ (cs, inl (launched_at p name id port))
  ]

  abbrev pub after_start :
      Containers → ContainerProfile → Text → Text → Text → Option GoError → Outcome
  after_start cs p name port id (some e) = undo cs id e
  after_start cs p name port id none = after_inspect cs p name id (d.inspect id port)

  abbrev pub after_create : Containers → ContainerProfile → Text → Text → Text ⊎ GoError → Outcome
  after_create cs p name port (inr e) = (cs, inr e)
  after_create cs p name port (inl id) = after_start (id ∷ cs) p name port id (d.start id)

  abbrev pub after_port : Containers → ContainerProfile → Text → Text ⊎ GoError → Outcome
  after_port cs p name (inr e) = (cs, inr e)
  after_port cs p name (inl port) =
      after_create cs p name port (d.create (container_config p port) (host_config port) name)

  unfoldable pub launch_ephemeral_container : Containers → ContainerProfile → Text → Outcome
  unfolding container_config host_config remove_container
  launch_ephemeral_container cs p name = after_port cs p name (d.new_port p.container_port)

-- No container of a list has the ID.
abbrev pub Lacks : Text → Containers → Type 0
Lacks id = All (λ c. c ≢ id)

without_absent : (id : Text) (cs : Containers) → Lacks id cs → without id cs ≡ cs
unfolding without
without_absent id [] h = refl
without_absent id (c ∷ cs) (n, h) = ground (arith, text_eq_iff c id, without_absent id cs h)

without_new : (id : Text) (cs : Containers) → Lacks id cs → without id (id ∷ cs) ≡ cs
unfolding without
without_new id cs h = ground (arith, text_eq_refl id, without_absent id cs h)

-- What is left: everything that was there; and behind a success, or an error whose removal fails
-- too, the new container, and no other.
abbrev pub IsAccounted : Client → Containers → Outcome → Type 0
IsAccounted d cs (cs', inl l) = (cs' ≡ l.container_id ∷ cs) × Lacks l.container_id cs
IsAccounted d cs (cs', inr e) = (cs' ≡ cs) ⊎ ((id : Text) × (d.remove id ≢ none) × (cs' ≡ id ∷ cs))

module _ (d : Client) (cs : Containers) where
  removed-IsLeft :
      (id : Text) (o : Option GoError)
      → d.remove id ≡ o
      → Lacks id cs
      → ((removed (id ∷ cs) id o).0 ≡ cs)
        ⊎ ((j : Text) × (d.remove j ≢ none) × ((removed (id ∷ cs) id o).0 ≡ j ∷ cs))
  unfolding without
  removed-IsLeft id none e new = inl (without_new id cs new)
  removed-IsLeft id (some x) e new = inr (id, (λ (h : d.remove id ≡ none). cc), refl)

  pub undo-IsAccounted :
      (id : Text) (e : GoError) → Lacks id cs → IsAccounted d cs (undo d (id ∷ cs) id e)
  unfolding remove_container
  undo-IsAccounted id e new = removed-IsLeft id (d.remove id) refl new

  inspected-IsAccounted :
      (p : ContainerProfile) (name id : Text) (r : List Text ⊎ GoError)
      → Lacks id cs
      → IsAccounted d cs (after_inspect d (id ∷ cs) p name id r)
  inspected-IsAccounted p name id (inr e) new = undo-IsAccounted id e new
  inspected-IsAccounted p name id (inl []) new = undo-IsAccounted id (no_binding id) new
  inspected-IsAccounted p name id (inl ([] ∷ ports)) new = undo-IsAccounted id (no_binding id) new
  inspected-IsAccounted p name id (inl ((c ∷ port) ∷ ports)) new = (refl, new)

  started-IsAccounted :
      (p : ContainerProfile) (name port id : Text) (r : Option GoError)
      → Lacks id cs
      → IsAccounted d cs (after_start d (id ∷ cs) p name port id r)
  started-IsAccounted p name port id (some e) new = undo-IsAccounted id e new
  started-IsAccounted p name port id none new =
      inspected-IsAccounted p name id (d.inspect id port) new

  created-IsAccounted :
      (p : ContainerProfile) (name port : Text) (r : Text ⊎ GoError)
      → ((id : Text) → r ≡ inl id → Lacks id cs)
      → IsAccounted d cs (after_create d cs p name port r)
  created-IsAccounted p name port (inr e) new = inl refl
  created-IsAccounted p name port (inl id) new =
      started-IsAccounted p name port id (d.start id) (new id refl)

  ported-IsAccounted :
      (p : ContainerProfile) (name : Text) (r : Text ⊎ GoError)
      → ((c : ContainerConfig) (h : HostConfig) (id : Text)
          → d.create c h name ≡ inl id
          → Lacks id cs)
      → IsAccounted d cs (after_port d cs p name r)
  unfolding container_config host_config
  ported-IsAccounted p name (inr e) new = inl refl
  ported-IsAccounted p name (inl port) new =
      created-IsAccounted p name port (d.create (container_config p port) (host_config port) name)
        (new (container_config p port) (host_config port))

  -- If Docker gives a new container an ID that no container has: a launch that succeeds adds one
  -- container, the one that it returns, and its ID is new. A launch that fails leaves the containers as they were,
  -- unless a container was created and its removal failed too; then that one is left behind.
  pub launch-IsAccounted :
      (p : ContainerProfile) (name : Text)
      → ((c : ContainerConfig) (h : HostConfig) (id : Text)
          → d.create c h name ≡ inl id
          → Lacks id cs)
      → IsAccounted d cs (launch_ephemeral_container d cs p name)
  unfolding launch_ephemeral_container
  launch-IsAccounted p name new = ported-IsAccounted p name (d.new_port p.container_port) new
