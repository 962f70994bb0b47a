-- ===== src/Docker/Client.antt =====
-- The Docker client that internal/orchestrator/docker.go calls: a parameter, with the containers that
-- are there after its calls.
use lm_server.Prelude.{Text, text_eq, List, [], ◌∷◌, Option, none, some, if◌then◌else◌, ◌⊎◌}
use lm_server.Orchestrator.State.{GoError}

-- `container.Config`, the labels by their keys; `container.HostConfig`, where every device keeps its
-- path in the container.
pub record ContainerConfig : Type 0 where
  pub image : Text
  pub env : List Text
  pub cmd : List Text
  pub labels : List (Text × Text)
  pub exposed_port : Text

pub record Device : Type 0 where
  pub path_on_host : Text
  pub path_in_container : Text
  pub cgroup_permissions : Text

pub record HostConfig : Type 0 where
  pub group_add : List Text
  pub bound_port : Text
  pub host_ip : Text
  pub host_port : Text
  pub devices : List Device

-- What the client answers: `ContainerCreate` gives an ID, `ContainerInspect` the host ports that a
-- container's port is bound to; `none` is the nil error of the others. `new_port` is `nat.NewPort("tcp", …)`.
pub record Client : Type 0 where
  pub new_port : Text → Text ⊎ GoError
  pub create : ContainerConfig → HostConfig → Text → Text ⊎ GoError
  pub start : Text → Option GoError
  pub inspect : Text → Text → List Text ⊎ GoError
  pub remove : Text → Option GoError
  pub pause : Text → Option GoError
  pub unpause : Text → Option GoError

-- The containers that exist. As Docker documents, `ContainerCreate` adds one when it succeeds, and
-- `ContainerRemove` takes it away when it does.
abbrev pub Containers : Type 0
Containers = List Text

unfoldable pub without : Text → Containers → Containers
without id [] = []
without id (c ∷ cs) = let rest = without id cs in if text_eq c id then rest else c ∷ rest

abbrev pub removed : Containers → Text → Option GoError → Containers × Option GoError
unfolding without
removed cs id none = (without id cs, none)
removed cs id (some e) = (cs, some e)

-- `ContainerRemove` with `Force` and `RemoveVolumes`, as `removeContainer` calls it.
unfoldable pub remove_container : Client → Containers → Text → Containers × Option GoError
unfolding without
remove_container d cs id = removed cs id (d.remove id)

-- Neither changes which containers there are.
unfoldable pub pause_container : Client → Text → Option GoError
pause_container d id = d.pause id

unfoldable pub unpause_container : Client → Text → Option GoError
unpause_container d id = d.unpause id
