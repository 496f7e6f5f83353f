-- ===== src/Agent/Daemon/Greeting.antt =====
-- sendHello of agent/internal/daemon/daemon.go: what the agent says of itself on a new connection.
use breakerbox.Prelude.{ℕ, String, Bool, List, [], ◌∷◌, Option, none, some, if◌then◌else◌}
use breakerbox.Prelude.Int.{pos}
use breakerbox.Prelude.Dict
use breakerbox.Prelude.Dict.{Dict}
use breakerbox.Protocol.{AppDigest, AppStatus, Hello}
use breakerbox.Agent.Daemon.State.{AppState, Daemon, Env, Proc}
use breakerbox.Agent.Daemon.Apps.{is_alive}

-- The build and the host: Version, runtime.GOOS and GOARCH, os.Hostname, dockerapp.ComposeAvailable.
pub record About : Type 0 where
  pub version : String
  pub os : String
  pub arch : String
  pub hostname : String
  pub compose_available : Bool

unfoldable pub pid_of : Option Proc → ℕ
pid_of none = 0
pid_of (some p) = p.pid

unfoldable pub digest_of : Env → Option Proc → AppState → AppDigest
unfolding is_alive pid_of
digest_of e p app =
    if is_alive e p
    then record {
      status = AppStatus.running;
      definition_hash = app.hash;
      approval = app.approval;
      pid = pid_of p;
    }
    else record {
      status = AppStatus.stopped;
      definition_hash = app.hash;
      approval = app.approval;
      pid = 0;
    }

unfoldable pub digests : Env → Dict Proc → Dict AppState → Dict AppDigest
unfolding digest_of
digests e procs [] = []
digests e procs ((id, app) ∷ apps) =
    (id, digest_of e (Dict.get procs id) app) ∷ digests e procs apps

unfoldable pub capabilities_of : Bool → Bool → List String
capabilities_of docker compose =
    "tokenwatch" ∷ (if docker then "docker" ∷ (if compose then "compose" ∷ [] else []) else [])

-- sendHello
unfoldable pub hello_of : {F : Type 0} → About → Env → Daemon F → Hello
unfolding digests capabilities_of
hello_of about e d = record {
  agent_version = about.version;
  protocol_version = pos 1;
  os = about.os;
  arch = about.arch;
  hostname = about.hostname;
  capabilities = capabilities_of d.docker about.compose_available;
  apps = digests e d.procs d.apps;
}
