-- ===== src/Agent/Daemon/Poll.antt =====
-- docker.go, pollDockerApps: status changes that the Docker engine caused.
use breakerbox.Prelude.{ℕ, String, Bool, false, [], ◌∷◌, Option, none, some, ltb, if◌then◌else◌}
use breakerbox.Prelude.Int.{ℤ}
use breakerbox.Prelude.Dict
use breakerbox.Prelude.Dict.{Dict}
use breakerbox.Protocol.{AppDefinition, AppKind, AppStatus, status_eq}
use breakerbox.Agent.Daemon.State.{AppState, ContainerState, Env, Daemon, is_docker_kind}
use breakerbox.Agent.Daemon.Apps.{send_event}

-- status, pid and exit code of one target
pub record Observed : Type 0 where
  pub status : AppStatus
  pub pid : ℕ
  pub exit_code : Option ℤ

observe_container : Option ContainerState → Observed
observe_container none = record { status = AppStatus.errored; pid = 0; exit_code = none }
observe_container (some cs) =
    if cs.running
    then record { status = AppStatus.running; pid = cs.pid; exit_code = none }
    else record { status = AppStatus.stopped; pid = 0; exit_code = some cs.exit_code }

observe_project : Option ℕ → Observed
observe_project none = record { status = AppStatus.errored; pid = 0; exit_code = none }
observe_project (some running) = record {
  status = if ltb 0 running then AppStatus.running else AppStatus.stopped;
  pid = 0;
  exit_code = none;
}

unfoldable pub observe : Env → AppDefinition → AppKind → Observed
unfolding observe_container observe_project
observe e def AppKind.docker = observe_container (e.inspect def.container_id)
observe e def AppKind.compose = observe_project (e.compose_running def.compose_project)
observe e def _ = record { status = AppStatus.unknown; pid = 0; exit_code = none }

-- `known && prev == status`
unfoldable pub unchanged : Option AppStatus → AppStatus → Bool
unfolding status_eq
unchanged none status = false
unchanged (some prev) status = status_eq prev status

module _ {F : Type 0} where
  unfoldable pub note_status : Env → Daemon F → String → Observed → Daemon F
  unfolding send_event unchanged
  note_status e d app_id o =
      let d1 : Daemon F = record d { docker_status = Dict.put d.docker_status app_id o.status } in
      if unchanged (Dict.get d.docker_status app_id) o.status
      then d1
      else send_event e d1 app_id o.status o.pid o.exit_code

  unfoldable pub poll : Env → Daemon F → Dict AppState → Daemon F
  unfolding note_status observe is_docker_kind
  poll e d [] = d
  poll e d ((app_id, app) ∷ rest) =
      let d1 =
        if is_docker_kind app.definition.kind
        then note_status e d app_id (observe e app.definition app.definition.kind)
        else d in
      poll e d1 rest

  unfoldable pub poll_docker_apps : Env → Daemon F → Daemon F
  unfolding poll
  poll_docker_apps e d = poll e d d.apps
