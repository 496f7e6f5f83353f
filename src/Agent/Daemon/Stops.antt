-- ===== src/Agent/Daemon/Stops.antt =====
-- Stopping an app: stopApp of apps.go, stopDockerApp of docker.go, cancelRestart of restart.go.
use breakerbox.Prelude.{String, Bool, true, false, Option, none, some, ◌==◌, if◌then◌else◌}
use breakerbox.Prelude.Int.{ℤ, pos, ltb_ℤ}
use breakerbox.Prelude.Dict
use breakerbox.Prelude.Dict.{Dict}
use breakerbox.Protocol.{AppDefinition, AppKind, AppStatus, StopSpec}
use breakerbox.Agent.Daemon.State.{
  AppState, Proc, RestartState, stop_proc, engine_stop, compose_stop, Env, Daemon,
  docker_unavailable, engine_failed, stop_failed, is_docker_kind, save, call, stop_timer,
}
use breakerbox.Agent.Daemon.Apps.{Outcome, send_event, set_docker_status}

-- docker.go, stopTimeoutS
unfoldable pub stop_timeout_s : Option StopSpec → ℤ
stop_timeout_s none = pos 10
stop_timeout_s (some s) = if ltb_ℤ (pos 0) s.timeout_s then s.timeout_s else pos 10

module _ {F : Type 0} where
  -- the end of stopDockerApp
  unfoldable pub docker_stopped : Env → Daemon F → String → Bool → Outcome F
  unfolding send_event set_docker_status
  docker_stopped e d app_id true = (
    send_event e (set_docker_status d app_id AppStatus.stopped) app_id AppStatus.stopped 0 none,
    none,
  )
  docker_stopped e d app_id false =
      (send_event e d app_id AppStatus.errored 0 none, some engine_failed)

  -- stopDockerApp
  unfoldable pub stop_docker_app : Env → Daemon F → String → AppDefinition → AppKind → Outcome F
  unfolding docker_stopped call stop_timeout_s
  stop_docker_app e d app_id def AppKind.docker =
      if d.docker
      then docker_stopped e (call d (engine_stop app_id def.container_id (stop_timeout_s def.stop)))
          app_id (e.engine_stop_ok def.container_id)
      else (d, some docker_unavailable)
  stop_docker_app e d app_id def AppKind.compose =
      if d.docker
      then docker_stopped e (call d (compose_stop app_id def.compose_project)) app_id
          (e.compose_stop_ok def.compose_project)
      else (d, some docker_unavailable)
  stop_docker_app e d app_id def _ =
      if d.docker then docker_stopped e d app_id true else (d, some docker_unavailable)

  -- restart.go, cancelRestart
  unfoldable pub cancel_known : Daemon F → String → Option RestartState → Daemon F
  unfolding stop_timer
  cancel_known d app_id none = d
  cancel_known d app_id (some rs) = record d {
    restarts = Dict.remove d.restarts app_id;
    timers = stop_timer rs.timer d.timers;
  }

  unfoldable pub cancel_restart : Daemon F → String → Daemon F
  unfolding cancel_known
  cancel_restart d app_id = cancel_known d app_id (Dict.get d.restarts app_id)

  -- the forgetting of the process id after a stop
  unfoldable pub forget_pid : Env → Daemon F → String → Option AppState → Daemon F
  unfolding save
  forget_pid e d app_id none = d
  forget_pid e d app_id (some a) =
      if a.last_pid == 0
      then d
      else save e (record d {
        apps = Dict.put d.apps app_id (record a { last_pid = 0; last_cmd_base = "" });
      })

  unfoldable pub stop_process : Env → Daemon F → String → Option Proc → Outcome F
  unfolding forget_pid send_event call
  stop_process e d app_id none = (d, none)
  stop_process e d app_id (some p) =
      let d1 = call d (stop_proc app_id p.handle) in
      if e.stop_ok p.handle
      then (
        send_event e (forget_pid e d1 app_id (Dict.get d1.apps app_id)) app_id AppStatus.stopped 0
            none,
        none,
      )
      else (send_event e d1 app_id AppStatus.errored 0 none, some stop_failed)

  unfoldable pub stop_known : Env → Daemon F → String → Option AppState → Option Proc → Outcome F
  unfolding stop_process stop_docker_app is_docker_kind
  stop_known e d app_id none p = stop_process e d app_id p
  stop_known e d app_id (some app) p =
      if is_docker_kind app.definition.kind
      then stop_docker_app e d app_id app.definition app.definition.kind
      else stop_process e d app_id p

  -- stopApp: a pending crash-restart is cancelled first.
  unfoldable pub stop_app : Env → Daemon F → String → Outcome F
  unfolding stop_known cancel_restart
  stop_app e d app_id =
      let d1 = cancel_restart d app_id in
      stop_known e
        (record d1 {
          procs = Dict.remove d1.procs app_id;
          start_times = Dict.remove d1.start_times app_id;
        })
        app_id (Dict.get d1.apps app_id) (Dict.get d1.procs app_id)
