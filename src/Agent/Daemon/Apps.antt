-- ===== src/Agent/Daemon/Apps.antt =====
-- Starting an app: startApp of apps.go, startDockerApp of docker.go. A function that fails returns the
-- error beside the state, since what was done before the failure stays done.
use breakerbox.Prelude.{
  ℕ, suc, String, Bool, false, List, [], ◌∷◌, Option, none, some, ◌==◌, not, if◌then◌else◌, str_eq,
}
use breakerbox.Prelude.Int.{ℤ}
use breakerbox.Prelude.Dict
use breakerbox.Prelude.Dict.{Dict}
use breakerbox.Protocol.{AppDefinition, AppKind, AppStatus, Port, is_approved}
use breakerbox.Agent.Daemon.State.{
  AppState, Proc, EnvVar, spawn, engine_start, compose_start, app_event, ContainerState, Env,
  Daemon, Error, unknown_app, not_approved, docker_unavailable, log_failed, spawn_failed,
  engine_failed, is_docker_kind, send, save, call,
}

-- tokenproxy/proxy.go, Proxy.EnvFor
unfoldable pub env_for : ℕ → String → List EnvVar
env_for port app_id =
    record { var = "ANTHROPIC_BASE_URL"; port = port; app = app_id; suffix = "/anthropic" }
    ∷ record { var = "OPENAI_BASE_URL"; port = port; app = app_id; suffix = "/openai/v1" }
    ∷ []

unfoldable pub extra_env : String → AppState → Option ℕ → List EnvVar
unfolding env_for
extra_env app_id app none = []
extra_env app_id app (some port) =
    if str_eq app.token_tracking "runtime" then env_for port app_id else []

-- supervisor.go, StartProc: an empty command never reaches exec.
unfoldable pub start_proc : Env → AppDefinition → List EnvVar → Option ℕ
start_proc e def env = if str_eq def.cmd "" then none else e.exec def env

-- `running && p.Alive()`
unfoldable pub is_alive : Env → Option Proc → Bool
is_alive e none = false
is_alive e (some p) = e.alive p.handle

event_ports : Env → AppStatus → ℕ → List Port
event_ports e AppStatus.running pid = if pid == 0 then [] else e.ports pid
event_ports e _ pid = []

inspected_pid : Option ContainerState → ℕ
inspected_pid none = 0
inspected_pid (some cs) = cs.pid

abbrev pub Outcome : Type 0 → Type 0
Outcome F = Daemon F × Option Error

module _ {F : Type 0} where
  -- sendEvent and sendEventWithRestarts: a running app's event has its listen ports.
  unfoldable pub send_event_with_restarts :
      Env → Daemon F → String → AppStatus → ℕ → Option ℤ → ℕ → Daemon F
  unfolding send
  send_event_with_restarts e d app_id status pid exit_code restarts = send d (
      app_event (record {
        app_id = app_id;
        status = status;
        pid = pid;
        exit_code = exit_code;
        restart_count = restarts;
        ports = [];
      }))

  unfoldable pub send_event : Env → Daemon F → String → AppStatus → ℕ → Option ℤ → Daemon F
  unfolding send event_ports
  send_event e d app_id status pid exit_code = send d (
      app_event (record {
        app_id = app_id;
        status = status;
        pid = pid;
        exit_code = exit_code;
        restart_count = 0;
        ports = event_ports e status pid;
      }))

  -- setDockerStatus
  unfoldable pub set_docker_status : Daemon F → String → AppStatus → Daemon F
  set_docker_status d app_id s = record d { docker_status = Dict.put d.docker_status app_id s }

  -- startDockerApp. A kind that is neither case of the switch does nothing.
  unfoldable pub start_docker_app : Env → Daemon F → String → AppDefinition → AppKind → Outcome F
  unfolding send_event set_docker_status call inspected_pid
  start_docker_app e d app_id def AppKind.docker =
      if d.docker
      then (let d1 = call d (engine_start app_id def.container_id) in
          if e.engine_start_ok def.container_id
          then (
            send_event e (set_docker_status d1 app_id AppStatus.running) app_id AppStatus.running
                (inspected_pid (e.inspect def.container_id)) none,
            none,
          )
          else (send_event e d1 app_id AppStatus.errored 0 none, some engine_failed))
      else (d, some docker_unavailable)
  start_docker_app e d app_id def AppKind.compose =
      if d.docker
      then (let d1 = call d (compose_start app_id def.compose_project) in
          if e.compose_start_ok def.compose_project
          then (
            send_event e (set_docker_status d1 app_id AppStatus.running) app_id AppStatus.running 0
                none,
            none,
          )
          else (send_event e d1 app_id AppStatus.errored 0 none, some engine_failed))
      else (d, some docker_unavailable)
  start_docker_app e d app_id def _ = if d.docker then (d, none) else (d, some docker_unavailable)

  -- `a.LastPID, a.LastCmdBase = …` for an app that is still known, and the save
  unfoldable pub remember_pid : Env → Daemon F → String → ℕ → String → Option AppState → Daemon F
  unfolding save
  remember_pid e d app_id pid cmd none = d
  remember_pid e d app_id pid cmd (some a) = save e (record d {
    apps = Dict.put d.apps app_id (record a { last_pid = pid; last_cmd_base = cmd });
  })

  -- the part of startApp after StartProc returned a process
  unfoldable pub started : Env → Daemon F → String → AppState → ℕ → Daemon F
  unfolding remember_pid send_event
  started e d app_id app pid =
      let d1 : Daemon F = record d {
        procs = Dict.put d.procs app_id (record { handle = d.next_handle; pid = pid });
        start_times = Dict.put d.start_times app_id e.now;
        next_handle = suc d.next_handle;
      } in
      send_event e (remember_pid e d1 app_id pid app.definition.cmd (Dict.get d1.apps app_id))
        app_id AppStatus.running pid none

  unfoldable pub spawned : Env → Daemon F → String → AppState → Option ℕ → Outcome F
  unfolding started send_event
  spawned e d app_id app none = (send_event e d app_id AppStatus.errored 0 none, some spawn_failed)
  spawned e d app_id app (some pid) = (started e d app_id app pid, none)

  -- startApp from openLog on
  unfoldable pub start_process : Env → Daemon F → String → AppState → Outcome F
  unfolding extra_env start_proc spawned send_event call
  start_process e d app_id app =
      let env = extra_env app_id app d.proxy in
      if e.log_ok
      then spawned e
          (call (send_event e d app_id AppStatus.starting 0 none) (spawn app_id app.definition env))
          app_id app (start_proc e app.definition env)
      else (d, some log_failed)

  unfoldable pub start_known : Env → Daemon F → String → Option AppState → Outcome F
  unfolding is_alive start_docker_app start_process is_approved is_docker_kind
  start_known e d app_id none = (d, some unknown_app)
  start_known e d app_id (some app) =
      if is_alive e (Dict.get d.procs app_id)
      then (d, none)
      else if not (is_approved app.approval)
      then (d, some not_approved)
      else if is_docker_kind app.definition.kind
      then start_docker_app e d app_id app.definition app.definition.kind
      else start_process e d app_id app

  -- startApp
  unfoldable pub start_app : Env → Daemon F → String → Outcome F
  unfolding start_known
  start_app e d app_id = start_known e d app_id (Dict.get d.apps app_id)
