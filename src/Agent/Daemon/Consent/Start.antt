-- ===== src/Agent/Daemon/Consent/Start.antt =====
-- Starting an app keeps the host's consent: apps.go.
use breakerbox.Prelude.{ℕ, String, List, Option, none, some, not, ◌≡◌, refl, arith, if_rule}
use breakerbox.Prelude.Dict
use breakerbox.Protocol.{AppDefinition, AppKind, is_approved}
use breakerbox.Agent.Daemon.State.{
  AppState, spawn, engine_start, compose_start, Env, Daemon, is_docker_kind,
}
use breakerbox.Agent.Daemon.Apps.{
  Outcome, start_app, start_process, start_docker_app, started, remember_pid, spawned, start_known,
  is_alive,
}
use breakerbox.Agent.Daemon.Consent.{
  HostAction, Consent, Safe, AppOk-same, same-Safe, one_call, one_app, known_app,
}

module _ (hash : AppDefinition → String) {F : Type 0} (history : List HostAction) where
  abbrev SafeOutcome : Outcome F → Type 0
  SafeOutcome o = Safe hash history o.0

  start_docker_app-Secure :
      (e : Env) (d : Daemon F) (app_id : String) (def : AppDefinition) (k : AppKind)
      → Safe hash history d
      → Safe hash history (start_docker_app e d app_id def k).0
  unfolding start_docker_app
  start_docker_app-Secure e d app_id def AppKind.docker s =
      let asked = engine_start app_id def.container_id in
      if_rule SafeOutcome d.docker
        (λ _.
          if_rule SafeOutcome (e.engine_start_ok def.container_id)
            (λ _. one_call hash history d _ asked tt refl refl refl s)
            (λ _. one_call hash history d _ asked tt refl refl refl s))
        (λ _. s)
  start_docker_app-Secure e d app_id def AppKind.compose s =
      let asked = compose_start app_id def.compose_project in
      if_rule SafeOutcome d.docker
        (λ _.
          if_rule SafeOutcome (e.compose_start_ok def.compose_project)
            (λ _. one_call hash history d _ asked tt refl refl refl s)
            (λ _. one_call hash history d _ asked tt refl refl refl s))
        (λ _. s)
  start_docker_app-Secure e d app_id def _ s = if_rule SafeOutcome d.docker (λ _. s) (λ _. s)

  remember_pid-Secure :
      (e : Env) (d : Daemon F) (app_id : String) (pid : ℕ) (cmd : String) (o : Option AppState)
      → Dict.get d.apps app_id ≡ o
      → Safe hash history d
      → Safe hash history (remember_pid e d app_id pid cmd o)
  unfolding remember_pid
  remember_pid-Secure e d app_id pid cmd none q s = s
  remember_pid-Secure e d app_id pid cmd (some a) q s =
      one_app hash history d _ app_id (record a { last_pid = pid; last_cmd_base = cmd })
        (AppOk-same hash history app_id a _ refl refl refl (known_app hash history d app_id a q s))
        refl refl refl s

  started-Secure :
      (e : Env) (d : Daemon F) (app_id : String) (app : AppState) (pid : ℕ)
      → Safe hash history d
      → Safe hash history (started e d app_id app pid)
  unfolding started
  started-Secure e d app_id app pid s = same-Safe hash history _ _ refl refl refl (
      remember_pid-Secure e _ app_id pid app.definition.cmd (Dict.get d.apps app_id) refl
        (same-Safe hash history d _ refl refl refl s))

  spawned-Secure :
      (e : Env) (d : Daemon F) (app_id : String) (app : AppState) (o : Option ℕ)
      → Safe hash history d
      → Safe hash history (spawned e d app_id app o).0
  unfolding spawned
  spawned-Secure e d app_id app none s = same-Safe hash history d _ refl refl refl s
  spawned-Secure e d app_id app (some pid) s = started-Secure e d app_id app pid s

  start_process-Secure :
      (e : Env) (d : Daemon F) (app_id : String) (app : AppState)
      → Consent hash history app_id app.definition
      → Safe hash history d
      → Safe hash history (start_process e d app_id app).0
  unfolding start_process
  start_process-Secure e d app_id app ok s =
      if_rule SafeOutcome e.log_ok
        (λ _.
          spawned-Secure e _ app_id app _
            (one_call hash history d _ (spawn app_id app.definition _) ok refl refl refl s))
        (λ _. s)

  start_known-Secure :
      (e : Env) (d : Daemon F) (app_id : String) (o : Option AppState)
      → Dict.get d.apps app_id ≡ o
      → Safe hash history d
      → Safe hash history (start_known e d app_id o).0
  unfolding start_known
  start_known-Secure e d app_id none q s = s
  start_known-Secure e d app_id (some app) q s =
      if_rule SafeOutcome (is_alive e (Dict.get d.procs app_id)) (λ _. s)
        (λ _.
          if_rule SafeOutcome (not (is_approved app.approval)) (λ _. s)
            (λ agreed.
              if_rule SafeOutcome (is_docker_kind app.definition.kind)
                (λ _. start_docker_app-Secure e d app_id app.definition app.definition.kind s)
                (λ native.
                  start_process-Secure e d app_id app
                    ((known_app hash history d app_id app q s).consented (ground arith) native) s)))

  pub start_app-Secure :
      (e : Env) (d : Daemon F) (app_id : String)
      → Safe hash history d
      → Safe hash history (start_app e d app_id).0
  unfolding start_app
  start_app-Secure e d app_id s = start_known-Secure e d app_id (Dict.get d.apps app_id) refl s
