-- ===== src/Agent/Daemon/Consent/Stop.antt =====
-- Stopping an app keeps the host's consent: apps.go and docker.go.
use breakerbox.Prelude.{
  String, Bool, List, Option, none, some, ◌≡◌, refl, ◌==◌, if_rule, true, false,
}
use breakerbox.Prelude.Dict
use breakerbox.Protocol.{AppDefinition, AppKind}
use breakerbox.Agent.Daemon.State.{
  AppState, Proc, RestartState, stop_proc, engine_stop, compose_stop, Env, Daemon, is_docker_kind,
}
use breakerbox.Agent.Daemon.Apps.{Outcome}
use breakerbox.Agent.Daemon.Stops.{
  stop_app, stop_docker_app, docker_stopped, cancel_restart, cancel_known, forget_pid, stop_process,
  stop_known,
}
use breakerbox.Agent.Daemon.Consent.{
  HostAction, Safe, AppOk-same, same-Safe, one_call, one_app, known_app,
}

module _ (hash : AppDefinition → String) {F : Type 0} (history : List HostAction) where
  abbrev SafeOutcome : Outcome F → Type 0
  SafeOutcome o = Safe hash history o.0

  cancel_known-Secure :
      (d : Daemon F) (app_id : String) (o : Option RestartState)
      → Safe hash history d
      → Safe hash history (cancel_known d app_id o)
  unfolding cancel_known
  cancel_known-Secure d app_id none s = s
  cancel_known-Secure d app_id (some rs) s = same-Safe hash history d _ refl refl refl s

  pub cancel_restart-Secure :
      (d : Daemon F) (app_id : String)
      → Safe hash history d
      → Safe hash history (cancel_restart d app_id)
  unfolding cancel_restart
  cancel_restart-Secure d app_id s = cancel_known-Secure d app_id (Dict.get d.restarts app_id) s

  docker_stopped-Secure :
      (e : Env) (d : Daemon F) (app_id : String) (done : Bool)
      → Safe hash history d
      → Safe hash history (docker_stopped e d app_id done).0
  unfolding docker_stopped
  docker_stopped-Secure e d app_id true s = same-Safe hash history d _ refl refl refl s
  docker_stopped-Secure e d app_id false s = same-Safe hash history d _ refl refl refl s

  stop_docker_app-Secure :
      (e : Env) (d : Daemon F) (app_id : String) (def : AppDefinition) (k : AppKind)
      → Safe hash history d
      → Safe hash history (stop_docker_app e d app_id def k).0
  unfolding stop_docker_app
  stop_docker_app-Secure e d app_id def AppKind.docker s =
      if_rule SafeOutcome d.docker
        (λ _.
          docker_stopped-Secure e _ app_id _
            (one_call hash history d _ (engine_stop _ _ _) tt refl refl refl s))
        (λ _. s)
  stop_docker_app-Secure e d app_id def AppKind.compose s =
      if_rule SafeOutcome d.docker
        (λ _.
          docker_stopped-Secure e _ app_id _
            (one_call hash history d _ (compose_stop _ _) tt refl refl refl s))
        (λ _. s)
  stop_docker_app-Secure e d app_id def _ s =
      if_rule SafeOutcome d.docker (λ _. docker_stopped-Secure e d app_id true s) (λ _. s)

  forget_pid-Secure :
      (e : Env) (d : Daemon F) (app_id : String) (o : Option AppState)
      → Dict.get d.apps app_id ≡ o
      → Safe hash history d
      → Safe hash history (forget_pid e d app_id o)
  unfolding forget_pid
  forget_pid-Secure e d app_id none q s = s
  forget_pid-Secure e d app_id (some a) q s =
      if_rule (Safe hash history) (a.last_pid == 0) (λ _. s)
        (λ _.
          one_app hash history d _ app_id (record a { last_pid = 0; last_cmd_base = "" })
            (AppOk-same hash history app_id a _ refl refl refl
              (known_app hash history d app_id a q s))
            refl refl refl s)

  stop_process-Secure :
      (e : Env) (d : Daemon F) (app_id : String) (o : Option Proc)
      → Safe hash history d
      → Safe hash history (stop_process e d app_id o).0
  unfolding stop_process
  stop_process-Secure e d app_id none s = s
  stop_process-Secure e d app_id (some p) s =
      let s1 = one_call hash history d _ (stop_proc app_id p.handle) tt refl refl refl s in
      if_rule SafeOutcome (e.stop_ok p.handle)
        (λ _.
          same-Safe hash history _ _ refl refl refl
            (forget_pid-Secure e _ app_id (Dict.get d.apps app_id) refl s1))
        (λ _. same-Safe hash history _ _ refl refl refl s1)

  stop_known-Secure :
      (e : Env) (d : Daemon F) (app_id : String) (o : Option AppState) (p : Option Proc)
      → Safe hash history d
      → Safe hash history (stop_known e d app_id o p).0
  unfolding stop_known
  stop_known-Secure e d app_id none p s = stop_process-Secure e d app_id p s
  stop_known-Secure e d app_id (some app) p s =
      if_rule SafeOutcome (is_docker_kind app.definition.kind)
        (λ _. stop_docker_app-Secure e d app_id app.definition app.definition.kind s)
        (λ _. stop_process-Secure e d app_id p s)

  pub stop_app-Secure :
      (e : Env) (d : Daemon F) (app_id : String)
      → Safe hash history d
      → Safe hash history (stop_app e d app_id).0
  unfolding stop_app
  stop_app-Secure e d app_id s =
      stop_known-Secure e _ app_id _ _
        (same-Safe hash history _ _ refl refl refl (cancel_restart-Secure d app_id s))
