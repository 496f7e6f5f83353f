-- ===== src/Agent/Daemon/Boot.antt =====
-- daemon.go, the first part of Run: leftovers of an earlier agent are reaped, and the apps that
-- should run are started.
use breakerbox.Prelude.{String, [], ◌∷◌, some, ◌&&◌, not, ltb, if◌then◌else◌}
use breakerbox.Prelude.Dict
use breakerbox.Prelude.Dict.{Dict}
use breakerbox.Agent.Daemon.State.{AppState, reap, Env, Daemon, is_docker_kind, save, call}
use breakerbox.Agent.Daemon.Apps.{start_app}
use breakerbox.Agent.Daemon.Restart.{still_wanted}

module _ {F : Type 0} where
  unfoldable pub reap_one : Daemon F → String → AppState → Daemon F
  unfolding call is_docker_kind
  reap_one d app_id app =
      if ltb 0 app.last_pid && not (is_docker_kind app.definition.kind)
      then record d {
        calls = reap app_id app.last_pid app.definition.cmd ∷ d.calls;
        apps = Dict.put d.apps app_id (record app { last_pid = 0; last_cmd_base = "" });
      }
      else d

  unfoldable pub reap_all : Daemon F → Dict AppState → Daemon F
  unfolding reap_one
  reap_all d [] = d
  reap_all d ((app_id, app) ∷ rest) = reap_all (reap_one d app_id app) rest

  unfoldable pub resurrect : Env → Daemon F → Dict AppState → Daemon F
  unfolding start_app still_wanted
  resurrect e d [] = d
  resurrect e d ((app_id, app) ∷ rest) =
      let d1 = if still_wanted (some app) then (start_app e d app_id).0 else d in
      resurrect e d1 rest

  unfoldable pub boot : Env → Daemon F → Daemon F
  unfolding reap_all resurrect save
  boot e d = let d1 = save e (reap_all d d.apps) in resurrect e d1 d1.apps
