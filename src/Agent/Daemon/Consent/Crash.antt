-- ===== src/Agent/Daemon/Consent/Crash.antt =====
-- Crash-restarts, reconciliation and boot keep the host's consent: restart.go and Run.
use breakerbox.Prelude.{
  ℕ, String, List, [], ◌∷◌, Option, none, some, not, ◌||◌, refl, if_rule, ltb, ◌&&◌,
}
use breakerbox.Prelude.Int.{ℤ, negsuc, pos, ltb_ℤ}
use breakerbox.Prelude.Dict
use breakerbox.Prelude.Dict.{Dict}
use breakerbox.Protocol.{AppDefinition}
use breakerbox.Agent.Daemon.State.{
  AppState, reap, RestartState, Timer, Env, Daemon, Error, is_docker_kind, save,
}
use breakerbox.Agent.Daemon.Restart.{
  Policy, policy_for, state_or_new, next_count, still_wanted, handle_unexpected_exit, exit_of,
  crashed, proc_exited, is_current, timer_fired, restarted, Action, start, stop, run_actions,
  reconcile, actions,
}
use breakerbox.Agent.Daemon.Boot.{reap_one, reap_all, resurrect, boot}
use breakerbox.Agent.Daemon.Consent.{
  HostAction, Safe, AppOk, AppsOk, AppOk-same, same-Safe, one_call, one_app,
}
use breakerbox.Agent.Daemon.Consent.Start.{start_app-Secure}
use breakerbox.Agent.Daemon.Consent.Stop.{stop_app-Secure}

module _ (hash : AppDefinition → String) {F : Type 0} (history : List HostAction) where
  crashed-Secure :
      (e : Env) (d : Daemon F) (app_id : String) (code : ℤ) (rs : RestartState) (count : ℕ)
      (p : Policy)
      → Safe hash history d
      → Safe hash history (crashed e d app_id code rs count p)
  unfolding crashed
  crashed-Secure e d app_id code rs count p s =
      if_rule (Safe hash history) (ltb_ℤ p.max_restarts (pos count))
        (λ _. same-Safe hash history d _ refl refl refl s)
        (λ _. same-Safe hash history d _ refl refl refl s)

  exit_of-Secure :
      (e : Env) (d : Daemon F) (app_id : String) (code : ℤ) (at : Option ℕ) (o : Option AppState)
      → Safe hash history d
      → Safe hash history (exit_of e d app_id code at o)
  unfolding exit_of
  exit_of-Secure e d app_id code at none s = same-Safe hash history d _ refl refl refl s
  exit_of-Secure e d app_id code at (some app) s =
      if_rule (Safe hash history)
        (not (still_wanted (some app))
          || not (ltb_ℤ (pos 0) (policy_for app.definition.restart_policy).max_restarts))
        (λ _. same-Safe hash history d _ refl refl refl s)
        (λ _.
          (let rs = state_or_new (Dict.get d.restarts app_id) in
            let p = policy_for app.definition.restart_policy in
            crashed-Secure e d app_id code rs (next_count e at rs p.min_uptime) p s))

  pub handle_unexpected_exit-Secure :
      (e : Env) (d : Daemon F) (app_id : String) (code : ℤ)
      → Safe hash history d
      → Safe hash history (handle_unexpected_exit e d app_id code)
  unfolding handle_unexpected_exit
  handle_unexpected_exit-Secure e d app_id code s =
      let d1 : Daemon F = record d { start_times = Dict.remove d.start_times app_id } in
      exit_of-Secure e d1 app_id code (Dict.get d.start_times app_id) (Dict.get d.apps app_id)
        (same-Safe hash history d d1 refl refl refl s)

  pub proc_exited-Secure :
      (e : Env) (d : Daemon F) (app_id : String) (handle : ℕ) (code : ℤ)
      → Safe hash history d
      → Safe hash history (proc_exited e d app_id handle code)
  unfolding proc_exited
  proc_exited-Secure e d app_id handle code s =
      if_rule (Safe hash history) (is_current (Dict.get d.procs app_id) handle)
        (λ _.
          handle_unexpected_exit-Secure e _ app_id code
            (same-Safe hash history d _ refl refl refl s))
        (λ _. s)

  restarted-Secure :
      (e : Env) (app_id : String) (d : Daemon F) (o : Option Error)
      → Safe hash history d
      → Safe hash history (restarted e app_id d o)
  unfolding restarted
  restarted-Secure e app_id d none s = s
  restarted-Secure e app_id d (some err) s = handle_unexpected_exit-Secure e d app_id (negsuc 0) s

  pub timer_fired-Secure :
      (e : Env) (d : Daemon F) (t : Timer)
      → Safe hash history d
      → Safe hash history (timer_fired e d t)
  unfolding timer_fired
  timer_fired-Secure e d t s =
      let s1 = same-Safe hash history d _ refl refl refl s in
      if_rule (Safe hash history) (still_wanted (Dict.get d.apps t.app))
        (λ _. restarted-Secure e t.app _ _ (start_app-Secure hash history e _ t.app s1))
        (λ _. same-Safe hash history d _ refl refl refl s)

  run_actions-Secure :
      (e : Env) (todo : List Action) (d : Daemon F)
      → Safe hash history d
      → Safe hash history (run_actions e d todo)
  unfolding run_actions
  run_actions-Secure e [] d s = s
  run_actions-Secure e (start app_id ∷ rest) d s =
      run_actions-Secure e rest _ (start_app-Secure hash history e d app_id s)
  run_actions-Secure e (stop app_id ∷ rest) d s =
      run_actions-Secure e rest _ (stop_app-Secure hash history e d app_id s)

  pub reconcile-Secure :
      (e : Env) (d : Daemon F) → Safe hash history d → Safe hash history (reconcile e d)
  unfolding reconcile
  reconcile-Secure e d s = run_actions-Secure e (actions e d d.apps) d s

  resurrect-Secure :
      (e : Env) (apps : Dict AppState) (d : Daemon F)
      → Safe hash history d
      → Safe hash history (resurrect e d apps)
  unfolding resurrect
  resurrect-Secure e [] d s = s
  resurrect-Secure e ((app_id, app) ∷ rest) d s = resurrect-Secure e rest _ (
      if_rule (Safe hash history) (still_wanted (some app))
        (λ _. start_app-Secure hash history e d app_id s) (λ _. s))

  reap_one-Secure :
      (d : Daemon F) (app_id : String) (app : AppState)
      → AppOk hash history app_id app
      → Safe hash history d
      → Safe hash history (reap_one d app_id app)
  unfolding reap_one
  reap_one-Secure d app_id app ok s =
      let app' : AppState = record app { last_pid = 0; last_cmd_base = "" } in
      let d1 : Daemon F = record d { apps = Dict.put d.apps app_id app' } in
      let s1 =
        one_app hash history d d1 app_id app'
          (AppOk-same hash history app_id app app' refl refl refl ok) refl refl refl s in
      if_rule (Safe hash history) (ltb 0 app.last_pid && not (is_docker_kind app.definition.kind))
        (λ _.
          one_call hash history d1 _ (reap app_id app.last_pid app.definition.cmd) tt refl refl refl
            s1)
        (λ _. s)

  reap_all-Secure :
      (apps : Dict AppState) (d : Daemon F)
      → AppsOk hash history apps
      → Safe hash history d
      → Safe hash history (reap_all d apps)
  unfolding reap_all
  reap_all-Secure [] d ok s = s
  reap_all-Secure ((app_id, app) ∷ rest) d ok s =
      reap_all-Secure rest _ ok.1 (reap_one-Secure d app_id app ok.0 s)

  pub boot-Secure : (e : Env) (d : Daemon F) → Safe hash history d → Safe hash history (boot e d)
  unfolding boot
  boot-Secure e d s =
      let d1 : Daemon F = save e (reap_all d d.apps) in
      resurrect-Secure e d1.apps d1 (
        same-Safe hash history (reap_all d d.apps) d1 refl refl refl
          (reap_all-Secure d.apps d s.apps_ok s))
