-- ===== src/Agent/Daemon/Consent/Commands.antt =====
-- Hub commands keep the host's consent: execute of daemon.go.
use breakerbox.Prelude.{String, not, List, Option, none, some, ◌≡◌, refl, str_eq, if_rule}
use breakerbox.Prelude.Dict
use breakerbox.Prelude.Dict.{AllEntries-put, AllEntries-map}
use breakerbox.Protocol.{AppDefinition, Cmd, Verb, DesiredState, is_approved, desired_eq}
use breakerbox.Agent.Daemon.State.{AppState, Env, Daemon, Error}
use breakerbox.Agent.Daemon.Sync.{
  persist_known, persist_desired, restart_after, answer, run_verb, execute_on, execute,
}
use breakerbox.Agent.Daemon.Consent.{HostAction, Safe, AppOk-same, same-Safe, one_app, known_app}
use breakerbox.Agent.Daemon.Consent.Start.{start_app-Secure}
use breakerbox.Agent.Daemon.Consent.Stop.{stop_app-Secure}

module _ (hash : AppDefinition → String) {F : Type 0} (history : List HostAction) where
  persist_known-Secure :
      (e : Env) (d : Daemon F) (app_id : String) (ds : DesiredState) (o : Option AppState)
      → Dict.get d.apps app_id ≡ o
      → Safe hash history d
      → Safe hash history (persist_known e d app_id ds o)
  unfolding persist_known
  persist_known-Secure e d app_id ds none q s = s
  persist_known-Secure e d app_id ds (some a) q s =
      let a' : AppState = record a { desired_state = ds } in
      if_rule (Safe hash history) (desired_eq a.desired_state ds) (λ _. s)
        (λ _.
          one_app hash history d _ app_id a'
            (AppOk-same hash history app_id a a' refl refl refl
              (known_app hash history d app_id a q s))
            refl refl refl s)

  persist_desired-Secure :
      (e : Env) (d : Daemon F) (app_id : String) (ds : DesiredState)
      → Safe hash history d
      → Safe hash history (persist_desired e d app_id ds)
  unfolding persist_desired
  persist_desired-Secure e d app_id ds s =
      persist_known-Secure e d app_id ds (Dict.get d.apps app_id) refl s

  answer-Secure :
      (cmd_id : String) (d : Daemon F) (o : Option Error)
      → Safe hash history d
      → Safe hash history (answer cmd_id d o)
  unfolding answer
  answer-Secure cmd_id d none s = same-Safe hash history d _ refl refl refl s
  answer-Secure cmd_id d (some err) s = same-Safe hash history d _ refl refl refl s

  restart_after-Secure :
      (e : Env) (app_id : String) (d : Daemon F) (o : Option Error)
      → Safe hash history d
      → Safe hash history (restart_after e app_id d o).0
  unfolding restart_after
  restart_after-Secure e app_id d none s = start_app-Secure hash history e d app_id s
  restart_after-Secure e app_id d (some err) s = s

  run_verb-Secure :
      (e : Env) (d : Daemon F) (c : Cmd) (v : Verb)
      → Safe hash history d
      → Safe hash history (run_verb e d c v)
  unfolding run_verb
  run_verb-Secure e d c Verb.start s = answer-Secure c.cmd_id _ _ (
      start_app-Secure hash history e _ c.app_id
        (persist_desired-Secure e d c.app_id DesiredState.running s))
  run_verb-Secure e d c Verb.stop s = answer-Secure c.cmd_id _ _ (
      stop_app-Secure hash history e _ c.app_id
        (persist_desired-Secure e d c.app_id DesiredState.stopped s))
  run_verb-Secure e d c Verb.restart s = answer-Secure c.cmd_id _ _ (
      restart_after-Secure e c.app_id _ _ (
        stop_app-Secure hash history e _ c.app_id
          (persist_desired-Secure e d c.app_id DesiredState.running s)))
  run_verb-Secure e d c (Verb.other v) s = same-Safe hash history d _ refl refl refl s

  execute_on-Secure :
      (e : Env) (d : Daemon F) (c : Cmd) (o : Option AppState)
      → Safe hash history d
      → Safe hash history (execute_on e d c o)
  unfolding execute_on
  execute_on-Secure e d c none s = same-Safe hash history d _ refl refl refl s
  execute_on-Secure e d c (some app) s =
      if_rule (Safe hash history) (not (str_eq app.hash c.definition_hash))
        (λ _. same-Safe hash history d _ refl refl refl s)
        (λ _.
          if_rule (Safe hash history) (not (is_approved app.approval))
            (λ _. same-Safe hash history d _ refl refl refl s)
            (λ _. run_verb-Secure e d c c.verb s))

  pub execute-Secure :
      (e : Env) (d : Daemon F) (c : Cmd) → Safe hash history d → Safe hash history (execute e d c)
  unfolding execute
  execute-Secure e d c s = execute_on-Secure e _ c _ (same-Safe hash history d _ refl refl refl s)
