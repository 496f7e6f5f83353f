-- ===== src/Agent/Daemon/Crashes/Starts.antt =====
-- restart.go: a timer that fires starts the process of the app.
use breakerbox.Prelude.{
  ℕ, suc, String, Bool, true, false, List, Option, none, some, ◌≡◌, refl, arith, if◌then◌else◌, ◌∙◌,
  sym, ap, subst, str_eq, eq_iff,
}
use breakerbox.Prelude.Dict
use breakerbox.Prelude.Dict.{get-put_self}
use breakerbox.Protocol.{AppDefinition, AppStatus, is_approved}
use breakerbox.Agent.Daemon.State.{
  AppState, Daemon, Env, EnvVar, Error, log_failed, call, is_docker_kind, save, send, spawn,
  without,
}
use breakerbox.Agent.Daemon.Apps.{
  extra_env, is_alive, remember_pid, send_event, spawned, start_app, start_known, start_proc,
  start_process, started,
}
use breakerbox.Agent.Daemon.Restart.{restarted, still_wanted, timer_fired}
use breakerbox.Agent.Daemon.Crashes.Rounds.{
  CanStart, Idle, IsArmed, IsRunning, crash_count, fire_pending, pending_of, spawns,
}

module _ {F : Type 0} (app_id : String) (def : AppDefinition)
    (process : is_docker_kind def.kind ≡ false) (command : str_eq def.cmd "" ≡ false) where
  starts_process :
      (e : Env) (d : Daemon F) (app : AppState)
      → app.definition ≡ def
      → still_wanted (some app) ≡ true
      → Dict.get d.procs app_id ≡ none
      → start_known e d app_id (some app) ≡ start_process e d app_id app
  unfolding start_known is_alive still_wanted
  starts_process e d app same wanted no_proc =
      let not_docker = ap (λ (a : AppDefinition). is_docker_kind a.kind) same ∙ process in
      let approved : is_approved app.approval ≡ true = ground (arith, wanted) in
      rw no_proc (rw (approved, not_docker) refl)

  process_starts :
      (e : Env) (d : Daemon F) (app : AppState)
      → app.definition ≡ def
      → CanStart def e
      → (env : List EnvVar) × (pid : ℕ) × (start_process e d app_id app ≡ (
        started e
            (call
              (send_event e d app_id AppStatus.starting 0 none)
              (spawn app_id app.definition env))
            app_id
            app
            pid,
        none,
      ))
  unfolding start_process start_proc spawned
  process_starts e d app same can =
      let env = extra_env app_id app d.proxy in
      let (pid, ran) =
        subst (λ (a : AppDefinition). (pid : ℕ) × (e.exec a env ≡ some pid)) (sym same)
          (can.1 env) in
      let has_command = ap (λ (a : AppDefinition). str_eq a.cmd "") same ∙ command in
      let made : start_proc e app.definition env ≡ some pid = rw has_command ran in
      let next =
        call (send_event e d app_id AppStatus.starting 0 none) (spawn app_id app.definition env) in
      (
        env,
        pid,
        ap
              (λ b.
                if b
                then spawned e next app_id app (start_proc e app.definition env)
                else (d, some log_failed))
              can.0
            ∙ ap (spawned e next app_id app) made,
      )

  -- startApp of an approved app without a process, on such a host
  start_lem :
      (e : Env) (d : Daemon F) (app : AppState)
      → Dict.get d.apps app_id ≡ some app
      → app.definition ≡ def
      → still_wanted (some app) ≡ true
      → Dict.get d.procs app_id ≡ none
      → start_app e d app_id ≡ start_process e d app_id app
  unfolding start_app
  start_lem e d app known same wanted no_proc =
      ap (start_known e d app_id) known ∙ starts_process e d app same wanted no_proc

  started-IsRunning :
      (e : Env) (d : Daemon F) (app : AppState) (env : List EnvVar) (pid count : ℕ)
      → Idle app_id def d count
      → Dict.get d.apps app_id ≡ some app
      → app.definition ≡ def
      → still_wanted (some app) ≡ true
      → let r =
          started e
            (call
              (send_event e d app_id AppStatus.starting 0 none)
              (spawn app_id app.definition env))
            app_id
            app
            pid in
        IsRunning app_id def r count e.now × (spawns app_id r.calls ≡ suc (spawns app_id d.calls))
  unfolding started call send_event send remember_pid save still_wanted
  started-IsRunning e d app env pid count idle known same wanted = rw known (
    record {
      idle = record {
        app = record app { last_pid = pid; last_cmd_base = app.definition.cmd };
        known = get-put_self d.apps app_id _;
        same = same;
        wanted = wanted;
        counted = idle.counted;
        quiet = idle.quiet;
      };
      proc = record { handle = d.next_handle; pid = pid };
      here = get-put_self d.procs app_id _;
      since = get-put_self d.start_times app_id e.now;
    },
    rw ((eq_iff app_id app_id).1 refl) refl,
  )

  pub fired-IsRunning :
      (e : Env) (d : Daemon F) (app : AppState) (count : ℕ)
      → Dict.get d.apps app_id ≡ some app
      → app.definition ≡ def
      → still_wanted (some app) ≡ true
      → Dict.get d.procs app_id ≡ none
      → crash_count app_id d ≡ count
      → IsArmed app_id d.timers
      → CanStart def e
      → let r = fire_pending e d (pending_of app_id d.timers) in
        IsRunning app_id def r count e.now × (spawns app_id r.calls ≡ suc (spawns app_id d.calls))
  unfolding timer_fired restarted
  fired-IsRunning e d app count known same wanted no_proc counted (t, found, mine, quiet) can =
      let d1 : Daemon F = record d { timers = without t.timer_id d.timers } in
      let idle : Idle app_id def d1 count = record {
        app = app;
        known = known;
        same = same;
        wanted = wanted;
        counted = counted;
        quiet = quiet;
      } in
      let (env, pid, starts) = process_starts e d1 app same can in
      let fire : String → Bool → Daemon F = λ id b.
        if b
        then restarted e id (start_app e d1 id).0 (start_app e d1 id).1
        else send_event e d1 id AppStatus.stopped 0 none in
      let fired =
        ap (fire_pending e d) found
        ∙ ap (λ id. fire id (still_wanted (Dict.get d.apps id))) mine
        ∙ ap (λ o. fire app_id (still_wanted o)) known
        ∙ ap (fire app_id) wanted
        ∙ ap (λ (r : Daemon F × Option Error). restarted e app_id r.0 r.1)
            (start_lem e d1 app known same wanted no_proc ∙ starts) in
      subst
        (λ (r : Daemon F).
          IsRunning app_id def r count e.now
          × (spawns app_id r.calls ≡ suc (spawns app_id d.calls)))
        (sym fired) (started-IsRunning e d1 app env pid count idle known same wanted)
