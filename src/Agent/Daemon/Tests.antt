-- ===== src/Agent/Daemon/Tests.antt =====
-- Runs of the daemon on small inputs.
use breakerbox.Prelude.{
  ◌↔◌, ℕ, String, true, false, List, [], ◌∷◌, none, some, ◌≡◌, refl, ◌+◌, ◌*◌, min, All, length,
  arith,
}
use breakerbox.Prelude.Int.{pos, pos_part, negsuc, ◌-ℤ◌}
use breakerbox.Prelude.Dict
use breakerbox.Protocol.{
  AppDefinition, AppKind, AppStatus, Approval, AppSpec, Cmd, DesiredState, MetricsBatch,
  RestartPolicy, Verb,
}
use breakerbox.Agent.Daemon.State.{AppState, Daemon, Env, Timer, is_docker_kind}
use breakerbox.Agent.Daemon.Stops.{stop_app}
use breakerbox.Agent.Daemon.Restart.{policy_for, restart_delay, second, state_or_new, still_wanted}
use breakerbox.Agent.Daemon.Sync.{apply_app_sync, execute, import}
use breakerbox.Agent.Daemon.Sync.Known.{IsListed, apply_app_sync-IsListed}
use breakerbox.Agent.Daemon.Step.{Input, app_sync, spool}
use breakerbox.Agent.Daemon.Consent.{CallOk}
use breakerbox.Agent.Daemon.Consent.Runs.{host_history, run, spawn-Consent}
use breakerbox.Agent.Daemon.Crashes.{delay_before, delay_before_doubles}
use breakerbox.Agent.Daemon.Crashes.Rounds.{IsRunning, Restarts, rounds}
use breakerbox.Agent.Daemon.Crashes.Loop.{crash_loop}
use breakerbox.Agent.Daemon.Greeting.{About, hello_of}
use breakerbox.Agent.Daemon.Gate.{Gated, execute-Gated}
use breakerbox.Agent.Daemon.Timers.{Pending, stop_app-cancel_restart, timer_of}

abbrev server : AppDefinition
server = record {
  schema_version = pos 1;
  name = "web";
  kind = AppKind.process;
  cmd = "node";
  args = [];
  cwd = "/srv";
  env = [];
  ports = [];
  health_check = none;
  stop = none;
  restart_policy =
      some (record { max_restarts = pos 2; min_uptime_s = pos 5; backoff_max_s = pos 9 });
  container_id = "";
  compose_project = "";
  compose_file = "";
}

abbrev host : Env
host = record {
  now = 7;
  save_ok = true;
  log_ok = true;
  exec = λ def env. some 41;
  alive = λ h. true;
  stop_ok = λ h. true;
  ports = λ p. [];
  engine_start_ok = λ c. true;
  engine_stop_ok = λ c. true;
  inspect = λ c. none;
  compose_start_ok = λ p. true;
  compose_stop_ok = λ p. true;
  compose_running = λ p. none;
}

abbrev fresh : Daemon ℕ
fresh = record {
  apps = [];
  disk = [];
  docker = false;
  procs = [];
  online = true;
  start_times = [];
  restarts = [];
  timers = [];
  docker_status = [];
  proxy = none;
  pre_approved = [];
  metrics_buf = [];
  proxy_rows_buf = [];
  next_handle = 1;
  next_timer = 1;
  calls = [];
  sent = [];
}

abbrev web : AppState
web = record {
  definition = server;
  hash = "web";
  approval = Approval.approved;
  desired_state = DesiredState.running;
  token_tracking = "off";
  last_pid = 0;
  last_cmd_base = "";
}

abbrev serving : Daemon ℕ
serving = record fresh { apps = ("a", web) ∷ [] }

abbrev linux : About
linux = record {
  version = "1";
  os = "linux";
  arch = "amd64";
  hostname = "h";
  compose_available = true;
}

hello_tells_apps :
    (hello_of linux host serving).apps
    ≡ (
      "a",
      record {
        status = AppStatus.stopped;
        definition_hash = "web";
        approval = Approval.approved;
        pid = 0;
      },
    )
      ∷ []
unfolding hello_of Dict.get
hello_tells_apps = refl

abbrev waiting : Daemon ℕ
waiting = record fresh { apps = ("a", record web { approval = Approval.pending }) ∷ [] }

abbrev hash : AppDefinition → String
hash def = def.name

abbrev web_spec : AppSpec
web_spec = record {
  id = "a";
  definition = server;
  definition_hash = "web";
  desired_state = DesiredState.running;
  token_tracking = "off";
}

-- the definition is imported on the host, and then the hub sends it
abbrev imported_run : List (Env × Input ℕ)
imported_run = (host, spool (import (some server))) ∷ (host, app_sync (web_spec ∷ [])) ∷ []

spawn-Consent_example :
    All (CallOk hash (host_history hash [] fresh imported_run)) (run hash fresh imported_run).calls
spawn-Consent_example = spawn-Consent hash fresh imported_run refl refl refl (tt, ((refl, tt), tt))

imported_run_spawns : length (run hash fresh imported_run).calls ≡ 1
unfolding run Dict.get Dict.put
imported_run_spawns = refl

abbrev start_web : Cmd
start_web = record { cmd_id = "c"; app_id = "a"; verb = Verb.start; definition_hash = "web" }

execute-Gated_example : Gated host waiting start_web (execute host waiting start_web)
execute-Gated_example = execute-Gated host waiting start_web

abbrev nine_seconds : RestartPolicy
nine_seconds = record { max_restarts = pos 2; min_uptime_s = pos 5; backoff_max_s = pos 9 }

delay_before_doubles_example :
    (delay_before nine_seconds 1 ≡ pos second)
    × (delay_before nine_seconds (2 + 2)
        ≡ pos (min (2 * pos_part (delay_before nine_seconds (1 + 2))) (9 * second)))
    × (delay_before nine_seconds (31 + 4) ≡ delay_before nine_seconds 31)
delay_before_doubles_example =
    delay_before_doubles nine_seconds 9 2 4 refl (omega arith) (omega arith) (omega arith)

-- `backoff_max_s` times a second does not fit in 64 bits, and the timer fires at once.
overflown_delay :
    delay_before (record nine_seconds { backoff_max_s = pos 9_223_372_037 }) 1
    ≡ negsuc 9_223_372_036_709_551_615
unfolding restart_delay policy_for
overflown_delay = refl

abbrev host_at : ℕ → Env
host_at time = record host { now = time; log_ok = true; exec = λ def env. some 9 }

-- the app runs, and its process exits three times
abbrev serving_now : Daemon ℕ
serving_now = record serving {
  procs = ("a", record { handle = 0; pid = 8 }) ∷ [];
  start_times = ("a", 3) ∷ [];
}

abbrev three_rounds : List (Env × Env)
three_rounds = (host_at 4, host_at 5) ∷ (host_at 6, host_at 7) ∷ (host_at 8, host_at 9) ∷ []

serving_now-IsRunning : IsRunning "a" server serving_now 0 3
unfolding Dict.get state_or_new still_wanted
serving_now-IsRunning = record {
  idle = record {
    app = web;
    known = refl;
    same = refl;
    wanted = refl;
    counted = refl;
    quiet = refl;
  };
  proc = record { handle = 0; pid = 8 };
  here = refl;
  since = refl;
}

crash_loop_example : Restarts "a" 3 2 serving_now (rounds "a" (negsuc 0) serving_now three_rounds)
unfolding policy_for is_docker_kind ◌-ℤ◌
crash_loop_example =
    crash_loop "a" (negsuc 0) server 2 refl (omega arith) refl refl three_rounds serving_now 3
      serving_now-IsRunning
      (
        omega arith,
        (refl, λ env. (9, refl)),
        (omega arith, (refl, λ env. (9, refl)), (omega arith, (refl, λ env. (9, refl)), tt)),
      )

abbrev crashed_once : Daemon ℕ
crashed_once = record serving {
  restarts = ("a", record { count = 1; timer = some 1 }) ∷ [];
  timers = record { timer_id = 1; app = "a"; delay = pos second } ∷ [];
}

stop_app-cancel_restart_example :
    (Dict.get (stop_app host crashed_once "a").0.restarts "a" ≡ none)
    × ((t : Timer)
        → Pending t (stop_app host crashed_once "a").0 ↔ (
            Pending t crashed_once
            × ¬ (timer_of (Dict.get crashed_once.restarts "a") ≡ some t.timer_id)))
stop_app-cancel_restart_example = stop_app-cancel_restart host crashed_once "a"

abbrev no_samples : MetricsBatch ℕ
no_samples = record { host = []; apps = [] }

apply_app_sync-IsListed_example :
    IsListed (web_spec ∷ []) (apply_app_sync host serving (web_spec ∷ [])) "b"
apply_app_sync-IsListed_example = apply_app_sync-IsListed host serving (web_spec ∷ []) "b"
