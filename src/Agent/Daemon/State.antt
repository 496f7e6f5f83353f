-- ===== src/Agent/Daemon/State.antt =====
-- The daemon's state (daemon.go, appconfig/store.go, restart.go) and its smallest operations.
-- A critical section under `d.mu` is one function from the state to the state. What the host does
-- (clock, disk, processes, Docker engine) comes in by `Env`; what the daemon asks of it is logged
-- in `calls`, and what it sends to the hub in `sent`, both newest first.
use breakerbox.Prelude.{
  ℕ, String, Bool, true, false, List, [], ◌∷◌, Option, none, some, ◌==◌, if◌then◌else◌,
}
use breakerbox.Prelude.Int.{ℤ}
use breakerbox.Prelude.Dict.{Dict}
use breakerbox.Protocol.{
  AppDefinition, AppKind, AppStatus, Approval, DesiredState, AppEvent, ApprovalEvent, Port,
  TokenUsageRow, MetricsBatch, LogChunk,
}

-- appconfig.AppState; 0 is the absent process id.
pub record AppState : Type 0 where
  pub definition : AppDefinition
  pub hash : String
  pub approval : Approval
  pub desired_state : DesiredState
  pub token_tracking : String
  pub last_pid : ℕ
  pub last_cmd_base : String

-- *supervisor.Proc: the handle is the pointer, which tells two runs of an app apart.
pub record Proc : Type 0 where
  pub handle : ℕ
  pub pid : ℕ

-- A timer that fired or was stopped stays in `timer`, as in the source.
pub record RestartState : Type 0 where
  pub count : ℕ
  pub timer : Option ℕ

-- A pending time.AfterFunc of handleUnexpectedExit.
pub record Timer : Type 0 where
  pub timer_id : ℕ
  pub app : String
  pub delay : ℤ

-- Proxy.EnvFor: `var`=http://127.0.0.1:`port`/t/`app``suffix`
pub record EnvVar : Type 0 where
  pub var : String
  pub port : ℕ
  pub app : String
  pub suffix : String

-- Calls of the supervisor, the Docker engine and the compose command, with the app that they serve.
pub data Call : Type 0 where
  spawn : String → AppDefinition → List EnvVar → Call
  stop_proc : String → ℕ → Call
  reap : String → ℕ → String → Call
  engine_start : String → String → Call
  engine_stop : String → String → ℤ → Call
  compose_start compose_stop : String → String → Call

-- The errors of starting and stopping an app.
pub data Error : Type 0 where
  unknown_app not_approved docker_unavailable log_failed spawn_failed engine_failed stop_failed :
      Error

-- Why a command fails: the texts that execute gives to `fail`, and err.Error().
pub data Reason : Type 0 where
  unknown_on_host stale_hash not_approved_on_host bad_verb : Reason
  failed : Error → Reason

-- Frames to the hub. A result without a reason is OK. `F` is the type of the percentages.
pub data Frame (F : Type 0) : Type 0 where
  app_event : AppEvent → Frame F
  cmd_ack : String → Frame F
  cmd_result : String → Option Reason → Frame F
  approval_event : ApprovalEvent → Frame F
  app_register : AppDefinition → Frame F
  metrics : MetricsBatch F → Frame F
  token_usage_batch : List TokenUsageRow → Frame F
  log_chunk : LogChunk → Frame F

pub record ContainerState : Type 0 where
  pub running : Bool
  pub pid : ℕ
  pub exit_code : ℤ

-- What the host answers during one step.
pub record Env : Type 0 where
  pub now : ℕ  -- nanoseconds
  pub save_ok : Bool
  pub log_ok : Bool
  pub exec : AppDefinition → List EnvVar → Option ℕ  -- the new process id
  pub alive : ℕ → Bool  -- by handle
  pub stop_ok : ℕ → Bool  -- by handle
  pub ports : ℕ → List Port
  pub engine_start_ok : String → Bool
  pub engine_stop_ok : String → Bool
  pub inspect : String → Option ContainerState
  pub compose_start_ok : String → Bool
  pub compose_stop_ok : String → Bool
  pub compose_running : String → Option ℕ  -- ComposeState.Running

pub record Daemon (F : Type 0) : Type 0 where
  pub apps : Dict AppState
  pub disk : Dict AppState  -- state.json
  pub docker : Bool  -- d.docker != nil
  pub procs : Dict Proc
  pub online : Bool  -- d.conn != nil
  pub start_times : Dict ℕ
  pub restarts : Dict RestartState
  pub timers : List Timer
  pub docker_status : Dict AppStatus
  pub proxy : Option ℕ  -- the port of the metering proxy
  pub pre_approved : List String
  pub metrics_buf : List (MetricsBatch F)
  pub proxy_rows_buf : List TokenUsageRow
  pub next_handle : ℕ
  pub next_timer : ℕ  -- tells one *time.Timer from another, as the pointer does
  pub calls : List Call
  pub sent : List (Frame F)

-- docker.go, isDockerKind
unfoldable pub is_docker_kind : AppKind → Bool
is_docker_kind AppKind.docker = true
is_docker_kind AppKind.compose = true
is_docker_kind _ = false

-- time.Timer.Stop
unfoldable pub without : ℕ → List Timer → List Timer
without t [] = []
without t (x ∷ xs) = let rest = without t xs in if x.timer_id == t then rest else x ∷ rest

unfoldable pub stop_timer : Option ℕ → List Timer → List Timer
unfolding without
stop_timer none ts = ts
stop_timer (some t) ts = without t ts

module _ {F : Type 0} where
  -- Daemon.send: a frame is lost while there is no connection.
  unfoldable pub send : Daemon F → Frame F → Daemon F
  send d f = record d { sent = if d.online then f ∷ d.sent else d.sent }

  -- store.Save(d.state): a failure leaves the old file.
  unfoldable pub save : Env → Daemon F → Daemon F
  save e d = record d { disk = if e.save_ok then d.apps else d.disk }

  unfoldable pub call : Daemon F → Call → Daemon F
  call d c = record d { calls = c ∷ d.calls }
