-- ===== src/Agent/Daemon/Step.antt =====
-- One step of the daemon: what the hub, the host or a timer brings, and the runs that steps make.
-- A handler runs to its end before the next one starts; the source releases d.mu in between.
use breakerbox.Prelude.{ℕ, String, Bool, true, false, List}
use breakerbox.Prelude.Int.{ℤ}
use breakerbox.Protocol.{AppDefinition, AppSpec, Cmd, MetricsBatch, TokenUsageRow}
use breakerbox.Agent.Daemon.State.{Timer, Env, Daemon}
use breakerbox.Agent.Daemon.Restart.{proc_exited, timer_fired, reconcile}
use breakerbox.Agent.Daemon.Sync.{SpoolOp, apply_app_sync, execute, apply_spool_op}
use breakerbox.Agent.Daemon.Poll.{poll_docker_apps}
use breakerbox.Agent.Daemon.Buffers.{send_metrics, queue_proxy_rows, flush_proxy_rows}
use breakerbox.Agent.Daemon.Boot.{boot}

pub data Input (F : Type 0) : Type 0 where
  booted polled disconnected connected : Input F
  app_sync : List AppSpec → Input F
  cmd : Cmd → Input F
  spool : SpoolOp → Input F
  exited : String → ℕ → ℤ → Input F
  fired : Timer → Input F
  sampled : MetricsBatch F → Input F
  proxied : Bool → List TokenUsageRow → Input F
  flushed : Bool → Input F

module _ {F : Type 0} (hash : AppDefinition → String) where
  -- handleFrame and the daemon's loops
  unfoldable pub step : Env → Daemon F → Input F → Daemon F
  unfolding boot poll_docker_apps apply_app_sync reconcile execute apply_spool_op proc_exited
      timer_fired send_metrics queue_proxy_rows flush_proxy_rows
  step e d booted = boot e d
  step e d polled = poll_docker_apps e d
  step e d disconnected = record d { online = false }
  step e d connected = record d { online = true }
  step e d (app_sync specs) = reconcile e (apply_app_sync e d specs)
  step e d (cmd c) = execute e d c
  step e d (spool op) = apply_spool_op hash e d op
  step e d (exited app_id handle code) = proc_exited e d app_id handle code
  step e d (fired t) = timer_fired e d t
  step e d (sampled batch) = send_metrics d batch
  step e d (proxied accepted rows) = queue_proxy_rows accepted d rows
  step e d (flushed accepted) = flush_proxy_rows accepted d
