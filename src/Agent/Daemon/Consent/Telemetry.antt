-- ===== src/Agent/Daemon/Consent/Telemetry.antt =====
-- Status polls and telemetry keep the host's consent: docker.go, loops.go, tokens.go.
use breakerbox.Prelude.{String, Bool, List, [], ◌∷◌, refl, if_rule}
use breakerbox.Prelude.Dict
use breakerbox.Prelude.Dict.{AllEntries-put, AllEntries-map}
use breakerbox.Protocol.{AppDefinition}
use breakerbox.Agent.Daemon.State.{AppState, Env, Daemon, is_docker_kind}
use breakerbox.Agent.Daemon.Poll.{poll, note_status}
use breakerbox.Agent.Daemon.Consent.{HostAction, Safe, same-Safe}
use breakerbox.Agent.Daemon.Buffers.{
  flush_backlog, send_metrics, emit_token_rows, queue_proxy_rows, flush_rows,
}
use breakerbox.Agent.Daemon.Poll.{Observed, observe, unchanged}
use breakerbox.Protocol.{MetricsBatch, TokenUsageRow}

module _ (hash : AppDefinition → String) {F : Type 0} (history : List HostAction) where
  note_status-Secure :
      (e : Env) (d : Daemon F) (app_id : String) (o : Observed)
      → Safe hash history d
      → Safe hash history (note_status e d app_id o)
  unfolding note_status
  note_status-Secure e d app_id o s =
      if_rule (Safe hash history) (unchanged (Dict.get d.docker_status app_id) o.status)
        (λ _. same-Safe hash history d _ refl refl refl s)
        (λ _. same-Safe hash history d _ refl refl refl s)

  pub poll-Secure :
      (e : Env) (apps : Dict.Dict AppState) (d : Daemon F)
      → Safe hash history d
      → Safe hash history (poll e d apps)
  unfolding poll
  poll-Secure e [] d s = s
  poll-Secure e ((app_id, app) ∷ rest) d s = poll-Secure e rest _ (
      if_rule (Safe hash history) (is_docker_kind app.definition.kind)
        (λ _. note_status-Secure e d app_id (observe e app.definition app.definition.kind) s)
        (λ _. s))

  flush_backlog-Secure :
      (d : Daemon F) (buffered : List (MetricsBatch F))
      → Safe hash history d
      → Safe hash history (flush_backlog d buffered)
  unfolding flush_backlog
  flush_backlog-Secure d [] s = s
  flush_backlog-Secure d (b ∷ bs) s = same-Safe hash history d _ refl refl refl s

  pub send_metrics-Secure :
      (d : Daemon F) (batch : MetricsBatch F)
      → Safe hash history d
      → Safe hash history (send_metrics d batch)
  unfolding send_metrics
  send_metrics-Secure d batch s =
      let d1 : Daemon F = record d { metrics_buf = [] } in
      if_rule (Safe hash history) d.online
        (λ _.
          same-Safe hash history (flush_backlog d1 d.metrics_buf) _ refl refl refl
            (flush_backlog-Secure d1 d.metrics_buf (same-Safe hash history d d1 refl refl refl s)))
        (λ _. same-Safe hash history d _ refl refl refl s)

  emit_token_rows-Secure :
      (accepted : Bool) (d : Daemon F) (rows : List TokenUsageRow)
      → Safe hash history d
      → Safe hash history (emit_token_rows accepted d rows).0
  unfolding emit_token_rows
  emit_token_rows-Secure accepted d rows s =
      if_rule (λ (r : Daemon F × Bool). Safe hash history r.0) d.online
        (λ _.
          if_rule (λ (r : Daemon F × Bool). Safe hash history r.0) accepted
            (λ _. same-Safe hash history d _ refl refl refl s) (λ _. s))
        (λ _. s)

  pub queue_proxy_rows-Secure :
      (accepted : Bool) (d : Daemon F) (rows : List TokenUsageRow)
      → Safe hash history d
      → Safe hash history (queue_proxy_rows accepted d rows)
  unfolding queue_proxy_rows
  queue_proxy_rows-Secure accepted d rows s =
      let (d1, delivered) = emit_token_rows accepted d rows in
      let s1 = emit_token_rows-Secure accepted d rows s in
      if_rule (Safe hash history) delivered (λ _. s1)
        (λ _. same-Safe hash history d1 _ refl refl refl s1)

  pub flush_rows-Secure :
      (accepted : Bool) (d : Daemon F) (rows : List TokenUsageRow)
      → Safe hash history d
      → Safe hash history (flush_rows accepted d rows)
  unfolding flush_rows
  flush_rows-Secure accepted d [] s = s
  flush_rows-Secure accepted d (r ∷ rs) s =
      let (d1, delivered) = emit_token_rows accepted d (r ∷ rs) in
      let s1 = emit_token_rows-Secure accepted d (r ∷ rs) s in
      if_rule (Safe hash history) delivered (λ _. s1)
        (λ _. same-Safe hash history d1 _ refl refl refl s1)
