-- ===== src/Agent/Daemon/Buffers.antt =====
-- loops.go (sendMetrics) and tokens.go (emitTokenRows, queueProxyRows, flushProxyRows): what is
-- kept while the hub cannot be reached.
pub mod Bounds
use breakerbox.Prelude.{
  ℕ, ◌-◌, Bool, true, false, List, [], ◌∷◌, ◌++◌, ltb, if◌then◌else◌, length, drop,
}
use breakerbox.Protocol.{MetricsBatch, TokenUsageRow}
use breakerbox.Agent.Daemon.State.{metrics, token_usage_batch, Daemon, send}

abbrev pub max_buffered_batches : ℕ
max_buffered_batches = 240

abbrev pub max_proxy_buffer : ℕ
max_proxy_buffer = 5000

-- `if over := len(xs) - max; over > 0 { xs = xs[over:] }`
unfoldable pub keep_last {ℓ} : {A : Type ℓ} → ℕ → List A → List A
keep_last max xs = if ltb max (length xs) then drop (length xs - max) xs else xs

module _ {F : Type 0} where
  unfoldable pub merge : List (MetricsBatch F) → MetricsBatch F
  merge [] = record { host = []; apps = [] }
  merge (b ∷ bs) =
      let rest = merge bs in record { host = b.host ++ rest.host; apps = b.apps ++ rest.apps }

  unfoldable pub flush_backlog : Daemon F → List (MetricsBatch F) → Daemon F
  unfolding send merge
  flush_backlog d [] = d
  flush_backlog d (b ∷ bs) = send d (metrics (merge (b ∷ bs)))

  unfoldable pub send_metrics : Daemon F → MetricsBatch F → Daemon F
  unfolding flush_backlog keep_last send
  send_metrics d batch =
      if d.online
      then send (flush_backlog (record d { metrics_buf = [] }) d.metrics_buf) (metrics batch)
      else record d { metrics_buf = keep_last max_buffered_batches (d.metrics_buf ++ batch ∷ []) }

  -- emitTokenRows; `accepted` is `conn.Send(…) == nil`
  unfoldable pub emit_token_rows : Bool → Daemon F → List TokenUsageRow → Daemon F × Bool
  unfolding send
  emit_token_rows accepted d rows =
      if d.online
      then (if accepted then (send d (token_usage_batch rows), true) else (d, false))
      else (d, false)

  unfoldable pub queue_proxy_rows : Bool → Daemon F → List TokenUsageRow → Daemon F
  unfolding emit_token_rows keep_last
  queue_proxy_rows accepted d rows =
      let (d1, delivered) = emit_token_rows accepted d rows in
      if delivered
      then d1
      else record d1 { proxy_rows_buf = keep_last max_proxy_buffer (d1.proxy_rows_buf ++ rows) }

  unfoldable pub flush_rows : Bool → Daemon F → List TokenUsageRow → Daemon F
  unfolding emit_token_rows
  flush_rows accepted d [] = d
  flush_rows accepted d (r ∷ rs) =
      let (d1, delivered) = emit_token_rows accepted d (r ∷ rs) in
      if delivered then d1 else record d1 { proxy_rows_buf = (r ∷ rs) ++ d1.proxy_rows_buf }

  unfoldable pub flush_proxy_rows : Bool → Daemon F → Daemon F
  unfolding flush_rows
  flush_proxy_rows accepted d =
      flush_rows accepted (record d { proxy_rows_buf = [] }) d.proxy_rows_buf
