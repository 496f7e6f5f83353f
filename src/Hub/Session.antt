-- ===== src/Hub/Session.antt =====
-- One agent's connection: the checks of serveWS, handleFrame and onHello of
-- hub/internal/agenthub/hub.go, and ingestMetrics of hub/internal/agenthub/metrics.go.
pub mod Untouched
pub mod Own
mod Tests
use breakerbox.Prelude.{
  ℕ, String, Bool, true, false, List, [], ◌∷◌, ◌++◌, Option, none, some, ◌||◌, str_eq,
  if◌then◌else◌, ◌⊎◌, inl, inr,
}
use breakerbox.Prelude.Dict
use breakerbox.Prelude.Dict.{Dict}
use breakerbox.Protocol.{
  AppDefinition, AppEvent, AppSample, ApprovalEvent, Hello, HostSample, LogChunk, MetricsBatch,
  TokenUsageRow,
}
use breakerbox.Hub.State.{
  CommandResult, Hub, HubEnv, HubError, Reply, System, SystemStatus, hello_ack, invalid,
  save_failed, save_system, write,
}
use breakerbox.Hub.Apps.{on_app_event, on_app_register, on_approval_event, send_app_sync}
use breakerbox.Hub.Commands.{on_cmd_ack, on_cmd_result}
use breakerbox.Hub.Logs.{LogBroker, deliver_chunk}
use breakerbox.Hub.Signature.{Crypto, verify_signature}
use breakerbox.Hub.Tokens.Ingest.{Usage}
use breakerbox.Hub.Tokens.Pricing.{Floats}
use breakerbox.Hub.Tokens.Spend.{Service, SpendSettings, ingest}

-- The headers that serveWS reads.
pub record AgentHeaders : Type 0 where
  pub system_id : String
  pub timestamp : String
  pub signature : String

pub data ConnectRefusal : Type 0 where
  missing_headers unknown_system invalid_signature : ConnectRefusal

-- Refused, or the record of the system as it is now.
abbrev pub Admission : Type 0
Admission = ConnectRefusal ⊎ System

unfoldable pub admit_signed : Crypto → ℕ → AgentHeaders → System → Admission
unfolding verify_signature
admit_signed c now a s =
    elim (verify_signature c now s.public_key a.system_id a.timestamp a.signature) [
      | none ↦ inr s
      | some why ↦ inl ConnectRefusal.invalid_signature
    ]

unfoldable pub admit_found : Crypto → ℕ → AgentHeaders → Option System → Admission
unfolding admit_signed
admit_found c now a none = inl ConnectRefusal.unknown_system
admit_found c now a (some s) = admit_signed c now a s

-- serveWS up to websocket.Accept
unfoldable pub admit : Crypto → ℕ → Hub → AgentHeaders → Admission
unfolding admit_found
admit c now h a =
    if str_eq a.system_id "" || str_eq a.timestamp "" || str_eq a.signature ""
    then inl ConnectRefusal.missing_headers
    else admit_found c now a (Dict.get h.systems a.system_id)

-- The record that serveWS has read before, with what the hello says.
unfoldable pub with_hello : ℕ → System → Hello → System
with_hello now s hello = record s {
  status = SystemStatus.online;
  agent_version = hello.agent_version;
  os = hello.os;
  arch = hello.arch;
  hostname = hello.hostname;
  last_seen = now;
  capabilities = hello.capabilities;
}

unfoldable pub then_app_sync : HubEnv → String → ℕ → Reply → Reply
unfolding send_app_sync
then_app_sync e system_id c (h, none) = send_app_sync e h system_id c
then_app_sync e system_id c (h, some why) = (h, some why)

unfoldable pub then_ack : HubEnv → String → ℕ → Reply → Reply
unfolding write then_app_sync
then_ack e system_id c (h, none) = then_app_sync e system_id c (write e h c (hello_ack e.now))
then_ack e system_id c (h, some why) = (h, some why)

-- onHello
unfoldable pub on_hello : HubEnv → Hub → String → ℕ → System → Hello → Reply
unfolding save_system with_hello then_ack
on_hello e h system_id c s hello =
    then_ack e system_id c (save_system e h system_id (with_hello e.now s hello))

-- The raw samples that ingestMetrics has stored, newest last.
pub record RawMetrics (F : Type 0) : Type 0 where
  pub hosts : List (String × HostSample F)
  pub samples : List (AppSample F)

module _ {F : Type 0} where
  unfoldable pub save_hosts :
      (HostSample F → Bool) → String → List (HostSample F) → RawMetrics F → Option (RawMetrics F)
  save_hosts ok system_id [] m = some m
  save_hosts ok system_id (s ∷ batch) m =
      let rest =
        save_hosts ok system_id batch (record m { hosts = m.hosts ++ (system_id, s) ∷ [] }) in
      if ok s then rest else none

  unfoldable pub save_samples :
      (AppSample F → Bool) → List (AppSample F) → RawMetrics F → Option (RawMetrics F)
  save_samples ok [] m = some m
  save_samples ok (s ∷ batch) m =
      let rest = save_samples ok batch (record m { samples = m.samples ++ s ∷ [] }) in
      if ok s then rest else none

  unfoldable pub then_samples :
      (AppSample F → Bool) → List (AppSample F) → Option (RawMetrics F) → Option (RawMetrics F)
  unfolding save_samples
  then_samples ok batch none = none
  then_samples ok batch (some m) = save_samples ok batch m

  unfoldable pub committed : RawMetrics F → Option (RawMetrics F) → RawMetrics F × Option HubError
  committed m none = (m, some save_failed)
  committed m (some n) = (n, none)

  -- ingestMetrics: a transaction
  unfoldable pub ingest_metrics :
      (HostSample F → Bool)
      → (AppSample F → Bool)
      → RawMetrics F
      → String
      → MetricsBatch F
      → RawMetrics F × Option HubError
  unfolding save_hosts then_samples committed
  ingest_metrics host_ok app_ok m system_id batch =
      committed m (then_samples app_ok batch.apps (save_hosts host_ok system_id batch.host m))

-- What an agent sends. A payload that is no JSON of its type is undecodable (a token batch that a hub
-- without a token service ignores is no such payload); `other_type` is a type that the hub does not know.
pub data Incoming (F : Type 0) : Type 0 where
  hello : Hello → Incoming F
  metrics : MetricsBatch F → Incoming F
  app_event : AppEvent → Incoming F
  cmd_ack : String → Incoming F
  cmd_result : String → CommandResult → Incoming F
  app_register : AppDefinition → Incoming F
  token_usage : List TokenUsageRow → Incoming F
  log_chunk : LogChunk → Incoming F
  approval_event : ApprovalEvent → Incoming F
  undecodable other_type : Incoming F

-- The hub with its broker, its token service, none if it has none, and its raw metrics.
pub record Server (N F : Type 0) : Type 0 where
  pub hub : Hub
  pub broker : LogBroker
  pub tokens : Option (Service N)
  pub raw : RawMetrics F

-- What the parts of the hub are given for one frame.
pub record ServerEnv (N F : Type 0) : Type 0 where
  pub hub_env : HubEnv
  pub hash : AppDefinition → String
  pub floats : Floats N
  pub usage_ok : Usage N → Bool
  pub spend_settings : Option (SpendSettings N)
  pub today : ℕ
  pub host_ok : HostSample F → Bool
  pub app_ok : AppSample F → Bool

module _ {N F : Type 0} (e : ServerEnv N F) (system_id : String) (c : ℕ) where
  unfoldable pub with_hub : Server N F → Reply → Server N F × Option HubError
  with_hub s (h, why) = (record s { hub = h }, why)

  unfoldable pub with_tokens : Server N F → Service N × Bool → Server N F × Option HubError
  with_tokens s (t, ok) = (record s { tokens = some t }, if ok then none else some save_failed)

  unfoldable pub ingest_usage :
      Server N F → List TokenUsageRow → Option (Service N) → Server N F × Option HubError
  unfolding with_tokens ingest
  ingest_usage s rows none = (s, none)
  ingest_usage s rows (some t) =
      with_tokens s (ingest e.floats e.usage_ok t e.today e.spend_settings system_id rows)

  unfoldable pub with_metrics :
      Server N F → RawMetrics F × Option HubError → Server N F × Option HubError
  with_metrics s (m, why) = (record s { raw = m }, why)

  -- handleFrame, with the system's record from serveWS
  unfoldable pub handle_frame : Server N F → System → Incoming F → Server N F × Option HubError
  unfolding with_hub ingest_usage with_metrics on_hello ingest_metrics on_app_event on_cmd_ack
      on_cmd_result on_app_register deliver_chunk on_approval_event
  handle_frame s snapshot (hello p) = with_hub s (on_hello e.hub_env s.hub system_id c snapshot p)
  handle_frame s snapshot (metrics batch) =
      with_metrics s (ingest_metrics e.host_ok e.app_ok s.raw system_id batch)
  handle_frame s snapshot (app_event ev) = with_hub s (on_app_event e.hub_env s.hub ev)
  handle_frame s snapshot (cmd_ack id) = with_hub s (on_cmd_ack e.hub_env s.hub id)
  handle_frame s snapshot (cmd_result id res) = with_hub s (on_cmd_result e.hub_env s.hub id res)
  handle_frame s snapshot (app_register def) =
      with_hub s (on_app_register e.hash e.hub_env s.hub system_id c def)
  handle_frame s snapshot (token_usage rows) = ingest_usage s rows s.tokens
  handle_frame s snapshot (log_chunk chunk) =
      (record s { broker = deliver_chunk s.broker chunk }, none)
  handle_frame s snapshot (approval_event ev) = with_hub s (on_approval_event e.hub_env s.hub ev)
  handle_frame s snapshot undecodable = (s, some invalid)
  handle_frame s snapshot other_type = (s, none)

  -- The read loop: an error is logged, and the next frame is read.
  unfoldable pub handle_frames : Server N F → System → List (Incoming F) → Server N F
  unfolding handle_frame
  handle_frames s snapshot [] = s
  handle_frames s snapshot (f ∷ frames) =
      handle_frames (handle_frame s snapshot f).0 snapshot frames
