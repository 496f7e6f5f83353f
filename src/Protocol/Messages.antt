-- ===== src/Protocol/Messages.antt =====
-- pkg/protocol/messages.go: the payloads of the frames. JSON carries the fields as they are; the
-- envelope's version and time stamp do not steer either side and are left out.
use breakerbox.Prelude.{ℕ, String, Bool, List, Option}
use breakerbox.Prelude.Int.{ℤ}
use breakerbox.Prelude.Dict.{Dict}
use breakerbox.Protocol.Words.{Verb, AppStatus, DesiredState, Approval}
use breakerbox.Protocol.AppDef.{AppDefinition}

pub record AppSpec : Type 0 where
  pub id : String
  pub definition : AppDefinition
  pub definition_hash : String
  pub desired_state : DesiredState
  pub token_tracking : String

pub record Cmd : Type 0 where
  pub cmd_id : String
  pub app_id : String
  pub verb : Verb
  pub definition_hash : String

pub record Port : Type 0 where
  pub proto : String
  pub port : ℕ

pub record AppEvent : Type 0 where
  pub app_id : String
  pub status : AppStatus
  pub pid : ℕ
  pub exit_code : Option ℤ
  pub restart_count : ℕ
  pub ports : List Port

-- `F` is the type of the percentages, Go's float64.
pub record HostSample (F : Type 0) : Type 0 where
  pub ts : ℕ
  pub cpu_pct : F
  pub mem_pct : F
  pub mem_used : ℕ
  pub disk_pct : F
  pub net_sent : ℕ
  pub net_recv : ℕ

pub record AppSample (F : Type 0) : Type 0 where
  pub ts : ℕ
  pub app_id : String
  pub cpu_pct : F
  pub mem_rss : ℕ
  pub ports : List Port

pub record MetricsBatch (F : Type 0) : Type 0 where
  pub host : List (HostSample F)
  pub apps : List (AppSample F)

pub record AppDigest : Type 0 where
  pub status : AppStatus
  pub definition_hash : String
  pub approval : Approval
  pub pid : ℕ

pub record Hello : Type 0 where
  pub agent_version : String
  pub protocol_version : ℤ
  pub os : String
  pub arch : String
  pub hostname : String
  pub capabilities : List String
  pub apps : Dict AppDigest

pub record LogFollow : Type 0 where
  pub stream_id : String
  pub app_id : String
  pub tail_n : ℤ

pub record LogChunk : Type 0 where
  pub stream_id : String
  pub lines : List String
  pub eof : Bool

pub record TokenUsageRow : Type 0 where
  pub dedup_key : String
  pub app_id : String
  pub source : String
  pub model : String
  pub input_tokens : ℤ
  pub output_tokens : ℤ
  pub cache_creation_tokens : ℤ
  pub cache_read_tokens : ℤ
  pub session_id : String
  pub occurred_at_ms : ℤ

pub record ApprovalEvent : Type 0 where
  pub app_id : String
  pub approval : Approval
  pub definition_hash : String
