-- ===== src/Protocol/AppDef.antt =====
-- pkg/protocol/appdef.go: the definition of an app.
use breakerbox.Prelude.{String, List, Option}
use breakerbox.Prelude.Int.{ℤ}
use breakerbox.Prelude.Dict.{Dict}
use breakerbox.Protocol.Words.{AppKind}

pub record HealthCheck : Type 0 where
  pub url : String
  pub timeout_s : ℤ

pub record StopSpec : Type 0 where
  pub command : String
  pub signal : String
  pub timeout_s : ℤ

pub record RestartPolicy : Type 0 where
  pub max_restarts : ℤ
  pub min_uptime_s : ℤ
  pub backoff_max_s : ℤ

pub record AppDefinition : Type 0 where
  pub schema_version : ℤ
  pub name : String
  pub kind : AppKind
  pub cmd : String
  pub args : List String
  pub cwd : String
  pub env : Dict String
  pub ports : List ℤ
  pub health_check : Option HealthCheck
  pub stop : Option StopSpec
  pub restart_policy : Option RestartPolicy
  pub container_id : String
  pub compose_project : String
  pub compose_file : String
