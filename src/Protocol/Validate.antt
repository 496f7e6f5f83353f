-- ===== src/Protocol/Validate.antt =====
-- AppDefinition.Validate of pkg/protocol/appdef.go: every problem is reported.
pub mod Exact
use Prim.Native.Char.{code}
use text.Mathlib.Text.{starts_with}
use breakerbox.Prelude.{
  ℕ, String, Bool, true, false, not, ◌&&◌, ◌||◌, List, [], ◌∷◌, ◌++◌, Option, none, some, ◌≡◌, ◌≢◌,
  leb, ◌==◌, str_eq, All,
}
use breakerbox.Prelude.Int.{ℤ, pos, ltb_ℤ, ◌≤ℤ◌}
use breakerbox.Protocol.Words.{AppKind}
use breakerbox.Protocol.AppDef.{AppDefinition, HealthCheck}

-- unicode.IsSpace, which strings.TrimSpace strips.
unfoldable pub is_space : ℕ → Bool
is_space c =
    (leb 9 c && leb c 13)
    || (c == 0x20)
    || (c == 0x85)
    || (c == 0xa0)
    || (c == 0x1680)
    || (leb 0x2000 c && leb c 0x200a)
    || (c == 0x2028)
    || (c == 0x2029)
    || (c == 0x202f)
    || (c == 0x205f)
    || (c == 0x3000)

-- strings.TrimSpace(s) == ""
unfoldable pub is_blank : String → Bool
is_blank String.[] = true
is_blank (String.◌∷◌ c s) = is_space (code c) && is_blank s

-- The messages, with the values that they print.
pub data Problem : Type 0 where
  bad_schema_version : ℤ → Problem
  name_required cmd_required container_id_required compose_project_required : Problem
  unknown_kind : AppKind → Problem
  port_out_of_range : ℤ → Problem
  health_check_not_http : Problem

abbrev pub app_def_schema_version : ℤ
app_def_schema_version = pos 1

unfoldable pub when : Bool → Problem → List Problem
when true p = p ∷ []
when false p = []

unfoldable pub kind_problems : AppDefinition → AppKind → List Problem
unfolding when
kind_problems d AppKind.unset = when (is_blank d.cmd) cmd_required
kind_problems d AppKind.process = when (is_blank d.cmd) cmd_required
kind_problems d AppKind.docker = when (str_eq d.container_id "") container_id_required
kind_problems d AppKind.compose = when (str_eq d.compose_project "") compose_project_required
kind_problems d (AppKind.other s) = unknown_kind (AppKind.other s) ∷ []

unfoldable pub port_problems : List ℤ → List Problem
unfolding when
port_problems [] = []
port_problems (p ∷ ps) =
    when (ltb_ℤ p (pos 1) || ltb_ℤ (pos 65535) p) (port_out_of_range p) ++ port_problems ps

unfoldable pub health_problems : Option HealthCheck → List Problem
unfolding when
health_problems none = []
health_problems (some hc) = when (not (starts_with hc.url "http")) health_check_not_http

-- The empty list is the `nil` error.
unfoldable pub validate : AppDefinition → List Problem
unfolding when kind_problems port_problems health_problems
validate d =
    when (ltb_ℤ d.schema_version (pos 1) || ltb_ℤ app_def_schema_version d.schema_version)
      (bad_schema_version d.schema_version)
    ++ (when (is_blank d.name) name_required
        ++ (kind_problems d d.kind ++ (port_problems d.ports ++ health_problems d.health_check)))

-- What an acceptable definition is, with no reference to the order of the tests.
abbrev pub IsRunnable : AppDefinition → AppKind → Type 0
IsRunnable d AppKind.unset = is_blank d.cmd ≡ false
IsRunnable d AppKind.process = is_blank d.cmd ≡ false
IsRunnable d AppKind.docker = d.container_id ≢ ""
IsRunnable d AppKind.compose = d.compose_project ≢ ""
IsRunnable d (AppKind.other s) = ⊥

abbrev pub HasHttpCheck : Option HealthCheck → Type 0
HasHttpCheck none = Unit
HasHttpCheck (some hc) = starts_with hc.url "http" ≡ true

pub record IsWellFormed (d : AppDefinition) : Type 0 where
  pub version : d.schema_version ≡ app_def_schema_version
  pub named : is_blank d.name ≡ false
  pub runnable : IsRunnable d d.kind
  pub ports : All (λ p. (pos 1 ≤ℤ p) × (p ≤ℤ pos 65535)) d.ports
  pub health : HasHttpCheck d.health_check
