-- ===== src/Protocol/Tests.antt =====
-- Runs of `validate`.
use breakerbox.Prelude.{[], ◌∷◌, none, ◌≡◌, refl, ◌↔◌}
use breakerbox.Prelude.Int.{pos}
use breakerbox.Protocol.{AppDefinition, AppKind}
use breakerbox.Protocol.Validate.{
  validate, is_blank, is_space, IsWellFormed, port_out_of_range, cmd_required,
}
use breakerbox.Protocol.Validate.Exact.{validate_exact}

abbrev server : AppDefinition
server = record {
  schema_version = pos 1;
  name = "web";
  kind = AppKind.process;
  cmd = "node";
  args = [];
  cwd = "/srv";
  env = [];
  ports = pos 8080 ∷ [];
  health_check = none;
  stop = none;
  restart_policy = none;
  container_id = "";
  compose_project = "";
  compose_file = "";
}

every_problem_is_reported :
    validate (record server { cmd = " "; ports = pos 0 ∷ pos 80 ∷ pos 70000 ∷ [] })
    ≡ cmd_required ∷ port_out_of_range (pos 0) ∷ port_out_of_range (pos 70000) ∷ []
unfolding validate is_blank is_space
every_problem_is_reported = refl

validate_exact_example : (validate server ≡ []) ↔ IsWellFormed server
validate_exact_example = validate_exact server
