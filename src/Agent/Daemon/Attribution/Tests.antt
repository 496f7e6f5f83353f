-- ===== src/Agent/Daemon/Attribution/Tests.antt =====
-- Two apps, one in the directory of the other.
use breakerbox.Prelude.{ℕ, String, [], ◌∷◌, none, ◌≡◌, ◌⊎◌, ◌<◌, refl, str_eq, if◌then◌else◌, Any}
use breakerbox.Prelude.Int.{pos}
use breakerbox.Prelude.Dict.{AllEntries, Dict}
use breakerbox.Protocol.{AppKind, Approval, DesiredState}
use breakerbox.Agent.Daemon.State.{AppState}
use breakerbox.Agent.Daemon.Attribution.{Paths, resolve_app_by_cwd, resolved}
use breakerbox.Agent.Daemon.Attribution.Longest.{Around, Beaten, resolve-Deepest}

abbrev app_in : String → AppState
app_in dir = record {
  definition = record {
    schema_version = pos 1;
    name = "web";
    kind = AppKind.process;
    cmd = "node";
    args = [];
    cwd = dir;
    env = [];
    ports = [];
    health_check = none;
    stop = none;
    restart_policy = none;
    container_id = "";
    compose_project = "";
    compose_file = "";
  };
  hash = "web";
  approval = Approval.approved;
  desired_state = DesiredState.running;
  token_tracking = "";
  last_pid = 0;
  last_cmd_base = "";
}

abbrev nested : Dict AppState
nested = ("outer", app_in "/a") ∷ ("inner", app_in "/a/b") ∷ ("none", app_in "") ∷ []

abbrev plain_paths : Paths
plain_paths = record {
  bytes = λ s.
      if str_eq s "/a"
      then 47 ∷ 97 ∷ []
      else if str_eq s "/a/b"
      then 47 ∷ 97 ∷ 47 ∷ 98 ∷ []
      else if str_eq s "/a/b/c"
      then 47 ∷ 97 ∷ 47 ∷ 98 ∷ 47 ∷ 99 ∷ []
      else 47 ∷ 97 ∷ 98 ∷ [];
  eval_symlinks = λ path. none;
}

inner_found : resolve_app_by_cwd plain_paths nested "/a/b/c" ≡ "inner"
unfolding resolve_app_by_cwd
inner_found = refl

-- "/ab" is not in "/a".
sibling_is_unmatched : resolve_app_by_cwd plain_paths nested "/ab" ≡ ""
unfolding resolve_app_by_cwd
sibling_is_unmatched = refl

resolve-Deepest_example :
    let at = resolved plain_paths (plain_paths.bytes "/a/b/c") in
    let id = resolve_app_by_cwd plain_paths nested "/a/b/c" in
    (n : ℕ) × AllEntries (λ j app. Beaten plain_paths at n app) nested
    × (((n ≡ 0) × (id ≡ ""))
        ⊎ (0 < n)
          × Any (λ (e : String × AppState). (e.0 ≡ id) × Around plain_paths at n e.1) nested)
resolve-Deepest_example = resolve-Deepest plain_paths nested "/a/b/c" refl
