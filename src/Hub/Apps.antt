-- ===== src/Hub/Apps.antt =====
-- The apps collection: sendAppSync and onAppEvent of hub/internal/agenthub/hub.go, onAppRegister and
-- onApprovalEvent of agenthub/apps.go, and the request of hub/internal/appsapi. `hash` is
-- AppDefinition.Hash. A stored definition reads back as it was.
pub mod Labels
pub mod Approvals
use breakerbox.Prelude.{
  ℕ, String, Bool, true, false, not, ◌&&◌, List, [], ◌∷◌, ◌++◌, Option, none, some, ◌==◌,
  if◌then◌else◌, str_eq, take,
}
use breakerbox.Prelude.Int.{ℤ, pos, eq_ℤ}
use breakerbox.Prelude.Dict
use breakerbox.Prelude.Dict.{Dict}
use breakerbox.Protocol.{
  AppDefinition, AppEvent, AppKind, AppSpec, AppStatus, Approval, ApprovalEvent, DesiredState,
  status_eq,
}
use breakerbox.Protocol.Validate.{Problem, app_def_schema_version, validate}
use breakerbox.Hub.State.{
  AppRecord, Hub, HubEnv, HubError, Reply, System, app_sync, invalid, not_found, save_app,
  unauthorized, write,
}

-- `system = {:system}`, `-created`, at most 500: the newest records first
unfoldable pub records_of : String → Dict AppRecord → Dict AppRecord
records_of system [] = []
records_of system ((id, a) ∷ rest) =
    let later = records_of system rest in
    if str_eq a.system system then later ++ (id, a) ∷ [] else later

unfoldable pub add_spec : String → AppRecord → Option AppDefinition → List AppSpec → List AppSpec
add_spec id a none specs = specs
add_spec id a (some def) specs =
    record {
      id = id;
      definition = def;
      definition_hash = a.definition_hash;
      desired_state = a.desired_state;
      token_tracking = a.token_tracking;
    }
    ∷ specs

unfoldable pub specs_of : Dict AppRecord → List AppSpec
unfolding add_spec
specs_of [] = []
specs_of ((id, a) ∷ rest) = add_spec id a a.definition (specs_of rest)

-- sendAppSync on a connection of the system
unfoldable pub send_app_sync : HubEnv → Hub → String → ℕ → Reply
unfolding specs_of records_of write
send_app_sync e h system c = write e h c (app_sync (specs_of (take 500 (records_of system h.apps))))

-- SyncSystem
unfoldable pub sync_to : HubEnv → Hub → String → Option ℕ → Hub
unfolding send_app_sync
sync_to e h system none = h
sync_to e h system (some c) = (send_app_sync e h system c).0

unfoldable pub sync_system : HubEnv → Hub → String → Hub
unfolding sync_to
sync_system e h system = sync_to e h system (Dict.get h.conns system)

-- `if kind == "" { kind = KindProcess }`
unfoldable pub kind_or_process : AppKind → AppKind
kind_or_process AppKind.unset = AppKind.process
kind_or_process k = k

-- FindFirstRecordByFilter: system = … && definition_hash = …
unfoldable pub is_registered : String → String → Dict AppRecord → Bool
is_registered system hash [] = false
is_registered system hash ((id, a) ∷ rest) =
    let later = is_registered system hash rest in
    if str_eq a.system system && str_eq a.definition_hash hash then true else later

-- a new record of an imported definition
unfoldable pub registered : (AppDefinition → String) → String → AppDefinition → AppRecord
unfolding kind_or_process
registered hash system def = record {
  system = system;
  name = def.name;
  kind = kind_or_process def.kind;
  definition = some def;
  definition_hash = hash def;
  approval = Approval.approved;
  desired_state = DesiredState.stopped;
  status = AppStatus.stopped;
  pid = 0;
  started_at = none;
  ports = [];
  restart_policy = def.restart_policy;
  token_tracking = "";
}

-- the reply to a stored record
unfoldable pub then_sync : HubEnv → String → ℕ → Reply → Reply
unfolding send_app_sync
then_sync e system c (h, none) = send_app_sync e h system c
then_sync e system c (h, some err) = (h, some err)

unfoldable pub register_checked :
    (AppDefinition → String) → HubEnv → Hub → String → ℕ → AppDefinition → List Problem → Reply
unfolding then_sync send_app_sync is_registered registered save_app
register_checked hash e h system c def (p ∷ ps) = (h, some invalid)
register_checked hash e h system c def [] =
    if is_registered system (hash def) h.apps
    then send_app_sync e h system c
    else then_sync e system c (save_app e h e.new_id (registered hash system def))

-- onAppRegister
unfoldable pub on_app_register :
    (AppDefinition → String) → HubEnv → Hub → String → ℕ → AppDefinition → Reply
unfolding register_checked
on_app_register hash e h system c def = register_checked hash e h system c def (validate def)

unfoldable pub approve_found : HubEnv → Hub → ApprovalEvent → Option AppRecord → Reply
unfolding save_app
approve_found e h ev none = (h, some not_found)
approve_found e h ev (some a) =
    if str_eq a.definition_hash ev.definition_hash
    then save_app e h ev.app_id (record a { approval = ev.approval })
    else (h, none)

-- onApprovalEvent
unfoldable pub on_approval_event : HubEnv → Hub → ApprovalEvent → Reply
unfolding approve_found
on_approval_event e h ev = approve_found e h ev (Dict.get h.apps ev.app_id)

unfoldable pub event_found : HubEnv → Hub → AppEvent → Option AppRecord → Reply
unfolding save_app status_eq
event_found e h ev none = (h, some not_found)
event_found e h ev (some a) = save_app e h ev.app_id (record a {
  status = ev.status;
  pid = ev.pid;
  started_at = if status_eq ev.status AppStatus.running then some e.now else a.started_at;
  ports = ev.ports;
})

-- onAppEvent
unfoldable pub on_app_event : HubEnv → Hub → AppEvent → Reply
unfolding event_found
on_app_event e h ev = event_found e h ev (Dict.get h.apps ev.app_id)

-- The body of POST /api/bb/apps.
pub record AppRequest : Type 0 where
  pub system : String
  pub app_id : String
  pub definition : AppDefinition

-- the defaults of the request's definition
unfoldable pub completed : AppDefinition → AppDefinition
unfolding kind_or_process
completed def = record def {
  schema_version =
      if eq_ℤ def.schema_version (pos 0) then app_def_schema_version else def.schema_version;
  kind = kind_or_process def.kind;
}

unfoldable pub with_definition : (AppDefinition → String) → AppDefinition → AppRecord → AppRecord
with_definition hash def a = record a {
  name = def.name;
  kind = def.kind;
  definition = some def;
  definition_hash = hash def;
}

unfoldable pub blank_app : String → AppRecord
blank_app system = record {
  system = system;
  name = "";
  kind = AppKind.unset;
  definition = none;
  definition_hash = "";
  approval = Approval.pending;
  desired_state = DesiredState.stopped;
  status = AppStatus.unknown;
  pid = 0;
  started_at = none;
  ports = [];
  restart_policy = none;
  token_tracking = "";
}

-- "Definition changed: approval resets until the host re-approves"
unfoldable pub reset_approval : String → AppRecord → AppRecord
reset_approval hash a =
    if str_eq a.definition_hash hash then a else record a { approval = Approval.pending }

-- the push to a live agent of the system that the request names, once the record is saved
unfoldable pub then_push : HubEnv → String → Reply → Reply
unfolding sync_system
then_push e system (h, none) = (sync_system e h system, none)
then_push e system (h, some err) = (h, some err)

unfoldable pub store_definition :
    (AppDefinition → String) → HubEnv → Hub → String → String → AppDefinition → AppRecord → Reply
unfolding save_app then_push with_definition
store_definition hash e h system id def a =
    then_push e system (save_app e h id (with_definition hash def a))

unfoldable pub update_found :
    (AppDefinition → String) → HubEnv → Hub → AppRequest → AppDefinition → Option AppRecord → Reply
unfolding store_definition reset_approval
update_found hash e h req def none = (h, some invalid)
update_found hash e h req def (some a) =
    store_definition hash e h req.system req.app_id def (reset_approval (hash def) a)

-- the request once its definition is valid and its system is looked up
unfoldable pub put_found :
    (AppDefinition → String) → HubEnv → Hub → AppRequest → AppDefinition → Option System → Reply
unfolding store_definition update_found blank_app
put_found hash e h req def none = (h, some invalid)
put_found hash e h req def (some s) =
    if str_eq req.app_id ""
    then store_definition hash e h req.system e.new_id def (blank_app req.system)
    else update_found hash e h req def (Dict.get h.apps req.app_id)

unfoldable pub put_checked :
    (AppDefinition → String) → HubEnv → Hub → AppRequest → AppDefinition → List Problem → Reply
unfolding put_found
put_checked hash e h req def (p ∷ ps) = (h, some invalid)
put_checked hash e h req def [] = put_found hash e h req def (Dict.get h.systems req.system)

-- POST /api/bb/apps
unfoldable pub put_app : (AppDefinition → String) → HubEnv → Hub → Bool → AppRequest → Reply
unfolding put_checked completed
put_app hash e h authed req =
    if authed
    then (let def = completed req.definition in put_checked hash e h req def (validate def))
    else (h, some unauthorized)
