-- ===== src/Hub/State.antt =====
-- The hub's state: the records of PocketBase that its handlers read and write (hub/migrations), the
-- live connections of hub/internal/agenthub/registry.go, and the frames sent to agents, newest first.
-- PocketBase's answers (which records it stores, the ids it gives) are in `HubEnv`. A table lists its
-- records in the order of their creation.
use breakerbox.Prelude.{ℕ, String, Bool, List, ◌∷◌, Option, none, some, if◌then◌else◌}
use breakerbox.Prelude.Dict
use breakerbox.Prelude.Dict.{Dict}
use breakerbox.Protocol.{
  AppDefinition, AppKind, AppSpec, AppStatus, Approval, Cmd, DesiredState, Port, RestartPolicy,
  Verb,
}

pub data SystemStatus : Type 0 where
  online offline paused : SystemStatus

-- The fields of the systems collection that the handlers write.
pub record System : Type 0 where
  pub name : String
  pub public_key : String
  pub status : SystemStatus
  pub last_seen : ℕ
  pub agent_version : String
  pub os : String
  pub arch : String
  pub hostname : String
  pub capabilities : List String

-- apps; `definition` is none for a text that is no JSON of a definition.
pub record AppRecord : Type 0 where
  pub system : String
  pub name : String
  pub kind : AppKind
  pub definition : Option AppDefinition
  pub definition_hash : String
  pub approval : Approval
  pub desired_state : DesiredState
  pub status : AppStatus
  pub pid : ℕ
  pub started_at : Option ℕ
  pub ports : List Port
  pub restart_policy : Option RestartPolicy
  pub token_tracking : String

-- An error of a handler, or of a client's request.
pub data HubError : Type 0 where
  not_found save_failed write_failed not_connected invalid unauthorized : HubError

-- The texts of a command's `error` field.
pub data CommandError : Type 0 where
  no_error timed_out : CommandError
  dispatch_failed : HubError → CommandError
  reported : String → CommandError

pub data CommandStatus : Type 0 where
  pending dispatched acked done failed timeout : CommandStatus

-- protocol.CmdResult
pub record CommandResult : Type 0 where
  pub ok : Bool
  pub error : String

pub record Command : Type 0 where
  pub system : String
  pub app : String
  pub verb : Verb
  pub status : CommandStatus
  pub requested_by : String
  pub error : CommandError
  pub result : Option CommandResult
  pub updated : ℕ

-- Frames from the hub to an agent.
pub data HubFrame : Type 0 where
  hello_ack : ℕ → HubFrame
  app_sync : List AppSpec → HubFrame
  cmd : Cmd → HubFrame

pub record HubEnv : Type 0 where
  pub now : ℕ  -- milliseconds
  pub new_id : String
  pub system_saved : System → Bool
  pub app_saved : AppRecord → Bool
  pub command_saved : Command → Bool
  pub write_ok : ℕ → Bool  -- by connection

pub record Hub : Type 0 where
  pub conns : Dict ℕ  -- system ID to connection
  pub closed : List ℕ  -- superseded connections
  pub systems : Dict System
  pub apps : Dict AppRecord
  pub commands : Dict Command
  pub sent : List (ℕ × HubFrame)

abbrev pub Reply : Type 0
Reply = Hub × Option HubError

-- conn.send
unfoldable pub write : HubEnv → Hub → ℕ → HubFrame → Reply
write e h c f =
    if e.write_ok c then (record h { sent = (c, f) ∷ h.sent }, none) else (h, some write_failed)

-- app.Save of each kind of record
unfoldable pub save_system : HubEnv → Hub → String → System → Reply
save_system e h id s =
    if e.system_saved s
    then (record h { systems = Dict.put h.systems id s }, none)
    else (h, some save_failed)

unfoldable pub save_app : HubEnv → Hub → String → AppRecord → Reply
save_app e h id a =
    if e.app_saved a
    then (record h { apps = Dict.put h.apps id a }, none)
    else (h, some save_failed)

-- `updated` is the database's.
unfoldable pub save_command : HubEnv → Hub → String → Command → Reply
save_command e h id c =
    if e.command_saved c
    then (record h { commands = Dict.put h.commands id (record c { updated = e.now }) }, none)
    else (h, some save_failed)
