-- ===== src/Hub/Commands.antt =====
-- The commands collection: the request hook and the sweeper of hub/internal/commands, and of
-- hub/internal/agenthub/hub.go the dispatch after a record is created and onCmdUpdate.
pub mod Lifecycle
use breakerbox.Prelude.{
  ℕ, ◌-◌, String, Bool, true, false, not, ◌&&◌, ◌||◌, List, [], ◌∷◌, Option, none, some, ltb, take,
  if◌then◌else◌,
}
use breakerbox.Prelude.Dict
use breakerbox.Prelude.Dict.{Dict}
use breakerbox.Protocol.{AppDefinition, Cmd, DesiredState, Verb, is_approved, valid_verb}
use breakerbox.Hub.State.{
  AppRecord, Command, CommandError, dispatch_failed, no_error, reported, CommandResult,
  CommandStatus, Hub, HubEnv, HubError, Reply, invalid, not_connected, not_found, save_app,
  save_command, save_failed, write_failed,
}
use breakerbox.Hub.Registry.{dispatch}

-- What the request says of a command. The fields after `auth` are the client's; only `requested_by` is
-- set by the hook, and not without a user.
pub record CommandRequest : Type 0 where
  pub app : String
  pub verb : Verb
  pub auth : Option String  -- the id of the signed-in user
  pub requested_by : String
  pub error : CommandError
  pub result : Option CommandResult

requester : CommandRequest → Option String → String
requester req none = req.requested_by
requester req (some id) = id

-- "Toggling desired_state rides along": a failed save is not an error
unfoldable pub record_intent : HubEnv → Hub → String → AppRecord → Verb → Hub
unfolding save_app
record_intent e h app a Verb.start =
    (save_app e h app (record a { desired_state = DesiredState.running })).0
record_intent e h app a Verb.stop =
    (save_app e h app (record a { desired_state = DesiredState.stopped })).0
record_intent e h app a _ = h

unfoldable pub pending_command : HubEnv → CommandRequest → AppRecord → Command
unfolding requester
pending_command e req a = record {
  system = a.system;
  app = req.app;
  verb = req.verb;
  status = CommandStatus.pending;
  requested_by = requester req req.auth;
  error = req.error;
  result = req.result;
  updated = e.now;
}

unfoldable pub definition_hash_of : Option AppRecord → String
definition_hash_of none = ""
definition_hash_of (some a) = a.definition_hash

unfoldable pub after_dispatch : Command → Option HubError → Command
after_dispatch c none = record c { status = CommandStatus.dispatched }
after_dispatch c (some err) = record c {
  status = CommandStatus.failed;
  error = dispatch_failed err;
}

-- OnRecordAfterCreateSuccess("commands")
unfoldable pub dispatch_created : HubEnv → Hub → String → Command → Hub
unfolding dispatch save_command after_dispatch definition_hash_of
dispatch_created e h id c =
    let (h1, err) = dispatch e h c.system (record {
      cmd_id = id;
      app_id = c.app;
      verb = c.verb;
      definition_hash = definition_hash_of (Dict.get h.apps c.app);
    }) in
    (save_command e h1 id (after_dispatch c err)).0

-- e.Next(): the record is stored, and then dispatched
unfoldable pub then_dispatch : HubEnv → String → Command → Reply → Reply
unfolding dispatch_created
then_dispatch e id c (h, none) = (dispatch_created e h id c, none)
then_dispatch e id c (h, some err) = (h, some err)

unfoldable pub create_for : HubEnv → Hub → CommandRequest → Option AppRecord → Reply
unfolding then_dispatch save_command record_intent pending_command is_approved
create_for e h req none = (h, some invalid)
create_for e h req (some a) =
    if not (is_approved a.approval)
    then (h, some invalid)
    else (let c = pending_command e req a in
        then_dispatch e e.new_id c
          (save_command e (record_intent e h req.app a req.verb) e.new_id c))

-- OnRecordCreateRequest("commands")
unfoldable pub create_command : HubEnv → Hub → CommandRequest → Reply
unfolding create_for valid_verb
create_command e h req =
    if not (valid_verb req.verb)
    then (h, some invalid)
    else create_for e h req (Dict.get h.apps req.app)

unfoldable pub acked : HubEnv → Hub → String → Option Command → Reply
unfolding save_command
acked e h id none = (h, some not_found)
acked e h id (some c) = save_command e h id (record c { status = CommandStatus.acked })

-- onCmdUpdate for a cmd_ack
unfoldable pub on_cmd_ack : HubEnv → Hub → String → Reply
unfolding acked
on_cmd_ack e h id = acked e h id (Dict.get h.commands id)

unfoldable pub finished : Command → CommandResult → Command
finished c res =
    if res.ok
    then record c { status = CommandStatus.done; result = some res }
    else record c { status = CommandStatus.failed; error = reported res.error; result = some res }

unfoldable pub resulted : HubEnv → Hub → String → CommandResult → Option Command → Reply
unfolding save_command finished
resulted e h id res none = (h, some not_found)
resulted e h id res (some c) = save_command e h id (finished c res)

-- onCmdUpdate for a cmd_result
unfoldable pub on_cmd_result : HubEnv → Hub → String → CommandResult → Reply
unfolding resulted
on_cmd_result e h id res = resulted e h id res (Dict.get h.commands id)

-- dispatchTimeout, in milliseconds
abbrev pub dispatch_timeout : ℕ
dispatch_timeout = 60_000

unfoldable pub is_waiting : CommandStatus → Bool
is_waiting CommandStatus.dispatched = true
is_waiting CommandStatus.acked = true
is_waiting _ = false

-- the sweeper's filter
unfoldable pub is_stale : ℕ → Command → Bool
unfolding is_waiting
is_stale now c = is_waiting c.status && ltb c.updated (now - dispatch_timeout)

unfoldable pub stale_commands : ℕ → Dict Command → Dict Command
unfolding is_stale
stale_commands now [] = []
stale_commands now ((id, c) ∷ cs) =
    let rest = stale_commands now cs in if is_stale now c then (id, c) ∷ rest else rest

unfoldable pub timed_out : Command → Command
timed_out c = record c { status = CommandStatus.timeout; error = CommandError.timed_out }

unfoldable pub sweep_all : HubEnv → Hub → Dict Command → Hub
unfolding save_command timed_out
sweep_all e h [] = h
sweep_all e h ((id, c) ∷ cs) = sweep_all e (save_command e h id (timed_out c)).0 cs

-- commands_timeout_sweeper, at most 200 records in one pass
unfoldable pub sweep : HubEnv → Hub → Hub
unfolding sweep_all stale_commands
sweep e h = sweep_all e h (take 200 (stale_commands e.now h.commands))
