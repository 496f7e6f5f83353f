-- ===== src/Agent/Daemon/Sync.antt =====
-- daemon.go (applyAppSync, execute) and loops.go (applySpoolOp): what the hub and the host's CLI
-- tell the daemon.
pub mod Known
use breakerbox.Prelude.{
  String, Bool, true, false, List, [], ◌∷◌, ◌++◌, Option, none, some, ◌||◌, not, if◌then◌else◌,
  str_eq,
}
use breakerbox.Prelude.Dict
use breakerbox.Prelude.Dict.{Dict}
use breakerbox.Protocol.{
  AppDefinition, Approval, DesiredState, Verb, AppSpec, Cmd, desired_eq, is_approved,
}
use breakerbox.Agent.Daemon.State.{
  AppState, Proc, stop_proc, cmd_ack, cmd_result, approval_event, app_register, Env, Daemon, Error,
  unknown_on_host, stale_hash, not_approved_on_host, bad_verb, failed, is_docker_kind, send, save,
  call,
}
use breakerbox.Agent.Daemon.Apps.{Outcome, start_app}
use breakerbox.Agent.Daemon.Stops.{stop_app, cancel_restart}

-- indexOf, and the removal of what was found
unfoldable pub take_out : String → List String → Option (List String)
take_out h [] = none
take_out h (x ∷ xs) =
    let rest = take_out h xs in
    if str_eq x h then some xs else elim rest [ none ↦ none | some ys ↦ some (x ∷ ys) ]

-- seen[id]
unfoldable pub seen : List AppSpec → String → Bool
seen [] app_id = false
seen (spec ∷ specs) app_id = str_eq spec.id app_id || seen specs app_id

-- appconfig.SpoolOp
pub data SpoolOp : Type 0 where
  import : Option AppDefinition → SpoolOp
  approve reject : String → SpoolOp
  other : String → SpoolOp

unfoldable pub new_state : AppSpec → Approval → AppState
new_state spec approval = record {
  definition = spec.definition;
  hash = spec.definition_hash;
  approval = approval;
  desired_state = spec.desired_state;
  token_tracking = spec.token_tracking;
  last_pid = 0;
  last_cmd_base = "";
}

module _ {F : Type 0} where
  -- "New app or changed definition", once the approval is decided
  unfoldable pub install : Daemon F → AppSpec → Approval → List String → Daemon F
  unfolding new_state send
  install d spec approval pre_approved =
      send
        (record d {
          apps = Dict.put d.apps spec.id (new_state spec approval);
          pre_approved = pre_approved;
        })
        (approval_event (record {
          app_id = spec.id;
          approval = approval;
          definition_hash = spec.definition_hash;
        }))

  unfoldable pub decide : Daemon F → AppSpec → Option (List String) → Daemon F
  unfolding install is_docker_kind
  decide d spec (some rest) = install d spec Approval.approved rest
  decide d spec none =
      install d spec
        (if is_docker_kind spec.definition.kind then Approval.approved else Approval.pending)
        d.pre_approved

  -- the hash is the one that is known
  unfoldable pub refresh : Daemon F → AppSpec → AppState → Daemon F × Bool
  unfolding desired_eq
  refresh d spec local =
      if not (desired_eq local.desired_state spec.desired_state)
        || not (str_eq local.token_tracking spec.token_tracking)
      then (
        record d {
          apps = Dict.put d.apps spec.id (record local {
            desired_state = spec.desired_state;
            token_tracking = spec.token_tracking;
          });
        },
        true,
      )
      else (d, false)

  unfoldable pub sync_local : Daemon F → AppSpec → Option AppState → Daemon F × Bool
  unfolding refresh decide take_out
  sync_local d spec none = (decide d spec (take_out spec.definition_hash d.pre_approved), true)
  sync_local d spec (some local) =
      if str_eq local.hash spec.definition_hash
      then refresh d spec local
      else (decide d spec (take_out spec.definition_hash d.pre_approved), true)

  -- one round of the loop over sync.Apps: the state, and whether it changed
  unfoldable pub sync_spec : Daemon F → AppSpec → Daemon F × Bool
  unfolding sync_local
  sync_spec d spec = sync_local d spec (Dict.get d.apps spec.id)

  unfoldable pub sync_specs : Daemon F → List AppSpec → Daemon F × Bool
  unfolding sync_spec
  sync_specs d [] = (d, false)
  sync_specs d (spec ∷ specs) =
      let (d1, changed) = sync_spec d spec in
      let (d2, more) = sync_specs d1 specs in (d2, changed || more)

  unfoldable pub drop_proc : Daemon F → String → Option Proc → Daemon F
  unfolding call
  drop_proc d app_id none = d
  drop_proc d app_id (some p) = record d {
    procs = Dict.remove d.procs app_id;
    calls = stop_proc app_id p.handle ∷ d.calls;
  }

  -- "Apps removed on the hub: stop and forget."
  unfoldable pub forget : Daemon F → String → Daemon F
  unfolding drop_proc cancel_restart
  forget d app_id =
      let d1 = cancel_restart (drop_proc d app_id (Dict.get d.procs app_id)) app_id in
      record d1 { apps = Dict.remove d1.apps app_id }

  unfoldable pub forget_unseen : Daemon F → List AppSpec → Dict AppState → Daemon F × Bool
  unfolding forget seen
  forget_unseen d specs [] = (d, false)
  forget_unseen d specs ((app_id, app) ∷ rest) =
      let (d1, changed) = forget_unseen d specs rest in
      if seen specs app_id then (d1, changed) else (forget d1 app_id, true)

  -- applyAppSync
  unfoldable pub apply_app_sync : Env → Daemon F → List AppSpec → Daemon F
  unfolding sync_specs forget_unseen save
  apply_app_sync e d specs =
      let (d1, changed) = sync_specs d specs in
      let (d2, removed) = forget_unseen d1 specs d1.apps in
      if changed || removed then save e d2 else d2

  unfoldable pub persist_known : Env → Daemon F → String → DesiredState → Option AppState → Daemon F
  unfolding save desired_eq
  persist_known e d app_id ds none = d
  persist_known e d app_id ds (some a) =
      if desired_eq a.desired_state ds
      then d
      else save e (record d { apps = Dict.put d.apps app_id (record a { desired_state = ds }) })

  -- persistDesired
  unfoldable pub persist_desired : Env → Daemon F → String → DesiredState → Daemon F
  unfolding persist_known
  persist_desired e d app_id ds = persist_known e d app_id ds (Dict.get d.apps app_id)

  -- VerbRestart: the start follows a stop that did not fail
  unfoldable pub restart_after : Env → String → Daemon F → Option Error → Outcome F
  unfolding start_app
  restart_after e app_id d none = start_app e d app_id
  restart_after e app_id d (some err) = (d, some err)

  unfoldable pub answer : String → Daemon F → Option Error → Daemon F
  unfolding send
  answer cmd_id d none = send d (cmd_result cmd_id none)
  answer cmd_id d (some err) = send d (cmd_result cmd_id (some (failed err)))

  unfoldable pub run_verb : Env → Daemon F → Cmd → Verb → Daemon F
  unfolding persist_desired start_app stop_app restart_after answer send
  run_verb e d cmd Verb.start =
      let (d1, err) =
        start_app e (persist_desired e d cmd.app_id DesiredState.running) cmd.app_id in
      answer cmd.cmd_id d1 err
  run_verb e d cmd Verb.stop =
      let (d1, err) = stop_app e (persist_desired e d cmd.app_id DesiredState.stopped) cmd.app_id in
      answer cmd.cmd_id d1 err
  run_verb e d cmd Verb.restart =
      let (d1, err) = stop_app e (persist_desired e d cmd.app_id DesiredState.running) cmd.app_id in
      let (d2, err') = restart_after e cmd.app_id d1 err in answer cmd.cmd_id d2 err'
  run_verb e d cmd (Verb.other v) = send d (cmd_result cmd.cmd_id (some bad_verb))

  unfoldable pub execute_on : Env → Daemon F → Cmd → Option AppState → Daemon F
  unfolding run_verb is_approved send
  execute_on e d cmd none = send d (cmd_result cmd.cmd_id (some unknown_on_host))
  execute_on e d cmd (some app) =
      if not (str_eq app.hash cmd.definition_hash)
      then send d (cmd_result cmd.cmd_id (some stale_hash))
      else if not (is_approved app.approval)
      then send d (cmd_result cmd.cmd_id (some not_approved_on_host))
      else run_verb e d cmd cmd.verb

  -- execute
  unfoldable pub execute : Env → Daemon F → Cmd → Daemon F
  unfolding execute_on send
  execute e d cmd =
      let d1 = send d (cmd_ack cmd.cmd_id) in execute_on e d1 cmd (Dict.get d1.apps cmd.app_id)

  -- the end of applySpoolOp for "approve" and "reject"
  unfoldable pub set_approval : Env → Daemon F → String → Approval → Option AppState → Daemon F
  unfolding save send
  set_approval e d app_id choice none = d
  set_approval e d app_id choice (some app) =
      send (save e (record d { apps = Dict.put d.apps app_id (record app { approval = choice }) }))
        (approval_event (record { app_id = app_id; approval = choice; definition_hash = app.hash }))

  -- applySpoolOp; `hash` is AppDefinition.Hash, the SHA-256 of the JSON text.
  unfoldable pub apply_spool_op : (AppDefinition → String) → Env → Daemon F → SpoolOp → Daemon F
  unfolding set_approval send
  apply_spool_op hash e d (import none) = d
  apply_spool_op hash e d (import (some def)) =
      send (record d { pre_approved = d.pre_approved ++ hash def ∷ [] }) (app_register def)
  apply_spool_op hash e d (approve app_id) =
      set_approval e d app_id Approval.approved (Dict.get d.apps app_id)
  apply_spool_op hash e d (reject app_id) =
      set_approval e d app_id Approval.rejected (Dict.get d.apps app_id)
  apply_spool_op hash e d (SpoolOp.other op) = d
