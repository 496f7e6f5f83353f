-- ===== src/Agent/Daemon/Restart.antt =====
-- restart.go: the crash-restart policy and the reconciliation of wanted and actual state.
use breakerbox.Prelude.{
  ℕ, suc, ◌-◌, ◌*◌, ◌^◌, min, String, Bool, true, false, List, [], ◌∷◌, Option, none, some, ◌==◌,
  ◌&&◌, not, if◌then◌else◌, ◌||◌,
}
use breakerbox.Prelude.Int.{ℤ, pos, negsuc, ltb_ℤ, wrap, ◌*ℤ◌, ◌-ℤ◌}
use breakerbox.Prelude.Dict
use breakerbox.Prelude.Dict.{Dict}
use breakerbox.Protocol.{AppStatus, DesiredState, RestartPolicy, is_approved, desired_eq, status_eq}
use breakerbox.Agent.Daemon.State.{
  AppState, Proc, RestartState, Timer, Env, Daemon, Error, is_docker_kind, stop_timer, without,
}
use breakerbox.Agent.Daemon.Apps.{send_event, send_event_with_restarts, start_app, is_alive}
use breakerbox.Agent.Daemon.Stops.{stop_app}

-- time.Duration, in nanoseconds
abbrev pub second : ℕ
second = 1_000_000_000

-- The results of policyFor.
pub record Policy : Type 0 where
  pub max_restarts : ℤ
  pub min_uptime : ℤ
  pub backoff_max : ℤ

abbrev pub default_policy : Policy
default_policy = record {
  max_restarts = pos 15;
  min_uptime = pos second;
  backoff_max = pos (60 * second);
}

-- `if s > 0 { … = time.Duration(s) * time.Second }`
unfoldable pub seconds_or : ℤ → ℤ → ℤ
unfolding wrap ◌*ℤ◌
seconds_or s default = if ltb_ℤ (pos 0) s then wrap (s *ℤ pos second) else default

unfoldable pub policy_for : Option RestartPolicy → Policy
unfolding seconds_or
policy_for none = default_policy
policy_for (some p) = record {
  max_restarts = p.max_restarts;
  min_uptime = seconds_or p.min_uptime_s default_policy.min_uptime;
  backoff_max = seconds_or p.backoff_max_s default_policy.backoff_max;
}

-- `!ok || app.DesiredState != running || app.Approval != approved`, negated
unfoldable pub still_wanted : Option AppState → Bool
unfolding desired_eq is_approved
still_wanted none = false
still_wanted (some app) =
    desired_eq app.desired_state DesiredState.running && is_approved app.approval

-- `!startedAt.IsZero() && time.Since(startedAt) >= minUptime`
unfoldable pub ran_healthily : ℕ → Option ℕ → ℤ → Bool
unfolding ◌-ℤ◌
ran_healthily now none min_uptime = false
ran_healthily now (some started) min_uptime = not (ltb_ℤ (pos now -ℤ pos started) min_uptime)

unfoldable pub state_or_new : Option RestartState → RestartState
state_or_new none = record { count = 0; timer = none }
state_or_new (some rs) = rs

-- `time.Second << uint(min(count-1, 30))`, capped; the shift is made in 64 bits.
unfoldable pub restart_delay : ℕ → ℤ → ℤ
unfolding wrap
restart_delay count backoff_max =
    let delay = wrap (pos (second * 2 ^ min (count - 1) 30)) in
    if ltb_ℤ backoff_max delay || not (ltb_ℤ (pos 0) delay) then backoff_max else delay

-- the crash count after one more crash
unfoldable pub next_count : Env → Option ℕ → RestartState → ℤ → ℕ
unfolding ran_healthily
next_count e started_at rs min_uptime =
    suc (if ran_healthily e.now started_at min_uptime then 0 else rs.count)

-- the goroutine of startApp that waits for the process: `d.procs[appID] == p`
unfoldable pub is_current : Option Proc → ℕ → Bool
is_current none handle = false
is_current (some p) handle = p.handle == handle

-- An entry of reconcile's list: the app, and whether it is started or stopped.
pub data Action : Type 0 where
  start stop : String → Action

-- `d.dockerStatus[id] == running`; a missing entry is no status.
is_status_running : Option AppStatus → Bool
unfolding status_eq
is_status_running none = false
is_status_running (some s) = status_eq s AppStatus.running

-- `rs == nil || rs.timer == nil`
unfoldable pub no_timer : Option RestartState → Bool
no_timer none = true
no_timer (some rs) = elim rs.timer [ none ↦ true | some t ↦ false ]

add_action : Option Action → List Action → List Action
add_action none rest = rest
add_action (some a) rest = a ∷ rest

module _ {F : Type 0} where
  -- from the second d.mu.Lock() of handleUnexpectedExit that sets the timer
  unfoldable pub schedule : Daemon F → String → RestartState → ℕ → ℤ → Daemon F
  unfolding stop_timer
  schedule d app_id rs count delay = record d {
    restarts = Dict.put d.restarts app_id (record { count = count; timer = some d.next_timer });
    timers =
        record { timer_id = d.next_timer; app = app_id; delay = delay }
        ∷ stop_timer rs.timer d.timers;
    next_timer = suc d.next_timer;
  }

  unfoldable pub crashed : Env → Daemon F → String → ℤ → RestartState → ℕ → Policy → Daemon F
  unfolding schedule restart_delay send_event_with_restarts
  crashed e d app_id exit_code rs count policy =
      let d1 : Daemon F = record d {
        restarts = Dict.put d.restarts app_id (record rs { count = count });
      } in
      if ltb_ℤ policy.max_restarts (pos count)
      then send_event_with_restarts e d1 app_id AppStatus.errored 0 (some exit_code) (count - 1)
      else schedule
          (send_event_with_restarts e d1 app_id AppStatus.backoff 0 (some exit_code) count) app_id
          rs count (restart_delay count policy.backoff_max)

  unfoldable pub exit_of : Env → Daemon F → String → ℤ → Option ℕ → Option AppState → Daemon F
  unfolding send_event crashed policy_for still_wanted next_count state_or_new
  exit_of e d app_id exit_code started_at none =
      send_event e d app_id AppStatus.stopped 0 (some exit_code)
  exit_of e d app_id exit_code started_at (some app) =
      let policy = policy_for app.definition.restart_policy in
      let rs = state_or_new (Dict.get d.restarts app_id) in
      if not (still_wanted (some app)) || not (ltb_ℤ (pos 0) policy.max_restarts)
      then send_event e d app_id AppStatus.stopped 0 (some exit_code)
      else crashed e d app_id exit_code rs (next_count e started_at rs policy.min_uptime) policy

  unfoldable pub handle_unexpected_exit : Env → Daemon F → String → ℤ → Daemon F
  unfolding exit_of
  handle_unexpected_exit e d app_id exit_code =
      exit_of e (record d { start_times = Dict.remove d.start_times app_id }) app_id exit_code
        (Dict.get d.start_times app_id) (Dict.get d.apps app_id)

  unfoldable pub proc_exited : Env → Daemon F → String → ℕ → ℤ → Daemon F
  unfolding is_current handle_unexpected_exit
  proc_exited e d app_id handle exit_code =
      if is_current (Dict.get d.procs app_id) handle
      then handle_unexpected_exit e (record d { procs = Dict.remove d.procs app_id }) app_id
          exit_code
      else d

  unfoldable pub restarted : Env → String → Daemon F → Option Error → Daemon F
  unfolding handle_unexpected_exit
  restarted e app_id d none = d
  restarted e app_id d (some err) = handle_unexpected_exit e d app_id (negsuc 0)

  -- the function given to time.AfterFunc
  unfoldable pub timer_fired : Env → Daemon F → Timer → Daemon F
  unfolding restarted start_app send_event still_wanted without
  timer_fired e d t =
      let d1 : Daemon F = record d { timers = without t.timer_id d.timers } in
      if still_wanted (Dict.get d1.apps t.app)
      then (let (d2, err) = start_app e d1 t.app in restarted e t.app d2 err)
      else send_event e d1 t.app AppStatus.stopped 0 none

  -- the `alive` of reconcile
  unfoldable pub seems_alive : Env → Daemon F → String → AppState → Bool
  unfolding is_status_running is_alive is_docker_kind
  seems_alive e d app_id app =
      if is_docker_kind app.definition.kind
      then is_status_running (Dict.get d.docker_status app_id)
      else is_alive e (Dict.get d.procs app_id)

  -- what reconcile does about one app, if anything
  unfoldable pub action_for : Env → Daemon F → String → AppState → Option Action
  unfolding seems_alive no_timer desired_eq is_approved
  action_for e d app_id app =
      if not (is_approved app.approval)
      then none
      else if desired_eq app.desired_state DesiredState.running && not (seems_alive e d app_id app)
      then (if no_timer (Dict.get d.restarts app_id) then some (start app_id) else none)
      else if desired_eq app.desired_state DesiredState.stopped && seems_alive e d app_id app
      then some (stop app_id)
      else none

  unfoldable pub actions : Env → Daemon F → Dict AppState → List Action
  unfolding action_for add_action
  actions e d [] = []
  actions e d ((app_id, app) ∷ rest) = add_action (action_for e d app_id app) (actions e d rest)

  unfoldable pub run_action : Env → Daemon F → Action → Daemon F
  unfolding start_app stop_app
  run_action e d (start app_id) = (start_app e d app_id).0
  run_action e d (stop app_id) = (stop_app e d app_id).0

  unfoldable pub run_actions : Env → Daemon F → List Action → Daemon F
  unfolding run_action
  run_actions e d [] = d
  run_actions e d (a ∷ rest) = run_actions e (run_action e d a) rest

  -- The actions are chosen in one critical section and run by a goroutine each; here they run in
  -- the order of the list.
  unfoldable pub reconcile : Env → Daemon F → Daemon F
  unfolding actions run_actions
  reconcile e d = run_actions e d (actions e d d.apps)
