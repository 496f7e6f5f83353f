-- ===== src/Agent/Daemon/Crashes/Rounds.antt =====
-- restart.go: rounds of an app that exits early and is started again by its timer.
use breakerbox.Prelude.{
  ℕ, suc, ◌⊎◌, ◌+◌, ◌≤◌, min, String, true, List, [], ◌∷◌, Option, none, some, ◌≡◌, if◌then◌else◌,
  str_eq,
}
use breakerbox.Prelude.Int.{ℤ, pos, ◌<ℤ◌, ◌-ℤ◌}
use breakerbox.Prelude.Dict
use breakerbox.Protocol.{AppDefinition}
use breakerbox.Agent.Daemon.State.{AppState, Call, Daemon, Env, EnvVar, Proc, Timer, spawn, without}
use breakerbox.Agent.Daemon.Restart.{
  policy_for, proc_exited, state_or_new, still_wanted, timer_fired,
}

-- The timer of the app among those that are pending.
abbrev pub pending_of : String → List Timer → Option Timer
pending_of app_id [] = none
pending_of app_id (t ∷ ts) =
    let rest = pending_of app_id ts in if str_eq t.app app_id then some t else rest

-- How many processes of the app were started.
abbrev pub spawns : String → List Call → ℕ
spawns app_id [] = 0
spawns app_id (spawn id def env ∷ calls) =
    let rest = spawns app_id calls in if str_eq id app_id then suc rest else rest
spawns app_id (_ ∷ calls) = spawns app_id calls

-- The host can start a process of the app.
abbrev pub CanStart : AppDefinition → Env → Type 0
CanStart def e = (e.log_ok ≡ true) × ((env : List EnvVar) → (pid : ℕ) × (e.exec def env ≡ some pid))

-- The process of a round exits earlier than `min_uptime` after it was started, and the host can start
-- a process when the timer fires.
abbrev pub AllEarly : AppDefinition → ℕ → List (Env × Env) → Type 0
AllEarly def start [] = Unit
AllEarly def start ((exits, fires) ∷ rest) =
    (pos exits.now -ℤ pos start <ℤ (policy_for def.restart_policy).min_uptime)
    × CanStart def fires
    × AllEarly def fires.now rest

-- One timer of the app is pending, and no other of it.
abbrev pub IsArmed : String → List Timer → Type 0
IsArmed app_id ts =
    (t : Timer) × (pending_of app_id ts ≡ some t)
    × (t.app ≡ app_id)
    × (pending_of app_id (without t.timer_id ts) ≡ none)

module _ {F : Type 0} where
  abbrev pub fire_pending : Env → Daemon F → Option Timer → Daemon F
  fire_pending e d none = d
  fire_pending e d (some t) = timer_fired e d t

module _ {F : Type 0} (app_id : String) where
  abbrev pub crash_count : Daemon F → ℕ
  crash_count d = (state_or_new (Dict.get d.restarts app_id)).count

  -- A crash touches no app, process or call.
  abbrev pub Keeps : Daemon F → Daemon F → Type 0
  Keeps d c = (c.apps ≡ d.apps) × (c.procs ≡ d.procs) × (c.calls ≡ d.calls)

  -- the daemon without the app's process
  abbrev pub without_proc : Daemon F → Daemon F
  without_proc d = record d {
    procs = Dict.remove d.procs app_id;
    start_times = Dict.remove d.start_times app_id;
  }

  -- No process and no pending timer.
  pub record IsDown (d : Daemon F) : Type 0 where
    pub no_proc : Dict.get d.procs app_id ≡ none
    pub no_timer : pending_of app_id d.timers ≡ none

  -- `k` more restarts, or as many as are left, and then the app is down.
  abbrev pub Restarts : ℕ → ℕ → Daemon F → Daemon F → Type 0
  Restarts k left d after =
      (spawns app_id after.calls ≡ spawns app_id d.calls + min k left) × ((k ≤ left) ⊎ IsDown after)

module _ {F : Type 0} (app_id : String) (def : AppDefinition) where
  -- Approved and wanted, with this definition and no pending timer.
  pub record Idle (d : Daemon F) (count : ℕ) : Type 0 where
    pub app : AppState
    pub known : Dict.get d.apps app_id ≡ some app
    pub same : app.definition ≡ def
    pub wanted : still_wanted (some app) ≡ true
    pub counted : crash_count app_id d ≡ count
    pub quiet : pending_of app_id d.timers ≡ none

  -- That, and running since `start`.
  pub record IsRunning (d : Daemon F) (count start : ℕ) : Type 0 where
    pub idle : Idle d count
    pub proc : Proc
    pub here : Dict.get d.procs app_id ≡ some proc
    pub since : Dict.get d.start_times app_id ≡ some start

module _ {F : Type 0} (app_id : String) (code : ℤ) where
  -- The process of the app exits, if it has one, and then its pending timer fires, if it has one.
  abbrev pub exit_current : Env → Daemon F → Option Proc → Daemon F
  exit_current e d none = d
  exit_current e d (some p) = proc_exited e d app_id p.handle code

  abbrev pub round : Env × Env → Daemon F → Daemon F
  round (exits, fires) d =
      let d1 = exit_current exits d (Dict.get d.procs app_id) in
      fire_pending fires d1 (pending_of app_id d1.timers)

  unfoldable pub rounds : Daemon F → List (Env × Env) → Daemon F
  rounds d [] = d
  rounds d (r ∷ rest) = rounds (round r d) rest
