-- ===== src/Agent/Daemon/Crashes/Loop.antt =====
-- restart.go: an app that crashes again and again is started again until the policy gives up.
use breakerbox.Prelude.{
  ℕ, zero, suc, ◌+◌, ◌≤◌, ◌<◌, String, false, List, [], ◌∷◌, ◌≡◌, refl, arith, length, ◌∙◌, sym, ap,
  subst, inl, inr, str_eq,
}
use breakerbox.Prelude.Int.{ℤ, pos, ◌<ℤ◌, ◌-ℤ◌}
use breakerbox.Prelude.Dict
use breakerbox.Prelude.Dict.{get-remove_self}
use breakerbox.Protocol.{AppDefinition}
use breakerbox.Agent.Daemon.State.{Daemon, Env, is_docker_kind}
use breakerbox.Agent.Daemon.Restart.{crashed, policy_for, state_or_new}
use breakerbox.Agent.Daemon.Crashes.Rounds.{
  AllEarly, CanStart, IsDown, IsRunning, Restarts, exit_current, fire_pending, pending_of, round,
  rounds, spawns, without_proc,
}
use breakerbox.Agent.Daemon.Crashes.Exits.{crashed-IsArmed, crashed-over, exit_lem}
use breakerbox.Agent.Daemon.Crashes.Starts.{fired-IsRunning}

module _ {F : Type 0} (app_id : String) (code : ℤ) (def : AppDefinition) (m : ℕ)
    (limit : (policy_for def.restart_policy).max_restarts ≡ pos m) (some_restarts : 0 < m)
    (process : is_docker_kind def.kind ≡ false) (command : str_eq def.cmd "" ≡ false) where
  round_runs :
      (exits fires : Env) (d : Daemon F) (count start : ℕ)
      → IsRunning app_id def d count start
      → pos exits.now -ℤ pos start <ℤ (policy_for def.restart_policy).min_uptime
      → CanStart def fires
      → suc count ≤ m
      → let r = round app_id code (exits, fires) d in
        IsRunning app_id def r (suc count) fires.now
        × (spawns app_id r.calls ≡ suc (spawns app_id d.calls))
  round_runs exits fires d count start r early can room =
      let d0 = without_proc app_id d in
      let rs = state_or_new (Dict.get d.restarts app_id) in
      let c = crashed exits d0 app_id code rs (suc count) (policy_for def.restart_policy) in
      let ((apps, procs, calls), counted, is_armed) =
        crashed-IsArmed app_id code def m limit some_restarts exits d0 rs (suc count) room
          r.idle.quiet in
      let (runs, once) =
        fired-IsRunning app_id def process command fires c r.idle.app (suc count)
          (ap (λ a. Dict.get a app_id) apps ∙ r.idle.known) r.idle.same r.idle.wanted
          (ap (λ a. Dict.get a app_id) procs ∙ get-remove_self d.procs app_id) counted is_armed
          can in
      subst
        (λ (x : Daemon F).
          let z = fire_pending fires x (pending_of app_id x.timers) in
          IsRunning app_id def z (suc count) fires.now
          × (spawns app_id z.calls ≡ suc (spawns app_id d.calls)))
        (sym (exit_lem app_id code def m limit some_restarts exits d count start r early))
        (runs, once ∙ ap (λ a. suc (spawns app_id a)) calls)

  round_ends :
      (exits fires : Env) (d : Daemon F) (count start : ℕ)
      → IsRunning app_id def d count start
      → pos exits.now -ℤ pos start <ℤ (policy_for def.restart_policy).min_uptime
      → m < suc count
      → let r = round app_id code (exits, fires) d in
        IsDown app_id r × (spawns app_id r.calls ≡ spawns app_id d.calls)
  round_ends exits fires d count start r early over =
      let d0 = without_proc app_id d in
      let rs = state_or_new (Dict.get d.restarts app_id) in
      let c = crashed exits d0 app_id code rs (suc count) (policy_for def.restart_policy) in
      let ((apps, procs, calls), timers) =
        crashed-over app_id code def m limit some_restarts exits d0 rs (suc count) over in
      let no_timer = ap (pending_of app_id) timers ∙ r.idle.quiet in
      subst
        (λ (x : Daemon F).
          let z = fire_pending fires x (pending_of app_id x.timers) in
          IsDown app_id z × (spawns app_id z.calls ≡ spawns app_id d.calls))
        (sym (exit_lem app_id code def m limit some_restarts exits d count start r early))
        (subst
          (λ o.
            let z = fire_pending fires c o in
            IsDown app_id z × (spawns app_id z.calls ≡ spawns app_id d.calls))
          (sym no_timer)
          (
            record {
              no_proc = ap (λ a. Dict.get a app_id) procs ∙ get-remove_self d.procs app_id;
              no_timer = no_timer;
            },
            ap (spawns app_id) calls,
          ))

  stays_down :
      (d : Daemon F) (rs : List (Env × Env)) → IsDown app_id d → rounds app_id code d rs ≡ d
  unfolding rounds
  stays_down d [] down = refl
  stays_down d ((exits, fires) ∷ rs) down =
      let same : round app_id code (exits, fires) d ≡ d =
        ap
          (λ o.
            let d1 = exit_current app_id code exits d o in
            fire_pending fires d1 (pending_of app_id d1.timers))
          down.no_proc
        ∙ ap (fire_pending fires d) down.no_timer in
      ap (λ x. rounds app_id code x rs) same ∙ stays_down d rs down

  rounds-Restarts :
      (rs : List (Env × Env)) (d : Daemon F) (count left start : ℕ)
      → count + left ≡ m
      → IsRunning app_id def d count start
      → AllEarly def start rs
      → Restarts app_id (length rs) left d (rounds app_id code d rs)
  unfolding rounds
  rounds-Restarts [] d count left start q r early = (omega arith, inl (omega arith))
  rounds-Restarts ((exits, fires) ∷ rs) d count zero start q r early =
      let (down, none_more) = round_ends exits fires d count start r early.0 (omega arith) in
      let still = stays_down (round app_id code (exits, fires) d) rs down in
      rw still (omega (arith, none_more), inr down)
  rounds-Restarts ((exits, fires) ∷ rs) d count (suc left) start q r (soon, can, later) =
      let (runs, once) = round_runs exits fires d count start r soon can (omega arith) in
      let (more, end) =
        rounds-Restarts rs (round app_id code (exits, fires) d) (suc count) left fires.now
          (omega arith) runs later in
      (omega (arith, more, once), elim end [ inl few ↦ inl (omega arith) | inr down ↦ inr down ])

  -- An approved and wanted app of a process kind, with a command and `max_restarts` = m > 0, runs, with
  -- no crash and no timer of it on record. Its process exits again and again, each time before
  -- `min_uptime`, and each time its timer, if one is pending, fires on a host that can start the
  -- process. After k rounds exactly min k m more processes of the app were started; and if k > m, the
  -- app has no process and no pending timer.
  pub crash_loop :
      (rs : List (Env × Env)) (d : Daemon F) (start : ℕ)
      → IsRunning app_id def d 0 start
      → AllEarly def start rs
      → Restarts app_id (length rs) m d (rounds app_id code d rs)
  crash_loop rs d start r early = rounds-Restarts rs d 0 m start (omega arith) r early
