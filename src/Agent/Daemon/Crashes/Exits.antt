-- ===== src/Agent/Daemon/Crashes/Exits.antt =====
-- restart.go: an early exit arms a timer, or is given up.
use breakerbox.Prelude.{
  ℕ, suc, ◌+◌, ◌≤◌, ◌<◌, String, true, List, [], ◌∷◌, Option, none, some, ◌≡◌, refl, arith, ltb,
  if◌then◌else◌, if_rule, ◌∙◌, sym, ap, subst, str_eq, ◌==◌, eq_iff,
}
use breakerbox.Prelude.Int.{ℤ, pos, ◌<ℤ◌, ◌-ℤ◌}
use breakerbox.Prelude.Dict
use breakerbox.Prelude.Dict.{get-put_self}
use breakerbox.Protocol.{AppDefinition}
use breakerbox.Agent.Daemon.State.{
  AppState, Daemon, Env, RestartState, Timer, send, stop_timer, without,
}
use breakerbox.Agent.Daemon.Apps.{send_event_with_restarts, started}
use breakerbox.Agent.Daemon.Restart.{
  Policy, crashed, exit_of, handle_unexpected_exit, is_current, next_count, policy_for, proc_exited,
  ran_healthily, schedule, state_or_new, still_wanted,
}
use breakerbox.Agent.Daemon.Crashes.Rounds.{
  IsArmed, IsRunning, Keeps, crash_count, exit_current, pending_of, without_proc,
}

pending-without :
    (app_id : String) (n : ℕ) (ts : List Timer)
    → pending_of app_id ts ≡ none
    → pending_of app_id (without n ts) ≡ none
unfolding without
pending-without app_id n [] h = refl
pending-without app_id n (t ∷ ts) h = ground (arith, pending-without app_id n ts)

pending-stop_timer :
    (app_id : String) (o : Option ℕ) (ts : List Timer)
    → pending_of app_id ts ≡ none
    → pending_of app_id (stop_timer o ts) ≡ none
unfolding stop_timer
pending-stop_timer app_id none ts h = h
pending-stop_timer app_id (some n) ts h = pending-without app_id n ts h

same_handle : (n : ℕ) → (n == n) ≡ true
same_handle n = ground arith

stored :
    (app_id : String) (restarts : Dict.Dict RestartState) (rs : RestartState)
    → (state_or_new (Dict.get (Dict.put restarts app_id rs) app_id)).count ≡ rs.count
unfolding state_or_new
stored app_id restarts rs = ap (λ o. (state_or_new o).count) (get-put_self restarts app_id rs)

next_count_early :
    (e : Env) (started : ℕ) (rs : RestartState) (min_uptime : ℤ)
    → pos e.now -ℤ pos started <ℤ min_uptime
    → next_count e (some started) rs min_uptime ≡ suc rs.count
unfolding next_count ran_healthily
next_count_early e started rs min_uptime h = ground arith

armed :
    (app_id : String) (t : Timer) (ts : List Timer)
    → t.app ≡ app_id
    → pending_of app_id ts ≡ none
    → IsArmed app_id (t ∷ ts)
unfolding without
armed app_id t ts mine quiet =
    let its : str_eq t.app app_id ≡ true = (eq_iff t.app app_id).1 mine in
    (t, rw its refl, mine, rw (same_handle t.timer_id) (pending-without app_id t.timer_id ts quiet))

module _ {F : Type 0} (app_id : String) (code : ℤ) where
  exit_own :
      (e : Env) (start : ℕ) (d : Daemon F) (app : AppState) (m : ℕ)
      → (policy_for app.definition.restart_policy).max_restarts ≡ pos m
      → 0 < m
      → still_wanted (some app) ≡ true
      → pos e.now -ℤ pos start <ℤ (policy_for app.definition.restart_policy).min_uptime
      → exit_of e d app_id code (some start) (some app)
        ≡ crashed e d app_id code
            (state_or_new (Dict.get d.restarts app_id))
            (suc (crash_count app_id d))
            (policy_for app.definition.restart_policy)
  unfolding exit_of
  exit_own e start d app m limit some_restarts wanted early =
      let rs = state_or_new (Dict.get d.restarts app_id) in
      rw (next_count_early e start rs _ early) (ground arith)

  module _ (def : AppDefinition) (m : ℕ)
      (limit : (policy_for def.restart_policy).max_restarts ≡ pos m) (some_restarts : 0 < m) where
    exit_early :
        (e : Env) (start : ℕ) (d : Daemon F) (app : AppState)
        → app.definition ≡ def
        → still_wanted (some app) ≡ true
        → pos e.now -ℤ pos start <ℤ (policy_for def.restart_policy).min_uptime
        → exit_of e d app_id code (some start) (some app)
          ≡ crashed e d app_id code
              (state_or_new (Dict.get d.restarts app_id))
              (suc (crash_count app_id d))
              (policy_for def.restart_policy)
    exit_early e start d app same wanted early =
        let p : AppDefinition → Policy = λ own. policy_for own.restart_policy in
        let own_limit = ap (λ a. (p a).max_restarts) same ∙ limit in
        let own_early = subst (λ a. pos e.now -ℤ pos start <ℤ (p a).min_uptime) (sym same) early in
        exit_own e start d app m own_limit some_restarts wanted own_early
        ∙ ap
            (λ a.
              crashed e d app_id code (state_or_new (Dict.get d.restarts app_id))
                (suc (crash_count app_id d)) (p a))
            same

    -- An early exit is a crash with the next number.
    pub exit_lem :
        (exits : Env) (d : Daemon F) (count start : ℕ) (r : IsRunning app_id def d count start)
        → pos exits.now -ℤ pos start <ℤ (policy_for def.restart_policy).min_uptime
        → exit_current app_id code exits d (Dict.get d.procs app_id)
          ≡ crashed exits
              (without_proc app_id d)
              app_id
              code
              (state_or_new (Dict.get d.restarts app_id))
              (suc count)
              (policy_for def.restart_policy)
    unfolding proc_exited handle_unexpected_exit is_current
    exit_lem exits d count start r early =
        let current : is_current (Dict.get d.procs app_id) r.proc.handle ≡ true =
          ap (λ o. is_current o r.proc.handle) r.here ∙ same_handle r.proc.handle in
        ap (exit_current app_id code exits d) r.here
        ∙ ap
            (λ b.
              if b
              then handle_unexpected_exit exits (record d { procs = Dict.remove d.procs app_id })
                  app_id code
              else d)
            current
        ∙ ap (λ o. exit_of exits (without_proc app_id d) app_id code o (Dict.get d.apps app_id))
            r.since
        ∙ ap (λ o. exit_of exits (without_proc app_id d) app_id code (some start) o) r.idle.known
        ∙ exit_early exits start (without_proc app_id d) r.idle.app r.idle.same r.idle.wanted early
        ∙ ap
            (λ n.
              crashed exits (without_proc app_id d) app_id code
                (state_or_new (Dict.get d.restarts app_id)) (suc n) (policy_for def.restart_policy))
            r.idle.counted

    pub crashed-IsArmed :
        (e : Env) (d : Daemon F) (rs : RestartState) (count : ℕ)
        → count ≤ m
        → pending_of app_id d.timers ≡ none
        → let c = crashed e d app_id code rs count (policy_for def.restart_policy) in
          Keeps app_id d c × (crash_count app_id c ≡ count) × IsArmed app_id c.timers
    unfolding crashed schedule send_event_with_restarts send state_or_new
    crashed-IsArmed e d rs count room quiet = rw limit (
        if_rule
          (λ (c : Daemon F).
            Keeps app_id d c × (crash_count app_id c ≡ count) × IsArmed app_id c.timers)
          (ltb (m + 0) (count + 0)) (λ over. absurd (ground arith))
          (λ _. (
            (refl, refl, refl),
            stored app_id (Dict.put d.restarts app_id _) _,
            armed app_id _ _ refl (pending-stop_timer app_id rs.timer d.timers quiet),
          )))

    pub crashed-over :
        (e : Env) (d : Daemon F) (rs : RestartState) (count : ℕ)
        → m < count
        → let c = crashed e d app_id code rs count (policy_for def.restart_policy) in
          Keeps app_id d c × (c.timers ≡ d.timers)
    unfolding crashed send_event_with_restarts send
    crashed-over e d rs count over = rw limit (
        if_rule (λ (c : Daemon F). Keeps app_id d c × (c.timers ≡ d.timers))
          (ltb (m + 0) (count + 0)) (λ _. ((refl, refl, refl), refl))
          (λ room. absurd (ground arith)))
