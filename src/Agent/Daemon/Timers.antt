-- ===== src/Agent/Daemon/Timers.antt =====
-- Pending crash-restarts of restart.go: a stop of the app cancels its own.
use breakerbox.Prelude.{
  ℕ, String, List, [], ◌∷◌, Option, none, some, ◌≡◌, ◌↔◌, refl, sym, subst, arith, ◌∙◌, ap, Any,
  ◌==◌, Bool-cases, inl, inr,
}
use mathlib.Core.Option.{none-ne-some}
use breakerbox.Prelude.Dict
use breakerbox.Prelude.Dict.{get-remove_self}
use breakerbox.Agent.Daemon.State.{
  AppState, Proc, RestartState, Timer, Env, Daemon, stop_timer, without,
}
use breakerbox.Agent.Daemon.Stops.{
  stop_app, stop_docker_app, docker_stopped, cancel_restart, cancel_known, forget_pid, stop_process,
  stop_known,
}

-- The timer that a restart state holds.
abbrev pub timer_of : Option RestartState → Option ℕ
timer_of none = none
timer_of (some rs) = rs.timer

without-Any :
    (t : Timer) (n : ℕ) (ts : List Timer)
    → Any (λ u. u ≡ t) (without n ts) ↔ (Any (λ u. u ≡ t) ts × ¬ (n ≡ t.timer_id))
unfolding without
without-Any t n [] = (λ h. absurd h, λ h. absurd h.0)
without-Any t n (x ∷ xs) =
    let ih = without-Any t n xs in
    elim (Bool-cases (x.timer_id == n)) [
      | inl hit ↦
          let id : n ≡ x.timer_id = ground arith in
          rw hit (
            λ h. (inr (ih.0 h).0, (ih.0 h).1),
            λ (a, other). elim a [
              | inl same ↦ absurd (other (id ∙ ap (λ (u : Timer). u.timer_id) same))
              | inr later ↦ ih.1 (later, other)
            ],
          )
      | inr miss ↦
          let ne : ¬ (n ≡ x.timer_id) = λ q. ground arith in
          rw miss (
            λ h. elim h [
              | inl same ↦ (inl same, λ q. ne (q ∙ ap (λ (u : Timer). u.timer_id) (sym same)))
              | inr later ↦ (inr (ih.0 later).0, (ih.0 later).1)
            ],
            λ (a, other). elim a [ inl same ↦ inl same | inr later ↦ inr (ih.1 (later, other)) ],
          )
    ]

stopped :
    (t : Timer) (o : Option ℕ) (ts : List Timer)
    → Any (λ u. u ≡ t) (stop_timer o ts) ↔ (Any (λ u. u ≡ t) ts × ¬ (o ≡ some t.timer_id))
unfolding stop_timer
stopped t none ts = (λ h. (h, λ e. none-ne-some _ e), λ h. h.0)
stopped t (some n) ts =
    let w = without-Any t n ts in
    (
      λ h. ((w.0 h).0, λ e. (w.0 h).1 (ap (λ o. elim o [ none ↦ n | some k ↦ k ]) e)),
      λ h. w.1 (h.0, λ e. h.1 (ap some e)),
    )

module _ {F : Type 0} where
  abbrev pub Pending : Timer → Daemon F → Type 0
  Pending t d = Any (λ u. u ≡ t) d.timers

  -- The bookkeeping of crash-restarts is the same.
  abbrev SameTimers : Daemon F → Daemon F → Type 0
  SameTimers d d' = (d'.restarts ≡ d.restarts) × (d'.timers ≡ d.timers)

  stop_known-SameTimers :
      (e : Env) (d : Daemon F) (app_id : String) (o : Option AppState) (p : Option Proc)
      → SameTimers d (stop_known e d app_id o p).0
  unfolding stop_known stop_process forget_pid stop_docker_app docker_stopped
  stop_known-SameTimers e d app_id o p = ground arith

  cancel_known-Cancels :
      (d : Daemon F) (app_id : String) (o : Option RestartState)
      → Dict.get d.restarts app_id ≡ o
      → (Dict.get (cancel_known d app_id o).restarts app_id ≡ none)
        × ((t : Timer)
            → Pending t (cancel_known d app_id o)
              ↔ (Pending t d × ¬ (timer_of o ≡ some t.timer_id)))
  unfolding cancel_known stop_timer
  cancel_known-Cancels d app_id none q = (q, λ t. (λ h. (h, λ e. none-ne-some _ e), λ h. h.0))
  cancel_known-Cancels d app_id (some rs) q =
      (get-remove_self d.restarts app_id, λ t. stopped t rs.timer d.timers)

  -- A stop forgets the app's crash count, and of the timers that were pending exactly the one that
  -- the app's restart state holds is no longer pending, whether or not the stop itself succeeds.
  pub stop_app-cancel_restart :
      (e : Env) (d : Daemon F) (app_id : String)
      → (Dict.get (stop_app e d app_id).0.restarts app_id ≡ none)
        × ((t : Timer)
            → Pending t (stop_app e d app_id).0
              ↔ (Pending t d × ¬ (timer_of (Dict.get d.restarts app_id) ≡ some t.timer_id)))
  unfolding stop_app cancel_restart
  stop_app-cancel_restart e d app_id =
      let rs = Dict.get d.restarts app_id in
      let d1 = cancel_known d app_id rs in
      let d2 : Daemon F = record d1 {
        procs = Dict.remove d1.procs app_id;
        start_times = Dict.remove d1.start_times app_id;
      } in
      let same =
        stop_known-SameTimers e d2 app_id (Dict.get d1.apps app_id) (Dict.get d1.procs app_id) in
      let (forgotten, left) = cancel_known-Cancels d app_id rs refl in
      (
        ap (λ m. Dict.get m app_id) same.0 ∙ forgotten,
        λ t.
            subst (λ ts. Any (λ u. u ≡ t) ts ↔ (Pending t d × ¬ (timer_of rs ≡ some t.timer_id)))
              (sym same.1) (left t),
      )
