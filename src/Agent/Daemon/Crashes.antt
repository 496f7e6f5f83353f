-- ===== src/Agent/Daemon/Crashes.antt =====
-- The delays of the restart policy of restart.go.
pub mod Exits
pub mod Loop
pub mod Rounds
pub mod Starts
use breakerbox.Prelude.{
  ℕ, suc, ◌+◌, ◌-◌, ◌*◌, ◌^◌, ◌≤◌, ◌<◌, min, String, true, List, [], ◌∷◌, none, some, ◌≡◌, refl,
  arith, ltb, if◌then◌else◌, if_rule, length, All, ◌∙◌, sym, ap, subst,
}
use breakerbox.Prelude.Int.{ℤ, pos, pos_part, ◌<ℤ◌, wrap-pos, ◌-ℤ◌}
use breakerbox.Prelude.Dict
use breakerbox.Prelude.Dict.{get-put_self}
use breakerbox.Protocol.{RestartPolicy}
use breakerbox.Agent.Daemon.State.{AppState, RestartState, Env, Daemon}
use breakerbox.Agent.Daemon.Restart.{
  Policy, second, restart_delay, policy_for, seconds_or, still_wanted, ran_healthily, state_or_new,
  next_count, handle_unexpected_exit, exit_of, crashed,
}
use native.Mathlib.Nat.{pow-le-pow_right}

doublings-le : (k : ℕ) → 2 ^ min k 30 ≤ 2 ^ 30
doublings-le k = pow-le-pow_right {n = 2} (omega arith) {i = min k 30} {j = 30} (omega arith)

doublings_pos : (k : ℕ) → 0 < 2 ^ k
doublings_pos k = pow-le-pow_right {n = 2} (omega arith) {i = 0} {j = k} (omega arith)

restart_delay_exact :
    (count backoff_max : ℕ)
    → 0 < backoff_max
    → restart_delay count (pos backoff_max)
      ≡ pos (min (second * 2 ^ min (count - 1) 30) backoff_max)
unfolding restart_delay
restart_delay_exact count backoff_max h =
    let fits = doublings-le (count - 1) in
    let positive = doublings_pos (min (count - 1) 30) in
    rw (wrap-pos (second * 2 ^ min (count - 1) 30) (omega arith)) (ground arith)

-- The delay before restart number `count` under a policy.
abbrev pub delay_before : RestartPolicy → ℕ → ℤ
delay_before p count = restart_delay count (policy_for (some p)).backoff_max

delay_lem :
    (p : RestartPolicy) (k count : ℕ)
    → p.backoff_max_s ≡ pos k
    → 0 < k
    → k * second < 2 ^ 63
    → delay_before p count ≡ pos (min (second * 2 ^ min (count - 1) 30) (k * second))
unfolding policy_for seconds_or
delay_lem p k count q some_time fits =
    let capped : (policy_for (some p)).backoff_max ≡ pos (k * second) =
      rw q (ground (arith, wrap-pos (k * second) fits)) in
    rw capped (restart_delay_exact count (k * second) (omega arith))

doubled : (n : ℕ) → 2 ^ suc n ≡ 2 * 2 ^ n
doubled n = omega arith

-- The first restart waits for a second, and each one after that twice as long as the one before, but
-- never longer than `backoff_max_s`, and from the 31st on they all wait the same time, if
-- `backoff_max_s` is positive and less than 2^63 nanoseconds.
pub delay_before_doubles :
    (p : RestartPolicy) (k n later : ℕ)
    → p.backoff_max_s ≡ pos k
    → 0 < k
    → k * second < 2 ^ 63
    → n < 30
    → (delay_before p 1 ≡ pos second)
      × (delay_before p (2 + n) ≡ pos (min (2 * pos_part (delay_before p (1 + n))) (k * second)))
      × (delay_before p (31 + later) ≡ delay_before p 31)
delay_before_doubles p k n later q some_time fits few =
    let at : (count : ℕ)
        → delay_before p count ≡ pos (min (second * 2 ^ min (count - 1) 30) (k * second)) =
      λ count. delay_lem p k count q some_time fits in
    let same : min (31 + later - 1) 30 ≡ min (31 - 1) 30 = omega arith in
    (
      at 1 ∙ ap pos (omega arith),
      rw (at (1 + n)) (at (2 + n) ∙ ap pos (ground (arith, doubled n))),
      at (31 + later) ∙ ap pos (ap (λ e. min (second * 2 ^ e) (k * second)) same) ∙ sym (at 31),
    )
