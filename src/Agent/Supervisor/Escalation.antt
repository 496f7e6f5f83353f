-- ===== src/Agent/Supervisor/Escalation.antt =====
-- A host that obeys SIGKILL: Stop succeeds.
use breakerbox.Prelude.{
  ℕ, suc, ◌+◌, ◌*◌, ◌≤◌, Bool, true, false, [], ◌∷◌, Option, some, ◌≡◌, refl, arith, Bool-cases,
  inl, inr, ltb,
}
use breakerbox.Prelude.Int.{ℤ, pos_part}
use breakerbox.Protocol.{StopSpec}
use breakerbox.Agent.Supervisor.{
  Host, Outcome, Sent, Signal, StopResult, after_wait, deadline_of, escalate, is_group_alive,
  poll_gone, poll_interval, second_ns, signal_tree, stop_tree, stop_signal_of, stop_timeout,
  wait_tree_gone, waited,
}
use breakerbox.Agent.Supervisor.Stopping.{Ended, deadline_of-le, poll_gone-Ended}

-- A signal reaches the group while something of it is alive, what is dead stays dead, and five seconds after a SIGKILL nothing of the group is alive.
pub record Obeys (h : Host) (pid : ℤ) : Type 0 where
  pub reached :
      (sent : Sent) (t : ℕ) (sig : Signal)
      → is_group_alive h pid sent t ≡ true
      → h.takes sent t sig ≡ true
  pub stays :
      (sent : Sent) (t u : ℕ)
      → t ≤ u
      → is_group_alive h pid sent t ≡ false
      → is_group_alive h pid sent u ≡ false
  pub dies :
      (sent : Sent) (k t : ℕ)
      → k + 5 * second_ns ≤ t
      → is_group_alive h pid ((k, Signal.sigkill) ∷ sent) t ≡ false

-- Stop returned no error, and nothing of the group is alive then.
abbrev pub IsGone : Host → ℤ → Option Outcome → Type 0
IsGone h pid o =
    (sent : Sent) × (time : ℕ) × (o ≡ some (StopResult.gone, sent, time))
    × (is_group_alive h pid sent time ≡ false)

waited-IsGone :
    (h : Host) (pid : ℤ) (sent : Sent) (lag now deadline : ℕ) (o : Option (Bool × ℕ))
    → ((t : ℕ) → now ≤ t → deadline ≤ t → is_group_alive h pid sent t ≡ false)
    → Ended h pid sent lag now deadline o
    → IsGone h pid (waited sent o)
unfolding waited
waited-IsGone h pid sent lag now deadline o dead_then e = elim (Bool-cases e.verdict) [
  | inl dead ↦ (sent, e.time, rw (e.ends, dead) refl, ground (arith, e.true_answer, dead))
  | inr alive ↦
      let gone = dead_then e.time e.onward (e.full alive) in
      absurd (ground (arith, e.true_answer, gone))
]

escalate-IsGone :
    (fuel : ℕ) (h : Host) (pid : ℤ) (sent : Sent) (lag now : ℕ)
    → Obeys h pid
    → ((t : ℕ) → h.lag t ≤ lag)
    → 5 * second_ns ≤ fuel * poll_interval
    → IsGone h pid (escalate (suc fuel) h pid sent now)
unfolding escalate signal_tree wait_tree_gone deadline_of
escalate-IsGone fuel h pid sent lag now obeys slow enough =
    elim (Bool-cases (h.takes sent now Signal.sigkill)) [
      | inl taken ↦
          let killed : Sent = (now, Signal.sigkill) ∷ sent in
          rw taken (
            waited-IsGone h pid killed lag now (now + 5 * second_ns)
              (poll_gone (suc fuel) h pid killed (now + 5 * second_ns) now)
              (λ t later late. obeys.dies sent now t late)
              (poll_gone-Ended fuel h pid killed lag now (now + 5 * second_ns) slow (omega arith)))
      | inr refused ↦ elim (Bool-cases (is_group_alive h pid sent now)) [
        | inl alive ↦ absurd (ground (arith, obeys.reached sent now Signal.sigkill alive, refused))
        | inr dead ↦ (
          sent,
          now,
          elim (Bool-cases (ltb now (now + 5 * second_ns))) [
            | inl early ↦ rw (refused, dead, early) refl
            | inr late ↦ rw (refused, dead, late) refl
          ],
          dead,
        )
      ]
    ]

after_wait-IsGone :
    (fuel : ℕ) (h : Host) (pid : ℤ) (sent : Sent) (lag now deadline : ℕ) (o : Option (Bool × ℕ))
    → Obeys h pid
    → ((t : ℕ) → h.lag t ≤ lag)
    → 5 * second_ns ≤ fuel * poll_interval
    → Ended h pid sent lag now deadline o
    → IsGone h pid (after_wait (suc fuel) h pid sent o)
unfolding after_wait
after_wait-IsGone fuel h pid sent lag now deadline o obeys slow enough e =
    elim (Bool-cases e.verdict) [
      | inl dead ↦ (sent, e.time, rw (e.ends, dead) refl, ground (arith, e.true_answer, dead))
      | inr alive ↦
          rw (e.ends, alive) (escalate-IsGone fuel h pid sent lag e.time obeys slow enough)
    ]

-- On a host where signals reach a living group, the dead stay dead and SIGKILL ends the group within
-- five seconds, Stop returns no error, and nothing of the process group is alive when it returns,
-- whatever the process does with the first signal.
pub stop_tree-IsGone :
    (fuel : ℕ) (h : Host) (pid : ℤ) (spec : Option StopSpec) (lag now : ℕ)
    → Obeys h pid
    → ((t : ℕ) → h.lag t ≤ lag)
    → 5 * second_ns ≤ fuel * poll_interval
    → pos_part (stop_timeout spec) ≤ fuel * poll_interval
    → IsGone h pid (stop_tree (suc fuel) h pid spec now)
unfolding stop_tree signal_tree wait_tree_gone
stop_tree-IsGone fuel h pid spec lag now obeys slow enough long =
    let sig = stop_signal_of spec in
    let deadline = deadline_of now (stop_timeout spec) in
    elim (Bool-cases (h.takes [] now sig)) [
      | inl taken ↦ rw taken (
          after_wait-IsGone fuel h pid ((now, sig) ∷ []) lag now deadline
            (poll_gone (suc fuel) h pid ((now, sig) ∷ []) deadline now) obeys slow enough
            (poll_gone-Ended fuel h pid ((now, sig) ∷ []) lag now deadline slow
              (omega (arith, deadline_of-le now (stop_timeout spec)))))
      | inr refused ↦ elim (Bool-cases (is_group_alive h pid [] now)) [
        | inl alive ↦ absurd (ground (arith, obeys.reached [] now sig alive, refused))
        | inr dead ↦ rw (refused, dead) ([], now, refl, dead)
      ]
    ]
