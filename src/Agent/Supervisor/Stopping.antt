-- ===== src/Agent/Supervisor/Stopping.antt =====
-- Stop and ReapOrphan end, and say truly whether the process tree is gone.
use breakerbox.Prelude.{
  ℕ, zero, suc, ◌+◌, ◌*◌, ◌≤◌, ◌<◌, Bool, true, false, not, ◌&&◌, [], Option, some, ◌≡◌, refl, sym,
  arith, ltb, if◌then◌else◌, Bool-cases, inl, inr, subst, ltb→lt, ◌⊎◌, ◌↔◌,
}
use breakerbox.Prelude.Int.{ℤ, pos, negsuc, pos_part}
use breakerbox.Protocol.{StopSpec}
use breakerbox.Agent.Supervisor.{
  Host, Outcome, Sent, Signal, StopResult, after_wait, deadline_of, escalate, is_group_alive,
  poll_gone, poll_interval, second_ns, signal_tree, stop_tree, stop_signal_of, stop_timeout,
  wait_tree_gone, waited,
}

-- A wait that ended in time, with a true verdict: by the deadline, or within a round after it.
pub record Ended (h : Host) (pid : ℤ) (sent : Sent) (lag now deadline : ℕ) (o : Option (Bool × ℕ))
    : Type 0 where
  pub verdict : Bool
  pub time : ℕ
  pub ends : o ≡ some (verdict, time)
  pub true_answer : verdict ≡ not (is_group_alive h pid sent time)
  pub soon : (time ≡ now) ⊎ (time < deadline + (poll_interval + lag))
  pub onward : now ≤ time
  pub full : verdict ≡ false → deadline ≤ time

poll_gone-over :
    (fuel : ℕ) (h : Host) (pid : ℤ) (sent : Sent) (lag now deadline : ℕ)
    → ltb now deadline ≡ false
    → Ended h pid sent lag now deadline (poll_gone (suc fuel) h pid sent deadline now)
unfolding poll_gone
poll_gone-over fuel h pid sent lag now deadline over = record {
  verdict = not (is_group_alive h pid sent now);
  time = now;
  ends = rw over refl;
  true_answer = refl;
  soon = inl refl;
  onward = omega arith;
  full = λ _. ground arith;
}

pub poll_gone-Ended :
    (fuel : ℕ) (h : Host) (pid : ℤ) (sent : Sent) (lag now deadline : ℕ)
    → ((t : ℕ) → h.lag t ≤ lag)
    → deadline ≤ now + fuel * poll_interval
    → Ended h pid sent lag now deadline (poll_gone (suc fuel) h pid sent deadline now)
unfolding poll_gone
poll_gone-Ended zero h pid sent lag now deadline slow enough =
    poll_gone-over zero h pid sent lag now deadline (ground arith)
poll_gone-Ended (suc fuel) h pid sent lag now deadline slow enough =
    elim (Bool-cases (ltb now deadline)) [
      | inr over ↦ poll_gone-over (suc fuel) h pid sent lag now deadline over
      | inl early ↦ elim (Bool-cases (is_group_alive h pid sent now)) [
        | inr dead ↦ record {
          verdict = true;
          time = now;
          ends = rw (early, dead) refl;
          true_answer = rw dead refl;
          soon = inl refl;
          onward = omega arith;
          full = λ no_answer. cc;
        }
        | inl alive ↦
            let next = now + poll_interval + h.lag now in
            let r = poll_gone-Ended fuel h pid sent lag next deadline slow (omega arith) in
            record {
              verdict = r.verdict;
              time = r.time;
              ends = rw (early, alive) r.ends;
              true_answer = r.true_answer;
              soon = inr (elim r.soon [
                | inl at ↦ omega (arith, slow now, ltb→lt now deadline early)
                | inr before ↦ before
              ]);
              onward = omega (arith, r.onward);
              full = r.full;
            }
      ]
    ]

-- What a call comes to: it ends by a time, and tells truly whether the tree is gone.
record Told (h : Host) (pid : ℤ) (by : ℕ) (o : Option Outcome) : Type 0 where
  pub result : StopResult
  pub sent : Sent
  pub time : ℕ
  pub ends : o ≡ some (result, sent, time)
  pub soon : time ≤ by
  pub truth : (result ≡ StopResult.gone) ↔ (is_group_alive h pid sent time ≡ false)

waited-Told :
    (h : Host) (pid : ℤ) (sent : Sent) (lag now deadline by : ℕ) (o : Option (Bool × ℕ))
    → now ≤ by
    → deadline + (poll_interval + lag) ≤ by
    → Ended h pid sent lag now deadline o
    → Told h pid by (waited sent o)
unfolding waited
waited-Told h pid sent lag now deadline by o n d e = elim (Bool-cases e.verdict) [
  | inl dead ↦ record {
    result = StopResult.gone;
    sent = sent;
    time = e.time;
    ends = rw (e.ends, dead) refl;
    soon = elim e.soon [ inl at ↦ omega arith | inr before ↦ omega arith ];
    truth = (λ _. ground (arith, e.true_answer), λ _. refl);
  }
  | inr alive ↦ record {
    result = StopResult.survived;
    sent = sent;
    time = e.time;
    ends = rw (e.ends, alive) refl;
    soon = elim e.soon [ inl at ↦ omega arith | inr before ↦ omega arith ];
    truth = (λ r. cc, λ dead. absurd (ground (arith, e.true_answer, dead)));
  }
]

escalate-Told :
    (fuel : ℕ) (h : Host) (pid : ℤ) (sent : Sent) (lag now by : ℕ)
    → ((t : ℕ) → h.lag t ≤ lag)
    → 5 * second_ns ≤ fuel * poll_interval
    → now + 5 * second_ns + (poll_interval + lag) ≤ by
    → Told h pid by (escalate (suc fuel) h pid sent now)
unfolding escalate signal_tree wait_tree_gone
escalate-Told fuel h pid sent lag now by slow enough late =
    let killed = signal_tree h sent now Signal.sigkill in
    let deadline = now + 5 * second_ns in
    elim (Bool-cases (not (h.takes sent now Signal.sigkill) && is_group_alive h pid killed now)) [
      | inl failed ↦ record {
        result = StopResult.kill_failed;
        sent = killed;
        time = now;
        ends = rw failed refl;
        soon = omega arith;
        truth = (λ r. cc, λ dead. absurd (ground arith));
      }
      | inr sent_ok ↦ rw sent_ok (
          waited-Told h pid killed lag now deadline by
            (wait_tree_gone (suc fuel) h pid killed now (pos (5 * second_ns))) (omega arith)
            (omega arith) (poll_gone-Ended fuel h pid killed lag now deadline slow (omega arith)))
    ]

pub deadline_of-le : (now : ℕ) (t : ℤ) → deadline_of now t ≤ now + pos_part t
unfolding deadline_of
deadline_of-le now (pos n) = omega arith
deadline_of-le now (negsuc n) = omega arith

after_wait-Told :
    (fuel : ℕ) (h : Host) (pid : ℤ) (sent : Sent) (lag now deadline by : ℕ) (o : Option (Bool × ℕ))
    → ((t : ℕ) → h.lag t ≤ lag)
    → 5 * second_ns ≤ fuel * poll_interval
    → Ended h pid sent lag now deadline o
    → now + 5 * second_ns + (poll_interval + lag) ≤ by
    → deadline + 5 * second_ns + 2 * (poll_interval + lag) ≤ by
    → Told h pid by (after_wait (suc fuel) h pid sent o)
unfolding after_wait
after_wait-Told fuel h pid sent lag now deadline by o slow enough e n d =
    elim (Bool-cases e.verdict) [
      | inl dead ↦ record {
        result = StopResult.gone;
        sent = sent;
        time = e.time;
        ends = rw (e.ends, dead) refl;
        soon = elim e.soon [ inl at ↦ omega arith | inr before ↦ omega arith ];
        truth = (λ _. ground (arith, e.true_answer), λ _. refl);
      }
      | inr alive ↦
          rw (e.ends, alive)
            (escalate-Told fuel h pid sent lag e.time by slow enough
              (elim e.soon [ inl at ↦ omega arith | inr before ↦ omega arith ]))
    ]

stop_tree-Told :
    (fuel : ℕ) (h : Host) (pid : ℤ) (spec : Option StopSpec) (lag now by : ℕ)
    → ((t : ℕ) → h.lag t ≤ lag)
    → 5 * second_ns ≤ fuel * poll_interval
    → pos_part (stop_timeout spec) ≤ fuel * poll_interval
    → now + pos_part (stop_timeout spec) + 5 * second_ns + 2 * (poll_interval + lag) ≤ by
    → Told h pid by (stop_tree (suc fuel) h pid spec now)
unfolding stop_tree signal_tree wait_tree_gone
stop_tree-Told fuel h pid spec lag now by slow enough long late =
    let sig = stop_signal_of spec in
    let sent = signal_tree h [] now sig in
    let deadline = deadline_of now (stop_timeout spec) in
    let near = deadline_of-le now (stop_timeout spec) in
    elim (Bool-cases (h.takes [] now sig)) [
      | inl taken ↦
          subst
            (λ b. Told h pid by (
              if b
              then after_wait (suc fuel) h pid sent (poll_gone (suc fuel) h pid sent deadline now)
              else if not (is_group_alive h pid [] now)
              then some (StopResult.gone, [], now)
              else some (StopResult.signal_failed, [], now)))
            (sym taken)
            (after_wait-Told fuel h pid sent lag now deadline by
              (poll_gone (suc fuel) h pid sent deadline now) slow enough
              (poll_gone-Ended fuel h pid sent lag now deadline slow (omega (arith, near)))
              (omega arith) (omega (arith, near)))
      | inr failed ↦ elim (Bool-cases (is_group_alive h pid [] now)) [
        | inl alive ↦ record {
          result = StopResult.signal_failed;
          sent = [];
          time = now;
          ends = rw (failed, alive) refl;
          soon = omega arith;
          truth = (λ r. cc, λ dead. absurd (ground arith));
        }
        | inr dead ↦ record {
          result = StopResult.gone;
          sent = [];
          time = now;
          ends = rw (failed, dead) refl;
          soon = omega arith;
          truth = (λ _. dead, λ _. refl);
        }
      ]
    ]

-- Stop ends, by the stop timeout and five seconds and a round of each wait after its call, and returns
-- no error exactly if nothing of the process tree is alive then.
pub stop_tree-ends :
    (fuel : ℕ) (h : Host) (pid : ℤ) (spec : Option StopSpec) (lag now : ℕ)
    → ((t : ℕ) → h.lag t ≤ lag)
    → 5 * second_ns ≤ fuel * poll_interval
    → pos_part (stop_timeout spec) ≤ fuel * poll_interval
    → (result : StopResult) × (sent : Sent) × (time : ℕ) × (stop_tree (suc fuel) h pid spec now
        ≡ some (result, sent, time))
      × (time ≤ now + pos_part (stop_timeout spec) + 5 * second_ns + 2 * (poll_interval + lag))
      × ((result ≡ StopResult.gone) ↔ (is_group_alive h pid sent time ≡ false))
stop_tree-ends fuel h pid spec lag now slow enough long =
    let by = now + pos_part (stop_timeout spec) + 5 * second_ns + 2 * (poll_interval + lag) in
    let told : Told h pid by (stop_tree (suc fuel) h pid spec now) =
      stop_tree-Told fuel h pid spec lag now by slow enough long (omega arith) in
    (told.result, told.sent, told.time, told.ends, told.soon, told.truth)
