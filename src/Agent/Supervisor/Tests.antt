-- ===== src/Agent/Supervisor/Tests.antt =====
-- Runs of Stop against a process that ignores its stop_tree signal.
use breakerbox.Prelude.{
  ℕ, ◌+◌, ◌*◌, ◌≤◌, Bool, true, false, [], ◌∷◌, Option, not, some, ◌≡◌, ◌↔◌, refl, arith,
  if◌then◌else◌,
}
use breakerbox.Prelude.Int.{pos, pos_part}
use breakerbox.Protocol.{StopSpec}
use breakerbox.Agent.Supervisor.{
  Host, Sent, Signal, StopResult, is_group_alive, line, poll_interval, second_ns, stop_tree,
  stop_timeout,
}
use breakerbox.Agent.Supervisor.Stopping.{stop_tree-ends}
use breakerbox.Agent.Supervisor.Escalation.{IsGone, Obeys, stop_tree-IsGone}

abbrev is_killed : Sent → Bool
is_killed [] = false
is_killed ((t, Signal.sigkill) ∷ sent) = true
is_killed ((t, sig) ∷ sent) = is_killed sent

abbrev stubborn : Host
stubborn = record {
  takes = λ sent t sig. true;
  probes = λ sent t. true;
  ps = λ sent t. some (line (some (pos 7)) (if is_killed sent then "Z" else "S") ∷ []);
  name_matches = λ name. true;
  lag = λ t. 0;
}

abbrev one_second : Option StopSpec
one_second = some (record { command = ""; signal = "SIGINT"; timeout_s = pos 1 })

one_second_timeout : stop_timeout one_second ≡ pos 1_000_000_000
unfolding stop_timeout
one_second_timeout = refl

stop_tree-ends_example :
    (result : StopResult) × (sent : Sent) × (time : ℕ) × (stop_tree 251 stubborn
        (pos 7)
        one_second
        0
      ≡ some (result, sent, time))
    × (time ≤ 0 + pos_part (stop_timeout one_second) + 5 * second_ns + 2 * (poll_interval + 0))
    × ((result ≡ StopResult.gone) ↔ (is_group_alive stubborn (pos 7) sent time ≡ false))
stop_tree-ends_example =
    stop_tree-ends 250 stubborn (pos 7) one_second 0 0 (λ t. omega arith) (omega arith)
      (rw one_second_timeout (omega arith))

-- It ignores every signal but SIGKILL, which ends it at once, and a group that is gone takes none.
abbrev mortal : Host
mortal = record {
  takes = λ sent t sig. not (is_killed sent);
  probes = λ sent t. not (is_killed sent);
  ps = λ sent t. some (line (some (pos 7)) "S" ∷ []);
  name_matches = λ name. true;
  lag = λ t. 0;
}

mortal-Obeys : Obeys mortal (pos 7)
unfolding is_group_alive
mortal-Obeys = record {
  reached = λ sent t sig alive. ground arith;
  stays = λ sent t u later dead. dead;
  dies = λ sent k t late. refl;
}

stop_tree-IsGone_example : IsGone mortal (pos 7) (stop_tree 251 mortal (pos 7) one_second 0)
stop_tree-IsGone_example =
    stop_tree-IsGone 250 mortal (pos 7) one_second 0 0 mortal-Obeys (λ t. omega arith) (omega arith)
      (rw one_second_timeout (omega arith))
