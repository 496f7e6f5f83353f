-- ===== src/Agent/TokenWatch/Tests.antt =====
-- Runs of the transcript watcher.
use breakerbox.Prelude.{
  ℕ, true, false, List, [], ◌∷◌, ◌++◌, Option, none, some, ◌≡◌, refl, arith, ◌==◌, if◌then◌else◌,
  length,
}
use breakerbox.Prelude.Int.{pos}
use breakerbox.Prelude.Dict
use breakerbox.Agent.TokenProxy.Sse.{split_lines}
use breakerbox.Agent.TokenWatch.Claude.{ClaudeLine, parse_claude_line}
use breakerbox.Agent.TokenWatch.Watcher.{Answers, Reader, flush, Tool, Harvested, tail_file}
use breakerbox.Agent.TokenWatch.Watcher.Rows.{rows_of}
use breakerbox.Agent.TokenWatch.Watcher.Tail.{line_bytes}
use breakerbox.Agent.TokenWatch.Watcher.Scan.{file_of, offset_at}
use breakerbox.Agent.TokenWatch.Watcher.Harvest.{
  Tick, appended, flushes, IsModest, new_watcher, watch, written, watch-rows,
}
use breakerbox.Agent.TokenWatch.Watcher.Run.{done, restart, run_loop}
use breakerbox.Agent.TokenWatch.Watcher.Stop.{stop-lost}
use breakerbox.Agent.TokenWatch.Watcher.Crash.{watch-saved}

-- "a" reports one output token of a message, and "b" two of the same.
abbrev reported : ℕ → ClaudeLine
reported n = record {
  kind = "assistant";
  cwd = "/srv";
  session_id = "s";
  request_id = "r";
  stamp = pos 0;
  message = record {
    id = "m";
    model = "claude";
    usage = some (record {
      input_tokens = pos 1;
      output_tokens = pos n;
      cache_creation_input = pos 0;
      cache_read_input = pos 0;
    });
  };
}

abbrev decode : List ℕ → Option ClaudeLine
decode [] = none
decode (c ∷ line) =
    if c == 97 then some (reported 1) else if c == 98 then some (reported 2) else none

abbrev reader : Reader
reader = record {
  decode_claude = decode;
  decode_codex = λ line. none;
  is_json = λ line. false;
  resolve = λ cwd. "app";
}

abbrev offline : Answers
offline = record { emits = λ rows. false; writes = λ cps. true }

abbrev online : Answers
online = record { emits = λ rows. true; writes = λ cps. true }

-- A line and a half, then the rest, and "a" once more.
abbrev session : List Tick
session =
    appended (97 ∷ 10 ∷ 98 ∷ []) offline
    ∷ flushes online
    ∷ appended (10 ∷ 97 ∷ 10 ∷ []) offline
    ∷ flushes offline
    ∷ []

two_rows : length (rows_of reader [] (split_lines (written session)).0) ≡ 2
unfolding written split_lines rows_of
two_rows = refl

session-IsModest : IsModest reader (written session)
unfolding written split_lines
session-IsModest = record {
  fit = (omega arith, (omega arith, (omega arith, tt)));
  few = omega (arith, two_rows);
  small = omega arith;
}

watch-rows_example :
    (watch reader "p" [] new_watcher session).delivered
      ++ (watch reader "p" [] new_watcher session).pending
    ≡ rows_of reader [] (split_lines (written session)).0
watch-rows_example = watch-rows reader "p" session session-IsModest

watch-saved_example :
    let w = watch reader "p" [] new_watcher session in
    (lines : List (List ℕ)) × (more : List (List ℕ)) × (rest : List Harvested) × ((split_lines
        (written session)).0
      ≡ lines ++ more)
    × (offset_at (Dict.get w.saved "p") ≡ line_bytes lines)
    × (w.delivered ≡ rows_of reader [] lines ++ rest)
watch-saved_example = watch-saved reader "p" session session-IsModest

stop-lost_example :
    let w = watch reader "p" [] new_watcher session in
    let v =
      tail_file reader online
        (restart (run_loop reader w (done online ∷ [])))
        "p"
        Tool.claude
        (file_of (written session)) in
    (v.delivered ≡ w.delivered) × (v.pending ≡ [])
stop-lost_example = stop-lost reader online "p" session session-IsModest refl

-- The second message's row is pending at the stop, so it is lost.
one_is_pending : length (watch reader "p" [] new_watcher session).pending ≡ 1
unfolding watch tail_file flush Dict.get Dict.put split_lines parse_claude_line
one_is_pending = refl
