-- ===== src/Agent/Tests.antt =====
-- Runs of the agent's transport and of the metering proxy's parser.
use breakerbox.Prelude.{ℕ, List, [], ◌∷◌, ◌++◌, none, ◌≡◌, refl, ◌+◌, arith}
use breakerbox.Prelude.Int.{ℤ, pos}
use breakerbox.Agent.Daemon.Buffers.{keep_last}
use breakerbox.Agent.Transport.{queue_size, reset_attempt}
use breakerbox.Agent.Transport.Queue.{enqueue_all, enqueue_all-keep_last}
use breakerbox.Agent.Transport.Delays.{AreJittered, delays, delays-AreJittered}
use breakerbox.Agent.TokenWatch.Codex.{CodexState}
use breakerbox.Agent.TokenWatch.Totals.{
  Counts, input_of, output_of, read_all, read_all-sums, sum_by, usage_of,
}
use breakerbox.Agent.Docker.Follow.{follow, trim_all}
use breakerbox.Agent.Docker.Follow.Frames.{delivered, encode_all, follow-lines, payloads}
use breakerbox.Agent.TokenProxy.Rows.{Provider}
use breakerbox.Agent.TokenProxy.Sse.{Json, feed, new_parser, split_lines, trim_cr}
use breakerbox.Agent.TokenProxy.Chunks.{feed_all, feed_all-joined, joined}

abbrev three_frames : List ℕ
three_frames = 1 ∷ 2 ∷ 3 ∷ []

enqueue_all-keep_last_example :
    enqueue_all [] three_frames ≡ keep_last queue_size ([] ++ three_frames)
unfolding keep_last
enqueue_all-keep_last_example = enqueue_all-keep_last three_frames [] [] refl

delays-AreJittered_example : AreJittered 0 (delays reset_attempt (17 ∷ 1_000_000_001 ∷ []))
delays-AreJittered_example = delays-AreJittered (17 ∷ 1_000_000_001 ∷ [])

abbrev silent : Json
silent = record { anthropic_event = λ s. none; openai_chunk = λ s. none }

abbrev cut_line : List ℕ
cut_line = 100 ∷ 97 ∷ []

abbrev line_end : List ℕ
line_end = 116 ∷ 97 ∷ 58 ∷ 120 ∷ 10 ∷ []

a_cut_line_is_whole :
    (split_lines (joined (cut_line ∷ line_end ∷ []))).0 ≡ (100 ∷ 97 ∷ 116 ∷ 97 ∷ 58 ∷ 120 ∷ []) ∷ []
unfolding split_lines joined
a_cut_line_is_whole = refl

feed_all-joined_example :
    feed_all silent Provider.openai new_parser (cut_line ∷ line_end ∷ [])
    ≡ feed silent Provider.openai new_parser (joined (cut_line ∷ line_end ∷ []))
feed_all-joined_example = feed_all-joined silent Provider.openai cut_line (line_end ∷ [])

abbrev new_session : CodexState
new_session = record {
  session_id = "s";
  cwd = "/srv";
  model = "";
  last = usage_of (0, 0, 0);
  events = 0;
}

abbrev two_turns : List (ℤ × Counts)
two_turns = (pos 1, (100, 40, 7)) ∷ (pos 2, (150, 60, 9)) ∷ []

read_all-sums_example :
    (sum_by input_of (read_all new_session two_turns) + 0 ≡ 150)
    × (sum_by output_of (read_all new_session two_turns) + 0 ≡ 9)
read_all-sums_example =
    read_all-sums two_turns (0, 0, 0) new_session refl
      (
        (omega arith, omega arith, omega arith, omega arith, omega arith, omega arith, omega arith),
        (
          (
            omega arith,
            omega arith,
            omega arith,
            omega arith,
            omega arith,
            omega arith,
            omega arith,
          ),
          tt,
        ),
      )

-- "a\r" in one frame and "\nb" in the next
abbrev two_streams : List (ℕ × List ℕ)
two_streams = (1, 97 ∷ 13 ∷ []) ∷ (2, 10 ∷ 98 ∷ []) ∷ []

follow-lines_example :
    delivered (follow 3 [] (encode_all two_streams))
    ≡ trim_all (split_lines (payloads two_streams)).0
follow-lines_example = follow-lines two_streams 3 (omega arith, (omega arith, tt)) (omega arith)

one_line_is_delivered : follow 3 [] (encode_all two_streams) ≡ ((97 ∷ []) ∷ []) ∷ []
unfolding follow encode_all trim_cr split_lines
one_line_is_delivered = refl
