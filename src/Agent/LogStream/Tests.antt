-- ===== src/Agent/LogStream/Tests.antt =====
-- A log that is followed while its app writes, and a cancelled stream.
use breakerbox.Prelude.{
  ℕ, true, false, List, [], ◌∷◌, ◌++◌, none, some, ◌≡◌, ◌⊎◌, refl, length, All,
}
use breakerbox.Prelude.Int.{pos}
use breakerbox.Prelude.Dict
use breakerbox.Protocol.{AppKind, LogFollow}
use breakerbox.Agent.TokenProxy.Sse.{split_lines}
use breakerbox.Agent.Docker.Follow.Frames.{delivered}
use breakerbox.Agent.LogStream.Tail.{first_tail, rotate_log_if_needed, tick_tail}
use breakerbox.Agent.LogStream.Tail.Cut.{SmallChunk}
use breakerbox.Agent.LogStream.Tail.Follows.{view_of}
use breakerbox.Agent.LogStream.Tail.Lines.{Write, tail-lines, tail_writes, written_by}
use breakerbox.Agent.LogStream.Registry.{
  LogSource, LogStreams, cancel_all_log_streams, cancel_log_stream, end_stream, is_cancelled,
  source_of, start_log_stream,
}
use breakerbox.Agent.LogStream.Registry.Contexts.{Other}
use breakerbox.Agent.LogStream.Registry.Cancels.{Reached, cancel-Told, no_streams, starts}

abbrev old_log : List ℕ
old_log = 97 ∷ 10 ∷ 98 ∷ 10 ∷ 99 ∷ 10 ∷ []

-- A line in two parts, and a tick that reads one byte.
abbrev two_writes : List Write
two_writes =
    (record { more = 100 ∷ 101 ∷ []; look = some 1 })
    ∷ (record { more = 10 ∷ []; look = none })
    ∷ []

last_two : (first_tail (pos 2) (some old_log)).chunks ≡ ((98 ∷ []) ∷ (99 ∷ []) ∷ []) ∷ []
unfolding first_tail
last_two = refl

one_byte_read :
    (tail_writes (first_tail (pos 2) (some old_log)) old_log two_writes).partial ≡ 100 ∷ []
unfolding tail_writes first_tail
one_byte_read = refl

-- A first tail that ends inside a line shows its two parts as two lines.
cut_line :
    (tail_writes
      (first_tail (pos 2) (some (97 ∷ [])))
      (97 ∷ [])
      ((record { more = 98 ∷ 10 ∷ []; look = some 9 }) ∷ [])).chunks
    ≡ ((97 ∷ []) ∷ []) ∷ ((98 ∷ []) ∷ []) ∷ []
unfolding tail_writes first_tail
cut_line = refl

tail-lines_example :
    let content = old_log ++ (written_by two_writes ++ 102 ∷ 10 ∷ []) in
    let t = tail_writes (first_tail (pos 2) (some old_log)) old_log two_writes in
    (emitted : List (List (List ℕ))) × ((tick_tail t
        (view_of content (some (length content)))).chunks
      ≡ (first_tail (pos 2) (some old_log)).chunks ++ emitted)
    × (delivered emitted ≡ (split_lines (written_by two_writes ++ 102 ∷ 10 ∷ [])).0)
    × All SmallChunk emitted
tail-lines_example = tail-lines (pos 2) old_log two_writes (102 ∷ 10 ∷ [])

small_log_stays :
    rotate_log_if_needed true (record { current = some old_log; generation = none })
    ≡ record { current = some old_log; generation = none }
unfolding rotate_log_if_needed
small_log_stays = refl

abbrev follow_app : LogFollow
follow_app = record { stream_id = "s"; app_id = "app"; tail_n = pos 0 }

abbrev one_stream : LogStreams
one_stream = start_log_stream no_streams follow_app (some LogSource.log_file)

one_stream-Reached : Reached one_stream
one_stream-Reached =
    Reached.next no_streams one_stream Reached.begun (starts no_streams follow_app _ tt)

compose_source : source_of false AppKind.compose ≡ LogSource.compose_project
unfolding source_of
compose_source = refl

-- The end of the older of two goroutines takes the newer one out of the map.
forgotten :
    (end_stream (start_log_stream one_stream follow_app (some LogSource.log_file)) 0).streams ≡ []
unfolding end_stream start_log_stream Dict.get Dict.put Dict.remove
forgotten = refl

cancel-Told_example :
    let one = cancel_log_stream one_stream "s" in
    let all = cancel_all_log_streams one_stream in
    (one.running ≡ one_stream.running)
    × All (λ g. Other "s" g ⊎ (is_cancelled one.cancelled g.0 ≡ true)) one_stream.running
    × (all.running ≡ one_stream.running)
    × All (λ g. is_cancelled all.cancelled g.0 ≡ true) one_stream.running
cancel-Told_example = cancel-Told one_stream "s" one_stream-Reached
