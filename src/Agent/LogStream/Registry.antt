-- ===== src/Agent/LogStream/Registry.antt =====
-- startLogStream, cancelLogStream and cancelAllLogStreams of agent/internal/daemon/logstream.go: the
-- map of streams and their goroutines. A context is a number, fresh for each stream.
pub mod Contexts
pub mod Tracked
pub mod Cancels
use breakerbox.Prelude.{
  ℕ, suc, String, Bool, true, false, List, [], ◌∷◌, ◌++◌, Option, none, some, ◌==◌, ◌||◌,
  if◌then◌else◌,
}
use breakerbox.Prelude.Dict
use breakerbox.Prelude.Dict.{Dict}
use breakerbox.Protocol.{AppKind, LogChunk, LogFollow}

-- `sent` are the chunks that went to the hub, newest last; `running` are the goroutines, with their
-- contexts and streams.
pub record LogStreams : Type 0 where
  pub streams : Dict ℕ
  pub cancelled : List ℕ
  pub running : List (ℕ × String)
  pub next_context : ℕ
  pub sent : List LogChunk

-- What a goroutine follows.
pub data LogSource : Type 0 where
  no_docker container compose_project log_file : LogSource

unfoldable pub source_of : Bool → AppKind → LogSource
source_of true AppKind.docker = LogSource.container
source_of false AppKind.docker = LogSource.no_docker
source_of docker AppKind.compose = LogSource.compose_project
source_of docker AppKind.process = LogSource.log_file
source_of docker AppKind.unset = LogSource.log_file
source_of docker (AppKind.other kind) = LogSource.log_file

unfoldable pub send_log_chunk : LogStreams → String → List String → Bool → LogStreams
send_log_chunk s stream_id lines eof = record s {
  sent = s.sent ++ (record { stream_id = stream_id; lines = lines; eof = eof }) ∷ [];
}

unfoldable pub cancel_found : LogStreams → Option ℕ → LogStreams
cancel_found s none = s
cancel_found s (some c) = record s { cancelled = c ∷ s.cancelled }

-- `if cancel, dup := …; dup { cancel() }` and the new context
unfoldable pub register_stream : LogStreams → String → LogStreams
unfolding cancel_found
register_stream s stream_id =
    let s1 = cancel_found s (Dict.get s.streams stream_id) in
    record s1 {
      streams = Dict.put s1.streams stream_id s1.next_context;
      next_context = suc s1.next_context;
    }

-- What the goroutine emits before it follows anything.
unfoldable pub begin_source : LogStreams → String → LogSource → LogStreams
unfolding send_log_chunk
begin_source s stream_id LogSource.no_docker =
    send_log_chunk s stream_id ("[breakerbox] docker unavailable on this host" ∷ []) false
begin_source s stream_id LogSource.container = s
begin_source s stream_id LogSource.compose_project = s
begin_source s stream_id LogSource.log_file = s

unfoldable pub start_found : LogStreams → ℕ → String → Option LogSource → LogStreams
unfolding send_log_chunk cancel_found begin_source
start_found s context stream_id none =
    cancel_found (send_log_chunk s stream_id ("[breakerbox] unknown app" ∷ []) true) (some context)
start_found s context stream_id (some source) =
    begin_source (record s { running = (context, stream_id) ∷ s.running }) stream_id source

-- startLogStream, for what d.state.Apps has under the app's id
unfoldable pub start_log_stream : LogStreams → LogFollow → Option LogSource → LogStreams
unfolding register_stream start_found
start_log_stream s req app =
    start_found (register_stream s req.stream_id) s.next_context req.stream_id app

unfoldable pub stream_of : ℕ → List (ℕ × String) → Option String
stream_of c [] = none
stream_of c ((d, id) ∷ running) = if d == c then some id else stream_of c running

unfoldable pub leave : ℕ → List (ℕ × String) → List (ℕ × String)
leave c [] = []
leave c ((d, id) ∷ running) =
    let rest = leave c running in if d == c then running else (d, id) ∷ rest

unfoldable pub end_found : LogStreams → ℕ → Option String → LogStreams
unfolding send_log_chunk leave
end_found s c none = s
end_found s c (some stream_id) =
    send_log_chunk
      (record s { streams = Dict.remove s.streams stream_id; running = leave c s.running })
      stream_id [] true

-- The deferred function of the goroutine with this context.
unfoldable pub end_stream : LogStreams → ℕ → LogStreams
unfolding end_found stream_of
end_stream s c = end_found s c (stream_of c s.running)

unfoldable pub emit_found : LogStreams → List String → Option String → LogStreams
unfolding send_log_chunk
emit_found s lines none = s
emit_found s lines (some stream_id) = send_log_chunk s stream_id lines false

-- `emit` in the goroutine with this context.
unfoldable pub emit_lines : LogStreams → ℕ → List String → LogStreams
unfolding emit_found stream_of
emit_lines s c lines = emit_found s lines (stream_of c s.running)

-- cancelLogStream
unfoldable pub cancel_log_stream : LogStreams → String → LogStreams
unfolding cancel_found
cancel_log_stream s stream_id =
    cancel_found (record s { streams = Dict.remove s.streams stream_id })
      (Dict.get s.streams stream_id)

unfoldable pub contexts : Dict ℕ → List ℕ
contexts [] = []
contexts ((id, c) ∷ streams) = c ∷ contexts streams

-- cancelAllLogStreams
unfoldable pub cancel_all_log_streams : LogStreams → LogStreams
unfolding contexts
cancel_all_log_streams s = record s { streams = []; cancelled = contexts s.streams ++ s.cancelled }

-- `ctx.Err() != nil`
unfoldable pub is_cancelled : List ℕ → ℕ → Bool
is_cancelled [] c = false
is_cancelled (d ∷ cancelled) c = d == c || is_cancelled cancelled c
