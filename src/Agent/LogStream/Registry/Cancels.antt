-- ===== src/Agent/LogStream/Registry/Cancels.antt =====
-- A stream that is cancelled, or loses its connection, gets to know.
use breakerbox.Prelude.{
  ℕ, String, true, List, [], Option, ◌≡◌, ◌⊎◌, inl, inr, refl, str_eq, eq_iff, Bool-cases, All,
  All-map,
}
use breakerbox.Prelude.Dict
use breakerbox.Protocol.{LogFollow}
use breakerbox.Agent.LogStream.Registry.{
  LogSource, LogStreams, cancel_all_log_streams, cancel_found, cancel_log_stream, emit_lines,
  end_stream, is_cancelled, register_stream, start_log_stream, stream_of,
}
use breakerbox.Agent.LogStream.Registry.Contexts.{Live, Other}
use breakerbox.Agent.LogStream.Registry.Tracked.{
  Tracked, all_cancelled, cancel_log_stream-Tracked, cancelled-Live, emit_found-Tracked,
  end_found-Tracked, register_stream-Registered, running-cancel_found, start_found-Tracked,
}

-- One step of the daemon's streams. A stream starts only with an id that no goroutine serves.
pub data StreamStep : LogStreams → LogStreams → Type 0 where
  starts :
      (s : LogStreams) (req : LogFollow) (app : Option LogSource)
      → All (Other req.stream_id) s.running
      → StreamStep s (start_log_stream s req app)
  emits : (s : LogStreams) (c : ℕ) (lines : List String) → StreamStep s (emit_lines s c lines)
  ends : (s : LogStreams) (c : ℕ) → StreamStep s (end_stream s c)
  cancels : (s : LogStreams) (stream_id : String) → StreamStep s (cancel_log_stream s stream_id)
  disconnects : (s : LogStreams) → StreamStep s (cancel_all_log_streams s)

abbrev pub no_streams : LogStreams
no_streams = record { streams = []; cancelled = []; running = []; next_context = 0; sent = [] }

pub data Reached : LogStreams → Type 0 where
  begun : Reached no_streams
  next : (s t : LogStreams) → Reached s → StreamStep s t → Reached t

told :
    (s : LogStreams) (id : String) (g : ℕ × String)
    → Live s.streams s.cancelled g
    → Other id g ⊎ (is_cancelled (cancel_log_stream s id).cancelled g.0 ≡ true)
unfolding cancel_log_stream
told s id g live = elim (Bool-cases (str_eq g.1 id)) [
  | inl same ↦
      inr ((cancelled-Live s id (Dict.get s.streams id) g refl live).1 ((eq_iff g.1 id).0 same))
  | inr other ↦ inl other
]

pub Reached-Tracked : (s : LogStreams) → Reached s → Tracked s
unfolding start_log_stream emit_lines end_stream cancel_log_stream cancel_all_log_streams
Reached-Tracked _ begun = record { live = tt; apart = tt }
Reached-Tracked _ (next s _ r (starts _ req app fresh)) =
    start_found-Tracked (register_stream s req.stream_id) s.next_context req.stream_id app
      (register_stream-Registered s req.stream_id fresh (Reached-Tracked s r))
Reached-Tracked _ (next s _ r (emits _ c lines)) =
    emit_found-Tracked s lines (stream_of c s.running) (Reached-Tracked s r)
Reached-Tracked _ (next s _ r (ends _ c)) =
    end_found-Tracked s c (stream_of c s.running) refl (Reached-Tracked s r)
Reached-Tracked _ (next s _ r (cancels _ id)) = cancel_log_stream-Tracked s id (Reached-Tracked s r)
Reached-Tracked _ (next s _ r (disconnects _)) =
    let h = Reached-Tracked s r in
    record {
      live =
          All-map (Live s.streams s.cancelled) (Live [] (cancel_all_log_streams s).cancelled)
            (λ g live. inl (all_cancelled s g live)) s.running h.live;
      apart = h.apart;
    }

-- As long as no stream id is used again while a goroutine still serves it, log_cancel cancels the
-- context of every goroutine that serves its stream, and the loss of the connection those of all
-- goroutines, and neither forgets a goroutine that runs.
pub cancel-Told :
    (s : LogStreams) (id : String)
    → Reached s
    → let one = cancel_log_stream s id in
      let all = cancel_all_log_streams s in
      (one.running ≡ s.running)
      × All (λ g. Other id g ⊎ (is_cancelled one.cancelled g.0 ≡ true)) s.running
      × (all.running ≡ s.running)
      × All (λ g. is_cancelled all.cancelled g.0 ≡ true) s.running
unfolding cancel_log_stream cancel_all_log_streams
cancel-Told s id r =
    let h = Reached-Tracked s r in
    let found = Dict.get s.streams id in
    let t = cancel_found (record s { streams = Dict.remove s.streams id }) found in
    (
      running-cancel_found (record s { streams = Dict.remove s.streams id }) found,
      All-map (Live s.streams s.cancelled) (λ g. Other id g ⊎ (is_cancelled t.cancelled g.0 ≡ true))
          (told s id) s.running h.live,
      refl,
      All-map (Live s.streams s.cancelled)
          (λ g. is_cancelled (cancel_all_log_streams s).cancelled g.0 ≡ true) (all_cancelled s)
          s.running h.live,
    )
