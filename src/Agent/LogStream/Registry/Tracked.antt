-- ===== src/Agent/LogStream/Registry/Tracked.antt =====
-- Each goroutine has its context cancelled or in the map, whatever an operation does.
use breakerbox.Prelude.{
  ℕ, String, true, List, [], ◌∷◌, Option, none, some, ◌≡◌, inl, inr, refl, sym, ap, ◌∙◌, subst,
  arith, ◌==◌, ◌||◌, str_eq, eq_iff, Bool-cases, All, All-map,
}
use breakerbox.Prelude.Dict
use breakerbox.Prelude.Dict.{Dict, get-put, get-put_self, get-remove}
use breakerbox.Agent.LogStream.Registry.{
  LogSource, LogStreams, begin_source, cancel_all_log_streams, cancel_all_log_streams, cancel_found,
  cancel_log_stream, contexts, cancel_log_stream, contexts, emit_found, is_cancelled, end_found,
  is_cancelled, leave, register_stream, start_found, stream_of, send_log_chunk, send_log_chunk,
}
use breakerbox.Agent.LogStream.Registry.Contexts.{
  Apart, Live, Other, cancelled-append, cancelled-more, contexts-cancelled, leave-All, leave-Apart,
  leave-Other,
}

pub record Tracked (s : LogStreams) : Type 0 where
  pub live : All (Live s.streams s.cancelled) s.running
  pub apart : Apart s.running

cancel_found-Live :
    (s : LogStreams) (found : Option ℕ) (g : ℕ × String)
    → Live s.streams s.cancelled g
    → Live (cancel_found s found).streams (cancel_found s found).cancelled g
unfolding cancel_found
cancel_found-Live s none g h = h
cancel_found-Live s (some c) g (inl done) = inl (cancelled-more c g.0 s.cancelled done)
cancel_found-Live s (some c) g (inr held) = inr held

pub cancel_found-Tracked :
    (s : LogStreams) (found : Option ℕ) → Tracked s → Tracked (cancel_found s found)
unfolding cancel_found
cancel_found-Tracked s none h = h
cancel_found-Tracked s (some c) h = record {
  live =
      All-map (Live s.streams s.cancelled) (Live s.streams (c ∷ s.cancelled))
        (cancel_found-Live s (some c)) s.running h.live;
  apart = h.apart;
}

put-Live :
    (streams : Dict ℕ) (cancelled : List ℕ) (id : String) (n : ℕ) (running : List (ℕ × String))
    → All (Other id) running
    → All (Live streams cancelled) running
    → All (Live (Dict.put streams id n) cancelled) running
put-Live streams cancelled id n [] other h = tt
put-Live streams cancelled id n (g ∷ running) other h = (
  elim h.0 [
    | inl done ↦ inl done
    | inr held ↦
        inr (ground (arith, get-put streams id g.1 n, eq_iff id g.1, eq_iff g.1 id, other.0, held))
  ],
  put-Live streams cancelled id n running other.1 h.1,
)

remove-Live :
    (streams : Dict ℕ) (cancelled : List ℕ) (id : String) (running : List (ℕ × String))
    → All (Other id) running
    → All (Live streams cancelled) running
    → All (Live (Dict.remove streams id) cancelled) running
remove-Live streams cancelled id [] other h = tt
remove-Live streams cancelled id (g ∷ running) other h = (
  elim h.0 [
    | inl done ↦ inl done
    | inr held ↦
        inr (ground (arith, get-remove streams id g.1, eq_iff id g.1, eq_iff g.1 id, other.0, held))
  ],
  remove-Live streams cancelled id running other.1 h.1,
)

pub running-cancel_found :
    (s : LogStreams) (found : Option ℕ) → (cancel_found s found).running ≡ s.running
unfolding cancel_found
running-cancel_found s none = refl
running-cancel_found s (some c) = refl

next-cancel_found :
    (s : LogStreams) (found : Option ℕ) → (cancel_found s found).next_context ≡ s.next_context
unfolding cancel_found
next-cancel_found s none = refl
next-cancel_found s (some c) = refl

-- The stream that startLogStream has put into the map.
pub record Registered (id : String) (n : ℕ) (s : LogStreams) : Type 0 where
  pub tracked : Tracked s
  pub alone : All (Other id) s.running
  pub mapped : Dict.get s.streams id ≡ some n

pub register_stream-Registered :
    (s : LogStreams) (id : String)
    → All (Other id) s.running
    → Tracked s
    → Registered id s.next_context (register_stream s id)
unfolding register_stream
register_stream-Registered s id other h =
    let found = Dict.get s.streams id in
    let s1 = cancel_found s found in
    let h1 = cancel_found-Tracked s found h in
    let other1 = subst (All (Other id)) (sym (running-cancel_found s found)) other in
    record {
      tracked = record {
        live = put-Live s1.streams s1.cancelled id s1.next_context s1.running other1 h1.live;
        apart = h1.apart;
      };
      alone = other1;
      mapped =
          get-put_self s1.streams id s1.next_context ∙ ap (λ n. some n) (next-cancel_found s found);
    }

begin_source-Tracked :
    (s : LogStreams) (id : String) (source : LogSource)
    → Tracked s
    → Tracked (begin_source s id source)
unfolding begin_source send_log_chunk
begin_source-Tracked s id LogSource.no_docker h = record { live = h.live; apart = h.apart }
begin_source-Tracked s id LogSource.container h = h
begin_source-Tracked s id LogSource.compose_project h = h
begin_source-Tracked s id LogSource.log_file h = h

pub start_found-Tracked :
    (s : LogStreams) (n : ℕ) (id : String) (app : Option LogSource)
    → Registered id n s
    → Tracked (start_found s n id app)
unfolding start_found send_log_chunk
start_found-Tracked s n id none h =
    cancel_found-Tracked _ (some n) (record { live = h.tracked.live; apart = h.tracked.apart })
start_found-Tracked s n id (some source) h =
    begin_source-Tracked (record s { running = (n, id) ∷ s.running }) id source
      (record { live = (inr h.mapped, h.tracked.live); apart = (h.alone, h.tracked.apart) })

pub emit_found-Tracked :
    (s : LogStreams) (lines : List String) (found : Option String)
    → Tracked s
    → Tracked (emit_found s lines found)
unfolding emit_found send_log_chunk
emit_found-Tracked s lines none h = h
emit_found-Tracked s lines (some id) h = record { live = h.live; apart = h.apart }

pub end_found-Tracked :
    (s : LogStreams) (c : ℕ) (found : Option String)
    → stream_of c s.running ≡ found
    → Tracked s
    → Tracked (end_found s c found)
unfolding end_found send_log_chunk
end_found-Tracked s c none e h = h
end_found-Tracked s c (some id) e h = record {
  live =
      remove-Live s.streams s.cancelled id (leave c s.running)
        (leave-Other c s.running id e h.apart)
        (leave-All (Live s.streams s.cancelled) c s.running h.live);
  apart = leave-Apart c s.running h.apart;
}

-- A goroutine of the cancelled stream gets to know, and any other stays as it was.
pub cancelled-Live :
    (s : LogStreams) (id : String) (found : Option ℕ) (g : ℕ × String)
    → Dict.get s.streams id ≡ found
    → Live s.streams s.cancelled g
    → let t = cancel_found (record s { streams = Dict.remove s.streams id }) found in
      Live t.streams t.cancelled g × (g.1 ≡ id → is_cancelled t.cancelled g.0 ≡ true)
unfolding cancel_found is_cancelled
cancelled-Live s id none g e (inl done) = (inl done, λ same. done)
cancelled-Live s id none g e (inr held) = (
  inr (ground (arith, get-remove s.streams id g.1, eq_iff id g.1)),
  λ same. absurd (ground (arith, eq_iff id g.1)),
)
cancelled-Live s id (some c) g e (inl done) =
    let still = cancelled-more c g.0 s.cancelled done in (inl still, λ same. still)
cancelled-Live s id (some c) g e (inr held) = elim (Bool-cases (str_eq id g.1)) [
  | inl hit ↦
      let told : (c == g.0 || is_cancelled s.cancelled g.0) ≡ true =
        ground (arith, eq_iff id g.1) in
      (inl told, λ same. told)
  | inr miss ↦ (
    inr (ground (arith, get-remove s.streams id g.1, eq_iff id g.1)),
    λ same. absurd (ground (arith, eq_iff id g.1)),
  )
]

-- What cancelLogStream and cancelAllLogStreams tell the goroutines.
pub cancel_log_stream-Tracked :
    (s : LogStreams) (id : String) → Tracked s → Tracked (cancel_log_stream s id)
unfolding cancel_log_stream
cancel_log_stream-Tracked s id h =
    let found = Dict.get s.streams id in
    let t = cancel_found (record s { streams = Dict.remove s.streams id }) found in
    record {
      live =
          subst (All (Live t.streams t.cancelled))
            (sym (running-cancel_found (record s { streams = Dict.remove s.streams id }) found))
            (All-map (Live s.streams s.cancelled) (Live t.streams t.cancelled)
              (λ g live. (cancelled-Live s id found g refl live).0) s.running h.live);
      apart =
          subst Apart
            (sym (running-cancel_found (record s { streams = Dict.remove s.streams id }) found))
            h.apart;
    }

pub all_cancelled :
    (s : LogStreams) (g : ℕ × String)
    → Live s.streams s.cancelled g
    → is_cancelled (cancel_all_log_streams s).cancelled g.0 ≡ true
unfolding cancel_all_log_streams
all_cancelled s g (inl done) = cancelled-append (contexts s.streams) s.cancelled g.0 done
all_cancelled s g (inr held) = contexts-cancelled s.streams s.cancelled g.1 g.0 held
