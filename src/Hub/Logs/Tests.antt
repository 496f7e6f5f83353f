-- ===== src/Hub/Logs/Tests.antt =====
-- A log viewer beside another one, and the answers of the handler.
use breakerbox.Prelude.{
  String, true, false, List, [], ◌∷◌, ◌++◌, none, some, ◌≡◌, ◌⊎◌, ◌≤◌, ◌<◌, refl, length,
}
use breakerbox.Prelude.Int.{pos}
use breakerbox.Prelude.Dict
use breakerbox.Protocol.{LogChunk}
use breakerbox.Hub.Logs.{
  BrokerCall, LogHub, LogRefusal, LogRequest, LogWake, SseEvent, channel_capacity, closes,
  data_event, delivers, log_tail, message, new_log_broker, open_stream, opens, serve_log, show_log,
  takes,
}
use breakerbox.Hub.Logs.Broker.{LeavesOut, chunks_for, run_broker, viewed}
use breakerbox.Hub.Logs.Broker.Views.{viewed-LeavesOut}

abbrev line_for : String → String → LogChunk
line_for id line = record { stream_id = id; lines = line ∷ []; eof = false }

abbrev earlier_calls : List BrokerCall
earlier_calls = opens "a" ∷ delivers (line_for "a" "first") ∷ []

abbrev later_calls : List BrokerCall
later_calls =
    delivers (line_for "b" "one")
    ∷ opens "c"
    ∷ delivers (line_for "a" "second")
    ∷ takes 1
    ∷ delivers (line_for "b" "two")
    ∷ closes "a"
    ∷ []

one_taken :
    viewed 1 (open_stream (run_broker new_log_broker earlier_calls) "b") later_calls
    ≡ (record { lines = "one" ∷ []; eof = false }) ∷ []
unfolding viewed open_stream run_broker Dict.get Dict.put
one_taken = refl

viewed-LeavesOut_example :
    let b = run_broker new_log_broker earlier_calls in
    let got = viewed b.next_channel (open_stream b "b") later_calls in
    let waiting = (run_broker (open_stream b "b") later_calls).queues b.next_channel in
    LeavesOut (got ++ waiting) (chunks_for "b" later_calls)
    × (length waiting ≤ channel_capacity)
    × ((got ++ waiting ≡ chunks_for "b" later_calls)
        ⊎ (channel_capacity < length (chunks_for "b" later_calls)))
viewed-LeavesOut_example =
    viewed-LeavesOut earlier_calls later_calls "b" (tt, (refl, (tt, (tt, (tt, (refl, tt))))))

served :
    serve_log (
      message (record { lines = "x" ∷ []; eof = false })
      ∷ LogWake.heartbeat
      ∷ message (record { lines = []; eof = true })
      ∷ LogWake.heartbeat
      ∷ [])
    ≡ data_event ("x" ∷ []) ∷ SseEvent.keepalive ∷ SseEvent.eof_end ∷ []
unfolding serve_log
served = refl

abbrev offline_hub : LogHub
offline_hub = record {
  system_of = λ app. some "s1";
  connection = λ system. none;
  sends = λ c. true;
  is_valid = λ token. true;
  new_id = "b";
}

abbrev app_request : LogRequest
app_request = record {
  has_session = false;
  query_token = "t";
  header_token = "";
  app_id = "app";
  tail = pos 2001;
}

refused_offline : (show_log offline_hub app_request []).refused ≡ some LogRefusal.agent_offline
unfolding show_log
refused_offline = refl

tail_is_limited : log_tail (pos 2001) ≡ pos 200
unfolding log_tail
tail_is_limited = refl
