-- ===== src/Hub/Logs.antt =====
-- hub/internal/agenthub/logs.go: the broker of log chunks and the handler that shows a log. A channel is
-- a number; its queue has the oldest message first.
pub mod Broker
mod Tests
use breakerbox.Prelude.{
  ℕ, suc, String, Bool, true, false, not, List, [], ◌∷◌, ◌++◌, Option, none, some, ◌==◌, ltb, ◌&&◌,
  ◌||◌, str_eq, if◌then◌else◌, length,
}
use breakerbox.Prelude.Int.{ℤ, pos, ltb_ℤ}
use breakerbox.Prelude.Dict
use breakerbox.Prelude.Dict.{Dict}
use breakerbox.Protocol.{LogChunk, LogFollow}

pub record LogMsg : Type 0 where
  pub lines : List String
  pub eof : Bool

pub record LogBroker : Type 0 where
  pub streams : Dict ℕ
  pub queues : ℕ → List LogMsg
  pub next_channel : ℕ

abbrev pub channel_capacity : ℕ
channel_capacity = 32

-- newLogBroker
abbrev pub new_log_broker : LogBroker
new_log_broker = record { streams = []; queues = λ c. []; next_channel = 0 }

unfoldable pub set_queue : LogBroker → ℕ → List LogMsg → LogBroker
set_queue b c q = record b { queues = λ d. if d == c then q else b.queues d }

-- open; the channel is the number that was next
unfoldable pub open_stream : LogBroker → String → LogBroker
unfolding set_queue
open_stream b stream_id = record (set_queue b b.next_channel []) {
  streams = Dict.put b.streams stream_id b.next_channel;
  next_channel = suc b.next_channel;
}

-- close
unfoldable pub close_stream : LogBroker → String → LogBroker
close_stream b stream_id = record b { streams = Dict.remove b.streams stream_id }

abbrev pub msg_of : LogChunk → LogMsg
msg_of chunk = record { lines = chunk.lines; eof = chunk.eof }

-- The select of deliver.
unfoldable pub offer : LogBroker → LogChunk → Option ℕ → LogBroker
unfolding set_queue
offer b chunk none = b
offer b chunk (some c) =
    if ltb (length (b.queues c)) channel_capacity
    then set_queue b c (b.queues c ++ msg_of chunk ∷ [])
    else b

unfoldable pub deliver_chunk : LogBroker → LogChunk → LogBroker
unfolding offer
deliver_chunk b chunk = offer b chunk (Dict.get b.streams chunk.stream_id)

unfoldable pub take_found : LogBroker → ℕ → List LogMsg → LogBroker × List LogMsg
unfolding set_queue
take_found b c [] = (b, [])
take_found b c (m ∷ queue) = (set_queue b c queue, m ∷ [])

-- `<-ch`, with the message, or nothing when it would wait
unfoldable pub take_msg : LogBroker → ℕ → LogBroker × List LogMsg
unfolding take_found
take_msg b c = take_found b c (b.queues c)

-- The calls of the broker: by the reader of the agents' frames and by the handlers.
pub data BrokerCall : Type 0 where
  delivers : LogChunk → BrokerCall
  opens closes : String → BrokerCall
  takes : ℕ → BrokerCall

-- What the handler writes to the browser.
pub data SseEvent : Type 0 where
  data_event : List String → SseEvent
  keepalive eof_end eof_disconnected : SseEvent

-- What its select finds.
pub data LogWake : Type 0 where
  request_done agent_gone heartbeat : LogWake
  message : LogMsg → LogWake

unfoldable pub lines_event : List String → List SseEvent
lines_event [] = []
lines_event (l ∷ lines) = data_event (l ∷ lines) ∷ []

-- One round of the loop: what is written, and whether the handler goes on.
unfoldable pub on_wake : LogWake → List SseEvent × Bool
unfolding lines_event
on_wake LogWake.request_done = ([], false)
on_wake LogWake.agent_gone = (SseEvent.eof_disconnected ∷ [], false)
on_wake LogWake.heartbeat = (SseEvent.keepalive ∷ [], true)
on_wake (LogWake.message m) =
    if m.eof
    then (lines_event m.lines ++ SseEvent.eof_end ∷ [], false)
    else (lines_event m.lines, true)

unfoldable pub serve_log : List LogWake → List SseEvent
unfolding on_wake
serve_log [] = []
serve_log (wake ∷ wakes) =
    let rest = serve_log wakes in (on_wake wake).0 ++ (if (on_wake wake).1 then rest else [])

-- Why the handler refuses.
pub data LogRefusal : Type 0 where
  auth_required invalid_token no_such_app agent_offline send_failed : LogRefusal

-- A request: its session, the token of its query and its header, and the tail of its query, 0 when it is
-- no number.
pub record LogRequest : Type 0 where
  pub has_session : Bool
  pub query_token : String
  pub header_token : String
  pub app_id : String
  pub tail : ℤ

unfoldable pub check_token : (String → Bool) → String → Option LogRefusal
check_token is_valid token =
    if str_eq token ""
    then some LogRefusal.auth_required
    else if is_valid token
    then none
    else some LogRefusal.invalid_token

-- authSSE, with FindAuthRecordByToken
unfoldable pub auth_sse : (String → Bool) → LogRequest → Option LogRefusal
unfolding check_token
auth_sse is_valid r =
    if r.has_session
    then none
    else check_token is_valid (if str_eq r.query_token "" then r.header_token else r.query_token)

-- `if tail <= 0 || tail > 2000 { tail = 200 }`
unfoldable pub log_tail : ℤ → ℤ
log_tail n = if ltb_ℤ (pos 0) n && not (ltb_ℤ (pos 2000) n) then n else pos 200

-- The frames that the handler sends to the agent.
pub data LogOrder : Type 0 where
  log_follow : LogFollow → LogOrder
  log_cancel : String → LogOrder

-- What the handler leads to: its calls of the broker beside those that take a message, the orders to
-- the agent's connection, and the refusal or the events of the stream.
pub record LogReply : Type 0 where
  pub calls : List BrokerCall
  pub orders : List (ℕ × LogOrder)
  pub refused : Option LogRefusal
  pub events : List SseEvent

-- The system of an app, the connection of a system, whether a send succeeds, and the id from randomID.
pub record LogHub : Type 0 where
  pub system_of : String → Option String
  pub connection : String → Option ℕ
  pub sends : ℕ → Bool
  pub is_valid : String → Bool
  pub new_id : String

abbrev refuse : LogRefusal → LogReply
refuse why = record { calls = []; orders = []; refused = some why; events = [] }

-- From the opening of the stream to the deferred function; the wakes come while it is open.
unfoldable pub follow_on : LogHub → LogRequest → List LogWake → ℕ → LogReply
unfolding log_tail serve_log
follow_on h r wakes c =
    let order =
      log_follow (record { stream_id = h.new_id; app_id = r.app_id; tail_n = log_tail r.tail }) in
    record {
      calls = opens h.new_id ∷ closes h.new_id ∷ [];
      orders = (c, order) ∷ (c, log_cancel h.new_id) ∷ [];
      refused = if h.sends c then none else some LogRefusal.send_failed;
      events = if h.sends c then serve_log wakes else [];
    }

unfoldable pub follow_connected : LogHub → LogRequest → List LogWake → Option ℕ → LogReply
unfolding follow_on
follow_connected h r wakes none = refuse LogRefusal.agent_offline
follow_connected h r wakes (some c) = follow_on h r wakes c

unfoldable pub follow_found : LogHub → LogRequest → List LogWake → Option String → LogReply
unfolding follow_connected
follow_found h r wakes none = refuse LogRefusal.no_such_app
follow_found h r wakes (some system) = follow_connected h r wakes (h.connection system)

unfoldable pub follow_allowed : LogHub → LogRequest → List LogWake → Option LogRefusal → LogReply
unfolding follow_found
follow_allowed h r wakes (some why) = refuse why
follow_allowed h r wakes none = follow_found h r wakes (h.system_of r.app_id)

-- The handler of registerLogRoute.
unfoldable pub show_log : LogHub → LogRequest → List LogWake → LogReply
unfolding follow_allowed auth_sse
show_log h r wakes = follow_allowed h r wakes (auth_sse h.is_valid r)
