-- ===== src/Hub/Logs/Broker.antt =====
-- What a log viewer gets through the broker.
pub mod Steps
pub mod Views
use breakerbox.Prelude.{
  ℕ, suc, ◌+◌, ◌≤◌, ◌<◌, String, Bool, true, false, List, [], ◌∷◌, ◌++◌, Option, none, some, ◌≡◌,
  ◌⊎◌, inl, inr, refl, sym, ap, ◌∙◌, subst, arith, ◌==◌, ltb, str_eq, eq_iff, if◌then◌else◌, length,
  length-append, All, if_rule, Bool-cases,
}
use mathlib.Core.List.{append_assoc, append-nil}
use breakerbox.Prelude.Dict
use breakerbox.Prelude.Dict.{Dict, get-put, get-put_self, get-remove}
use breakerbox.Protocol.{LogChunk}
use breakerbox.Hub.Logs.{
  BrokerCall, LogBroker, LogMsg, channel_capacity, close_stream, delivers, opens, closes, takes,
  deliver_chunk, msg_of, new_log_broker, offer, open_stream, set_queue, take_found, take_msg,
}

unfoldable pub broker_after : LogBroker → BrokerCall → LogBroker
unfolding deliver_chunk open_stream close_stream take_msg
broker_after b (delivers chunk) = deliver_chunk b chunk
broker_after b (opens id) = open_stream b id
broker_after b (closes id) = close_stream b id
broker_after b (takes c) = (take_msg b c).0

unfoldable pub run_broker : LogBroker → List BrokerCall → LogBroker
unfolding broker_after
run_broker b [] = b
run_broker b (call ∷ calls) = run_broker (broker_after b call) calls

-- What the handler of this channel takes in a call.
unfoldable pub taken_by : ℕ → LogBroker → BrokerCall → List LogMsg
unfolding take_msg
taken_by c b (takes d) = if d == c then (take_msg b d).1 else []
taken_by c b (delivers chunk) = []
taken_by c b (opens id) = []
taken_by c b (closes id) = []

unfoldable pub viewed : ℕ → LogBroker → List BrokerCall → List LogMsg
unfolding taken_by broker_after
viewed c b [] = []
viewed c b (call ∷ calls) = taken_by c b call ++ viewed c (broker_after b call) calls

-- The agent's chunks for one stream.
unfoldable pub chunk_for : String → BrokerCall → List LogMsg
chunk_for id (delivers chunk) = if str_eq chunk.stream_id id then msg_of chunk ∷ [] else []
chunk_for id (opens j) = []
chunk_for id (closes j) = []
chunk_for id (takes d) = []

unfoldable pub chunks_for : String → List BrokerCall → List LogMsg
unfolding chunk_for
chunks_for id [] = []
chunks_for id (call ∷ calls) = chunk_for id call ++ chunks_for id calls

-- No other handler uses the id.
abbrev pub KeepsId : String → BrokerCall → Type 0
KeepsId id (delivers chunk) = Unit
KeepsId id (opens j) = str_eq j id ≡ false
KeepsId id (closes j) = str_eq j id ≡ false
KeepsId id (takes d) = Unit

-- The first list is the second with some elements left out.
pub data LeavesOut : List LogMsg → List LogMsg → Type 0 where
  no_more : LeavesOut [] []
  keeps : (m : LogMsg) (xs ys : List LogMsg) → LeavesOut xs ys → LeavesOut (m ∷ xs) (m ∷ ys)
  drops : (m : LogMsg) (xs ys : List LogMsg) → LeavesOut xs ys → LeavesOut xs (m ∷ ys)

pub LeavesOut-append_left :
    (zs xs ys : List LogMsg) → LeavesOut xs ys → LeavesOut (zs ++ xs) (zs ++ ys)
LeavesOut-append_left [] xs ys h = h
LeavesOut-append_left (z ∷ zs) xs ys h =
    keeps z (zs ++ xs) (zs ++ ys) (LeavesOut-append_left zs xs ys h)

pub LeavesOut-refl : (xs : List LogMsg) → LeavesOut xs xs
LeavesOut-refl [] = no_more
LeavesOut-refl (x ∷ xs) = keeps x xs xs (LeavesOut-refl xs)

pub LeavesOut-trans : {xs ys zs : List LogMsg} → LeavesOut xs ys → LeavesOut ys zs → LeavesOut xs zs
LeavesOut-trans h no_more = h
LeavesOut-trans {xs} h (drops m ys zs k) = drops m xs zs (LeavesOut-trans h k)
LeavesOut-trans (keeps _ xs _ h) (keeps m ys zs k) = keeps m xs zs (LeavesOut-trans h k)
LeavesOut-trans (drops _ xs _ h) (keeps m ys zs k) = drops m xs zs (LeavesOut-trans h k)
