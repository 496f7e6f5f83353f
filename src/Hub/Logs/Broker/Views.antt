-- ===== src/Hub/Logs/Broker/Views.antt =====
-- All that a log viewer gets, while other viewers come and go.
use breakerbox.Prelude.{
  ℕ, ◌≤◌, ◌<◌, String, List, [], ◌∷◌, ◌++◌, Option, none, some, ◌≡◌, ◌⊎◌, inl, inr, refl, sym, ap,
  ◌∙◌, subst, arith, str_eq, eq_iff, length, length-append, All, Bool-cases, ltb, if_rule,
}
use mathlib.Core.List.{append_assoc, append-nil}
use breakerbox.Prelude.Dict
use breakerbox.Prelude.Dict.{get-put, get-put_self, get-remove}
use breakerbox.Protocol.{LogChunk}
use breakerbox.Hub.Logs.{
  BrokerCall, LogBroker, LogMsg, channel_capacity, close_stream, closes, deliver_chunk, delivers,
  msg_of, new_log_broker, offer, open_stream, opens, set_queue, take_found, take_msg, takes,
}
use breakerbox.Hub.Logs.Broker.{
  KeepsId, LeavesOut, LeavesOut-append_left, LeavesOut-refl, LeavesOut-trans, broker_after,
  chunk_for, chunks_for, run_broker, taken_by, viewed, drops,
}
use breakerbox.Hub.Logs.Broker.Steps.{Moves, Owns, call-Moves}

-- `got` is `sent` with chunks left out, none unless more came than the channel holds.
record Gets (got sent : List LogMsg) : Type 0 where
  some_left : LeavesOut got sent
  all_or_many : (got ≡ sent) ⊎ (channel_capacity < length sent)

LeavesOut-more : (xs ys : List LogMsg) → LeavesOut xs (ys ++ xs)
LeavesOut-more xs [] = LeavesOut-refl xs
LeavesOut-more xs (y ∷ ys) = drops y xs (ys ++ xs) (LeavesOut-more xs ys)

-- A call, and then the others.
Moves-Gets :
    {id : String} {c : ℕ} {q tk got : List LogMsg} {call : BrokerCall} {b : LogBroker}
    (rest : List LogMsg)
    → Moves id c q call tk b
    → Gets got (b.queues c ++ rest)
    → Gets (tk ++ got) (q ++ (chunk_for id call ++ rest))
Moves-Gets {id} {c} {q} {tk} {got} {call} {b} rest moves gets =
    let ch = chunk_for id call in
    let sizes = length-append q (ch ++ rest) in
    let more = length-append ch rest in
    elim moves.moved [
      | inl moved ↦
          let whole : tk ++ (b.queues c ++ rest) ≡ q ++ (ch ++ rest) =
            sym (append_assoc tk (b.queues c) rest)
            ∙ ap (λ l. l ++ rest) moved
            ∙ append_assoc q ch rest in
          record {
            some_left =
                subst (LeavesOut (tk ++ got)) whole
                  (LeavesOut-append_left tk got (b.queues c ++ rest) gets.some_left);
            all_or_many = elim gets.all_or_many [
              | inl all ↦ inl (ap (λ l. tk ++ l) all ∙ whole)
              | inr many ↦
                  inr (omega (arith, ap length whole, length-append tk (b.queues c ++ rest), many))
            ];
          }
      | inr (nothing, same, full) ↦ record {
        some_left =
            subst (λ l. LeavesOut (l ++ got) (q ++ (ch ++ rest))) (sym nothing)
              (LeavesOut-trans gets.some_left (
                subst (λ l. LeavesOut (l ++ rest) (q ++ (ch ++ rest))) (sym same)
                  (LeavesOut-append_left q rest (ch ++ rest) (LeavesOut-more rest ch))));
        all_or_many = inr (omega (arith, full, length-append q ch, sizes, more));
      }
    ]

record Viewing (id : String) (c : ℕ) (b : LogBroker) (calls : List BrokerCall) : Type 0 where
  gets :
      Gets (viewed c b calls ++ (run_broker b calls).queues c) (b.queues c ++ chunks_for id calls)
  short : length ((run_broker b calls).queues c) ≤ channel_capacity

calls-Viewing :
    {id : String} {c : ℕ} (b : LogBroker) (calls : List BrokerCall)
    → All (KeepsId id) calls
    → Owns id c b
    → Viewing id c b calls
unfolding run_broker viewed chunks_for
calls-Viewing {id} {c} b [] kept h = record {
  gets =
      subst (Gets (b.queues c)) (sym (append-nil (b.queues c)))
        (record { some_left = LeavesOut-refl (b.queues c); all_or_many = inl refl });
  short = h.short;
}
calls-Viewing {id} {c} b (call ∷ calls) kept h =
    let moves = call-Moves call kept.0 h in
    let b1 = broker_after b call in
    let later = calls-Viewing b1 calls kept.1 moves.owns in
    record {
      gets =
          subst (λ l. Gets l (b.queues c ++ (chunk_for id call ++ chunks_for id calls)))
            (sym (
              append_assoc (taken_by c b call) (viewed c b1 calls)
                ((run_broker b1 calls).queues c)))
            (Moves-Gets (chunks_for id calls) moves later.gets);
      short = later.short;
    }

-- No stream has a channel that is still to come.
record Older (b : LogBroker) : Type 0 where
  older : (j : String) (c : ℕ) → Dict.get b.streams j ≡ some c → c < b.next_channel

offer-Older :
    (b : LogBroker) (chunk : LogChunk) (found : Option ℕ) → Older b → Older (offer b chunk found)
unfolding offer set_queue
offer-Older b chunk none h = h
offer-Older b chunk (some d) h =
    if_rule Older (ltb (length (b.queues d)) channel_capacity)
      {x = set_queue b d (b.queues d ++ msg_of chunk ∷ [])} (λ room. record { older = h.older })
      (λ full. h)

take_found-Older :
    (b : LogBroker) (d : ℕ) (queue : List LogMsg) → Older b → Older (take_found b d queue).0
unfolding take_found set_queue
take_found-Older b d [] h = h
take_found-Older b d (m ∷ queue) h = record { older = h.older }

broker_after-Older : (b : LogBroker) (call : BrokerCall) → Older b → Older (broker_after b call)
unfolding broker_after deliver_chunk open_stream close_stream take_msg set_queue
broker_after-Older b (delivers chunk) h = offer-Older b chunk (Dict.get b.streams chunk.stream_id) h
broker_after-Older b (takes d) h = take_found-Older b d (b.queues d) h
broker_after-Older b (closes j) h = record {
  older = λ i c e. h.older i c (ground (arith, get-remove b.streams j i));
}
broker_after-Older b (opens j) h = record {
  older = λ i c e. elim (Bool-cases (str_eq j i)) [
    | inl hit ↦ ground (arith, get-put b.streams j i b.next_channel)
    | inr miss ↦
        let earlier = h.older i c (ground (arith, get-put b.streams j i b.next_channel)) in
        omega (arith, earlier)
  ];
}

run_broker-Older : (b : LogBroker) (calls : List BrokerCall) → Older b → Older (run_broker b calls)
unfolding run_broker
run_broker-Older b [] h = h
run_broker-Older b (call ∷ calls) h =
    run_broker-Older (broker_after b call) calls (broker_after-Older b call h)

open_stream-Owns :
    (b : LogBroker) (id : String) → Older b → Owns id b.next_channel (open_stream b id)
unfolding open_stream set_queue
open_stream-Owns b id h =
    let empty : (open_stream b id).queues b.next_channel ≡ [] = ground arith in
    record {
      mapped = get-put_self b.streams id b.next_channel;
      alone = λ j e. elim (Bool-cases (str_eq id j)) [
        | inl hit ↦ sym ((eq_iff id j).0 hit)
        | inr miss ↦
            let earlier =
              h.older j b.next_channel (ground (arith, get-put b.streams id j b.next_channel)) in
            absurd (omega (arith, earlier))
      ];
      old = omega arith;
      short = omega (arith, ap length empty);
    }

-- Whatever the broker did before a stream is opened, and whatever agents and other viewers do after, as
-- long as nobody else opens or closes its id, the viewer takes, and the channel holds, the chunks that
-- the agent sends for the stream, in order and at most once, with at most 32 waiting; none is lost
-- unless more than 32 came.
pub viewed-LeavesOut :
    (before after : List BrokerCall) (id : String)
    → All (KeepsId id) after
    → let b = run_broker new_log_broker before in
      let c = b.next_channel in
      let got = viewed c (open_stream b id) after in
      let waiting = (run_broker (open_stream b id) after).queues c in
      LeavesOut (got ++ waiting) (chunks_for id after)
      × (length waiting ≤ channel_capacity)
      × ((got ++ waiting ≡ chunks_for id after) ⊎ (channel_capacity < length (chunks_for id after)))
unfolding Dict.get open_stream set_queue
viewed-LeavesOut before after id kept =
    let b = run_broker new_log_broker before in
    let c = b.next_channel in
    let older = run_broker-Older new_log_broker before (record { older = λ j d e. cc }) in
    let viewing = calls-Viewing (open_stream b id) after kept (open_stream-Owns b id older) in
    let empty : (open_stream b id).queues c ≡ [] = ground arith in
    let gets =
      subst
        (λ q.
          Gets (viewed c (open_stream b id) after ++ (run_broker (open_stream b id) after).queues c)
            (q ++ chunks_for id after))
        empty viewing.gets in
    (gets.some_left, viewing.short, gets.all_or_many)
