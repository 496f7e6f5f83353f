-- ===== src/Hub/Logs/Broker/Steps.antt =====
-- One call of the broker, seen from the handler of one stream.
use breakerbox.Prelude.{
  ℕ, ◌+◌, ◌≤◌, ◌<◌, String, false, List, [], ◌∷◌, ◌++◌, Option, none, some, ◌≡◌, ◌⊎◌, inl, inr,
  refl, sym, ap, ◌∙◌, subst, arith, ◌==◌, ltb, str_eq, eq_iff, if◌then◌else◌, length, length-append,
  if_rule, Bool-cases,
}
use mathlib.Core.List.{append-nil}
use breakerbox.Prelude.Dict
use breakerbox.Prelude.Dict.{Dict, get-put, get-put_self, get-remove}
use breakerbox.Protocol.{LogChunk}
use breakerbox.Hub.Logs.{
  BrokerCall, LogBroker, LogMsg, channel_capacity, close_stream, delivers, opens, closes, takes,
  deliver_chunk, msg_of, offer, open_stream, set_queue, take_found, take_msg,
}
use breakerbox.Hub.Logs.Broker.{KeepsId, broker_after, chunk_for, taken_by}

-- The stream has this channel to itself.
pub record Owns (id : String) (c : ℕ) (b : LogBroker) : Type 0 where
  pub mapped : Dict.get b.streams id ≡ some c
  pub alone : (j : String) → Dict.get b.streams j ≡ some c → j ≡ id
  pub old : c < b.next_channel
  pub short : length (b.queues c) ≤ channel_capacity

-- A call moves messages from the stream's chunks through the queue to the handler, or finds the queue
-- full.
pub record Moves (id : String) (c : ℕ) (q : List LogMsg) (call : BrokerCall) (tk : List LogMsg)
    (b : LogBroker) : Type 0 where
  pub owns : Owns id c b
  pub moved :
      (tk ++ b.queues c ≡ q ++ chunk_for id call)
      ⊎ (tk ≡ []) × (b.queues c ≡ q) × (channel_capacity < length (q ++ chunk_for id call))

-- A call that leaves the stream alone.
still-Moves :
    {id : String} {c : ℕ} {b : LogBroker} (call : BrokerCall)
    → chunk_for id call ≡ []
    → Owns id c b
    → Moves id c (b.queues c) call [] b
still-Moves {c = c} {b = b} call e h = record {
  owns = h;
  moved = inl (sym (ap (λ l. b.queues c ++ l) e ∙ append-nil (b.queues c)));
}

queue-set_queue :
    (b : LogBroker) (c d : ℕ) (q : List LogMsg)
    → (set_queue b c q).queues d ≡ (if d == c then q else b.queues d)
unfolding set_queue
queue-set_queue b c d q = refl

queue_self : (b : LogBroker) (c : ℕ) (q : List LogMsg) → (set_queue b c q).queues c ≡ q
unfolding set_queue
queue_self b c q = ground arith

queue_other :
    (b : LogBroker) (c d : ℕ) (q : List LogMsg)
    → (c == d) ≡ false
    → (set_queue b d q).queues c ≡ b.queues c
unfolding set_queue
queue_other b c d q other = rw other refl

set_queue-Owns :
    {id : String} {c : ℕ} {b : LogBroker} (d : ℕ) (q : List LogMsg)
    → length ((set_queue b d q).queues c) ≤ channel_capacity
    → Owns id c b
    → Owns id c (set_queue b d q)
unfolding set_queue
set_queue-Owns d q short h = record {
  mapped = h.mapped;
  alone = h.alone;
  old = h.old;
  short = short;
}

other_queue-Moves :
    {id : String} {c : ℕ} {b : LogBroker} (call : BrokerCall) (d : ℕ) (q : List LogMsg)
    → chunk_for id call ≡ []
    → (c == d) ≡ false
    → Owns id c b
    → Moves id c (b.queues c) call [] (set_queue b d q)
other_queue-Moves {id} {c} {b} call d q none_for other h =
    let same = queue_other b c d q other in
    subst (λ old. Moves id c old call [] (set_queue b d q)) same
      (still-Moves call none_for (set_queue-Owns d q (omega (arith, ap length same, h.short)) h))

offer_ours :
    {id : String} {c : ℕ} {b : LogBroker} (chunk : LogChunk)
    → chunk_for id (delivers chunk) ≡ msg_of chunk ∷ []
    → Owns id c b
    → Moves id c (b.queues c) (delivers chunk) [] (offer b chunk (some c))
unfolding offer
offer_ours {id} {c} {b} chunk ours h =
    let q = b.queues c in
    let more : LogBroker = set_queue b c (q ++ msg_of chunk ∷ []) in
    let longer : length (q ++ chunk_for id (delivers chunk)) ≡ length q + 1 =
      ap (λ l. length (q ++ l)) ours ∙ length-append q (msg_of chunk ∷ []) in
    if_rule (Moves id c q (delivers chunk) []) (ltb (length q) channel_capacity) {x = more}
      (λ room.
        let self = queue_self b c (q ++ msg_of chunk ∷ []) in
        record {
          owns =
              set_queue-Owns c (q ++ msg_of chunk ∷ [])
                (ground (arith, ap length self, length-append q (msg_of chunk ∷ []))) h;
          moved = inl (self ∙ ap (λ l. q ++ l) (sym ours));
        })
      (λ full. record { owns = h; moved = inr (refl, refl, ground (arith, longer)) })

offer_other :
    {id : String} {c : ℕ} {b : LogBroker} (chunk : LogChunk) (found : Option ℕ)
    → Dict.get b.streams chunk.stream_id ≡ found
    → str_eq chunk.stream_id id ≡ false
    → chunk_for id (delivers chunk) ≡ []
    → Owns id c b
    → Moves id c (b.queues c) (delivers chunk) [] (offer b chunk found)
unfolding offer
offer_other chunk none e other theirs h = still-Moves (delivers chunk) theirs h
offer_other {id} {c} {b} chunk (some d) e other theirs h =
    let apart : (c == d) ≡ false = elim (Bool-cases (c == d)) [
      | inl same ↦
          let theirs_too : Dict.get b.streams chunk.stream_id ≡ some c = ground arith in
          absurd (ground (arith, eq_iff chunk.stream_id id, h.alone chunk.stream_id theirs_too))
      | inr differ ↦ differ
    ] in
    if_rule (Moves id c (b.queues c) (delivers chunk) [])
      (ltb (length (b.queues d)) channel_capacity)
      {x = set_queue b d (b.queues d ++ msg_of chunk ∷ [])}
      (λ room.
        other_queue-Moves (delivers chunk) d (b.queues d ++ msg_of chunk ∷ []) theirs apart h)
      (λ full. still-Moves (delivers chunk) theirs h)

delivers-Moves :
    {id : String} {c : ℕ} {b : LogBroker} (chunk : LogChunk)
    → Owns id c b
    → Moves id c (b.queues c) (delivers chunk) [] (deliver_chunk b chunk)
unfolding deliver_chunk chunk_for
delivers-Moves {id} {c} {b} chunk h = elim (Bool-cases (str_eq chunk.stream_id id)) [
  | inl ours ↦
      let found : Dict.get b.streams chunk.stream_id ≡ some c =
        ap (Dict.get b.streams) ((eq_iff chunk.stream_id id).0 ours) ∙ h.mapped in
      subst (λ f. Moves id c (b.queues c) (delivers chunk) [] (offer b chunk f)) (sym found)
        (offer_ours chunk (rw ours refl) h)
  | inr other ↦ offer_other chunk (Dict.get b.streams chunk.stream_id) refl other (rw other refl) h
]

opens-Moves :
    {id : String} {c : ℕ} {b : LogBroker} (j : String)
    → str_eq j id ≡ false
    → Owns id c b
    → Moves id c (b.queues c) (opens j) [] (open_stream b j)
unfolding open_stream set_queue chunk_for
opens-Moves {id} {c} {b} j other h =
    let apart : (c == b.next_channel) ≡ false = ground (arith, h.old) in
    let same : (open_stream b j).queues c ≡ b.queues c = queue_other b c b.next_channel [] apart in
    record {
      owns = record {
        mapped = ground (arith, get-put b.streams j id b.next_channel, eq_iff j id, h.mapped);
        alone = λ i e. elim (Bool-cases (str_eq j i)) [
          | inl hit ↦ absurd (ground (arith, get-put b.streams j i b.next_channel, h.old))
          | inr miss ↦ h.alone i (ground (arith, get-put b.streams j i b.next_channel))
        ];
        old = omega (arith, h.old);
        short = omega (arith, ap length same, h.short);
      };
      moved = inl (same ∙ sym (append-nil (b.queues c)));
    }

closes-Moves :
    {id : String} {c : ℕ} {b : LogBroker} (j : String)
    → str_eq j id ≡ false
    → Owns id c b
    → Moves id c (b.queues c) (closes j) [] (close_stream b j)
unfolding close_stream chunk_for
closes-Moves {id} {c} {b} j other h = record {
  owns = record {
    mapped = ground (arith, get-remove b.streams j id, eq_iff j id, h.mapped);
    alone = λ i e. elim (Bool-cases (str_eq j i)) [
      | inl hit ↦ absurd (ground (arith, get-remove b.streams j i))
      | inr miss ↦ h.alone i (ground (arith, get-remove b.streams j i))
    ];
    old = h.old;
    short = h.short;
  };
  moved = inl (sym (append-nil (b.queues c)));
}

take_other :
    {id : String} {c : ℕ} {b : LogBroker} (d : ℕ) (queue : List LogMsg)
    → (c == d) ≡ false
    → Owns id c b
    → Moves id c (b.queues c) (takes d) [] (take_found b d queue).0
unfolding take_found chunk_for
take_other d [] apart h = still-Moves (takes d) refl h
take_other d (m ∷ queue) apart h = other_queue-Moves (takes d) d queue refl apart h

take_ours :
    {id : String} {c : ℕ} {b : LogBroker} (queue : List LogMsg)
    → b.queues c ≡ queue
    → Owns id c b
    → Moves id c queue (takes c) (take_found b c queue).1 (take_found b c queue).0
unfolding take_found chunk_for
take_ours {id} {c} {b} [] e h =
    subst (λ q. Moves id c q (takes c) [] b) e (still-Moves (takes c) refl h)
take_ours {id} {c} {b} (m ∷ queue) e h =
    let self = queue_self b c queue in
    record {
      owns = set_queue-Owns c queue (omega (arith, ap length self, ap length e, h.short)) h;
      moved = inl (ap (λ l. m ∷ l) self ∙ sym (append-nil (m ∷ queue)));
    }

takes-Moves :
    {id : String} {c : ℕ} {b : LogBroker} (d : ℕ)
    → Owns id c b
    → Moves id c (b.queues c) (takes d) (taken_by c b (takes d)) (take_msg b d).0
unfolding take_msg taken_by
takes-Moves {id} {c} {b} d h = elim (Bool-cases (d == c)) [
  | inl hit ↦
      let same : c ≡ d = ground arith in
      rw hit (
        subst
          (λ k.
            Moves id c (b.queues c) (takes k) (take_found b k (b.queues k)).1
              (take_found b k (b.queues k)).0)
          same (take_ours (b.queues c) refl h))
  | inr miss ↦ rw miss (take_other d (b.queues d) (ground arith) h)
]

pub call-Moves :
    {id : String} {c : ℕ} {b : LogBroker} (call : BrokerCall)
    → KeepsId id call
    → Owns id c b
    → Moves id c (b.queues c) call (taken_by c b call) (broker_after b call)
unfolding broker_after taken_by
call-Moves (delivers chunk) kept h = delivers-Moves chunk h
call-Moves (opens j) kept h = opens-Moves j kept h
call-Moves (closes j) kept h = closes-Moves j kept h
call-Moves (takes d) kept h = takes-Moves d h
