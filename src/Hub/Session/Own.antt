-- ===== src/Hub/Session/Own.antt =====
-- What an agent's frames can do to the records of the systems.
use breakerbox.Prelude.{
  ℕ, String, List, [], ◌∷◌, Option, none, some, ◌≡◌, ◌⊎◌, inl, inr, refl, ap, ◌∙◌, arith, str_eq,
  eq_iff, if_rule, Bool-cases,
}
use breakerbox.Prelude.Dict
use breakerbox.Prelude.Dict.{get-put, get-put_self}
use breakerbox.Protocol.{Hello, TokenUsageRow}
use breakerbox.Protocol.Validate.{validate}
use breakerbox.Hub.State.{Hub, HubEnv, Reply, System, SystemStatus, hello_ack, save_system, write}
use breakerbox.Hub.Apps.{on_app_event, on_app_register, on_approval_event}
use breakerbox.Hub.Commands.{on_cmd_ack, on_cmd_result}
use breakerbox.Hub.Tokens.Spend.{Service}
use breakerbox.Hub.Session.{
  Incoming, Server, ServerEnv, app_event, app_register, approval_event, cmd_ack, cmd_result, hello,
  log_chunk, metrics, other_type, token_usage, undecodable, handle_frame, handle_frames,
  ingest_usage, on_hello, then_ack, then_app_sync, with_hello, with_hub, with_metrics, with_tokens,
}
use breakerbox.Hub.Session.Untouched.{
  Untouched, ack-Untouched, approval-Untouched, event-Untouched, register-Untouched,
  result-Untouched, sync-Untouched, write-Untouched,
}

-- Among the systems, at most the record of this one changes, and it keeps the key and the name of the
-- snapshot and is online then; the connections stay.
record OwnOnly (id : String) (snapshot : System) (h g : Hub) : Type 0 where
  conns : g.conns ≡ h.conns
  others : (j : String) → (id ≡ j) ⊎ (Dict.get g.systems j ≡ Dict.get h.systems j)
  own :
      (Dict.get g.systems id ≡ Dict.get h.systems id)
      ⊎ (t : System) × (Dict.get g.systems id ≡ some t)
        × (t.public_key ≡ snapshot.public_key)
        × (t.name ≡ snapshot.name)
        × (t.status ≡ SystemStatus.online)

Untouched-own :
    {id : String} {snapshot : System} {h : Hub} {r : Reply}
    → Untouched h r
    → OwnOnly id snapshot h r.0
Untouched-own {id = id} u = record {
  conns = u.conns;
  others = λ j. inr (ap (λ m. Dict.get m j) u.systems);
  own = inl (ap (λ m. Dict.get m id) u.systems);
}

own_trans :
    {id : String} {snapshot : System} {h g k : Hub}
    → OwnOnly id snapshot h g
    → OwnOnly id snapshot g k
    → OwnOnly id snapshot h k
own_trans a b = record {
  conns = b.conns ∙ a.conns;
  others = λ j. elim (b.others j) [
    | inl same ↦ inl same
    | inr later ↦ elim (a.others j) [ inl same ↦ inl same | inr first ↦ inr (later ∙ first) ]
  ];
  own = elim b.own [
    | inr new ↦ inr new
    | inl later ↦ elim a.own [
      | inl first ↦ inl (later ∙ first)
      | inr (t, there, key, name, status) ↦ inr (t, later ∙ there, key, name, status)
    ]
  ];
}

app_sync_own :
    {id : String} {snapshot : System} {h : Hub} (e : HubEnv) (c : ℕ) (r : Reply)
    → OwnOnly id snapshot h r.0
    → OwnOnly id snapshot h (then_app_sync e id c r).0
unfolding then_app_sync
app_sync_own {id = id} e c (g, none) own = own_trans own (Untouched-own (sync-Untouched e g id c))
app_sync_own e c (g, some why) own = own

ack_own :
    {id : String} {snapshot : System} {h : Hub} (e : HubEnv) (c : ℕ) (r : Reply)
    → OwnOnly id snapshot h r.0
    → OwnOnly id snapshot h (then_ack e id c r).0
unfolding then_ack
ack_own {id = id} e c (g, none) own =
    app_sync_own e c (write e g c (hello_ack e.now))
      (own_trans own (Untouched-own (write-Untouched e g c (hello_ack e.now))))
ack_own e c (g, some why) own = own

save_own :
    (e : HubEnv) (h : Hub) (id : String) (snapshot : System) (p : Hello)
    → OwnOnly id snapshot h (save_system e h id (with_hello e.now snapshot p)).0
unfolding save_system with_hello
save_own e h id snapshot p =
    let new = with_hello e.now snapshot p in
    if_rule (λ (r : Reply). OwnOnly id snapshot h r.0) (e.system_saved new)
      {x = (record h { systems = Dict.put h.systems id new }, none)}
      (λ _. record {
        conns = refl;
        others = λ j. elim (Bool-cases (str_eq id j)) [
          | inl same ↦ inl ((eq_iff id j).0 same)
          | inr differ ↦ inr (ground (arith, get-put h.systems id j new))
        ];
        own = inr (new, get-put_self h.systems id new, refl, refl, refl);
      })
      (λ _. record { conns = refl; others = λ j. inr refl; own = inl refl })

module _ {N F : Type 0} (e : ServerEnv N F) (id : String) (c : ℕ) where
  usage_own :
      (snapshot : System) (s : Server N F) (rows : List TokenUsageRow) (t : Option (Service N))
      → OwnOnly id snapshot s.hub (ingest_usage e id c s rows t).0.hub
  unfolding ingest_usage with_tokens
  usage_own snapshot s rows none = record { conns = refl; others = λ j. inr refl; own = inl refl }
  usage_own snapshot s rows (some t) = record {
    conns = refl;
    others = λ j. inr refl;
    own = inl refl;
  }

  frame_own :
      (s : Server N F) (snapshot : System) (f : Incoming F)
      → OwnOnly id snapshot s.hub (handle_frame e id c s snapshot f).0.hub
  unfolding handle_frame with_hub with_metrics on_hello on_app_event on_cmd_ack on_cmd_result
      on_app_register on_approval_event
  frame_own s snapshot (hello p) =
      ack_own e.hub_env c (save_system e.hub_env s.hub id (with_hello e.hub_env.now snapshot p))
        (save_own e.hub_env s.hub id snapshot p)
  frame_own s snapshot (metrics batch) = record {
    conns = refl;
    others = λ j. inr refl;
    own = inl refl;
  }
  frame_own s snapshot (app_event ev) =
      Untouched-own (event-Untouched e.hub_env s.hub ev (Dict.get s.hub.apps ev.app_id))
  frame_own s snapshot (cmd_ack k) =
      Untouched-own (ack-Untouched e.hub_env s.hub k (Dict.get s.hub.commands k))
  frame_own s snapshot (cmd_result k res) =
      Untouched-own (result-Untouched e.hub_env s.hub k res (Dict.get s.hub.commands k))
  frame_own s snapshot (app_register def) =
      Untouched-own (register-Untouched e.hash e.hub_env s.hub id c def (validate def))
  frame_own s snapshot (token_usage rows) = usage_own snapshot s rows s.tokens
  frame_own s snapshot (log_chunk chunk) = record {
    conns = refl;
    others = λ j. inr refl;
    own = inl refl;
  }
  frame_own s snapshot (approval_event ev) =
      Untouched-own (approval-Untouched e.hub_env s.hub ev (Dict.get s.hub.apps ev.app_id))
  frame_own s snapshot undecodable = record { conns = refl; others = λ j. inr refl; own = inl refl }
  frame_own s snapshot other_type = record { conns = refl; others = λ j. inr refl; own = inl refl }

  frames_own :
      (s : Server N F) (snapshot : System) (frames : List (Incoming F))
      → OwnOnly id snapshot s.hub (handle_frames e id c s snapshot frames).hub
  unfolding handle_frames
  frames_own s snapshot [] = record { conns = refl; others = λ j. inr refl; own = inl refl }
  frames_own s snapshot (f ∷ frames) =
      own_trans (frame_own s snapshot f)
        (frames_own (handle_frame e id c s snapshot f).0 snapshot frames)

-- Whatever frames an agent sends on its connection, the hub's connections and the records of other
-- systems stay as they are, and the record of its own system stays, or has the public key and the name
-- that it had when the agent connected and is online.
pub handle_frames-own :
    {N F : Type 0} (e : ServerEnv N F) (id : String) (c : ℕ) (s : Server N F) (snapshot : System)
    (frames : List (Incoming F))
    → let after = (handle_frames e id c s snapshot frames).hub in
      (after.conns ≡ s.hub.conns)
      × ((j : String) → (id ≡ j) ⊎ (Dict.get after.systems j ≡ Dict.get s.hub.systems j))
      × ((Dict.get after.systems id ≡ Dict.get s.hub.systems id)
          ⊎ (t : System) × (Dict.get after.systems id ≡ some t)
            × (t.public_key ≡ snapshot.public_key)
            × (t.name ≡ snapshot.name)
            × (t.status ≡ SystemStatus.online))
handle_frames-own e id c s snapshot frames =
    let own = frames_own e id c s snapshot frames in (own.conns, own.others, own.own)
