-- ===== src/Hub/Commands/Lifecycle.antt =====
-- What the hub accepts as a command, and what becomes of it.
use breakerbox.Prelude.{
  ℕ, String, true, false, [], ◌∷◌, Option, none, some, ◌≡◌, refl, sym, ap, arith, inl, inr, ◌∙◌,
  Bool-cases, if_rule, str_eq, eq_iff, take,
}
use breakerbox.Prelude.Dict
use breakerbox.Prelude.Dict.{
  AllEntries, AllEntries-map, AllEntries-take, Dict, get-put, get-put_self,
}
use breakerbox.Protocol.{Cmd, Verb, is_approved, valid_verb}
use breakerbox.Hub.State.{
  AppRecord, Command, Hub, HubEnv, HubError, Reply, save_app, save_command, write,
}
use breakerbox.Hub.Registry.{dispatch, dispatch_to}
use breakerbox.Hub.Commands.{
  CommandRequest, after_dispatch, create_command, create_for, definition_hash_of, dispatch_created,
  is_stale, pending_command, record_intent, stale_commands, sweep, sweep_all, then_dispatch,
  timed_out,
}

-- The command is for this app, on this system, with this verb.
abbrev pub IsFor : CommandRequest → AppRecord → Command → Type 0
IsFor req a c = (c.system ≡ a.system) × (c.app ≡ req.app) × (c.verb ≡ req.verb)

abbrev pub IsStored : Hub → String → CommandRequest → AppRecord → Type 0
IsStored h id req a = (c : Command) × (Dict.get h.commands id ≡ some c) × IsFor req a c

save_command-IsStored :
    (e : HubEnv) (h : Hub) (id : String) (c : Command) (req : CommandRequest) (a : AppRecord)
    → IsFor req a c
    → IsStored h id req a
    → IsStored (save_command e h id c).0 id req a
unfolding save_command
save_command-IsStored e h id c req a for s =
    if_rule (λ (r : Reply). IsStored r.0 id req a) (e.command_saved c)
      (λ _. (record c { updated = e.now }, get-put_self h.commands id _, for)) (λ _. s)

dispatch-commands :
    (e : HubEnv) (h : Hub) (c : Cmd) (o : Option ℕ) → (dispatch_to e h c o).0.commands ≡ h.commands
unfolding dispatch_to write
dispatch-commands e h c none = refl
dispatch-commands e h c (some conn) = ground arith

after_dispatch-IsFor :
    (req : CommandRequest) (a : AppRecord) (c : Command) (o : Option HubError)
    → IsFor req a c
    → IsFor req a (after_dispatch c o)
unfolding after_dispatch
after_dispatch-IsFor req a c none for = for
after_dispatch-IsFor req a c (some err) for = for

dispatch_created-IsStored :
    (e : HubEnv) (h : Hub) (id : String) (c : Command) (req : CommandRequest) (a : AppRecord)
    → IsFor req a c
    → IsStored h id req a
    → IsStored (dispatch_created e h id c) id req a
unfolding dispatch_created dispatch
dispatch_created-IsStored e h id c req a for (c0, there, for0) =
    let frame : Cmd = record {
      cmd_id = id;
      app_id = c.app;
      verb = c.verb;
      definition_hash = definition_hash_of (Dict.get h.apps c.app);
    } in
    let r = dispatch_to e h frame (Dict.get h.conns c.system) in
    save_command-IsStored e r.0 id (after_dispatch c r.1) req a
      (after_dispatch-IsFor req a c r.1 for)
      (
        c0,
        ap (λ m. Dict.get m id) (dispatch-commands e h frame (Dict.get h.conns c.system)) ∙ there,
        for0,
      )

-- The hub accepted the request for this app, or refused it and changed nothing but, once the record
-- could not be stored, the app's desired state.
abbrev pub Verdict : HubEnv → Hub → CommandRequest → Reply → Type 0
Verdict e h req (h1, none) =
    (a : AppRecord) × (Dict.get h.apps req.app ≡ some a)
    × (is_approved a.approval ≡ true)
    × (valid_verb req.verb ≡ true)
    × IsStored h1 e.new_id req a
Verdict e h req (h1, some err) = h1.commands ≡ h.commands

intent-commands :
    (e : HubEnv) (h : Hub) (app : String) (a : AppRecord) (v : Verb)
    → (record_intent e h app a v).commands ≡ h.commands
unfolding record_intent save_app
intent-commands e h app a v = ground arith

then_dispatch-Verdict :
    (e : HubEnv) (h : Hub) (req : CommandRequest) (a : AppRecord) (c : Command) (r : Reply)
    → Dict.get h.apps req.app ≡ some a
    → is_approved a.approval ≡ true
    → valid_verb req.verb ≡ true
    → IsFor req a c
    → (r.1 ≡ none → IsStored r.0 e.new_id req a)
    → ((err : HubError) → r.1 ≡ some err → r.0.commands ≡ h.commands)
    → Verdict e h req (then_dispatch e e.new_id c r)
unfolding then_dispatch
then_dispatch-Verdict e h req a c (h1, none) known agreed verb for stored failed =
    (a, known, agreed, verb, dispatch_created-IsStored e h1 e.new_id c req a for (stored refl))
then_dispatch-Verdict e h req a c (h1, some err) known agreed verb for stored failed =
    failed err refl

saved-cases :
    (e : HubEnv) (h : Hub) (id : String) (c : Command) (req : CommandRequest) (a : AppRecord)
    → IsFor req a c
    → ((save_command e h id c).1 ≡ none → IsStored (save_command e h id c).0 id req a)
      × ((err : HubError)
          → (save_command e h id c).1 ≡ some err
          → (save_command e h id c).0.commands ≡ h.commands)
unfolding save_command
saved-cases e h id c req a for =
    if_rule
      (λ (r : Reply).
        (r.1 ≡ none → IsStored r.0 id req a)
        × ((err : HubError) → r.1 ≡ some err → r.0.commands ≡ h.commands))
      (e.command_saved c)
      (λ _. (
        λ _. (record c { updated = e.now }, get-put_self h.commands id _, for),
        λ err q. absurd cc,
      ))
      (λ _. (λ q. absurd cc, λ err q. refl))

create_for-Verdict :
    (e : HubEnv) (h : Hub) (req : CommandRequest) (o : Option AppRecord)
    → Dict.get h.apps req.app ≡ o
    → valid_verb req.verb ≡ true
    → Verdict e h req (create_for e h req o)
unfolding create_for pending_command
create_for-Verdict e h req none q verb = refl
create_for-Verdict e h req (some a) q verb = elim (Bool-cases (is_approved a.approval)) [
  | inl agreed ↦
      let c = pending_command e req a in
      let h1 = record_intent e h req.app a req.verb in
      let (stored, failed) = saved-cases e h1 e.new_id c req a (refl, refl, refl) in
      rw agreed (
        then_dispatch-Verdict e h req a c (save_command e h1 e.new_id c) q agreed verb
          (refl, refl, refl) stored
          (λ err x. failed err x ∙ intent-commands e h req.app a req.verb))
  | inr other ↦ rw other refl
]

-- A client's request to create a command is accepted only with a verb of the fixed set, for an app
-- that is known and approved; then the command is stored with the app's own system, whatever system
-- the client named, and with the requested app and verb. A refused request stores no command.
pub create_command-Verdict :
    (e : HubEnv) (h : Hub) (req : CommandRequest) → Verdict e h req (create_command e h req)
unfolding create_command
create_command-Verdict e h req = elim (Bool-cases (valid_verb req.verb)) [
  | inl verb ↦ rw verb (create_for-Verdict e h req (Dict.get h.apps req.app) refl verb)
  | inr other ↦ rw other refl
]

-- Every entry of the table is the one that its key finds.
abbrev pub IsTable : Dict Command → Type 0
IsTable m = AllEntries (λ id c. Dict.get m id ≡ some c) m

stale_commands-All :
    (now : ℕ) (m cs : Dict Command)
    → AllEntries (λ id c. Dict.get m id ≡ some c) cs
    → AllEntries
        (λ id c. (Dict.get m id ≡ some c) × (is_stale now c ≡ true))
        (stale_commands now cs)
unfolding stale_commands
stale_commands-All now m [] h = tt
stale_commands-All now m ((id, c) ∷ cs) h =
    let ih = stale_commands-All now m cs h.1 in
    if_rule
      (λ (l : Dict Command).
        AllEntries (λ id c. (Dict.get m id ≡ some c) × (is_stale now c ≡ true)) l)
      (is_stale now c) {x = (id, c) ∷ stale_commands now cs} (λ stale. ((h.0, stale), ih)) (λ _. ih)

-- The save of another record leaves this one.
save_other :
    (e : HubEnv) (h : Hub) (id j : String) (c x : Command)
    → str_eq id j ≡ false
    → Dict.get h.commands j ≡ some x
    → Dict.get (save_command e h id c).0.commands j ≡ some x
unfolding save_command
save_other e h id j c x other there =
    if_rule (λ (r : Reply). Dict.get r.0.commands j ≡ some x) (e.command_saved c)
      (λ _. ground (arith, get-put h.commands id j (record c { updated = e.now }))) (λ _. there)

sweep_all-keep :
    (e : HubEnv) (cs : Dict Command) (h : Hub) (j : String) (x : Command)
    → AllEntries (λ id c. str_eq id j ≡ false) cs
    → Dict.get h.commands j ≡ some x
    → Dict.get (sweep_all e h cs).commands j ≡ some x
unfolding sweep_all
sweep_all-keep e [] h j x others there = there
sweep_all-keep e ((id, c) ∷ cs) h j x others there =
    sweep_all-keep e cs (save_command e h id (timed_out c)).0 j x others.1
      (save_other e h id j (timed_out c) x others.0 there)

fresh_other :
    (now : ℕ) (m : Dict Command) (j : String) (x : Command) (id : String) (c : Command)
    → Dict.get m j ≡ some x
    → is_stale now x ≡ false
    → Dict.get m id ≡ some c
    → is_stale now c ≡ true
    → str_eq id j ≡ false
fresh_other now m j x id c there fresh found stale = elim (Bool-cases (str_eq id j)) [
  | inl same ↦
      let e : id ≡ j = (eq_iff id j).0 same in
      let one : some c ≡ some x = sym found ∙ ap (Dict.get m) e ∙ there in
      let same_command : c ≡ x = ground arith in
      absurd (ground (arith, fresh, stale, ap (is_stale now) same_command))
  | inr other ↦ other
]

-- The sweeper leaves every command as it is that is done, failed, timed out or not yet dispatched, or
-- that was updated within the last minute.
pub sweep-keep :
    (e : HubEnv) (h : Hub) (j : String) (x : Command)
    → IsTable h.commands
    → Dict.get h.commands j ≡ some x
    → is_stale e.now x ≡ false
    → Dict.get (sweep e h).commands j ≡ some x
unfolding sweep
sweep-keep e h j x table there fresh =
    sweep_all-keep e (take 200 (stale_commands e.now h.commands)) h j x
      (AllEntries-take (λ id c. str_eq id j ≡ false) 200 (stale_commands e.now h.commands)
        (AllEntries-map _ _ (λ id c f. fresh_other e.now h.commands j x id c there fresh f.0 f.1)
          (stale_commands e.now h.commands) (stale_commands-All e.now h.commands h.commands table)))
      there
