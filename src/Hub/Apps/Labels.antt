-- ===== src/Hub/Apps/Labels.antt =====
-- The hub labels each definition that it stores or sends with the definition's own hash.
use breakerbox.Prelude.{
  ℕ, String, Bool, true, false, List, [], ◌∷◌, Option, none, some, ◌≡◌, refl, ap, arith, All,
  if_rule, take, str_eq,
}
use breakerbox.Prelude.Dict
use breakerbox.Prelude.Dict.{
  AllEntries, AllEntries-append, AllEntries-get, AllEntries-put, AllEntries-take, Dict,
}
use breakerbox.Protocol.{AppDefinition, AppEvent, AppSpec, ApprovalEvent}
use breakerbox.Protocol.Validate.{Problem, validate}
use breakerbox.Agent.Daemon.Consent.Hub.{IsHonest}
use breakerbox.Hub.State.{
  AppRecord, Hub, HubEnv, HubFrame, Reply, System, app_sync, save_app, write,
}
use breakerbox.Hub.Apps.{
  AppRequest, add_spec, approve_found, blank_app, completed, event_found, is_registered,
  on_app_event, on_app_register, on_approval_event, put_app, put_checked, put_found,
  register_checked, then_push, records_of, registered, reset_approval, send_app_sync, specs_of,
  store_definition, sync_system, sync_to, then_sync, update_found, with_definition,
}

module _ (hash : AppDefinition → String) where
  abbrev pub IsLabelled : AppRecord → Type 0
  IsLabelled a = (def : AppDefinition) → a.definition ≡ some def → a.definition_hash ≡ hash def

  abbrev pub HonestFrame : HubFrame → Type 0
  HonestFrame (app_sync specs) = All (IsHonest hash) specs
  HonestFrame _ = Unit

  -- The stored definitions, and those in every app_sync that was sent, have their own hashes.
  pub record HonestHub (h : Hub) : Type 0 where
    pub labels : AllEntries (λ id a. IsLabelled a) h.apps
    pub frames : All (λ x. HonestFrame x.1) h.sent

  records_of-Labelled :
      (system : String) (m : Dict AppRecord)
      → AllEntries (λ id a. IsLabelled a) m
      → AllEntries (λ id a. IsLabelled a) (records_of system m)
  unfolding records_of
  records_of-Labelled system [] h = h
  records_of-Labelled system ((id, a) ∷ rest) h =
      let ih = records_of-Labelled system rest h.1 in
      if_rule (AllEntries (λ id a. IsLabelled a)) (str_eq a.system system)
        (λ _.
          AllEntries-append (λ id a. IsLabelled a) (records_of system rest) ((id, a) ∷ []) ih
            (h.0, tt))
        (λ _. ih)

  add_spec-Honest :
      (id : String) (a : AppRecord) (o : Option AppDefinition) (specs : List AppSpec)
      → ((def : AppDefinition) → o ≡ some def → a.definition_hash ≡ hash def)
      → All (IsHonest hash) specs
      → All (IsHonest hash) (add_spec id a o specs)
  unfolding add_spec
  add_spec-Honest id a none specs l h = h
  add_spec-Honest id a (some def) specs l h = (l def refl, h)

  specs_of-Honest :
      (m : Dict AppRecord) → AllEntries (λ id a. IsLabelled a) m → All (IsHonest hash) (specs_of m)
  unfolding specs_of
  specs_of-Honest [] h = tt
  specs_of-Honest ((id, a) ∷ rest) h =
      add_spec-Honest id a a.definition (specs_of rest) h.0 (specs_of-Honest rest h.1)

  write-HonestHub :
      (e : HubEnv) (h : Hub) (c : ℕ) (f : HubFrame)
      → HonestFrame f
      → HonestHub h
      → HonestHub (write e h c f).0
  unfolding write
  write-HonestHub e h c f ok s =
      if_rule (λ (r : Reply). HonestHub r.0) (e.write_ok c)
        (λ _. record { labels = s.labels; frames = (ok, s.frames) }) (λ _. s)

  save_app-HonestHub :
      (e : HubEnv) (h : Hub) (id : String) (a : AppRecord)
      → IsLabelled a
      → HonestHub h
      → HonestHub (save_app e h id a).0
  unfolding save_app
  save_app-HonestHub e h id a ok s =
      if_rule (λ (r : Reply). HonestHub r.0) (e.app_saved a)
        (λ _. record {
          labels = AllEntries-put (λ id a. IsLabelled a) h.apps id a ok s.labels;
          frames = s.frames;
        })
        (λ _. s)

  send_app_sync-HonestHub :
      (e : HubEnv) (h : Hub) (system : String) (c : ℕ)
      → HonestHub h
      → HonestHub (send_app_sync e h system c).0
  unfolding send_app_sync
  send_app_sync-HonestHub e h system c s =
      write-HonestHub e h c (app_sync (specs_of (take 500 (records_of system h.apps))))
        (specs_of-Honest (take 500 (records_of system h.apps)) (
          AllEntries-take (λ id a. IsLabelled a) 500 (records_of system h.apps)
            (records_of-Labelled system h.apps s.labels)))
        s

  sync_to-HonestHub :
      (e : HubEnv) (h : Hub) (system : String) (o : Option ℕ)
      → HonestHub h
      → HonestHub (sync_to e h system o)
  unfolding sync_to
  sync_to-HonestHub e h system none s = s
  sync_to-HonestHub e h system (some c) s = send_app_sync-HonestHub e h system c s

  then_sync-HonestHub :
      (e : HubEnv) (system : String) (c : ℕ) (r : Reply)
      → HonestHub r.0
      → HonestHub (then_sync e system c r).0
  unfolding then_sync
  then_sync-HonestHub e system c (h, none) s = send_app_sync-HonestHub e h system c s
  then_sync-HonestHub e system c (h, some err) s = s

  then_push-HonestHub :
      (e : HubEnv) (system : String) (r : Reply)
      → HonestHub r.0
      → HonestHub (then_push e system r).0
  unfolding then_push sync_system
  then_push-HonestHub e system (h, none) s =
      sync_to-HonestHub e h system (Dict.get h.conns system) s
  then_push-HonestHub e system (h, some err) s = s

  -- The handlers of an agent's frames.
  register_checked-HonestHub :
      (e : HubEnv) (h : Hub) (system : String) (c : ℕ) (def : AppDefinition) (ps : List Problem)
      → HonestHub h
      → HonestHub (register_checked hash e h system c def ps).0
  unfolding register_checked registered
  register_checked-HonestHub e h system c def (p ∷ ps) s = s
  register_checked-HonestHub e h system c def [] s =
      if_rule (λ (r : Reply). HonestHub r.0) (is_registered system (hash def) h.apps)
        {y = then_sync e system c (save_app e h e.new_id (registered hash system def))}
        (λ _. send_app_sync-HonestHub e h system c s)
        (λ _. then_sync-HonestHub e system c (save_app e h e.new_id (registered hash system def)) (
          save_app-HonestHub e h e.new_id (registered hash system def)
            (λ d q. let same : def ≡ d = ground arith in ap hash same) s))

  approve_found-HonestHub :
      (e : HubEnv) (h : Hub) (ev : ApprovalEvent) (o : Option AppRecord)
      → Dict.get h.apps ev.app_id ≡ o
      → HonestHub h
      → HonestHub (approve_found e h ev o).0
  unfolding approve_found
  approve_found-HonestHub e h ev none q s = s
  approve_found-HonestHub e h ev (some a) q s =
      if_rule (λ (r : Reply). HonestHub r.0) (str_eq a.definition_hash ev.definition_hash)
        {x = save_app e h ev.app_id (record a { approval = ev.approval })}
        (λ _.
          save_app-HonestHub e h ev.app_id (record a { approval = ev.approval })
            (AllEntries-get (λ id a. IsLabelled a) h.apps ev.app_id a q s.labels) s)
        (λ _. s)

  event_found-HonestHub :
      (e : HubEnv) (h : Hub) (ev : AppEvent) (o : Option AppRecord)
      → Dict.get h.apps ev.app_id ≡ o
      → HonestHub h
      → HonestHub (event_found e h ev o).0
  unfolding event_found
  event_found-HonestHub e h ev none q s = s
  event_found-HonestHub e h ev (some a) q s =
      save_app-HonestHub e h ev.app_id _
        (AllEntries-get (λ id a. IsLabelled a) h.apps ev.app_id a q s.labels) s

  -- The client's request.
  store_definition-HonestHub :
      (e : HubEnv) (h : Hub) (system id : String) (def : AppDefinition) (a : AppRecord)
      → HonestHub h
      → HonestHub (store_definition hash e h system id def a).0
  unfolding store_definition with_definition
  store_definition-HonestHub e h system id def a s =
      then_push-HonestHub e system (save_app e h id (with_definition hash def a)) (
        save_app-HonestHub e h id (with_definition hash def a)
          (λ d q. let same : def ≡ d = ground arith in ap hash same) s)

  update_found-HonestHub :
      (e : HubEnv) (h : Hub) (req : AppRequest) (def : AppDefinition) (o : Option AppRecord)
      → HonestHub h
      → HonestHub (update_found hash e h req def o).0
  unfolding update_found
  update_found-HonestHub e h req def none s = s
  update_found-HonestHub e h req def (some a) s =
      store_definition-HonestHub e h req.system req.app_id def (reset_approval (hash def) a) s

  put_found-HonestHub :
      (e : HubEnv) (h : Hub) (req : AppRequest) (def : AppDefinition) (o : Option System)
      → HonestHub h
      → HonestHub (put_found hash e h req def o).0
  unfolding put_found
  put_found-HonestHub e h req def none s = s
  put_found-HonestHub e h req def (some x) s =
      if_rule (λ (r : Reply). HonestHub r.0) (str_eq req.app_id "")
        (λ _. store_definition-HonestHub e h req.system e.new_id def (blank_app req.system) s)
        (λ _. update_found-HonestHub e h req def (Dict.get h.apps req.app_id) s)

  put_checked-HonestHub :
      (e : HubEnv) (h : Hub) (req : AppRequest) (def : AppDefinition) (ps : List Problem)
      → HonestHub h
      → HonestHub (put_checked hash e h req def ps).0
  unfolding put_checked
  put_checked-HonestHub e h req def (p ∷ ps) s = s
  put_checked-HonestHub e h req def [] s =
      put_found-HonestHub e h req def (Dict.get h.systems req.system) s

  -- What changes the apps or sends them: an agent's frames, a client's request, and a new hello.
  pub data Change : Type 0 where
    registers : String → ℕ → AppDefinition → Change
    approves : ApprovalEvent → Change
    reports : AppEvent → Change
    requests : Bool → AppRequest → Change
    syncs : String → ℕ → Change

  pub change : HubEnv → Hub → Change → Hub
  change e h (registers system c def) = (on_app_register hash e h system c def).0
  change e h (approves ev) = (on_approval_event e h ev).0
  change e h (reports ev) = (on_app_event e h ev).0
  change e h (requests authed req) = (put_app hash e h authed req).0
  change e h (syncs system c) = (send_app_sync e h system c).0

  change-HonestHub : (e : HubEnv) (h : Hub) (x : Change) → HonestHub h → HonestHub (change e h x)
  unfolding change on_app_register on_approval_event on_app_event put_app
  change-HonestHub e h (registers system c def) s =
      register_checked-HonestHub e h system c def (validate def) s
  change-HonestHub e h (approves ev) s =
      approve_found-HonestHub e h ev (Dict.get h.apps ev.app_id) refl s
  change-HonestHub e h (reports ev) s =
      event_found-HonestHub e h ev (Dict.get h.apps ev.app_id) refl s
  change-HonestHub e h (requests true req) s =
      put_checked-HonestHub e h req (completed req.definition) (validate (completed req.definition))
        s
  change-HonestHub e h (requests false req) s = s
  change-HonestHub e h (syncs system c) s = send_app_sync-HonestHub e h system c s

  pub changes : Hub → List (HubEnv × Change) → Hub
  changes h [] = h
  changes h ((e, x) ∷ rest) = changes (change e h x) rest

  -- Whatever agents and clients send, each app_sync that the hub writes labels every definition with
  -- the definition's own hash, which is what the agents' consent relies on.
  pub changes-HonestHub :
      (xs : List (HubEnv × Change)) (h : Hub) → HonestHub h → HonestHub (changes h xs)
  unfolding changes
  changes-HonestHub [] h s = s
  changes-HonestHub ((e, x) ∷ rest) h s =
      changes-HonestHub rest (change e h x) (change-HonestHub e h x s)
