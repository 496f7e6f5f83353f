-- ===== src/Hub/Apps/Approvals.antt =====
-- Who can approve an app on the hub: a client's request cannot.
use breakerbox.Prelude.{
  ℕ, String, Bool, true, false, List, [], ◌∷◌, Option, none, some, ◌≡◌, refl, sym, ap, arith, inl,
  inr, ◌∙◌, subst, Bool-cases, if_rule, str_eq, eq_iff,
}
use breakerbox.Prelude.Dict
use breakerbox.Prelude.Dict.{Dict, get-put}
use breakerbox.Protocol.{AppDefinition, is_approved}
use breakerbox.Protocol.Validate.{Problem, validate}
use breakerbox.Hub.State.{AppRecord, Hub, HubEnv, Reply, System, save_app, write}
use breakerbox.Hub.Apps.{
  AppRequest, blank_app, completed, put_app, put_checked, put_found, reset_approval, send_app_sync,
  store_definition, sync_system, sync_to, then_push, update_found, with_definition,
}

-- Each approved record was approved before, with the same definition hash.
abbrev pub NoNewApproval : Dict AppRecord → Dict AppRecord → Type 0
NoNewApproval before after =
    (id : String) (a : AppRecord)
    → Dict.get after id ≡ some a
    → is_approved a.approval ≡ true
    → (b : AppRecord) × (Dict.get before id ≡ some b)
      × (is_approved b.approval ≡ true)
      × (b.definition_hash ≡ a.definition_hash)

unchanged-NoNewApproval : (m : Dict AppRecord) → NoNewApproval m m
unchanged-NoNewApproval m id a there agreed = (a, there, agreed, refl)

sync_to-apps :
    (e : HubEnv) (h : Hub) (system : String) (o : Option ℕ) → (sync_to e h system o).apps ≡ h.apps
unfolding sync_to send_app_sync write
sync_to-apps e h system none = refl
sync_to-apps e h system (some c) = ground arith

then_push-apps :
    (e : HubEnv) (system : String) (r : Reply) → (then_push e system r).0.apps ≡ r.0.apps
unfolding then_push sync_system
then_push-apps e system (h, none) = sync_to-apps e h system (Dict.get h.conns system)
then_push-apps e system (h, some err) = refl

put-NoNewApproval :
    (m : Dict AppRecord) (id : String) (x : AppRecord)
    → (is_approved x.approval ≡ true
        → (b : AppRecord) × (Dict.get m id ≡ some b)
          × (is_approved b.approval ≡ true)
          × (b.definition_hash ≡ x.definition_hash))
    → NoNewApproval m (Dict.put m id x)
put-NoNewApproval m id x old j a there agreed = elim (Bool-cases (str_eq id j)) [
  | inl same ↦
      let e : id ≡ j = (eq_iff id j).0 same in
      let stored : x ≡ a = ground (arith, get-put m id j x) in
      let (b, found, granted, hash) =
        old (ap (λ (y : AppRecord). is_approved y.approval) stored ∙ agreed) in
      (
        b,
        ap (Dict.get m) (sym e) ∙ found,
        granted,
        hash ∙ ap (λ (y : AppRecord). y.definition_hash) stored,
      )
  | inr other ↦ (a, ground (arith, get-put m id j x), agreed, refl)
]

store_definition-NoNewApproval :
    (hash : AppDefinition → String) (e : HubEnv) (h : Hub) (system id : String)
    (def : AppDefinition) (x : AppRecord)
    → (is_approved x.approval ≡ true
        → (b : AppRecord) × (Dict.get h.apps id ≡ some b)
          × (is_approved b.approval ≡ true)
          × (b.definition_hash ≡ hash def))
    → NoNewApproval h.apps (store_definition hash e h system id def x).0.apps
unfolding store_definition save_app with_definition
store_definition-NoNewApproval hash e h system id def x old =
    let new = with_definition hash def x in
    subst (NoNewApproval h.apps) (sym (then_push-apps e system (save_app e h id new))) (
      if_rule (λ (r : Reply). NoNewApproval h.apps r.0.apps) (e.app_saved new)
        (λ _. put-NoNewApproval h.apps id new old) (λ _. unchanged-NoNewApproval h.apps))

update_found-NoNewApproval :
    (hash : AppDefinition → String) (e : HubEnv) (h : Hub) (req : AppRequest) (def : AppDefinition)
    (o : Option AppRecord)
    → Dict.get h.apps req.app_id ≡ o
    → NoNewApproval h.apps (update_found hash e h req def o).0.apps
unfolding update_found reset_approval is_approved
update_found-NoNewApproval hash e h req def none q = unchanged-NoNewApproval h.apps
update_found-NoNewApproval hash e h req def (some a) q =
    store_definition-NoNewApproval hash e h req.system req.app_id def (reset_approval (hash def) a)
      (λ agreed. elim (Bool-cases (str_eq a.definition_hash (hash def))) [
        | inl same ↦ (a, q, ground (arith, same), (eq_iff a.definition_hash (hash def)).0 same)
        | inr changed ↦ absurd (ground (arith, changed, agreed))
      ])

put_found-NoNewApproval :
    (hash : AppDefinition → String) (e : HubEnv) (h : Hub) (req : AppRequest) (def : AppDefinition)
    (o : Option System)
    → NoNewApproval h.apps (put_found hash e h req def o).0.apps
unfolding put_found blank_app is_approved
put_found-NoNewApproval hash e h req def none = unchanged-NoNewApproval h.apps
put_found-NoNewApproval hash e h req def (some s) =
    if_rule (λ (r : Reply). NoNewApproval h.apps r.0.apps) (str_eq req.app_id "")
      (λ _.
        store_definition-NoNewApproval hash e h req.system e.new_id def (blank_app req.system)
          (λ agreed. absurd (ground arith)))
      (λ _. update_found-NoNewApproval hash e h req def (Dict.get h.apps req.app_id) refl)

put_checked-NoNewApproval :
    (hash : AppDefinition → String) (e : HubEnv) (h : Hub) (req : AppRequest) (def : AppDefinition)
    (ps : List Problem)
    → NoNewApproval h.apps (put_checked hash e h req def ps).0.apps
unfolding put_checked
put_checked-NoNewApproval hash e h req def (p ∷ ps) = unchanged-NoNewApproval h.apps
put_checked-NoNewApproval hash e h req def [] =
    put_found-NoNewApproval hash e h req def (Dict.get h.systems req.system)

-- After any request of a client to create an app or change its definition, an app that is approved
-- was approved before the request, and for a definition with the same hash.
pub put_app-NoNewApproval :
    (hash : AppDefinition → String) (e : HubEnv) (h : Hub) (authed : Bool) (req : AppRequest)
    → NoNewApproval h.apps (put_app hash e h authed req).0.apps
unfolding put_app
put_app-NoNewApproval hash e h false req = unchanged-NoNewApproval h.apps
put_app-NoNewApproval hash e h true req =
    put_checked-NoNewApproval hash e h req (completed req.definition)
      (validate (completed req.definition))
