-- ===== src/Agent/Daemon/Consent/Hub.antt =====
-- What the hub and the CLI say keeps the host's consent: daemon.go and loops.go.
use breakerbox.Prelude.{
  String, Bool, true, false, not, List, [], ◌∷◌, Option, none, some, ◌≡◌, refl, ◌||◌, inl, inr,
  arith, str_eq, eq_iff, if◌then◌else◌, if_rule, All, Any, Option-cases, Bool-cases, subst,
}
use breakerbox.Prelude.Dict
use breakerbox.Prelude.Dict.{Dict, AllEntries-put, AllEntries-remove}
use breakerbox.Protocol.{AppDefinition, AppKind, AppSpec, Approval, is_approved, desired_eq}
use breakerbox.Agent.Daemon.State.{AppState, Proc, stop_proc, Env, Daemon, is_docker_kind}
use breakerbox.Agent.Daemon.Sync.{
  take_out, seen, install, decide, refresh, sync_local, sync_spec, sync_specs, drop_proc, forget,
  forget_unseen, apply_app_sync,
}
use breakerbox.Agent.Daemon.Consent.{
  HostAction, Consent, AppOk, Safe, AppOk-same, same-Safe, one_call, one_app, known_app, imported,
}
use breakerbox.Agent.Daemon.Consent.Stop.{cancel_restart-Secure}

abbrev pub IsImported : List HostAction → String → Type 0
IsImported history h = Any (λ a. a ≡ imported h) history

-- What is taken out of the pre-approved hashes was imported, and so was what is left.
take_out_ok :
    (history : List HostAction) (h : String) (hs ys : List String)
    → take_out h hs ≡ some ys
    → All (IsImported history) hs
    → IsImported history h × All (IsImported history) ys
unfolding take_out
take_out_ok history h [] ys e ok = cc
take_out_ok history h (x ∷ xs) ys e ok = elim (Bool-cases (str_eq x h)) [
  | inl hit ↦
      let rest : xs ≡ ys = ground arith in
      (
        subst (IsImported history) ((eq_iff x h).0 hit) ok.0,
        subst (All (IsImported history)) rest ok.1,
      )
  | inr miss ↦ elim (Option-cases (take_out h xs)) [
    | inl absent ↦ absurd (ground arith)
    | inr (zs, there) ↦
        let (found, left) = take_out_ok history h xs zs there ok.1 in
        let shape : x ∷ zs ≡ ys = ground arith in
        (found, subst (All (IsImported history)) shape (ok.0, left))
  ]
]

-- An imported hash covers the definition that carries it.
imported-Consent :
    (hash : AppDefinition → String) (history : List HostAction) (app_id : String)
    (def : AppDefinition)
    → IsImported history (hash def)
    → Consent hash history app_id def
imported-Consent hash [] app_id def h = elim h [ ]
imported-Consent hash (a ∷ older) app_id def (inl e) = inl (rw e refl)
imported-Consent hash (a ∷ older) app_id def (inr h) =
    inr (imported-Consent hash older app_id def h)

-- The hub labels a definition with its own hash.
abbrev pub IsHonest : (AppDefinition → String) → AppSpec → Type 0
IsHonest hash spec = spec.definition_hash ≡ hash spec.definition

-- Without a pre-approval only a container app is approved at once.
unapproved :
    (k : AppKind)
    → is_approved (if is_docker_kind k then Approval.approved else Approval.pending) ≡ true
    → is_docker_kind k ≡ false
    → ⊥
unfolding is_approved
unapproved k agreed native = ground arith

module _ (hash : AppDefinition → String) {F : Type 0} (history : List HostAction) where
  install-Secure :
      (d : Daemon F) (spec : AppSpec) (choice : Approval) (left : List String)
      → IsHonest hash spec
      → (is_approved choice ≡ true
          → is_docker_kind spec.definition.kind ≡ false
          → Consent hash history spec.id spec.definition)
      → All (IsImported history) left
      → Safe hash history d
      → Safe hash history (install d spec choice left)
  unfolding install
  install-Secure d spec choice left honest ok pre s = record {
    apps_ok =
        AllEntries-put (AppOk hash history) d.apps spec.id _
          (record { labelled = honest; consented = ok }) s.apps_ok;
    pre_ok = pre;
    calls_ok = s.calls_ok;
  }

  decide-Secure :
      (d : Daemon F) (spec : AppSpec) (o : Option (List String))
      → take_out spec.definition_hash d.pre_approved ≡ o
      → IsHonest hash spec
      → Safe hash history d
      → Safe hash history (decide d spec o)
  unfolding decide
  decide-Secure d spec (some left) e honest s =
      let (found, kept) = take_out_ok history spec.definition_hash d.pre_approved left e s.pre_ok in
      install-Secure d spec Approval.approved left honest
        (λ _ _.
          imported-Consent hash history spec.id spec.definition
            (subst (IsImported history) honest found))
        kept s
  decide-Secure d spec none e honest s =
      install-Secure d spec _ d.pre_approved honest
        (λ agreed native. absurd (unapproved spec.definition.kind agreed native)) s.pre_ok s

  sync_local-Secure :
      (d : Daemon F) (spec : AppSpec) (o : Option AppState)
      → Dict.get d.apps spec.id ≡ o
      → IsHonest hash spec
      → Safe hash history d
      → Safe hash history (sync_local d spec o).0
  unfolding sync_local refresh
  sync_local-Secure d spec none q honest s = decide-Secure d spec _ refl honest s
  sync_local-Secure d spec (some local) q honest s =
      let local' : AppState = record local {
        desired_state = spec.desired_state;
        token_tracking = spec.token_tracking;
      } in
      if_rule (λ (r : Daemon F × Bool). Safe hash history r.0)
        (str_eq local.hash spec.definition_hash)
        (λ _.
          if_rule (λ (r : Daemon F × Bool). Safe hash history r.0)
            (not (desired_eq local.desired_state spec.desired_state)
              || not (str_eq local.token_tracking spec.token_tracking))
            (λ _.
              one_app hash history d _ spec.id local'
                (AppOk-same hash history spec.id local local' refl refl refl
                  (known_app hash history d spec.id local q s))
                refl refl refl s)
            (λ _. s))
        (λ _. decide-Secure d spec _ refl honest s)

  sync_specs-Secure :
      (specs : List AppSpec) (d : Daemon F)
      → All (IsHonest hash) specs
      → Safe hash history d
      → Safe hash history (sync_specs d specs).0
  unfolding sync_specs sync_spec
  sync_specs-Secure [] d honest s = s
  sync_specs-Secure (spec ∷ specs) d honest s =
      sync_specs-Secure specs (sync_spec d spec).0 honest.1
        (sync_local-Secure d spec (Dict.get d.apps spec.id) refl honest.0 s)

  drop_proc-Secure :
      (d : Daemon F) (app_id : String) (o : Option Proc)
      → Safe hash history d
      → Safe hash history (drop_proc d app_id o)
  unfolding drop_proc
  drop_proc-Secure d app_id none s = s
  drop_proc-Secure d app_id (some p) s =
      one_call hash history d _ (stop_proc app_id p.handle) tt refl refl refl s

  forget-Secure :
      (d : Daemon F) (app_id : String) → Safe hash history d → Safe hash history (forget d app_id)
  unfolding forget
  forget-Secure d app_id s =
      let s1 =
        cancel_restart-Secure hash history (drop_proc d app_id (Dict.get d.procs app_id)) app_id
          (drop_proc-Secure d app_id (Dict.get d.procs app_id) s) in
      record {
        apps_ok = AllEntries-remove (AppOk hash history) _ app_id s1.apps_ok;
        pre_ok = s1.pre_ok;
        calls_ok = s1.calls_ok;
      }

  forget_unseen-Secure :
      (specs : List AppSpec) (apps : Dict AppState) (d : Daemon F)
      → Safe hash history d
      → Safe hash history (forget_unseen d specs apps).0
  unfolding forget_unseen
  forget_unseen-Secure specs [] d s = s
  forget_unseen-Secure specs ((app_id, app) ∷ rest) d s =
      let s1 = forget_unseen-Secure specs rest d s in
      if_rule (λ (r : Daemon F × Bool). Safe hash history r.0) (seen specs app_id) (λ _. s1)
        (λ _. forget-Secure _ app_id s1)

  pub apply_app_sync-Secure :
      (e : Env) (d : Daemon F) (specs : List AppSpec)
      → All (IsHonest hash) specs
      → Safe hash history d
      → Safe hash history (apply_app_sync e d specs)
  unfolding apply_app_sync
  apply_app_sync-Secure e d specs honest s =
      let d1 = (sync_specs d specs).0 in
      let s2 = forget_unseen-Secure specs d1.apps d1 (sync_specs-Secure specs d honest s) in
      if_rule (Safe hash history) ((sync_specs d specs).1 || (forget_unseen d1 specs d1.apps).1)
        (λ _. same-Safe hash history (forget_unseen d1 specs d1.apps).0 _ refl refl refl s2)
        (λ _. s2)
