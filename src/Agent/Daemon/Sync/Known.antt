-- ===== src/Agent/Daemon/Sync/Known.antt =====
-- After applyAppSync of daemon.go, the agent knows exactly the apps that the hub listed.
use breakerbox.Prelude.{
  String, Bool, true, false, not, List, [], ◌∷◌, Option, none, some, ◌≡◌, ◌≢◌, refl, sym, ap, ◌∙◌,
  arith, inl, inr, ◌||◌, ◌&&◌, Bool-cases, Option-cases, if_rule, if◌then◌else◌, str_eq, eq_iff,
}
use breakerbox.Prelude.Dict
use breakerbox.Prelude.Dict.{Dict, get-put, get-remove}
use breakerbox.Protocol.{AppSpec, Approval, desired_eq}
use breakerbox.Agent.Daemon.State.{AppState, Proc, RestartState, Env, Daemon, send, save}
use breakerbox.Agent.Daemon.Stops.{cancel_known, cancel_restart}
use breakerbox.Agent.Daemon.Sync.{
  apply_app_sync, decide, drop_proc, forget, forget_unseen, install, new_state, refresh, seen,
  sync_local, sync_spec, sync_specs, take_out,
}

module _ {F : Type 0} where
  abbrev pub Knows : Daemon F → String → Type 0
  Knows d id = Dict.get d.apps id ≢ none

  -- A spec makes its app known, and takes no other app away.
  install-Knows :
      (d : Daemon F) (spec : AppSpec) (a : Approval) (pre : List String) (j : String)
      → (str_eq spec.id j ≡ false → Knows d j)
      → Knows (install d spec a pre) j
  unfolding install send
  install-Knows d spec a pre j old none_left = elim (Bool-cases (str_eq spec.id j)) [
    | inl same ↦ ground (arith, none_left, same, get-put d.apps spec.id j (new_state spec a))
    | inr other ↦
        old other (ground (arith, none_left, other, get-put d.apps spec.id j (new_state spec a)))
  ]

  decide-Knows :
      (d : Daemon F) (spec : AppSpec) (o : Option (List String)) (j : String)
      → (str_eq spec.id j ≡ false → Knows d j)
      → Knows (decide d spec o) j
  unfolding decide
  decide-Knows d spec none j old = install-Knows d spec _ d.pre_approved j old
  decide-Knows d spec (some rest) j old = install-Knows d spec Approval.approved rest j old

  drop_proc-apps : (d : Daemon F) (id : String) (o : Option Proc) → (drop_proc d id o).apps ≡ d.apps
  unfolding drop_proc
  drop_proc-apps d id none = refl
  drop_proc-apps d id (some p) = refl

  cancel_known-apps :
      (d : Daemon F) (id : String) (o : Option RestartState) → (cancel_known d id o).apps ≡ d.apps
  unfolding cancel_known
  cancel_known-apps d id none = refl
  cancel_known-apps d id (some rs) = refl

  get-forget :
      (d : Daemon F) (id j : String)
      → Dict.get (forget d id).apps j ≡ (if str_eq id j then none else Dict.get d.apps j)
  unfolding forget cancel_restart
  get-forget d id j =
      let d1 = drop_proc d id (Dict.get d.procs id) in
      ap (λ m. Dict.get (Dict.remove m id) j)
        (cancel_known-apps d1 id (Dict.get d1.restarts id)
          ∙ drop_proc-apps d id (Dict.get d.procs id))
      ∙ get-remove d.apps id j

  -- A condition and its outcome for every app, in a state that may be a forgetting of another.
  forget_if :
      (d : Daemon F) (b : Bool) (id j : String)
      → Dict.get (if b then d else forget d id).apps j
        ≡ (if not b && str_eq id j then none else Dict.get d.apps j)
  forget_if d true id j = refl
  forget_if d false id j = get-forget d id j

  -- forget_unseen as a choice between two states.
  unseen_apps :
      (d : Daemon F) (specs : List AppSpec) (id : String) (app : AppState) (rest : Dict AppState)
      → (forget_unseen d specs ((id, app) ∷ rest)).0 ≡ (
          if seen specs id
          then (forget_unseen d specs rest).0
          else forget (forget_unseen d specs rest).0 id)
  unfolding forget_unseen
  unseen_apps d specs id app rest =
      if_rule
        (λ (r : Daemon F × Bool). r.0 ≡ (
          if seen specs id
          then (forget_unseen d specs rest).0
          else forget (forget_unseen d specs rest).0 id))
        (seen specs id) (λ h. rw h refl) (λ h. rw h refl)

  get-forget_unseen :
      (rest : Dict AppState) (d : Daemon F) (specs : List AppSpec) (j : String)
      → (seen specs j ≡ true → Dict.get (forget_unseen d specs rest).0.apps j ≡ Dict.get d.apps j)
        × (Dict.get d.apps j ≡ none → Dict.get (forget_unseen d specs rest).0.apps j ≡ none)
        × (seen specs j ≡ false
            → Dict.get rest j ≢ none
            → Dict.get (forget_unseen d specs rest).0.apps j ≡ none)
  unfolding forget_unseen Dict.get
  get-forget_unseen [] d specs j = (λ _. refl, λ h. h, λ _ h. absurd (h refl))
  get-forget_unseen ((id, app) ∷ rest) d specs j =
      let (listed, absent, unlisted) = get-forget_unseen rest d specs j in
      let d1 = (forget_unseen d specs rest).0 in
      let here =
        ap (λ (x : Daemon F). Dict.get x.apps j) (unseen_apps d specs id app rest)
        ∙ forget_if d1 (seen specs id) id j in
      elim (Bool-cases (str_eq id j)) [
        | inl same ↦
            let e = ap (seen specs) ((eq_iff id j).0 same) in
            (
              λ s. here ∙ ground (arith, s, e, listed s),
              λ h. here ∙ ground (arith, absent h),
              λ s _. here ∙ ground (arith, s, e, same),
            )
        | inr other ↦ (
          λ s. here ∙ ground (arith, other, listed s),
          λ h. here ∙ ground (arith, other, absent h),
          λ s there.
              here
              ∙ ground (
                arith,
                other,
                unlisted s (λ none_there. there (ground (arith, other, none_there))),
              ),
        )
      ]

  refresh-Knows :
      (d : Daemon F) (spec : AppSpec) (local : AppState) (j : String)
      → Dict.get d.apps spec.id ≡ some local
      → (str_eq spec.id j ≡ false → Knows d j)
      → Knows (refresh d spec local).0 j
  unfolding refresh
  refresh-Knows d spec local j q old =
      let new : AppState = record local {
        desired_state = spec.desired_state;
        token_tracking = spec.token_tracking;
      } in
      if_rule (λ (r : Daemon F × Bool). Knows r.0 j)
        (not (desired_eq local.desired_state spec.desired_state)
          || not (str_eq local.token_tracking spec.token_tracking))
        {x = (record d { apps = Dict.put d.apps spec.id new }, true)}
        (λ _. elim (Bool-cases (str_eq spec.id j)) [
          | inl same ↦ λ gone. ground (arith, gone, same, get-put d.apps spec.id j new)
          | inr other ↦
              λ gone. old other (ground (arith, gone, other, get-put d.apps spec.id j new))
        ])
        (λ _. elim (Bool-cases (str_eq spec.id j)) [
          | inl same ↦ λ gone.
              let e = ap (Dict.get d.apps) ((eq_iff spec.id j).0 same) in
              absurd (ground (arith, gone, q, e))
          | inr other ↦ old other
        ])

  sync_local-Knows :
      (d : Daemon F) (spec : AppSpec) (o : Option AppState) (j : String)
      → Dict.get d.apps spec.id ≡ o
      → (str_eq spec.id j ≡ false → Knows d j)
      → Knows (sync_local d spec o).0 j
  unfolding sync_local
  sync_local-Knows d spec none j q old =
      decide-Knows d spec (take_out spec.definition_hash d.pre_approved) j old
  sync_local-Knows d spec (some local) j q old =
      if_rule (λ (r : Daemon F × Bool). Knows r.0 j) (str_eq local.hash spec.definition_hash)
        {y = (decide d spec (take_out spec.definition_hash d.pre_approved), true)}
        (λ _. refresh-Knows d spec local j q old)
        (λ _. decide-Knows d spec (take_out spec.definition_hash d.pre_approved) j old)

  sync_specs-Knows :
      (specs : List AppSpec) (d : Daemon F) (j : String)
      → (seen specs j ≡ false → Knows d j)
      → Knows (sync_specs d specs).0 j
  unfolding sync_specs sync_spec seen
  sync_specs-Knows [] d j old = old refl
  sync_specs-Knows (spec ∷ specs) d j old = sync_specs-Knows specs (sync_spec d spec).0 j (λ unseen.
      sync_local-Knows d spec (Dict.get d.apps spec.id) j refl
        (λ other. old (ground (arith, unseen, other))))

  -- The agent knows the app exactly if the hub listed it.
  abbrev pub IsListed : List AppSpec → Daemon F → String → Type 0
  IsListed specs d j =
      (seen specs j ≡ true → Dict.get d.apps j ≢ none)
      × (seen specs j ≡ false → Dict.get d.apps j ≡ none)

  -- After an app_sync, whatever was known before, the agent knows the apps that the hub listed, and
  -- no others.
  pub apply_app_sync-IsListed :
      (e : Env) (d : Daemon F) (specs : List AppSpec) (j : String)
      → IsListed specs (apply_app_sync e d specs) j
  unfolding apply_app_sync save
  apply_app_sync-IsListed e d specs j =
      let d1 = (sync_specs d specs).0 in
      let (listed, absent, unlisted) = get-forget_unseen d1.apps d1 specs j in
      let both : IsListed specs (forget_unseen d1 specs d1.apps).0 j = (
        λ s gone.
            sync_specs-Knows specs d j (λ u. absurd (ground (arith, s, u))) (sym (listed s) ∙ gone),
        λ u. elim (Option-cases (Dict.get d1.apps j)) [
          | inl missing ↦ absent missing
          | inr (a, there) ↦ unlisted u (λ gone. ground (arith, there, gone))
        ],
      ) in
      if_rule (λ (r : Daemon F). IsListed specs r j)
        ((sync_specs d specs).1 || (forget_unseen d1 specs d1.apps).1) (λ _. both) (λ _. both)
