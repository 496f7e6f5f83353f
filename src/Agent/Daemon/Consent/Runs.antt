-- ===== src/Agent/Daemon/Consent/Runs.antt =====
-- Every run of the daemon keeps the host's consent.
use breakerbox.Prelude.{
  String, true, List, [], ◌∷◌, ◌++◌, Option, none, some, ◌≡◌, refl, inl, All, All-append, All-map,
  Any-append_right,
}
use breakerbox.Prelude.Dict
use breakerbox.Prelude.Dict.{AllEntries-put, AllEntries-map}
use breakerbox.Protocol.{AppDefinition, Approval, is_approved}
use breakerbox.Agent.Daemon.State.{AppState, Call, spawn, Env, Daemon}
use breakerbox.Agent.Daemon.Sync.{SpoolOp, import, approve, reject, set_approval, apply_spool_op}
use breakerbox.Agent.Daemon.Step.{
  Input, booted, polled, disconnected, connected, app_sync, cmd, spool, exited, fired, sampled,
  proxied, flushed, step,
}
use breakerbox.Agent.Daemon.Consent.{
  HostAction, Consent, AppOk, CallOk, Safe, same-Safe, one_app, known_app, approved, imported,
}
use breakerbox.Agent.Daemon.Consent.Crash.{
  proc_exited-Secure, timer_fired-Secure, reconcile-Secure, boot-Secure,
}
use breakerbox.Agent.Daemon.Consent.Commands.{execute-Secure}
use breakerbox.Agent.Daemon.Consent.Hub.{IsImported, IsHonest, apply_app_sync-Secure}
use breakerbox.Agent.Daemon.Consent.Telemetry.{
  poll-Secure, send_metrics-Secure, queue_proxy_rows-Secure, flush_rows-Secure,
}

call_mono :
    (hash : AppDefinition → String) (new history : List HostAction) (c : Call)
    → CallOk hash history c
    → CallOk hash (new ++ history) c
call_mono hash new history (spawn app_id def env) h = Any-append_right _ new history h
call_mono hash new history _ h = tt

module _ (hash : AppDefinition → String) {F : Type 0} where
  -- what a person did on the host in this step
  abbrev pub host_action : Daemon F → Input F → List HostAction
  host_action d (spool (approve app_id)) = elim (Dict.get d.apps app_id) [
    | none ↦ []
    | some app ↦ approved app_id app.definition ∷ []
  ]
  host_action d (spool (import (some def))) = imported (hash def) ∷ []
  host_action d _ = []

  -- the hub's part of the assumption
  abbrev pub Honest : Input F → Type 0
  Honest (app_sync specs) = All (IsHonest hash) specs
  Honest _ = Unit

  -- More actions on the host take no consent away.
  Secure-mono :
      (new history : List HostAction) (d : Daemon F)
      → Safe hash history d
      → Safe hash (new ++ history) d
  Secure-mono new history d s = record {
    apps_ok =
        AllEntries-map (AppOk hash history) _
          (λ k app ok. record {
            labelled = ok.labelled;
            consented =
                λ agreed native. Any-append_right _ new history (ok.consented agreed native);
          })
          d.apps s.apps_ok;
    pre_ok =
        All-map (IsImported history) _ (λ h i. Any-append_right _ new history i) d.pre_approved
          s.pre_ok;
    calls_ok = All-map (CallOk hash history) _ (call_mono hash new history) d.calls s.calls_ok;
  }

  set_approval-Secure :
      (history : List HostAction) (e : Env) (d : Daemon F) (app_id : String) (choice : Approval)
      (app : AppState)
      → (is_approved choice ≡ true → Consent hash history app_id app.definition)
      → Dict.get d.apps app_id ≡ some app
      → Safe hash history d
      → Safe hash history (set_approval e d app_id choice (some app))
  unfolding set_approval
  set_approval-Secure history e d app_id choice app ok q s =
      one_app hash history d _ app_id (record app { approval = choice })
        (record {
          labelled = (known_app hash history d app_id app q s).labelled;
          consented = λ agreed native. ok agreed;
        })
        refl refl refl s

  approve-Secure :
      (history : List HostAction) (e : Env) (d : Daemon F) (app_id : String) (o : Option AppState)
      → Dict.get d.apps app_id ≡ o
      → Safe hash history d
      → Safe hash
          ((elim o [ none ↦ [] | some app ↦ approved app_id app.definition ∷ [] ]) ++ history)
          (set_approval e d app_id Approval.approved o)
  unfolding set_approval
  approve-Secure history e d app_id none q s = s
  approve-Secure history e d app_id (some app) q s =
      set_approval-Secure (approved app_id app.definition ∷ history) e d app_id Approval.approved
        app (λ _. inl (refl, refl)) q
        (Secure-mono (approved app_id app.definition ∷ []) history d s)

  reject-Secure :
      (history : List HostAction) (e : Env) (d : Daemon F) (app_id : String) (o : Option AppState)
      → Dict.get d.apps app_id ≡ o
      → Safe hash history d
      → Safe hash history (set_approval e d app_id Approval.rejected o)
  unfolding set_approval is_approved
  reject-Secure history e d app_id none q s = s
  reject-Secure history e d app_id (some app) q s =
      set_approval-Secure history e d app_id Approval.rejected app (λ agreed. cc) q s

  import-Secure :
      (history : List HostAction) (e : Env) (d : Daemon F) (def : AppDefinition)
      → Safe hash history d
      → Safe hash (imported (hash def) ∷ history) (apply_spool_op hash e d (import (some def)))
  unfolding apply_spool_op
  import-Secure history e d def s =
      let s1 = Secure-mono (imported (hash def) ∷ []) history d s in
      record {
        apps_ok = s1.apps_ok;
        pre_ok = All-append _ d.pre_approved (hash def ∷ []) s1.pre_ok (inl refl, tt);
        calls_ok = s1.calls_ok;
      }

  -- Every step of the daemon keeps the host's consent.
  pub step-Secure :
      (history : List HostAction) (e : Env) (d : Daemon F) (i : Input F)
      → Honest i
      → Safe hash history d
      → Safe hash (host_action d i ++ history) (step hash e d i)
  unfolding step
  step-Secure history e d booted honest s = boot-Secure hash history e d s
  step-Secure history e d polled honest s = poll-Secure hash history e d.apps d s
  step-Secure history e d disconnected honest s = same-Safe hash history d _ refl refl refl s
  step-Secure history e d connected honest s = same-Safe hash history d _ refl refl refl s
  step-Secure history e d (app_sync specs) honest s =
      reconcile-Secure hash history e _ (apply_app_sync-Secure hash history e d specs honest s)
  step-Secure history e d (cmd c) honest s = execute-Secure hash history e d c s
  step-Secure history e d (spool (import none)) honest s = s
  step-Secure history e d (spool (import (some def))) honest s = import-Secure history e d def s
  step-Secure history e d (spool (approve app_id)) honest s =
      approve-Secure history e d app_id (Dict.get d.apps app_id) refl s
  step-Secure history e d (spool (reject app_id)) honest s =
      reject-Secure history e d app_id (Dict.get d.apps app_id) refl s
  step-Secure history e d (spool (SpoolOp.other op)) honest s = s
  step-Secure history e d (exited app_id handle code) honest s =
      proc_exited-Secure hash history e d app_id handle code s
  step-Secure history e d (fired t) honest s = timer_fired-Secure hash history e d t s
  step-Secure history e d (sampled batch) honest s = send_metrics-Secure hash history d batch s
  step-Secure history e d (proxied accepted rows) honest s =
      queue_proxy_rows-Secure hash history accepted d rows s
  step-Secure history e d (flushed accepted) honest s =
      flush_rows-Secure hash history accepted _ d.proxy_rows_buf
        (same-Safe hash history d _ refl refl refl s)

  -- A run of the daemon, and what was done on the host along it, newest first.
  unfoldable pub run : Daemon F → List (Env × Input F) → Daemon F
  unfolding step
  run d [] = d
  run d ((e, i) ∷ rest) = run (step hash e d i) rest

  pub host_history : List HostAction → Daemon F → List (Env × Input F) → List HostAction
  host_history history d [] = history
  host_history history d ((e, i) ∷ rest) =
      host_history (host_action d i ++ history) (step hash e d i) rest

  run-Secure :
      (inputs : List (Env × Input F)) (history : List HostAction) (d : Daemon F)
      → All (λ x. Honest x.1) inputs
      → Safe hash history d
      → Safe hash (host_history history d inputs) (run d inputs)
  unfolding run host_history
  run-Secure [] history d honest s = s
  run-Secure ((e, i) ∷ rest) history d honest s =
      run-Secure rest _ _ honest.1 (step-Secure history e d i honest.0 s)

  -- In every run from a host without apps, if the hub labels each definition with its own hash, each
  -- process that the daemon spawns (on a command, a sync, a crash-restart or at boot) has a
  -- definition that a person approved for that app on the host, or one whose hash was imported there.
  pub spawn-Consent :
      (d : Daemon F) (inputs : List (Env × Input F))
      → d.apps ≡ []
      → d.pre_approved ≡ []
      → d.calls ≡ []
      → All (λ x. Honest x.1) inputs
      → All (CallOk hash (host_history [] d inputs)) (run d inputs).calls
  spawn-Consent d inputs a p c honest =
      (run-Secure inputs [] d honest
        (record { apps_ok = rw a tt; pre_ok = rw p tt; calls_ok = rw c tt })).calls_ok
