-- ===== src/Agent/Daemon/Consent.antt =====
-- The host's consent: the daemon spawns a process only from a definition that the host approved or
-- imported, as long as the hub labels each definition with its true hash.
pub mod Start
pub mod Stop
pub mod Crash
pub mod Hub
pub mod Commands
pub mod Telemetry
pub mod Runs
use breakerbox.Prelude.{
  ℕ, String, Bool, true, false, List, [], ◌∷◌, ◌++◌, Option, none, some, not, ◌≡◌, refl, sym, ◌⊎◌,
  inl, inr, arith, str_eq, eq_iff, if◌then◌else◌, Bool-cases, Option-cases, All, All-append,
  All-map, Any, if_rule, ◌∙◌, ap, subst,
}
use breakerbox.Prelude.Int.{ℤ}
use breakerbox.Prelude.Dict
use breakerbox.Prelude.Dict.{
  AllEntries, AllEntries-get, AllEntries-put, Dict, get-put, get-remove, dict_laws,
}
use breakerbox.Protocol.{AppDefinition, AppKind, AppSpec, Approval, is_approved, AppStatus}
use breakerbox.Agent.Daemon.State.{
  AppState, Call, spawn, stop_proc, reap, engine_start, engine_stop, compose_start, compose_stop,
  Env, Daemon, is_docker_kind, send, call, save,
}
use breakerbox.Agent.Daemon.Apps.{
  start_app, start_process, start_docker_app, started, Outcome, send_event,
}

-- What a person did on the host.
pub data HostAction : Type 0 where
  approved : String → AppDefinition → HostAction
  imported : String → HostAction

module _ (hash : AppDefinition → String) where
  abbrev pub Grants : String → AppDefinition → HostAction → Type 0
  Grants app_id def (approved i d) = (i ≡ app_id) × (d ≡ def)
  Grants app_id def (imported h) = h ≡ hash def

  -- Some action on the host covers this definition for this app.
  abbrev pub Consent : List HostAction → String → AppDefinition → Type 0
  Consent history app_id def = Any (Grants app_id def) history

  abbrev pub CallOk : List HostAction → Call → Type 0
  CallOk history (spawn app_id def env) = Consent history app_id def
  CallOk history _ = Unit

  pub record AppOk (history : List HostAction) (app_id : String) (app : AppState) : Type 0 where
    pub labelled : app.hash ≡ hash app.definition
    pub consented :
        is_approved app.approval ≡ true
        → is_docker_kind app.definition.kind ≡ false
        → Consent history app_id app.definition

  abbrev pub AppsOk : List HostAction → Dict AppState → Type 0
  AppsOk history = AllEntries (AppOk history)

  pub record Secure {F : Type 0} (history : List HostAction) (d : Daemon F) : Type 0 where
    pub apps_ok : AppsOk history d.apps
    pub pre_ok : All (λ h. Any (λ a. a ≡ imported h) history) d.pre_approved
    pub calls_ok : All (CallOk history) d.calls

  -- The same app with other process ids, wishes or tracking.
  pub AppOk-same :
      (history : List HostAction) (app_id : String) (a b : AppState)
      → a.definition ≡ b.definition
      → a.hash ≡ b.hash
      → a.approval ≡ b.approval
      → AppOk history app_id a
      → AppOk history app_id b
  AppOk-same history app_id a b d h p ok = record {
    labelled = sym h ∙ ok.labelled ∙ ap hash d;
    consented = λ x y. subst (λ def. Consent history app_id def) d (ok.consented (rw p x) (rw d y));
  }

  module _ {F : Type 0} (history : List HostAction) where
    abbrev pub Safe : Daemon F → Type 0
    Safe d = Secure history d

    -- What touches no app, no pre-approval and logs no call.
    pub same-Safe :
        (d d' : Daemon F)
        → d'.apps ≡ d.apps
        → d'.pre_approved ≡ d.pre_approved
        → d'.calls ≡ d.calls
        → Safe d
        → Safe d'
    same-Safe d d' p q r s = record {
      apps_ok = rw p s.apps_ok;
      pre_ok = rw q s.pre_ok;
      calls_ok = rw r s.calls_ok;
    }

    pub one_call :
        (d d' : Daemon F) (c : Call)
        → CallOk history c
        → d'.apps ≡ d.apps
        → d'.pre_approved ≡ d.pre_approved
        → d'.calls ≡ c ∷ d.calls
        → Safe d
        → Safe d'
    one_call d d' c ok p q r s = record {
      apps_ok = rw p s.apps_ok;
      pre_ok = rw q s.pre_ok;
      calls_ok = rw r (ok, s.calls_ok);
    }

    -- The entry of an app.
    pub known_app :
        (d : Daemon F) (app_id : String) (app : AppState)
        → Dict.get d.apps app_id ≡ some app
        → Safe d
        → AppOk history app_id app
    known_app d app_id app q s = AllEntries-get (AppOk history) d.apps app_id app q s.apps_ok

    pub one_app :
        (d d' : Daemon F) (app_id : String) (app : AppState)
        → AppOk history app_id app
        → d'.apps ≡ Dict.put d.apps app_id app
        → d'.pre_approved ≡ d.pre_approved
        → d'.calls ≡ d.calls
        → Safe d
        → Safe d'
    one_app d d' app_id app ok p q r s = record {
      apps_ok = rw p (AllEntries-put (AppOk history) d.apps app_id app ok s.apps_ok);
      pre_ok = rw q s.pre_ok;
      calls_ok = rw r s.calls_ok;
    }
