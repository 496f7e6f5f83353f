-- ===== src/Agent/Daemon/Gate.antt =====
-- The gate of execute in daemon.go, and what applyAppSync leaves in the state.
use breakerbox.Prelude.{
  Option, none, some, ◌≡◌, ◌≢◌, ◌⊎◌, inl, inr, refl, arith, str_eq, eq_iff, Bool-cases,
}
use breakerbox.Prelude.Dict
use breakerbox.Protocol.{Approval, Cmd, Verb, is_approved, is_approved-eq}
use breakerbox.Agent.Daemon.State.{
  AppState, Reason, unknown_on_host, stale_hash, not_approved_on_host, bad_verb, failed, cmd_ack,
  cmd_result, Env, Daemon, send,
}
use breakerbox.Agent.Daemon.Sync.{execute, execute_on, run_verb}

abbrev pub IsKnownVerb : Verb → Type 0
IsKnownVerb Verb.start = Unit
IsKnownVerb Verb.stop = Unit
IsKnownVerb Verb.restart = Unit
IsKnownVerb (Verb.other v) = ⊥

-- The command names the definition that this host has of the app.
abbrev pub SameHash : AppState → Cmd → Type 0
SameHash app c = app.hash ≡ c.definition_hash

-- What each reason says of the app that this host has, if it has one, and the command.
abbrev pub IsTrue : Reason → Option AppState → Cmd → Type 0
IsTrue unknown_on_host known c = known ≡ none
IsTrue stale_hash known c = (app : AppState) × (known ≡ some app) × ¬ SameHash app c
IsTrue not_approved_on_host known c =
    (app : AppState) × (known ≡ some app) × SameHash app c × (app.approval ≢ Approval.approved)
IsTrue bad_verb known c =
    (app : AppState) × (known ≡ some app)
    × SameHash app c
    × (app.approval ≡ Approval.approved)
    × ¬ IsKnownVerb c.verb
IsTrue (failed err) known c = ⊥

-- The app is known with this very definition, it was approved on this host, and the verb is one of
-- the fixed set.
abbrev pub MayRun : Option AppState → Cmd → Type 0
MayRun known c =
    (app : AppState) × (known ≡ some app)
    × SameHash app c
    × (app.approval ≡ Approval.approved)
    × IsKnownVerb c.verb

module _ {F : Type 0} where
  -- The command may run, and its verb is run; or it is answered with a reason that is true, and
  -- nothing else happens.
  abbrev Decided : Env → Daemon F → Cmd → Option AppState → Daemon F → Type 0
  Decided e d c known after =
      (MayRun known c × (after ≡ run_verb e d c c.verb))
      ⊎ ((r : Reason) × IsTrue r known c × (after ≡ send d (cmd_result c.cmd_id (some r))))

  verb-Decided :
      (e : Env) (d : Daemon F) (c : Cmd) (app : AppState) (verb : Verb)
      → c.verb ≡ verb
      → SameHash app c
      → app.approval ≡ Approval.approved
      → Decided e d c (some app) (run_verb e d c c.verb)
  unfolding run_verb
  verb-Decided e d c app Verb.start q same ok = inl (rw q (app, refl, same, ok, tt), refl)
  verb-Decided e d c app Verb.stop q same ok = inl (rw q (app, refl, same, ok, tt), refl)
  verb-Decided e d c app Verb.restart q same ok = inl (rw q (app, refl, same, ok, tt), refl)
  verb-Decided e d c app (Verb.other v) q same ok =
      inr (bad_verb, (app, refl, same, ok, rw q (λ x. x)), rw q refl)

  execute_on-Decided :
      (e : Env) (d : Daemon F) (c : Cmd) (known : Option AppState)
      → Decided e d c known (execute_on e d c known)
  unfolding execute_on is_approved
  execute_on-Decided e d c none = inr (unknown_on_host, refl, refl)
  execute_on-Decided e d c (some app) = elim (Bool-cases (str_eq app.hash c.definition_hash)) [
    | inr stale ↦ rw stale (
        inr (
          stale_hash,
          (app, refl, λ q. ground (arith, stale, (eq_iff app.hash c.definition_hash).1 q)),
          refl,
        ))
    | inl hash ↦
        let same : SameHash app c = (eq_iff app.hash c.definition_hash).0 hash in
        elim (Bool-cases (is_approved app.approval)) [
          | inr waits ↦
              rw (hash, waits)
                (inr (not_approved_on_host, (app, refl, same, λ q. ground arith), refl))
          | inl ok ↦
              rw (hash, ok)
                (verb-Decided e d c app c.verb refl same (is_approved-eq app.approval ok))
        ]
  ]

  -- What execute does with a command: the acknowledgement, and then what was decided.
  abbrev pub Gated : Env → Daemon F → Cmd → Daemon F → Type 0
  Gated e d c after = Decided e (send d (cmd_ack c.cmd_id)) c (Dict.get d.apps c.app_id) after

  -- A command is acknowledged. Its verb is then run only if the app is known on this host with the
  -- hash that the command names, was approved here, and the verb is one of the fixed set. Any other
  -- command is answered with a reason that is true of it, and nothing else of the state changes.
  pub execute-Gated : (e : Env) (d : Daemon F) (c : Cmd) → Gated e d c (execute e d c)
  unfolding execute send
  execute-Gated e d c =
      execute_on-Decided e (send d (cmd_ack c.cmd_id)) c (Dict.get d.apps c.app_id)
