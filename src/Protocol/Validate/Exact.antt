-- ===== src/Protocol/Validate/Exact.antt =====
-- What `validate` accepts and what it reports.
use breakerbox.Prelude.{
  Bool, true, false, List, [], ◌∷◌, ◌++◌, Option, none, some, ◌≡◌, refl, ◌↔◌, arith, eq_iff, All,
}
use breakerbox.Prelude.Int.{ℤ, pos, ◌≤ℤ◌}
use breakerbox.Protocol.Words.{AppKind}
use breakerbox.Protocol.AppDef.{AppDefinition, HealthCheck}
use breakerbox.Protocol.Validate.{
  Problem, when, kind_problems, port_problems, health_problems, validate, IsRunnable, HasHttpCheck,
  IsWellFormed,
}

append_nil_parts {ℓ} : {A : Type ℓ} (xs ys : List A) → xs ++ ys ≡ [] → (xs ≡ []) × (ys ≡ [])
append_nil_parts [] ys h = (refl, h)
append_nil_parts (x ∷ xs) ys h = cc

when-nil : (b : Bool) (p : Problem) → (when b p ≡ []) ↔ (b ≡ false)
unfolding when
when-nil true p = (λ h. cc, λ h. cc)
when-nil false p = (λ _. refl, λ _. refl)

kind_sound : (d : AppDefinition) (k : AppKind) → kind_problems d k ≡ [] → IsRunnable d k
unfolding kind_problems
kind_sound d AppKind.unset h = ground arith
kind_sound d AppKind.process h = ground arith
kind_sound d AppKind.docker h = λ e. ground (arith, eq_iff d.container_id "")
kind_sound d AppKind.compose h = λ e. ground (arith, eq_iff d.compose_project "")
kind_sound d (AppKind.other s) h = cc

kind_complete : (d : AppDefinition) (k : AppKind) → IsRunnable d k → kind_problems d k ≡ []
unfolding kind_problems
kind_complete d AppKind.unset h = ground arith
kind_complete d AppKind.process h = ground arith
kind_complete d AppKind.docker h = ground (arith, eq_iff d.container_id "")
kind_complete d AppKind.compose h = ground (arith, eq_iff d.compose_project "")
kind_complete d (AppKind.other s) h = absurd h

abbrev InRange : ℤ → Type 0
InRange p = (pos 1 ≤ℤ p) × (p ≤ℤ pos 65535)

ports_sound : (ps : List ℤ) → port_problems ps ≡ [] → All InRange ps
unfolding port_problems
ports_sound [] h = tt
ports_sound (p ∷ ps) h =
    let (here, rest) = append_nil_parts (when _ _) (port_problems ps) h in
    (ground (arith, here), ports_sound ps rest)

ports_complete : (ps : List ℤ) → All InRange ps → port_problems ps ≡ []
unfolding port_problems
ports_complete [] h = refl
ports_complete (p ∷ ps) h = ground (arith, ports_complete ps h.1)

health_sound : (o : Option HealthCheck) → health_problems o ≡ [] → HasHttpCheck o
unfolding health_problems
health_sound none h = tt
health_sound (some hc) h = ground arith

health_complete : (o : Option HealthCheck) → HasHttpCheck o → health_problems o ≡ []
unfolding health_problems
health_complete none h = refl
health_complete (some hc) h = ground arith

validate_sound : (d : AppDefinition) → validate d ≡ [] → IsWellFormed d
unfolding validate
validate_sound d h =
    let (version, rest) = append_nil_parts _ _ h in
    let (named, rest') = append_nil_parts _ _ rest in
    let (kind, rest'') = append_nil_parts (kind_problems d d.kind) _ rest' in
    let (ports, health) =
      append_nil_parts (port_problems d.ports) (health_problems d.health_check) rest'' in
    record {
      version = ground (arith, (when-nil _ _).0 version);
      named = (when-nil _ _).0 named;
      runnable = kind_sound d d.kind kind;
      ports = ports_sound d.ports ports;
      health = health_sound d.health_check health;
    }

-- `validate` reports no problem exactly for the definitions that are well formed: schema version 1,
-- a name that is not blank, what the kind needs, ports within 1..65535, an http health check.
pub validate_exact : (d : AppDefinition) → (validate d ≡ []) ↔ IsWellFormed d
unfolding validate
validate_exact d = (
  validate_sound d,
  λ w. ground (
    arith,
    kind_complete d d.kind w.runnable,
    ports_complete d.ports w.ports,
    health_complete d.health_check w.health,
  ),
)
