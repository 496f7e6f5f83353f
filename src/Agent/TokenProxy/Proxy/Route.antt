-- ===== src/Agent/TokenProxy/Proxy/Route.antt =====
-- The paths that the proxy's environment variables lead apps to.
use breakerbox.Prelude.{
  ℕ, String, false, List, [], ◌∷◌, ◌++◌, Option, some, ◌≡◌, refl, ap, ◌∙◌, ◌==◌, All, map,
}
use mathlib.Core.List.{append_assoc}
use breakerbox.Agent.Daemon.State.{EnvVar}
use breakerbox.Agent.Daemon.Apps.{env_for}
use breakerbox.Agent.TokenProxy.Sse.{after_prefix}
use breakerbox.Agent.TokenProxy.Proxy.{
  anthropic_name, cut_slash, mount, openai_name, or_whole, route_of, second_part, slash, third_part,
}

abbrev pub NoSlash : List ℕ → Type 0
NoSlash = All (λ c. (c == slash) ≡ false)

-- The path of a variable's URL.
abbrev pub base_path : (String → List ℕ) → EnvVar → List ℕ
base_path bytes v = mount ++ (bytes v.app ++ bytes v.suffix)

cut_slash-append : (s rest : List ℕ) → NoSlash s → cut_slash (s ++ slash ∷ rest) ≡ (s, some rest)
unfolding cut_slash
cut_slash-append [] rest free = refl
cut_slash-append (c ∷ s) rest free =
    rw free.0
      (ap (λ (p : List ℕ × Option (List ℕ)). (c ∷ p.0, p.1)) (cut_slash-append s rest free.1))

routed :
    (app name rest : List ℕ)
    → NoSlash app
    → NoSlash name
    → route_of (mount ++ (app ++ slash ∷ (name ++ slash ∷ rest)))
      ≡ some (record { app_id = app; provider_name = name; rest = slash ∷ rest })
unfolding route_of or_whole after_prefix second_part third_part
routed app name rest free named =
    rw (cut_slash-append app (name ++ slash ∷ rest) free, cut_slash-append name rest named) refl

var_routed :
    (app suffix name more rest behind : List ℕ)
    → NoSlash app
    → NoSlash name
    → suffix ≡ slash ∷ name ++ more
    → more ++ slash ∷ rest ≡ slash ∷ behind
    → route_of ((mount ++ (app ++ suffix)) ++ slash ∷ rest)
      ≡ some (record { app_id = app; provider_name = name; rest = slash ∷ behind })
var_routed app suffix name more rest behind free named e tail =
    ap (λ s. route_of (mount ++ s))
      (append_assoc app suffix (slash ∷ rest)
        ∙ ap (λ s. app ++ (s ++ slash ∷ rest)) e
        ∙ ap (λ s. app ++ slash ∷ s)
            (append_assoc name more (slash ∷ rest) ∙ ap (λ s. name ++ s) tail))
    ∙ routed app name behind free named

-- A request to a URL that EnvFor gives to an app with no slash in its id, with more of a path behind it,
-- is routed to that app and to the variable's provider, with the rest of the path as the provider's own API has it.
pub env_for-Routed :
    (bytes : String → List ℕ) (port : ℕ) (app_id : String) (rest : List ℕ)
    → bytes "/anthropic" ≡ slash ∷ anthropic_name
    → bytes "/openai/v1" ≡ slash ∷ openai_name ++ slash ∷ 118 ∷ 49 ∷ []
    → NoSlash (bytes app_id)
    → map (λ v. route_of (base_path bytes v ++ slash ∷ rest)) (env_for port app_id)
      ≡ some (record { app_id = bytes app_id; provider_name = anthropic_name; rest = slash ∷ rest })
        ∷ some (record {
          app_id = bytes app_id;
          provider_name = openai_name;
          rest = slash ∷ 118 ∷ 49 ∷ slash ∷ rest;
        })
        ∷ []
unfolding env_for
env_for-Routed bytes port app_id rest first second free =
    let app = bytes app_id in
    let a =
      var_routed app (bytes "/anthropic") anthropic_name [] rest rest free
        (refl, (refl, (refl, (refl, (refl, (refl, (refl, (refl, (refl, tt))))))))) first refl in
    let b =
      var_routed app (bytes "/openai/v1") openai_name (slash ∷ 118 ∷ 49 ∷ []) rest
        (118 ∷ 49 ∷ slash ∷ rest) free (refl, (refl, (refl, (refl, (refl, (refl, tt)))))) second
        refl in
    cc
