-- ===== src/Agent/TokenProxy/Proxy/Tests.antt =====
-- A request of one app to Anthropic's API.
use breakerbox.Prelude.{
  ℕ, String, true, List, [], ◌∷◌, ◌++◌, none, some, ◌≡◌, refl, map, str_eq, if◌then◌else◌, arith,
  length,
}
use breakerbox.Prelude.Int.{pos}
use breakerbox.Agent.Daemon.Apps.{env_for}
use breakerbox.Agent.TokenProxy.Rows.{Provider}
use breakerbox.Agent.TokenProxy.Chunks.{joined}
use breakerbox.Agent.TokenProxy.Proxy.{
  ProxyNet, ProxyRequest, ProxyRoute, ProxyUpstream, UpstreamResponse, anthropic_name, api_host,
  application_json, handle_proxied, https, openai_name, provider_of, proxy_error, relayed, route_of,
  slash, upstream_for, upstream_request,
}
use breakerbox.Agent.TokenProxy.Proxy.Route.{base_path, env_for-Routed}
use breakerbox.Agent.TokenProxy.Proxy.Relay.{handle_proxied-relayed, row_for_app, row_of_response}

abbrev bytes_of : String → List ℕ
bytes_of s =
    if str_eq s "/anthropic"
    then slash ∷ anthropic_name
    else if str_eq s "/openai/v1"
    then slash ∷ openai_name ++ slash ∷ 118 ∷ 49 ∷ []
    else 97 ∷ []

env_for-Routed_example :
    map (λ v. route_of (base_path bytes_of v ++ slash ∷ 120 ∷ [])) (env_for 4000 "a")
    ≡ some (record { app_id = 97 ∷ []; provider_name = anthropic_name; rest = slash ∷ 120 ∷ [] })
      ∷ some (record {
        app_id = 97 ∷ [];
        provider_name = openai_name;
        rest = slash ∷ 118 ∷ 49 ∷ slash ∷ 120 ∷ [];
      })
      ∷ []
env_for-Routed_example = env_for-Routed bytes_of 4000 "a" (120 ∷ []) refl refl (refl, tt)

abbrev two_chunks : UpstreamResponse
two_chunks = record {
  status = 200;
  content_type = application_json;
  headers = ("Content-Type", "application/json") ∷ [];
  chunks = (1 ∷ 2 ∷ []) ∷ (3 ∷ []) ∷ [];
}

abbrev ready_net : ProxyNet
ready_net = record {
  text = λ b. "a";
  override = λ name. none;
  builds = λ req. true;
  responds = λ req. some two_chunks;
  writes = λ n. true;
  now_ms = pos 5;
  chat_body = λ b. none;
  with_include_usage = λ b. none;
  anthropic_body = λ b. some (record {
    id = "m";
    model = "x";
    usage = some (record {
      input_tokens = pos 1;
      output_tokens = pos (length b);
      cache_creation_tokens = pos 0;
      cache_read_tokens = pos 0;
    });
  });
  openai_body = λ b. none;
  events = record { anthropic_event = λ b. none; openai_chunk = λ b. none };
}

-- /t/a/anthropic/x
abbrev one_request : ProxyRequest
one_request = record {
  is_post = true;
  path = 47 ∷ 116 ∷ 47 ∷ 97 ∷ 47 ∷ anthropic_name ++ 47 ∷ 120 ∷ [];
  query = [];
  headers = ("Accept-Encoding", "gzip") ∷ [];
  body = some (123 ∷ 125 ∷ []);
}

abbrev one_route : ProxyRoute
one_route = record { app_id = 97 ∷ []; provider_name = anthropic_name; rest = 47 ∷ 120 ∷ [] }

abbrev anthropic_api : ProxyUpstream
anthropic_api = record { scheme = https; host = api_host anthropic_name }

no_encoding_is_sent :
    (upstream_request ready_net one_request one_route Provider.anthropic anthropic_api []).headers
    ≡ []
unfolding upstream_request
no_encoding_is_sent = refl

short_path :
    handle_proxied ready_net (record one_request { path = 47 ∷ 116 ∷ 47 ∷ [] }) ≡ proxy_error 404
unfolding handle_proxied
short_path = refl

one_routed : route_of one_request.path ≡ some one_route
unfolding route_of
one_routed = refl

handle_proxied-relayed_example :
    handle_proxied ready_net one_request
    ≡ relayed 200 two_chunks.headers two_chunks.chunks
        (row_for_app "a" (pos 5) (row_of_response ready_net Provider.anthropic two_chunks))
unfolding joined provider_of upstream_for
handle_proxied-relayed_example =
    handle_proxied-relayed ready_net one_request one_route anthropic_api (123 ∷ 125 ∷ []) two_chunks
      one_routed refl refl refl refl (omega arith) (λ n. refl)
