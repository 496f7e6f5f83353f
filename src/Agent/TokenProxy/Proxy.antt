-- ===== src/Agent/TokenProxy/Proxy.antt =====
-- agent/internal/tokenproxy/proxy.go: one request through the proxy. A path, a URL and a body are lists
-- of bytes; a header has a canonical name and a value.
pub mod Route
pub mod Relay
mod Tests
use breakerbox.Prelude.{
  ℕ, suc, String, Bool, true, false, not, ◌&&◌, List, [], ◌∷◌, ◌++◌, Option, none, some, ◌==◌, ltb,
  leb, if◌then◌else◌, str_eq, take,
}
use breakerbox.Prelude.Int.{ℤ}
use breakerbox.Protocol.{TokenUsageRow}
use breakerbox.Agent.TokenProxy.Rows.{
  AnthropicUsage, Body, OpenaiUsage, Provider, json_feed, json_result,
}
use breakerbox.Agent.TokenProxy.Sse.{Json, Parser, after_prefix, feed, is_text, new_parser, result}

abbrev pub slash : ℕ
slash = 47

-- strings.Cut at the first slash
unfoldable pub cut_slash : List ℕ → List ℕ × Option (List ℕ)
cut_slash [] = ([], none)
cut_slash (c ∷ s) = let cut = cut_slash s in if c == slash then ([], some s) else (c ∷ cut.0, cut.1)

-- "/t/"
abbrev pub mount : List ℕ
mount = 47 ∷ 116 ∷ 47 ∷ []

unfoldable pub or_whole : List ℕ → Option (List ℕ) → List ℕ
or_whole path none = path
or_whole path (some rest) = rest

-- The app, the provider's name and the rest of the path.
pub record ProxyRoute : Type 0 where
  pub app_id : List ℕ
  pub provider_name : List ℕ
  pub rest : List ℕ

unfoldable pub third_part : List ℕ → List ℕ → Option (List ℕ) → Option ProxyRoute
third_part app_id provider_name none = none
third_part app_id provider_name (some rest) =
    some (record { app_id = app_id; provider_name = provider_name; rest = slash ∷ rest })

unfoldable pub second_part : List ℕ → Option (List ℕ) → Option ProxyRoute
unfolding third_part cut_slash
second_part app_id none = none
second_part app_id (some s) = third_part app_id (cut_slash s).0 (cut_slash s).1

-- strings.SplitN(strings.TrimPrefix(path, "/t/"), "/", 3), and none for fewer than three parts
unfoldable pub route_of : List ℕ → Option ProxyRoute
unfolding or_whole after_prefix second_part cut_slash
route_of path =
    let cut = cut_slash (or_whole path (after_prefix mount path)) in second_part cut.0 cut.1

pub record ProxyUpstream : Type 0 where
  pub scheme : List ℕ
  pub host : List ℕ

abbrev pub anthropic_name : List ℕ
anthropic_name = 97 ∷ 110 ∷ 116 ∷ 104 ∷ 114 ∷ 111 ∷ 112 ∷ 105 ∷ 99 ∷ []

abbrev pub openai_name : List ℕ
openai_name = 111 ∷ 112 ∷ 101 ∷ 110 ∷ 97 ∷ 105 ∷ []

-- "https"
abbrev pub https : List ℕ
https = 104 ∷ 116 ∷ 116 ∷ 112 ∷ 115 ∷ []

-- "api." and ".com"
abbrev pub api_host : List ℕ → List ℕ
api_host name = 97 ∷ 112 ∷ 105 ∷ 46 ∷ name ++ 46 ∷ 99 ∷ 111 ∷ 109 ∷ []

unfoldable pub provider_of : (List ℕ → String) → List ℕ → Provider
unfolding is_text
provider_of text name =
    if is_text anthropic_name name
    then Provider.anthropic
    else if is_text openai_name name
    then Provider.openai
    else Provider.other (text name)

-- upstreams
unfoldable pub known_upstream : Provider → Option ProxyUpstream
known_upstream Provider.anthropic = some (record { scheme = https; host = api_host anthropic_name })
known_upstream Provider.openai = some (record { scheme = https; host = api_host openai_name })
known_upstream (Provider.other name) = none

-- upstreamFor, for what the environment variable gives: none unless it is a URL with a host
unfoldable pub upstream_for : Option ProxyUpstream → Provider → Option ProxyUpstream
unfolding known_upstream
upstream_for none provider = known_upstream provider
upstream_for (some up) provider = some up

pub record ProxyRequest : Type 0 where
  pub is_post : Bool
  pub path : List ℕ
  pub query : List ℕ
  pub headers : List (String × String)
  pub body : Option (List ℕ)  -- none if it cannot be read

pub record UpstreamRequest : Type 0 where
  pub from_post : Bool
  pub url : List ℕ
  pub headers : List (String × String)
  pub host : List ℕ
  pub body : List ℕ

-- `chunks` are what Read gives, piece by piece, those of no byte left out (`if n > 0`).
pub record UpstreamResponse : Type 0 where
  pub status : ℕ
  pub content_type : List ℕ
  pub headers : List (String × String)
  pub chunks : List (List ℕ)

-- The body of a chat request: `stream` and whether `stream_options` has include_usage.
pub record ChatBody : Type 0 where
  pub stream : Bool
  pub has_include_usage : Bool

-- The environment and the clock, the HTTP client, the browser side of the connection, and JSON.
pub record ProxyNet : Type 0 where
  pub text : List ℕ → String
  pub override : List ℕ → Option ProxyUpstream
  pub builds : UpstreamRequest → Bool
  pub responds : UpstreamRequest → Option UpstreamResponse
  pub writes : ℕ → Bool  -- whether the n-th Write succeeds
  pub now_ms : ℤ
  pub chat_body : List ℕ → Option ChatBody
  pub with_include_usage : List ℕ → Option (List ℕ)
  pub anthropic_body : List ℕ → Option (Body AnthropicUsage)
  pub openai_body : List ℕ → Option (Body OpenaiUsage)
  pub events : Json

unfoldable pub or_body : List ℕ → Option (List ℕ) → List ℕ
or_body body none = body
or_body body (some out) = out

unfoldable pub include_usage_in : ProxyNet → List ℕ → Option ChatBody → List ℕ
unfolding or_body
include_usage_in net body none = body
include_usage_in net body (some chat) =
    if chat.stream && not chat.has_include_usage
    then or_body body (net.with_include_usage body)
    else body

-- ensureIncludeUsage
unfoldable pub ensure_include_usage : ProxyNet → List ℕ → List ℕ
unfolding include_usage_in
ensure_include_usage net body = include_usage_in net body (net.chat_body body)

abbrev pub max_request_body : ℕ
max_request_body = 67_108_864

unfoldable pub sent_body : ProxyNet → Provider → Bool → List ℕ → List ℕ
unfolding ensure_include_usage
sent_body net Provider.openai true body = ensure_include_usage net (take max_request_body body)
sent_body net Provider.openai false body = take max_request_body body
sent_body net Provider.anthropic is_post body = take max_request_body body
sent_body net (Provider.other name) is_post body = take max_request_body body

-- `if r.URL.RawQuery != ""`
unfoldable pub with_query : List ℕ → List ℕ → List ℕ
with_query url [] = url
with_query url (c ∷ query) = url ++ 63 ∷ c ∷ query

unfoldable pub without_encoding : List (String × String) → List (String × String)
without_encoding [] = []
without_encoding (h ∷ headers) =
    let rest = without_encoding headers in if str_eq h.0 "Accept-Encoding" then rest else h ∷ rest

unfoldable pub upstream_request :
    ProxyNet → ProxyRequest → ProxyRoute → Provider → ProxyUpstream → List ℕ → UpstreamRequest
unfolding sent_body with_query without_encoding
upstream_request net r route provider up body = record {
  from_post = r.is_post;
  url = with_query (up.scheme ++ 58 ∷ 47 ∷ 47 ∷ up.host ++ route.rest) r.query;
  headers = without_encoding r.headers;
  host = up.host;
  body = sent_body net provider r.is_post body;
}

-- usageParser: newSSEParser, newJSONParser, or nil
pub data UsageParser : Type 0 where
  no_parser : UsageParser
  sse_parser : Parser → UsageParser
  json_parser : List ℕ → UsageParser

-- "text/event-stream"
abbrev pub event_stream : List ℕ
event_stream =
    116 ∷ 101 ∷ 120 ∷ 116 ∷ 47 ∷ 101 ∷ 118 ∷ 101 ∷ 110 ∷ 116 ∷ 45 ∷ 115 ∷ 116 ∷ 114 ∷ 101 ∷ 97 ∷ 109
    ∷ []

-- "application/json"
abbrev pub application_json : List ℕ
application_json =
    97 ∷ 112 ∷ 112 ∷ 108 ∷ 105 ∷ 99 ∷ 97 ∷ 116 ∷ 105 ∷ 111 ∷ 110 ∷ 47 ∷ 106 ∷ 115 ∷ 111 ∷ 110 ∷ []

unfoldable pub begins : Option (List ℕ) → Bool
begins none = false
begins (some rest) = true

-- The switch on the status and the content type.
unfoldable pub parser_for : UpstreamResponse → UsageParser
unfolding begins after_prefix
parser_for resp =
    if leb 300 resp.status
    then no_parser
    else if begins (after_prefix event_stream resp.content_type)
    then sse_parser new_parser
    else if begins (after_prefix application_json resp.content_type)
    then json_parser []
    else no_parser

unfoldable pub feed_parser : ProxyNet → Provider → UsageParser → List ℕ → UsageParser
unfolding feed json_feed
feed_parser net provider no_parser b = no_parser
feed_parser net provider (sse_parser p) b = sse_parser (feed net.events provider p b)
feed_parser net provider (json_parser buf) b = json_parser (json_feed buf b)

unfoldable pub parser_result : ProxyNet → Provider → UsageParser → Option TokenUsageRow
unfolding result json_result
parser_result net provider no_parser = none
parser_result net provider (sse_parser p) = result p
parser_result net provider (json_parser buf) =
    json_result net.anthropic_body net.openai_body provider buf

-- The loop: the parser and what was written, from the n-th Write on.
unfoldable pub relay :
    ProxyNet → Provider → ℕ → UsageParser → List (List ℕ) → UsageParser × List (List ℕ)
unfolding feed_parser
relay net provider n p [] = (p, [])
relay net provider n p (chunk ∷ chunks) =
    let fed = feed_parser net provider p chunk in
    let later = relay net provider (suc n) fed chunks in
    if net.writes n then (later.0, chunk ∷ later.1) else (fed, [])

unfoldable pub emitted_rows : ProxyNet → List ℕ → Option TokenUsageRow → List TokenUsageRow
emitted_rows net app_id none = []
emitted_rows net app_id (some row) =
    record row { app_id = net.text app_id; source = "runtime_proxy"; occurred_at_ms = net.now_ms }
    ∷ []

-- What the client gets, and the rows for the hub. An error has a status only.
pub data ProxyReply : Type 0 where
  proxy_error : ℕ → ProxyReply
  relayed : ℕ → List (String × String) → List (List ℕ) → List TokenUsageRow → ProxyReply

unfoldable pub reply_with : ProxyNet → List ℕ → Provider → Option UpstreamResponse → ProxyReply
unfolding relay parser_for parser_result emitted_rows
reply_with net app_id provider none = proxy_error 502
reply_with net app_id provider (some resp) =
    let done = relay net provider 0 (parser_for resp) resp.chunks in
    relayed resp.status resp.headers done.1
      (emitted_rows net app_id (parser_result net provider done.0))

unfoldable pub forward :
    ProxyNet → ProxyRequest → ProxyRoute → Provider → ProxyUpstream → Option (List ℕ) → ProxyReply
unfolding upstream_request reply_with
forward net r route provider up none = proxy_error 502
forward net r route provider up (some body) =
    let req = upstream_request net r route provider up body in
    if net.builds req
    then reply_with net route.app_id provider (net.responds req)
    else proxy_error 502

unfoldable pub forward_to :
    ProxyNet → ProxyRequest → ProxyRoute → Provider → Option ProxyUpstream → ProxyReply
unfolding forward
forward_to net r route provider none = proxy_error 404
forward_to net r route provider (some up) = forward net r route provider up r.body

unfoldable pub forward_route : ProxyNet → ProxyRequest → Option ProxyRoute → ProxyReply
unfolding forward_to upstream_for provider_of
forward_route net r none = proxy_error 404
forward_route net r (some route) =
    let provider = provider_of net.text route.provider_name in
    forward_to net r route provider (upstream_for (net.override route.provider_name) provider)

-- handle
unfoldable pub handle_proxied : ProxyNet → ProxyRequest → ProxyReply
unfolding forward_route route_of
handle_proxied net r = forward_route net r (route_of r.path)
