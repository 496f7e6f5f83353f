-- ===== src/Agent/TokenProxy/Proxy/Relay.antt =====
-- What passes through the proxy.
use breakerbox.Prelude.{
  ℕ, suc, String, ◌≤◌, true, List, [], ◌∷◌, ◌++◌, Option, none, some, if◌then◌else◌, ◌≡◌, refl, sym,
  ap, ◌∙◌, arith, ltb, length, length-append, empty_if_no_length, Bool-cases, inl, inr, if_rule,
  leb,
}
use mathlib.Core.List.{append_assoc, append-nil}
use breakerbox.Prelude.Int.{ℤ}
use breakerbox.Protocol.{TokenUsageRow}
use breakerbox.Agent.TokenProxy.Rows.{json_result, Provider, json_feed, max_json_body}
use breakerbox.Agent.TokenProxy.Sse.{result, Parser, consume_lines, feed, new_parser, split_lines}
use breakerbox.Agent.TokenProxy.Chunks.{feed_all, feed_all-joined, joined}
use breakerbox.Agent.TokenProxy.Proxy.{
  ProxyNet, ProxyRequest, ProxyRoute, ProxyUpstream, UpstreamResponse, UsageParser,
  application_json, begins, emitted_rows, event_stream, feed_parser, forward, forward_route,
  forward_to, after_prefix, handle_proxied, json_parser, no_parser, parser_for, parser_result,
  provider_of, relay, relayed, reply_with, route_of, sse_parser, upstream_for, upstream_request,
}

module _ (net : ProxyNet) (provider : Provider) where
  feed_each : UsageParser → List (List ℕ) → UsageParser
  feed_each p [] = p
  feed_each p (chunk ∷ chunks) = feed_each (feed_parser net provider p chunk) chunks

  relay-all :
      (n : ℕ) (p : UsageParser) (chunks : List (List ℕ))
      → ((k : ℕ) → net.writes k ≡ true)
      → relay net provider n p chunks ≡ (feed_each p chunks, chunks)
  unfolding relay feed_each
  relay-all n p [] ok = refl
  relay-all n p (chunk ∷ chunks) ok = rw (ok n) (
      ap (λ (r : UsageParser × List (List ℕ)). (r.0, chunk ∷ r.1))
        (relay-all (suc n) (feed_parser net provider p chunk) chunks ok))

  none_fed : (chunks : List (List ℕ)) → feed_each no_parser chunks ≡ no_parser
  unfolding feed_each feed_parser
  none_fed [] = refl
  none_fed (chunk ∷ chunks) = none_fed chunks

  sse_fed :
      (p : Parser) (chunks : List (List ℕ))
      → feed_each (sse_parser p) chunks ≡ sse_parser (feed_all net.events provider p chunks)
  unfolding feed_each feed_parser feed_all
  sse_fed p [] = refl
  sse_fed p (chunk ∷ chunks) = sse_fed (feed net.events provider p chunk) chunks

  json_fed :
      (buf : List ℕ) (chunks : List (List ℕ))
      → length (buf ++ joined chunks) ≤ max_json_body
      → feed_each (json_parser buf) chunks ≡ json_parser (buf ++ joined chunks)
  unfolding feed_each feed_parser json_feed joined
  json_fed buf [] small = ap json_parser (sym (append-nil buf))
  json_fed buf (chunk ∷ chunks) small =
      let whole = append_assoc buf chunk (joined chunks) in
      let rest : length ((buf ++ chunk) ++ joined chunks) ≤ max_json_body =
        omega (arith, ap length whole, small) in
      elim (Bool-cases (ltb (length buf) max_json_body)) [
        | inl room ↦ rw room (json_fed (buf ++ chunk) chunks rest ∙ ap json_parser whole)
        | inr full ↦
            let none_more : chunk ≡ [] = empty_if_no_length chunk (
              ground (
                arith,
                small,
                length-append buf (chunk ++ joined chunks),
                length-append chunk (joined chunks),
              )) in
            let same : buf ++ joined chunks ≡ buf ++ (chunk ++ joined chunks) =
              ap (λ c. buf ++ (c ++ joined chunks)) (sym none_more) in
            rw full
              (json_fed buf chunks (omega (arith, ap length same, small)) ∙ ap json_parser same)
      ]

  -- The parser after all chunks is the parser after their bytes in one piece.
  abbrev Whole : List (List ℕ) → UsageParser → Type 0
  Whole chunks p = feed_each p chunks ≡ feed_parser net provider p (joined chunks)

  nothing_fed : feed net.events provider new_parser [] ≡ new_parser
  unfolding feed split_lines consume_lines
  nothing_fed = refl

  sse_all-Whole : (chunks : List (List ℕ)) → Whole chunks (sse_parser new_parser)
  unfolding feed_parser joined feed_all feed_each
  sse_all-Whole [] = ap sse_parser (sym nothing_fed)
  sse_all-Whole (chunk ∷ chunks) =
      sse_fed new_parser (chunk ∷ chunks)
      ∙ ap sse_parser (feed_all-joined net.events provider chunk chunks)

  json_all-Whole :
      (chunks : List (List ℕ))
      → length (joined chunks) ≤ max_json_body
      → Whole chunks (json_parser [])
  unfolding feed_parser json_feed
  json_all-Whole chunks small = json_fed [] chunks small

  none_all-Whole : (chunks : List (List ℕ)) → Whole chunks no_parser
  unfolding feed_parser
  none_all-Whole chunks = none_fed chunks

  fed_all-Whole :
      (resp : UpstreamResponse)
      → length (joined resp.chunks) ≤ max_json_body
      → Whole resp.chunks (parser_for resp)
  unfolding parser_for
  fed_all-Whole resp small =
      if_rule (Whole resp.chunks) (leb 300 resp.status) {x = no_parser}
        (λ _. none_all-Whole resp.chunks)
        (λ _.
          if_rule (Whole resp.chunks) (begins (after_prefix event_stream resp.content_type))
            {x = sse_parser new_parser} (λ _. sse_all-Whole resp.chunks)
            (λ _.
              if_rule (Whole resp.chunks) (begins (after_prefix application_json resp.content_type))
                {x = json_parser []} {y = no_parser} (λ _. json_all-Whole resp.chunks small)
                (λ _. none_all-Whole resp.chunks)))

-- The provider that a path names.
abbrev pub provider_in : ProxyNet → ProxyRoute → Provider
provider_in net route = provider_of net.text route.provider_name

-- The row of the whole response: of its events if it is an event stream, of its document if it is JSON,
-- and none otherwise or if the provider reports an error.
abbrev pub row_of_response : ProxyNet → Provider → UpstreamResponse → Option TokenUsageRow
row_of_response net provider resp =
    if leb 300 resp.status
    then none
    else if begins (after_prefix event_stream resp.content_type)
    then result (feed net.events provider new_parser (joined resp.chunks))
    else if begins (after_prefix application_json resp.content_type)
    then json_result net.anthropic_body net.openai_body provider (joined resp.chunks)
    else none

-- The row as the hub gets it.
abbrev pub row_for_app : String → ℤ → Option TokenUsageRow → List TokenUsageRow
row_for_app app now none = []
row_for_app app now (some row) =
    record {
      dedup_key = row.dedup_key;
      app_id = app;
      source = "runtime_proxy";
      model = row.model;
      input_tokens = row.input_tokens;
      output_tokens = row.output_tokens;
      cache_creation_tokens = row.cache_creation_tokens;
      cache_read_tokens = row.cache_read_tokens;
      session_id = row.session_id;
      occurred_at_ms = now;
    }
    ∷ []

emitted_lem :
    (net : ProxyNet) (app_id : List ℕ) (row : Option TokenUsageRow)
    → emitted_rows net app_id row ≡ row_for_app (net.text app_id) net.now_ms row
unfolding emitted_rows
emitted_lem net app_id none = refl
emitted_lem net app_id (some row) = refl

result_lem :
    (net : ProxyNet) (provider : Provider) (resp : UpstreamResponse)
    → parser_result net provider (feed_parser net provider (parser_for resp) (joined resp.chunks))
      ≡ row_of_response net provider resp
unfolding parser_for parser_result feed_parser json_feed
result_lem net provider resp = elim (Bool-cases (leb 300 resp.status)) [
  | inl bad ↦ rw bad refl
  | inr good ↦ rw good (elim (Bool-cases (begins (after_prefix event_stream resp.content_type))) [
    | inl events ↦ rw events refl
    | inr no_events ↦
        rw no_events (elim (Bool-cases (begins (after_prefix application_json resp.content_type))) [
          | inl json ↦ rw json refl
          | inr none_of_them ↦ rw none_of_them refl
        ])
  ])
]

-- A request for a known provider that the upstream answers, with at most 16 MiB, comes back with the
-- upstream's status, headers and bytes, chunk by chunk, if the client stays; and the hub gets the row of
-- the whole response for the app of the path, however the response is cut into chunks, or no row if it
-- has none.
pub handle_proxied-relayed :
    (net : ProxyNet) (r : ProxyRequest) (route : ProxyRoute) (up : ProxyUpstream) (body : List ℕ)
    (resp : UpstreamResponse)
    → route_of r.path ≡ some route
    → upstream_for (net.override route.provider_name) (provider_in net route) ≡ some up
    → r.body ≡ some body
    → net.builds (upstream_request net r route (provider_in net route) up body) ≡ true
    → net.responds (upstream_request net r route (provider_in net route) up body) ≡ some resp
    → length (joined resp.chunks) ≤ max_json_body
    → ((n : ℕ) → net.writes n ≡ true)
    → handle_proxied net r
      ≡ relayed resp.status resp.headers resp.chunks (
          row_for_app
            (net.text route.app_id)
            net.now_ms
            (row_of_response net (provider_in net route) resp))
unfolding handle_proxied forward_route forward_to forward reply_with
handle_proxied-relayed net r route up body resp routed known readable builds answered small stays =
    let provider = provider_in net route in
    rw (routed, known, readable, builds, answered)
      (rw
        (
          relay-all net provider 0 (parser_for resp) resp.chunks stays,
          fed_all-Whole net provider resp small,
          result_lem net provider resp,
          emitted_lem net route.app_id (row_of_response net provider resp),
        )
        refl)
