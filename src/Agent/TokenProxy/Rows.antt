-- ===== src/Agent/TokenProxy/Rows.antt =====
-- agent/internal/tokenproxy/parse.go: the usage rows of both providers, and the parser of responses
-- that are one JSON document. Bytes are numbers; JSON's decoding is a parameter.
use breakerbox.Prelude.{
  ℕ, ◌*◌, ◌^◌, String, List, ◌++◌, Option, none, some, ltb, if◌then◌else◌, length,
}
use breakerbox.Prelude.Int.{ℤ, pos, ◌-ℤ◌, eq_ℤ, wrap}
use breakerbox.Protocol.{TokenUsageRow}
use Prim.Native.String.{◌++◌ as str_append}

pub data Provider : Type 0 where
  anthropic openai : Provider
  other : String → Provider

pub record AnthropicUsage : Type 0 where
  pub input_tokens : ℤ
  pub output_tokens : ℤ
  pub cache_creation_tokens : ℤ
  pub cache_read_tokens : ℤ

pub record OpenaiUsage : Type 0 where
  pub prompt_tokens : ℤ
  pub completion_tokens : ℤ
  pub input_tokens : ℤ
  pub output_tokens : ℤ
  pub prompt_cached : ℤ
  pub input_cached : ℤ

abbrev pub empty_row : TokenUsageRow
empty_row = record {
  dedup_key = "";
  app_id = "";
  source = "";
  model = "";
  input_tokens = pos 0;
  output_tokens = pos 0;
  cache_creation_tokens = pos 0;
  cache_read_tokens = pos 0;
  session_id = "";
  occurred_at_ms = pos 0;
}

unfoldable pub anthropic_row : String → String → AnthropicUsage → TokenUsageRow
anthropic_row id model u = record empty_row {
  dedup_key = str_append "proxy:" id;
  model = model;
  input_tokens = u.input_tokens;
  output_tokens = u.output_tokens;
  cache_creation_tokens = u.cache_creation_tokens;
  cache_read_tokens = u.cache_read_tokens;
}

-- `x := a; if x == 0 { x = b }`
unfoldable pub or_else : ℤ → ℤ → ℤ
or_else a b = if eq_ℤ a (pos 0) then b else a

unfoldable pub openai_row : String → String → OpenaiUsage → TokenUsageRow
unfolding or_else wrap ◌-ℤ◌
openai_row id model u =
    let cached = or_else u.prompt_cached u.input_cached in
    record empty_row {
      dedup_key = str_append "proxy:" id;
      model = model;
      input_tokens = wrap (or_else u.prompt_tokens u.input_tokens -ℤ cached);
      cache_read_tokens = cached;
      output_tokens = or_else u.completion_tokens u.output_tokens;
    }

-- The body of a response, as far as it is read.
pub record Body (U : Type 0) : Type 0 where
  pub id : String
  pub model : String
  pub usage : Option U

abbrev pub max_json_body : ℕ
max_json_body = 16 * 2 ^ 20

-- jsonParser.feed
unfoldable pub json_feed : List ℕ → List ℕ → List ℕ
json_feed buf b = if ltb (length buf) max_json_body then buf ++ b else buf

unfoldable pub anthropic_result : Option (Body AnthropicUsage) → Option TokenUsageRow
unfolding anthropic_row
anthropic_result none = none
anthropic_result (some body) = elim body.usage [
  | none ↦ none
  | some u ↦ some (anthropic_row body.id body.model u)
]

unfoldable pub openai_result : Option (Body OpenaiUsage) → Option TokenUsageRow
unfolding openai_row
openai_result none = none
openai_result (some body) = elim body.usage [
  | none ↦ none
  | some u ↦ some (openai_row body.id body.model u)
]

-- jsonParser.result
unfoldable pub json_result :
    (List ℕ → Option (Body AnthropicUsage))
    → (List ℕ → Option (Body OpenaiUsage))
    → Provider
    → List ℕ
    → Option TokenUsageRow
unfolding anthropic_result openai_result
json_result anthropic_body openai_body Provider.anthropic buf =
    anthropic_result (anthropic_body buf)
json_result anthropic_body openai_body Provider.openai buf = openai_result (openai_body buf)
json_result anthropic_body openai_body (Provider.other p) buf = none
