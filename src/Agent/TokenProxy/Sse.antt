-- ===== src/Agent/TokenProxy/Sse.antt =====
-- agent/internal/tokenproxy/parse.go: the parser of event streams. A chunk of the response is a list of
-- bytes; JSON's decoding of an event is a parameter.
use breakerbox.Prelude.{
  ℕ, zero, suc, ◌-◌, String, Bool, true, false, not, ◌&&◌, ◌||◌, List, [], ◌∷◌, ◌++◌, Option, none,
  some, ◌==◌, leb, if◌then◌else◌, str_eq,
}
use breakerbox.Prelude.Int.{pos, ltb_ℤ}
use breakerbox.Protocol.{TokenUsageRow}
use breakerbox.Agent.TokenProxy.Rows.{
  AnthropicUsage, Body, OpenaiUsage, Provider, empty_row, openai_row,
}
use Prim.Native.String.{◌++◌ as str_append}

-- strings.Split(text, "\n"): the lines that are complete, and what follows the last newline
unfoldable pub push_byte : ℕ → List (List ℕ) × List ℕ → List (List ℕ) × List ℕ
push_byte c ([], rest) = ([], c ∷ rest)
push_byte c (l ∷ ls, rest) = ((c ∷ l) ∷ ls, rest)

unfoldable pub split_lines : List ℕ → List (List ℕ) × List ℕ
unfolding push_byte
split_lines [] = ([], [])
split_lines (c ∷ s) =
    let (ls, rest) = split_lines s in if c == 10 then ([] ∷ ls, rest) else push_byte c (ls, rest)

-- strings.TrimSuffix(line, "\r")
unfoldable pub trim_cr : List ℕ → List ℕ
trim_cr [] = []
trim_cr (c ∷ []) = if c == 13 then [] else c ∷ []
trim_cr (c ∷ d ∷ s) = c ∷ trim_cr (d ∷ s)

-- strings.HasPrefix(line, "data:") and TrimPrefix
unfoldable pub after_prefix : List ℕ → List ℕ → Option (List ℕ)
after_prefix [] s = some s
after_prefix (p ∷ ps) [] = none
after_prefix (p ∷ ps) (c ∷ s) = let rest = after_prefix ps s in if p == c then rest else none

abbrev pub data_prefix : List ℕ
data_prefix = 100 ∷ 97 ∷ 116 ∷ 97 ∷ 58 ∷ []

-- the third byte of a space that begins with 0xe2 0x80
unfoldable pub is_general_space : ℕ → Bool
is_general_space c = (leb 0x80 c && leb c 0x8a) || (c == 0xa8) || (c == 0xa9) || (c == 0xaf)

-- How many bytes a space (unicode.IsSpace in UTF-8) at these bytes has; 0 if there is none.
unfoldable pub space_bytes : ℕ → ℕ → ℕ → ℕ
unfolding is_general_space
space_bytes a b c =
    if (leb 9 a && leb a 13) || (a == 0x20)
    then 1
    else if (a == 0xc2) && ((b == 0x85) || (b == 0xa0))
    then 2
    else if ((a == 0xe1) && (b == 0x9a) && (c == 0x80))
        || ((a == 0xe2) && (b == 0x80) && is_general_space c)
        || ((a == 0xe2) && (b == 0x81) && (c == 0x9f))
        || ((a == 0xe3) && (b == 0x80) && (c == 0x80))
    then 3
    else 0

unfoldable pub byte_at : ℕ → List ℕ → ℕ
byte_at n [] = 0
byte_at zero (c ∷ s) = c
byte_at (suc n) (c ∷ s) = byte_at n s

-- the left end, with `skip` more bytes of the space at hand
unfoldable pub trim_front : ℕ → List ℕ → List ℕ
unfolding space_bytes byte_at
trim_front skip [] = []
trim_front (suc k) (c ∷ s) = trim_front k s
trim_front zero (c ∷ s) =
    let n = space_bytes c (byte_at 0 s) (byte_at 1 s) in
    let rest = trim_front (n - 1) s in if n == 0 then c ∷ s else rest

-- the space that ends in the byte `a`, with the bytes before it
unfoldable pub space_before : ℕ → ℕ → ℕ → ℕ
unfolding space_bytes
space_before a b c =
    if space_bytes a 0 0 == 1
    then 1
    else if space_bytes b a 0 == 2
    then 2
    else if space_bytes c b a == 3
    then 3
    else 0

-- the right end, on the bytes backwards
unfoldable pub trim_back : ℕ → List ℕ → List ℕ
unfolding space_before byte_at
trim_back skip [] = []
trim_back (suc k) (c ∷ s) = trim_back k s
trim_back zero (c ∷ s) =
    let n = space_before c (byte_at 0 s) (byte_at 1 s) in
    let rest = trim_back (n - 1) s in if n == 0 then c ∷ s else rest

unfoldable pub backwards : List ℕ → List ℕ → List ℕ
backwards acc [] = acc
backwards acc (c ∷ s) = backwards (c ∷ acc) s

-- strings.TrimSpace
unfoldable pub trim_space : List ℕ → List ℕ
unfolding trim_front trim_back backwards
trim_space s = backwards [] (trim_back 0 (backwards [] (trim_front 0 s)))

unfoldable pub is_text : List ℕ → List ℕ → Bool
is_text [] [] = true
is_text (a ∷ s) (b ∷ t) = let rest = is_text s t in if a == b then rest else false
is_text _ _ = false

-- the data of the line that ends an OpenAI stream
abbrev pub done_text : List ℕ
done_text = 91 ∷ 68 ∷ 79 ∷ 78 ∷ 69 ∷ 93 ∷ []

-- the data of a line, if it is an event
unfoldable pub checked_data : Option (List ℕ) → Option (List ℕ)
unfolding trim_space is_text
checked_data none = none
checked_data (some s) =
    let text = trim_space s in if is_text text [] || is_text text done_text then none else some text

unfoldable pub event_data : List ℕ → Option (List ℕ)
unfolding checked_data trim_cr after_prefix
event_data line = checked_data (after_prefix data_prefix (trim_cr line))

pub record AnthropicEvent : Type 0 where
  pub kind : String  -- the field `type`
  pub message : Option (Body AnthropicUsage)
  pub usage : Option AnthropicUsage

-- json.Unmarshal into the types that the parser declares; none is an error.
pub record Json : Type 0 where
  pub anthropic_event : List ℕ → Option AnthropicEvent
  pub openai_chunk : List ℕ → Option (Body OpenaiUsage)

pub record Seen : Type 0 where
  pub row : TokenUsageRow
  pub saw_usage : Bool

unfoldable pub started_usage : TokenUsageRow → Bool → Option AnthropicUsage → Seen
started_usage row saw none = record { row = row; saw_usage = saw }
started_usage row saw (some u) = record {
  row = record row {
    input_tokens = u.input_tokens;
    cache_creation_tokens = u.cache_creation_tokens;
    cache_read_tokens = u.cache_read_tokens;
    output_tokens = u.output_tokens;
  };
  saw_usage = true;
}

unfoldable pub message_start : Seen → Option (Body AnthropicUsage) → Seen
unfolding started_usage
message_start s none = s
message_start s (some m) =
    started_usage (record s.row { dedup_key = str_append "proxy:" m.id; model = m.model })
      s.saw_usage m.usage

unfoldable pub message_delta : Seen → Option AnthropicUsage → Seen
message_delta s none = s
message_delta s (some u) =
    if ltb_ℤ (pos 0) u.output_tokens
    then record { row = record s.row { output_tokens = u.output_tokens }; saw_usage = true }
    else s

unfoldable pub anthropic_seen : Seen → Option AnthropicEvent → Seen
unfolding message_start message_delta
anthropic_seen s none = s
anthropic_seen s (some ev) =
    if str_eq ev.kind "message_start"
    then message_start s ev.message
    else if str_eq ev.kind "message_delta"
    then message_delta s ev.usage
    else s

unfoldable pub chunk_names : TokenUsageRow → String → String → TokenUsageRow
chunk_names row id model = record row {
  dedup_key =
      if not (str_eq id "") && str_eq row.dedup_key ""
      then str_append "proxy:" id
      else row.dedup_key;
  model = if not (str_eq model "") then model else row.model;
}

unfoldable pub chunk_usage : TokenUsageRow → Bool → Body OpenaiUsage → Option OpenaiUsage → Seen
unfolding openai_row
chunk_usage row saw chunk none = record { row = row; saw_usage = saw }
chunk_usage row saw chunk (some usage) =
    let u = openai_row chunk.id chunk.model usage in
    record {
      row = record row {
        input_tokens = u.input_tokens;
        cache_read_tokens = u.cache_read_tokens;
        output_tokens = u.output_tokens;
      };
      saw_usage = true;
    }

unfoldable pub openai_seen : Seen → Option (Body OpenaiUsage) → Seen
unfolding chunk_names chunk_usage
openai_seen s none = s
openai_seen s (some chunk) =
    chunk_usage (chunk_names s.row chunk.id chunk.model) s.saw_usage chunk chunk.usage

pub record Parser : Type 0 where
  pub partial : List ℕ
  pub seen : Seen

abbrev pub new_parser : Parser
new_parser = record { partial = []; seen = record { row = empty_row; saw_usage = false } }

module _ (json : Json) where
  unfoldable pub consume_event : Provider → Seen → List ℕ → Seen
  unfolding anthropic_seen openai_seen
  consume_event Provider.anthropic s text = anthropic_seen s (json.anthropic_event text)
  consume_event Provider.openai s text = openai_seen s (json.openai_chunk text)
  consume_event (Provider.other p) s text = s

  unfoldable pub consume_data : Provider → Seen → Option (List ℕ) → Seen
  unfolding consume_event
  consume_data provider s none = s
  consume_data provider s (some text) = consume_event provider s text

  unfoldable pub consume_lines : Provider → List (List ℕ) → Seen → Seen
  unfolding consume_data event_data
  consume_lines provider [] s = s
  consume_lines provider (line ∷ lines) s =
      consume_lines provider lines (consume_data provider s (event_data line))

  -- sseParser.feed
  unfoldable pub feed : Provider → Parser → List ℕ → Parser
  unfolding split_lines consume_lines
  feed provider p b =
      let (lines, rest) = split_lines (p.partial ++ b) in
      record { partial = rest; seen = consume_lines provider lines p.seen }

-- sseParser.result
unfoldable pub result : Parser → Option TokenUsageRow
result p = if not p.seen.saw_usage || str_eq p.seen.row.dedup_key "" then none else some p.seen.row
