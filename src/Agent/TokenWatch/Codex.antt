-- ===== src/Agent/TokenWatch/Codex.antt =====
-- agent/internal/tokenwatch/codex.go: the rows of a Codex session file, from its running totals. A line
-- comes decoded from JSON; `stamp` is its time in milliseconds, or the clock's if it has none.
use breakerbox.Prelude.{ℕ, suc, String, ◌&&◌, ◌||◌, Option, none, some, if◌then◌else◌, str_eq}
use breakerbox.Prelude.Int.{ℤ, pos, ltb_ℤ, eq_ℤ, wrap, ◌-ℤ◌}

-- The fields of codexUsage that are read.
pub record CodexUsage : Type 0 where
  pub input_tokens : ℤ
  pub cached_input_tokens : ℤ
  pub output_tokens : ℤ

pub record CodexState : Type 0 where
  pub session_id : String
  pub cwd : String
  pub model : String
  pub last : CodexUsage
  pub events : ℕ

pub record CodexPayload : Type 0 where
  pub kind : String  -- the field `type`
  pub id : String
  pub cwd : String
  pub model : String
  pub total : Option CodexUsage  -- info.total_token_usage

pub record CodexLine : Type 0 where
  pub stamp : ℤ
  pub payload : CodexPayload

-- int64 subtraction
unfoldable pub minus : ℤ → ℤ → ℤ
unfolding wrap ◌-ℤ◌
minus a b = wrap (a -ℤ b)

unfoldable pub max64 : ℤ → ℤ → ℤ
max64 a b = if ltb_ℤ b a then a else b

unfoldable pub growth : CodexUsage → CodexUsage → CodexUsage
unfolding minus
growth prev cur = record {
  input_tokens = minus cur.input_tokens prev.input_tokens;
  cached_input_tokens = minus cur.cached_input_tokens prev.cached_input_tokens;
  output_tokens = minus cur.output_tokens prev.output_tokens;
}

-- "counter reset: treat current as fresh"
unfoldable pub delta : CodexUsage → CodexUsage → CodexUsage
unfolding growth
delta prev cur =
    let d = growth prev cur in
    if ltb_ℤ d.input_tokens (pos 0) || ltb_ℤ d.output_tokens (pos 0) then cur else d

-- the text of a dedup key, "codex:<session>:<events>", by its parts
pub record CodexRow : Type 0 where
  pub session_id : String
  pub event : ℕ
  pub model : String
  pub input_tokens : ℤ
  pub cache_read_tokens : ℤ
  pub output_tokens : ℤ
  pub occurred_at_ms : ℤ

unfoldable pub model_or_default : String → String
model_or_default m = if str_eq m "" then "gpt-codex" else m

unfoldable pub row_of : CodexState → ℤ → CodexUsage → CodexRow
unfolding minus max64 model_or_default
row_of st stamp d = record {
  session_id = st.session_id;
  event = st.events;
  model = model_or_default st.model;
  input_tokens = max64 (minus d.input_tokens d.cached_input_tokens) (pos 0);
  cache_read_tokens = d.cached_input_tokens;
  output_tokens = d.output_tokens;
  occurred_at_ms = stamp;
}

unfoldable pub row_if_grown : CodexState → ℤ → CodexUsage → Option CodexRow
unfolding row_of
row_if_grown st stamp d =
    if eq_ℤ d.input_tokens (pos 0) && eq_ℤ d.output_tokens (pos 0)
    then none
    else some (row_of st stamp d)

unfoldable pub count_tokens : CodexState → ℤ → Option CodexUsage → CodexState × Option CodexRow
unfolding delta row_if_grown
count_tokens st stamp none = (st, none)
count_tokens st stamp (some cur) =
    let st1 : CodexState = record st { last = cur; events = suc st.events } in
    (st1, row_if_grown st1 stamp (delta st.last cur))

-- parseCodexLine; none is a line that JSON does not decode
unfoldable pub parse_codex_line : Option CodexLine → CodexState → CodexState × Option CodexRow
unfolding count_tokens
parse_codex_line none st = (st, none)
parse_codex_line (some l) st =
    if str_eq l.payload.kind "session_meta"
    then (record st { session_id = l.payload.id; cwd = l.payload.cwd }, none)
    else if str_eq l.payload.kind "turn_context"
    then (if str_eq l.payload.model ""
        then (st, none)
        else (record st { model = l.payload.model }, none))
    else if str_eq l.payload.kind "token_count"
    then count_tokens st l.stamp l.payload.total
    else (st, none)
