-- ===== src/Agent/TokenWatch/Claude.antt =====
-- agent/internal/tokenwatch/claude.go: the usage row of a Claude Code transcript line. A line comes
-- decoded from JSON; `stamp` is its time in milliseconds, or the clock's if it has none, and `cwd` is
-- trimmed.
use breakerbox.Prelude.{String, Bool, not, ◌&&◌, ◌||◌, Option, none, some, if◌then◌else◌, str_eq}
use breakerbox.Prelude.Int.{ℤ, pos, eq_ℤ}
use breakerbox.Protocol.{TokenUsageRow}
use Prim.Native.String.{◌++◌ as str_append}

pub record ClaudeUsage : Type 0 where
  pub input_tokens : ℤ
  pub output_tokens : ℤ
  pub cache_creation_input : ℤ
  pub cache_read_input : ℤ

pub record ClaudeMessage : Type 0 where
  pub id : String
  pub model : String
  pub usage : Option ClaudeUsage

pub record ClaudeLine : Type 0 where
  pub kind : String  -- the field `type`
  pub cwd : String
  pub session_id : String
  pub request_id : String
  pub stamp : ℤ
  pub message : ClaudeMessage

unfoldable pub is_zero_usage : ClaudeUsage → Bool
is_zero_usage u =
    eq_ℤ u.input_tokens (pos 0)
    && eq_ℤ u.output_tokens (pos 0)
    && eq_ℤ u.cache_creation_input (pos 0)
    && eq_ℤ u.cache_read_input (pos 0)

unfoldable pub claude_row_of : ClaudeLine → ClaudeUsage → TokenUsageRow
claude_row_of l u = record {
  dedup_key = str_append (str_append l.message.id ":") l.request_id;
  app_id = "";
  source = "claude_code";
  model = l.message.model;
  input_tokens = u.input_tokens;
  output_tokens = u.output_tokens;
  cache_creation_tokens = u.cache_creation_input;
  cache_read_tokens = u.cache_read_input;
  session_id = l.session_id;
  occurred_at_ms = l.stamp;
}

unfoldable pub usage_row : ClaudeLine → Option ClaudeUsage → Option TokenUsageRow
unfolding is_zero_usage claude_row_of
usage_row l none = none
usage_row l (some u) =
    if not (str_eq l.kind "assistant") || str_eq l.message.id "" || is_zero_usage u
    then none
    else some (claude_row_of l u)

-- parseClaudeLine; none is a line that JSON does not decode
unfoldable pub parse_claude_line : Option ClaudeLine → Option TokenUsageRow
unfolding usage_row
parse_claude_line none = none
parse_claude_line (some l) = usage_row l l.message.usage

unfoldable pub claude_cwd : Option ClaudeLine → String
claude_cwd none = ""
claude_cwd (some l) = l.cwd
