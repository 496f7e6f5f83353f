-- ===== src/Agent/TokenWatch/Watcher.antt =====
-- agent/internal/tokenwatch/watcher.go: the watcher of transcript files. A file is the list of its bytes.
pub mod Rows
pub mod Lines
pub mod Tail
pub mod Scan
pub mod Harvest
pub mod Run
pub mod Stop
pub mod Advances
pub mod Crash
use breakerbox.Prelude.{
  ℕ, suc, ◌+◌, ◌-◌, String, Bool, true, false, not, ◌&&◌, ◌||◌, List, [], ◌∷◌, ◌++◌, Option, none,
  some, ◌==◌, ltb, leb, if◌then◌else◌, length, drop,
}
use breakerbox.Prelude.Int.{ℤ, pos, ltb_ℤ}
use breakerbox.Prelude.Dict
use breakerbox.Prelude.Dict.{Dict}
use breakerbox.Protocol.{TokenUsageRow}
use breakerbox.Agent.TokenProxy.Sse.{split_lines}
use breakerbox.Agent.TokenWatch.Codex.{
  CodexLine, CodexRow, CodexState, CodexUsage, parse_codex_line,
}
use breakerbox.Agent.TokenWatch.Claude.{ClaudeLine, claude_cwd, parse_claude_line}

abbrev pub max_backfill_size : ℕ
max_backfill_size = 52_428_800

abbrev pub max_line_bytes : ℕ
max_line_bytes = 4_194_304

pub data Tool : Type 0 where
  claude codex : Tool

-- A row to emit. A Codex row comes with its app.
pub data Harvested : Type 0 where
  claude_row : TokenUsageRow → Harvested
  codex_row : String → CodexRow → Harvested

pub record Checkpoint : Type 0 where
  pub offset : ℕ
  pub codex : Option CodexState

-- `delivered` are the rows that emit accepted, `saved` is the file of checkpoints.
pub record Watcher : Type 0 where
  pub checkpoints : Dict Checkpoint
  pub pending : List Harvested
  pub last_output : Dict ℤ
  pub unparsed : ℕ
  pub delivered : List Harvested
  pub saved : Dict Checkpoint

-- JSON's decoding of lines, json.Valid, and the Resolver.
pub record Reader : Type 0 where
  pub decode_claude : List ℕ → Option ClaudeLine
  pub decode_codex : List ℕ → Option CodexLine
  pub is_json : List ℕ → Bool
  pub resolve : String → String

-- What the hub's connection and the disk answer.
pub record Answers : Type 0 where
  pub emits : List Harvested → Bool
  pub writes : Dict Checkpoint → Bool

unfoldable pub save_checkpoints : Answers → Watcher → Watcher
save_checkpoints a w = if a.writes w.checkpoints then record w { saved = w.checkpoints } else w

-- "Bound the streaming-dedup map"
unfoldable pub bound_last_output : Watcher → Watcher
bound_last_output w = if ltb 50_000 (length w.last_output) then record w { last_output = [] } else w

unfoldable pub cap_pending : Watcher → Watcher
cap_pending w =
    if ltb 10_000 (length w.pending)
    then record w { pending = drop (length w.pending - 10_000) w.pending }
    else w

unfoldable pub accepted : Watcher → Watcher
accepted w = record w { pending = []; delivered = w.delivered ++ w.pending }

unfoldable pub flush_pending : Answers → Watcher → List Harvested → Watcher
unfolding save_checkpoints bound_last_output cap_pending accepted
flush_pending a w [] = save_checkpoints a w
flush_pending a w (row ∷ rows) =
    if a.emits (row ∷ rows)
    then bound_last_output (save_checkpoints a (accepted w))
    else cap_pending w

-- flush
unfoldable pub flush : Answers → Watcher → Watcher
unfolding flush_pending
flush a w = flush_pending a w w.pending

unfoldable pub enqueue_row : Answers → Watcher → Harvested → Watcher
unfolding flush
enqueue_row a w row =
    let w1 : Watcher = record w { pending = w.pending ++ row ∷ [] } in
    if leb 500 (length w1.pending) then flush a w1 else w1

unfoldable pub count_unparsed : Reader → Watcher → List ℕ → Watcher
count_unparsed r w line = if r.is_json line then w else record w { unparsed = suc w.unparsed }

-- `!seen || row.OutputTokens > prev`
unfoldable pub is_grown : TokenUsageRow → Option ℤ → Bool
is_grown row none = true
is_grown row (some prev) = ltb_ℤ prev row.output_tokens

unfoldable pub attributed : Reader → Option ClaudeLine → TokenUsageRow → TokenUsageRow
attributed r l row = record row { app_id = r.resolve (claude_cwd l) }

unfoldable pub consume_parsed : Reader → Answers → Watcher → List ℕ → Option TokenUsageRow → Watcher
unfolding enqueue_row count_unparsed is_grown attributed
consume_parsed r a w line none = count_unparsed r w line
consume_parsed r a w line (some row) =
    if is_grown row (Dict.get w.last_output row.dedup_key)
    then enqueue_row a
        (record w { last_output = Dict.put w.last_output row.dedup_key row.output_tokens })
        (claude_row (attributed r (r.decode_claude line) row))
    else w

unfoldable pub consume_claude : Reader → Answers → Watcher → List ℕ → Watcher
unfolding consume_parsed
consume_claude r a w line = consume_parsed r a w line (parse_claude_line (r.decode_claude line))

abbrev pub new_codex : CodexState
new_codex = record {
  session_id = "";
  cwd = "";
  model = "";
  last = record { input_tokens = pos 0; cached_input_tokens = pos 0; output_tokens = pos 0 };
  events = 0;
}

-- `if cp.Codex == nil { cp.Codex = &codexState{} }`
unfoldable pub codex_or_new : Option CodexState → CodexState
codex_or_new none = new_codex
codex_or_new (some st) = st

-- The checkpoint that the map holds for the file; consumeLine's `cp` points to it.
unfoldable pub checkpoint_of : Watcher → String → Checkpoint
checkpoint_of w path = elim (Dict.get w.checkpoints path) [
  | none ↦ record { offset = 0; codex = none }
  | some cp ↦ cp
]

unfoldable pub set_codex : Watcher → String → CodexState → Watcher
unfolding checkpoint_of
set_codex w path st = record w {
  checkpoints = Dict.put w.checkpoints path (record (checkpoint_of w path) { codex = some st });
}

unfoldable pub codex_parsed :
    Reader → Answers → Watcher → String → List ℕ → CodexState × Option CodexRow → Watcher
unfolding set_codex enqueue_row count_unparsed
codex_parsed r a w path line (st, none) = count_unparsed r (set_codex w path st) line
codex_parsed r a w path line (st, some row) =
    enqueue_row a (set_codex w path st) (codex_row (r.resolve st.cwd) row)

unfoldable pub consume_codex : Reader → Answers → Watcher → String → List ℕ → Watcher
unfolding codex_parsed codex_or_new checkpoint_of
consume_codex r a w path line =
    codex_parsed r a w path line
      (parse_codex_line (r.decode_codex line) (codex_or_new (checkpoint_of w path).codex))

-- consumeLine
unfoldable pub consume_line : Reader → Answers → Watcher → String → Tool → List ℕ → Watcher
unfolding consume_claude consume_codex
consume_line r a w path tool [] = w
consume_line r a w path Tool.claude (c ∷ line) = consume_claude r a w (c ∷ line)
consume_line r a w path Tool.codex (c ∷ line) = consume_codex r a w path (c ∷ line)

-- readLine, of the bytes before a newline; an over-long line comes back empty
unfoldable pub read_line : List ℕ → List ℕ
read_line l = if ltb max_line_bytes (length l + 1) then [] else l ++ 10 ∷ []

unfoldable pub keep_unless_ending : ℕ → List ℕ → List ℕ
keep_unless_ending c [] = if c == 10 || c == 13 then [] else c ∷ []
keep_unless_ending c (d ∷ rest) = c ∷ d ∷ rest

-- trimNL
unfoldable pub trim_nl : List ℕ → List ℕ
unfolding keep_unless_ending
trim_nl [] = []
trim_nl (c ∷ line) = keep_unless_ending c (trim_nl line)

unfoldable pub set_offset : Watcher → String → ℕ → Watcher
unfolding checkpoint_of
set_offset w path n = record w {
  checkpoints = Dict.put w.checkpoints path (record (checkpoint_of w path) { offset = n });
}

-- The loop of tailFile over the complete lines that it finds, and `cp.Offset = offset`.
unfoldable pub tail_lines : Reader → Answers → Watcher → String → Tool → ℕ → List (List ℕ) → Watcher
unfolding consume_line read_line trim_nl set_offset
tail_lines r a w path tool offset [] = set_offset w path offset
tail_lines r a w path tool offset (l ∷ lines) =
    let line = read_line l in
    tail_lines r a (consume_line r a w path tool (trim_nl line)) path tool (offset + length line)
      lines

unfoldable pub initial_codex : Tool → Option CodexState
initial_codex Tool.claude = none
initial_codex Tool.codex = some new_codex

-- `if cp == nil { … }`, with the size of the file
unfoldable pub with_checkpoint : Watcher → String → Tool → ℕ → Option Checkpoint → Watcher
unfolding initial_codex
with_checkpoint w path tool size none = record w {
  checkpoints = Dict.put w.checkpoints path (record {
    offset = if ltb max_backfill_size size then size else 0;
    codex = initial_codex tool;
  });
}
with_checkpoint w path tool size (some cp) = w

unfoldable pub reset_codex : Option CodexState → Option CodexState
reset_codex none = none
reset_codex (some st) = some new_codex

-- `if st.Size() < cp.Offset { … }`
unfoldable pub rewound : Watcher → String → ℕ → Watcher
unfolding reset_codex checkpoint_of
rewound w path size =
    if ltb size (checkpoint_of w path).offset
    then record w {
      checkpoints =
          Dict.put w.checkpoints path
            (record { offset = 0; codex = reset_codex (checkpoint_of w path).codex });
    }
    else w

unfoldable pub tail_opened : Reader → Answers → Watcher → String → Tool → Option (List ℕ) → Watcher
unfolding tail_lines split_lines checkpoint_of
tail_opened r a w path tool none = w
tail_opened r a w path tool (some bytes) =
    let offset = (checkpoint_of w path).offset in
    tail_lines r a w path tool offset (split_lines (drop offset bytes)).0

-- A file as tailFile finds it: the size by Stat, and its bytes if it can be opened.
pub record FileView : Type 0 where
  pub size : ℕ
  pub bytes : Option (List ℕ)

unfoldable pub tail_view : Reader → Answers → Watcher → String → Tool → FileView → Watcher
unfolding with_checkpoint rewound tail_opened
tail_view r a w path tool f =
    let w1 = with_checkpoint w path tool f.size (Dict.get w.checkpoints path) in
    let w2 = rewound w1 path f.size in
    if f.size == (checkpoint_of w2 path).offset then w2 else tail_opened r a w2 path tool f.bytes

-- tailFile; none is a file that Stat does not find
unfoldable pub tail_file : Reader → Answers → Watcher → String → Tool → Option FileView → Watcher
unfolding tail_view
tail_file r a w path tool none = w
tail_file r a w path tool (some f) = tail_view r a w path tool f
