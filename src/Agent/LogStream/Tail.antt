-- ===== src/Agent/LogStream/Tail.antt =====
-- followFile of agent/internal/daemon/logstream.go. A file is the list of its bytes, a chunk the list
-- of the lines that one call of emit gets.
pub mod Cut
pub mod Follows
pub mod Lines
use breakerbox.Prelude.{
  ℕ, zero, suc, ◌+◌, ◌-◌, Bool, true, false, not, ◌||◌, List, [], ◌∷◌, ◌++◌, Option, none, some,
  ◌==◌, ltb, if◌then◌else◌, length, take, drop,
}
use breakerbox.Prelude.Int.{ℤ, pos, pos_part, ltb_ℤ}
use breakerbox.Agent.TokenProxy.Sse.{split_lines}

abbrev pub max_chunk_lines : ℕ
max_chunk_lines = 200

pub record LogTail : Type 0 where
  pub offset : ℕ
  pub partial : List ℕ
  pub chunks : List (List (List ℕ))  -- emitted so far

-- `if tailN <= 0 { tailN = 200 }`
unfoldable pub tail_limit : ℤ → ℕ
tail_limit n = if ltb_ℤ (pos 0) n then pos_part n else 200

-- strings.TrimSuffix(s, "\n")
unfoldable pub trim_newline : List ℕ → List ℕ
trim_newline [] = []
trim_newline (c ∷ []) = if c == 10 then [] else c ∷ []
trim_newline (c ∷ d ∷ s) = c ∷ trim_newline (d ∷ s)

-- strings.Split(s, "\n")
unfoldable pub all_parts : List ℕ → List (List ℕ)
unfolding split_lines
all_parts s = (split_lines s).0 ++ (split_lines s).1 ∷ []

unfoldable pub last_lines : ℕ → List (List ℕ) → List (List ℕ)
last_lines n lines = if ltb n (length lines) then drop (length lines - n) lines else lines

-- `len(lines) > 0 && lines[0] != "" || len(lines) > 1`
unfoldable pub has_text : List (List ℕ) → Bool
has_text [] = false
has_text ([] ∷ []) = false
has_text ((c ∷ l) ∷ []) = true
has_text (l ∷ m ∷ lines) = true

-- What followFile emits before its loop; none is a file that cannot be read.
unfoldable pub first_tail : ℤ → Option (List ℕ) → LogTail
unfolding tail_limit trim_newline all_parts last_lines has_text
first_tail n none = record { offset = 0; partial = []; chunks = [] }
first_tail n (some b) =
    let lines = last_lines (tail_limit n) (all_parts (trim_newline b)) in
    record { offset = length b; partial = []; chunks = if has_text lines then lines ∷ [] else [] }

unfoldable pub first_chunk : List (List ℕ) → List (List ℕ)
first_chunk lines = if ltb max_chunk_lines (length lines) then take max_chunk_lines lines else lines

-- `for len(lines) > 0 { … }`, on fuel
unfoldable pub cut_lines : ℕ → List (List ℕ) → List (List (List ℕ))
unfolding first_chunk
cut_lines zero lines = []
cut_lines (suc fuel) [] = []
cut_lines (suc fuel) (l ∷ lines) =
    let chunk = first_chunk (l ∷ lines) in chunk ∷ cut_lines fuel (drop (length chunk) (l ∷ lines))

-- `offset += int64(n)` and what follows, for the bytes that Read gave
unfoldable pub read_more : LogTail → List ℕ → LogTail
unfolding cut_lines split_lines
read_more t got =
    let parts = split_lines (t.partial ++ got) in
    record {
      offset = t.offset + length got;
      partial = parts.1;
      chunks = t.chunks ++ cut_lines (length parts.0) parts.0;
    }

-- A file as one tick finds it: the size by Stat, its bytes unless Seek fails, and the number of bytes
-- that Read gives at most.
pub record LogView : Type 0 where
  pub size : ℕ
  pub bytes : Option (List ℕ)
  pub read : ℕ

-- `if st.Size() < offset { … }`
unfoldable pub tail_restarted : LogTail → ℕ → LogTail
tail_restarted t size = if ltb size t.offset then record t { offset = 0; partial = [] } else t

unfoldable pub read_view : LogTail → LogView → Option (List ℕ) → LogTail
unfolding read_more
read_view t v none = t
read_view t v (some bytes) =
    read_more t (take v.read (take (v.size - t.offset) (drop t.offset bytes)))

unfoldable pub tick_view : LogTail → LogView → LogTail
unfolding read_view
tick_view t v = if v.size == t.offset then t else read_view t v v.bytes

-- One tick of the loop; none is a file that Open or Stat fails on.
unfoldable pub tick_tail : LogTail → Option LogView → LogTail
unfolding tick_view tail_restarted
tick_tail t none = t
tick_tail t (some v) = tick_view (tail_restarted t v.size) v

abbrev max_log_file_size : ℕ
max_log_file_size = 5_242_880

-- The log file of an app and its one earlier generation.
pub record LogFiles : Type 0 where
  pub current : Option (List ℕ)
  pub generation : Option (List ℕ)

unfoldable pub rotated_file : Bool → LogFiles → Option (List ℕ) → LogFiles
rotated_file renames f none = f
rotated_file renames f (some log) =
    if ltb (length log) max_log_file_size || not renames
    then f
    else record { current = none; generation = some log }

-- rotateLogIfNeeded; `renames` tells if Rename succeeds
unfoldable pub rotate_log_if_needed : Bool → LogFiles → LogFiles
unfolding rotated_file
rotate_log_if_needed renames f = rotated_file renames f f.current
