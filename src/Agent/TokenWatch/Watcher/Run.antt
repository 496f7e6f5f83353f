-- ===== src/Agent/TokenWatch/Watcher/Run.antt =====
-- agent/internal/tokenwatch/watcher.go: the search for transcripts, the scan, and the loop of Run.
use breakerbox.Prelude.{
  ℕ, zero, suc, String, Bool, ◌&&◌, ◌||◌, ◌-◌, ◌*◌, str_eq, List, [], ◌∷◌, ◌++◌, Option, ltb,
  if◌then◌else◌,
}
use Prim.Native.String.{◌++◌ as str_append}
use breakerbox.Agent.TokenWatch.Watcher.{
  Answers, FileView, Reader, Tool, Watcher, flush, save_checkpoints, tail_file,
}

-- A directory that cannot be read has no entries, and a file whose Info fails is left out. Times are
-- nanoseconds.
mutual
  pub data Entry : Type 0 where
    file : String → ℕ → Entry
    dir : String → Entries → Entry

  pub data Entries : Type 0 where
    nil : Entries
    cons : Entry → Entries → Entries

-- filepath.Join of a clean directory and a name
unfoldable pub join : String → String → String
join d name = str_append (str_append d "/") name

-- walk, with the paths and times that it hands to fn
unfoldable mutual
  unfolding join

  pub walk : String → ℕ → Entries → List (String × ℕ)
  walk d depth nil = []
  walk d depth (cons e es) = walk_entry d depth e ++ walk d depth es

  pub walk_entry : String → ℕ → Entry → List (String × ℕ)
  walk_entry d depth (file name time) = (join d name, time) ∷ []
  walk_entry d zero (dir name es) = []
  walk_entry d (suc depth) (dir name es) = walk (join d name) depth es

-- strings.HasSuffix
unfoldable pub ends_with : String → String → Bool
ends_with String.[] suffix = str_eq String.[] suffix
ends_with (String.◌∷◌ c s) suffix = str_eq (String.◌∷◌ c s) suffix || ends_with s suffix

unfoldable pub select : ℕ → List (String × ℕ) → List String
unfolding ends_with
select cutoff [] = []
select cutoff ((path, time) ∷ found) =
    let rest = select cutoff found in
    if ends_with path ".jsonl" && ltb cutoff time then path ∷ rest else rest

-- `30 * 24 * time.Hour`
abbrev pub backfill_window : ℕ
backfill_window = 30 * 24 * 3_600_000_000_000

-- The disk at a scan. A root is "" if there is no home directory.
pub record Disk : Type 0 where
  pub now : ℕ
  pub claude_root : String
  pub codex_root : String
  pub entries : String → Entries
  pub stat : String → Option FileView

unfoldable pub find_jsonl : Disk → String → ℕ → List String
unfolding walk select
find_jsonl disk root depth =
    if str_eq root ""
    then []
    else select (disk.now - backfill_window) (walk root depth (disk.entries root))

unfoldable pub tail_files : Reader → Answers → Disk → Tool → Watcher → List String → Watcher
unfolding tail_file
tail_files r a disk tool w [] = w
tail_files r a disk tool w (path ∷ paths) =
    tail_files r a disk tool (tail_file r a w path tool (disk.stat path)) paths

unfoldable pub scan : Reader → Answers → Disk → Watcher → Watcher
unfolding tail_files find_jsonl
scan r a disk w =
    tail_files r a disk Tool.codex
      (tail_files r a disk Tool.claude w (find_jsonl disk disk.claude_root 2))
      (find_jsonl disk disk.codex_root 4)

-- What Run waits for. The end of its context saves the checkpoints, with rows pending or not.
pub data Wake : Type 0 where
  scan_tick : Answers → Disk → Wake
  flush_tick : Answers → Wake
  done : Answers → Wake

unfoldable pub run_loop : Reader → Watcher → List Wake → Watcher
unfolding scan flush save_checkpoints
run_loop r w [] = w
run_loop r w (scan_tick a disk ∷ wakes) = run_loop r (scan r a disk w) wakes
run_loop r w (flush_tick a ∷ wakes) = run_loop r (flush a w) wakes
run_loop r w (done a ∷ wakes) = save_checkpoints a w

-- New, after a watcher that has ended: loadCheckpoints reads its file.
unfoldable pub restart : Watcher → Watcher
restart w = record {
  checkpoints = w.saved;
  pending = [];
  last_output = [];
  unparsed = 0;
  delivered = w.delivered;
  saved = w.saved;
}

unfoldable pub run_watcher : Reader → Answers → Disk → Watcher → List Wake → Watcher
unfolding run_loop scan flush restart
run_watcher r a disk w wakes = run_loop r (flush a (scan r a disk (restart w))) wakes
