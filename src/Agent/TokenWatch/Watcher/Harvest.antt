-- ===== src/Agent/TokenWatch/Watcher/Harvest.antt =====
-- The rows of one Claude Code transcript, however often it is read while it grows and however often a
-- flush fails.
use breakerbox.Prelude.{
  ℕ, ◌+◌, ◌≤◌, String, List, [], ◌∷◌, ◌++◌, ◌≡◌, refl, sym, ap, ◌∙◌, arith, length, length-append,
  All, subst,
}
use mathlib.Core.List.{append_assoc, append-nil}
use breakerbox.Prelude.Dict
use breakerbox.Prelude.Dict.{Dict, get-put_self}
use breakerbox.Agent.TokenProxy.Sse.{split_lines}
use breakerbox.Agent.TokenProxy.Chunks.{split_lines-append}
use breakerbox.Agent.TokenWatch.Watcher.{
  Tool, Watcher, Reader, Answers, flush, is_grown, max_backfill_size, tail_file, checkpoint_of,
}
use breakerbox.Agent.TokenWatch.Watcher.Rows.{rows_of, earlier_after, rows_of-append, is_largest}
use breakerbox.Agent.TokenWatch.Watcher.Lines.{Kept-Holds, flush-Kept}
use breakerbox.Agent.TokenWatch.Watcher.Tail.{FitsLine, line_bytes}
use breakerbox.Agent.TokenWatch.Watcher.Scan.{
  HasRead, file_of, offset_at, tail_file-HasRead, All-append_left,
}

-- What happens to a transcript and its watcher: the tool appends bytes and the watcher scans, or the
-- flush timer fires.
pub data Tick : Type 0 where
  appended : List ℕ → Answers → Tick
  flushes : Answers → Tick

unfoldable pub watch : Reader → String → List ℕ → Watcher → List Tick → Watcher
watch r path content w [] = w
watch r path content w (appended bytes a ∷ ticks) =
    watch r path (content ++ bytes) (tail_file r a w path Tool.claude (file_of (content ++ bytes)))
      ticks
watch r path content w (flushes a ∷ ticks) = watch r path content (flush a w) ticks

unfoldable pub written : List Tick → List ℕ
written [] = []
written (appended bytes a ∷ ticks) = bytes ++ written ticks
written (flushes a ∷ ticks) = written ticks

-- A transcript within the limits: its lines are not skipped, it is not tailed from its end, and its
-- rows fit the backlog.
pub record IsModest (r : Reader) (content : List ℕ) : Type 0 where
  pub fit : All FitsLine (split_lines content).0
  pub few : length (rows_of r [] (split_lines content).0) ≤ 10_000
  pub small : length content ≤ max_backfill_size

abbrev pub new_watcher : Watcher
new_watcher = record {
  checkpoints = [];
  pending = [];
  last_output = [];
  unparsed = 0;
  delivered = [];
  saved = [];
}

-- What is modest was modest before it grew.
pub IsModest-prefix : (r : Reader) (c more : List ℕ) → IsModest r (c ++ more) → IsModest r c
IsModest-prefix r c more m =
    let old = (split_lines c).0 in
    let new = (split_lines ((split_lines c).1 ++ more)).0 in
    let lines : (split_lines (c ++ more)).0 ≡ old ++ new =
      ap (λ (p : List (List ℕ) × List ℕ). p.0) (split_lines-append c more) in
    record {
      fit = All-append_left old new (subst (All FitsLine) lines m.fit);
      few = omega (
        arith,
        m.few,
        ap length (ap (rows_of r []) lines ∙ rows_of-append r [] old new),
        length-append (rows_of r [] old) (rows_of r (earlier_after r [] old) new),
      );
      small = omega (arith, m.small, length-append c more);
    }

pub flush-HasRead :
    (r : Reader) (a : Answers) (path : String) (content : List ℕ) (w : Watcher)
    → IsModest r content
    → HasRead r path content w
    → HasRead r path content (flush a w)
unfolding checkpoint_of
flush-HasRead r a path content w m h =
    let held : length w.delivered + length w.pending
        ≡ length (rows_of r [] (split_lines content).0) =
      sym (length-append w.delivered w.pending) ∙ ap length h.held.rows in
    let k = flush-Kept a w (omega (arith, held, m.few)) (omega (arith, h.held.few, m.few)) in
    record {
      held = Kept-Holds h.held k;
      at = ap (λ cps. offset_at (Dict.get cps path)) k.checkpoints ∙ h.at;
    }

watch-HasRead :
    (r : Reader) (path : String) (ticks : List Tick) (content : List ℕ) (w : Watcher)
    → IsModest r (content ++ written ticks)
    → HasRead r path content w
    → HasRead r path (content ++ written ticks) (watch r path content w ticks)
unfolding watch written
watch-HasRead r path [] content w m h = rw (append-nil content) h
watch-HasRead r path (appended bytes a ∷ ticks) content w m h =
    let e = append_assoc content bytes (written ticks) in
    let m1 = subst (IsModest r) (sym e) m in
    let now = IsModest-prefix r (content ++ bytes) (written ticks) m1 in
    let w1 = tail_file r a w path Tool.claude (file_of (content ++ bytes)) in
    subst (λ c. HasRead r path c (watch r path (content ++ bytes) w1 ticks)) e
      (watch-HasRead r path ticks (content ++ bytes) w1 m1
        (tail_file-HasRead r a path content bytes w now.fit now.few now.small h))
watch-HasRead r path (flushes a ∷ ticks) content w m h =
    watch-HasRead r path ticks content (flush a w) m
      (flush-HasRead r a path content w (IsModest-prefix r content (written ticks) m) h)

pub new_watcher-HasRead : (r : Reader) (path : String) → HasRead r path [] new_watcher
unfolding checkpoint_of rows_of earlier_after split_lines line_bytes is_largest is_grown Dict.get
new_watcher-HasRead r path = record {
  held = record { rows = refl; outputs = λ row. refl; few = omega arith };
  at = refl;
}

pub watch-HasRead_new :
    (r : Reader) (path : String) (ticks : List Tick)
    → IsModest r (written ticks)
    → HasRead r path (written ticks) (watch r path [] new_watcher ticks)
watch-HasRead_new r path ticks m =
    watch-HasRead r path ticks [] new_watcher m (new_watcher-HasRead r path)

-- However a Claude Code transcript grows and is read meanwhile, and whichever flushes succeed, what is
-- delivered and pending is, in order, the rows of its complete lines whose output is larger than at
-- each earlier line of their message, each of them once; if it is within 50 MiB, its lines within
-- 4 MiB and its rows within 10,000.
pub watch-rows :
    (r : Reader) (path : String) (ticks : List Tick)
    → IsModest r (written ticks)
    → (watch r path [] new_watcher ticks).delivered ++ (watch r path [] new_watcher ticks).pending
      ≡ rows_of r [] (split_lines (written ticks)).0
watch-rows r path ticks m = (watch-HasRead_new r path ticks m).held.rows
