-- ===== src/Agent/TokenWatch/Watcher/Crash.antt =====
-- What the saved checkpoints stand for: a crash of the agent loses no row that was not delivered.
use breakerbox.Prelude.{
  ℕ, ◌+◌, ◌≤◌, ◌⊎◌, String, List, [], ◌∷◌, ◌++◌, Option, none, some, ◌≡◌, refl, sym, ap, ◌∙◌, arith,
  length, subst, inl, inr, All, length-append,
}
use mathlib.Core.List.{append-nil, append_assoc}
use breakerbox.Prelude.Dict
use breakerbox.Protocol.{TokenUsageRow}
use breakerbox.Agent.TokenProxy.Sse.{split_lines}
use breakerbox.Agent.TokenWatch.Watcher.{
  Answers, Reader, Tool, Watcher, Harvested, Checkpoint, checkpoint_of, flush, consume_line,
  tail_lines, tail_file, with_checkpoint, set_offset, read_line, trim_nl,
}
use breakerbox.Agent.TokenWatch.Watcher.Rows.{row_at, new_row, earlier_with, rows_of, earlier_after}
use breakerbox.Agent.TokenWatch.Watcher.Lines.{Holds, line-Holds}
use breakerbox.Agent.TokenWatch.Watcher.Tail.{FitsLine, line_bytes, trim_nl-read_line}
use breakerbox.Agent.TokenWatch.Watcher.Scan.{
  HasRead, offset_at, file_of, opened-HasRead, tail_file_rule, tail_file-HasRead, old_lines,
  new_lines, lines-append, new_lines-fit, new_lines-few,
}
use breakerbox.Agent.TokenWatch.Watcher.Harvest.{
  Tick, appended, flushes, IsModest, IsModest-prefix, flush-HasRead, new_watcher,
  new_watcher-HasRead, watch, written,
}
use breakerbox.Agent.TokenWatch.Watcher.Advances.{
  IsPrefix, IsPrefix-trans, IsPrefix-eq, Advances, line-Advances, flush_pending-Advances,
}

-- What is saved is as before, or what the checkpoints were, with the rows of all that delivered.
record Saves (w v : Watcher) : Type 0 where
  delivered : IsPrefix w.delivered v.delivered
  saved :
      (v.saved ≡ w.saved)
      ⊎ ((v.saved ≡ w.checkpoints) × IsPrefix (w.delivered ++ w.pending) v.delivered)

Advances-Saves : {w v : Watcher} → Advances w v → Saves w v
Advances-Saves p = record { delivered = p.delivered; saved = p.saved }

Advances-Saves-trans : {u v w : Watcher} → Advances u v → Saves v w → Saves u w
Advances-Saves-trans p q = record {
  delivered = IsPrefix-trans p.delivered q.delivered;
  saved = elim q.saved [
    | inl same ↦ elim p.saved [
      | inl old ↦ inl (same ∙ old)
      | inr (new, all) ↦ inr (same ∙ new, IsPrefix-trans all q.delivered)
    ]
    | inr (new, all) ↦ inr (new ∙ p.checkpoints, IsPrefix-trans p.rows all)
  ];
}

tail_lines-Saves :
    (r : Reader) (a : Answers) (path : String) (lines : List (List ℕ)) (w : Watcher) (n : ℕ)
    (acc : List Harvested) (earlier : List TokenUsageRow)
    → All FitsLine lines
    → length (acc ++ rows_of r earlier lines) ≤ 10_000
    → Holds acc earlier w
    → Saves w (tail_lines r a w path Tool.claude n lines)
unfolding tail_lines rows_of set_offset
tail_lines-Saves r a path [] w n acc earlier fit few h = record {
  delivered = IsPrefix-eq refl;
  saved = inl refl;
}
tail_lines-Saves r a path (l ∷ lines) w n acc earlier fit few h =
    let line = trim_nl l in
    let row = row_at r line in
    let new = new_row r earlier line row in
    let more = rows_of r (earlier_with earlier row) lines in
    let whole : (acc ++ new) ++ more ≡ acc ++ (new ++ more) = append_assoc acc new more in
    let bound : length (acc ++ new) ≤ 10_000 =
      omega (arith, ap length whole, length-append (acc ++ new) more, few) in
    rw (trim_nl-read_line l fit.0) (
      Advances-Saves-trans (line-Advances r a path w acc earlier line bound h) (
        tail_lines-Saves r a path lines (consume_line r a w path Tool.claude line)
          (n + length (read_line l)) (acc ++ new) (earlier_with earlier row) fit.1
          (omega (arith, ap length whole, few)) (line-Holds r a path w acc earlier line bound h)))

-- The checkpoint that is saved for the file stands behind some of its complete lines, and all rows of
-- these are delivered.
record IsBehind (r : Reader) (path : String) (content : List ℕ) (w : Watcher) : Type 0 where
  pub lines : List (List ℕ)
  pub more : List (List ℕ)
  pub whole : (split_lines content).0 ≡ lines ++ more
  pub at : offset_at (Dict.get w.saved path) ≡ line_bytes lines
  pub covered : IsPrefix (rows_of r [] lines) w.delivered

Saves-IsBehind :
    (r : Reader) (path : String) (content grown : List ℕ) (new : List (List ℕ)) (w v : Watcher)
    → (split_lines grown).0 ≡ (split_lines content).0 ++ new
    → HasRead r path content w
    → IsBehind r path content w
    → Saves w v
    → IsBehind r path grown v
unfolding checkpoint_of
Saves-IsBehind r path content grown new w v e h b s = elim s.saved [
  | inl same ↦ record {
    lines = b.lines;
    more = b.more ++ new;
    whole = e ∙ ap (λ l. l ++ new) b.whole ∙ append_assoc b.lines b.more new;
    at = ap (λ cps. offset_at (Dict.get cps path)) same ∙ b.at;
    covered = IsPrefix-trans b.covered s.delivered;
  }
  | inr (saved, all) ↦ record {
    lines = (split_lines content).0;
    more = new;
    whole = e;
    at = ap (λ cps. offset_at (Dict.get cps path)) saved ∙ h.at;
    covered = IsPrefix-trans (IsPrefix-eq h.held.rows) all;
  }
]

opened-IsBehind :
    (r : Reader) (path : String) (content : List ℕ) (w : Watcher) (size : ℕ) (o : Option Checkpoint)
    → IsBehind r path content w
    → IsBehind r path content (with_checkpoint w path Tool.claude size o)
unfolding with_checkpoint
opened-IsBehind r path content w size none b = record {
  lines = b.lines;
  more = b.more;
  whole = b.whole;
  at = b.at;
  covered = b.covered;
}
opened-IsBehind r path content w size (some cp) b = b

tail_file-IsBehind :
    (r : Reader) (a : Answers) (path : String) (content bytes : List ℕ) (w : Watcher)
    → IsModest r (content ++ bytes)
    → HasRead r path content w
    → IsBehind r path content w
    → IsBehind r path
        (content ++ bytes)
        (tail_file r a w path Tool.claude (file_of (content ++ bytes)))
tail_file-IsBehind r a path content bytes w m h b =
    let size = length (content ++ bytes) in
    let w1 = with_checkpoint w path Tool.claude size (Dict.get w.checkpoints path) in
    let h1 = opened-HasRead r path content w size m.small h in
    let b1 = opened-IsBehind r path content w size (Dict.get w.checkpoints path) b in
    let old = old_lines content in
    let new = new_lines content bytes in
    let e = lines-append content bytes in
    tail_file_rule (IsBehind r path (content ++ bytes)) r a path content bytes w m.small h
      (λ _.
        Saves-IsBehind r path content (content ++ bytes) new w1 w1 e h1 b1
          (record { delivered = IsPrefix-eq refl; saved = inl refl }))
      (Saves-IsBehind r path content (content ++ bytes) new w1
        (tail_lines r a w1 path Tool.claude (line_bytes old) new) e h1 b1
        (tail_lines-Saves r a path new w1 (line_bytes old) (rows_of r [] old)
          (earlier_after r [] old) (new_lines-fit content bytes m.fit)
          (new_lines-few r content bytes m.few) h1.held))

flush-IsBehind :
    (r : Reader) (a : Answers) (path : String) (content : List ℕ) (w : Watcher)
    → IsModest r content
    → HasRead r path content w
    → IsBehind r path content w
    → IsBehind r path content (flush a w)
unfolding flush
flush-IsBehind r a path content w m h b =
    let held : length w.delivered + length w.pending
        ≡ length (rows_of r [] (split_lines content).0) =
      sym (length-append w.delivered w.pending) ∙ ap length h.held.rows in
    Saves-IsBehind r path content content [] w (flush a w)
      (sym (append-nil (split_lines content).0)) h b
      (Advances-Saves (flush_pending-Advances a w w.pending refl (omega (arith, held, m.few))))

watch-IsBehind :
    (r : Reader) (path : String) (ticks : List Tick) (content : List ℕ) (w : Watcher)
    → IsModest r (content ++ written ticks)
    → HasRead r path content w
    → IsBehind r path content w
    → IsBehind r path (content ++ written ticks) (watch r path content w ticks)
unfolding watch written
watch-IsBehind r path [] content w m h b = rw (append-nil content) b
watch-IsBehind r path (appended bytes a ∷ ticks) content w m h b =
    let e = append_assoc content bytes (written ticks) in
    let m1 = subst (IsModest r) (sym e) m in
    let now = IsModest-prefix r (content ++ bytes) (written ticks) m1 in
    let w1 = tail_file r a w path Tool.claude (file_of (content ++ bytes)) in
    subst (λ c. IsBehind r path c (watch r path (content ++ bytes) w1 ticks)) e
      (watch-IsBehind r path ticks (content ++ bytes) w1 m1
        (tail_file-HasRead r a path content bytes w now.fit now.few now.small h)
        (tail_file-IsBehind r a path content bytes w now h b))
watch-IsBehind r path (flushes a ∷ ticks) content w m h b =
    let now = IsModest-prefix r content (written ticks) m in
    watch-IsBehind r path ticks content (flush a w) m (flush-HasRead r a path content w now h)
      (flush-IsBehind r a path content w now h b)

new_watcher-IsBehind : (r : Reader) (path : String) → IsBehind r path [] new_watcher
unfolding split_lines line_bytes rows_of Dict.get
new_watcher-IsBehind r path = record {
  lines = [];
  more = [];
  whole = refl;
  at = refl;
  covered = record { rest = []; whole = refl };
}

-- Until the watcher is stopped, and whichever flushes and writes succeed, the checkpoint on the disk
-- stands behind some of the complete lines of a modest transcript, and the rows of these lines, in
-- order, are the first that were delivered: a restart after a crash reads all others again.
pub watch-saved :
    (r : Reader) (path : String) (ticks : List Tick)
    → IsModest r (written ticks)
    → let w = watch r path [] new_watcher ticks in
      (lines : List (List ℕ)) × (more : List (List ℕ)) × (rest : List Harvested) × ((split_lines
          (written ticks)).0
        ≡ lines ++ more)
      × (offset_at (Dict.get w.saved path) ≡ line_bytes lines)
      × (w.delivered ≡ rows_of r [] lines ++ rest)
watch-saved r path ticks m =
    let b =
      watch-IsBehind r path ticks [] new_watcher m (new_watcher-HasRead r path)
        (new_watcher-IsBehind r path) in
    (b.lines, b.more, b.covered.rest, b.whole, b.at, b.covered.whole)
