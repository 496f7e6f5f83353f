-- ===== src/Agent/TokenWatch/Watcher/Scan.antt =====
-- One scan of a Claude Code transcript that has grown since the last one.
use breakerbox.Prelude.{
  ℕ, ◌≤◌, String, false, List, [], ◌∷◌, ◌++◌, Option, none, some, ◌≡◌, refl, sym, ap, ◌∙◌, arith,
  ltb, if◌then◌else◌, length, drop, length-append, length-drop, All, subst, if_rule, ◌==◌, ==_iff,
}
use mathlib.Core.List.{append-nil}
use breakerbox.Prelude.Dict
use breakerbox.Prelude.Dict.{Dict, get-put_self}
use breakerbox.Protocol.{TokenUsageRow}
use breakerbox.Agent.TokenProxy.Sse.{split_lines}
use breakerbox.Agent.TokenProxy.Chunks.{split_lines-append}
use breakerbox.Agent.TokenWatch.Watcher.{
  Tool, Harvested, Checkpoint, Watcher, Reader, Answers, FileView, max_backfill_size,
  with_checkpoint, rewound, tail_lines, tail_opened, tail_view, tail_file, checkpoint_of,
}
use breakerbox.Agent.TokenWatch.Watcher.Rows.{
  rows_of, earlier_after, earlier_after-append, rows_of-append,
}
use breakerbox.Agent.TokenWatch.Watcher.Lines.{Holds}
use breakerbox.Agent.TokenWatch.Watcher.Tail.{
  FitsLine, line_bytes, drop_complete, line_bytes-append, line_bytes-split, tail_lines-Holds,
}

-- The file with these bytes.
abbrev pub file_of : List ℕ → Option FileView
file_of content = some (record { size = length content; bytes = some content })

-- The watcher has read this much of the file.
pub record HasRead (r : Reader) (path : String) (content : List ℕ) (w : Watcher) : Type 0 where
  pub held :
      Holds (rows_of r [] (split_lines content).0) (earlier_after r [] (split_lines content).0) w
  pub at : (checkpoint_of w path).offset ≡ line_bytes (split_lines content).0

abbrev pub offset_at : Option Checkpoint → ℕ
offset_at o =
    (elim o as (λ _. Checkpoint) [
      | none ↦ record { offset = 0; codex = none }
      | some cp ↦ cp
    ]).offset

-- A small file is read from its beginning.
pub opened-offset :
    (w : Watcher) (path : String) (size : ℕ) (o : Option Checkpoint)
    → size ≤ max_backfill_size
    → Dict.get w.checkpoints path ≡ o
    → (checkpoint_of (with_checkpoint w path Tool.claude size o) path).offset
      ≡ (checkpoint_of w path).offset
unfolding with_checkpoint checkpoint_of
opened-offset w path size none small e =
    let whole : ltb max_backfill_size size ≡ false = ground arith in
    ap offset_at (
      get-put_self w.checkpoints path
        (record { offset = if ltb max_backfill_size size then size else 0; codex = none }))
    ∙ rw whole (sym (ap offset_at e))
opened-offset w path size (some cp) small e = refl

opened-Holds :
    (w : Watcher) (path : String) (size : ℕ) (o : Option Checkpoint) {acc : List Harvested}
    {earlier : List TokenUsageRow}
    → Holds acc earlier w
    → Holds acc earlier (with_checkpoint w path Tool.claude size o)
unfolding with_checkpoint
opened-Holds w path size none h = record { rows = h.rows; outputs = h.outputs; few = h.few }
opened-Holds w path size (some cp) h = h

pub opened-HasRead :
    (r : Reader) (path : String) (content : List ℕ) (w : Watcher) (size : ℕ)
    → size ≤ max_backfill_size
    → HasRead r path content w
    → HasRead r path content (with_checkpoint w path Tool.claude size (Dict.get w.checkpoints path))
opened-HasRead r path content w size small h =
    let o = Dict.get w.checkpoints path in
    record {
      held = opened-Holds w path size o h.held;
      at = opened-offset w path size o small refl ∙ h.at;
    }

length-eq-zero : (xs : List ℕ) → length xs ≡ 0 → xs ≡ []
length-eq-zero [] e = refl
length-eq-zero (x ∷ xs) e = absurd (omega arith)

pub All-append_left : (xs ys : List (List ℕ)) → All FitsLine (xs ++ ys) → All FitsLine xs
All-append_left [] ys h = tt
All-append_left (x ∷ xs) ys h = (h.0, All-append_left xs ys h.1)

All-append_right : (xs ys : List (List ℕ)) → All FitsLine (xs ++ ys) → All FitsLine ys
All-append_right [] ys h = h
All-append_right (x ∷ xs) ys h = All-append_right xs ys h.1

no_more_lines : (xs : List (List ℕ)) → xs ++ (split_lines []).0 ≡ xs
unfolding split_lines
no_more_lines xs = append-nil xs

-- The lines that are complete before the file grew, and those that became complete.
abbrev pub old_lines : List ℕ → List (List ℕ)
old_lines content = (split_lines content).0

abbrev pub new_lines : List ℕ → List ℕ → List (List ℕ)
new_lines content bytes = (split_lines ((split_lines content).1 ++ bytes)).0

pub lines-append :
    (content bytes : List ℕ)
    → (split_lines (content ++ bytes)).0 ≡ old_lines content ++ new_lines content bytes
lines-append content bytes =
    ap (λ (p : List (List ℕ) × List ℕ). p.0) (split_lines-append content bytes)

pub new_lines-fit :
    (content bytes : List ℕ)
    → All FitsLine (split_lines (content ++ bytes)).0
    → All FitsLine (new_lines content bytes)
new_lines-fit content bytes fit =
    All-append_right (old_lines content) (new_lines content bytes)
      (subst (All FitsLine) (lines-append content bytes) fit)

pub new_lines-few :
    (r : Reader) (content bytes : List ℕ)
    → length (rows_of r [] (split_lines (content ++ bytes)).0) ≤ 10_000
    → length (
        rows_of r [] (old_lines content)
        ++ rows_of r (earlier_after r [] (old_lines content)) (new_lines content bytes))
      ≤ 10_000
new_lines-few r content bytes few = omega (
  arith,
  few,
  ap length (
      ap (rows_of r []) (lines-append content bytes)
      ∙ rows_of-append r [] (old_lines content) (new_lines content bytes)),
)

-- A scan of a file that has grown since it was read either finds its size unchanged, or reads the new
-- lines.
pub tail_file_rule {κ} :
    (P : Watcher → Type κ) (r : Reader) (a : Answers) (path : String) (content bytes : List ℕ)
    (w : Watcher)
    → length (content ++ bytes) ≤ max_backfill_size
    → HasRead r path content w
    → let w1 =
        with_checkpoint w path Tool.claude
          (length (content ++ bytes))
          (Dict.get w.checkpoints path) in
      (length (content ++ bytes) ≡ line_bytes (old_lines content) → P w1)
      → P (
          tail_lines r a w1 path Tool.claude
            (line_bytes (old_lines content))
            (new_lines content bytes))
      → P (tail_file r a w path Tool.claude (file_of (content ++ bytes)))
unfolding tail_file tail_view rewound tail_opened
tail_file_rule P r a path content bytes w small h same grown =
    let size = length (content ++ bytes) in
    let w1 = with_checkpoint w path Tool.claude size (Dict.get w.checkpoints path) in
    let at = (opened-HasRead r path content w size small h).at in
    let whole : ltb size (checkpoint_of w1 path).offset ≡ false =
      ground (arith, at, line_bytes-split content, length-append content bytes) in
    rw whole (
      if_rule P (size == (checkpoint_of w1 path).offset)
        (λ e. same ((==_iff size (checkpoint_of w1 path).offset).0 e ∙ at))
        (λ _.
          subst
            (λ lines. P (tail_lines r a w1 path Tool.claude (checkpoint_of w1 path).offset lines))
            (sym (
              ap (λ n. (split_lines (drop n (content ++ bytes))).0) at
              ∙ ap (λ s. (split_lines s).0) (drop_complete content bytes)))
            (rw at grown)))

new_lines-HasRead :
    (r : Reader) (a : Answers) (path : String) (content bytes : List ℕ) (w : Watcher)
    → All FitsLine (split_lines (content ++ bytes)).0
    → length (rows_of r [] (split_lines (content ++ bytes)).0) ≤ 10_000
    → HasRead r path content w
    → HasRead r path (content ++ bytes) (
        tail_lines r a w path Tool.claude
          (line_bytes (old_lines content))
          (new_lines content bytes))
new_lines-HasRead r a path content bytes w fit few h =
    let old = old_lines content in
    let new = new_lines content bytes in
    let (held, at) =
      tail_lines-Holds r a path new w (line_bytes old) (rows_of r [] old) (earlier_after r [] old)
        (new_lines-fit content bytes fit) (new_lines-few r content bytes few) h.held in
    record {
      held =
          rw
            (
              lines-append content bytes,
              rows_of-append r [] old new,
              earlier_after-append r [] old new,
            )
            held;
      at = at ∙ sym (ap line_bytes (lines-append content bytes) ∙ line_bytes-append old new);
    }

same_size-HasRead :
    (r : Reader) (path : String) (content bytes : List ℕ) (w : Watcher)
    → HasRead r path content w
    → length (content ++ bytes) ≡ line_bytes (old_lines content)
    → HasRead r path (content ++ bytes) w
same_size-HasRead r path content bytes w h e =
    let old = old_lines content in
    let nothing : (split_lines content).1 ++ bytes ≡ [] =
      length-eq-zero ((split_lines content).1 ++ bytes) (
        sym (ap length (drop_complete content bytes))
        ∙ length-drop (line_bytes old) (content ++ bytes)
        ∙ omega arith) in
    let unchanged : (split_lines (content ++ bytes)).0 ≡ old =
      lines-append content bytes ∙ ap (λ t. old ++ (split_lines t).0) nothing ∙ no_more_lines old in
    record { held = rw unchanged h.held; at = h.at ∙ sym (ap line_bytes unchanged) }

-- One scan after the file has grown.
pub tail_file-HasRead :
    (r : Reader) (a : Answers) (path : String) (content bytes : List ℕ) (w : Watcher)
    → All FitsLine (split_lines (content ++ bytes)).0
    → length (rows_of r [] (split_lines (content ++ bytes)).0) ≤ 10_000
    → length (content ++ bytes) ≤ max_backfill_size
    → HasRead r path content w
    → HasRead r path
        (content ++ bytes)
        (tail_file r a w path Tool.claude (file_of (content ++ bytes)))
tail_file-HasRead r a path content bytes w fit few small h =
    let w1 =
      with_checkpoint w path Tool.claude (length (content ++ bytes))
        (Dict.get w.checkpoints path) in
    let h1 = opened-HasRead r path content w (length (content ++ bytes)) small h in
    tail_file_rule (HasRead r path (content ++ bytes)) r a path content bytes w small h
      (same_size-HasRead r path content bytes w1 h1)
      (new_lines-HasRead r a path content bytes w1 fit few h1)
