-- ===== src/Agent/TokenWatch/Watcher/Tail.antt =====
-- The loop of tailFile over a Claude Code transcript: rows and offset.
use breakerbox.Prelude.{
  ℕ, suc, ◌+◌, ◌≤◌, ◌<◌, String, List, [], ◌∷◌, ◌++◌, none, some, ◌≡◌, refl, sym, ap, ◌∙◌, arith,
  length, drop, length-append, Bool-cases, inl, inr, All, subst, if_rule, ◌==◌,
}
use mathlib.Core.List.{append_assoc, append-nil}
use breakerbox.Prelude.Dict.{get-put_self}
use breakerbox.Protocol.{TokenUsageRow}
use breakerbox.Agent.TokenProxy.Sse.{push_byte, split_lines}
use breakerbox.Agent.TokenWatch.Watcher.{
  Tool, Harvested, Checkpoint, Watcher, Reader, Answers, consume_line, keep_unless_ending,
  read_line, trim_nl, set_offset, tail_lines, checkpoint_of, max_line_bytes,
}
use breakerbox.Agent.TokenWatch.Watcher.Rows.{row_at, new_row, earlier_with, rows_of, earlier_after}
use breakerbox.Agent.TokenWatch.Watcher.Lines.{Holds, line-Holds}

-- The bytes of complete lines.
unfoldable pub line_bytes : List (List ℕ) → ℕ
line_bytes [] = 0
line_bytes (l ∷ lines) = suc (length l + line_bytes lines)

pub line_bytes-append :
    (xs ys : List (List ℕ)) → line_bytes (xs ++ ys) ≡ line_bytes xs + line_bytes ys
unfolding line_bytes
line_bytes-append [] ys = omega arith
line_bytes-append (l ∷ xs) ys = omega (arith, line_bytes-append xs ys)

line_bytes-push_byte :
    (c : ℕ) (p : List (List ℕ) × List ℕ)
    → line_bytes (push_byte c p).0 + length (push_byte c p).1 ≡ suc (line_bytes p.0 + length p.1)
unfolding push_byte line_bytes
line_bytes-push_byte c ([], rest) = omega arith
line_bytes-push_byte c (l ∷ ls, rest) = omega arith

pub line_bytes-split :
    (s : List ℕ) → line_bytes (split_lines s).0 + length (split_lines s).1 ≡ length s
unfolding split_lines line_bytes
line_bytes-split [] = omega arith
line_bytes-split (c ∷ s) =
    if_rule (λ (p : List (List ℕ) × List ℕ). line_bytes p.0 + length p.1 ≡ suc (length s)) (c == 10)
      (λ _. omega (arith, line_bytes-split s))
      (λ _. omega (arith, line_bytes-push_byte c (split_lines s), line_bytes-split s))

drop-push_byte :
    (c : ℕ) (s : List ℕ) (p : List (List ℕ) × List ℕ) (ys : List ℕ)
    → drop (line_bytes p.0) (s ++ ys) ≡ p.1 ++ ys
    → drop (line_bytes (push_byte c p).0) (c ∷ s ++ ys) ≡ (push_byte c p).1 ++ ys
unfolding push_byte line_bytes
drop-push_byte c s ([], rest) ys h = ap (◌∷◌ c) h
drop-push_byte c s (l ∷ ls, rest) ys h =
    let e : suc (length l) + line_bytes ls ≡ suc (length l + line_bytes ls) = omega arith in rw e h

-- What follows the complete lines of a text, after it has grown.
pub drop_complete :
    (s ys : List ℕ) → drop (line_bytes (split_lines s).0) (s ++ ys) ≡ (split_lines s).1 ++ ys
unfolding split_lines line_bytes
drop_complete [] ys = refl
drop_complete (c ∷ s) ys = elim (Bool-cases (c == 10)) [
  | inl newline ↦
      let e : 0 + line_bytes (split_lines s).0 ≡ line_bytes (split_lines s).0 = omega arith in
      rw (newline, e) (drop_complete s ys)
  | inr other ↦ rw other (drop-push_byte c s (split_lines s) ys (drop_complete s ys))
]

trim_nl-newline : (l : List ℕ) → trim_nl (l ++ 10 ∷ []) ≡ trim_nl l
unfolding trim_nl keep_unless_ending
trim_nl-newline [] = refl
trim_nl-newline (c ∷ l) = ap (keep_unless_ending c) (trim_nl-newline l)

-- A line that readLine does not skip.
abbrev pub FitsLine : List ℕ → Type 0
FitsLine l = length l < max_line_bytes

read_line_fits : (l : List ℕ) → FitsLine l → read_line l ≡ l ++ 10 ∷ []
unfolding read_line
read_line_fits l fits = ground arith

pub trim_nl-read_line : (l : List ℕ) → FitsLine l → trim_nl (read_line l) ≡ trim_nl l
trim_nl-read_line l fits = ap trim_nl (read_line_fits l fits) ∙ trim_nl-newline l

set_offset-Holds :
    {acc : List Harvested} {earlier : List TokenUsageRow} {w : Watcher} (path : String) (n : ℕ)
    → Holds acc earlier w
    → Holds acc earlier (set_offset w path n)
      × ((checkpoint_of (set_offset w path n) path).offset ≡ n)
unfolding set_offset checkpoint_of
set_offset-Holds {w = w} path n h = (
  record { rows = h.rows; outputs = h.outputs; few = h.few },
  ap
      (λ o.
        (elim o as (λ _. Checkpoint) [
          | none ↦ record { offset = 0; codex = none }
          | some cp ↦ cp
        ]).offset)
      (get-put_self w.checkpoints path (record (checkpoint_of w path) { offset = n })),
)

pub tail_lines-Holds :
    (r : Reader) (a : Answers) (path : String) (lines : List (List ℕ)) (w : Watcher) (n : ℕ)
    (acc : List Harvested) (earlier : List TokenUsageRow)
    → All FitsLine lines
    → length (acc ++ rows_of r earlier lines) ≤ 10_000
    → Holds acc earlier w
    → let v = tail_lines r a w path Tool.claude n lines in
      Holds (acc ++ rows_of r earlier lines) (earlier_after r earlier lines) v
      × ((checkpoint_of v path).offset ≡ n + line_bytes lines)
unfolding tail_lines rows_of earlier_after line_bytes
tail_lines-Holds r a path [] w n acc earlier fit few h =
    let (held, at) = set_offset-Holds path n h in
    (
      subst (λ rows. Holds rows earlier (set_offset w path n)) (sym (append-nil acc)) held,
      omega (arith, at),
    )
tail_lines-Holds r a path (l ∷ lines) w n acc earlier fit few h =
    let row = row_at r (trim_nl l) in
    let new = new_row r earlier (trim_nl l) row in
    let more = rows_of r (earlier_with earlier row) lines in
    let whole : (acc ++ new) ++ more ≡ acc ++ (new ++ more) = append_assoc acc new more in
    let line : read_line l ≡ l ++ 10 ∷ [] = read_line_fits l fit.0 in
    let bare = trim_nl-read_line l fit.0 in
    let w1 = consume_line r a w path Tool.claude (trim_nl (read_line l)) in
    let read : Holds (acc ++ new) (earlier_with earlier row) w1 = rw bare (
      line-Holds r a path w acc earlier (trim_nl l)
        (omega (arith, ap length whole, length-append (acc ++ new) more, few)) h) in
    let (held, at) =
      tail_lines-Holds r a path lines w1 (n + length (read_line l)) (acc ++ new)
        (earlier_with earlier row) fit.1 (omega (arith, ap length whole, few)) read in
    (
      subst
          (λ rows.
            Holds rows (earlier_after r (earlier_with earlier row) lines)
              (tail_lines r a w1 path Tool.claude (n + length (read_line l)) lines))
          whole held,
      omega (arith, at, ap length line, length-append l (10 ∷ [])),
    )
