-- ===== src/Agent/TokenWatch/Watcher/Advances.antt =====
-- Reading a line, the watcher saves at most what it had read at its last checkpoint.
use breakerbox.Prelude.{
  ℕ, ◌+◌, ◌≤◌, ◌<◌, ◌⊎◌, String, false, List, [], ◌∷◌, ◌++◌, Option, none, some, ◌≡◌, refl, sym, ap,
  ◌∙◌, arith, ltb, leb, length, if_rule, inl, inr, Bool-cases, length-append,
}
use mathlib.Core.List.{append-nil, append_assoc}
use breakerbox.Prelude.Dict
use breakerbox.Prelude.Dict.{Dict}
use breakerbox.Protocol.{TokenUsageRow}
use breakerbox.Agent.TokenWatch.Claude.{parse_claude_line}
use breakerbox.Agent.TokenWatch.Watcher.Rows.{row_at, is_largest, new_row}
use breakerbox.Agent.TokenWatch.Watcher.Lines.{Holds}
use breakerbox.Agent.TokenWatch.Watcher.{
  claude_row, attributed, Answers, Reader, Tool, Watcher, Harvested, save_checkpoints,
  bound_last_output, cap_pending, accepted, flush_pending, flush, enqueue_row, consume_parsed,
  consume_claude, consume_line, count_unparsed,
}

pub record IsPrefix (xs ys : List Harvested) : Type 0 where
  pub rest : List Harvested
  pub whole : ys ≡ xs ++ rest

pub IsPrefix-refl : (xs : List Harvested) → IsPrefix xs xs
IsPrefix-refl xs = record { rest = []; whole = sym (append-nil xs) }

pub IsPrefix-trans : {xs ys zs : List Harvested} → IsPrefix xs ys → IsPrefix ys zs → IsPrefix xs zs
IsPrefix-trans {xs} p q = record {
  rest = p.rest ++ q.rest;
  whole = q.whole ∙ ap (λ l. l ++ q.rest) p.whole ∙ append_assoc xs p.rest q.rest;
}

pub IsPrefix-eq : {xs ys : List Harvested} → ys ≡ xs → IsPrefix xs ys
IsPrefix-eq {xs} e = record { rest = []; whole = e ∙ sym (append-nil xs) }

-- The watcher has gone on, and has saved at most what it had read at its last checkpoint, with all
-- rows of that delivered.
pub record Advances (w v : Watcher) : Type 0 where
  pub checkpoints : v.checkpoints ≡ w.checkpoints
  pub rows : IsPrefix (w.delivered ++ w.pending) (v.delivered ++ v.pending)
  pub delivered : IsPrefix w.delivered v.delivered
  pub saved :
      (v.saved ≡ w.saved)
      ⊎ ((v.saved ≡ w.checkpoints) × IsPrefix (w.delivered ++ w.pending) v.delivered)

pub Advances-trans : {u v w : Watcher} → Advances u v → Advances v w → Advances u w
Advances-trans {u} p q = record {
  checkpoints = q.checkpoints ∙ p.checkpoints;
  rows = IsPrefix-trans p.rows q.rows;
  delivered = IsPrefix-trans p.delivered q.delivered;
  saved = elim q.saved [
    | inl same ↦ elim p.saved [
      | inl old ↦ inl (same ∙ old)
      | inr (new, all) ↦ inr (same ∙ new, IsPrefix-trans all q.delivered)
    ]
    | inr (new, all) ↦ inr (new ∙ p.checkpoints, IsPrefix-trans p.rows all)
  ];
}

-- Nothing that a checkpoint stands for has changed.
pub Advances-same :
    {w v : Watcher}
    → v.checkpoints ≡ w.checkpoints
    → v.pending ≡ w.pending
    → v.delivered ≡ w.delivered
    → v.saved ≡ w.saved
    → Advances w v
Advances-same {w} c p d s = record {
  checkpoints = c;
  rows = IsPrefix-eq (rw (d, p) refl);
  delivered = IsPrefix-eq d;
  saved = inl s;
}

-- A save with nothing pending.
save-Advances : (a : Answers) (w : Watcher) → w.pending ≡ [] → Advances w (save_checkpoints a w)
unfolding save_checkpoints
save-Advances a w none_left =
    if_rule (Advances w) (a.writes w.checkpoints) {x = record w { saved = w.checkpoints }}
      (λ _. record {
        checkpoints = refl;
        rows = IsPrefix-refl (w.delivered ++ w.pending);
        delivered = IsPrefix-refl w.delivered;
        saved = inr (refl, IsPrefix-eq (rw none_left (sym (append-nil w.delivered))));
      })
      (λ _. Advances-same refl refl refl refl)

accepted-Advances : (a : Answers) (w : Watcher) → Advances w (save_checkpoints a (accepted w))
unfolding accepted save_checkpoints
accepted-Advances a w =
    let all : IsPrefix (w.delivered ++ w.pending) ((w.delivered ++ w.pending) ++ []) = record {
      rest = [];
      whole = refl;
    } in
    let more : IsPrefix w.delivered (w.delivered ++ w.pending) = record {
      rest = w.pending;
      whole = refl;
    } in
    if_rule (Advances w) (a.writes w.checkpoints)
      {x = record (accepted w) { saved = w.checkpoints }} {y = accepted w}
      (λ _. record {
        checkpoints = refl;
        rows = all;
        delivered = more;
        saved = inr (refl, IsPrefix-refl (w.delivered ++ w.pending));
      })
      (λ _. record { checkpoints = refl; rows = all; delivered = more; saved = inl refl })

bound-Advances : (w : Watcher) → Advances w (bound_last_output w)
unfolding bound_last_output
bound-Advances w =
    if_rule (Advances w) (ltb 50_000 (length w.last_output)) {x = record w { last_output = [] }}
      (λ _. Advances-same refl refl refl refl) (λ _. Advances-same refl refl refl refl)

pub flush_pending-Advances :
    (a : Answers) (w : Watcher) (rows : List Harvested)
    → w.pending ≡ rows
    → length w.pending ≤ 10_000
    → Advances w (flush_pending a w rows)
unfolding flush_pending cap_pending
flush_pending-Advances a w [] e few = save-Advances a w e
flush_pending-Advances a w (row ∷ rows) e few =
    let kept : ltb 10_000 (length w.pending) ≡ false = ground arith in
    if_rule (Advances w) (a.emits (row ∷ rows))
      {x = bound_last_output (save_checkpoints a (accepted w))}
      (λ _.
        Advances-trans (accepted-Advances a w) (bound-Advances (save_checkpoints a (accepted w))))
      (λ _. rw kept (Advances-same refl refl refl refl))

enqueue_row-Advances :
    (a : Answers) (w : Watcher) (row : Harvested)
    → length w.pending < 10_000
    → Advances w (enqueue_row a w row)
unfolding enqueue_row flush
enqueue_row-Advances a w row few =
    let w1 : Watcher = record w { pending = w.pending ++ row ∷ [] } in
    let longer : Advances w w1 = record {
      checkpoints = refl;
      rows = record {
        rest = row ∷ [];
        whole = sym (append_assoc w.delivered w.pending (row ∷ []));
      };
      delivered = IsPrefix-refl w.delivered;
      saved = inl refl;
    } in
    if_rule (Advances w) (leb 500 (length w1.pending)) {x = flush_pending a w1 w1.pending}
      (λ _. Advances-trans longer (
        flush_pending-Advances a w1 w1.pending refl
          (omega (arith, length-append w.pending (row ∷ [])))))
      (λ _. longer)

counted-Advances : (r : Reader) (w : Watcher) (line : List ℕ) → Advances w (count_unparsed r w line)
unfolding count_unparsed
counted-Advances r w line =
    if_rule (Advances w) (r.is_json line) (λ _. Advances-same refl refl refl refl)
      (λ _. Advances-same refl refl refl refl)

-- One line, if the backlog is not cut.
consumed-Advances :
    (r : Reader) (a : Answers) (w : Watcher) (acc : List Harvested) (earlier : List TokenUsageRow)
    (line : List ℕ) (row : Option TokenUsageRow)
    → length (acc ++ new_row r earlier line row) ≤ 10_000
    → Holds acc earlier w
    → Advances w (consume_parsed r a w line row)
unfolding consume_parsed new_row
consumed-Advances r a w acc earlier line none few h = counted-Advances r w line
consumed-Advances r a w acc earlier line (some row) few h =
    elim (Bool-cases (is_largest earlier row)) [
      | inl largest ↦
          let x = claude_row (attributed r (r.decode_claude line) row) in
          let w1 : Watcher = record w {
            last_output = Dict.put w.last_output row.dedup_key row.output_tokens;
          } in
          let held : length w.delivered + length w.pending ≡ length acc =
            sym (length-append w.delivered w.pending) ∙ ap length h.rows in
          rw (h.outputs row, largest)
            (Advances-trans (Advances-same refl refl refl refl) (
              enqueue_row-Advances a w1 x
                (omega (arith, rw largest at few, length-append acc (x ∷ []), held))))
      | inr old ↦ rw (h.outputs row, old) (Advances-same refl refl refl refl)
    ]

pub line-Advances :
    (r : Reader) (a : Answers) (path : String) (w : Watcher) (acc : List Harvested)
    (earlier : List TokenUsageRow) (line : List ℕ)
    → length (acc ++ new_row r earlier line (row_at r line)) ≤ 10_000
    → Holds acc earlier w
    → Advances w (consume_line r a w path Tool.claude line)
unfolding consume_line consume_claude row_at
line-Advances r a path w acc earlier [] few h = Advances-same refl refl refl refl
line-Advances r a path w acc earlier (c ∷ line) few h =
    consumed-Advances r a w acc earlier (c ∷ line) (parse_claude_line (r.decode_claude (c ∷ line)))
      few h
