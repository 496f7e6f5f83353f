-- ===== src/Agent/TokenWatch/Watcher/Lines.antt =====
-- The watcher keeps the rows of the lines that it consumes, whether its flushes succeed or not.
use breakerbox.Prelude.{
  ℕ, suc, ◌+◌, ◌-◌, ◌≤◌, ◌<◌, String, true, List, [], ◌∷◌, ◌++◌, Option, none, some, ◌≡◌, refl, sym,
  ap, ◌∙◌, arith, ltb, leb, length, drop, length-append, Bool-cases, inl, inr, subst, if_rule,
}
use mathlib.Core.List.{append_assoc, append-nil}
use breakerbox.Prelude.Int.{ℤ}
use breakerbox.Prelude.Dict
use breakerbox.Prelude.Dict.{Dict, get-put, get-put_self}
use breakerbox.Protocol.{TokenUsageRow}
use breakerbox.Agent.TokenWatch.Claude.{parse_claude_line}
use breakerbox.Agent.TokenWatch.Watcher.{
  Tool, Harvested, claude_row, Watcher, Reader, Answers, save_checkpoints, bound_last_output,
  cap_pending, accepted, flush_pending, flush, enqueue_row, count_unparsed, is_grown, attributed,
  consume_parsed, consume_claude, consume_line,
}
use breakerbox.Agent.TokenWatch.Watcher.Rows.{
  row_at, is_largest, new_row, earlier_with, outputs-put, outputs-skip,
}

-- What a flush leaves alone.
pub record Kept (w v : Watcher) : Type 0 where
  pub rows : v.delivered ++ v.pending ≡ w.delivered ++ w.pending
  pub outputs : v.last_output ≡ w.last_output
  pub checkpoints : v.checkpoints ≡ w.checkpoints

pub Kept-trans : {u v w : Watcher} → Kept u v → Kept v w → Kept u w
Kept-trans p q = record {
  rows = q.rows ∙ p.rows;
  outputs = q.outputs ∙ p.outputs;
  checkpoints = q.checkpoints ∙ p.checkpoints;
}

pub Kept-refl : (w : Watcher) → Kept w w
Kept-refl w = record { rows = refl; outputs = refl; checkpoints = refl }

pub save_checkpoints-Kept : (a : Answers) (w : Watcher) → Kept w (save_checkpoints a w)
unfolding save_checkpoints
save_checkpoints-Kept a w =
    if_rule (Kept w) (a.writes w.checkpoints) {x = record w { saved = w.checkpoints }}
      (λ _. record { rows = refl; outputs = refl; checkpoints = refl }) (λ _. Kept-refl w)

pub bound_last_output-Kept :
    (w : Watcher) → length w.last_output ≤ 50_000 → Kept w (bound_last_output w)
unfolding bound_last_output
bound_last_output-Kept w few =
    if_rule (Kept w) (ltb 50_000 (length w.last_output)) {x = record w { last_output = [] }}
      (λ many. absurd (ground arith)) (λ _. Kept-refl w)

pub cap_pending-Kept : (w : Watcher) → length w.pending ≤ 10_000 → Kept w (cap_pending w)
unfolding cap_pending
cap_pending-Kept w few =
    if_rule (Kept w) (ltb 10_000 (length w.pending))
      {x = record w { pending = drop (length w.pending - 10_000) w.pending }}
      (λ many. absurd (ground arith)) (λ _. Kept-refl w)

pub accepted-Kept : (w : Watcher) → Kept w (accepted w)
unfolding accepted
accepted-Kept w = record {
  rows = append-nil (w.delivered ++ w.pending);
  outputs = refl;
  checkpoints = refl;
}

pub flush_pending-Kept :
    (a : Answers) (w : Watcher) (rows : List Harvested)
    → length w.pending ≤ 10_000
    → length w.last_output ≤ 50_000
    → Kept w (flush_pending a w rows)
unfolding flush_pending
flush_pending-Kept a w [] few outputs = save_checkpoints-Kept a w
flush_pending-Kept a w (row ∷ rows) few outputs =
    if_rule (Kept w) (a.emits (row ∷ rows))
      {x = bound_last_output (save_checkpoints a (accepted w))}
      (λ _.
        let saved = Kept-trans (accepted-Kept w) (save_checkpoints-Kept a (accepted w)) in
        Kept-trans saved (
          bound_last_output-Kept (save_checkpoints a (accepted w))
            (omega (arith, ap length saved.outputs))))
      (λ _. cap_pending-Kept w few)

pub flush-Kept :
    (a : Answers) (w : Watcher)
    → length w.pending ≤ 10_000
    → length w.last_output ≤ 50_000
    → Kept w (flush a w)
unfolding flush
flush-Kept a w few outputs = flush_pending-Kept a w w.pending few outputs

-- The watcher holds the rows of what it read: delivered or pending, with the outputs of their messages.
pub record Holds (acc : List Harvested) (earlier : List TokenUsageRow) (w : Watcher) : Type 0 where
  pub rows : w.delivered ++ w.pending ≡ acc
  pub outputs :
      (row : TokenUsageRow)
      → is_grown row (Dict.get w.last_output row.dedup_key) ≡ is_largest earlier row
  pub few : length w.last_output ≤ length acc

pub Kept-Holds :
    {acc : List Harvested} {earlier : List TokenUsageRow} {w v : Watcher}
    → Holds acc earlier w
    → Kept w v
    → Holds acc earlier v
Kept-Holds {earlier = earlier} h k = record {
  rows = k.rows ∙ h.rows;
  outputs = λ row. ap (λ m. is_grown row (Dict.get m row.dedup_key)) k.outputs ∙ h.outputs row;
  few = omega (arith, ap length k.outputs, h.few);
}

pub enqueue_row-Kept :
    (a : Answers) (w : Watcher) (row : Harvested)
    → length w.pending < 10_000
    → length w.last_output ≤ 50_000
    → Kept (record w { pending = w.pending ++ row ∷ [] }) (enqueue_row a w row)
unfolding enqueue_row flush
enqueue_row-Kept a w row few outputs =
    let w1 : Watcher = record w { pending = w.pending ++ row ∷ [] } in
    if_rule (Kept w1) (leb 500 (length w1.pending)) {x = flush_pending a w1 w1.pending}
      (λ _.
        flush_pending-Kept a w1 w1.pending (omega (arith, length-append w.pending (row ∷ [])))
          outputs)
      (λ _. Kept-refl w1)

pub length-put : (m : Dict ℤ) (k : String) (v : ℤ) → length (Dict.put m k v) ≤ length m + 1
unfolding Dict.put
length-put [] k v = omega arith
length-put ((j, w) ∷ m) k v = ground (arith, length-put m k v)

-- A line with no row is counted at most.
pub counted-Holds :
    (r : Reader) (w : Watcher) (acc : List Harvested) (earlier : List TokenUsageRow) (line : List ℕ)
    → Holds acc earlier w
    → Holds acc earlier (count_unparsed r w line)
unfolding count_unparsed
counted-Holds r w acc earlier line h =
    if_rule (Holds acc earlier) (r.is_json line) {y = record w { unparsed = suc w.unparsed }}
      (λ _. h) (λ _. record { rows = h.rows; outputs = h.outputs; few = h.few })

pub pushed-Holds :
    (a : Answers) (w : Watcher) (acc : List Harvested) (earlier : List TokenUsageRow)
    (row : TokenUsageRow) (x : Harvested)
    → length (acc ++ x ∷ []) ≤ 10_000
    → is_largest earlier row ≡ true
    → Holds acc earlier w
    → Holds (acc ++ x ∷ []) (row ∷ earlier) (
        enqueue_row a
          (record w { last_output = Dict.put w.last_output row.dedup_key row.output_tokens })
          x)
pushed-Holds a w acc earlier row x few largest h =
    let w1 : Watcher = record w {
      last_output = Dict.put w.last_output row.dedup_key row.output_tokens;
    } in
    let w2 : Watcher = record w1 { pending = w.pending ++ x ∷ [] } in
    let put = length-put w.last_output row.dedup_key row.output_tokens in
    let longer = length-append acc (x ∷ []) in
    let held : length w.delivered + length w.pending ≡ length acc =
      sym (length-append w.delivered w.pending) ∙ ap length h.rows in
    let h2 : Holds (acc ++ x ∷ []) (row ∷ earlier) w2 = record {
      rows = sym (append_assoc w.delivered w.pending (x ∷ [])) ∙ ap (λ l. l ++ x ∷ []) h.rows;
      outputs = outputs-put w.last_output earlier row h.outputs largest;
      few = omega (arith, put, longer, h.few);
    } in
    Kept-Holds h2 (
      enqueue_row-Kept a w1 x (omega (arith, few, longer, held))
        (omega (arith, few, longer, put, h.few)))

-- One line, read by the watcher, adds its row if it is worth one.
pub consumed-Holds :
    (r : Reader) (a : Answers) (w : Watcher) (acc : List Harvested) (earlier : List TokenUsageRow)
    (line : List ℕ) (row : Option TokenUsageRow)
    → length (acc ++ new_row r earlier line row) ≤ 10_000
    → Holds acc earlier w
    → Holds
        (acc ++ new_row r earlier line row)
        (earlier_with earlier row)
        (consume_parsed r a w line row)
unfolding consume_parsed new_row earlier_with
consumed-Holds r a w acc earlier line none few h =
    subst (λ rows. Holds rows earlier (count_unparsed r w line)) (sym (append-nil acc))
      (counted-Holds r w acc earlier line h)
consumed-Holds r a w acc earlier line (some row) few h =
    elim (Bool-cases (is_largest earlier row)) [
      | inl largest ↦
          rw (h.outputs row, largest)
            (pushed-Holds a w acc earlier row (claude_row (attributed r (r.decode_claude line) row))
              (rw largest at few) largest h)
      | inr old ↦
          rw (h.outputs row, old)
            (subst (λ rows. Holds rows (row ∷ earlier) w) (sym (append-nil acc))
              (record {
                rows = h.rows;
                outputs = outputs-skip w.last_output earlier row h.outputs old;
                few = h.few;
              }))
    ]

pub line-Holds :
    (r : Reader) (a : Answers) (path : String) (w : Watcher) (acc : List Harvested)
    (earlier : List TokenUsageRow) (line : List ℕ)
    → length (acc ++ new_row r earlier line (row_at r line)) ≤ 10_000
    → Holds acc earlier w
    → Holds
        (acc ++ new_row r earlier line (row_at r line))
        (earlier_with earlier (row_at r line))
        (consume_line r a w path Tool.claude line)
unfolding consume_line consume_claude row_at new_row earlier_with
line-Holds r a path w acc earlier [] few h =
    subst (λ rows. Holds rows earlier w) (sym (append-nil acc)) h
line-Holds r a path w acc earlier (c ∷ line) few h =
    consumed-Holds r a w acc earlier (c ∷ line) (parse_claude_line (r.decode_claude (c ∷ line))) few
      h
