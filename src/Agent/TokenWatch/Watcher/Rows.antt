-- ===== src/Agent/TokenWatch/Watcher/Rows.antt =====
-- What the lines of a Claude Code transcript are worth, by the outputs that they report.
use breakerbox.Prelude.{
  ℕ, Bool, true, false, ◌&&◌, not, ◌||◌, List, [], ◌∷◌, ◌++◌, Option, none, some, ◌≡◌, refl, sym,
  ap, ◌∙◌, arith, if◌then◌else◌, str_eq, eq_iff, Bool-cases, inl, inr,
}
use mathlib.Core.List.{append_assoc}
use breakerbox.Prelude.Int.{ℤ, ltb_ℤ}
use breakerbox.Prelude.Dict
use breakerbox.Prelude.Dict.{Dict, get-put, get-put_self}
use breakerbox.Protocol.{TokenUsageRow}
use breakerbox.Agent.TokenWatch.Claude.{parse_claude_line}
use breakerbox.Agent.TokenWatch.Watcher.{
  Harvested, claude_row, Reader, is_grown, attributed, trim_nl,
}

-- The row of a line, if it has one.
unfoldable pub row_at : Reader → List ℕ → Option TokenUsageRow
unfolding parse_claude_line
row_at r [] = none
row_at r (c ∷ line) = parse_claude_line (r.decode_claude (c ∷ line))

-- The output of every earlier row of the same message is smaller.
unfoldable pub is_largest : List TokenUsageRow → TokenUsageRow → Bool
is_largest [] row = true
is_largest (e ∷ earlier) row =
    (not (str_eq e.dedup_key row.dedup_key) || ltb_ℤ e.output_tokens row.output_tokens)
    && is_largest earlier row

-- A row is worth emitting if its output is larger than at each earlier line of the same message.
unfoldable pub new_row :
    Reader → List TokenUsageRow → List ℕ → Option TokenUsageRow → List Harvested
unfolding is_largest attributed
new_row r earlier line none = []
new_row r earlier line (some row) =
    if is_largest earlier row then claude_row (attributed r (r.decode_claude line) row) ∷ [] else []

unfoldable pub earlier_with : List TokenUsageRow → Option TokenUsageRow → List TokenUsageRow
earlier_with earlier none = earlier
earlier_with earlier (some row) = row ∷ earlier

unfoldable pub rows_of : Reader → List TokenUsageRow → List (List ℕ) → List Harvested
unfolding row_at new_row earlier_with trim_nl
rows_of r earlier [] = []
rows_of r earlier (l ∷ lines) =
    let row = row_at r (trim_nl l) in
    new_row r earlier (trim_nl l) row ++ rows_of r (earlier_with earlier row) lines

unfoldable pub earlier_after : Reader → List TokenUsageRow → List (List ℕ) → List TokenUsageRow
earlier_after r earlier [] = earlier
earlier_after r earlier (l ∷ lines) =
    earlier_after r (earlier_with earlier (row_at r (trim_nl l))) lines

pub rows_of-append :
    (r : Reader) (earlier : List TokenUsageRow) (xs ys : List (List ℕ))
    → rows_of r earlier (xs ++ ys)
      ≡ rows_of r earlier xs ++ rows_of r (earlier_after r earlier xs) ys
unfolding rows_of earlier_after
rows_of-append r earlier [] ys = refl
rows_of-append r earlier (l ∷ xs) ys =
    let row = row_at r (trim_nl l) in
    ap (λ rows. new_row r earlier (trim_nl l) row ++ rows)
      (rows_of-append r (earlier_with earlier row) xs ys)
    ∙ sym (
        append_assoc (new_row r earlier (trim_nl l) row) (rows_of r (earlier_with earlier row) xs)
          (rows_of r (earlier_after r (earlier_with earlier row) xs) ys))

pub earlier_after-append :
    (r : Reader) (earlier : List TokenUsageRow) (xs ys : List (List ℕ))
    → earlier_after r earlier (xs ++ ys) ≡ earlier_after r (earlier_after r earlier xs) ys
unfolding earlier_after
earlier_after-append r earlier [] ys = refl
earlier_after-append r earlier (l ∷ xs) ys =
    earlier_after-append r (earlier_with earlier (row_at r (trim_nl l))) xs ys

pub larger_than_largest :
    (earlier : List TokenUsageRow) (row x : TokenUsageRow)
    → row.dedup_key ≡ x.dedup_key
    → is_largest earlier row ≡ true
    → ltb_ℤ row.output_tokens x.output_tokens ≡ true
    → is_largest earlier x ≡ true
unfolding is_largest
larger_than_largest [] row x k h lt = refl
larger_than_largest (e ∷ earlier) row x k h lt = ground (arith, larger_than_largest earlier row x k)

pub larger_than_rejected :
    (earlier : List TokenUsageRow) (row x : TokenUsageRow)
    → row.dedup_key ≡ x.dedup_key
    → is_largest earlier row ≡ false
    → is_largest earlier x ≡ true
    → ltb_ℤ row.output_tokens x.output_tokens ≡ true
unfolding is_largest
larger_than_rejected [] row x k h l = cc
larger_than_rejected (e ∷ earlier) row x k h l =
    ground (arith, larger_than_rejected earlier row x k)

-- A row that is larger than the earlier ones of its message decides for it from now on.
pub outputs-put :
    (m : Dict ℤ) (earlier : List TokenUsageRow) (row : TokenUsageRow)
    → ((x : TokenUsageRow) → is_grown x (Dict.get m x.dedup_key) ≡ is_largest earlier x)
    → is_largest earlier row ≡ true
    → (x : TokenUsageRow)
    → is_grown x (Dict.get (Dict.put m row.dedup_key row.output_tokens) x.dedup_key)
      ≡ is_largest (row ∷ earlier) x
unfolding is_largest is_grown
outputs-put m earlier row agree largest x = elim (Bool-cases (str_eq row.dedup_key x.dedup_key)) [
  | inl same ↦
      let k = (eq_iff row.dedup_key x.dedup_key).0 same in
      ground (
        arith,
        same,
        get-put m row.dedup_key x.dedup_key row.output_tokens,
        larger_than_largest earlier row x k,
      )
  | inr other ↦
      ground (arith, other, get-put m row.dedup_key x.dedup_key row.output_tokens, agree x)
]

-- A row that is not larger decides nothing.
pub outputs-skip :
    (m : Dict ℤ) (earlier : List TokenUsageRow) (row : TokenUsageRow)
    → ((x : TokenUsageRow) → is_grown x (Dict.get m x.dedup_key) ≡ is_largest earlier x)
    → is_largest earlier row ≡ false
    → (x : TokenUsageRow) → is_grown x (Dict.get m x.dedup_key) ≡ is_largest (row ∷ earlier) x
unfolding is_largest is_grown
outputs-skip m earlier row agree largest x = elim (Bool-cases (str_eq row.dedup_key x.dedup_key)) [
  | inl same ↦
      let k = (eq_iff row.dedup_key x.dedup_key).0 same in
      ground (arith, same, agree x, larger_than_rejected earlier row x k)
  | inr other ↦ ground (arith, other, agree x)
]
