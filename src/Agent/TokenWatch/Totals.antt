-- ===== src/Agent/TokenWatch/Totals.antt =====
-- The rows of codex.go add up to the session's totals.
use breakerbox.Prelude.{
  ℕ, suc, ◌+◌, ◌-◌, ◌≤◌, ◌<◌, ◌^◌, List, [], ◌∷◌, Option, none, some, ◌≡◌, refl, ap, ◌∙◌, arith,
  if_rule, ◌&&◌,
}
use breakerbox.Prelude.Int.{ℤ, pos, eq_ℤ, wrap-pos, ◌-ℤ◌, pos_part}
use breakerbox.Agent.TokenWatch.Codex.{
  CodexRow, CodexState, CodexUsage, count_tokens, delta, growth, max64, minus, row_if_grown, row_of,
}

-- Totals as the counts that they are.
abbrev pub Counts : Type 0
Counts = ℕ × ℕ × ℕ  -- input, cached, output

abbrev pub usage_of : Counts → CodexUsage
usage_of (i, c, o) = record {
  input_tokens = pos i;
  cached_input_tokens = pos c;
  output_tokens = pos o;
}

-- Counters only grow, in 63 bits, and what is cached is part of the input.
abbrev pub Grows : Counts → Counts → Type 0
Grows (i, c, o) (j, d, p) =
    (i ≤ j) × (c ≤ d) × (o ≤ p) × (d - c ≤ j - i) × (d ≤ j) × (j < 2 ^ 63) × (p < 2 ^ 63)

minus-pos : (a b : ℕ) → b ≤ a → a < 2 ^ 63 → minus (pos a) (pos b) ≡ pos (a - b)
unfolding minus ◌-ℤ◌
minus-pos a b le fits =
    let whole : pos a -ℤ pos b ≡ pos (a - b) = ground arith in
    rw whole (wrap-pos (a - b) (omega arith))

delta-grown :
    (i c o j d p : ℕ)
    → Grows (i, c, o) (j, d, p)
    → delta (usage_of (i, c, o)) (usage_of (j, d, p)) ≡ usage_of (j - i, d - c, p - o)
unfolding delta growth
delta-grown i c o j d p (ij, cd, op, cached, part, j_fits, p_fits) =
    rw (minus-pos j i ij j_fits, minus-pos d c cd (omega arith), minus-pos p o op p_fits)
      (ground arith)

-- The input (cached or not) and the output of a row.
abbrev pub input_of : Option CodexRow → ℕ
input_of none = 0
input_of (some r) = pos_part r.input_tokens + pos_part r.cache_read_tokens

abbrev pub output_of : Option CodexRow → ℕ
output_of none = 0
output_of (some r) = pos_part r.output_tokens

row-sums :
    (st : CodexState) (stamp : ℤ) (i c o : ℕ)
    → c ≤ i
    → i < 2 ^ 63
    → (input_of (row_if_grown st stamp (usage_of (i, c, o))) ≡ i)
      × (output_of (row_if_grown st stamp (usage_of (i, c, o))) ≡ o)
unfolding row_if_grown row_of max64
row-sums st stamp i c o part fits =
    let uncached = minus-pos i c part fits in
    if_rule (λ r. (input_of r ≡ i) × (output_of r ≡ o))
      (eq_ℤ (pos i) (pos 0) && eq_ℤ (pos o) (pos 0)) {x = none}
      {y = some (row_of st stamp (usage_of (i, c, o)))}
      (λ same. (ground (arith, same), ground (arith, same)))
      (λ _. (rw uncached (ground arith), refl))

pub read_all : CodexState → List (ℤ × Counts) → List (Option CodexRow)
read_all st [] = []
read_all st ((stamp, totals) ∷ rest) =
    let (st1, row) = count_tokens st stamp (some (usage_of totals)) in row ∷ read_all st1 rest

abbrev pub sum_by : (Option CodexRow → ℕ) → List (Option CodexRow) → ℕ
sum_by f [] = 0
sum_by f (r ∷ rs) = f r + sum_by f rs

abbrev pub AllGrow : Counts → List (ℤ × Counts) → Type 0
AllGrow prev [] = Unit
AllGrow prev ((stamp, totals) ∷ rest) = Grows prev totals × AllGrow totals rest

abbrev pub last_of : Counts → List (ℤ × Counts) → Counts
last_of prev [] = prev
last_of prev ((stamp, totals) ∷ rest) = last_of totals rest

-- Along a session file whose totals only grow, the rows add up to the growth: all the input, cached
-- or not, and all the output between the state's totals and the last line's, with nothing counted
-- twice or left out.
pub read_all-sums :
    (lines : List (ℤ × Counts)) (prev : Counts) (st : CodexState)
    → st.last ≡ usage_of prev
    → AllGrow prev lines
    → (sum_by input_of (read_all st lines) + prev.0 ≡ (last_of prev lines).0)
      × (sum_by output_of (read_all st lines) + prev.2 ≡ (last_of prev lines).2)
unfolding read_all count_tokens
read_all-sums [] prev st at grow = (omega arith, omega arith)
read_all-sums ((stamp, (j, d, p)) ∷ rest) (i, c, o) st at (step, more) =
    let st1 : CodexState = record st { last = usage_of (j, d, p); events = suc st.events } in
    let (inputs, outputs) = read_all-sums rest (j, d, p) st1 refl more in
    let change = ap (λ u. delta u (usage_of (j, d, p))) at ∙ delta-grown i c o j d p step in
    let (input, output) =
      row-sums st1 stamp (j - i) (d - c) (p - o) (omega (arith, step)) (omega (arith, step)) in
    let row = ap (row_if_grown st1 stamp) change in
    (
      omega (arith, inputs, input, ap input_of row, step),
      omega (arith, outputs, output, ap output_of row, step),
    )
