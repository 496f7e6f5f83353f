-- ===== src/Hub/Tokens/Dedup.antt =====
-- Deduplication by Ingest of tokens.go: a batch may be delivered again, and counts only grow.
use breakerbox.Prelude.{
  String, Bool, List, [], ◌∷◌, Option, none, some, ◌≡◌, refl, sym, subst, ◌∙◌, ap, arith, inl, inr,
  Bool-cases, Option-cases, str_eq, eq_iff, All,
}
use breakerbox.Prelude.Int.{ℤ, ◌≤ℤ◌, ltb_ℤ}
use breakerbox.Prelude.Dict
use breakerbox.Prelude.Dict.{Dict, get-put, get-put_self}
use breakerbox.Protocol.{TokenUsageRow}
use breakerbox.Hub.Tokens.Ingest.{Usage, ingest_found, ingest_row, ingest_rows, new_usage, store}

module _ {N : Type 0} (save_ok : Usage N → Bool) (cost : TokenUsageRow → N × Bool)
    (system : String) where
  -- There is a record for the key, with at least that many output tokens.
  abbrev pub HasAtLeast : Dict (Usage N) → String → ℤ → Type 0
  HasAtLeast table key n = (u : Usage N) × (Dict.get table key ≡ some u) × (n ≤ℤ u.output_tokens)

  abbrev pub Covered : Dict (Usage N) → TokenUsageRow → Type 0
  Covered table row = HasAtLeast table row.dedup_key row.output_tokens

  stored :
      (table t : Dict (Usage N)) (key : String) (u : Usage N)
      → store save_ok cost table key u ≡ some t
      → t ≡ Dict.put table key u
  unfolding store
  stored table t key u h = ground arith

  put-HasAtLeast :
      (table : Dict (Usage N)) (key : String) (u : Usage N) (k : String) (n : ℤ)
      → (HasAtLeast table key n → n ≤ℤ u.output_tokens)
      → HasAtLeast table k n
      → HasAtLeast (Dict.put table key u) k n
  put-HasAtLeast table key u k n grows (old, there, enough) = elim (Bool-cases (str_eq key k)) [
    | inl same ↦
        let e = (eq_iff key k).0 same in
        (
          u,
          ground (arith, get-put table key k u),
          grows (old, ap (Dict.get table) e ∙ there, enough),
        )
    | inr other ↦ (old, ground (arith, get-put table key k u), enough)
  ]

  -- What one row leaves in the table: its own count at least, and no smaller count than before.
  abbrev pub Grown : Dict (Usage N) → TokenUsageRow → Dict (Usage N) → Type 0
  Grown table row t =
      Covered t row × ((k : String) (n : ℤ) → HasAtLeast table k n → HasAtLeast t k n)

  stored-Grown :
      (table t : Dict (Usage N)) (row : TokenUsageRow) (u : Usage N)
      → u.output_tokens ≡ row.output_tokens
      → ((n : ℤ) → HasAtLeast table row.dedup_key n → n ≤ℤ row.output_tokens)
      → store save_ok cost table row.dedup_key u ≡ some t
      → Grown table row t
  stored-Grown table t row u count grows h =
      subst (Grown table row) (sym (stored table t row.dedup_key u h)) (
        (u, get-put_self table row.dedup_key u, rw count (omega arith)),
        λ k n there. put-HasAtLeast table row.dedup_key u k n (λ x. rw count (grows n x)) there,
      )

  row-Grown :
      (table t : Dict (Usage N)) (row : TokenUsageRow) (o : Option (Usage N))
      → Dict.get table row.dedup_key ≡ o
      → ingest_found save_ok cost system table row o ≡ some t
      → Grown table row t
  unfolding ingest_found new_usage
  row-Grown table t row none q h =
      stored-Grown table t row _ refl (λ n (u, there, _). absurd (cc)) h
  row-Grown table t row (some old) q h =
      elim (Bool-cases (ltb_ℤ old.output_tokens row.output_tokens)) [
        | inl more ↦
            stored-Grown table t row
              (record old { output_tokens = row.output_tokens; cost_usd = (cost row).0 }) refl
              (λ n (u, there, small).
                let same : u ≡ old = ground arith in ground (arith, more, small, same))
              (ground arith)
        | inr enough ↦
            let same : table ≡ t = ground arith in
            subst (Grown table row) same ((old, q, ground arith), λ k n x. x)
      ]

  Covered-noop :
      (table : Dict (Usage N)) (row : TokenUsageRow)
      → Covered table row
      → ingest_row save_ok cost system table row ≡ some table
  unfolding ingest_row ingest_found
  Covered-noop table row (u, there, enough) = rw there (ground arith)

  -- Along a batch that is stored, each row's count and every earlier count is reached.
  rows-Grown :
      (rows : List TokenUsageRow) (table t : Dict (Usage N))
      → ingest_rows save_ok cost system rows table ≡ some t
      → All (Covered t) rows × ((k : String) (n : ℤ) → HasAtLeast table k n → HasAtLeast t k n)
  unfolding ingest_rows ingest_row
  rows-Grown [] table t h =
      let same : table ≡ t = ground arith in (tt, λ k n x. subst (λ y. HasAtLeast y k n) same x)
  rows-Grown (row ∷ rows) table t h =
      elim (Option-cases (ingest_row save_ok cost system table row)) [
        | inl failed ↦ absurd (ground arith)
        | inr (t1, first) ↦
            let (here, kept) = row-Grown table t1 row (Dict.get table row.dedup_key) refl first in
            let (later, kept') = rows-Grown rows t1 t (ground arith) in
            ((kept' row.dedup_key row.output_tokens here, later), λ k n x. kept' k n (kept k n x))
      ]

  Covered-rows_noop :
      (rows : List TokenUsageRow) (table : Dict (Usage N))
      → All (Covered table) rows
      → ingest_rows save_ok cost system rows table ≡ some table
  unfolding ingest_rows
  Covered-rows_noop [] table h = refl
  Covered-rows_noop (row ∷ rows) table h =
      rw (Covered-noop table row h.0) (Covered-rows_noop rows table h.1)

  -- An agent that did not see its batch acknowledged sends it again: once a batch is stored, storing
  -- it again succeeds and changes nothing.
  pub ingest_twice :
      (rows : List TokenUsageRow) (table t : Dict (Usage N))
      → ingest_rows save_ok cost system rows table ≡ some t
      → ingest_rows save_ok cost system rows t ≡ some t
  ingest_twice rows table t h = Covered-rows_noop rows t (rows-Grown rows table t h).0

  -- A stored batch leaves, for each of its rows, a record with at least the row's output tokens, and
  -- it lowers the output tokens of no record that was there, whatever the order of the rows.
  pub ingest_rows-grow :
      (rows : List TokenUsageRow) (table t : Dict (Usage N))
      → ingest_rows save_ok cost system rows table ≡ some t
      → All (Covered t) rows
        × ((k : String) (u : Usage N) → Dict.get table k ≡ some u → HasAtLeast t k u.output_tokens)
  ingest_rows-grow rows table t h =
      let (covered, kept) = rows-Grown rows table t h in
      (covered, λ k u there. kept k u.output_tokens (u, there, omega arith))
