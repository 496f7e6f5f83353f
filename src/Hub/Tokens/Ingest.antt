-- ===== src/Hub/Tokens/Ingest.antt =====
-- hub/internal/tokens/tokens.go: Ingest. The token_usage collection is a table with one record for
-- each dedup_key (a unique index); PocketBase says which records it stores (`save_ok`). Its number
-- fields are float64, which hold token counts up to 2^53 as they are.
use breakerbox.Prelude.{
  String, Bool, false, List, [], ◌∷◌, Option, none, some, if◌then◌else◌, ◌||◌, str_eq, ◌>>=◌,
}
use breakerbox.Prelude.Int.{ℤ, ltb_ℤ}
use breakerbox.Prelude.Dict
use breakerbox.Prelude.Dict.{Dict}
use breakerbox.Protocol.{TokenUsageRow}

-- A record of token_usage; its key in the table is dedup_key.
pub record Usage (N : Type 0) : Type 0 where
  pub system : String
  pub app : String  -- "" while not set
  pub source : String
  pub model : String
  pub input_tokens : ℤ
  pub output_tokens : ℤ
  pub cache_creation_tokens : ℤ
  pub cache_read_tokens : ℤ
  pub cost_usd : N
  pub session_id : String
  pub occurred_at_ms : ℤ

-- warnUnpriced: the models that were warned about
unfoldable pub warned : List String → String → Bool
warned [] model = false
warned (m ∷ ms) model = str_eq m model || warned ms model

unfoldable pub warn_unpriced : List String → String → List String
unfolding warned
warn_unpriced seen model = if warned seen model then seen else model ∷ seen

module _ {N : Type 0} (save_ok : Usage N → Bool) (cost : TokenUsageRow → N × Bool) where
  unfoldable pub new_usage : String → TokenUsageRow → Usage N
  new_usage system row = record {
    system = system;
    app = row.app_id;
    source = row.source;
    model = row.model;
    input_tokens = row.input_tokens;
    output_tokens = row.output_tokens;
    cache_creation_tokens = row.cache_creation_tokens;
    cache_read_tokens = row.cache_read_tokens;
    cost_usd = (cost row).0;
    session_id = row.session_id;
    occurred_at_ms = row.occurred_at_ms;
  }

  -- tx.Save
  unfoldable pub store : Dict (Usage N) → String → Usage N → Option (Dict (Usage N))
  store table key u = if save_ok u then some (Dict.put table key u) else none

  unfoldable pub ingest_found :
      String → Dict (Usage N) → TokenUsageRow → Option (Usage N) → Option (Dict (Usage N))
  unfolding store new_usage
  ingest_found system table row none = store table row.dedup_key (new_usage system row)
  ingest_found system table row (some old) =
      if ltb_ℤ old.output_tokens row.output_tokens
      then store table row.dedup_key
          (record old { output_tokens = row.output_tokens; cost_usd = (cost row).0 })
      else some table

  unfoldable pub ingest_row : String → Dict (Usage N) → TokenUsageRow → Option (Dict (Usage N))
  unfolding ingest_found
  ingest_row system table row = ingest_found system table row (Dict.get table row.dedup_key)

  -- the loop of the transaction; an error rolls it back
  unfoldable pub ingest_rows :
      String → List TokenUsageRow → Dict (Usage N) → Option (Dict (Usage N))
  unfolding ingest_row
  ingest_rows system [] table = some table
  ingest_rows system (row ∷ rows) table = do
    t ← ingest_row system table row
    ingest_rows system rows t

  -- the models that are warned about, up to the row that ends the loop
  unfoldable pub ingest_warnings :
      String → List TokenUsageRow → Option (Dict (Usage N)) → List String → List String
  unfolding warn_unpriced ingest_row
  ingest_warnings system [] table seen = seen
  ingest_warnings system (row ∷ rows) none seen = seen
  ingest_warnings system (row ∷ rows) (some table) seen =
      ingest_warnings system rows (ingest_row system table row)
        (if (cost row).1 then seen else warn_unpriced seen row.model)
