-- ===== src/Hub/Tokens/Spend.antt =====
-- hub/internal/tokens/tokens.go: Ingest as a whole, and checkSpendThreshold. Days are numbered from
-- the epoch, in UTC; the sum of the day's cost is the database's.
use breakerbox.Prelude.{
  ℕ, ◌*◌, String, Bool, true, false, List, [], ◌∷◌, Option, none, some, ◌==◌, ◌&&◌, ◌||◌, not,
  if◌then◌else◌,
}
use breakerbox.Prelude.Int.{ℤ, pos, ltb_ℤ}
use breakerbox.Prelude.Dict.{Dict}
use breakerbox.Protocol.{TokenUsageRow}
use breakerbox.Hub.Tokens.Pricing.{Floats, ModelPrice, cost}
use breakerbox.Hub.Tokens.Ingest.{Usage, ingest_rows, ingest_warnings}

-- The fields of the settings record that the alert reads.
pub record SpendSettings (N : Type 0) : Type 0 where
  pub threshold : N
  pub notify_spend : Bool

pub record Service (N : Type 0) : Type 0 where
  pub models : Dict (ModelPrice N)
  pub table : Dict (Usage N)
  pub unpriced_seen : List String
  pub last_alert_day : Option ℕ
  pub alerts : List N  -- the sums that Send was called with, newest first

abbrev pub day_ms : ℕ
day_ms = 86_400_000

-- `already`
unfoldable pub is_day : Option ℕ → ℕ → Bool
is_day none today = false
is_day (some d) today = d == today

module _ {N : Type 0} (floats : Floats N) where
  -- SELECT COALESCE(SUM(cost_usd), 0) … WHERE occurred_at >= {:day}
  unfoldable pub spent_since : ℤ → Dict (Usage N) → N
  spent_since start [] = floats.nil
  spent_since start ((key, u) ∷ table) =
      let rest = spent_since start table in
      if not (ltb_ℤ u.occurred_at_ms start) then floats.plus u.cost_usd rest else rest

  -- `threshold <= 0 || !notify_spend`, negated
  unfoldable pub wants_alert : SpendSettings N → Bool
  wants_alert s = floats.less floats.nil s.threshold && s.notify_spend

  unfoldable pub alert_for : Service N → ℕ → SpendSettings N → N → Service N
  alert_for s today settings sum =
      if floats.less sum settings.threshold
      then s
      else record s { last_alert_day = some today; alerts = sum ∷ s.alerts }

  -- checkSpendThreshold
  unfoldable pub check_spend_threshold : Service N → ℕ → Option (SpendSettings N) → Service N
  unfolding alert_for spent_since wants_alert is_day
  check_spend_threshold s today none = s
  check_spend_threshold s today (some settings) =
      if not (wants_alert settings) || is_day s.last_alert_day today
      then s
      else alert_for s today settings (spent_since (pos (today * day_ms)) s.table)

  unfoldable pub stored_batch :
      Service N → ℕ → Option (SpendSettings N) → Option (Dict (Usage N)) → Service N × Bool
  unfolding check_spend_threshold
  stored_batch s today settings none = (s, false)
  stored_batch s today settings (some t) =
      (check_spend_threshold (record s { table = t }) today settings, true)

  -- Ingest: false is an error, and the transaction is rolled back
  unfoldable pub ingest :
      (Usage N → Bool)
      → Service N
      → ℕ
      → Option (SpendSettings N)
      → String
      → List TokenUsageRow
      → Service N × Bool
  unfolding stored_batch ingest_rows ingest_warnings cost
  ingest save_ok s today settings system rows =
      let price = cost floats s.models in
      stored_batch
        (record s {
          unpriced_seen = ingest_warnings save_ok price system rows (some s.table) s.unpriced_seen;
        })
        today settings (ingest_rows save_ok price system rows s.table)
