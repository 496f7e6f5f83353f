-- ===== src/Hub/Tokens/Alerts.antt =====
-- checkSpendThreshold of tokens.go along a day.
use breakerbox.Prelude.{
  ℕ, suc, ◌≤◌, String, Bool, true, false, List, [], ◌∷◌, Option, none, some, ◌≡◌, refl, arith,
  length, if_rule, inl, inr, ◌⊎◌, ◌∙◌, ap, not, ◌||◌, ◌*◌,
}
use breakerbox.Prelude.Int.{pos}
use breakerbox.Prelude.Dict.{Dict}
use breakerbox.Protocol.{TokenUsageRow}
use breakerbox.Hub.Tokens.Pricing.{Floats, cost}
use breakerbox.Hub.Tokens.Ingest.{Usage, ingest_rows, ingest_warnings}
use breakerbox.Hub.Tokens.Spend.{
  SpendSettings, Service, is_day, alert_for, check_spend_threshold, stored_batch, ingest,
  spent_since, wants_alert, day_ms,
}

module _ {N : Type 0} (floats : Floats N) where
  -- Either no alert was sent, or the first one of the day.
  abbrev AtMostOne : ℕ → Service N → Service N → Type 0
  AtMostOne today s t =
      ((t.alerts ≡ s.alerts) × (t.last_alert_day ≡ s.last_alert_day))
      ⊎ ((length t.alerts ≡ suc (length s.alerts))
          × (t.last_alert_day ≡ some today)
          × (is_day s.last_alert_day today ≡ false))

  check-AtMostOne :
      (s : Service N) (today : ℕ) (settings : Option (SpendSettings N))
      → AtMostOne today s (check_spend_threshold floats s today settings)
  unfolding check_spend_threshold alert_for
  check-AtMostOne s today none = inl (refl, refl)
  check-AtMostOne s today (some settings) =
      let sum = spent_since floats (pos (today * day_ms)) s.table in
      if_rule (AtMostOne today s)
        (not (wants_alert floats settings) || is_day s.last_alert_day today)
        {y = alert_for floats s today settings sum} (λ _. inl (refl, refl))
        (λ due.
          if_rule (AtMostOne today s) (floats.less sum settings.threshold)
            {y = record s { last_alert_day = some today; alerts = sum ∷ s.alerts }}
            (λ _. inl (refl, refl)) (λ _. inr (refl, refl, ground arith)))

  stored-AtMostOne :
      (s : Service N) (today : ℕ) (settings : Option (SpendSettings N))
      (t : Option (Dict (Usage N)))
      → AtMostOne today s (stored_batch floats s today settings t).0
  unfolding stored_batch
  stored-AtMostOne s today settings none = inl (refl, refl)
  stored-AtMostOne s today settings (some t) =
      check-AtMostOne (record s { table = t }) today settings

  ingest-AtMostOne :
      (save_ok : Usage N → Bool) (s : Service N) (today : ℕ) (settings : Option (SpendSettings N))
      (system : String) (rows : List TokenUsageRow)
      → AtMostOne today s (ingest floats save_ok s today settings system rows).0
  unfolding ingest
  ingest-AtMostOne save_ok s today settings system rows =
      stored-AtMostOne
        (record s {
          unpriced_seen =
              ingest_warnings save_ok (cost floats s.models) system rows (some s.table)
                s.unpriced_seen;
        })
        today settings (ingest_rows save_ok (cost floats s.models) system rows s.table)

  same_day : (today : ℕ) (day : Option ℕ) → day ≡ some today → is_day day today ≡ true
  unfolding is_day
  same_day today none h = ground arith
  same_day today (some d) h = ground arith

  -- The batches of one day, each with the settings then in force.
  pub ingest_all :
      (Usage N → Bool)
      → ℕ
      → List (Option (SpendSettings N) × String × List TokenUsageRow)
      → Service N
      → Service N
  ingest_all save_ok today [] s = s
  ingest_all save_ok today ((settings, system, rows) ∷ rest) s =
      ingest_all save_ok today rest (ingest floats save_ok s today settings system rows).0

  -- However many batches arrive on a day, and whatever the settings are then, the spend alert is
  -- sent at most once that day, and not at all if it was sent that day before.
  pub alert_once :
      (save_ok : Usage N → Bool) (today : ℕ)
      (batches : List (Option (SpendSettings N) × String × List TokenUsageRow)) (s : Service N)
      → (length (ingest_all save_ok today batches s).alerts ≤ suc (length s.alerts))
        × (s.last_alert_day ≡ some today → (ingest_all save_ok today batches s).alerts ≡ s.alerts)
  unfolding ingest_all ingest is_day
  alert_once save_ok today [] s = (omega arith, λ _. refl)
  alert_once save_ok today ((settings, system, rows) ∷ rest) s =
      let s1 = (ingest floats save_ok s today settings system rows).0 in
      let (bound, silent) = alert_once save_ok today rest s1 in
      elim (ingest-AtMostOne save_ok s today settings system rows) [
        | inl (alerts, day) ↦
            (omega (arith, bound, ap length alerts), λ sent. silent (day ∙ sent) ∙ alerts)
        | inr (alerts, day, before) ↦ (
          omega (arith, ap length (silent day), alerts),
          λ sent. absurd (ground (arith, before, same_day today s.last_alert_day sent)),
        )
      ]
