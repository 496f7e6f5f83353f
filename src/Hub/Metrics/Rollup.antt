-- ===== src/Hub/Metrics/Rollup.antt =====
-- aggregateTier of downsample.go needs no bookkeeping: what is rolled up is not rolled up again.
use breakerbox.Prelude.{
  ℕ, ◌≤◌, max, Option-cases, String, true, false, List, [], ◌∷◌, ◌++◌, Option, none, some, ◌≡◌, ◌≢◌,
  refl, sym, ap, ◌∙◌, arith, inl, inr, ◌⊎◌, leb, ◌&&◌, if◌then◌else◌, if_rule, Bool-cases, str_eq,
  eq_iff, All, All-map, Any, subst,
}
use mathlib.Core.List.{append-nil}
use breakerbox.Hub.Metrics.Downsample.{
  Bucket, Database, Row, Series, Tier, aggregate_tier, all_saved, buckets, commit, is_newer,
  last_bucket, later, new_rows, rolled, selected, truncate,
}

later_above : (t : ℕ) (o : Option ℕ) → t ≤ later t o
unfolding later
later_above t none = omega arith
later_above t (some u) = omega arith

module _ {N : Type 0} (tier : String) where
  -- The tier has a row of this key at the bucket's start or later.
  abbrev pub Reached : List (Row N) → Bucket → Type 0
  Reached rows b = (last : ℕ) × (last_bucket tier b.key rows ≡ some last) × (b.start ≤ last)

  Reached-cons : (r : Row N) (rs : List (Row N)) (b : Bucket) → Reached rs b → Reached (r ∷ rs) b
  unfolding last_bucket later
  Reached-cons r rs b (last, there, late) =
      elim (Bool-cases (str_eq r.tier tier && str_eq r.key b.key)) [
        | inl hit ↦ (max r.created last, ground (arith, there, hit), omega arith)
        | inr miss ↦ (last, ground (arith, there, miss), late)
      ]

  Reached-head :
      (r : Row N) (rs : List (Row N)) (b : Bucket)
      → (str_eq r.tier tier && str_eq r.key b.key) ≡ true
      → b.start ≤ r.created
      → Reached (r ∷ rs) b
  unfolding last_bucket
  Reached-head r rs b hit late = (
    later r.created (last_bucket tier b.key rs),
    ground (arith, hit),
    omega (arith, late, later_above r.created (last_bucket tier b.key rs)),
  )

  Reached-append_right : (xs ys : List (Row N)) (b : Bucket) → Reached ys b → Reached (xs ++ ys) b
  Reached-append_right [] ys b h = h
  Reached-append_right (x ∷ xs) ys b h =
      Reached-cons x (xs ++ ys) b (Reached-append_right xs ys b h)

  -- Where a row's reach comes from.
  Reached-cases :
      (r : Row N) (rs : List (Row N)) (b : Bucket)
      → Reached (r ∷ rs) b
      → (((str_eq r.tier tier && str_eq r.key b.key) ≡ true) × (b.start ≤ r.created)) ⊎ Reached rs b
  unfolding last_bucket later
  Reached-cases r rs b (last, there, late) =
      elim (Bool-cases (str_eq r.tier tier && str_eq r.key b.key)) [
        | inl hit ↦ elim (Bool-cases (leb b.start r.created)) [
          | inl here ↦ inl (hit, ground arith)
          | inr above ↦ elim (Option-cases (last_bucket tier b.key rs)) [
            | inl absent ↦ absurd (ground (arith, there, hit, absent))
            | inr (l, older) ↦ inr (l, older, ground (arith, there, hit, older))
          ]
        ]
        | inr miss ↦ inr (last, ground (arith, there, miss), late)
      ]

  Reached-append_left : (xs ys : List (Row N)) (b : Bucket) → Reached xs b → Reached (xs ++ ys) b
  unfolding last_bucket
  Reached-append_left [] ys b (last, there, late) = absurd (ground arith)
  Reached-append_left (x ∷ xs) ys b h = elim (Reached-cases x xs b h) [
    | inl (hit, late) ↦ Reached-head x (xs ++ ys) b hit late
    | inr older ↦ Reached-cons x (xs ++ ys) b (Reached-append_left xs ys b older)
  ]

  not_newer :
      (rows : List (Row N)) (b : Bucket)
      → Reached rows b
      → is_newer (last_bucket tier b.key rows) b.start ≡ false
  unfolding is_newer
  not_newer rows b (last, there, late) = rw there (ground arith)

  is_old :
      (rows : List (Row N)) (b : Bucket)
      → is_newer (last_bucket tier b.key rows) b.start ≡ false
      → Reached rows b
  unfolding is_newer
  is_old rows b h = elim (Option-cases (last_bucket tier b.key rows)) [
    | inl absent ↦ absurd (ground (arith, h, absent))
    | inr (l, there) ↦ (l, there, ground (arith, h, there))
  ]

module _ {N : Type 0} (db : Database N) (s : Series) (t : Tier) where
  rolled-Reached :
      (source rest : List (Row N)) (b : Bucket)
      → Reached t.to_tier (rolled db s t source b ∷ rest) b
  unfolding rolled
  rolled-Reached source rest b =
      Reached-head t.to_tier (rolled db s t source b) rest b
        (ground (arith, eq_iff t.to_tier t.to_tier, eq_iff b.key b.key)) (omega arith)

  -- Each bucket was rolled up before, or is now.
  new_rows-Reached :
      (table source : List (Row N)) (bs : List Bucket)
      → All
          (λ b. Reached t.to_tier table b ⊎ Reached t.to_tier (new_rows db s t table source bs) b)
          bs
  unfolding new_rows
  new_rows-Reached table source [] = tt
  new_rows-Reached table source (b ∷ bs) =
      let ih = new_rows-Reached table source bs in
      let head = rolled db s t source b in
      if_rule
        (λ (rows : List (Row N)).
          (Reached t.to_tier table b ⊎ Reached t.to_tier rows b)
          × All (λ b'. Reached t.to_tier table b' ⊎ Reached t.to_tier rows b') bs)
        (is_newer (last_bucket t.to_tier b.key table) b.start)
        (λ _. (
          inr (rolled-Reached source (new_rows db s t table source bs) b),
          All-map _ _
              (λ b' h. elim h [
                | inl old ↦ inl old
                | inr new ↦
                    inr (Reached-cons t.to_tier head (new_rows db s t table source bs) b' new)
              ])
              bs ih,
        ))
        (λ old. (inl (is_old t.to_tier table b old), ih))

  no_new_rows :
      (table source : List (Row N)) (bs : List Bucket)
      → All (Reached t.to_tier table) bs
      → new_rows db s t table source bs ≡ []
  unfolding new_rows
  no_new_rows table source [] h = refl
  no_new_rows table source (b ∷ bs) h =
      rw (not_newer t.to_tier table b h.0) (no_new_rows table source bs h.1)

  -- What is added is in the target tier, so it is no source of the same pass.
  new_rows-unselected :
      (table source : List (Row N)) (cutoff : ℕ) (bs : List Bucket)
      → t.from_tier ≢ t.to_tier
      → selected t.from_tier cutoff (new_rows db s t table source bs) ≡ []
  unfolding new_rows selected rolled
  new_rows-unselected table source cutoff [] apart = refl
  new_rows-unselected table source cutoff (b ∷ bs) apart =
      let ih = new_rows-unselected table source cutoff bs apart in
      if_rule (λ (rows : List (Row N)). selected t.from_tier cutoff rows ≡ [])
        (is_newer (last_bucket t.to_tier b.key table) b.start)
        {x = rolled db s t source b ∷ new_rows db s t table source bs}
        (λ _. ground (arith, ih, eq_iff t.to_tier t.from_tier)) (λ _. ih)

  selected-append :
      (tier : String) (cutoff : ℕ) (xs ys : List (Row N))
      → selected tier cutoff (xs ++ ys) ≡ selected tier cutoff xs ++ selected tier cutoff ys
  unfolding selected
  selected-append tier cutoff [] ys = refl
  selected-append tier cutoff (x ∷ xs) ys = ground (arith, selected-append tier cutoff xs ys)

saved_or_not :
    {N : Type 0} (db : Database N) (rows : List (Row N))
    → ((all_saved db rows ≡ true) × All (λ r. db.save_ok r ≡ true) rows)
      ⊎ (all_saved db rows ≡ false) × Any (λ r. db.save_ok r ≡ false) rows
unfolding all_saved
saved_or_not db [] = inl (refl, tt)
saved_or_not db (r ∷ rows) = elim (Bool-cases (db.save_ok r)) [
  | inr failed ↦ inr (ground arith, inl failed)
  | inl saved ↦ elim (saved_or_not db rows) [
    | inl (all, each) ↦ inl (ground arith, (saved, each))
    | inr (some_failed, one) ↦ inr (ground arith, inr one)
  ]
]

-- Two passes, each with its own answers of the database.
module _ {N : Type 0} (db again : Database N) (s : Series) (t : Tier) where
  pass_twice :
      (now : ℕ) (table new : List (Row N))
      → t.from_tier ≢ t.to_tier
      → new
        ≡ new_rows db s t table
            (selected t.from_tier (truncate now t.width) table)
            (buckets t.width (selected t.from_tier (truncate now t.width) table))
      → aggregate_tier again s t now (table ++ new) ≡ table ++ new
  unfolding aggregate_tier commit all_saved
  pass_twice now table new apart e =
      let cutoff = truncate now t.width in
      let source = selected t.from_tier cutoff table in
      let bs = buckets t.width source in
      let same : selected t.from_tier cutoff (table ++ new) ≡ source =
        selected-append db s t t.from_tier cutoff table new
        ∙ ap (λ rows. source ++ selected t.from_tier cutoff rows) e
        ∙ ap (λ rows. source ++ rows) (new_rows-unselected db s t table source cutoff bs apart)
        ∙ append-nil source in
      let reached : All (Reached t.to_tier (table ++ new)) bs =
        All-map
          (λ b. Reached t.to_tier table b ⊎ Reached t.to_tier (new_rows db s t table source bs) b) _
          (λ b h. elim h [
            | inl old ↦ Reached-append_left t.to_tier table new b old
            | inr fresh ↦
                Reached-append_right t.to_tier table new b
                  (subst (λ rows. Reached t.to_tier rows b) (sym e) fresh)
          ])
          bs (new_rows-Reached db s t table source bs) in
      ap
        (λ src.
          commit again (table ++ new) (new_rows again s t (table ++ new) src (buckets t.width src)))
        same
      ∙ ap (commit again (table ++ new)) (no_new_rows again s t (table ++ new) source bs reached)
      ∙ append-nil (table ++ new)

  -- The rows that a pass makes, a pass, and another one after it.
  abbrev pub ComesToOne : ℕ → List (Row N) → Type 0
  ComesToOne now table =
      let new =
        new_rows db s t table (selected t.from_tier (truncate now t.width) table)
          (buckets t.width (selected t.from_tier (truncate now t.width) table)) in
      let first = aggregate_tier db s t now table in
      let second = aggregate_tier again s t now first in
      (All (λ r. db.save_ok r ≡ true) new × (first ≡ table ++ new) × (second ≡ first))
      ⊎ (Any (λ r. db.save_ok r ≡ false) new
          × (first ≡ table)
          × (second ≡ aggregate_tier again s t now table))

  -- Two passes over a tier at the same time come to one, whatever the database could store in each, if
  -- the tier is not its own target: the second adds nothing after a first one that was stored, and after
  -- one that was not, the table is as before and the second does what it would have done alone.
  pub aggregate_tier_idempotent :
      (now : ℕ) (table : List (Row N)) → t.from_tier ≢ t.to_tier → ComesToOne now table
  unfolding aggregate_tier commit
  aggregate_tier_idempotent now table apart =
      let source = selected t.from_tier (truncate now t.width) table in
      let new = new_rows db s t table source (buckets t.width source) in
      elim (saved_or_not db new) [
        | inl (saved, each) ↦
            let first : aggregate_tier db s t now table ≡ table ++ new =
              ap (λ ok. if ok then table ++ new else table) saved in
            inl (
              each,
              first,
              ap (aggregate_tier again s t now) first
                  ∙ pass_twice now table new apart refl
                  ∙ sym first,
            )
        | inr (failed, one) ↦
            let first : aggregate_tier db s t now table ≡ table =
              ap (λ ok. if ok then table ++ new else table) failed in
            inr (one, first, ap (aggregate_tier again s t now) first)
      ]
