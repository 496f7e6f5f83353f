-- ===== src/Hub/Metrics/Downsample.antt =====
-- hub/internal/metrics/downsample.go: the tiers, aggregateTier, enforceRetention and Run. A collection
-- is a list of rows in the order of their insertion; times are milliseconds since the epoch, in UTC,
-- to which all bucket widths are aligned. The SQL is written out; the average and the maximum of a
-- column are the database's.
use breakerbox.Prelude.{
  ℕ, ◌-◌, ◌*◌, ◌%◌, max, String, Bool, true, false, List, [], ◌∷◌, ◌++◌, Option, none, some, ◌==◌,
  ◌&&◌, ◌||◌, not, ltb, leb, map, if◌then◌else◌, str_eq,
}

pub record Tier : Type 0 where
  pub from_tier : String
  pub to_tier : String  -- "" for the last tier
  pub width : ℕ
  pub retain : ℕ

abbrev pub hour_ms : ℕ
hour_ms = 3_600_000

abbrev pub tiers : List Tier
tiers =
    record { from_tier = "1m"; to_tier = "10m"; width = 600_000; retain = 48 * hour_ms }
    ∷ record { from_tier = "10m"; to_tier = "1h"; width = hour_ms; retain = 10 * 24 * hour_ms }
    ∷ record { from_tier = "1h"; to_tier = "1d"; width = 24 * hour_ms; retain = 30 * 24 * hour_ms }
    ∷ record { from_tier = "1d"; to_tier = ""; width = 0; retain = 2 * 365 * 24 * hour_ms }
    ∷ []

pub record Series : Type 0 where
  pub collection : String
  pub avg_fields : List String
  pub max_fields : List String

abbrev pub all_series : List Series
all_series =
    record {
      collection = "system_metrics";
      avg_fields = "cpu" ∷ "mem_pct" ∷ "mem_used" ∷ "disk_pct" ∷ [];
      max_fields = "net_sent" ∷ "net_recv" ∷ [];
    }
    ∷ record { collection = "app_metrics"; avg_fields = "cpu" ∷ "mem_rss" ∷ []; max_fields = [] }
    ∷ []

-- A row: its key (the system or the app), its tier (`type`), and its number fields.
pub record Row (N : Type 0) : Type 0 where
  pub key : String
  pub tier : String
  pub created : ℕ
  pub field : String → N

pub record Bucket : Type 0 where
  pub key : String
  pub start : ℕ

-- bucketExpr, and Time.Truncate
unfoldable pub truncate : ℕ → ℕ → ℕ
truncate t width = t - t % width

unfoldable pub has_field : List String → String → Bool
has_field [] f = false
has_field (x ∷ xs) f = str_eq x f || has_field xs f

unfoldable pub same_bucket : Bucket → Bucket → Bool
same_bucket a b = str_eq a.key b.key && (a.start == b.start)

unfoldable pub known_bucket : Bucket → List Bucket → Bool
unfolding same_bucket
known_bucket b [] = false
known_bucket b (c ∷ cs) = same_bucket b c || known_bucket b cs

-- ORDER BY bucket
unfoldable pub insert_bucket : Bucket → List Bucket → List Bucket
insert_bucket b [] = b ∷ []
insert_bucket b (c ∷ cs) =
    let rest = insert_bucket b cs in if ltb b.start c.start then b ∷ c ∷ cs else c ∷ rest

-- MAX(created)
unfoldable pub later : ℕ → Option ℕ → ℕ
later t none = t
later t (some u) = max t u

-- `lastBucket, ok := last[key]; ok && bucket <= lastBucket`, negated
unfoldable pub is_newer : Option ℕ → ℕ → Bool
is_newer none bucket = true
is_newer (some last) bucket = not (leb bucket last)

-- SQLite's aggregates over the numbers of a column, and what PocketBase stores.
pub record Database (N : Type 0) : Type 0 where
  pub avg : List N → N
  pub most : List N → N
  pub absent : N
  pub save_ok : Row N → Bool

module _ {N : Type 0} where
  -- WHERE type = … AND created < …
  unfoldable pub selected : String → ℕ → List (Row N) → List (Row N)
  selected tier cutoff [] = []
  selected tier cutoff (r ∷ rs) =
      let rest = selected tier cutoff rs in
      if str_eq r.tier tier && ltb r.created cutoff then r ∷ rest else rest

  unfoldable pub bucket_of : ℕ → Row N → Bucket
  unfolding truncate
  bucket_of width r = record { key = r.key; start = truncate r.created width }

  -- GROUP BY key, bucket ORDER BY bucket
  unfoldable pub buckets : ℕ → List (Row N) → List Bucket
  unfolding bucket_of known_bucket insert_bucket
  buckets width [] = []
  buckets width (r ∷ rs) =
      let rest = buckets width rs in
      if known_bucket (bucket_of width r) rest then rest else insert_bucket (bucket_of width r) rest

  unfoldable pub members : ℕ → Bucket → List (Row N) → List (Row N)
  unfolding same_bucket bucket_of
  members width b [] = []
  members width b (r ∷ rs) =
      let rest = members width b rs in if same_bucket (bucket_of width r) b then r ∷ rest else rest

  -- SELECT key, MAX(created) WHERE type = … GROUP BY key, and the lookup of a key
  unfoldable pub last_bucket : String → String → List (Row N) → Option ℕ
  unfolding later
  last_bucket tier key [] = none
  last_bucket tier key (r ∷ rs) =
      let rest = last_bucket tier key rs in
      if str_eq r.tier tier && str_eq r.key key then some (later r.created rest) else rest

  module _ (db : Database N) where
    -- the record of one bucket
    unfoldable pub rolled : Series → Tier → List (Row N) → Bucket → Row N
    unfolding has_field members
    rolled s t source b =
        let group = members t.width b source in
        record {
          key = b.key;
          tier = t.to_tier;
          created = b.start;
          field = λ f.
              if has_field s.avg_fields f
              then db.avg (map (λ r. r.field f) group)
              else if has_field s.max_fields f
              then db.most (map (λ r. r.field f) group)
              else db.absent;
        }

    -- the loop of the transaction
    unfoldable pub new_rows :
        Series → Tier → List (Row N) → List (Row N) → List Bucket → List (Row N)
    unfolding is_newer last_bucket rolled
    new_rows s t table source [] = []
    new_rows s t table source (b ∷ bs) =
        let rest = new_rows s t table source bs in
        if is_newer (last_bucket t.to_tier b.key table) b.start
        then rolled s t source b ∷ rest
        else rest

    unfoldable pub all_saved : List (Row N) → Bool
    all_saved [] = true
    all_saved (r ∷ rs) = db.save_ok r && all_saved rs

    unfoldable pub commit : List (Row N) → List (Row N) → List (Row N)
    unfolding all_saved
    commit table rows = if all_saved rows then table ++ rows else table

    unfoldable pub aggregate_tier : Series → Tier → ℕ → List (Row N) → List (Row N)
    unfolding new_rows commit selected buckets truncate
    aggregate_tier s t now table =
        let source = selected t.from_tier (truncate now t.width) table in
        commit table (new_rows s t table source (buckets t.width source))

    -- DELETE … WHERE type = … AND created < …
    unfoldable pub enforce_retention : String → ℕ → List (Row N) → List (Row N)
    enforce_retention tier before [] = []
    enforce_retention tier before (r ∷ rs) =
        let rest = enforce_retention tier before rs in
        if str_eq r.tier tier && ltb r.created before then rest else r ∷ rest

    unfoldable pub run_tiers : Series → ℕ → List Tier → List (Row N) → List (Row N)
    unfolding aggregate_tier enforce_retention
    run_tiers s now [] table = table
    run_tiers s now (t ∷ ts) table =
        let rolled_up = if str_eq t.to_tier "" then table else aggregate_tier s t now table in
        run_tiers s now ts (enforce_retention t.from_tier (now - t.retain) rolled_up)
