-- ===== src/Hub/Tokens/Pricing.antt =====
-- hub/internal/tokens/pricing.go: the price table, its lookup by model name, and the cost of a row.
-- `N` is Go's float64, whose operations are parameters. The table comes decoded from JSON.
use Prim.Native.Char.{Char, code}
use breakerbox.Prelude.{
  ℕ, zero, suc, ◌-◌, String, Bool, true, false, List, [], ◌∷◌, Option, none, some, ◌==◌, ◌||◌, ltb,
  if◌then◌else◌, length, take,
}
use breakerbox.Prelude.Int.{ℤ}
use breakerbox.Prelude.Dict
use breakerbox.Prelude.Dict.{Dict}
use breakerbox.Protocol.{TokenUsageRow}
use Prim.Native.String.{◌++◌ as str_append}

pub record ModelPrice (N : Type 0) : Type 0 where
  pub input : N
  pub output : N
  pub cache_creation : N
  pub cache_read : N

-- What the source uses of float64.
pub record Floats (N : Type 0) : Type 0 where
  pub of_int : ℤ → N
  pub plus : N → N → N
  pub times : N → N → N
  pub less : N → N → Bool
  pub nil : N

-- one more character at the front of the first part
unfoldable pub push : Char → List String → List String
push c [] = String.◌∷◌ c "" ∷ []
push c (x ∷ xs) = String.◌∷◌ c x ∷ xs

-- strings.Split(model, "-")
unfoldable pub split_dash : String → List String
unfolding push
split_dash String.[] = "" ∷ []
split_dash (String.◌∷◌ c s) =
    let rest = split_dash s in if code c == 45 then "" ∷ rest else push c rest

-- strings.Join(parts, "-")
unfoldable pub join_dash : List String → String
join_dash [] = ""
join_dash (x ∷ []) = x
join_dash (x ∷ y ∷ rest) = str_append x (String.◌∷◌ "-" (join_dash (y ∷ rest)))

module _ {N : Type 0} where
  -- the loop of lookup, from `i` down to 2
  unfoldable pub lookup_prefix : Dict (ModelPrice N) → List String → ℕ → Option (ModelPrice N)
  lookup_prefix models parts zero = none
  lookup_prefix models parts (suc n) =
      let shorter = lookup_prefix models parts n in
      if ltb (suc n) 2 then none else elim (Dict.get models (join_dash (take (suc n) parts))) [
        | none ↦ shorter
        | some p ↦ some p
      ]

  unfoldable pub lookup : Dict (ModelPrice N) → String → Option (ModelPrice N)
  unfolding lookup_prefix split_dash
  lookup models model = elim (Dict.get models model) [
    | none ↦ lookup_prefix models (split_dash model) (length (split_dash model) - 1)
    | some p ↦ some p
  ]

  module _ (floats : Floats N) where
    -- the four products and their sum, from the left
    unfoldable pub price_row : ModelPrice N → TokenUsageRow → N
    price_row p row =
        floats.plus
          (floats.plus
            (floats.plus (floats.times (floats.of_int row.input_tokens) p.input)
              (floats.times (floats.of_int row.output_tokens) p.output))
            (floats.times (floats.of_int row.cache_creation_tokens) p.cache_creation))
          (floats.times (floats.of_int row.cache_read_tokens) p.cache_read)

    unfoldable pub cost_at : Option (ModelPrice N) → TokenUsageRow → N × Bool
    unfolding price_row
    cost_at none row = (floats.nil, false)
    cost_at (some p) row = (price_row p row, true)

    unfoldable pub cost : Dict (ModelPrice N) → TokenUsageRow → N × Bool
    unfolding lookup cost_at
    cost models row = cost_at (lookup models row.model) row

    -- `p.Input > 0 || p.Output > 0`
    unfoldable pub has_price : ModelPrice N → Bool
    has_price p = floats.less floats.nil p.input || floats.less floats.nil p.output

    unfoldable pub cleaned : Dict (ModelPrice N) → Dict (ModelPrice N)
    unfolding has_price
    cleaned [] = []
    cleaned ((name, p) ∷ raw) =
        let rest = cleaned raw in if has_price p then (name, p) ∷ rest else rest

    -- parse: the new table, or an error that leaves the old one
    unfoldable pub parse : Option (Dict (ModelPrice N)) → Option (Dict (ModelPrice N))
    unfolding cleaned
    parse none = none
    parse (some raw) = elim (cleaned raw) [ [] ↦ none | x ∷ xs ↦ some (x ∷ xs) ]
