-- ===== src/Hub/Tokens/Prefixes.antt =====
-- What the lookup of pricing.go finds.
use breakerbox.Prelude.{
  ℕ, zero, suc, ◌-◌, ◌≤◌, ◌<◌, String, List, [], ◌∷◌, Option, none, some, ◌≡◌, ◌≢◌, refl, arith,
  ltb, length, take, ap, ◌∙◌, inl, inr, subst, sym, ◌==◌, if_rule, ◌⊎◌, Bool-cases,
}
use breakerbox.Prelude.Dict
use breakerbox.Prelude.Dict.{Dict}
use Prim.Native.Char.{Char, code}
use Prim.Native.String.append
use text.Mathlib.TextEquality.{codes_equal}
use breakerbox.Hub.Tokens.Pricing.{ModelPrice, push, split_dash, join_dash, lookup_prefix, lookup}

module _ {N : Type 0} (models : Dict (ModelPrice N)) (parts : List String) where
  -- The price of the first `i` parts.
  abbrev pub price_of : ℕ → Option (ModelPrice N)
  price_of i = Dict.get models (join_dash (take i parts))

  -- The answer of a search of the prefixes with 2 to `n` parts: the longest one that has a price.
  abbrev pub IsLongest : ℕ → Option (ModelPrice N) → Type 0
  IsLongest n none = (i : ℕ) → 2 ≤ i → i ≤ n → price_of i ≡ none
  IsLongest n (some p) =
      (i : ℕ) × (2 ≤ i)
      × (i ≤ n)
      × (price_of i ≡ some p)
      × ((j : ℕ) → i < j → j ≤ n → price_of j ≡ none)

  -- A property of the numbers up to n + 1, from those up to n and the last.
  up_to : (P : ℕ → Type 0) (n : ℕ) → P (suc n) → ((i : ℕ) → i ≤ n → P i) → (i : ℕ) → i ≤ suc n → P i
  up_to P n last below i high = elim (Bool-cases (i == suc n)) [
    | inl same ↦ let e : suc n ≡ i = ground arith in subst P e last
    | inr other ↦ below i (ground arith)
  ]

  longer-IsLongest :
      (n : ℕ) (here shorter : Option (ModelPrice N))
      → 2 ≤ suc n
      → price_of (suc n) ≡ here
      → IsLongest n shorter
      → IsLongest (suc n) (elim here [ none ↦ shorter | some p ↦ some p ])
  longer-IsLongest n (some p) shorter two q h =
      (suc n, two, omega arith, q, λ j above high. absurd (omega arith))
  longer-IsLongest n none none two q h = λ i low high.
      up_to (λ i. 2 ≤ i → price_of i ≡ none) n (λ _. q) (λ i below low. h i low below) i high low
  longer-IsLongest n none (some p) two q (i, low, high, there, above) = (
    i,
    low,
    omega arith,
    there,
    λ j more upper.
        up_to (λ j. i < j → price_of j ≡ none) n (λ _. q) (λ j below more. above j more below) j
          upper more,
  )

  lookup_prefix-IsLongest : (n : ℕ) → IsLongest n (lookup_prefix models parts n)
  unfolding lookup_prefix
  lookup_prefix-IsLongest zero = λ i low high. absurd (omega arith)
  lookup_prefix-IsLongest (suc n) =
      if_rule (IsLongest (suc n)) (ltb (suc n) 2) (λ short. λ i low high. absurd (ground arith))
        (λ enough.
          longer-IsLongest n (price_of (suc n)) (lookup_prefix models parts n) (ground arith) refl
            (lookup_prefix-IsLongest n))

-- What `lookup` promises for a model: the price of its exact name; else that of the longest prefix of
-- at least two dash-separated parts that has one; and no price only if none of these has one.
module _ {N : Type 0} where
  abbrev pub IsLookup : Dict (ModelPrice N) → String → Option (ModelPrice N) → Type 0
  IsLookup models model found =
      ((found ≡ Dict.get models model) × (Dict.get models model ≢ none))
      ⊎ ((Dict.get models model ≡ none)
          × IsLongest models (split_dash model) (length (split_dash model) - 1) found)

  found-IsLookup :
      (models : Dict (ModelPrice N)) (model : String) (o : Option (ModelPrice N))
      → Dict.get models model ≡ o
      → IsLookup models model (elim o [
        | none ↦ lookup_prefix models (split_dash model) (length (split_dash model) - 1)
        | some p ↦ some p
      ])
  found-IsLookup models model none q =
      inr (q, lookup_prefix-IsLongest models (split_dash model) (length (split_dash model) - 1))
  found-IsLookup models model (some p) q = inl (sym q, λ absent. ground arith)

  -- The lookup finds the price of the exact name, or else that of the longest prefix of at least two
  -- dash-separated parts (and not the whole name) that has a price.
  pub lookup-IsLookup :
      (models : Dict (ModelPrice N)) (model : String) → IsLookup models model (lookup models model)
  unfolding lookup
  lookup-IsLookup models model = found-IsLookup models model (Dict.get models model) refl

join_dash-push :
    (c : Char) (parts : List String)
    → parts ≢ []
    → join_dash (push c parts) ≡ String.◌∷◌ c (join_dash parts)
unfolding join_dash push
join_dash-push c [] h = absurd (h refl)
join_dash-push c (x ∷ []) h = refl
join_dash-push c (x ∷ y ∷ rest) h = append.cons c x _

join_dash-empty :
    (parts : List String) → parts ≢ [] → join_dash ("" ∷ parts) ≡ String.◌∷◌ "-" (join_dash parts)
unfolding join_dash
join_dash-empty [] h = absurd (h refl)
join_dash-empty (x ∷ rest) h = append.nil _

push_some : (c : Char) (parts : List String) → push c parts ≢ []
unfolding push
push_some c [] h = cc
push_some c (x ∷ xs) h = cc

split_dash_some : (s : String) → split_dash s ≢ []
unfolding split_dash
split_dash_some String.[] = λ h. cc
split_dash_some (String.◌∷◌ c s) =
    if_rule (λ parts. parts ≢ []) (code c == 45) (λ _ h. cc) (λ _. push_some c (split_dash s))

-- Splitting a name at its dashes and joining all the parts gives the name back.
pub join_dash-split_dash : (s : String) → join_dash (split_dash s) ≡ s
unfolding split_dash join_dash
join_dash-split_dash String.[] = refl
join_dash-split_dash (String.◌∷◌ c s) =
    let rest = ap (String.◌∷◌ c) (join_dash-split_dash s) in
    if_rule (λ parts. join_dash parts ≡ String.◌∷◌ c s) (code c == 45)
      (λ dash.
        join_dash-empty (split_dash s) (split_dash_some s)
        ∙ ap (λ d. String.◌∷◌ d (join_dash (split_dash s))) (sym (codes_equal c "-" (ground arith)))
        ∙ rest)
      (λ _. join_dash-push c (split_dash s) (split_dash_some s) ∙ rest)
