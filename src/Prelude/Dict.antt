-- ===== src/Prelude/Dict.antt =====
-- Go maps with string keys, as association lists with one entry for a key.
use Prim.Native.String.{String}
use mathlib.Core.Path.{◌≡◌, refl, subst}
use mathlib.Core.Bool.{Bool, not}
use mathlib.Core.Option.{Option, none, some}
use mathlib.Core.List.{List, [], ◌∷◌, ◌++◌}
use native.Mathlib.Omega.{arith}
use text.Mathlib.Text.{◌==◌}
use text.Mathlib.TextEquality.{eq_iff}
use Prim.Native.Nat.{ℕ, zero, suc}
use breakerbox.Prelude.Lists.{take}
use breakerbox.Prelude.Tests.{if◌then◌else◌, if_rule, Bool-cases}
use mathlib.Core.Logic.{inl, inr}

abbrev pub Dict {ℓ} : Type ℓ → Type ℓ
Dict V = List (String × V)

module _ {ℓ} {V : Type ℓ} where
  -- v, ok := m[k]
  unfoldable pub get : Dict V → String → Option V
  get [] k = none
  get ((j, v) ∷ m) k = if j == k then some v else get m k

  -- m[k] = v
  unfoldable pub put : Dict V → String → V → Dict V
  put [] k v = (k, v) ∷ []
  put ((j, w) ∷ m) k v = if j == k then (k, v) ∷ m else (j, w) ∷ put m k v

  -- the entries whose key passes the test
  unfoldable pub retain : (String → Bool) → Dict V → Dict V
  retain f [] = []
  retain f ((j, v) ∷ m) = let rest = retain f m in if f j then (j, v) ∷ rest else rest

  -- delete(m, k)
  unfoldable pub remove : Dict V → String → Dict V
  unfolding retain
  remove m k = retain (λ j. not (j == k)) m

  pub get-put :
      (m : Dict V) (k j : String) (v : V) → get (put m k v) j ≡ (if k == j then some v else get m j)
  unfolding get put
  get-put [] k j v = refl
  get-put ((i, w) ∷ m) k j v = ground (arith, eq_iff k j, eq_iff i k, eq_iff i j, get-put m k j v)

  pub get-retain :
      (f : String → Bool) (m : Dict V) (k : String)
      → get (retain f m) k ≡ (if f k then get m k else none)
  unfolding get retain
  get-retain f [] k = ground arith
  get-retain f ((j, v) ∷ m) k = ground (arith, eq_iff j k, get-retain f m k)

  pub get-remove :
      (m : Dict V) (k j : String) → get (remove m k) j ≡ (if k == j then none else get m j)
  unfolding remove
  get-remove m k j = ground (arith, get-retain (λ i. not (i == k)) m j, eq_iff j k, eq_iff k j)

module _ {ℓ} {V : Type ℓ} where
  pub get-put_self : (m : Dict V) (k : String) (v : V) → get (put m k v) k ≡ some v
  get-put_self m k v = ground (arith, get-put m k k v, eq_iff k k)

  pub get-remove_self : (m : Dict V) (k : String) → get (remove m k) k ≡ none
  get-remove_self m k = ground (arith, get-remove m k k, eq_iff k k)

-- A property of all entries.
module _ {ℓ κ} {V : Type ℓ} (P : String → V → Type κ) where
  abbrev pub AllEntries : Dict V → Type κ
  AllEntries [] = Unit
  AllEntries ((k, v) ∷ m) = P k v × AllEntries m

  pub AllEntries-get : (m : Dict V) (k : String) (v : V) → get m k ≡ some v → AllEntries m → P k v
  unfolding get
  AllEntries-get [] k v e h = cc
  AllEntries-get ((j, w) ∷ m) k v e h = elim (Bool-cases (j == k)) [
    | inl hit ↦
        let stored : w ≡ v = ground arith in
        subst (λ x. P x v) ((eq_iff j k).0 hit) (subst (λ y. P j y) stored h.0)
    | inr miss ↦ AllEntries-get m k v (ground arith) h.1
  ]

  pub AllEntries-put :
      (m : Dict V) (k : String) (v : V) → P k v → AllEntries m → AllEntries (put m k v)
  unfolding put
  AllEntries-put [] k v p h = (p, tt)
  AllEntries-put ((j, w) ∷ m) k v p h =
      if_rule AllEntries (j == k) (λ _. (p, h.1)) (λ _. (h.0, AllEntries-put m k v p h.1))

  pub AllEntries-retain : (f : String → Bool) (m : Dict V) → AllEntries m → AllEntries (retain f m)
  unfolding retain
  AllEntries-retain f [] h = h
  AllEntries-retain f ((j, v) ∷ m) h =
      if_rule AllEntries (f j) (λ _. (h.0, AllEntries-retain f m h.1))
        (λ _. AllEntries-retain f m h.1)

  pub AllEntries-remove : (m : Dict V) (k : String) → AllEntries m → AllEntries (remove m k)
  unfolding remove
  AllEntries-remove m k h = AllEntries-retain (λ j. not (j == k)) m h

module _ {ℓ κ} {V : Type ℓ} (P : String → V → Type κ) where
  pub AllEntries-append :
      (xs ys : Dict V) → AllEntries P xs → AllEntries P ys → AllEntries P (xs ++ ys)
  AllEntries-append [] ys hx hy = hy
  AllEntries-append ((k, v) ∷ xs) ys hx hy = (hx.0, AllEntries-append xs ys hx.1 hy)

  pub AllEntries-take : (n : ℕ) (xs : Dict V) → AllEntries P xs → AllEntries P (take n xs)
  AllEntries-take zero xs h = tt
  AllEntries-take (suc n) [] h = h
  AllEntries-take (suc n) ((k, v) ∷ xs) h = (h.0, AllEntries-take n xs h.1)

pub AllEntries-map {ℓ κ} :
    {V : Type ℓ} (P Q : String → V → Type κ)
    → ((k : String) (v : V) → P k v → Q k v)
    → (m : Dict V) → AllEntries P m
    → AllEntries Q m
AllEntries-map P Q f [] h = h
AllEntries-map P Q f ((k, v) ∷ m) h = (f k v h.0, AllEntries-map P Q f m h.1)

pub ruleset dict_laws = (get-put, get-retain, get-remove)
