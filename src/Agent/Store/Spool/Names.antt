-- ===== src/Agent/Store/Spool/Names.antt =====
-- The names of spool files are ordered by their times.
use breakerbox.Prelude.{
  ℕ, zero, suc, ◌+◌, ◌*◌, ◌/◌, ◌%◌, ◌≤◌, ◌<◌, true, false, List, [], ◌∷◌, ◌++◌, ◌≡◌, refl, ◌∙◌,
  arith, ltb, Bool-cases, ltb→lt, inl, inr,
}
use mathlib.Core.List.{append_assoc}
use breakerbox.Agent.Store.Spool.{decimal, extension, file_name, is_before, is_hidden, same_name}

-- The numbers of `suc k` digits lie from `power k` up to `power (suc k)`.
power : ℕ → ℕ
power zero = 1
power (suc k) = 10 * power k

is_before-append : (p a b : List ℕ) → is_before (p ++ a) (p ++ b) ≡ is_before a b
unfolding is_before
is_before-append [] a b = refl
is_before-append (c ∷ p) a b = ground (arith, is_before-append p a b)

decimal_step : (k n : ℕ) → 10 ≤ n → decimal (suc k) n ≡ decimal k (n / 10) ++ (48 + n % 10) ∷ []
unfolding decimal
decimal_step k n h = ground arith

is_before-digit : (c d : ℕ) (a b : List ℕ) → c < d → is_before (c ∷ a) (d ∷ b) ≡ true
unfolding is_before
is_before-digit c d a b h = ground arith

power_pos : (k : ℕ) → 1 ≤ power k
unfolding power
power_pos zero = omega arith
power_pos (suc k) = omega (arith, power_pos k)

decimal_digit : (n : ℕ) → n < 10 → decimal 1 n ≡ (48 + n) ∷ []
unfolding decimal
decimal_digit n h = ground arith

-- Two numbers of as many digits are in the order of their texts, whatever follows.
is_before-decimal :
    (k m n : ℕ) (a b : List ℕ)
    → power k ≤ m
    → m < n
    → n < power (suc k)
    → is_before (decimal (suc k) m ++ a) (decimal (suc k) n ++ b) ≡ true
unfolding power
is_before-decimal zero m n a b lo lt hi =
    rw (decimal_digit m (omega arith), decimal_digit n hi)
      (is_before-digit (48 + m) (48 + n) a b (omega arith))
is_before-decimal (suc k) m n a b lo lt hi =
    let big : 10 ≤ m = omega (arith, power_pos k) in
    let front = λ (x : ℕ). decimal (suc k) (x / 10) in
    let last = λ (x : ℕ). 48 + x % 10 in
    rw
      (
        decimal_step (suc k) m big,
        decimal_step (suc k) n (omega arith),
        append_assoc (front m) (last m ∷ []) a,
        append_assoc (front n) (last n ∷ []) b,
      )
      (elim (Bool-cases (ltb (m / 10) (n / 10))) [
        | inl less ↦
            is_before-decimal k (m / 10) (n / 10) (last m ∷ a) (last n ∷ b) (omega arith)
              (ltb→lt (m / 10) (n / 10) less) (omega arith)
        | inr more ↦
            let same : m / 10 ≡ n / 10 = ground arith in
            rw same (
              is_before-append (front n) (last m ∷ a) (last n ∷ b)
              ∙ is_before-digit (last m) (last n) a b (omega arith))
      ])

-- A time in nanoseconds of 19 digits, from 2001 to 2286.
abbrev pub IsTime : ℕ → Type 0
IsTime t = (1_000_000_000_000_000_000 ≤ t) × (t < 10_000_000_000_000_000_000)

pub file_name_order :
    (s t : ℕ) (a b : List ℕ)
    → IsTime s
    → IsTime t
    → s < t
    → is_before (file_name s a) (file_name t b) ≡ true
unfolding file_name power
file_name_order s t a b hs ht lt =
    is_before-decimal 18 s t (45 ∷ (a ++ extension)) (45 ∷ (b ++ extension)) hs.0 lt ht.1

-- A number's text does not begin with a point.
is_hidden-decimal : (k n : ℕ) (a : List ℕ) → is_hidden (decimal (suc k) n ++ a) ≡ false
unfolding is_hidden decimal
is_hidden-decimal zero n a = ground arith
is_hidden-decimal (suc k) n a = elim (Bool-cases (ltb n 10)) [
  | inl small ↦ rw small (ground arith)
  | inr big ↦
      rw (big, append_assoc (decimal (suc k) (n / 10)) ((48 + n % 10) ∷ []) a)
        (is_hidden-decimal k (n / 10) ((48 + n % 10) ∷ a))
]

pub is_hidden-file_name : (t : ℕ) (verb : List ℕ) → is_hidden (file_name t verb) ≡ false
unfolding file_name
is_hidden-file_name t verb = is_hidden-decimal 18 t (45 ∷ (verb ++ extension))

-- A name that comes before another is not the same.
pub same_name-is_before : (a b : List ℕ) → is_before a b ≡ true → same_name a b ≡ false
unfolding is_before same_name
same_name-is_before [] [] h = cc
same_name-is_before [] (d ∷ b) h = refl
same_name-is_before (c ∷ a) [] h = refl
same_name-is_before (c ∷ a) (d ∷ b) h = ground (arith, same_name-is_before a b)
