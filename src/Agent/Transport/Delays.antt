-- ===== src/Agent/Transport/Delays.antt =====
-- The reconnect delays of Backoff.Next.
use breakerbox.Prelude.{
  ℕ, suc, ◌*◌, ◌/◌, ◌^◌, ◌≤◌, ◌<◌, min, false, List, [], ◌∷◌, ◌≡◌, refl, arith, ltb, subst, sym, ap,
  ◌∙◌, leb, Bool-cases, inl, inr,
}
use native.Mathlib.Nat.{mod-lt, pow-le-pow_right}
use breakerbox.Agent.Transport.{jittered, next_delay, reset_attempt, second}

-- The delay without jitter, capped at a minute.
abbrev pub full_delay : ℕ → ℕ
full_delay attempt = min (second * 2 ^ attempt) (60 * second)

-- From three quarters of the delay to less than the whole of it.
abbrev pub IsJittered : ℕ → ℕ → Type 0
IsJittered d delay = (d / 4 * 3 ≤ delay) × (delay < d)

jittered-IsJittered : (now d : ℕ) → 4 ≤ d → IsJittered d (jittered now d)
unfolding jittered
jittered-IsJittered now d big =
    let positive : 0 < d / 2 = omega arith in
    let below = mod-lt now positive in (omega arith, omega (arith, below))

powers_positive : (k : ℕ) → 1 ≤ 2 ^ k
powers_positive k = pow-le-pow_right {n = 2} (omega arith) {i = 0} {j = k} (omega arith)

next_delay-IsJittered :
    (now attempt : ℕ)
    → attempt ≤ 6
    → ((next_delay now attempt).0 ≡ min (suc attempt) 6)
      × IsJittered (full_delay attempt) (next_delay now attempt).1
unfolding next_delay
next_delay-IsJittered now attempt low = elim (Bool-cases (leb attempt 5)) [
  | inl early ↦
      let small : 2 ^ attempt ≤ 2 ^ 5 =
        pow-le-pow_right {n = 2} (omega arith) {i = attempt} {j = 5} (ground arith) in
      let some_time = powers_positive attempt in
      let whole : full_delay attempt ≡ second * 2 ^ attempt = omega (arith, small) in
      let branch : ltb (60 * second) (second * 2 ^ attempt) ≡ false = ground (arith, small) in
      rw (branch, whole)
        (
          ground (arith, early),
          jittered-IsJittered now (second * 2 ^ attempt) (omega (arith, some_time)),
        )
  | inr late ↦
      let last : 6 ≡ attempt = ground (arith, late) in
      subst
        (λ a.
          ((next_delay now a).0 ≡ min (suc a) 6) × IsJittered (full_delay a) (next_delay now a).1)
        last (refl, jittered-IsJittered now (60 * second) (omega arith))
]

-- The delays of successive failures, each at the wall clock's reading.
pub delays : ℕ → List ℕ → List ℕ
delays attempt [] = []
delays attempt (now ∷ rest) =
    let (attempt', delay) = next_delay now attempt in delay ∷ delays attempt' rest

-- Each delay belongs to its attempt, counted from the reset.
abbrev pub AreJittered : ℕ → List ℕ → Type 0
AreJittered k [] = Unit
AreJittered k (delay ∷ rest) = IsJittered (full_delay k) delay × AreJittered (suc k) rest

-- After a reset, the k-th delay in a row is from three quarters of D to less than D, where D is 2^k
-- seconds and a minute at most.
same_delay : (k attempt : ℕ) → attempt ≡ min k 6 → full_delay attempt ≡ full_delay k
same_delay k attempt e = elim (Bool-cases (leb k 6)) [
  | inl early ↦ let same : attempt ≡ k = ground (arith, e, early) in ap full_delay same
  | inr late ↦
      let grown : 2 ^ 6 ≤ 2 ^ k =
        pow-le-pow_right {n = 2} (omega arith) {i = 6} {j = k} (ground (arith, late)) in
      let last : attempt ≡ 6 = ground (arith, e, late) in
      let capped : full_delay k ≡ full_delay 6 = omega (arith, grown) in
      ap full_delay last ∙ sym capped
]

delays_from :
    (clock : List ℕ) (k attempt : ℕ) → attempt ≡ min k 6 → AreJittered k (delays attempt clock)
unfolding delays
delays_from [] k attempt e = tt
delays_from (now ∷ rest) k attempt e =
    let (next, good) = next_delay-IsJittered now attempt (omega (arith, e)) in
    (
      subst (λ d. IsJittered d (next_delay now attempt).1) (same_delay k attempt e) good,
      delays_from rest (suc k) (next_delay now attempt).0 (omega (arith, next, e)),
    )

pub delays-AreJittered : (clock : List ℕ) → AreJittered 0 (delays reset_attempt clock)
delays-AreJittered clock = delays_from clock 0 0 refl
