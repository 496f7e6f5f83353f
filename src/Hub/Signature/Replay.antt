-- ===== src/Hub/Signature/Replay.antt =====
-- How long a signature of an agent is accepted.
use breakerbox.Prelude.{
  ℕ, ◌+◌, ◌≤◌, String, false, List, Option, none, some, ◌≡◌, arith, Bool-cases, inl, inr, length,
  ◌==◌,
}
use breakerbox.Prelude.Int.{ℤ, pos, ◌-ℤ◌, ◌*ℤ◌, ◌+ℤ◌, ◌≤ℤ◌, +ℤ_parts, -ℤ_parts}
use breakerbox.Hub.Signature.{
  Crypto, age, checked_key, checked_message, checked_signature, is_skewed, max_clock_skew, ms,
  verify_signature,
}

abbrev Within : ℤ → Type 0
Within a = (a ≤ℤ max_clock_skew) × (pos 0 ≤ℤ a +ℤ max_clock_skew)

not_skewed : (a : ℤ) → is_skewed a ≡ false → Within a
unfolding is_skewed
not_skewed a h =
    let low = -ℤ_parts (pos 0) max_clock_skew in
    let sum = +ℤ_parts a max_clock_skew in ground (arith, h, low, sum)

accepted_age :
    (c : Crypto) (now : ℕ) (message : String) (key sig : List ℕ) (ts : ℤ)
    → checked_message c now message key sig (some ts) ≡ none
    → Within (age now ts)
unfolding checked_message
accepted_age c now message key sig ts h = elim (Bool-cases (is_skewed (age now ts))) [
  | inl skew ↦ absurd (ground (arith, h, skew))
  | inr fine ↦ not_skewed (age now ts) fine
]

close_ages :
    (now later : ℕ) (ts : ℤ)
    → Within (age now ts)
    → Within (age later ts)
    → later ≤ now + 600_000_000_000
unfolding age
close_ages now later ts a b =
    let p = -ℤ_parts (pos now) (ts *ℤ ms) in
    let q = -ℤ_parts (pos later) (ts *ℤ ms) in
    let r = +ℤ_parts (pos now -ℤ ts *ℤ ms) max_clock_skew in omega (arith, a.1, b.0, p, q, r)

message_window :
    (c : Crypto) (now later : ℕ) (message : String) (key sig : List ℕ) (o : Option ℤ)
    → checked_message c now message key sig o ≡ none
    → checked_message c later message key sig o ≡ none
    → later ≤ now + 600_000_000_000
unfolding checked_message
message_window c now later message key sig none h k = absurd cc
message_window c now later message key sig (some ts) h k =
    close_ages now later ts (accepted_age c now message key sig ts h)
      (accepted_age c later message key sig ts k)

signature_window :
    (c : Crypto) (now later : ℕ) (message ts : String) (key : List ℕ) (o : Option (List ℕ))
    → checked_signature c now message ts key o ≡ none
    → checked_signature c later message ts key o ≡ none
    → later ≤ now + 600_000_000_000
unfolding checked_signature
signature_window c now later message ts key none h k = absurd cc
signature_window c now later message ts key (some sig) h k =
    message_window c now later message key sig (c.parse_int ts) h k

key_window :
    (c : Crypto) (now later : ℕ) (message ts sig : String) (o : Option (List ℕ))
    → checked_key c now message ts sig o ≡ none
    → checked_key c later message ts sig o ≡ none
    → later ≤ now + 600_000_000_000
unfolding checked_key
key_window c now later message ts sig none h k = absurd cc
key_window c now later message ts sig (some key) h k = elim (Bool-cases (length key == 32)) [
  | inl fits ↦
      signature_window c now later message ts key (c.decode sig) (ground (arith, h, fits))
        (ground (arith, k, fits))
  | inr wrong ↦ absurd (ground (arith, h, wrong))
]

-- The headers of one connection are accepted again later only within ten minutes (twice the allowed
-- skew) of a time at which they were accepted.
pub replay_window :
    (c : Crypto) (now later : ℕ) (public_key system_id ts sig : String)
    → verify_signature c now public_key system_id ts sig ≡ none
    → verify_signature c later public_key system_id ts sig ≡ none
    → later ≤ now + 600_000_000_000
unfolding verify_signature
replay_window c now later public_key system_id ts sig h k =
    key_window c now later _ ts sig (c.decode public_key) h k
