-- ===== src/Hub/Signature.antt =====
-- hub/internal/agenthub/hub.go, verifySignature. Base64, the reading of a number and Ed25519 are
-- parameters; times are nanoseconds. time.Since stops at the ends of its range, far beyond the skew.
pub mod Replay
use breakerbox.Prelude.{
  ℕ, ◌*◌, ◌+◌, ◌≤◌, String, Bool, true, false, not, ◌||◌, List, Option, none, some, ◌==◌,
  if◌then◌else◌, length, ◌≡◌, refl, arith,
}
use breakerbox.Prelude.Int.{ℤ, pos, negsuc, ltb_ℤ, ◌-ℤ◌, ◌*ℤ◌, ◌≤ℤ◌, ◌+ℤ◌, +ℤ_parts, -ℤ_parts}
use Prim.Native.String.{◌++◌ as str_append}

pub record Crypto : Type 0 where
  pub decode : String → Option (List ℕ)  -- base64
  pub parse_int : String → Option ℤ
  pub verify : List ℕ → String → List ℕ → Bool  -- Ed25519: key, message, signature

pub data AuthError : Type 0 where
  bad_key bad_signature_text bad_timestamp skewed mismatch : AuthError

-- maxClockSkew
abbrev pub max_clock_skew : ℤ
max_clock_skew = pos 300_000_000_000

abbrev pub ms : ℤ
ms = pos 1_000_000

-- time.Since(time.UnixMilli(…))
unfoldable pub age : ℕ → ℤ → ℤ
unfolding ◌-ℤ◌ ◌*ℤ◌
age now ts_millis = pos now -ℤ ts_millis *ℤ ms

-- `age > maxClockSkew || age < -maxClockSkew`
unfoldable pub is_skewed : ℤ → Bool
unfolding ◌-ℤ◌
is_skewed a = ltb_ℤ max_clock_skew a || ltb_ℤ a (pos 0 -ℤ max_clock_skew)

unfoldable pub checked_message : Crypto → ℕ → String → List ℕ → List ℕ → Option ℤ → Option AuthError
unfolding age is_skewed
checked_message c now message key sig none = some bad_timestamp
checked_message c now message key sig (some ts) =
    if is_skewed (age now ts)
    then some skewed
    else if not (c.verify key message sig)
    then some mismatch
    else none

unfoldable pub checked_signature :
    Crypto → ℕ → String → String → List ℕ → Option (List ℕ) → Option AuthError
unfolding checked_message
checked_signature c now message ts_header key none = some bad_signature_text
checked_signature c now message ts_header key (some sig) =
    checked_message c now message key sig (c.parse_int ts_header)

unfoldable pub checked_key :
    Crypto → ℕ → String → String → String → Option (List ℕ) → Option AuthError
unfolding checked_signature
checked_key c now message ts_header sig none = some bad_key
checked_key c now message ts_header sig (some key) =
    if not (length key == 32)
    then some bad_key
    else checked_signature c now message ts_header key (c.decode sig)

-- verifySignature; none is success
unfoldable pub verify_signature : Crypto → ℕ → String → String → String → String → Option AuthError
unfolding checked_key
verify_signature c now public_key system_id ts_header sig =
    checked_key c now (str_append system_id (str_append "|" ts_header)) ts_header sig
      (c.decode public_key)
