-- ===== src/Hub/Enroll.antt =====
-- hub/internal/enroll: minting and redeeming one-time tokens; and verifySignature of
-- hub/internal/agenthub/hub.go. Hashes, base64 and Ed25519 are parameters. Redeeming runs without a
-- break here: the source reads the token's record before its transaction begins.
pub mod Once
use breakerbox.Prelude.{
  ℕ, ◌+◌, ◌-◌, ◌*◌, String, Bool, true, false, not, ◌&&◌, ◌||◌, List, [], ◌∷◌, Option, none, some,
  ◌==◌, ltb, if◌then◌else◌, str_eq, length, take,
}
use breakerbox.Prelude.Int.{ℤ, pos, negsuc, ltb_ℤ, ◌-ℤ◌}
use breakerbox.Prelude.Dict
use breakerbox.Prelude.Dict.{Dict}
use breakerbox.Hub.State.{HubError, System, SystemStatus, invalid, save_failed, unauthorized}
use Prim.Native.String.{◌++◌ as str_append}

-- A record of enroll_tokens; its key in the table is token_hash.
pub record Token : Type 0 where
  pub expires_at : ℕ
  pub used_at : Option ℕ
  pub created_by : String

pub record Enrollment : Type 0 where
  pub tokens : Dict Token
  pub systems : Dict System

-- tokenTTL, in milliseconds
abbrev pub token_ttl : ℕ
token_ttl = 30 * 60_000

-- What PocketBase and the standard library answer.
pub record EnrollEnv : Type 0 where
  pub now : ℕ
  pub new_id : String
  pub token_saved : Token → Bool
  pub system_saved : System → Bool
  pub hash : String → String  -- hashToken
  pub trim : String → String  -- strings.TrimSpace
  pub key_bytes : String → Option (List ℕ)  -- base64
  pub hex : List ℕ → String

-- POST /api/bb/enroll-tokens for a user, with the new token's text
unfoldable pub mint : EnrollEnv → Enrollment → Option String → String → Enrollment × Option HubError
mint e s none token = (s, some unauthorized)
mint e s (some user) token =
    let t : Token = record { expires_at = e.now + token_ttl; used_at = none; created_by = user } in
    if e.token_saved t
    then (record s { tokens = Dict.put s.tokens (e.hash token) t }, none)
    else (s, some save_failed)

pub record EnrollRequest : Type 0 where
  pub token : String
  pub public_key : String
  pub name : String

-- `err != nil || len(pub) != ed25519.PublicKeySize`, negated
unfoldable pub is_key : Option (List ℕ) → Bool
is_key none = false
is_key (some bytes) = length bytes == 32

unfoldable pub first_bytes : Option (List ℕ) → List ℕ
first_bytes none = []
first_bytes (some bytes) = take 4 bytes

unfoldable pub is_used : Token → Bool
is_used t = elim t.used_at [ none ↦ false | some at ↦ true ]

unfoldable pub new_system : EnrollEnv → EnrollRequest → System
unfolding first_bytes
new_system e req = record {
  name =
      if str_eq req.name ""
      then str_append "system-" (e.hex (first_bytes (e.key_bytes req.public_key)))
      else req.name;
  public_key = req.public_key;
  status = SystemStatus.offline;
  last_seen = 0;
  agent_version = "";
  os = "";
  arch = "";
  hostname = "";
  capabilities = [];
}

-- the transaction: the new system and the used token, or neither
unfoldable pub redeem_found :
    EnrollEnv → Enrollment → EnrollRequest → String → Option Token → Enrollment × Option HubError
unfolding is_used new_system
redeem_found e s req key none = (s, some unauthorized)
redeem_found e s req key (some t) =
    if is_used t
    then (s, some unauthorized)
    else if ltb t.expires_at e.now
    then (s, some unauthorized)
    else (let used : Token = record t { used_at = some e.now } in
        if e.system_saved (new_system e req) && e.token_saved used
        then (
          record {
            tokens = Dict.put s.tokens key used;
            systems = Dict.put s.systems e.new_id (new_system e req);
          },
          none,
        )
        else (s, some save_failed))

-- POST /api/bb/enroll
unfoldable pub redeem : EnrollEnv → Enrollment → EnrollRequest → Enrollment × Option HubError
unfolding redeem_found is_key
redeem e s req =
    let token = e.trim req.token in
    if str_eq token "" || str_eq req.public_key ""
    then (s, some invalid)
    else if not (is_key (e.key_bytes req.public_key))
    then (s, some invalid)
    else redeem_found e s req (e.hash token) (Dict.get s.tokens (e.hash token))
