-- ===== src/Hub/Enroll/Once.antt =====
-- A token enrolls at most one system.
use breakerbox.Prelude.{
  ℕ, suc, ◌≤◌, String, Bool, true, false, not, ◌&&◌, ◌||◌, List, [], ◌∷◌, Option, none, some, ◌≡◌,
  refl, sym, ap, ◌∙◌, arith, inl, inr, ◌⊎◌, Bool-cases, if_rule, if◌then◌else◌, str_eq, eq_iff, ltb,
  subst,
}
use breakerbox.Prelude.Dict
use breakerbox.Prelude.Dict.{Dict, get-put, get-put_self}
use breakerbox.Hub.State.{HubError}
use breakerbox.Hub.Enroll.{
  EnrollEnv, EnrollRequest, Enrollment, Token, is_key, is_used, new_system, redeem, redeem_found,
}

-- The token's record says that it was used.
abbrev pub Used : String → Enrollment → Type 0
Used key s = (t : Token) × (Dict.get s.tokens key ≡ some t) × (is_used t ≡ true)

-- What a request does: nothing, or it uses a token that was not used.
abbrev Redeemed : String → Enrollment → Enrollment × Option HubError → Type 0
Redeemed key s (s1, some err) = s1 ≡ s
Redeemed key s (s1, none) =
    Used key s1
    × (Used key s → ⊥)
    × ((j : String) → str_eq key j ≡ false → Dict.get s1.tokens j ≡ Dict.get s.tokens j)

redeem_found-Redeemed :
    (e : EnrollEnv) (s : Enrollment) (req : EnrollRequest) (key : String) (o : Option Token)
    → Dict.get s.tokens key ≡ o
    → Redeemed key s (redeem_found e s req key o)
unfolding redeem_found is_used
redeem_found-Redeemed e s req key none q = refl
redeem_found-Redeemed e s req key (some t) q =
    let used : Token = record t { used_at = some e.now } in
    let s1 : Enrollment = record {
      tokens = Dict.put s.tokens key used;
      systems = Dict.put s.systems e.new_id (new_system e req);
    } in
    if_rule (Redeemed key s) (is_used t) (λ _. refl)
      (λ unused.
        if_rule (Redeemed key s) (ltb t.expires_at e.now) (λ _. refl)
          (λ _.
            if_rule (Redeemed key s) (e.system_saved (new_system e req) && e.token_saved used)
              {x = (s1, none)}
              (λ _. (
                (used, get-put_self s.tokens key used, refl),
                λ (u, there, yes_used).
                    let same : u ≡ t = ground (arith, there, q) in
                    absurd (ground (arith, unused, yes_used, ap is_used same)),
                λ j other. ground (arith, other, get-put s.tokens key j used),
              ))
              (λ _. refl)))

-- The key of a request.
abbrev pub key_of : EnrollEnv → EnrollRequest → String
key_of e req = e.hash (e.trim req.token)

redeem-Redeemed :
    (e : EnrollEnv) (s : Enrollment) (req : EnrollRequest)
    → Redeemed (key_of e req) s (redeem e s req)
unfolding redeem
redeem-Redeemed e s req =
    let key = key_of e req in
    if_rule (Redeemed key s) (str_eq (e.trim req.token) "" || str_eq req.public_key "") (λ _. refl)
      (λ _.
        if_rule (Redeemed key s) (not (is_key (e.key_bytes req.public_key))) (λ _. refl)
          (λ _. redeem_found-Redeemed e s req key (Dict.get s.tokens key) refl))

-- The requests one after the other, and how many of them enrolled a system with this key's token.
pub redeem_all : Enrollment → List (EnrollEnv × EnrollRequest) → Enrollment
redeem_all s [] = s
redeem_all s ((e, req) ∷ rest) = redeem_all (redeem e s req).0 rest

abbrev pub is_success : Option HubError → Bool
is_success none = true
is_success (some err) = false

pub successes : String → Enrollment → List (EnrollEnv × EnrollRequest) → ℕ
successes key s [] = 0
successes key s ((e, req) ∷ rest) =
    let later = successes key (redeem e s req).0 rest in
    if str_eq (key_of e req) key && is_success (redeem e s req).1 then suc later else later

-- One request: the key's token is used before and after without a success, or becomes used by the
-- request's success, or is as it was.
abbrev Step : String → Enrollment → String → Enrollment × Option HubError → Type 0
Step key s k (s1, o) =
    ((str_eq k key && is_success o) ≡ false × (Used key s → Used key s1))
    ⊎ ((str_eq k key && is_success o) ≡ true × Used key s1 × (Used key s → ⊥))

classified :
    (key k : String) (s : Enrollment) (r : Enrollment × Option HubError)
    → Redeemed k s r
    → Step key s k r
classified key k s (s1, some err) same = inl (ground arith, subst (Used key) (sym same))
classified key k s (s1, none) (used, fresh, others) = elim (Bool-cases (str_eq k key)) [
  | inl same ↦
      let e = (eq_iff k key).0 same in
      inr (ground (arith, same), subst (λ x. Used x s1) e used, subst (λ x. Used x s → ⊥) e fresh)
  | inr other ↦
      inl (ground (arith, other), λ (t, there, yes_used). (t, others key other ∙ there, yes_used))
]

-- However often a token is redeemed, in whatever requests one after the other, it enrolls at most one
-- system, and none once it was used.
pub redeem_once :
    (key : String) (requests : List (EnrollEnv × EnrollRequest)) (s : Enrollment)
    → (successes key s requests ≤ 1) × (Used key s → successes key s requests ≡ 0)
unfolding successes
redeem_once key [] s = (omega arith, λ _. refl)
redeem_once key ((e, req) ∷ rest) s =
    let (bound, never) = redeem_once key rest (redeem e s req).0 in
    elim (classified key (key_of e req) s (redeem e s req) (redeem-Redeemed e s req)) [
      | inl (no_success, kept) ↦
          (ground (arith, no_success, bound), λ u. ground (arith, no_success, never (kept u)))
      | inr (success, used, fresh) ↦ (ground (arith, success, never used), λ u. absurd (fresh u))
    ]
