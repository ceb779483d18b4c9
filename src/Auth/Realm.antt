-- ===== src/Auth/Realm.antt =====
-- The realm of a session is that of the issuer.
use mizumi.Prelude.{
  ℕ, ◌≡◌, refl, ap, ◌∙◌, Bool, true, false, ◌&&◌, [], ◌∷◌, ◌++◌, any, Option, none, some, arith,
  ◌==◌, if◌then◌else◌,
}
use mathlib.Core.Option
use mizumi.Text.{Text, starts_with}
use mizumi.Auth.Claims.{IdTokenClaims}
use mizumi.Auth.{
  slash, realms, is_last_part, behind_realms, match_realm, get_realm_from_issuer, Environment,
  AppSession, Tokens, build_app_session, hydrate_session_tokens, get_keycloak_issuer,
  get_keycloak_realm, get_keycloak_public_base_url,
}

abbrev has_slash : Text → Bool
has_slash = any (λ c. c == slash)

has_slash-append : (s t : Text) → has_slash t ≡ true → has_slash (s ++ t) ≡ true
has_slash-append [] t h = h
has_slash-append (c ∷ s) t h = ground (arith, has_slash-append s t h)

-- Behind a "/realms/" that begins further left, the last slash of this one is still there.
slash_left : (c : ℕ) (s t : Text) → has_slash (behind_realms (c ∷ s ++ (realms ++ t))) ≡ true
slash_left c [] t = refl
slash_left c (a0 ∷ []) t = refl
slash_left c (a0 ∷ a1 ∷ []) t = refl
slash_left c (a0 ∷ a1 ∷ a2 ∷ []) t = refl
slash_left c (a0 ∷ a1 ∷ a2 ∷ a3 ∷ []) t = refl
slash_left c (a0 ∷ a1 ∷ a2 ∷ a3 ∷ a4 ∷ []) t = refl
slash_left c (a0 ∷ a1 ∷ a2 ∷ a3 ∷ a4 ∷ a5 ∷ []) t = refl
slash_left c (_ ∷ _ ∷ _ ∷ _ ∷ _ ∷ _ ∷ _ ∷ s) t = has_slash-append s (realms ++ t) refl

abbrev if_last_part : Bool → Text → Option Text → Option Text
if_last_part b t rest = if b && is_last_part t then some t else rest

if_last_part-slash :
    (b : Bool) (t : Text) (rest : Option Text) → has_slash t ≡ true → if_last_part b t rest ≡ rest
if_last_part-slash false t rest h = refl
if_last_part-slash true [] rest h = refl
if_last_part-slash true (c ∷ t) rest h = rw h refl

-- A "/realms/" further left does not match: the realm behind it has a slash.
match_realm-left :
    (base realm : Text)
    → is_last_part realm ≡ true
    → match_realm (base ++ (realms ++ realm)) ≡ some realm
unfolding match_realm
match_realm-left [] realm h = rw h refl
match_realm-left (c ∷ base) realm h =
    if_last_part-slash (starts_with (c ∷ base ++ (realms ++ realm)) realms)
      (behind_realms (c ∷ base ++ (realms ++ realm))) (match_realm (base ++ (realms ++ realm)))
      (slash_left c base realm)
    ∙ match_realm-left base realm h

module _ (e : Environment) (decode : Text → Text) (parse : Text → Option IdTokenClaims) where
  -- Where no issuer is configured and the configured realm is not empty and has no slash, a new
  -- session has that realm, whatever its token, and a session that gets new tokens has it too.
  pub app_session-realm :
      (name email : Text) (id_token access_token : Option Text) (session : AppSession)
      (tokens : Tokens)
      → e.keycloak_issuer ≡ none
      → is_last_part (get_keycloak_realm e) ≡ true
      → ((build_app_session e decode parse name email id_token access_token).realm
          ≡ get_keycloak_realm e)
        × (Option.map
              (λ s. s.realm)
              (hydrate_session_tokens e decode parse (some session) (some tokens))
            ≡ some (get_keycloak_realm e))
  unfolding build_app_session hydrate_session_tokens get_realm_from_issuer get_keycloak_issuer
  app_session-realm name email id_token access_token session tokens none_set h =
      (same, ap some same)
    where
      same : get_realm_from_issuer (get_keycloak_issuer e) ≡ get_keycloak_realm e
      same =
          rw (none_set, match_realm-left (get_keycloak_public_base_url e) (get_keycloak_realm e) h)
            refl
