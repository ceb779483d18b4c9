-- ===== src/Auth/Tests.antt =====
-- Sessions with concrete tokens.
use mizumi.Prelude.{◌≡◌, refl, [], ◌∷◌, Option, none, some, All}
use mathlib.Core.Option
use mizumi.Text.{Text, codes}
use mizumi.Auth.Claims.{many, one, IdTokenClaims, normalize_groups, pad_base64, read_token_claims}
use mizumi.Auth.{
  Environment, get_base_url, get_keycloak_issuer, get_keycloak_endpoint, get_keycloak_realm,
  get_realm_from_issuer, AppSession, Tokens, no_claims, build_app_session, hydrate_session_tokens,
}
use mizumi.Auth.Groups.{IsGroup, normalize_groups-IsGroup}
use mizumi.Auth.Realm.{app_session-realm}

abbrev local_environment : Environment
local_environment = record {
  better_auth_url = none;
  next_public_app_url = some (codes "http://localhost:4000/");
  keycloak_issuer = none;
  keycloak_realm = some (codes "lake");
  keycloak_public_base_url = none;
  keycloak_internal_base_url = none;
}

-- A payload that names its own groups, for any text that is not empty.
abbrev read_groups : Text → Option IdTokenClaims
read_groups [] = none
read_groups (c ∷ s) =
    some (record no_claims { name = some (codes "Ann"); groups = some (one (c ∷ s)) })

abbrev id : Text → Text
id t = t

base_test : get_base_url local_environment ≡ codes "http://localhost:4000/api/auth"
unfolding get_base_url
base_test = refl

issuer_test : get_keycloak_issuer local_environment ≡ codes "http://127.0.0.1:8083/realms/lake"
unfolding get_keycloak_issuer
issuer_test = refl

endpoint_test :
    get_keycloak_endpoint local_environment (codes "http://kc/") (codes "token")
    ≡ codes "http://kc/realms/lake/protocol/openid-connect/token"
unfolding get_keycloak_endpoint
endpoint_test = refl

nested_realm_test : get_realm_from_issuer (codes "http://kc/realms/a/realms/b") ≡ codes "b"
unfolding get_realm_from_issuer
nested_realm_test = refl

no_realm_test : get_realm_from_issuer (codes "http://kc/realms/") ≡ codes "sovico"
unfolding get_realm_from_issuer
no_realm_test = refl

padded_test : pad_base64 (codes "a-_bcd") ≡ codes "a+/bcd=="
unfolding pad_base64
padded_test = refl

token_test :
    read_token_claims id read_groups (some (codes "head.abcd.sign"))
    ≡ some (record no_claims { name = some (codes "Ann"); groups = some (one (codes "abcd")) })
unfolding read_token_claims
token_test = refl

bare_token_test : read_token_claims id read_groups (some (codes "head")) ≡ none
unfolding read_token_claims
bare_token_test = refl

normalize_groups-IsGroup_example :
    All IsGroup (codes "ops" ∷ codes "dev" ∷ [])
    × (normalize_groups (some (many (codes "ops" ∷ codes "dev" ∷ [])))
        ≡ some (codes "ops" ∷ codes "dev" ∷ []))
unfolding normalize_groups
normalize_groups-IsGroup_example =
    normalize_groups-IsGroup (some (many (codes " ops" ∷ codes "  " ∷ codes "dev " ∷ [])))
      (codes "ops" ∷ codes "dev" ∷ []) refl

abbrev old_session : AppSession
old_session = record {
  name = codes "Ann";
  email = codes "ann@lake";
  realm = codes "sovico";
  sub = none;
  preferred_username = none;
  groups = none;
  id_token = none;
  access_token = none;
}

abbrev new_tokens : Tokens
new_tokens = record { id_token = some (codes "head.abcd.sign"); access_token = none }

app_session-realm_example :
    ((build_app_session local_environment id read_groups
        (codes "Ann")
        (codes "ann@lake")
        (some (codes "head.abcd.sign"))
        none).realm
      ≡ get_keycloak_realm local_environment)
    × (Option.map
          (λ s. s.realm)
          (hydrate_session_tokens local_environment id read_groups
            (some old_session)
            (some new_tokens))
        ≡ some (get_keycloak_realm local_environment))
unfolding get_keycloak_realm
app_session-realm_example =
    app_session-realm local_environment id read_groups (codes "Ann") (codes "ann@lake")
      (some (codes "head.abcd.sign")) none old_session new_tokens refl refl
