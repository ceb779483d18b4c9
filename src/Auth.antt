-- ===== src/Auth.antt =====
-- The sessions of the web interface: the functions of packages/webui/lib/auth.ts that build a
-- session. The calls of better-auth are left out.
pub mod Claims
pub mod Groups
pub mod Realm
mod Tests
use mizumi.Prelude.{
  ℕ, zero, suc, ◌%◌, ◌-◌, Bool, true, false, not, ◌&&◌, List, [], ◌∷◌, ◌++◌, map, replicate, filter,
  any, Option, none, some, length, ◌==◌, if◌then◌else◌,
}
use mizumi.Text.{Text, codes, is_empty, text_eq, split, starts_with}
use mizumi.Text.Trim.{trim}
use mizumi.Auth.Claims.{IdTokenClaims, read_token_claims, normalize_groups}

abbrev slash : ℕ
slash = b'/'

-- The variables of the environment.
pub record Environment : Type 0 where
  pub better_auth_url : Option Text
  pub next_public_app_url : Option Text
  pub keycloak_issuer : Option Text
  pub keycloak_realm : Option Text
  pub keycloak_public_base_url : Option Text
  pub keycloak_internal_base_url : Option Text

-- `value ?? otherwise`
abbrev nullish_or {ℓ} : {A : Type ℓ} → Option A → A → A
nullish_or none otherwise = otherwise
nullish_or (some a) otherwise = a

abbrev nullish_some {ℓ} : {A : Type ℓ} → Option A → Option A → Option A
nullish_some none otherwise = otherwise
nullish_some (some a) otherwise = some a

abbrev default_realm : Text
default_realm = codes "sovico"

abbrev realms : Text
realms = codes "/realms/"

abbrev auth_route_base : Text
auth_route_base = codes "/api/auth"

-- `replace(/\/$/, "")`
unfoldable pub without_slash : Text → Text
without_slash [] = []
without_slash (c ∷ []) = if c == slash then [] else c ∷ []
without_slash (c ∷ d ∷ s) = c ∷ without_slash (d ∷ s)

-- `endsWith`
unfoldable pub ends_with : Text → Text → Bool
unfolding text_eq
ends_with [] p = text_eq [] p
ends_with (c ∷ s) p = let rest = ends_with s p in if text_eq (c ∷ s) p then true else rest

unfoldable pub get_base_url : Environment → Text
unfolding ends_with without_slash
get_base_url e =
    let configured =
      nullish_or e.better_auth_url
        (nullish_or e.next_public_app_url (codes "http://localhost:3000")) in
    if ends_with configured auth_route_base
    then configured
    else without_slash configured ++ auth_route_base

unfoldable pub get_keycloak_realm : Environment → Text
get_keycloak_realm e = nullish_or e.keycloak_realm default_realm

unfoldable pub get_keycloak_public_base_url : Environment → Text
get_keycloak_public_base_url e =
    nullish_or e.keycloak_public_base_url (codes "http://127.0.0.1:8083")

unfoldable pub get_keycloak_internal_base_url : Environment → Text
unfolding get_keycloak_public_base_url
get_keycloak_internal_base_url e =
    nullish_or e.keycloak_internal_base_url (get_keycloak_public_base_url e)

unfoldable pub get_keycloak_issuer : Environment → Text
unfolding get_keycloak_public_base_url get_keycloak_realm
get_keycloak_issuer e =
    nullish_or e.keycloak_issuer
      (get_keycloak_public_base_url e ++ (realms ++ get_keycloak_realm e))

unfoldable pub get_keycloak_endpoint : Environment → Text → Text → Text
unfolding without_slash get_keycloak_realm
get_keycloak_endpoint e base path =
    without_slash base
    ++ (realms ++ (get_keycloak_realm e ++ (codes "/protocol/openid-connect/" ++ path)))

-- `([^/]+)$` at the start of the text.
abbrev pub is_last_part : Text → Bool
is_last_part s = not (is_empty s) && not (any (λ c. c == slash) s)

abbrev pub behind_realms : Text → Text
behind_realms (_ ∷ _ ∷ _ ∷ _ ∷ _ ∷ _ ∷ _ ∷ _ ∷ s) = s
behind_realms s = []

-- `issuer.match(/\/realms\/([^/]+)$/)?.[1]`, at the first position that matches.
unfoldable pub match_realm : Text → Option Text
unfolding starts_with
match_realm [] = none
match_realm (c ∷ s) =
    let rest = match_realm s in
    if starts_with (c ∷ s) realms && is_last_part (behind_realms (c ∷ s))
    then some (behind_realms (c ∷ s))
    else rest

unfoldable pub get_realm_from_issuer : Text → Text
unfolding match_realm
get_realm_from_issuer issuer = nullish_or (match_realm issuer) default_realm

-- The parts of AppSession that the tokens decide.
pub record AppSession : Type 0 where
  pub name : Text
  pub email : Text
  pub realm : Text
  pub sub : Option Text
  pub preferred_username : Option Text
  pub groups : Option (List Text)
  pub id_token : Option Text
  pub access_token : Option Text

pub record Tokens : Type 0 where
  pub id_token : Option Text
  pub access_token : Option Text

abbrev no_claims : IdTokenClaims
no_claims = record {
  sub = none;
  email = none;
  preferred_username = none;
  name = none;
  groups = none;
}

module _ (e : Environment) (decode : Text → Text) (parse : Text → Option IdTokenClaims) where
  abbrev claims_or_none : Option Text → IdTokenClaims
  claims_or_none token = nullish_or (read_token_claims decode parse token) no_claims

  -- `name` and `email` are the user's.
  unfoldable pub build_app_session : Text → Text → Option Text → Option Text → AppSession
  unfolding read_token_claims normalize_groups get_realm_from_issuer get_keycloak_issuer
  build_app_session name email id_token access_token =
      let claims = claims_or_none id_token in
      record {
        name = nullish_or claims.name name;
        email = nullish_or claims.email email;
        realm = get_realm_from_issuer (get_keycloak_issuer e);
        sub = claims.sub;
        preferred_username = claims.preferred_username;
        groups = normalize_groups claims.groups;
        id_token = id_token;
        access_token = access_token;
      }

  -- `tokens` is none where getAccessToken throws.
  unfoldable pub hydrate_session_tokens : Option AppSession → Option Tokens → Option AppSession
  unfolding read_token_claims normalize_groups get_realm_from_issuer get_keycloak_issuer
  hydrate_session_tokens none tokens = none
  hydrate_session_tokens (some session) none = some session
  hydrate_session_tokens (some session) (some tokens) =
      let claims = claims_or_none tokens.id_token in
      some (record session {
        realm = get_realm_from_issuer (get_keycloak_issuer e);
        sub = nullish_some claims.sub session.sub;
        preferred_username = nullish_some claims.preferred_username session.preferred_username;
        groups = nullish_some (normalize_groups claims.groups) session.groups;
        id_token = nullish_some tokens.id_token session.id_token;
        access_token = nullish_some tokens.access_token session.access_token;
      })
