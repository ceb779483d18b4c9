-- ===== src/Auth/Claims.antt =====
-- The claims of an ID token: packages/webui/lib/auth/jwt.ts. Buffer and JSON.parse are parameters.
use mizumi.Prelude.{
  ℕ, ◌%◌, ◌-◌, not, List, [], ◌∷◌, ◌++◌, map, replicate, filter, Option, none, some, length, ◌==◌,
  if◌then◌else◌,
}
use mizumi.Text.{Text, is_empty, split}
use mizumi.Text.Trim.{trim}

-- The claim `groups`: an array, or one string.
pub data GroupsClaim : Type 0 where
  many : List Text → GroupsClaim
  one : Text → GroupsClaim

pub record IdTokenClaims : Type 0 where
  pub sub : Option Text
  pub email : Option Text
  pub preferred_username : Option Text
  pub name : Option Text
  pub groups : Option GroupsClaim

-- `replace(/-/g, "+").replace(/_/g, "/")`
abbrev to_base64 : ℕ → ℕ
to_base64 c = if c == b'-' then b'+' else if c == b'_' then b'/' else c

-- The text that Buffer.from gets.
unfoldable pub pad_base64 : Text → Text
pad_base64 value =
    let normalized = map to_base64 value in
    let padding = length normalized % 4 in
    if padding == 0 then normalized else normalized ++ replicate (4 - padding) b'='

-- `const [, payload] = token.split(".")`
abbrev second : List Text → Option Text
second [] = none
second (a ∷ []) = none
second (a ∷ b ∷ rest) = some b

-- `decode` is Buffer.from(_, "base64").toString("utf8"), `parse` is JSON.parse, none where it throws.
module _ (decode : Text → Text) (parse : Text → Option IdTokenClaims) where
  abbrev claims_of : Option Text → Option IdTokenClaims
  claims_of none = none
  claims_of (some []) = none
  claims_of (some (c ∷ payload)) = parse (decode (pad_base64 (c ∷ payload)))

  unfoldable pub read_token_claims : Option Text → Option IdTokenClaims
  unfolding split pad_base64
  read_token_claims none = none
  read_token_claims (some []) = none
  read_token_claims (some (c ∷ token)) = claims_of (second (split b'.' (c ∷ token)))

abbrev pub some_unless_nil : List Text → Option (List Text)
some_unless_nil [] = none
some_unless_nil (g ∷ gs) = some (g ∷ gs)

abbrev pub normalized_values : List Text → Option (List Text)
normalized_values values = some_unless_nil (filter (λ t. not (is_empty t)) (map trim values))

unfoldable pub normalize_groups : Option GroupsClaim → Option (List Text)
unfolding trim
normalize_groups none = none
normalize_groups (some (one [])) = none
normalize_groups (some (one (c ∷ s))) = normalized_values ((c ∷ s) ∷ [])
normalize_groups (some (many values)) = normalized_values values
