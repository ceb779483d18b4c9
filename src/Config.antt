-- ===== src/Config.antt =====
-- The configuration of the synthetic data generators: packages/synthetic/src/config.ts. A thrown
-- Error is the result `error` with its message.
pub mod Entry
pub mod Reload
mod Tests
pub mod Valid
use mizumi.Prelude.{
  ℕ, zero, suc, Bool, true, false, not, List, [], ◌∷◌, ◌++◌, Option, none, some, ℤ, pos, negsuc,
  if◌then◌else◌,
}
use mizumi.Text.{Text, codes, is_empty, text_eq, join}
use mizumi.Text.Trim.{trim}
use mizumi.Text.Decimal.{show_ℕ}

-- A value of type unknown: `other` is a boolean, a number that is no integer, and the like.
mutual
  pub data Json : Type 0 where
    undefined : Json
    null : Json
    other : Json
    int : ℤ → Json
    str : Text → Json
    arr : Items → Json
    obj : Properties → Json

  pub data Items : Type 0 where
    nil : Items
    cons : Json → Items → Items

  pub data Properties : Type 0 where
    no_field : Properties
    field : Text → Json → Properties → Properties

pub data Result (A : Type 0) : Type 0 where
  ok : A → Result A
  error : Text → Result A

unfoldable pub bind : {A B : Type 0} → Result A → (A → Result B) → Result B
bind (ok a) f = f a
bind (error message) f = error message

pub data GeneratorConfig : Type 0 where
  vietnamese_residents : (count : ℕ) (output : Text) (seed : Option ℕ) → GeneratorConfig
  banking_transactions :
      (count : ℕ) (output residents_path : Text) (seed : Option ℕ) → GeneratorConfig
  brand_customers : (count : ℕ) (output residents_path : Text) (seed : Option ℕ) → GeneratorConfig
  flight_tickets : (count : ℕ) (output residents_path : Text) (seed : Option ℕ) → GeneratorConfig
  flight_incidents :
      (count : ℕ) (output flight_tickets_path : Text) (train_data_path : Option Text)
      (seed : Option ℕ)
      → GeneratorConfig

pub record GenerateConfig : Type 0 where
  pub seed : Option ℕ
  pub generators : List GeneratorConfig

-- The values of the field `type`.
pub data Kind : Type 0 where
  residents : Kind
  banking : Kind
  customers : Kind
  tickets : Kind
  incidents : Kind

abbrev pub kind_name : Kind → Text
kind_name residents = codes "vietnamese-residents"
kind_name banking = codes "banking-transactions"
kind_name customers = codes "brand-customers"
kind_name tickets = codes "flight-tickets"
kind_name incidents = codes "flight-incidents"

abbrev pub valid_types : List Kind
valid_types = residents ∷ banking ∷ customers ∷ tickets ∷ incidents ∷ []

-- `VALID_TYPES.has(type)`, with the type that it is.
unfoldable pub find_kind : List Kind → Text → Option Kind
find_kind [] name = none
find_kind (kind ∷ kinds) name =
    let rest = find_kind kinds name in if text_eq (kind_name kind) name then some kind else rest

unfoldable pub read_kind : Json → Option Kind
unfolding find_kind
read_kind (str name) = find_kind valid_types name
read_kind _ = none

-- `value[key]` of an object; an array has none of the keys that are read here.
unfoldable pub get_field : Text → Properties → Json
get_field key no_field = undefined
get_field key (field name value fields) =
    let rest = get_field key fields in if text_eq name key then value else rest

unfoldable pub property : Text → Json → Json
unfolding get_field
property key (obj fields) = get_field key fields
property key _ = undefined

-- `typeof value === "object" && value !== null`
unfoldable pub is_object : Json → Bool
is_object (obj fields) = true
is_object (arr items) = true
is_object _ = false

abbrev quote_name : Text → Text
quote_name name = b'"' ∷ (name ++ b'"' ∷ [])

unfoldable pub assert_string : Json → Text → Result Text
unfolding trim
assert_string (str s) name =
    if is_empty (trim s)
    then error (quote_name name ++ codes " must be a non-empty string")
    else ok s
assert_string _ name = error (quote_name name ++ codes " must be a non-empty string")

unfoldable pub assert_positive_int : Json → Text → Result ℕ
assert_positive_int (int (pos (suc n))) name = ok (suc n)
assert_positive_int _ name = error (quote_name name ++ codes " must be a positive integer")

-- `value !== undefined ? assertPositiveInt(value, name) : undefined`
unfoldable pub read_seed : Json → Text → Result (Option ℕ)
unfolding bind assert_positive_int
read_seed undefined name = ok none
read_seed value name = bind (assert_positive_int value name) (λ n. ok (some n))

-- `typeof value === "string" ? value : undefined`
unfoldable pub optional_string : Json → Option Text
optional_string (str s) = some s
optional_string _ = none

-- `assertString(e[key], …)` and the configuration with that path.
unfoldable pub with_path : (Text → GeneratorConfig) → Text → Json → Text → Result GeneratorConfig
unfolding bind assert_string property
with_path make key entry prefix =
    bind (assert_string (property key entry) (prefix ++ (b'.' ∷ key))) (λ path. ok (make path))

unfoldable pub finish_entry : Kind → Json → Text → ℕ → Text → Option ℕ → Result GeneratorConfig
unfolding with_path optional_string property
finish_entry residents entry prefix count output seed = ok (vietnamese_residents count output seed)
finish_entry banking entry prefix count output seed =
    with_path (λ path. banking_transactions count output path seed) (codes "residentsPath") entry
      prefix
finish_entry customers entry prefix count output seed =
    with_path (λ path. brand_customers count output path seed) (codes "residentsPath") entry prefix
finish_entry tickets entry prefix count output seed =
    with_path (λ path. flight_tickets count output path seed) (codes "residentsPath") entry prefix
finish_entry incidents entry prefix count output seed =
    let train = optional_string (property (codes "trainDataPath") entry) in
    with_path (λ path. flight_incidents count output path train seed) (codes "flightTicketsPath")
      entry prefix

unfoldable pub read_entry_seed : Kind → Json → Text → ℕ → Text → Result GeneratorConfig
unfolding bind read_seed finish_entry property
read_entry_seed kind entry prefix count output =
    bind (read_seed (property (codes "seed") entry) (prefix ++ codes ".seed"))
      (finish_entry kind entry prefix count output)

unfoldable pub read_output : Kind → Json → Text → ℕ → Result GeneratorConfig
unfolding bind assert_string read_entry_seed property
read_output kind entry prefix count =
    bind (assert_string (property (codes "output") entry) (prefix ++ codes ".output"))
      (read_entry_seed kind entry prefix count)

unfoldable pub validate_kind : Option Kind → Json → Text → Result GeneratorConfig
unfolding bind assert_positive_int read_output property
validate_kind none entry prefix = error (
    prefix
    ++ (codes ".type must be one of: "
        ++ join (codes ", ") (
            kind_name residents
            ∷ kind_name banking
            ∷ kind_name customers
            ∷ kind_name tickets
            ∷ kind_name incidents
            ∷ [])))
validate_kind (some kind) entry prefix =
    bind (assert_positive_int (property (codes "count") entry) (prefix ++ codes ".count"))
      (read_output kind entry prefix)

unfoldable pub validate_entry : Json → ℕ → Result GeneratorConfig
unfolding validate_kind read_kind is_object show_ℕ
validate_entry entry index =
    let prefix = codes "generators[" ++ (show_ℕ index ++ codes "]") in
    if not (is_object entry)
    then error (prefix ++ codes " must be an object")
    else validate_kind (read_kind (property (codes "type") entry)) entry prefix

abbrev pub add_entry :
    Result (List GeneratorConfig) → GeneratorConfig → Result (List GeneratorConfig)
add_entry rest g = bind rest (λ gs. ok (g ∷ gs))

-- `generators.map(…)` from the element with that index on.
unfoldable pub validate_entries : Items → ℕ → Result (List GeneratorConfig)
unfolding bind validate_entry
validate_entries nil index = ok []
validate_entries (cons entry items) index =
    let rest = validate_entries items (suc index) in
    bind (validate_entry entry index) (add_entry rest)

unfoldable pub read_generators : Json → Result (List GeneratorConfig)
unfolding validate_entries
read_generators (arr items) = validate_entries items 0
read_generators _ = error (codes "\"generators\" must be an array")

unfoldable pub load_generators : Json → Option ℕ → Result GenerateConfig
unfolding bind read_generators property
load_generators raw seed =
    bind (read_generators (property (codes "generators") raw))
      (λ generators. ok (record { seed = seed; generators = generators }))

unfoldable pub load_config : Json → Result GenerateConfig
unfolding bind is_object read_seed load_generators property
load_config raw =
    if not (is_object raw)
    then error (codes "Config must be a JSON object")
    else bind (read_seed (property (codes "seed") raw) (codes "seed")) (load_generators raw)
