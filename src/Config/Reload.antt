-- ===== src/Config/Reload.antt =====
-- loadConfig accepts its own result: a valid configuration, as the object that it is, is read back.
use mizumi.Prelude.{
  ℕ, zero, suc, ◌<◌, ◌≡◌, refl, ap, ◌∙◌, List, [], ◌∷◌, ◌++◌, Option, none, some, pos, All, arith,
}
use mizumi.Text.{Text, codes, text_eq}
use mizumi.Text.Decimal.{show_ℕ}
use mizumi.Config.{
  Json, undefined, int, str, arr, obj, Items, nil, cons, Properties, no_field, field, ok, bind,
  GeneratorConfig, vietnamese_residents, banking_transactions, brand_customers, flight_tickets,
  flight_incidents, GenerateConfig, Kind, residents, banking, customers, tickets, incidents,
  kind_name, find_kind, read_kind, get_field, property, is_object, assert_string,
  assert_positive_int, read_seed, optional_string, with_path, finish_entry, read_entry_seed,
  read_output, validate_kind, validate_entry, validate_entries, read_generators, load_generators,
  load_config,
}
use mizumi.Config.Entry.{IsFilled, IsSeed, IsValidGenerator}
use mizumi.Config.Valid.{IsValid}

abbrev seed_json : Option ℕ → Json
seed_json none = undefined
seed_json (some n) = int (pos n)

abbrev path_json : Option Text → Json
path_json none = undefined
path_json (some path) = str path

-- The fields of every generator, before those of its own.
abbrev entry_fields : Kind → ℕ → Text → Option ℕ → Properties → Json
entry_fields kind count output seed fields = obj (
    field (codes "type") (str (kind_name kind)) (
      field (codes "count") (int (pos count))
        (field (codes "output") (str output) (field (codes "seed") (seed_json seed) fields))))

abbrev residents_path : Text → Properties
residents_path path = field (codes "residentsPath") (str path) no_field

abbrev incident_paths : Text → Option Text → Properties
incident_paths path train =
    field (codes "flightTicketsPath") (str path)
      (field (codes "trainDataPath") (path_json train) no_field)

-- The configuration of a generator as an object.
abbrev pub entry_json : GeneratorConfig → Json
entry_json (vietnamese_residents count output seed) =
    entry_fields residents count output seed no_field
entry_json (banking_transactions count output path seed) =
    entry_fields banking count output seed (residents_path path)
entry_json (brand_customers count output path seed) =
    entry_fields customers count output seed (residents_path path)
entry_json (flight_tickets count output path seed) =
    entry_fields tickets count output seed (residents_path path)
entry_json (flight_incidents count output path train seed) =
    entry_fields incidents count output seed (incident_paths path train)

abbrev pub items_json : List GeneratorConfig → Items
items_json [] = nil
items_json (g ∷ gs) = cons (entry_json g) (items_json gs)

abbrev pub config_json : GenerateConfig → Json
config_json c = obj (
    field (codes "seed") (seed_json c.seed)
      (field (codes "generators") (arr (items_json c.generators)) no_field))

assert_string-filled : (s name : Text) → IsFilled s → assert_string (str s) name ≡ ok s
unfolding assert_string
assert_string-filled s name h = rw h refl

assert_positive_int-pos :
    (n : ℕ) (name : Text) → 0 < n → assert_positive_int (int (pos n)) name ≡ ok n
unfolding assert_positive_int
assert_positive_int-pos zero name h = absurd (omega arith)
assert_positive_int-pos (suc n) name h = refl

read_seed-seed_json :
    (seed : Option ℕ) (name : Text) → IsSeed seed → read_seed (seed_json seed) name ≡ ok seed
unfolding read_seed bind
read_seed-seed_json none name h = refl
read_seed-seed_json (some n) name h = rw (assert_positive_int-pos n name h) refl

with_path-filled :
    (make : Text → GeneratorConfig) (key : Text) (entry : Json) (prefix path : Text)
    → property key entry ≡ str path
    → IsFilled path
    → with_path make key entry prefix ≡ ok (make path)
unfolding with_path bind
with_path-filled make key entry prefix path e h =
    rw (e, assert_string-filled path (prefix ++ (b'.' ∷ key)) h) refl

module _ (kind : Kind) (count : ℕ) (output : Text) (seed : Option ℕ) (fields : Properties)
    (c : 0 < count) (o : IsFilled output) (s : IsSeed seed) where
  validate_kind-entry_fields :
      (prefix : Text)
      → let entry = entry_fields kind count output seed fields in
        validate_kind (some kind) entry prefix ≡ finish_entry kind entry prefix count output seed
  unfolding validate_kind read_output read_entry_seed bind property get_field text_eq
  validate_kind-entry_fields prefix =
      rw
        (
          assert_positive_int-pos count (prefix ++ codes ".count") c,
          assert_string-filled output (prefix ++ codes ".output") o,
          read_seed-seed_json seed (prefix ++ codes ".seed") s,
        )
        refl

read_kind-kind_name : (kind : Kind) → read_kind (str (kind_name kind)) ≡ some kind
unfolding read_kind find_kind text_eq
read_kind-kind_name residents = refl
read_kind-kind_name banking = refl
read_kind-kind_name customers = refl
read_kind-kind_name tickets = refl
read_kind-kind_name incidents = refl

validate_entry-entry_fields :
    (kind : Kind) (count : ℕ) (output : Text) (seed : Option ℕ) (fields : Properties) (index : ℕ)
    → 0 < count
    → IsFilled output
    → IsSeed seed
    → (prefix : Text) × (validate_entry (entry_fields kind count output seed fields) index
        ≡ finish_entry kind (entry_fields kind count output seed fields) prefix count output seed)
unfolding validate_entry is_object property get_field text_eq
validate_entry-entry_fields kind count output seed fields index c o s = (
  codes "generators[" ++ (show_ℕ index ++ codes "]"),
  rw (read_kind-kind_name kind) (validate_kind-entry_fields kind count output seed fields c o s _),
)

property-train :
    (count : ℕ) (output path : Text) (train : Option Text) (seed : Option ℕ)
    → optional_string (
        property
          (codes "trainDataPath")
          (entry_json (flight_incidents count output path train seed)))
      ≡ train
unfolding property get_field text_eq optional_string
property-train count output path none seed = refl
property-train count output path (some train) seed = refl

validate_entry-entry_json :
    (g : GeneratorConfig) (index : ℕ)
    → IsValidGenerator g
    → validate_entry (entry_json g) index ≡ ok g
unfolding finish_entry property get_field text_eq
validate_entry-entry_json (vietnamese_residents count output seed) index (c, o, s) =
    (validate_entry-entry_fields residents count output seed no_field index c o s).1
validate_entry-entry_json (banking_transactions count output path seed) index (c, o, p, s) =
    let entry = entry_fields banking count output seed (residents_path path) in
    let (prefix, e) =
      validate_entry-entry_fields banking count output seed (residents_path path) index c o s in
    e
    ∙ with_path-filled (λ t. banking_transactions count output t seed) (codes "residentsPath") entry
        prefix path refl p
validate_entry-entry_json (brand_customers count output path seed) index (c, o, p, s) =
    let entry = entry_fields customers count output seed (residents_path path) in
    let (prefix, e) =
      validate_entry-entry_fields customers count output seed (residents_path path) index c o s in
    e
    ∙ with_path-filled (λ t. brand_customers count output t seed) (codes "residentsPath") entry
        prefix path refl p
validate_entry-entry_json (flight_tickets count output path seed) index (c, o, p, s) =
    let entry = entry_fields tickets count output seed (residents_path path) in
    let (prefix, e) =
      validate_entry-entry_fields tickets count output seed (residents_path path) index c o s in
    e
    ∙ with_path-filled (λ t. flight_tickets count output t seed) (codes "residentsPath") entry
        prefix path refl p
validate_entry-entry_json (flight_incidents count output path train seed) index (c, o, p, s) =
    let fields = incident_paths path train in
    let entry = entry_fields incidents count output seed fields in
    let read_train = optional_string (property (codes "trainDataPath") entry) in
    let (prefix, e) = validate_entry-entry_fields incidents count output seed fields index c o s in
    e
    ∙ with_path-filled (λ t. flight_incidents count output t read_train seed)
        (codes "flightTicketsPath") entry prefix path refl p
    ∙ ap (λ t. ok (flight_incidents count output path t seed))
        (property-train count output path train seed)

validate_entries-items_json :
    (gs : List GeneratorConfig) (index : ℕ)
    → All IsValidGenerator gs
    → validate_entries (items_json gs) index ≡ ok gs
unfolding validate_entries bind
validate_entries-items_json [] index h = refl
validate_entries-items_json (g ∷ gs) index (h, hs) =
    rw (validate_entry-entry_json g index h, validate_entries-items_json gs (suc index) hs) refl

-- A valid configuration, whose counts and seeds are positive and whose texts are not blank, is
-- accepted and read back unchanged from the object that it is: loadConfig accepts its own result.
pub load_config-config_json :
    (config : GenerateConfig) → IsValid config → load_config (config_json config) ≡ ok config
unfolding load_config load_generators read_generators is_object property get_field text_eq bind
load_config-config_json config (s, h) =
    rw
      (
        read_seed-seed_json config.seed (codes "seed") s,
        validate_entries-items_json config.generators 0 h,
      )
      refl
