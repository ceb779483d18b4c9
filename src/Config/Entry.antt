-- ===== src/Config/Entry.antt =====
-- What validateEntry guarantees of a generator that it accepts.
use mizumi.Prelude.{
  ℕ, zero, suc, ◌<◌, ◌≡◌, subst, inl, inr, false, ◌∷◌, ◌++◌, Option, none, some, pos, negsuc, arith,
  Bool-cases,
}
use mizumi.Text.{Text, codes, is_empty}
use mizumi.Text.Trim.{trim}
use mizumi.Config.{
  Json, undefined, int, str, Result, ok, error, bind, GeneratorConfig, vietnamese_residents,
  banking_transactions, brand_customers, flight_tickets, flight_incidents, Kind, residents, banking,
  customers, tickets, incidents, property, is_object, assert_string, assert_positive_int, read_seed,
  optional_string, with_path, finish_entry, read_entry_seed, read_output, validate_kind,
  validate_entry,
}

abbrev pub IsFilled : Text → Type 0
IsFilled s = is_empty (trim s) ≡ false

abbrev pub IsSeed : Option ℕ → Type 0
IsSeed none = Unit
IsSeed (some n) = 0 < n

-- A positive count and seed, and texts that are not blank.
abbrev pub IsValidGenerator : GeneratorConfig → Type 0
IsValidGenerator (vietnamese_residents count output seed) =
    (0 < count) × IsFilled output × IsSeed seed
IsValidGenerator (banking_transactions count output path seed) =
    (0 < count) × IsFilled output × IsFilled path × IsSeed seed
IsValidGenerator (brand_customers count output path seed) =
    (0 < count) × IsFilled output × IsFilled path × IsSeed seed
IsValidGenerator (flight_tickets count output path seed) =
    (0 < count) × IsFilled output × IsFilled path × IsSeed seed
IsValidGenerator (flight_incidents count output path train seed) =
    (0 < count) × IsFilled output × IsFilled path × IsSeed seed

-- The value holds `P`, where there is one.
pub Ensures : {A : Type 0} → (A → Type 0) → Result A → Type 0
Ensures P (ok a) = P a
Ensures P (error message) = Unit

pub ok-Ensures : {A : Type 0} (P : A → Type 0) (a : A) → P a → Ensures P (ok a)
unfolding Ensures
ok-Ensures P a h = h

pub error-Ensures : {A : Type 0} (P : A → Type 0) (message : Text) → Ensures P (error message)
unfolding Ensures
error-Ensures P message = tt

pub Ensures-ok : {A : Type 0} (P : A → Type 0) (r : Result A) (a : A) → Ensures P r → r ≡ ok a → P a
unfolding Ensures
Ensures-ok P r a h e = let h' : Ensures P (ok a) = subst (Ensures P) e h in h'

pub bind-Ensures :
    {A B : Type 0} (P : A → Type 0) (Q : B → Type 0) (r : Result A) (f : A → Result B)
    → Ensures P r
    → ((a : A) → P a → Ensures Q (f a))
    → Ensures Q (bind r f)
unfolding bind Ensures
bind-Ensures P Q (ok a) f h k = k a h
bind-Ensures P Q (error message) f h k = tt

assert_string-IsFilled : (v : Json) (name : Text) → Ensures IsFilled (assert_string v name)
unfolding assert_string Ensures
assert_string-IsFilled (str t) name = elim (Bool-cases (is_empty (trim t))) [
  | inl e ↦ rw e tt
  | inr e ↦ rw e e
]
assert_string-IsFilled _ name = tt

abbrev IsPositive : ℕ → Type 0
IsPositive n = 0 < n

assert_positive_int-IsPositive :
    (v : Json) (name : Text) → Ensures IsPositive (assert_positive_int v name)
unfolding assert_positive_int Ensures
assert_positive_int-IsPositive (int (pos zero)) name = tt
assert_positive_int-IsPositive (int (pos (suc m))) name = omega arith
assert_positive_int-IsPositive (int (negsuc m)) name = tt
assert_positive_int-IsPositive _ name = tt

assert_positive_int-IsSeed :
    (v : Json) (name : Text) → Ensures IsSeed (bind (assert_positive_int v name) (λ n. ok (some n)))
assert_positive_int-IsSeed v name =
    bind-Ensures IsPositive IsSeed (assert_positive_int v name) (λ n. ok (some n))
      (assert_positive_int-IsPositive v name) (λ n h. ok-Ensures IsSeed (some n) h)

pub read_seed-IsSeed : (v : Json) (name : Text) → Ensures IsSeed (read_seed v name)
unfolding read_seed Ensures
read_seed-IsSeed undefined name = tt
read_seed-IsSeed v name = assert_positive_int-IsSeed v name

with_path-IsValidGenerator :
    (make : Text → GeneratorConfig) (key : Text) (entry : Json) (prefix : Text)
    → ((path : Text) → IsFilled path → IsValidGenerator (make path))
    → Ensures IsValidGenerator (with_path make key entry prefix)
unfolding with_path
with_path-IsValidGenerator make key entry prefix h =
    let name = prefix ++ (b'.' ∷ key) in
    bind-Ensures IsFilled IsValidGenerator (assert_string (property key entry) name)
      (λ path. ok (make path)) (assert_string-IsFilled (property key entry) name)
      (λ path f. ok-Ensures IsValidGenerator (make path) (h path f))

finish_entry-IsValidGenerator :
    (kind : Kind) (entry : Json) (prefix : Text) (count : ℕ) (output : Text) (seed : Option ℕ)
    → 0 < count
    → IsFilled output
    → IsSeed seed
    → Ensures IsValidGenerator (finish_entry kind entry prefix count output seed)
unfolding finish_entry
finish_entry-IsValidGenerator residents entry prefix count output seed c o s =
    ok-Ensures IsValidGenerator (vietnamese_residents count output seed) (c, o, s)
finish_entry-IsValidGenerator banking entry prefix count output seed c o s =
    with_path-IsValidGenerator (λ path. banking_transactions count output path seed) _ entry prefix
      (λ path h. (c, o, h, s))
finish_entry-IsValidGenerator customers entry prefix count output seed c o s =
    with_path-IsValidGenerator (λ path. brand_customers count output path seed) _ entry prefix
      (λ path h. (c, o, h, s))
finish_entry-IsValidGenerator tickets entry prefix count output seed c o s =
    with_path-IsValidGenerator (λ path. flight_tickets count output path seed) _ entry prefix
      (λ path h. (c, o, h, s))
finish_entry-IsValidGenerator incidents entry prefix count output seed c o s =
    let train = optional_string (property (codes "trainDataPath") entry) in
    with_path-IsValidGenerator (λ path. flight_incidents count output path train seed) _ entry
      prefix (λ path h. (c, o, h, s))

module _ (kind : Kind) (entry : Json) (prefix : Text) where
  read_entry_seed-IsValidGenerator :
      (count : ℕ) (output : Text)
      → 0 < count
      → IsFilled output
      → Ensures IsValidGenerator (read_entry_seed kind entry prefix count output)
  unfolding read_entry_seed
  read_entry_seed-IsValidGenerator count output c o =
      let seed = property (codes "seed") entry in
      bind-Ensures IsSeed IsValidGenerator (read_seed seed (prefix ++ codes ".seed"))
        (finish_entry kind entry prefix count output)
        (read_seed-IsSeed seed (prefix ++ codes ".seed"))
        (λ s h. finish_entry-IsValidGenerator kind entry prefix count output s c o h)

  read_output-IsValidGenerator :
      (count : ℕ) → 0 < count → Ensures IsValidGenerator (read_output kind entry prefix count)
  unfolding read_output
  read_output-IsValidGenerator count c =
      let output = property (codes "output") entry in
      bind-Ensures IsFilled IsValidGenerator (assert_string output (prefix ++ codes ".output"))
        (read_entry_seed kind entry prefix count)
        (assert_string-IsFilled output (prefix ++ codes ".output"))
        (λ s h. read_entry_seed-IsValidGenerator count s c h)

validate_kind-IsValidGenerator :
    (kind : Option Kind) (entry : Json) (prefix : Text)
    → Ensures IsValidGenerator (validate_kind kind entry prefix)
unfolding validate_kind
validate_kind-IsValidGenerator none entry prefix = error-Ensures IsValidGenerator _
validate_kind-IsValidGenerator (some kind) entry prefix =
    let count = property (codes "count") entry in
    bind-Ensures IsPositive IsValidGenerator (assert_positive_int count (prefix ++ codes ".count"))
      (read_output kind entry prefix)
      (assert_positive_int-IsPositive count (prefix ++ codes ".count"))
      (read_output-IsValidGenerator kind entry prefix)

pub validate_entry-IsValidGenerator :
    (entry : Json) (index : ℕ) → Ensures IsValidGenerator (validate_entry entry index)
unfolding validate_entry
validate_entry-IsValidGenerator entry index = elim (Bool-cases (is_object entry)) [
  | inl e ↦ rw e (validate_kind-IsValidGenerator _ entry _)
  | inr e ↦ rw e (error-Ensures IsValidGenerator _)
]
