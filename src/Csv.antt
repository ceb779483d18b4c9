-- ===== src/Csv.antt =====
-- packages/synthetic/src/csv.ts: the escaping of a field, and the reader of one line.
pub mod File
pub mod RoundTrip
mod Tests
use mizumi.Prelude.{
  ℕ, Bool, true, false, not, ◌&&◌, ◌||◌, List, [], ◌∷◌, ◌++◌, map, Option, none, some, ◌==◌,
  if◌then◌else◌, any,
}
use mizumi.Text.{Text, newline, join}

-- `/[",\n]/.test(value)`
abbrev pub is_special : ℕ → Bool
is_special c = c == b'"' || c == b',' || c == newline

-- `value.replaceAll('"', '""')`
unfoldable pub double_quotes : Text → Text
double_quotes [] = []
double_quotes (c ∷ s) =
    let rest = double_quotes s in if c == b'"' then b'"' ∷ b'"' ∷ rest else c ∷ rest

unfoldable pub escape_csv : Text → Text
escape_csv value = if any is_special value then b'"' ∷ (double_quotes value ++ b'"' ∷ []) else value

-- The variables of the loop of `csvLineToValues`.
pub record Reader : Type 0 where
  pub values : List Text
  pub current : Text
  pub in_quotes : Bool

abbrev is_quote : Option ℕ → Bool
is_quote none = false
is_quote (some c) = c == b'"'

-- One round of the loop: the new variables, and whether the round consumed `nextChar` as well.
unfoldable pub read_char : Reader → ℕ → Option ℕ → Reader × Bool
read_char r char next_char =
    if char == b'"'
    then if r.in_quotes && is_quote next_char
      then (record r { current = r.current ++ b'"' ∷ [] }, true)
      else (record r { in_quotes = not r.in_quotes }, false)
    else if char == b',' && not r.in_quotes
    then (record r { values = r.values ++ r.current ∷ []; current = [] }, false)
    else (record r { current = r.current ++ char ∷ [] }, false)

unfoldable pub read_chars : Reader → Text → Reader
read_chars r [] = r
read_chars r (c ∷ []) = (read_char r c none).0
read_chars r (c ∷ n ∷ s) =
    let step = read_char r c (some n) in
    elim step.1 [ true ↦ read_chars step.0 s | false ↦ read_chars step.0 (n ∷ s) ]

abbrev pub values_of : Reader → List Text
values_of r = r.values ++ r.current ∷ []

unfoldable pub csv_line_to_values : Text → List Text
csv_line_to_values line =
    values_of (read_chars (record { values = []; current = []; in_quotes = false }) line)

-- A row as `residentToCsvRow` and its siblings print it, without the newline at its end.
unfoldable pub csv_row : List Text → Text
csv_row fields = join (b',' ∷ []) (map escape_csv fields)
