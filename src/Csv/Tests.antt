-- ===== src/Csv/Tests.antt =====
-- The CSV model on concrete rows, and its theorems at concrete inputs.
use mizumi.Prelude.{◌≡◌, refl, List, [], ◌∷◌, arith}
use mizumi.Text.{Text, codes, join}
use mizumi.Text.Trim.{is_space, trim}
use mizumi.Csv.{escape_csv, double_quotes, csv_line_to_values, read_chars, read_char, csv_row}
use mizumi.Csv.RoundTrip.{csv_line_to_values-csv_row}
use mizumi.Csv.File.{to_row, found, no_rows, read_csv_rows, stream_csv_rows}
use mizumi.Csv.File.RoundTrip.{Fields, fields, read_csv_rows-stream_csv_rows}

escape_csv_quotes : escape_csv (codes "say \"hi\", you") ≡ codes "\"say \"\"hi\"\", you\""
unfolding escape_csv double_quotes
escape_csv_quotes = refl

read_quoted :
    csv_line_to_values (codes "a,\"b,\"\"c\"\"\",,d")
    ≡ codes "a" ∷ codes "b,\"c\"" ∷ [] ∷ codes "d" ∷ []
unfolding csv_line_to_values read_chars read_char
read_quoted = refl

header_only : read_csv_rows (codes "id,name\n") ≡ no_rows
unfolding read_csv_rows trim
header_only = refl

abbrev headers : List Text
headers = codes "id" ∷ codes "name" ∷ []

abbrev first_row : Fields
first_row = (codes "1", codes "Anh, \"Ha\"" ∷ [])

csv_line_to_values-csv_row_example :
    csv_line_to_values (csv_row (codes "1" ∷ codes "Anh, \"Ha\"" ∷ []))
    ≡ codes "1" ∷ codes "Anh, \"Ha\"" ∷ []
csv_line_to_values-csv_row_example =
    csv_line_to_values-csv_row (codes "1") (codes "Anh, \"Ha\"" ∷ [])

read_csv_rows-stream_csv_rows_example :
    read_csv_rows (stream_csv_rows headers (fields first_row ∷ []))
    ≡ found (to_row headers (fields first_row) ∷ [])
unfolding is_space csv_row escape_csv join double_quotes
read_csv_rows-stream_csv_rows_example =
    read_csv_rows-stream_csv_rows (codes "id") (codes "name" ∷ []) first_row []
      ((refl, omega arith), ((refl, omega arith), tt)) ((omega arith, omega arith), tt) refl refl
