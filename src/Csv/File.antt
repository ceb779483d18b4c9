-- ===== src/Csv/File.antt =====
-- packages/synthetic/src/csv.ts: a whole file, as readCsvRows reads it and streamCsvRows prints it.
-- The file's text is an argument; reading and writing the file itself is the platform's.
pub mod RoundTrip
use mizumi.Prelude.{
  ℕ, zero, suc, Bool, true, false, ◌&&◌, ◌||◌, List, [], ◌∷◌, ◌++◌, map, Option, none, some, ltb,
  leb, ◌==◌, if◌then◌else◌, length,
}
use mizumi.Text.{Text, newline, return, join}
use mizumi.Text.Trim.{trim}
use mizumi.Csv.{csv_line_to_values, csv_row}

-- `split(/\r?\n/)`; `cur` is the line that is being read.
unfoldable pub split_lines : Text → Text → List Text
split_lines cur [] = cur ∷ []
split_lines cur (c ∷ []) = if c == newline then cur ∷ [] ∷ [] else (cur ++ c ∷ []) ∷ []
split_lines cur (c ∷ n ∷ s) =
    let broken = cur ∷ split_lines [] (n ∷ s) in
    let broken_pair = cur ∷ split_lines [] s in
    let more = split_lines (cur ++ c ∷ []) (n ∷ s) in
    if c == newline then broken else if c == return && n == newline then broken_pair else more

-- An object of strings, as `Object.fromEntries` is given it: of two equal keys the later one counts.
abbrev pub Row : Type 0
Row = List (Text × Text)

-- `headers.map((header, index) => [header, values[index] ?? ""])`
unfoldable pub to_row : List Text → List Text → Row
to_row [] values = []
to_row (h ∷ hs) [] = (h, []) ∷ to_row hs []
to_row (h ∷ hs) (v ∷ vs) = (h, v) ∷ to_row hs vs

pub data ReadResult : Type 0 where
  no_rows : ReadResult
  missing_headers : ReadResult
  found : List Row → ReadResult

unfoldable pub read_lines : List Text → ReadResult
read_lines [] = no_rows
read_lines (header_line ∷ []) = no_rows
read_lines ([] ∷ line ∷ lines) = missing_headers
read_lines ((c ∷ s) ∷ line ∷ lines) =
    let headers = csv_line_to_values (c ∷ s) in
    found (map (λ l. to_row headers (csv_line_to_values l)) (line ∷ lines))

unfoldable pub read_csv_rows : Text → ReadResult
unfolding read_lines split_lines
read_csv_rows csv = read_lines (split_lines [] (trim csv))

-- `${headers.join(",")}\n`, and then each row with a newline behind it.
unfoldable pub csv_lines : List Text → Text
csv_lines [] = []
csv_lines (line ∷ lines) = line ++ (newline ∷ csv_lines lines)

unfoldable pub stream_csv_rows : List Text → List (List Text) → Text
unfolding csv_lines
stream_csv_rows headers rows = csv_lines (join (b',' ∷ []) headers ∷ map csv_row rows)
