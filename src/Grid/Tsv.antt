-- ===== src/Grid/Tsv.antt =====
-- Pasted text: countTabs and parseTsv of packages/webui/lib/data-grid.ts.
pub mod Quoted
pub mod Plain
pub mod Width
mod Tests
use mizumi.Prelude.{
  ℕ, zero, suc, ◌+◌, ◌-◌, Bool, true, false, not, ◌&&◌, ◌||◌, List, [], ◌∷◌, ◌++◌, map, Option,
  none, some, ltb, ◌==◌, length, any, if◌then◌else◌,
}
use mizumi.Text.{Text, is_empty, newline, return, split, starts_with, includes}

abbrev pub tab : ℕ
tab = 9

abbrev pub quote : ℕ
quote = b'"'

-- The variables of the loop over a text with quotes.
pub record Scanner : Type 0 where
  pub rows : List (List Text)
  pub current_row : List Text
  pub current_field : Text
  pub in_quotes : Bool

abbrev pub is_char : ℕ → Option ℕ → Bool
is_char c none = false
is_char c (some d) = d == c

-- `row.length > 1 || row.some((f) => f.length > 0)`
unfoldable pub is_row : List Text → Bool
is_row row = ltb 1 (length row) || any (λ f. ltb 0 (length f)) row

-- `if (…) rows.push(currentRow)`
unfoldable pub push_row : List (List Text) → List Text → List (List Text)
push_row rows row = if is_row row then rows ++ row ∷ [] else rows

abbrev end_field : Scanner → Scanner
end_field s = record s { current_row = s.current_row ++ s.current_field ∷ []; current_field = [] }

abbrev end_row : Scanner → Scanner
end_row s = record s {
  rows = push_row s.rows (s.current_row ++ s.current_field ∷ []);
  current_row = [];
  current_field = [];
}

abbrev take_char : ℕ → Scanner → Scanner
take_char c s = record s { current_field = s.current_field ++ c ∷ [] }

-- One round of the loop: the new variables, and whether `i` grows by two.
unfoldable pub scan_char : Scanner → ℕ → Option ℕ → Scanner × Bool
scan_char s char next_char =
    if s.in_quotes
    then if char == quote && is_char quote next_char
      then (take_char quote s, true)
      else if char == quote
      then (record s { in_quotes = false }, false)
      else (take_char char s, false)
    else if char == quote && is_empty s.current_field
    then (record s { in_quotes = true }, false)
    else if char == tab
    then (end_field s, false)
    else if char == newline
    then (end_row s, false)
    else if char == return && is_char newline next_char
    then (end_row s, true)
    else (take_char char s, false)

unfoldable pub scan_chars : Scanner → Text → Scanner
scan_chars s [] = s
scan_chars s (c ∷ []) = (scan_char s c none).0
scan_chars s (c ∷ n ∷ text) =
    let step = scan_char s c (some n) in
    elim step.1 [ true ↦ scan_chars step.0 text | false ↦ scan_chars step.0 (n ∷ text) ]

abbrev pub scanned : Scanner → List (List Text)
scanned s = push_row s.rows (s.current_row ++ s.current_field ∷ [])

unfoldable pub parse_quoted : Text → List (List Text)
parse_quoted text = scanned (
    scan_chars (record { rows = []; current_row = []; current_field = []; in_quotes = false }) text)

unfoldable pub count_tabs : Text → ℕ
count_tabs [] = 0
count_tabs (c ∷ s) = let rest = count_tabs s in if c == tab then suc rest else rest

unfoldable pub max_tab_count : ℕ → List Text → ℕ
max_tab_count most [] = most
max_tab_count most (line ∷ lines) =
    let n = count_tabs line in max_tab_count (if ltb most n then n else most) lines

-- The variables of the loop over the lines.
pub record Joiner : Type 0 where
  pub rows : List (List Text)
  pub buf : Text
  pub buf_tab_count : ℕ

abbrev emit_buf : ℕ → Joiner → List (List Text)
emit_buf expected s =
    if not (is_empty s.buf) && s.buf_tab_count == expected
    then s.rows ++ split tab s.buf ∷ []
    else s.rows

-- `buf ? `${buf}\n${line}` : line`
unfoldable pub extend_buf : Text → Text → Text
extend_buf [] line = line
extend_buf (c ∷ s) line = (c ∷ s) ++ (newline ∷ line)

unfoldable pub join_line : ℕ → Joiner → Text → Joiner
unfolding extend_buf
join_line expected s line =
    let buf = extend_buf s.buf line in
    let count = s.buf_tab_count + count_tabs line in
    if count_tabs line == expected
    then record { rows = emit_buf expected s ++ split tab line ∷ []; buf = []; buf_tab_count = 0 }
    else if count == expected
    then record { rows = s.rows ++ split tab buf ∷ []; buf = []; buf_tab_count = 0 }
    else record s { buf = buf; buf_tab_count = count }

unfoldable pub join_lines : ℕ → Joiner → List Text → List (List Text)
unfolding join_line
join_lines expected s [] = emit_buf expected s
join_lines expected s (line ∷ lines) = join_lines expected (join_line expected s line) lines

unfoldable pub non_empty_lines : List Text → List (List Text)
non_empty_lines [] = []
non_empty_lines (line ∷ lines) =
    let rest = non_empty_lines lines in if is_empty line then rest else split tab line ∷ rest

-- `rows.length > 0 ? rows : lines.filter(…).map(…)`
unfoldable pub rows_or_lines : List (List Text) → List Text → List (List Text)
unfolding non_empty_lines
rows_or_lines [] lines = non_empty_lines lines
rows_or_lines (row ∷ rows) lines = row ∷ rows

unfoldable pub column_count : List Text → ℕ → ℕ
unfolding max_tab_count
column_count lines fallback =
    let most = max_tab_count 0 lines in if ltb 0 most then most + 1 else fallback

unfoldable pub parse_lines : List Text → ℕ → List (List Text)
parse_lines lines fallback =
    let count = column_count lines fallback in
    if count == 0
    then []
    else rows_or_lines
        (join_lines (count - 1) (record { rows = []; buf = []; buf_tab_count = 0 }) lines) lines

unfoldable pub parse_plain : Text → ℕ → List (List Text)
unfolding parse_lines
parse_plain text fallback = parse_lines (split newline text) fallback

-- `text.startsWith('"') || text.includes('\t"')`
unfoldable pub has_quotes : Text → Bool
has_quotes text = starts_with text (quote ∷ []) || includes text (tab ∷ quote ∷ [])

unfoldable pub parse_tsv : Text → ℕ → List (List Text)
parse_tsv text fallback = if has_quotes text then parse_quoted text else parse_plain text fallback
