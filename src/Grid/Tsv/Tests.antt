-- ===== src/Grid/Tsv/Tests.antt =====
-- Pasted texts.
use mizumi.Prelude.{◌≡◌, refl, true, false, List, [], ◌∷◌, map, arith, All}
use mizumi.Text.{Text, codes, split, newline, join, starts_with, includes}
use mizumi.Csv.{double_quotes}
use mizumi.Grid.Tsv.{
  tab, quote, is_row, has_quotes, parse_tsv, column_count, parse_plain, parse_lines, max_tab_count,
  count_tabs, join_lines, rows_or_lines, extend_buf,
}
use mizumi.Grid.Tsv.Quoted.{Cells, cells, print_rows, print_row, print_field, parse_tsv-print_rows}
use mizumi.Grid.Tsv.Plain.{join_rows, IsPlainRow, parse_tsv-join_rows}

abbrev a : Text
a = codes "a"

abbrev b : Text
b = codes "b"

-- Two rows of two cells, one of them empty.
abbrev two_rows : List Cells
two_rows = (a, b ∷ []) ∷ ([], a ∷ []) ∷ []

-- A row that is broken within a cell is put together again.
broken_row :
    parse_tsv (tab ∷ tab ∷ newline ∷ b'a' ∷ tab ∷ b'b' ∷ newline ∷ b'c' ∷ tab ∷ b'd' ∷ []) 0
    ≡ ([] ∷ [] ∷ [] ∷ []) ∷ (a ∷ (b'b' ∷ newline ∷ b'c' ∷ []) ∷ codes "d" ∷ []) ∷ []
unfolding parse_tsv has_quotes starts_with includes parse_plain parse_lines column_count
    max_tab_count count_tabs join_lines rows_or_lines split extend_buf
broken_row = refl

-- A line with too few tabs before a complete one is lost.
lost_line : parse_tsv (b'a' ∷ newline ∷ tab ∷ b'b' ∷ []) 0 ≡ ([] ∷ b ∷ []) ∷ []
unfolding parse_tsv has_quotes starts_with includes parse_plain parse_lines column_count
    max_tab_count count_tabs join_lines rows_or_lines split extend_buf
lost_line = refl

plain : has_quotes (join_rows two_rows) ≡ false
unfolding has_quotes starts_with includes join
plain = refl

plain_rows : All (IsPlainRow 1) two_rows
plain_rows = (
  (
    refl,
    ((omega arith, tt), ((omega arith, tt), tt)),
    ((omega arith, tt), ((omega arith, tt), tt)),
  ),
  ((refl, (tt, ((omega arith, tt), tt)), (tt, ((omega arith, tt), tt))), tt),
)

-- A row with a tab and a quote in its second cell.
abbrev quoted_rows : List Cells
quoted_rows = (a, (tab ∷ quote ∷ []) ∷ []) ∷ []

quoted : has_quotes (print_rows quoted_rows) ≡ true
unfolding has_quotes starts_with includes join print_rows print_row print_field double_quotes
quoted = refl

parse_tsv-print_rows_example : parse_tsv (print_rows quoted_rows) 0 ≡ map cells quoted_rows
unfolding is_row
parse_tsv-print_rows_example =
    parse_tsv-print_rows (a, (tab ∷ quote ∷ []) ∷ []) [] 0 (refl, tt) quoted

parse_tsv-join_rows_example : parse_tsv (join_rows two_rows) 0 ≡ map cells two_rows
parse_tsv-join_rows_example =
    parse_tsv-join_rows 1 (a, b ∷ []) (([], a ∷ []) ∷ []) 0 (omega arith) plain_rows plain
