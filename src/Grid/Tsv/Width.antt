-- ===== src/Grid/Tsv/Width.antt =====
-- parseTsv of a text without quotes: all rows have as many cells as the text has columns.
use mizumi.Prelude.{ℕ, suc, ◌≡◌, List, length, All}
use mizumi.Text.{Text}
use mizumi.Grid.Tsv.{Joiner, count_tabs}

-- Each row has one cell more than `expected` tabs.
abbrev pub HasWidth : ℕ → List (List Text) → Type 0
HasWidth n = All (λ row. length row ≡ n)

-- What holds between two rounds of the loop over the lines.
record IsValid (expected : ℕ) (s : Joiner) : Type 0 where
  rows : HasWidth (suc expected) s.rows
  counted : s.buf_tab_count ≡ count_tabs s.buf
