-- ===== src/Grid/Key.antt =====
-- Cell positions and their keys: getCellKey and parseCellKey of packages/webui/lib/data-grid.ts.
pub mod Laws
use mizumi.Prelude.{ℕ, List, [], ◌∷◌, ◌++◌, Option, none, some, ℤ, pos}
use mizumi.Text.{Text, split}
use mizumi.Text.Decimal.{show_ℤ, parse_int}

pub record CellPosition : Type 0 where
  pub row_index : ℤ
  pub column_id : Text

abbrev pub position : ℤ → Text → CellPosition
position row column = record { row_index = row; column_id = column }

abbrev pub colon : ℕ
colon = b':'

unfoldable pub cell_key : ℤ → Text → Text
unfolding show_ℤ
cell_key row column = show_ℤ row ++ (colon ∷ column)

abbrev pub no_position : CellPosition
no_position = position (pos 0) []

abbrev position_or : Option ℤ → Text → CellPosition
position_or none column = no_position
position_or (some row) column = position row column

-- `if (rowIndexStr && columnId)` on the first two parts: an empty or a missing part is falsy.
unfoldable pub parse_parts : List Text → CellPosition
parse_parts [] = no_position
parse_parts (row ∷ []) = no_position
parse_parts ([] ∷ column ∷ rest) = no_position
parse_parts ((c ∷ s) ∷ [] ∷ rest) = no_position
parse_parts ((c ∷ s) ∷ (d ∷ t) ∷ rest) = position_or (parse_int (c ∷ s)) (d ∷ t)

unfoldable pub parse_cell_key : Text → CellPosition
unfolding parse_parts
parse_cell_key key = parse_parts (split colon key)
