-- ===== src/Grid/Select.antt =====
-- The selection of cells: onSelectionClear, selectAll, selectColumn, selectRange, onColumnClick and
-- getIsCellSelected of useDataGrid.
pub mod Membership
use mizumi.Prelude.{
  ℕ, Bool, true, false, ◌&&◌, List, [], ◌∷◌, Option, none, some, ℤ, pos, ◌-ℤ◌, ltb_ℤ, min_ℤ, max_ℤ,
  for_range, length, if◌then◌else◌, ◌==◌,
}
use mizumi.Text.{Text}
use mizumi.Text.Sets.{has, add}
use mizumi.Grid.Key.{CellPosition, position, cell_key}
use mizumi.Grid.Columns.{index_of, get_at}
use mizumi.Grid.State.{CellRange, SelectionState, DataGridState, no_selection}

abbrev pub set_selection : SelectionState → DataGridState → DataGridState
set_selection selection s = record s { selection_state = selection }

unfoldable pub on_selection_clear : DataGridState → DataGridState
on_selection_clear s = record s { selection_state = no_selection; row_selection = [] }

unfoldable pub get_is_cell_selected : DataGridState → ℤ → Text → Bool
get_is_cell_selected s row column = has s.selection_state.selected_cells (cell_key row column)

-- `if (columnId) selectedCells.add(getCellKey(rowIndex, columnId))`
unfoldable pub add_cell : ℤ → Option Text → List Text → List Text
add_cell row none keys = keys
add_cell row (some []) keys = keys
add_cell row (some (c ∷ s)) keys = add (cell_key row (c ∷ s)) keys

-- `for (const columnId of columnIds) allCells.add(getCellKey(rowIndex, columnId))`
unfoldable pub add_row : ℤ → List Text → List Text → List Text
add_row row [] keys = keys
add_row row (id ∷ ids) keys = add_row row ids (add (cell_key row id) keys)

abbrev pub last : List Text → Option Text
last [] = none
last (x ∷ []) = some x
last (x ∷ y ∷ xs) = last (y ∷ xs)

abbrev pub range : CellPosition → CellPosition → CellRange
range start end = record { start = start; end = end }

-- `firstColumnId && lastColumnId ? … : null`
unfoldable pub full_range : ℤ → Option Text → Option Text → Option CellRange
full_range last_row (some (c ∷ s)) (some (d ∷ t)) =
    some (range (position (pos 0) (c ∷ s)) (position last_row (d ∷ t)))
full_range last_row _ _ = none

-- The bounds of the loops of selectRange.
pub record Rectangle : Type 0 where
  pub min_row : ℤ
  pub max_row : ℤ
  pub min_col : ℤ
  pub max_col : ℤ

-- `column_ids` are the ids of the columns, `row_count` the number of rows that the table shows.
module _ (column_ids : List Text) where
  unfoldable pub select_all : ℕ → DataGridState → DataGridState
  unfolding add_row full_range
  select_all row_count s =
      let last_row = pos row_count -ℤ pos 1 in
      set_selection
        (record {
          selected_cells = for_range (pos 0) last_row (λ row keys. add_row row column_ids keys) [];
          selection_range =
              if row_count == 0
              then none
              else full_range last_row (get_at column_ids (pos 0)) (last column_ids);
          is_selecting = false;
        })
        s

  unfoldable pub rectangle : CellPosition → CellPosition → Rectangle
  unfolding min_ℤ max_ℤ
  rectangle start end =
      let start_col = index_of start.column_id column_ids in
      let end_col = index_of end.column_id column_ids in
      record {
        min_row = min_ℤ start.row_index end.row_index;
        max_row = max_ℤ start.row_index end.row_index;
        min_col = min_ℤ start_col end_col;
        max_col = max_ℤ start_col end_col;
      }

  unfoldable pub add_columns : ℤ → ℤ → ℤ → List Text → List Text
  unfolding add_cell
  add_columns min_col max_col row keys =
      for_range min_col max_col (λ col. add_cell row (get_at column_ids col)) keys

  unfoldable pub cells_of : Rectangle → List Text
  unfolding add_columns
  cells_of r = for_range r.min_row r.max_row (add_columns r.min_col r.max_col) []

  unfoldable pub select_range : CellPosition → CellPosition → Bool → DataGridState → DataGridState
  unfolding cells_of rectangle
  select_range start end is_selecting s =
      set_selection
        (record {
          selected_cells = cells_of (rectangle start end);
          selection_range = some (range start end);
          is_selecting = is_selecting;
        })
        s

unfoldable pub select_column : Text → ℕ → DataGridState → DataGridState
select_column column row_count s =
    let last_row = pos row_count -ℤ pos 1 in
    if row_count == 0
    then s
    else set_selection
        (record {
          selected_cells =
              for_range (pos 0) last_row (λ row keys. add (cell_key row column) keys) [];
          selection_range = some (range (position (pos 0) column) (position last_row column));
          is_selecting = false;
        })
        s

unfoldable pub on_column_click : Bool → Text → ℕ → DataGridState → DataGridState
unfolding on_selection_clear select_column
on_column_click enable_column_selection column row_count s =
    if enable_column_selection then select_column column row_count s else on_selection_clear s
