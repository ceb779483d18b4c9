-- ===== src/Grid/Edit.antt =====
-- The end of editing, the deletion of rows and the paste dialog: onCellEditingStop, onRowsDelete and
-- onPasteDialogOpenChange of useDataGrid. The animation frames that they ask for are run at once;
-- the focus of elements is left out.
pub mod Focus
mod Tests
use mizumi.Prelude.{
  ℕ, Bool, true, false, not, ◌&&◌, ◌||◌, List, [], ◌∷◌, Option, none, some, ℤ, pos, ◌+ℤ◌, ◌-ℤ◌,
  ltb_ℤ, min_ℤ, ltb, ◌==◌, get_elem?, length, if◌then◌else◌,
}
use mizumi.Text.{Text}
use mizumi.Grid.Key.{CellPosition, position}
use mizumi.Grid.Columns.{get_at}
use mizumi.Grid.State.{DataGridState, no_selection, closed_paste_dialog}
use mizumi.Grid.Navigate.{NavigationDirection, Layout, focus_cell, navigate_cell}

-- The options of onCellEditingStop: `moveToNextRow` counts before `direction`.
pub data Stop : Type 0 where
  stay : Stop
  move_to_next_row : Stop
  move_to : NavigationDirection → Stop

module _ (g : Layout) where
  -- What follows the end of editing of a cell.
  unfoldable pub after_editing : Stop → CellPosition → DataGridState → DataGridState
  unfolding focus_cell navigate_cell
  after_editing stay p s = s
  after_editing move_to_next_row p s =
      let next = p.row_index +ℤ pos 1 in
      if ltb_ℤ next (pos g.row_count) then focus_cell (position next p.column_id) s else s
  after_editing (move_to direction) p s = navigate_cell g direction (focus_cell p s)

  abbrev after_editing_of : Stop → Option CellPosition → DataGridState → DataGridState
  after_editing_of stop none s = s
  after_editing_of stop (some p) s = after_editing stop p s

  unfoldable pub on_cell_editing_stop : Stop → DataGridState → DataGridState
  unfolding after_editing
  on_cell_editing_stop stop s =
      after_editing_of stop s.editing_cell (record s { editing_cell = none })

-- `Math.min(...rowIndices)` of a first index and the others.
unfoldable pub min_index : ℤ → List ℤ → ℤ
unfolding min_ℤ
min_index i [] = i
min_index i (j ∷ js) = min_ℤ i (min_index j js)

-- `focusedCell?.columnId ?? navigableColumnIds[0]`
abbrev focused_column : Option CellPosition → List Text → Option Text
focused_column none ids = get_elem? ids 0
focused_column (some p) ids = some p.column_id

-- `if (newRowCount > 0 && currentFocusedColumn)`
unfoldable pub focus_after_delete : ℤ → ℕ → Option Text → DataGridState → DataGridState
unfolding min_ℤ focus_cell
focus_after_delete min_deleted count none s = s
focus_after_delete min_deleted count (some []) s = s
focus_after_delete min_deleted count (some (c ∷ id)) s =
    if ltb 0 count
    then focus_cell (position (min_ℤ min_deleted (pos count -ℤ pos 1)) (c ∷ id)) s
    else s

module _ {ℓ} {A : Type ℓ} where
  -- `rowsToDelete`: the rows at those indices, where there are rows.
  unfoldable pub rows_to_delete : List A → List ℤ → List A
  rows_to_delete rows [] = []
  rows_to_delete rows (i ∷ js) =
      let rest = rows_to_delete rows js in
      elim (get_at rows i) [ none ↦ rest | some row ↦ row ∷ rest ]

  -- `can_delete` is that the grid is not read-only and the property onRowsDelete is there. That
  -- property is `delete_rows`: it gets the rows and their indices, and the result is the number of
  -- rows that the table shows afterwards.
  unfoldable pub on_rows_delete :
      Bool → List Text → List A → (List A → List ℤ → ℕ) → List ℤ → DataGridState → DataGridState
  unfolding min_index rows_to_delete focus_after_delete
  on_rows_delete can_delete navigable_ids rows delete_rows [] s = s
  on_rows_delete can_delete navigable_ids rows delete_rows (i ∷ js) s =
      let new_row_count = delete_rows (rows_to_delete rows (i ∷ js)) (i ∷ js) in
      let cleared = record s {
        selection_state = no_selection;
        row_selection = [];
        editing_cell = none;
      } in
      if not can_delete || (length rows == 0)
      then s
      else focus_after_delete (min_index i js) new_row_count
          (focused_column s.focused_cell navigable_ids) cleared

unfoldable pub on_paste_dialog_open_change : Bool → DataGridState → DataGridState
on_paste_dialog_open_change true s = s
on_paste_dialog_open_change false s = record s { paste_dialog = closed_paste_dialog }
