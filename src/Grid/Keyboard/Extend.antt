-- ===== src/Grid/Keyboard/Extend.antt =====
-- Shift with an arrow key: the selection of onDataGridKeyDown grows from its start to an edge that
-- moves.
use mizumi.Prelude.{
  false, [], ◌∷◌, Option, none, some, ℤ, pos, ◌+ℤ◌, ◌-ℤ◌, ltb_ℤ, min_ℤ, max_ℤ, length,
  if◌then◌else◌,
}
use mizumi.Text.{Text}
use mizumi.Grid.Key.{CellPosition, position}
use mizumi.Grid.Columns.{index_of, get_at}
use mizumi.Grid.State.{CellRange, DataGridState}
use mizumi.Grid.Select.{select_range}
use mizumi.Grid.Navigate.{NavigationDirection, up, down, left, right, home, end, truthy_or, some_or}
use mizumi.Grid.Keyboard.{GridProps, row_count_of}

abbrev pub range_end : Option CellRange → CellPosition → CellPosition
range_end none p = p
range_end (some r) p = r.end

abbrev pub range_start : Option CellRange → CellPosition → CellPosition
range_start none p = p
range_start (some r) p = r.start

-- `selectionRange?.end || focusedCell`, for the focused cell `p`.
unfoldable pub selection_edge : CellPosition → DataGridState → CellPosition
selection_edge p s = range_end s.selection_state.selection_range p

-- `selectionRange?.start || focusedCell`
unfoldable pub selection_start : CellPosition → DataGridState → CellPosition
selection_start p s = range_start s.selection_state.selection_range p

module _ (g : GridProps) where
  abbrev id_count : ℤ
  id_count = pos (length g.navigable_ids)

  unfoldable pub column_after : Text → Text
  unfolding ◌+ℤ◌ ◌-ℤ◌
  column_after column =
      let i = index_of column g.navigable_ids in
      if ltb_ℤ i (id_count -ℤ pos 1)
      then truthy_or (get_at g.navigable_ids (i +ℤ pos 1)) column
      else column

  unfoldable pub column_before : Text → Text
  unfolding ◌-ℤ◌
  column_before column =
      let i = index_of column g.navigable_ids in
      if ltb_ℤ (pos 0) i then truthy_or (get_at g.navigable_ids (i -ℤ pos 1)) column else column

  -- `newRowIndex` of the second switch.
  unfoldable pub extended_row : NavigationDirection → ℤ → ℤ
  unfolding row_count_of ◌+ℤ◌ ◌-ℤ◌ min_ℤ max_ℤ
  extended_row up row = max_ℤ (pos 0) (row -ℤ pos 1)
  extended_row down row = min_ℤ (pos (row_count_of g) -ℤ pos 1) (row +ℤ pos 1)
  extended_row _ row = row

  -- `newColumnId` of the second switch.
  unfoldable pub extended_column : NavigationDirection → Text → Text
  unfolding column_after column_before
  extended_column left column = if g.is_rtl then column_after column else column_before column
  extended_column right column = if g.is_rtl then column_before column else column_after column
  extended_column home column =
      if ltb_ℤ (pos 0) id_count then some_or (get_at g.navigable_ids (pos 0)) column else column
  extended_column end column =
      if ltb_ℤ (pos 0) id_count
      then some_or (get_at g.navigable_ids (id_count -ℤ pos 1)) column
      else column
  extended_column _ column = column

  unfoldable pub extend_selection :
      NavigationDirection → CellPosition → DataGridState → DataGridState
  unfolding selection_edge selection_start extended_row extended_column select_range
  extend_selection d p s =
      let edge = selection_edge p s in
      select_range g.all_ids (selection_start p s)
        (position (extended_row d edge.row_index) (extended_column d edge.column_id)) false s

  -- Ctrl with Shift and an arrow up or down: the edge goes to `row`, in its column.
  unfoldable pub select_to_row : ℤ → CellPosition → DataGridState → DataGridState
  unfolding selection_edge selection_start select_range
  select_to_row row p s =
      let edge = selection_edge p s in
      let column =
        some_or (get_at g.navigable_ids (index_of edge.column_id g.navigable_ids)) edge.column_id in
      select_range g.all_ids (selection_start p s) (position row column) false s

  -- Ctrl with Shift and an arrow left or right: the edge goes to the column, in its row.
  unfoldable pub select_to_column : Option Text → CellPosition → DataGridState → DataGridState
  unfolding selection_edge selection_start select_range
  select_to_column none p s = s
  select_to_column (some []) p s = s
  select_to_column (some (c ∷ id)) p s =
      let edge = selection_edge p s in
      select_range g.all_ids (selection_start p s) (position edge.row_index (c ∷ id)) false s
