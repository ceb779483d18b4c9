-- ===== src/Grid/Keyboard/Handler.antt =====
-- onDataGridKeyDown: its guards, in their order, and the operations that the keys stand for.
use mizumi.Prelude.{
  Bool, true, false, not, ◌&&◌, ◌||◌, List, [], ◌∷◌, Option, none, some, ℤ, pos, ◌-ℤ◌, max_ℤ,
  length, map, if◌then◌else◌,
}
use mizumi.Text.{Text}
use mizumi.Grid.Key.{CellPosition, cell_key, parse_cell_key}
use mizumi.Grid.Columns.{get_at}
use mizumi.Grid.State.{DataGridState}
use mizumi.Grid.Select.{on_selection_clear, select_all}
use mizumi.Grid.Navigate.{
  NavigationDirection, up, down, left, right, home, end, ctrl_home, ctrl_end, ctrl_up, ctrl_down,
  pageup, pagedown, pageleft, pageright, navigate_cell, blur_cell,
}
use mizumi.Grid.Search.{on_search_open_change, on_navigate_to_prev_match, on_navigate_to_next_match}
use mizumi.Grid.Copy.{add_index}
use mizumi.Grid.Rows.{is_on, RowSelection}
use mizumi.Grid.Update.{CellUpdate}
use mizumi.Grid.Values.{CellValue, get_empty_cell_value}
use mizumi.Grid.Keyboard.{
  Key, arrow_up, arrow_down, arrow_left, arrow_right, home_key, end_key, page_up, page_down, escape,
  tab_key, enter, KeyEvent, ShownRow, GridProps, layout_of, row_count_of, delete_rows, copy_cells,
  cut_cells, paste_cells, update_data, add_row_from, Outcome, answer, ask, is_ctrl, is_tab,
  is_deletion, is_enter, is_shortcut,
}
use mizumi.Grid.Keyboard.Extend.{extend_selection, select_to_row, select_to_column}

abbrev pub is_nil {ℓ} : {A : Type ℓ} → List A → Bool
is_nil [] = true
is_nil (x ∷ xs) = false

-- While the search is open and no cell is edited, its two keys count and no other.
unfoldable pub search_key : Bool → Key → DataGridState → DataGridState
search_key shift enter s =
    if shift then on_navigate_to_prev_match s else on_navigate_to_next_match s
search_key shift escape s = on_search_open_change false s
search_key shift _ s = s

-- The indices of the rows that are shown and selected.
unfoldable pub selected_indices : RowSelection → List ShownRow → List ℤ → List ℤ
unfolding is_on add_index
selected_indices m [] indices = indices
selected_indices m (row ∷ rows) indices =
    selected_indices m rows (if is_on m row.id then add_index row.index indices else indices)

-- The rows of the selected cells.
unfoldable pub rows_of_keys : List Text → List ℤ → List ℤ
unfolding add_index parse_cell_key
rows_of_keys [] indices = indices
rows_of_keys (key ∷ keys) indices =
    rows_of_keys keys (add_index (parse_cell_key key).row_index indices)

abbrev row_of_focus : Option CellPosition → List ℤ
row_of_focus none = []
row_of_focus (some p) = p.row_index ∷ []

-- `rowIndices` of Ctrl with Delete.
unfoldable pub indices_to_delete : List ShownRow → DataGridState → List ℤ
unfolding selected_indices rows_of_keys
indices_to_delete shown s =
    if not (is_nil s.row_selection)
    then selected_indices s.row_selection shown []
    else if not (is_nil s.selection_state.selected_cells)
    then rows_of_keys s.selection_state.selected_cells []
    else row_of_focus s.focused_cell

abbrev pub ask_to_delete : List ℤ → DataGridState → Outcome
ask_to_delete [] s = answer s
ask_to_delete (i ∷ js) s = ask (delete_rows (i ∷ js)) s

-- `cellsToClear`
unfoldable pub cells_to_clear : CellPosition → DataGridState → List Text
unfolding cell_key
cells_to_clear p s =
    if not (is_nil s.selection_state.selected_cells)
    then s.selection_state.selected_cells
    else cell_key p.row_index p.column_id ∷ []

abbrev pub is_editing : Option CellPosition → Bool
is_editing none = false
is_editing (some p) = true

-- What the switch over the keys ends with: a direction, or a state and a `return`.
pub data Switched : Type 0 where
  no_direction : Switched
  moves : NavigationDirection → Switched
  returned : DataGridState → Switched

-- What an arrow key means: with Ctrl and Shift, with Ctrl alone, and otherwise.
abbrev pub arrow : KeyEvent → DataGridState → NavigationDirection → NavigationDirection → Switched
arrow e with_both with_ctrl plain =
    if is_ctrl e then if e.shift_key then returned with_both else moves with_ctrl else moves plain

module _ (g : GridProps) where
  abbrev first_id : Option Text
  first_id = get_at g.navigable_ids (pos 0)

  abbrev last_id : Option Text
  last_id = get_at g.navigable_ids (pos (length g.navigable_ids) -ℤ pos 1)

  unfoldable pub switch_key : KeyEvent → CellPosition → DataGridState → Key → Switched
  unfolding select_to_row select_to_column on_selection_clear blur_cell row_count_of max_ℤ
  switch_key e p s arrow_up =
      if e.alt_key && not (is_ctrl e) && not e.shift_key
      then moves pageup
      else arrow e (select_to_row g (pos 0) p s) ctrl_up up
  switch_key e p s arrow_down =
      let last = max_ℤ (pos 0) (pos (row_count_of g) -ℤ pos 1) in
      if e.alt_key && not (is_ctrl e) && not e.shift_key
      then moves pagedown
      else arrow e (select_to_row g last p s) ctrl_down down
  switch_key e p s arrow_left =
      arrow e (select_to_column g (if g.is_rtl then last_id else first_id) p s) home left
  switch_key e p s arrow_right =
      arrow e (select_to_column g (if g.is_rtl then first_id else last_id) p s) end right
  switch_key e p s home_key = moves (if is_ctrl e then ctrl_home else home)
  switch_key e p s end_key = moves (if is_ctrl e then ctrl_end else end)
  switch_key e p s page_up = moves (if e.alt_key then pageleft else pageup)
  switch_key e p s page_down = moves (if e.alt_key then pageright else pagedown)
  switch_key e p s escape = returned (
      if not (is_nil s.selection_state.selected_cells) || not (is_nil s.row_selection)
      then on_selection_clear s
      else blur_cell s)
  switch_key e p s tab_key = moves (
      if g.is_rtl then if e.shift_key then right else left else if e.shift_key then left else right)
  switch_key e p s _ = no_direction

  -- `if (selectedCells.size > 0) onSelectionClear()`, then navigateCell.
  unfoldable pub move_from_selection : NavigationDirection → DataGridState → DataGridState
  unfolding on_selection_clear navigate_cell layout_of
  move_from_selection d s =
      navigate_cell (layout_of g) d
        (if not (is_nil s.selection_state.selected_cells) then on_selection_clear s else s)

  unfoldable pub follow : KeyEvent → CellPosition → DataGridState → Switched → DataGridState
  unfolding extend_selection move_from_selection
  follow e p s no_direction = s
  follow e p s (returned t) = t
  follow e p s (moves d) =
      if e.shift_key && not (is_tab e.key)
      then extend_selection g d p s
      else move_from_selection d s

  -- The update that empties the cell of a key.
  unfoldable pub empty_cell : Text → CellUpdate CellValue
  unfolding parse_cell_key get_empty_cell_value
  empty_cell key =
      let p = parse_cell_key key in
      record {
        row_index = p.row_index;
        column_id = p.column_id;
        value = get_empty_cell_value (g.cell_opts p.column_id);
      }

  unfoldable pub clear_cells : CellPosition → DataGridState → Outcome
  unfolding cells_to_clear empty_cell on_selection_clear
  clear_cells p s =
      let cleared =
        if not (is_nil s.selection_state.selected_cells) then on_selection_clear s else s in
      ask (update_data (map empty_cell (cells_to_clear p s))) (record cleared { cut_cells = [] })

  -- The keys that need a focused cell, which is `p`.
  unfoldable pub focused_key : KeyEvent → CellPosition → DataGridState → Outcome
  unfolding select_all clear_cells switch_key follow
  focused_key e p s =
      if is_shortcut b'a' e
      then answer (select_all g.all_ids (length g.shown) s)
      else if is_shortcut b'c' e
      then ask copy_cells s
      else if is_shortcut b'x' e && not g.read_only
      then ask cut_cells s
      else if g.enable_paste && is_shortcut b'v' e && not g.read_only
      then ask paste_cells s
      else if is_deletion e.key && not (is_ctrl e) && not g.read_only
      then clear_cells p s
      else if is_enter e.key && e.shift_key && not g.read_only && g.can_add_rows
      then ask (add_row_from p.column_id) s
      else answer (follow e p s (switch_key e p s e.key))

  abbrev pub with_focus : KeyEvent → Option CellPosition → DataGridState → Outcome
  with_focus e none s = answer s
  with_focus e (some p) s = focused_key e p s

  unfoldable pub on_data_grid_key_down : KeyEvent → DataGridState → Outcome
  unfolding search_key on_search_open_change indices_to_delete focused_key
  on_data_grid_key_down e s =
      if g.enable_search && is_shortcut b'f' e
      then answer (on_search_open_change true s)
      else if g.enable_search && s.search_open && not (is_editing s.editing_cell)
      then answer (search_key e.shift_key e.key s)
      else if is_editing s.editing_cell
      then answer s
      else if is_ctrl e && is_deletion e.key && not g.read_only && g.can_delete_rows
      then ask_to_delete (indices_to_delete g.shown s) s
      else with_focus e s.focused_cell s
