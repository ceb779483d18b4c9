-- ===== src/Grid/Mouse.antt =====
-- The mouse on the cells: onCellClick, onCellDoubleClick, onCellMouseDown, onCellMouseEnter,
-- onCellMouseUp, onCellContextMenu, onContextMenuOpenChange and onCellEditingStart of useDataGrid.
-- Scrolling and the default action of the event are left out.
pub mod Drag
mod Tests
use mizumi.Prelude.{
  ℕ, Bool, true, false, not, ◌&&◌, ◌||◌, List, [], ◌∷◌, Option, none, some, ℤ, ◌==◌, if◌then◌else◌,
}
use mizumi.Text.{Text, text_eq}
use mizumi.Text.Sets.{has, add, delete}
use mizumi.Grid.Key.{CellPosition, cell_key}
use mizumi.Grid.Columns.{select_id}
use mizumi.Grid.State.{CellRange, SelectionState, DataGridState}
use mizumi.Grid.Select.{range, set_selection, select_range, on_selection_clear}
use mizumi.Grid.Navigate.{focus_cell, same_cell}

pub record MouseEvent : Type 0 where
  pub button : ℕ
  pub ctrl_key : Bool
  pub meta_key : Bool
  pub shift_key : Bool
  pub client_x : ℤ
  pub client_y : ℤ

abbrev key_of : CellPosition → Text
key_of p = cell_key p.row_index p.column_id

abbrev pub is_cell : Option CellPosition → CellPosition → Bool
is_cell none p = false
is_cell (some q) p = same_cell q p

unfoldable pub on_cell_editing_start : Bool → CellPosition → DataGridState → DataGridState
on_cell_editing_start read_only p s =
    if read_only then s else record s { focused_cell = some p; editing_cell = some p }

-- `newSelectedCells` of a click with Ctrl or Meta.
unfoldable pub toggle_key : Text → List Text → List Text
toggle_key key keys = if has keys key then delete key keys else add key keys

unfoldable pub toggle_cell : CellPosition → DataGridState → DataGridState
unfolding toggle_key focus_cell
toggle_cell p s = focus_cell p (
    set_selection
      (record {
        selected_cells = toggle_key (key_of p) s.selection_state.selected_cells;
        selection_range = none;
        is_selecting = false;
      })
      s)

-- The end of onCellClick: a click on the focused cell starts editing.
unfoldable pub edit_or_focus : Bool → CellPosition → DataGridState → DataGridState
unfolding on_cell_editing_start focus_cell
edit_or_focus read_only p s =
    if is_cell s.focused_cell p then on_cell_editing_start read_only p s else focus_cell p s

abbrev is_nil {ℓ} : {A : Type ℓ} → List A → Bool
is_nil [] = true
is_nil (x ∷ xs) = false

-- onCellClick behind the branches for Ctrl, Meta and Shift.
unfoldable pub click_cell : Bool → CellPosition → DataGridState → DataGridState
unfolding edit_or_focus on_selection_clear
click_cell read_only p s =
    let cleared = edit_or_focus read_only p (on_selection_clear s) in
    let selected = s.selection_state.selected_cells in
    if not (is_nil selected) && not s.selection_state.is_selecting
    then if has selected (key_of p) then focus_cell p s else cleared
    else if not (is_nil s.row_selection) && not (text_eq p.column_id select_id)
    then cleared
    else edit_or_focus read_only p s

module _ (column_ids : List Text) where
  unfoldable pub click_with_shift :
      Bool → CellPosition → Option CellPosition → DataGridState → DataGridState
  unfolding click_cell select_range
  click_with_shift read_only p none s = click_cell read_only p s
  click_with_shift read_only p (some focused) s = select_range column_ids focused p false s

  unfoldable pub on_cell_click :
      Bool → CellPosition → Option MouseEvent → DataGridState → DataGridState
  unfolding click_with_shift toggle_cell
  on_cell_click read_only p none s = click_cell read_only p s
  on_cell_click read_only p (some event) s =
      if event.button == 2
      then s
      else if event.ctrl_key || event.meta_key
      then toggle_cell p s
      else if event.shift_key
      then click_with_shift read_only p s.focused_cell s
      else click_cell read_only p s

  -- `focusCell(start)` unless that cell has the focus.
  unfoldable pub focus_start : CellPosition → DataGridState → DataGridState
  focus_start start s = if is_cell s.focused_cell start then s else focus_cell start s

  abbrev pub extend_range : CellPosition → Option CellRange → DataGridState → DataGridState
  extend_range p none s = s
  extend_range p (some r) s = select_range column_ids r.start p true (focus_start r.start s)

  unfoldable pub on_cell_mouse_enter : CellPosition → DataGridState → DataGridState
  unfolding focus_start select_range
  on_cell_mouse_enter p s =
      if s.selection_state.is_selecting
      then extend_range p s.selection_state.selection_range s
      else s

unfoldable pub on_cell_double_click : Bool → Bool → CellPosition → DataGridState → DataGridState
unfolding on_cell_editing_start
on_cell_double_click default_prevented read_only p s =
    if default_prevented then s else on_cell_editing_start read_only p s

-- `enable_single_cell_selection` is the property of that name.
unfoldable pub on_cell_mouse_down : Bool → CellPosition → MouseEvent → DataGridState → DataGridState
on_cell_mouse_down enable_single_cell_selection p event s =
    let started = record s {
      selection_state = record {
        selected_cells = if enable_single_cell_selection then key_of p ∷ [] else [];
        selection_range = some (range p p);
        is_selecting = true;
      };
      row_selection = [];
    } in
    if event.button == 2
    then s
    else if not event.ctrl_key && (not event.meta_key && not event.shift_key)
    then started
    else s

unfoldable pub on_cell_mouse_up : DataGridState → DataGridState
on_cell_mouse_up s = record s {
  selection_state = record s.selection_state { is_selecting = false };
}

abbrev open_menu : MouseEvent → DataGridState → DataGridState
open_menu event s = record s {
  context_menu = record { is_open = true; x = event.client_x; y = event.client_y };
}

unfoldable pub on_cell_context_menu : CellPosition → MouseEvent → DataGridState → DataGridState
on_cell_context_menu p event s =
    let selected = record s {
      selection_state = record {
        selected_cells = key_of p ∷ [];
        selection_range = some (range p p);
        is_selecting = false;
      };
      focused_cell = some p;
    } in
    if has s.selection_state.selected_cells (key_of p)
    then open_menu event s
    else open_menu event selected

unfoldable pub on_context_menu_open_change : Bool → DataGridState → DataGridState
on_context_menu_open_change true s = s
on_context_menu_open_change false s = record s {
  context_menu = record s.context_menu { is_open = false };
}
