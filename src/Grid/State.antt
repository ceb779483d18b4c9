-- ===== src/Grid/State.antt =====
-- DataGridState of packages/webui/hooks/use-data-grid.ts and the types that it holds, of
-- packages/webui/types/data-grid.ts. `sorting`, `columnFilters` and `rowHeight` are left out: the
-- hook passes them on to the table and reads them nowhere else.
use mizumi.Prelude.{Bool, false, List, [], Option, none, ℤ, pos, negsuc}
use mizumi.Text.{Text}
use mizumi.Grid.Key.{CellPosition}

pub record CellRange : Type 0 where
  pub start : CellPosition
  pub end : CellPosition

-- `selectedCells` holds cell keys, in the order in which they were added.
pub record SelectionState : Type 0 where
  pub selected_cells : List Text
  pub selection_range : Option CellRange
  pub is_selecting : Bool

pub record ContextMenuState : Type 0 where
  pub is_open : Bool
  pub x : ℤ
  pub y : ℤ

pub record PasteDialogState : Type 0 where
  pub is_open : Bool
  pub rows_needed : ℤ
  pub clipboard_text : Text

pub record DataGridState : Type 0 where
  pub row_selection : List (Text × Bool)
  pub selection_state : SelectionState
  pub focused_cell : Option CellPosition
  pub editing_cell : Option CellPosition
  pub cut_cells : List Text
  pub context_menu : ContextMenuState
  pub search_query : Text
  pub search_matches : List CellPosition
  pub match_index : ℤ
  pub search_open : Bool
  pub last_clicked_row_id : Option Text
  pub paste_dialog : PasteDialogState

abbrev pub no_selection : SelectionState
no_selection = record { selected_cells = []; selection_range = none; is_selecting = false }

abbrev pub closed_paste_dialog : PasteDialogState
closed_paste_dialog = record { is_open = false; rows_needed = pos 0; clipboard_text = [] }

-- The state that the hook starts with; `rowSelection` is the caller's initial one.
unfoldable pub initial_state : List (Text × Bool) → DataGridState
initial_state row_selection = record {
  row_selection = row_selection;
  selection_state = no_selection;
  focused_cell = none;
  editing_cell = none;
  cut_cells = [];
  context_menu = record { is_open = false; x = pos 0; y = pos 0 };
  search_query = [];
  search_matches = [];
  match_index = negsuc 0;
  search_open = false;
  last_clicked_row_id = none;
  paste_dialog = closed_paste_dialog;
}
