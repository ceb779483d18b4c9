-- ===== src/Grid/Keyboard.antt =====
-- The keyboard: onDataGridKeyDown of useDataGrid. The text of the event's `key` is a constructor of
-- `Key`. What the handler asks of the caller or of the clipboard, whose answers come later, is a
-- request beside the new state; scrolling, preventDefault and the focus of elements are left out.
pub mod Arrows
pub mod Clear
pub mod Edge
pub mod Extend
pub mod Extension
pub mod Guards
pub mod Handler
pub mod Indices
pub mod Session
pub mod Sound
mod Tests
use mizumi.Prelude.{
  ℕ, zero, suc, Bool, true, false, not, ◌&&◌, ◌||◌, List, [], ◌∷◌, Option, none, some, ℤ, length,
  ◌==◌, if◌then◌else◌,
}
use mizumi.Text.{Text}
use mizumi.Grid.Update.{CellUpdate}
use mizumi.Grid.State.{DataGridState}
use mizumi.Grid.Values.{CellOpts, CellValue}
use mizumi.Grid.Navigate.{Layout}

-- `unnamed` is any key that the handler has no case for.
pub data Key : Type 0 where
  arrow_up arrow_down arrow_left arrow_right home_key end_key page_up page_down : Key
  escape tab_key enter delete_key backspace unnamed : Key
  character : ℕ → Key

pub record KeyEvent : Type 0 where
  pub key : Key
  pub ctrl_key : Bool
  pub meta_key : Bool
  pub shift_key : Bool
  pub alt_key : Bool

-- A row that the table shows: its id, and `row.index`.
pub record ShownRow : Type 0 where
  pub id : Text
  pub index : ℤ

-- The properties of the grid and the table that the handler reads. `can_delete_rows` and
-- `can_add_rows` are that the caller gave onRowsDelete and onRowAdd.
pub record GridProps : Type 0 where
  pub enable_search : Bool
  pub enable_paste : Bool
  pub read_only : Bool
  pub can_delete_rows : Bool
  pub can_add_rows : Bool
  pub is_rtl : Bool
  pub page_size : ℕ
  pub shown : List ShownRow
  pub data_length : ℕ
  pub all_ids : List Text
  pub navigable_ids : List Text
  pub cell_opts : Text → Option CellOpts

-- `rows.length || data.length`
unfoldable pub or_length : ℕ → ℕ → ℕ
or_length zero n = n
or_length (suc m) n = suc m

-- `rowCount` where a selection grows.
unfoldable pub row_count_of : GridProps → ℕ
unfolding or_length
row_count_of g = or_length (length g.shown) g.data_length

-- What navigateCell reads. Its `rows.length ?? data.length` is `rows.length`, a number.
unfoldable pub layout_of : GridProps → Layout
layout_of g = record {
  columns = g.navigable_ids;
  row_count = length g.shown;
  is_rtl = g.is_rtl;
  page_size = g.page_size;
}

-- What the handler asks for: the deletion of rows, onCellsCopy, onCellsCut, onCellsPaste,
-- onDataUpdate, and the caller's onRowAdd.
pub data Request : Type 0 where
  delete_rows : List ℤ → Request
  copy_cells cut_cells paste_cells : Request
  update_data : List (CellUpdate CellValue) → Request
  add_row_from : Text → Request

pub record Outcome : Type 0 where
  pub state : DataGridState
  pub request : Option Request

abbrev pub answer : DataGridState → Outcome
answer s = record { state = s; request = none }

abbrev pub ask : Request → DataGridState → Outcome
ask r s = record { state = s; request = some r }

-- `isCtrlPressed`
abbrev pub is_ctrl : KeyEvent → Bool
is_ctrl e = e.ctrl_key || e.meta_key

abbrev pub is_character : ℕ → Key → Bool
is_character c (character d) = d == c
is_character c _ = false

abbrev pub is_tab : Key → Bool
is_tab tab_key = true
is_tab _ = false

-- Delete or Backspace.
abbrev pub is_deletion : Key → Bool
is_deletion delete_key = true
is_deletion backspace = true
is_deletion _ = false

abbrev pub is_enter : Key → Bool
is_enter enter = true
is_enter _ = false

-- A letter with Ctrl and without Shift.
abbrev pub is_shortcut : ℕ → KeyEvent → Bool
is_shortcut c e = is_ctrl e && not e.shift_key && is_character c e.key
