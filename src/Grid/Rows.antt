-- ===== src/Grid/Rows.antt =====
-- The selection of rows: onRowSelectionChange and onRowSelect of useDataGrid. A RowSelectionState
-- is the list of its keys with their values, in the order of insertion; JavaScript lists keys that
-- look like integers first, on which only the order of the selected cells depends.
pub mod Selected
mod Tests
use mizumi.Prelude.{
  ℕ, Bool, true, false, List, [], ◌∷◌, Option, none, some, ℤ, pos, negsuc, ◌==ℤ◌, min_ℤ, max_ℤ,
  for_range, map, if◌then◌else◌,
}
use mizumi.Text.{Text, text_eq}
use mizumi.Grid.Columns.{index_of, get_at}
use mizumi.Grid.State.{DataGridState}
use mizumi.Grid.Select.{add_row}

abbrev pub RowSelection : Type 0
RowSelection = List (Text × Bool)

-- Whether `selection[id]` is truthy.
unfoldable pub is_on : RowSelection → Text → Bool
is_on [] id = false
is_on ((key, flag) ∷ m) id = let rest = is_on m id in if text_eq key id then flag else rest

-- `selection[id] = flag`.
unfoldable pub set_flag : Text → Bool → RowSelection → RowSelection
set_flag id flag [] = (id, flag) ∷ []
set_flag id flag ((key, old) ∷ m) =
    let rest = set_flag id flag m in if text_eq key id then (key, flag) ∷ m else (key, old) ∷ rest

unfoldable pub keep_on : RowSelection → List Text → List Text
unfolding is_on
keep_on m [] = []
keep_on m (key ∷ keys) = let rest = keep_on m keys in if is_on m key then key ∷ rest else rest

abbrev keys_of : RowSelection → List Text
keys_of [] = []
keys_of ((key, flag) ∷ m) = key ∷ keys_of m

-- `Object.keys(selection).filter((key) => selection[key])`
unfoldable pub selected_rows : RowSelection → List Text
unfolding keep_on
selected_rows m = keep_on m (keys_of m)

-- The new selection, or a function of the old one.
pub data Updater : Type 0 where
  set_to : RowSelection → Updater
  update : (RowSelection → RowSelection) → Updater

abbrev apply_updater : Updater → RowSelection → RowSelection
apply_updater (set_to m) old = m
apply_updater (update f) old = f old

-- `row_ids` are the ids of the rows that the table shows, `column_ids` those of the columns.
module _ (row_ids column_ids : List Text) where
  -- A round of the loop over the selected rows: `continue` where the table does not show the row.
  unfoldable pub add_selected_row : ℤ → List Text → List Text
  unfolding add_row
  add_selected_row index keys = if index ==ℤ negsuc 0 then keys else add_row index column_ids keys

  unfoldable pub add_selected_rows : List Text → List Text → List Text
  unfolding add_selected_row index_of
  add_selected_rows [] keys = keys
  add_selected_rows (id ∷ ids) keys =
      add_selected_rows ids (add_selected_row (index_of id row_ids) keys)

  unfoldable pub on_row_selection_change : Updater → DataGridState → DataGridState
  unfolding add_selected_rows selected_rows
  on_row_selection_change updater s =
      let new = apply_updater updater s.row_selection in
      record s {
        row_selection = new;
        selection_state = record {
          selected_cells = add_selected_rows (selected_rows new) [];
          selection_range = none;
          is_selecting = false;
        };
        focused_cell = none;
        editing_cell = none;
      }

  abbrev set_row : Bool → Option Text → RowSelection → RowSelection
  set_row selected none m = m
  set_row selected (some id) m = set_flag id selected m

  -- `newRowSelection` of a click with Shift.
  unfoldable pub set_range : Bool → ℤ → ℤ → RowSelection → RowSelection
  unfolding set_flag min_ℤ max_ℤ
  set_range selected last current m =
      for_range (min_ℤ last current) (max_ℤ last current) (λ i. set_row selected (get_at row_ids i))
        m

  abbrev range_or_row : Text → Bool → ℤ → ℤ → RowSelection → RowSelection
  range_or_row id selected last current m =
      if last ==ℤ negsuc 0 then set_flag id selected m else set_range selected last current m

  -- The new selection; a Shift without a row that was clicked before is no Shift.
  unfoldable pub new_selection : Text → Bool → Bool → Option Text → ℤ → RowSelection → RowSelection
  unfolding set_range
  new_selection id selected true (some last) current m =
      range_or_row id selected (index_of last row_ids) current m
  new_selection id selected _ _ current m = set_flag id selected m

  unfoldable pub on_row_select : Text → Bool → Bool → DataGridState → DataGridState
  unfolding on_row_selection_change new_selection
  on_row_select id selected shift_key s =
      let current = index_of id row_ids in
      let new = new_selection id selected shift_key s.last_clicked_row_id current s.row_selection in
      let changed = on_row_selection_change (set_to new) s in
      if current ==ℤ negsuc 0 then s else record changed { last_clicked_row_id = some id }
