-- ===== src/Grid/Scroll.antt =====
-- The way to a row: onScrollToRow and onRowAdd of useDataGrid. The scrolling itself is left out; what
-- the loop reads in its rounds, the number of rows of the data and whether the cell is mounted, are
-- arguments.
pub mod Ends
mod Tests
use mizumi.Prelude.{
  ℕ, zero, suc, Bool, true, false, not, ◌&&◌, ◌||◌, List, [], ◌∷◌, Option, none, some, ℤ, pos, ◌-ℤ◌,
  leb_ℤ, min_ℤ, max_ℤ, get_elem?, if◌then◌else◌,
}
use mizumi.Text.{Text}
use mizumi.Grid.Key.{CellPosition, position}
use mizumi.Grid.Columns.{ColumnDef, column_ids, navigable_column_ids}
use mizumi.Grid.State.{DataGridState}
use mizumi.Grid.Select.{on_selection_clear}
use mizumi.Grid.Navigate.{focus_cell}

abbrev pub scroll_sync_retry_count : ℕ
scroll_sync_retry_count = 16

-- The state with `focusGuardRef`; `rounds` counts the rounds of the loop.
pub record Scrolled : Type 0 where
  pub state : DataGridState
  pub focus_guard : Bool
  pub rounds : ℕ

-- What the loop reads in round `k`: `data.length`, and whether cellMapRef has the cell.
pub record Rounds : Type 0 where
  pub data_length : ℕ → ℕ
  pub is_mounted : ℕ → Bool

-- `Math.min(rowIndex, Math.max(0, currentRowCount - 1))`
unfoldable pub safe_row_index : ℤ → ℕ → ℤ
unfolding min_ℤ max_ℤ ◌-ℤ◌
safe_row_index row count = min_ℤ row (max_ℤ (pos 0) (pos count -ℤ pos 1))

-- onScrollAndFocus with so many retries left, in round `k`; at its end the guard is released.
unfoldable pub scroll_and_focus : ℤ → Text → Rounds → ℕ → ℕ → DataGridState → Scrolled
unfolding safe_row_index focus_cell
scroll_and_focus row column r zero k s = record {
  state = focus_cell (position (safe_row_index row (r.data_length k)) column) s;
  focus_guard = false;
  rounds = suc k;
}
scroll_and_focus row column r (suc retries) k s =
    let focused = focus_cell (position (safe_row_index row (r.data_length k)) column) s in
    let wait = scroll_and_focus row column r retries (suc k) s in
    let again = scroll_and_focus row column r retries (suc k) focused in
    if leb_ℤ (pos (r.data_length k)) row
    then wait
    else if r.is_mounted k
    then record { state = focused; focus_guard = false; rounds = suc k }
    else again

-- `columnId ?? navigableIds[0]`
abbrev pub target_column : Option Text → List Text → Option Text
target_column none ids = get_elem? ids 0
target_column (some id) ids = some id

-- `opts?.rowIndex ?? 0`
abbrev row_or_zero : Option ℤ → ℤ
row_or_zero none = pos 0
row_or_zero (some row) = row

abbrev pub scroll_to : ℤ → Option Text → Rounds → DataGridState → Scrolled
scroll_to row none r s = record { state = s; focus_guard = false; rounds = 0 }
scroll_to row (some []) r s = record { state = s; focus_guard = false; rounds = 0 }
scroll_to row (some (c ∷ id)) r s = scroll_and_focus row (c ∷ id) r scroll_sync_retry_count 0 s

unfoldable pub on_scroll_to_row :
    List ColumnDef → Option ℤ → Option Text → Rounds → DataGridState → Scrolled
unfolding scroll_and_focus column_ids navigable_column_ids
on_scroll_to_row columns row column r s =
    scroll_to (row_or_zero row) (target_column column (navigable_column_ids (column_ids columns))) r
      s

-- What the caller's onRowAdd answers: it throws, it returns null, or it returns a position, of which
-- both parts may be missing.
pub data Added : Type 0 where
  throws null : Added
  at : Option ℤ → Option Text → Added

abbrev pub row_or : Option ℤ → ℕ → ℤ
row_or none count = pos count
row_or (some row) count = row

-- `can_add` is that the grid is not read-only and the caller gave onRowAdd, `prevented` is
-- `event?.defaultPrevented`, `data_length` the number of rows before the call.
unfoldable pub on_row_add :
    Bool → Bool → List ColumnDef → ℕ → Added → Rounds → DataGridState → DataGridState
unfolding on_scroll_to_row on_selection_clear
on_row_add can_add prevented columns data_length throws r s = s
on_row_add can_add prevented columns data_length null r s = s
on_row_add can_add prevented columns data_length (at row column) r s =
    let t =
      on_scroll_to_row columns (some (row_or row data_length)) column r (on_selection_clear s) in
    if not can_add || prevented then s else t.state
