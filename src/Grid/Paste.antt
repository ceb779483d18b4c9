-- ===== src/Grid/Paste.antt =====
-- Pasting: onCellsPaste of useDataGrid. What it waits for is an argument: the clipboard's text, the
-- caller's answers and the rows that the table shows while rows are added; nothing else changes the
-- state while it waits. The focus of elements is left out.
pub mod Written
pub mod Confirmed
pub mod Dialog
pub mod Emptied
pub mod Outcome
pub mod Typed
mod Tests
use mizumi.Prelude.{
  ℕ, zero, suc, ◌+◌, Bool, true, false, not, ◌&&◌, ◌||◌, List, [], ◌∷◌, ◌++◌, map, Option, none,
  some, ℤ, pos, negsuc, ◌+ℤ◌, ◌-ℤ◌, ◌==ℤ◌, ltb_ℤ, leb_ℤ, max_ℤ, ltb, leb, length, if◌then◌else◌,
}
use mizumi.Text.{Text, is_empty}
use mizumi.Grid.Key.{CellPosition, position}
use mizumi.Grid.Columns.{index_of, get_at}
use mizumi.Grid.State.{DataGridState, closed_paste_dialog}
use mizumi.Grid.Select.{select_range}
use mizumi.Grid.Tsv.{parse_tsv}
use mizumi.Grid.Update.{CellUpdate}
use mizumi.Grid.Values.{CellOpts, CellValue}
use mizumi.Grid.Values.Process.{Tools, process_value}
use mizumi.Grid.Keyboard.{GridProps}
use mizumi.Grid.Keyboard.Handler.{is_nil, empty_cell}

-- The variables of the loops over the pasted cells; `cellsUpdated` is the number of updates.
pub record Pasted : Type 0 where
  pub updates : List (CellUpdate CellValue)
  pub cells_skipped : ℕ
  pub end_row : ℤ
  pub end_col : ℤ

abbrev pub nothing_pasted : ℤ → ℤ → Pasted
nothing_pasted row col = record { updates = []; cells_skipped = 0; end_row = row; end_col = col }

abbrev pub add_pasted : ℤ → ℤ → Text → Option CellValue → Pasted → Pasted
add_pasted row col id none c = record c {
  cells_skipped = suc c.cells_skipped;
  end_row = max_ℤ c.end_row row;
  end_col = max_ℤ c.end_col col;
}
add_pasted row col id (some v) c = record c {
  updates = c.updates ++ record { row_index = row; column_id = id; value = v } ∷ [];
  end_row = max_ℤ c.end_row row;
  end_col = max_ℤ c.end_col col;
}

module _ (g : GridProps) (tools : Tools) where
  -- A round of the inner loop: `if (!targetColumnId) continue`.
  unfoldable pub paste_cell : ℤ → ℤ → Option Text → Text → Pasted → Pasted
  unfolding process_value max_ℤ
  paste_cell row col none value c = c
  paste_cell row col (some []) value c = c
  paste_cell row col (some (d ∷ id)) value c =
      add_pasted row col (d ∷ id) (process_value tools (g.cell_opts (d ∷ id)) value) c

  -- The inner loop, from the column `col` on: `break` behind the last column.
  unfoldable pub paste_row : ℤ → ℤ → List Text → Pasted → Pasted
  unfolding paste_cell ◌+ℤ◌
  paste_row row col [] c = c
  paste_row row col (value ∷ values) c =
      let rest =
        paste_row row (col +ℤ pos 1) values
          (paste_cell row col (get_at g.navigable_ids col) value c) in
      if leb_ℤ (pos (length g.navigable_ids)) col then c else rest

  -- The outer loop, from the row `row` on: `break` behind the last row.
  unfoldable pub paste_rows : ℕ → ℤ → ℤ → List (List Text) → Pasted → Pasted
  unfolding paste_row ◌+ℤ◌
  paste_rows count row col [] c = c
  paste_rows count row col (values ∷ rows) c =
      let rest = paste_rows count (row +ℤ pos 1) col rows (paste_row row col values c) in
      if leb_ℤ (pos count) row then c else rest

-- The `while` that waits for the new rows: the table is read again until it shows enough of them or
-- no attempt is left; `row_counts` are the numbers of rows that it shows, from the current one on.
unfoldable pub await_rows : ℕ → ℤ → (ℕ → ℕ) → ℕ
await_rows zero expected row_counts = row_counts 0
await_rows (suc attempts) expected row_counts =
    let rest = await_rows attempts expected (λ n. row_counts (suc n)) in
    if ltb_ℤ (pos (row_counts 0)) expected then rest else row_counts 0

abbrev pub max_attempts : ℕ
max_attempts = 50

-- What happens outside of the hook: `clipboard_text` is none where reading it fails, `rows_added`
-- and `accepted` are whether the calls of onRowsAdd or onRowAdd, and of onPaste, succeed.
pub record Surroundings : Type 0 where
  pub clipboard_text : Option Text
  pub rows_added : Bool
  pub row_counts : ℕ → ℕ
  pub accepted : Bool

pub data Toast : Type 0 where
  no_toast : Toast
  pasted : ℕ → ℕ → Toast
  skipped : ℕ → Toast
  failed : Toast

-- The new state, the updates that onDataUpdate gets, and the message.
pub record PasteOutcome : Type 0 where
  pub state : DataGridState
  pub updates : List (CellUpdate CellValue)
  pub toast : Toast

abbrev pub stop : Toast → DataGridState → PasteOutcome
stop toast s = record { state = s; updates = []; toast = toast }

-- `clipboardText` of the dialog, or else that of the clipboard.
unfoldable pub text_to_paste : Text → Option Text → Option Text
text_to_paste [] text = text
text_to_paste (c ∷ s) text = some (c ∷ s)

abbrev pub close_dialog : DataGridState → DataGridState
close_dialog s =
    if s.paste_dialog.is_open then record s { paste_dialog = closed_paste_dialog } else s

module _ (g : GridProps) where
  -- `if (endColumnId) selectRange(…)`
  unfoldable pub select_pasted : CellPosition → ℤ → Option Text → DataGridState → DataGridState
  unfolding select_range
  select_pasted p row none s = s
  select_pasted p row (some []) s = s
  select_pasted p row (some (c ∷ id)) s = select_range g.all_ids p (position row (c ∷ id)) false s

  -- `allUpdates`: the cells that were cut are emptied.
  unfoldable pub with_cut : List Text → List (CellUpdate CellValue) → List (CellUpdate CellValue)
  unfolding empty_cell
  with_cut cut updates = updates ++ map (empty_cell g) cut

  -- What follows the loops.
  unfoldable pub finish_paste : Bool → CellPosition → Pasted → DataGridState → PasteOutcome
  unfolding select_pasted with_cut
  finish_paste accepted p c s =
      if not (is_nil c.updates)
      then if accepted
        then record {
          state = close_dialog (
              select_pasted p c.end_row (get_at g.navigable_ids c.end_col)
                (record s { cut_cells = [] }));
          updates = with_cut s.cut_cells c.updates;
          toast = pasted (length c.updates) c.cells_skipped;
        }
        else stop failed s
      else stop (if ltb 0 c.cells_skipped then skipped c.cells_skipped else no_toast)
          (close_dialog s)

module _ (g : GridProps) (tools : Tools) (w : Surroundings) where
  abbrev pub row_count : ℕ
  row_count = length g.shown

  -- The cells of `data` are pasted from the cell `p` on, which stands in the column `col`.
  unfoldable pub paste_data :
      Bool → CellPosition → ℤ → List (List Text) → DataGridState → PasteOutcome
  paste_data expand_rows p col rows s =
      let rows_needed = p.row_index +ℤ pos (length rows) -ℤ pos row_count in
      let expands = expand_rows && ltb_ℤ (pos 0) rows_needed in
      let count =
        if expands
        then await_rows max_attempts (pos row_count +ℤ rows_needed) w.row_counts
        else row_count in
      if expands && not w.rows_added
      then stop failed s
      else finish_paste g w.accepted p
          (paste_rows g tools count p.row_index col rows (nothing_pasted p.row_index col)) s

  abbrev open_dialog : ℤ → Text → DataGridState → DataGridState
  open_dialog rows_needed text s = record s {
    paste_dialog = record { is_open = true; rows_needed = rows_needed; clipboard_text = text };
  }

  -- The text is read and the dialog asks for more rows where they are missing.
  unfoldable pub paste_text_at : Bool → CellPosition → Text → DataGridState → PasteOutcome
  paste_text_at expand_rows p text s =
      let rows = parse_tsv text (length g.navigable_ids) in
      let col = index_of p.column_id g.navigable_ids in
      let rows_needed = p.row_index +ℤ pos (length rows) -ℤ pos row_count in
      if col ==ℤ negsuc 0
      then stop no_toast s
      else if ltb_ℤ (pos 0) rows_needed
          && not expand_rows
          && g.can_add_rows
          && is_empty s.paste_dialog.clipboard_text
      then stop no_toast (open_dialog rows_needed text s)
      else paste_data expand_rows p col rows s

  abbrev pub paste_read : Bool → CellPosition → Option Text → DataGridState → PasteOutcome
  paste_read expand_rows p none s = stop failed s
  paste_read expand_rows p (some []) s = stop no_toast s
  paste_read expand_rows p (some (c ∷ text)) s = paste_text_at expand_rows p (c ∷ text) s

  abbrev pub paste_at : Bool → Option CellPosition → DataGridState → PasteOutcome
  paste_at expand_rows none s = stop no_toast s
  paste_at expand_rows (some p) s =
      paste_read expand_rows p (text_to_paste s.paste_dialog.clipboard_text w.clipboard_text) s

  unfoldable pub on_cells_paste : Bool → DataGridState → PasteOutcome
  unfolding paste_text_at text_to_paste
  on_cells_paste expand_rows s =
      if g.read_only then stop no_toast s else paste_at expand_rows s.focused_cell s
