-- ===== src/Grid/Paste/Emptied.antt =====
-- What becomes of cells that were cut when they are pasted.
use mizumi.Prelude.{
  ℕ, ◌≡◌, refl, ap, ◌∙◌, true, false, List, [], ◌∷◌, ◌++◌, map, Option, none, some, if_cases, ℤ,
  pos, ◌==ℤ◌, All, get_elem?, if◌then◌else◌,
}
use mizumi.Text.{Text}
use mizumi.Text.Sets.{has}
use mizumi.Grid.Key.{CellPosition, cell_key}
use mizumi.Grid.Columns.{get_at}
use mizumi.Grid.Select.{select_range}
use mizumi.Grid.State.{DataGridState}
use mizumi.Grid.Update.{DataRow, CellUpdate, target_index, on_data_update}
use mizumi.Grid.Update.Lookup.{is_target, last_value, new_cell, new_cell-on_data_update}
use mizumi.Grid.Values.{CellValue}
use mizumi.Grid.Keyboard.{GridProps}
use mizumi.Grid.Keyboard.Handler.{empty_cell}
use mizumi.Grid.Keyboard.Clear.{key_at, HasKey, empty_of, last_value-empty_cells}
use mizumi.Grid.Paste.{Pasted, with_cut, select_pasted, close_dialog, finish_paste}

last_value-append :
    {Value : Type 0} (shown : Option (List (DataRow Value))) (rows : List (Option (DataRow Value)))
    (us vs : List (CellUpdate Value)) (i : ℤ) (column : Text) (old : Value)
    → last_value shown rows (us ++ vs) i column old
      ≡ last_value shown rows vs i column (last_value shown rows us i column old)
last_value-append shown rows [] vs i column old = refl
last_value-append shown rows (u ∷ us) vs i column old =
    last_value-append shown rows us vs i column _

cut_cells-close_dialog : (s : DataGridState) → (close_dialog s).cut_cells ≡ s.cut_cells
cut_cells-close_dialog s =
    if_cases (λ (t : DataGridState). t.cut_cells ≡ s.cut_cells) s.paste_dialog.is_open (λ _. refl)
      (λ _. refl)

cut_cells-select_pasted :
    (g : GridProps) (p : CellPosition) (row : ℤ) (o : Option Text) (s : DataGridState)
    → (select_pasted g p row o s).cut_cells ≡ s.cut_cells
unfolding select_pasted select_range
cut_cells-select_pasted g p row none s = refl
cut_cells-select_pasted g p row (some []) s = refl
cut_cells-select_pasted g p row (some (c ∷ id)) s = refl

-- After a paste that wrote something, no cell is marked as cut any more, and in the new data each
-- cell that was cut (of a column whose id is not empty and holds no colon) has the empty value of
-- its column, also where a value was pasted onto it; every other cell has the last value that was
-- pasted onto it, or its old one. It is assumed that the table shows the data's row at `j` and
-- nowhere else, and that onPaste does not fail.
pub new_cell-finish_paste :
    (g : GridProps) (p : CellPosition) (c : Pasted) (s : DataGridState) (u : CellUpdate CellValue)
    (us : List (CellUpdate CellValue)) (cut : List CellPosition)
    (shown : Option (List (DataRow CellValue))) (rows : List (Option (DataRow CellValue))) (i : ℕ)
    (j : ℤ) (row : DataRow CellValue) (column : Text)
    → c.updates ≡ u ∷ us
    → s.cut_cells ≡ map key_at cut
    → All HasKey cut
    → get_elem? rows i ≡ some (some row)
    → ((k : ℤ) → is_target (target_index shown rows k) (pos i) ≡ (k ==ℤ j))
    → let o = finish_paste g true p c s in
      (new_cell (on_data_update false shown rows o.updates) i column
        ≡ some (
            if has s.cut_cells (cell_key j column)
            then empty_of g column
            else last_value shown rows (u ∷ us) (pos i) column (row.fields column)))
      × (o.state.cut_cells ≡ [])
unfolding finish_paste with_cut
new_cell-finish_paste g p c s u us cut shown rows i j row column wrote marked keys here at =
    rw (wrote, marked)
      (
        new_cell-on_data_update shown rows u (us ++ map (empty_cell g) (map key_at cut)) i row
              column here
            ∙ ap some (
                last_value-append shown rows (u ∷ us) (map (empty_cell g) (map key_at cut)) (pos i)
                  column (row.fields column)
                ∙ last_value-empty_cells g shown rows i j at column cut _ keys),
        cut_cells-close_dialog _
            ∙ cut_cells-select_pasted g p c.end_row (get_at g.navigable_ids c.end_col)
                (record s { cut_cells = [] }),
      )
