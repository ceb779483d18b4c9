-- ===== src/Grid/Paste/Typed.antt =====
-- Every update that a paste hands on suits the column that it is for.
use mizumi.Prelude.{
  AllSome, ℕ, Bool, not, ◌&&◌, List, [], ◌∷◌, map, Option, none, some, ℤ, pos, negsuc, ◌+ℤ◌, ◌-ℤ◌,
  ◌==ℤ◌, ltb_ℤ, leb_ℤ, All, All-append, length, if_cases, if◌then◌else◌,
}
use mizumi.Text.{Text, is_empty}
use mizumi.Grid.Key.{CellPosition, parse_cell_key}
use mizumi.Grid.Columns.{index_of, get_at}
use mizumi.Grid.State.{DataGridState}
use mizumi.Grid.Tsv.{parse_tsv}
use mizumi.Grid.Update.{CellUpdate}
use mizumi.Grid.Values.{CellValue}
use mizumi.Grid.Values.Process.{Tools, process_value}
use mizumi.Grid.Values.Typed.{Suits, get_empty_cell_value-Suits, process_value-Suits}
use mizumi.Grid.Keyboard.{GridProps}
use mizumi.Grid.Keyboard.Handler.{is_nil, empty_cell}
use mizumi.Grid.Paste.{
  Pasted, nothing_pasted, add_pasted, paste_cell, paste_row, paste_rows, await_rows, max_attempts,
  Surroundings, PasteOutcome, text_to_paste, with_cut, finish_paste, paste_data, paste_text_at,
  paste_read, paste_at, on_cells_paste,
}

module _ (g : GridProps) (tools : Tools) where
  abbrev pub IsTyped : CellUpdate CellValue → Type 0
  IsTyped u = Suits tools (g.cell_opts u.column_id) u.value

  abbrev AllTyped : Pasted → Type 0
  AllTyped c = All IsTyped c.updates

  add_pasted-AllTyped :
      (row col : ℤ) (id : Text) (o : Option CellValue) (c : Pasted)
      → AllSome (Suits tools (g.cell_opts id)) o
      → AllTyped c
      → AllTyped (add_pasted row col id o c)
  add_pasted-AllTyped row col id none c h hs = hs
  add_pasted-AllTyped row col id (some v) c h hs =
      All-append IsTyped c.updates (record { row_index = row; column_id = id; value = v } ∷ []) hs
        (h, tt)

  paste_cell-AllTyped :
      (row col : ℤ) (o : Option Text) (v : Text) (c : Pasted)
      → AllTyped c
      → AllTyped (paste_cell g tools row col o v c)
  unfolding paste_cell
  paste_cell-AllTyped row col none v c h = h
  paste_cell-AllTyped row col (some []) v c h = h
  paste_cell-AllTyped row col (some (d ∷ id)) v c h =
      add_pasted-AllTyped row col (d ∷ id) (process_value tools (g.cell_opts (d ∷ id)) v) c
        (process_value-Suits tools (g.cell_opts (d ∷ id)) v) h

  paste_row-AllTyped :
      (row col : ℤ) (vs : List Text) (c : Pasted)
      → AllTyped c
      → AllTyped (paste_row g tools row col vs c)
  unfolding paste_row
  paste_row-AllTyped row col [] c h = h
  paste_row-AllTyped row col (v ∷ vs) c h =
      if_cases AllTyped (leb_ℤ (pos (length g.navigable_ids)) col) (λ _. h)
        (λ _.
          paste_row-AllTyped row (col +ℤ pos 1) vs _
            (paste_cell-AllTyped row col (get_at g.navigable_ids col) v c h))

  paste_rows-AllTyped :
      (count : ℕ) (row col : ℤ) (rows : List (List Text)) (c : Pasted)
      → AllTyped c
      → AllTyped (paste_rows g tools count row col rows c)
  unfolding paste_rows
  paste_rows-AllTyped count row col [] c h = h
  paste_rows-AllTyped count row col (vs ∷ rows) c h =
      if_cases AllTyped (leb_ℤ (pos count) row) (λ _. h)
        (λ _.
          paste_rows-AllTyped count (row +ℤ pos 1) col rows _ (paste_row-AllTyped row col vs c h))

  empty_cells-IsTyped : (keys : List Text) → All IsTyped (map (empty_cell g) keys)
  unfolding empty_cell
  empty_cells-IsTyped [] = tt
  empty_cells-IsTyped (key ∷ keys) = (
    get_empty_cell_value-Suits tools (g.cell_opts (parse_cell_key key).column_id),
    empty_cells-IsTyped keys,
  )

  abbrev OutcomeTyped : PasteOutcome → Type 0
  OutcomeTyped o = All IsTyped o.updates

  finish_paste-OutcomeTyped :
      (accepted : Bool) (p : CellPosition) (c : Pasted) (s : DataGridState)
      → AllTyped c
      → OutcomeTyped (finish_paste g accepted p c s)
  unfolding finish_paste with_cut
  finish_paste-OutcomeTyped accepted p c s h =
      if_cases OutcomeTyped (not (is_nil c.updates))
        (λ _.
          if_cases OutcomeTyped accepted
            (λ _.
              All-append IsTyped c.updates (map (empty_cell g) s.cut_cells) h
                (empty_cells-IsTyped s.cut_cells))
            (λ _. tt))
        (λ _. tt)

  module _ (w : Surroundings) (expand_rows : Bool) where
    paste_data-OutcomeTyped :
        (p : CellPosition) (col : ℤ) (rows : List (List Text)) (s : DataGridState)
        → OutcomeTyped (paste_data g tools w expand_rows p col rows s)
    unfolding paste_data
    paste_data-OutcomeTyped p col rows s =
        let needed = p.row_index +ℤ pos (length rows) -ℤ pos (length g.shown) in
        let expands = expand_rows && ltb_ℤ (pos 0) needed in
        let count =
          if expands
          then await_rows max_attempts (pos (length g.shown) +ℤ needed) w.row_counts
          else length g.shown in
        if_cases OutcomeTyped (expands && not w.rows_added) (λ _. tt)
          (λ _.
            finish_paste-OutcomeTyped w.accepted p _ s
              (paste_rows-AllTyped count p.row_index col rows (nothing_pasted p.row_index col) tt))

    paste_text_at-OutcomeTyped :
        (p : CellPosition) (text : Text) (s : DataGridState)
        → OutcomeTyped (paste_text_at g tools w expand_rows p text s)
    unfolding paste_text_at
    paste_text_at-OutcomeTyped p text s =
        let rows = parse_tsv text (length g.navigable_ids) in
        let col = index_of p.column_id g.navigable_ids in
        let needed = p.row_index +ℤ pos (length rows) -ℤ pos (length g.shown) in
        if_cases OutcomeTyped (col ==ℤ negsuc 0) (λ _. tt)
          (λ _.
            if_cases OutcomeTyped
              (ltb_ℤ (pos 0) needed
                && not expand_rows
                && g.can_add_rows
                && is_empty s.paste_dialog.clipboard_text)
              (λ _. tt) (λ _. paste_data-OutcomeTyped p col rows s))

    paste_read-OutcomeTyped :
        (p : CellPosition) (o : Option Text) (s : DataGridState)
        → OutcomeTyped (paste_read g tools w expand_rows p o s)
    paste_read-OutcomeTyped p none s = tt
    paste_read-OutcomeTyped p (some []) s = tt
    paste_read-OutcomeTyped p (some (c ∷ text)) s = paste_text_at-OutcomeTyped p (c ∷ text) s

    paste_at-OutcomeTyped :
        (o : Option CellPosition) (s : DataGridState)
        → OutcomeTyped (paste_at g tools w expand_rows o s)
    paste_at-OutcomeTyped none s = tt
    paste_at-OutcomeTyped (some p) s =
        paste_read-OutcomeTyped p (text_to_paste s.paste_dialog.clipboard_text w.clipboard_text) s

    -- Whatever the clipboard and the dialog hold, whether rows are added or not: each value that a
    -- paste writes suits its column. A number or date is valid or null, a choice is the value of an
    -- option or empty, an array has options' values or files only, and so on; this includes the
    -- values that empty the cells that were cut.
    pub on_cells_paste-IsTyped :
        (s : DataGridState) → All IsTyped (on_cells_paste g tools w expand_rows s).updates
    unfolding on_cells_paste
    on_cells_paste-IsTyped s =
        if_cases OutcomeTyped g.read_only (λ _. tt) (λ _. paste_at-OutcomeTyped s.focused_cell s)
