-- ===== src/Grid/Paste/Confirmed.antt =====
-- A paste that needs more rows, asked for and confirmed.
use mizumi.Prelude.{
  ℕ, ◌+◌, ◌-◌, ◌<◌, ◌≤◌, ◌≡◌, refl, ap, ◌∙◌, true, false, List, [], ◌∷◌, some, ℤ, pos, negsuc, ◌+ℤ◌,
  ◌-ℤ◌, ◌==ℤ◌, ◌≤ℤ◌, ltb_ℤ, length, arith, if◌then◌else◌,
}
use mizumi.Text.{Text}
use mizumi.Grid.Key.{CellPosition, position}
use mizumi.Grid.Columns.{index_of}
use mizumi.Grid.State.{DataGridState, closed_paste_dialog}
use mizumi.Grid.Tsv.{parse_tsv}
use mizumi.Grid.Update.{CellUpdate}
use mizumi.Grid.Values.{CellValue}
use mizumi.Grid.Values.Process.{Tools}
use mizumi.Grid.Keyboard.{GridProps}
use mizumi.Grid.Keyboard.Handler.{is_nil}
use mizumi.Grid.Paste.{
  nothing_pasted, paste_rows, await_rows, max_attempts, Surroundings, PasteOutcome, no_toast, stop,
  text_to_paste, with_cut, finish_paste, paste_data, paste_text_at, on_cells_paste,
}
use mizumi.Grid.Paste.Written.{drop, updates_of, updates-paste_rows}
use mizumi.Grid.Paste.Outcome.{updates-finish_paste, on_cells_paste-text}
use mizumi.Grid.Paste.Dialog.{await_rows-enough, take_all, dialog-finish_paste}

module _ (g : GridProps) (tools : Tools) where
  abbrev rows_of : Text → List (List Text)
  rows_of text = parse_tsv text (length g.navigable_ids)

  -- The text `c ∷ text` of the clipboard is pasted at the row `r` and the column `n`, and has more
  -- rows than the table shows from there on; rows can be added.
  pub record IsTooLong (w : Surroundings) (s : DataGridState) (r n : ℕ) (id : Text) (c : ℕ)
      (text : Text) : Type 0 where
    pub editable : g.read_only ≡ false
    pub focus : s.focused_cell ≡ some (position (pos r) id)
    pub no_dialog : s.paste_dialog.clipboard_text ≡ []
    pub read : w.clipboard_text ≡ some (c ∷ text)
    pub column : index_of id g.navigable_ids ≡ pos n
    pub adds : g.can_add_rows ≡ true
    pub over : length g.shown < r + length (rows_of (c ∷ text))

  -- The caller adds the rows, the table comes to show them within the readings that are allowed,
  -- and onPaste does not fail.
  pub record IsConfirmed (w : Surroundings) (needed : ℕ) : Type 0 where
    pub added : w.rows_added ≡ true
    pub accepted : w.accepted ≡ true
    pub at : ℕ
    pub in_time : at ≤ max_attempts
    pub enough : needed ≤ w.row_counts at

  module _ (w : Surroundings) (s : DataGridState) (r n : ℕ) (id : Text) (c : ℕ) (text : Text)
      (h : IsTooLong w s r n id c text) where
    abbrev start : CellPosition
    start = position (pos r) id

    abbrev rows_needed : ℤ
    rows_needed = pos r +ℤ pos (length (rows_of (c ∷ text))) -ℤ pos (length g.shown)

    -- The state in which the dialog asks for the rows.
    abbrev asking : DataGridState
    asking = record s {
      paste_dialog = record {
        is_open = true;
        rows_needed = rows_needed;
        clipboard_text = c ∷ text;
      };
    }

    needs_rows : ltb_ℤ (pos 0) rows_needed ≡ true
    unfolding ◌+ℤ◌ ◌-ℤ◌
    needs_rows = ground (arith, h.over)

    in_column : (index_of id g.navigable_ids ==ℤ negsuc 0) ≡ false
    in_column = ap (λ i. i ==ℤ negsuc 0) h.column ∙ ground arith

    asks : on_cells_paste g tools w false s ≡ stop no_toast asking
    unfolding text_to_paste paste_text_at
    asks =
        on_cells_paste-text g tools false w s start c text h.editable h.focus
          (rw (h.no_dialog, h.read) refl)
        ∙ rw (in_column, needs_rows, h.adds, h.no_dialog) refl

    module _ (v : Surroundings) (k : IsConfirmed v (r + length (rows_of (c ∷ text)))) where
      abbrev count : ℕ
      count = await_rows max_attempts (pos (length g.shown) +ℤ rows_needed) v.row_counts

      count-enough : r + length (rows_of (c ∷ text)) ≤ count
      unfolding ◌+ℤ◌ ◌-ℤ◌
      count-enough =
          let e = expected in
          ground
            (arith, await_rows-enough max_attempts expected_count v.row_counts k.at k.in_time e)
        where
          expected_count : ℤ
          expected_count = pos (length g.shown) +ℤ rows_needed

          expected : expected_count ≤ℤ pos (v.row_counts k.at)
          expected = ground (arith, k.enough)

      paste_text_at-data :
          paste_text_at g tools v true start (c ∷ text) asking
          ≡ paste_data g tools v true start (pos n) (rows_of (c ∷ text)) asking
      unfolding paste_text_at
      paste_text_at-data =
          rw (in_column, needs_rows)
            (ap (λ i. paste_data g tools v true start i (rows_of (c ∷ text)) asking) h.column)

      paste_data-finish :
          paste_data g tools v true start (pos n) (rows_of (c ∷ text)) asking
          ≡ finish_paste g true start
              (paste_rows g tools count
                (pos r)
                (pos n)
                (rows_of (c ∷ text))
                (nothing_pasted (pos r) (pos n)))
              asking
      unfolding paste_data
      paste_data-finish = rw (needs_rows, k.added, k.accepted) refl

      abbrev pub whole : List (CellUpdate CellValue)
      whole = updates_of g tools r (drop n g.navigable_ids) (rows_of (c ∷ text))

      pasted-whole :
          let c' =
            paste_rows g tools count
              (pos r)
              (pos n)
              (rows_of (c ∷ text))
              (nothing_pasted (pos r) (pos n)) in
          c'.updates ≡ whole
      pasted-whole =
          updates-paste_rows g tools count r n (rows_of (c ∷ text))
          ∙ ap (updates_of g tools r (drop n g.navigable_ids))
              (take_all (count - r) (rows_of (c ∷ text)) (omega (arith, count-enough)))

      -- A text that is not empty and has more rows than the table from the focused cell on, pasted
      -- where the grid is not read-only, the focused column can be navigated to, rows can be added
      -- and the dialog is not in use: the first call writes nothing and opens the dialog. The second call, which the
      -- dialog makes to add rows, pastes the same text whatever the clipboard holds by then, and no
      -- row of it is dropped, provided that the rows are added and shown within the readings that
      -- are allowed and that onPaste does not fail; behind its updates stand those that empty the cells that were cut, and nothing
      -- is written where the text has no update. The dialog is closed and its text forgotten.
      pub on_cells_paste-confirmed :
          let t = (on_cells_paste g tools w false s).state in
          let o = on_cells_paste g tools v true t in
          ((on_cells_paste g tools w false s).updates ≡ [])
          × (t.paste_dialog.is_open ≡ true)
          × (o.updates ≡ (if is_nil whole then [] else with_cut g s.cut_cells whole))
          × (o.state.paste_dialog ≡ closed_paste_dialog)
      on_cells_paste-confirmed =
          let c' =
            paste_rows g tools count (pos r) (pos n) (rows_of (c ∷ text))
              (nothing_pasted (pos r) (pos n)) in
          let done : on_cells_paste g tools v true (on_cells_paste g tools w false s).state
              ≡ finish_paste g true start c' asking =
            ap (λ (o : PasteOutcome). on_cells_paste g tools v true o.state) asks
            ∙ on_cells_paste-text g tools true v asking start c text h.editable h.focus
                (unfold text_to_paste in refl)
            ∙ paste_text_at-data
            ∙ paste_data-finish in
          (
            ap (λ (o : PasteOutcome). o.updates) asks,
            ap (λ (o : PasteOutcome). o.state.paste_dialog.is_open) asks,
            ap (λ (o : PasteOutcome). o.updates) done
                ∙ updates-finish_paste g tools start c' asking
                ∙ ap (λ us. if is_nil us then [] else with_cut g s.cut_cells us) pasted-whole,
            ap (λ (o : PasteOutcome). o.state.paste_dialog) done
                ∙ dialog-finish_paste g start c' asking refl,
          )
