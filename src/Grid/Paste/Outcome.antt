-- ===== src/Grid/Paste/Outcome.antt =====
-- What a paste of text from the clipboard writes, without new rows.
use mizumi.Prelude.{
  ℕ, ◌+◌, ◌-◌, ◌≤◌, ◌≡◌, refl, ap, ap₂, ◌∙◌, ◌⊎◌, inl, inr, Bool, true, false, not, ◌&&◌, List, [],
  ◌∷◌, some, pos, negsuc, ◌+ℤ◌, ◌-ℤ◌, ◌==ℤ◌, ltb_ℤ, All, length, arith, if◌then◌else◌,
}
use mizumi.Text.{Text, is_empty}
use mizumi.Grid.Key.{CellPosition, position}
use mizumi.Grid.Columns.{index_of}
use mizumi.Grid.State.{DataGridState}
use mizumi.Grid.Tsv.{parse_tsv}
use mizumi.Grid.Update.{CellUpdate}
use mizumi.Grid.Values.{CellValue}
use mizumi.Grid.Values.Process.{Tools}
use mizumi.Grid.Keyboard.{GridProps}
use mizumi.Grid.Keyboard.Handler.{is_nil}
use mizumi.Grid.Paste.{
  Pasted, nothing_pasted, paste_rows, Surroundings, PasteOutcome, stop, no_toast, paste_at,
  paste_read, text_to_paste, with_cut, finish_paste, paste_data, paste_text_at, on_cells_paste,
}
use mizumi.Grid.Paste.Written.{
  drop, take, updates_of, updates-paste_rows, IsTarget, updates_of-IsTarget, has-drop,
}

if_not {ℓ} :
    {A B : Type ℓ} (b : Bool) (f : A → B) (x y : A)
    → f (if not b then x else y) ≡ (if b then f y else f x)
if_not true f x y = refl
if_not false f x y = refl

module _ (g : GridProps) (tools : Tools) where
  pub updates-finish_paste :
      (p : CellPosition) (c : Pasted) (s : DataGridState)
      → (finish_paste g true p c s).updates
        ≡ (if is_nil c.updates then [] else with_cut g s.cut_cells c.updates)
  unfolding finish_paste
  updates-finish_paste p c s = if_not (is_nil c.updates) (λ (o : PasteOutcome). o.updates) _ _

  pub on_cells_paste-text :
      (expand_rows : Bool) (w : Surroundings) (s : DataGridState) (p : CellPosition) (c : ℕ)
      (text : Text)
      → g.read_only ≡ false
      → s.focused_cell ≡ some p
      → text_to_paste s.paste_dialog.clipboard_text w.clipboard_text ≡ some (c ∷ text)
      → on_cells_paste g tools w expand_rows s ≡ paste_text_at g tools w expand_rows p (c ∷ text) s
  unfolding on_cells_paste
  on_cells_paste-text expand_rows w s p c text editable focus read =
      ap (λ b. if b then stop no_toast s else paste_at g tools w expand_rows s.focused_cell s)
        editable
      ∙ ap (λ o. paste_at g tools w expand_rows o s) focus
      ∙ ap (λ o. paste_read g tools w expand_rows p o s) read

  -- What a paste of the text needs to go through at once.
  pub record IsPaste (w : Surroundings) (s : DataGridState) (r n : ℕ) (id : Text) (text : Text)
      : Type 0 where
    pub editable : g.read_only ≡ false
    pub focus : s.focused_cell ≡ some (position (pos r) id)
    pub no_dialog : s.paste_dialog.clipboard_text ≡ []
    pub read : w.clipboard_text ≡ some text
    pub filled : is_empty text ≡ false
    pub column : index_of id g.navigable_ids ≡ pos n
    pub accepted : w.accepted ≡ true
    pub room :
        (g.can_add_rows ≡ false)
        ⊎ (r + length (parse_tsv text (length g.navigable_ids)) ≤ length g.shown)

  module _ (w : Surroundings) (s : DataGridState) (r n : ℕ) (id : Text) where
    abbrev rows_of : Text → List (List Text)
    rows_of text = parse_tsv text (length g.navigable_ids)

    abbrev start : CellPosition
    start = position (pos r) id

    no_rows_needed :
        (text : Text)
        → IsPaste w s r n id text
        → (ltb_ℤ (pos 0) (pos r +ℤ pos (length (rows_of text)) -ℤ pos (length g.shown))
            && not false
            && g.can_add_rows
            && is_empty s.paste_dialog.clipboard_text)
          ≡ false
    unfolding ◌+ℤ◌ ◌-ℤ◌
    no_rows_needed text h = elim h.room [ inl e ↦ ground (arith, e) | inr le ↦ ground (arith, le) ]

    paste_text_at-data :
        (text : Text)
        → IsPaste w s r n id text
        → paste_text_at g tools w false start text s
          ≡ paste_data g tools w false start (pos n) (rows_of text) s
    unfolding paste_text_at
    paste_text_at-data text h =
        let no_dialog = no_rows_needed text h in
        let in_column : (index_of id g.navigable_ids ==ℤ negsuc 0) ≡ false =
          ap (λ i. i ==ℤ negsuc 0) h.column ∙ ground arith in
        rw (in_column, no_dialog)
          (ap (λ i. paste_data g tools w false start i (rows_of text) s) h.column)

    -- What is pasted, and where: the updates of the text's rows from the focused cell on.
    abbrev pub updates_of_text : Text → List (CellUpdate CellValue)
    updates_of_text text =
        updates_of g tools r (drop n g.navigable_ids) (take (length g.shown - r) (rows_of text))

    paste_data-updates :
        (text : Text)
        → IsPaste w s r n id text
        → (paste_data g tools w false start (pos n) (rows_of text) s).updates ≡ (
            if is_nil (updates_of_text text)
            then []
            else with_cut g s.cut_cells (updates_of_text text))
    unfolding paste_data
    paste_data-updates text h =
        let c =
          paste_rows g tools (length g.shown) (pos r) (pos n) (rows_of text)
            (nothing_pasted (pos r) (pos n)) in
        ap (λ b. (finish_paste g b start c s).updates) h.accepted
        ∙ updates-finish_paste start c s
        ∙ ap (λ us. if is_nil us then [] else with_cut g s.cut_cells us)
            (updates-paste_rows g tools (length g.shown) r n (rows_of text))

    -- Where the grid is not read-only, the focus is on the row `r` and the column `n` of those that
    -- can be navigated to, the dialog is not in use, the clipboard gives a text that is not empty,
    -- onPaste does not fail, and either rows cannot be added or the text has room: pasting the text
    -- hands onDataUpdate the updates of its cells, laid over the table from the focused cell on,
    -- and behind them those that empty the cells that were cut; nothing where there are none of the
    -- former. Each of the former is for a row that the table shows, from `r` on, and for a
    -- column that can be navigated to.
    pub updates-on_cells_paste :
        (text : Text)
        → IsPaste w s r n id text
        → ((on_cells_paste g tools w false s).updates ≡ (
            if is_nil (updates_of_text text)
            then []
            else with_cut g s.cut_cells (updates_of_text text)))
          × All (IsTarget g tools r (length g.shown)) (updates_of_text text)
    unfolding text_to_paste
    updates-on_cells_paste [] h = absurd (ground (arith, h.filled))
    updates-on_cells_paste (c ∷ text) h = (
      ap (λ (o : PasteOutcome). o.updates)
            (on_cells_paste-text false w s start c text h.editable h.focus
                (ap₂ text_to_paste h.no_dialog h.read)
              ∙ paste_text_at-data (c ∷ text) h)
          ∙ paste_data-updates (c ∷ text) h,
      updates_of-IsTarget g tools r (length g.shown) r (drop n g.navigable_ids) (rows_of (c ∷ text))
          (omega arith) (has-drop g.navigable_ids n),
    )
