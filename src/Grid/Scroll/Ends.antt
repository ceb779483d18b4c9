-- ===== src/Grid/Scroll/Ends.antt =====
-- Where the way to a row ends.
use mizumi.Prelude.{
  ℕ, zero, suc, ◌+◌, ◌≤◌, ◌≡◌, refl, ap, ◌∙◌, ◌⊎◌, inl, inr, true, false, List, ◌∷◌, Option, some,
  ℤ, pos, ◌≤ℤ◌, ◌<ℤ◌, ◌-ℤ◌, leb_ℤ, min_ℤ, max_ℤ, arith, if_cases,
}
use mizumi.Text.{Text}
use mizumi.Grid.Key.{CellPosition, position}
use mizumi.Grid.Columns.{ColumnDef, column_ids, navigable_column_ids}
use mizumi.Grid.State.{DataGridState}
use mizumi.Grid.Select.{on_selection_clear}
use mizumi.Grid.Navigate.{focus_cell}
use mizumi.Grid.Scroll.{
  scroll_sync_retry_count, Scrolled, Rounds, safe_row_index, scroll_and_focus, target_column,
  scroll_to, on_scroll_to_row, at, row_or, on_row_add,
}

focus_cell_again :
    (p q : CellPosition) (s : DataGridState) → focus_cell q (focus_cell p s) ≡ focus_cell q s
unfolding focus_cell
focus_cell_again p q s = refl

min_ℤ-left : (a b : ℤ) → a ≤ℤ b → min_ℤ a b ≡ a
unfolding min_ℤ
min_ℤ-left a b h = ground arith

le-max_ℤ : (a b c : ℤ) → c ≤ℤ b → c ≤ℤ max_ℤ a b
unfolding max_ℤ
le-max_ℤ a b c h = ground arith

before_count : (row : ℤ) (count : ℕ) → row <ℤ pos count → row ≤ℤ pos count -ℤ pos 1
unfolding ◌-ℤ◌
before_count row count h = ground arith

safe_row_index-row : (row : ℤ) (count : ℕ) → row <ℤ pos count → safe_row_index row count ≡ row
unfolding safe_row_index
safe_row_index-row row count h =
    min_ℤ-left row (max_ℤ (pos 0) (pos count -ℤ pos 1))
      (le-max_ℤ (pos 0) (pos count -ℤ pos 1) row (before_count row count h))

module _ (row : ℤ) (column : Text) (r : Rounds) where
  -- The cell that round `m` focuses.
  abbrev pub target : ℕ → CellPosition
  target m = position (safe_row_index row (r.data_length m)) column

  -- Round `m` is the last: the row is there and its cell mounted, or no round is left.
  abbrev pub IsLast : ℕ → ℕ → Type 0
  IsLast m last = ((row <ℤ pos (r.data_length m)) × (r.is_mounted m ≡ true)) ⊎ (m ≡ last)

  abbrev Ends : ℕ → ℕ → DataGridState → Scrolled → Type 0
  Ends retries k s t =
      (m : ℕ) × (k ≤ m)
      × (m ≤ k + retries)
      × (t.state ≡ focus_cell (target m) s)
      × (t.focus_guard ≡ false)
      × (t.rounds ≡ suc m)
      × IsLast m (k + retries)

  scroll_and_focus-Ends :
      (retries k : ℕ) (s : DataGridState)
      → Ends retries k s (scroll_and_focus row column r retries k s)
  unfolding scroll_and_focus
  scroll_and_focus-Ends zero k s =
      (k, omega arith, omega arith, refl, refl, refl, inr (omega arith))
  scroll_and_focus-Ends (suc n) k s =
      if_cases (Ends (suc n) k s) (leb_ℤ (pos (r.data_length k)) row)
        (λ _.
          let (m, a, b, c, d, e, last) = scroll_and_focus-Ends n (suc k) s in
          (m, omega arith, omega arith, c, d, e, shift m last))
        (λ b.
          if_cases (Ends (suc n) k s) (r.is_mounted k)
            (λ mounted.
              (k, omega arith, omega arith, refl, refl, refl, inl (ground (arith, b), mounted)))
            (λ _.
              let focused = focus_cell (target k) s in
              let (m, a, b, c, d, e, last) = scroll_and_focus-Ends n (suc k) focused in
              (
                m,
                omega arith,
                omega arith,
                c ∙ focus_cell_again (target k) (target m) s,
                d,
                e,
                shift m last,
              )))
    where
      shift : (m : ℕ) → IsLast m (suc k + n) → IsLast m (k + suc n)
      shift m (inl h) = inl h
      shift m (inr e) = inr (omega arith)

on_scroll_to_row-scroll :
    (columns : List ColumnDef) (row : ℤ) (column : Option Text) (r : Rounds) (s : DataGridState)
    (c : ℕ) (id : Text)
    → target_column column (navigable_column_ids (column_ids columns)) ≡ some (c ∷ id)
    → on_scroll_to_row columns (some row) column r s
      ≡ scroll_and_focus row (c ∷ id) r scroll_sync_retry_count 0 s
unfolding on_scroll_to_row
on_scroll_to_row-scroll columns row column r s c id e = ap (λ o. scroll_to row o r s) e

-- After the caller has added a row, with a column to go to: the way to the row ends in one of at
-- most 17 rounds. The selection is cleared, and the focus is in that column and on the row that the
-- caller named, or on the row behind the former last one; where the data has no such row in the
-- last round, on a row that was cut down to the data. No cell is edited. Unless the rounds ran
-- out, the row was there and its cell mounted.
pub on_row_add-ends :
    (columns : List ColumnDef) (data_length : ℕ) (row : Option ℤ) (column : Option Text)
    (r : Rounds) (s : DataGridState) (c : ℕ) (id : Text)
    → target_column column (navigable_column_ids (column_ids columns)) ≡ some (c ∷ id)
    → let t = on_row_add true false columns data_length (at row column) r s in
      let wanted = row_or row data_length in
      (m : ℕ) × (m ≤ scroll_sync_retry_count)
      × (t ≡ focus_cell (target wanted (c ∷ id) r m) (on_selection_clear s))
      × IsLast wanted (c ∷ id) r m scroll_sync_retry_count
      × (wanted <ℤ pos (r.data_length m) → t.focused_cell ≡ some (position wanted (c ∷ id)))
unfolding on_row_add
on_row_add-ends columns data_length row column r s c id e =
    let wanted = row_or row data_length in
    let (m, _, le, state, _, _, last) =
      scroll_and_focus-Ends wanted (c ∷ id) r scroll_sync_retry_count 0 (on_selection_clear s) in
    let there : on_row_add true false columns data_length (at row column) r s
        ≡ focus_cell (target wanted (c ∷ id) r m) (on_selection_clear s) =
      ap (λ (t : Scrolled). t.state)
        (on_scroll_to_row-scroll columns wanted column r (on_selection_clear s) c id e)
      ∙ state in
    (
      m,
      le,
      there,
      last,
      λ inside.
          ap (λ (t : DataGridState). t.focused_cell) there
          ∙ (unfold focus_cell in
              ap (λ i. some (position i (c ∷ id)))
                (safe_row_index-row wanted (r.data_length m) inside)),
    )
