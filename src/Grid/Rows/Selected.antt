-- ===== src/Grid/Rows/Selected.antt =====
-- Which cells are selected with the rows.
use mizumi.Prelude.{
  ℕ, ◌≡◌, refl, sym, ap, ◌∙◌, inl, inr, true, ◌&&◌, ◌||◌, List, [], ◌∷◌, none, some, ℤ, pos, ◌==ℤ◌,
  ==ℤ_iff, get_elem?, arith, Bool-cases,
}
use mizumi.Text.{Text, text_eq}
use mizumi.Text.Laws.{text_eq_iff}
use mizumi.Text.Sets.{has, add, has-add}
use mizumi.Grid.Key.{cell_key}
use mizumi.Grid.Key.Laws.{text_eq-cell_key}
use mizumi.Grid.Columns.{index_of}
use mizumi.Grid.Columns.Laws.{IsDistinct, index_of_of_has, index_of_of_lacks, index_of-get_elem?}
use mizumi.Grid.State.{DataGridState}
use mizumi.Grid.Select.{add_row, get_is_cell_selected}
use mizumi.Grid.Rows.{
  RowSelection, is_on, keep_on, keys_of, selected_rows, Updater, apply_updater, add_selected_row,
  add_selected_rows, on_row_selection_change,
}

has-add_row :
    (row r : ℤ) (ids keys : List Text) (column : Text)
    → has (add_row row ids keys) (cell_key r column)
      ≡ (has keys (cell_key r column) || (row ==ℤ r) && has ids column)
unfolding add_row has
has-add_row row r [] keys column = ground arith
has-add_row row r (id ∷ ids) keys column = ground (
  arith,
  has-add_row row r ids (add (cell_key row id) keys) column,
  has-add keys (cell_key row id) (cell_key r column),
  text_eq-cell_key row r id column,
)

has-keep_on :
    (m : RowSelection) (keys : List Text) (id : Text)
    → has (keep_on m keys) id ≡ (has keys id && is_on m id)
unfolding has keep_on
has-keep_on m [] id = refl
has-keep_on m (key ∷ keys) id = ground (arith, has-keep_on m keys id, text_eq_iff key id, at_key)
  where
    at_key : key ≡ id → is_on m key ≡ is_on m id
    at_key e = ap (is_on m) e

has-keys_of : (m : RowSelection) (id : Text) → is_on m id ≡ true → has (keys_of m) id ≡ true
unfolding has is_on
has-keys_of [] id h = cc
has-keys_of ((key, flag) ∷ m) id h = ground (arith, has-keys_of m id)

has-selected_rows : (m : RowSelection) (id : Text) → has (selected_rows m) id ≡ is_on m id
unfolding selected_rows
has-selected_rows m id = ground (arith, has-keep_on m (keys_of m) id, has-keys_of m id)

module _ (row_ids column_ids : List Text) (i : ℕ) (row_id : Text) (distinct : IsDistinct row_ids)
    (here : get_elem? row_ids i ≡ some row_id) where
  eq_of_index_of : (id : Text) → index_of id row_ids ≡ pos i → id ≡ row_id
  eq_of_index_of id e = elim (Bool-cases (has row_ids id)) [
    | inl h ↦
        let (n, p, q) = index_of_of_has id row_ids h in
        let f : n ≡ i = cc in
        let g : some id ≡ some row_id = sym q ∙ ap (get_elem? row_ids) f ∙ here in cc
    | inr h ↦ let p = index_of_of_lacks id row_ids h in cc
  ]

  index_of-is : (id : Text) → (index_of id row_ids ==ℤ pos i) ≡ text_eq id row_id
  index_of-is id =
      ground (
        arith,
        ==ℤ_iff (index_of id row_ids) (pos i),
        text_eq_iff id row_id,
        eq_of_index_of id,
        back,
      )
    where
      back : id ≡ row_id → index_of id row_ids ≡ pos i
      back e = ap (λ k. index_of k row_ids) e ∙ index_of-get_elem? row_ids i row_id distinct here

  has-add_selected_row :
      (index : ℤ) (keys : List Text) (column : Text)
      → has (add_selected_row row_ids column_ids index keys) (cell_key (pos i) column)
        ≡ (has keys (cell_key (pos i) column) || (index ==ℤ pos i) && has column_ids column)
  unfolding add_selected_row
  has-add_selected_row index keys column =
      ground (arith, has-add_row index (pos i) column_ids keys column)

  has-add_selected_rows :
      (ids keys : List Text) (column : Text)
      → has (add_selected_rows row_ids column_ids ids keys) (cell_key (pos i) column)
        ≡ (has keys (cell_key (pos i) column) || has ids row_id && has column_ids column)
  unfolding add_selected_rows has
  has-add_selected_rows [] keys column = ground arith
  has-add_selected_rows (id ∷ ids) keys column =
      let index = index_of id row_ids in
      ground (
        arith,
        index_of-is id,
        has-add_selected_row index keys column,
        has-add_selected_rows ids (add_selected_row row_ids column_ids index keys) column,
      )

  -- After a change of the row selection, the selected cells are those of the selected rows: if no
  -- two rows have the same id, a cell of the row `i` is selected exactly if the new selection has
  -- the row's id and the cell's column is one of the grid's. No cell has the focus or is edited.
  pub get_is_cell_selected-on_row_selection_change :
      (updater : Updater) (s : DataGridState) (column : Text)
      → let t = on_row_selection_change row_ids column_ids updater s in
        (get_is_cell_selected t (pos i) column
          ≡ (is_on (apply_updater updater s.row_selection) row_id && has column_ids column))
        × (t.focused_cell ≡ none)
        × (t.editing_cell ≡ none)
  unfolding get_is_cell_selected on_row_selection_change has
  get_is_cell_selected-on_row_selection_change updater s column =
      let m = apply_updater updater s.row_selection in
      (
        has-add_selected_rows (selected_rows m) [] column
            ∙ ap (λ b. b && has column_ids column) (has-selected_rows m row_id),
        refl,
        refl,
      )
