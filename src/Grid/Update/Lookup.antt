-- ===== src/Grid/Update/Lookup.antt =====
-- What onDataUpdate writes into each cell.
use mizumi.Prelude.{
  ℕ, zero, suc, ◌+◌, ◌≡◌, refl, ap, ap₂, ◌∙◌, inl, inr, Bool, false, List, [], ◌∷◌, ◌++◌, Option,
  none, some, ℤ, pos, ◌==ℤ◌, ==ℤ_iff, get_elem?, arith, Bool-cases, if◌then◌else◌,
}
use mizumi.Text.{Text, text_eq}
use mizumi.Grid.Update.{
  DataRow, CellUpdate, NewRow, absent, kept, updated, Change, UpdatesMap, get_changes, set_changes,
  or_empty, push_change, target_index, collect_update, collect_updates, apply_changes, update_row,
  update_rows, on_data_update,
}

abbrev pub is_target : Option ℤ → ℤ → Bool
is_target none i = false
is_target (some j) i = j ==ℤ i

module _ {Value : Type 0} where
  get_changes-set_changes :
      (m : UpdatesMap Value) (i j : ℤ) (changes : List (Change Value))
      → get_changes (set_changes i changes m) j
        ≡ (if i ==ℤ j then some changes else get_changes m j)
  unfolding get_changes set_changes
  get_changes-set_changes [] i j changes = refl
  get_changes-set_changes ((key, old) ∷ m) i j changes =
      ground (arith, get_changes-set_changes m i j changes)

  -- What the changes that the map has for the index `i` make of a column.
  abbrev value_at : UpdatesMap Value → ℤ → (Text → Value) → Text → Value
  value_at m i fields column = apply_changes (or_empty (get_changes m i)) fields column

  value_at_nil :
      (i : ℤ) (fields : Text → Value) (column : Text) → value_at [] i fields column ≡ fields column
  unfolding get_changes apply_changes
  value_at_nil i fields column = refl

  apply_changes-snoc :
      (changes : List (Change Value)) (c : Text) (v : Value) (fields : Text → Value) (column : Text)
      → apply_changes (changes ++ (c, v) ∷ []) fields column
        ≡ (if text_eq c column then v else apply_changes changes fields column)
  unfolding apply_changes
  apply_changes-snoc [] c v fields column = refl
  apply_changes-snoc ((d, w) ∷ changes) c v fields column = apply_changes-snoc changes c v _ column

  value_at-push_change :
      (m : UpdatesMap Value) (i j : ℤ) (c : Text) (v : Value) (fields : Text → Value)
      (column : Text)
      → value_at (push_change j (c, v) m) i fields column ≡ (
          if j ==ℤ i
          then if text_eq c column then v else value_at m i fields column
          else value_at m i fields column)
  unfolding push_change
  value_at-push_change m i j c v fields column =
      let changes = or_empty (get_changes m j) in
      ap (λ o. apply_changes (or_empty o) fields column)
        (get_changes-set_changes m j i (changes ++ (c, v) ∷ []))
      ∙ elim (Bool-cases (j ==ℤ i)) [
        | inl e ↦ rw e (
            apply_changes-snoc changes c v fields column
            ∙ ap (λ k. if text_eq c column then v else value_at m k fields column)
                ((==ℤ_iff j i).0 e))
        | inr e ↦ rw e refl
      ]

  module _ (shown : Option (List (DataRow Value))) (rows : List (Option (DataRow Value))) where
    -- The value of the last of the updates that are for the column and have the index `i` of the
    -- data as their target; `old` where there is none.
    abbrev pub last_value : List (CellUpdate Value) → ℤ → Text → Value → Value
    last_value [] i column old = old
    last_value (u ∷ us) i column old = last_value us i column (
        if is_target (target_index shown rows u.row_index) i
        then if text_eq u.column_id column then u.value else old
        else old)

    value_at-collect_update :
        (target : Option ℤ) (u : CellUpdate Value) (m : UpdatesMap Value) (i : ℤ)
        (fields : Text → Value) (column : Text)
        → value_at (collect_update target u m) i fields column ≡ (
            if is_target target i
            then if text_eq u.column_id column then u.value else value_at m i fields column
            else value_at m i fields column)
    unfolding collect_update
    value_at-collect_update none u m i fields column = refl
    value_at-collect_update (some j) u m i fields column =
        value_at-push_change m i j u.column_id u.value fields column

    value_at-collect_updates :
        (us : List (CellUpdate Value)) (m : UpdatesMap Value) (i : ℤ) (fields : Text → Value)
        (column : Text)
        → value_at (collect_updates shown rows us m) i fields column
          ≡ last_value us i column (value_at m i fields column)
    unfolding collect_updates
    value_at-collect_updates [] m i fields column = refl
    value_at-collect_updates (u ∷ us) m i fields column =
        let target = target_index shown rows u.row_index in
        value_at-collect_updates us (collect_update target u m) i fields column
        ∙ ap (last_value us i column) (value_at-collect_update target u m i fields column)

  abbrev new_field : NewRow Value → Text → Option Value
  new_field absent column = none
  new_field (kept row) column = some (row.fields column)
  new_field (updated fields) column = some (fields column)

  new_field-update_row :
      (changes : Option (List (Change Value))) (row : DataRow Value) (column : Text)
      → new_field (update_row changes (some row)) column
        ≡ some (apply_changes (or_empty changes) row.fields column)
  unfolding update_row apply_changes
  new_field-update_row none row column = refl
  new_field-update_row (some changes) row column = refl

  get_elem?-update_rows :
      (m : UpdatesMap Value) (k i : ℕ) (rows : List (Option (DataRow Value)))
      {row : Option (DataRow Value)}
      → get_elem? rows i ≡ some row
      → get_elem? (update_rows m k rows) i ≡ some (update_row (get_changes m (pos (k + i))) row)
  unfolding update_rows
  get_elem?-update_rows m k i [] h = cc
  get_elem?-update_rows m k zero (r ∷ rows) {row} h =
      let e : k ≡ k + 0 = omega arith in
      let f : r ≡ row = cc in ap₂ (λ n r'. some (update_row (get_changes m (pos n)) r')) e f
  get_elem?-update_rows m k (suc i) (r ∷ rows) {row} h =
      let e : suc k + i ≡ k + suc i = omega arith in
      get_elem?-update_rows m (suc k) i rows h
      ∙ ap (λ n. some (update_row (get_changes m (pos n)) row)) e

  abbrev bind_field : Option (NewRow Value) → Text → Option Value
  bind_field none column = none
  bind_field (some row) column = new_field row column

  -- The cell of the new data that onDataChange gets.
  abbrev pub new_cell : Option (List (NewRow Value)) → ℕ → Text → Option Value
  new_cell none i column = none
  new_cell (some rows) i column = bind_field (get_elem? rows i) column

  -- Where the grid is not read-only and there are updates, onDataChange gets data in which each cell
  -- has the value of the last update whose target it is, the target of an update being the data's
  -- index of the object that the table shows at the update's row, and its old value where there is
  -- no such update.
  pub new_cell-on_data_update :
      (shown : Option (List (DataRow Value))) (rows : List (Option (DataRow Value)))
      (u : CellUpdate Value) (us : List (CellUpdate Value)) (i : ℕ) (row : DataRow Value)
      (column : Text)
      → get_elem? rows i ≡ some (some row)
      → new_cell (on_data_update false shown rows (u ∷ us)) i column
        ≡ some (last_value shown rows (u ∷ us) (pos i) column (row.fields column))
  unfolding on_data_update
  new_cell-on_data_update shown rows u us i row column h =
      let m = collect_updates shown rows (u ∷ us) [] in
      let e : 0 + i ≡ i = omega arith in
      ap (λ r. bind_field r column) (get_elem?-update_rows m 0 i rows h)
      ∙ ap (λ n. new_field (update_row (get_changes m (pos n)) (some row)) column) e
      ∙ new_field-update_row (get_changes m (pos i)) row column
      ∙ ap some (
          value_at-collect_updates shown rows (u ∷ us) [] (pos i) row.fields column
          ∙ ap (last_value shown rows (u ∷ us) (pos i) column)
              (value_at_nil (pos i) row.fields column))
