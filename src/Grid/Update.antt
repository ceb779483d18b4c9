-- ===== src/Grid/Update.antt =====
-- onDataUpdate of useDataGrid: the new data that it hands to onDataChange for a list of cell updates.
pub mod Lookup
mod Tests
use mizumi.Prelude.{
  ℕ, zero, suc, Bool, true, false, not, ◌||◌, List, [], ◌∷◌, ◌++◌, Option, none, some, ℤ, pos,
  negsuc, ◌==ℤ◌, ◌==◌, if◌then◌else◌,
}
use mizumi.Text.{Text, text_eq}
use mizumi.Grid.Columns.{get_at, next_index}

-- An object of the data: `ref` is its identity, for `===`.
pub record DataRow (Value : Type 0) : Type 0 where
  pub ref : ℕ
  pub fields : Text → Value

pub record CellUpdate (Value : Type 0) : Type 0 where
  pub row_index : ℤ
  pub column_id : Text
  pub value : Value

-- An element of the new data: nothing where the data has nothing, the same object, or a new one.
pub data NewRow (Value : Type 0) : Type 0 where
  absent : NewRow Value
  kept : DataRow Value → NewRow Value
  updated : (Text → Value) → NewRow Value

abbrev Data : Type 0 → Type 0
Data Value = List (Option (DataRow Value))

abbrev pub Change : Type 0 → Type 0
Change Value = Text × Value

-- `rowUpdatesMap`, in the order of insertion.
abbrev pub UpdatesMap : Type 0 → Type 0
UpdatesMap Value = List (ℤ × List (Change Value))

-- `originalRowIndex !== -1 ? originalRowIndex : update.rowIndex`
abbrev or_index : ℤ → ℤ → ℤ
or_index found index = if not (found ==ℤ negsuc 0) then found else index

module _ {Value : Type 0} where
  unfoldable pub get_changes : UpdatesMap Value → ℤ → Option (List (Change Value))
  get_changes [] index = none
  get_changes ((key, changes) ∷ m) index =
      let rest = get_changes m index in if key ==ℤ index then some changes else rest

  unfoldable pub set_changes : ℤ → List (Change Value) → UpdatesMap Value → UpdatesMap Value
  set_changes index new [] = (index, new) ∷ []
  set_changes index new ((key, changes) ∷ m) =
      let rest = set_changes index new m in
      if key ==ℤ index then (key, new) ∷ m else (key, changes) ∷ rest

  -- `map.get(index) ?? []`
  abbrev pub or_empty : Option (List (Change Value)) → List (Change Value)
  or_empty none = []
  or_empty (some changes) = changes

  unfoldable pub push_change : ℤ → Change Value → UpdatesMap Value → UpdatesMap Value
  unfolding get_changes set_changes
  push_change index change m = set_changes index (or_empty (get_changes m index) ++ change ∷ []) m

  abbrev has_ref : ℕ → Option (DataRow Value) → Bool
  has_ref ref none = false
  has_ref ref (some row) = row.ref == ref

  -- `currentData.indexOf(originalData)`
  unfoldable pub index_of_row : ℕ → Data Value → ℤ
  index_of_row ref [] = negsuc 0
  index_of_row ref (row ∷ rows) =
      let rest = next_index (index_of_row ref rows) in if has_ref ref row then pos 0 else rest

  -- The index in the data that an update changes; `rows` are the objects that the table shows, in
  -- its order, where there is a table.
  unfoldable pub target_index : Option (List (DataRow Value)) → Data Value → ℤ → Option ℤ
  unfolding index_of_row
  target_index none rows index = some index
  target_index (some shown) rows index = elim (get_at shown index) [
    | none ↦ none
    | some row ↦ some (or_index (index_of_row row.ref rows) index)
  ]

  -- One round of the loop over the updates; `continue` where the table shows no such row.
  unfoldable pub collect_update : Option ℤ → CellUpdate Value → UpdatesMap Value → UpdatesMap Value
  unfolding push_change
  collect_update none u m = m
  collect_update (some index) u m = push_change index (u.column_id, u.value) m

  module _ (shown : Option (List (DataRow Value))) (rows : Data Value) where
    unfoldable pub collect_updates : List (CellUpdate Value) → UpdatesMap Value → UpdatesMap Value
    unfolding target_index collect_update
    collect_updates [] m = m
    collect_updates (u ∷ us) m =
        collect_updates us (collect_update (target_index shown rows u.row_index) u m)

  -- `updatedRow[columnId] = value` for each of the changes.
  unfoldable pub apply_changes : List (Change Value) → (Text → Value) → Text → Value
  apply_changes [] fields = fields
  apply_changes ((column, value) ∷ changes) fields =
      apply_changes changes (λ c. if text_eq column c then value else fields c)

  unfoldable pub update_row : Option (List (Change Value)) → Option (DataRow Value) → NewRow Value
  unfolding apply_changes
  update_row changes none = absent
  update_row none (some row) = kept row
  update_row (some changes) (some row) = updated (apply_changes changes row.fields)

  -- The rounds of the loop over the data from the index `i` on.
  unfoldable pub update_rows : UpdatesMap Value → ℕ → Data Value → List (NewRow Value)
  unfolding update_row get_changes
  update_rows m i [] = []
  update_rows m i (row ∷ rows) = update_row (get_changes m (pos i)) row ∷ update_rows m (suc i) rows

  -- The argument of onDataChange, or none where it is not called.
  unfoldable pub on_data_update :
      Bool
      → Option (List (DataRow Value))
      → Data Value
      → List (CellUpdate Value)
      → Option (List (NewRow Value))
  unfolding collect_updates update_rows
  on_data_update read_only shown rows [] = none
  on_data_update read_only shown rows (u ∷ us) =
      if read_only then none else some (update_rows (collect_updates shown rows (u ∷ us) []) 0 rows)
