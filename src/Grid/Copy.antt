-- ===== src/Grid/Copy.antt =====
-- Copying and cutting cells: serializeCellsToTsv, onCellsCopy and onCellsCut of useDataGrid. The
-- toasts are left out.
pub mod Cut
mod Tests
use mizumi.Prelude.{
  ℕ, Bool, true, false, not, ◌&&◌, ◌||◌, List, [], ◌∷◌, ◌++◌, map, Option, none, some, ℤ, pos,
  leb_ℤ, ◌==ℤ◌, any, if◌then◌else◌,
}
use mizumi.Text.{Text, codes, newline, is_empty, text_eq, join}
use mizumi.Text.Sets.{add}
use mizumi.Grid.Key.{CellPosition, cell_key, parse_cell_key}
use mizumi.Grid.Columns.{get_at, index_of, is_non_navigable}
use mizumi.Grid.State.{DataGridState}
use mizumi.Grid.Tsv.{tab}

-- What the code calls on the values of cells, whose type is not known to it.
pub record Platform (Value : Type 0) : Type 0 where
  -- `value ? … : …`
  pub is_truthy : Value → Bool
  -- JSON.stringify
  pub stringify : Value → Text
  -- `value.toISOString()` where the value is a Date.
  pub iso_date : Value → Option Text
  -- `String(value ?? "")`
  pub to_string : Value → Text

pub record Cell (Value : Type 0) : Type 0 where
  pub variant : Option Text
  pub value : Value

-- The visible cells of a row, with the ids of their columns.
abbrev pub RowCells : Type 0 → Type 0
RowCells Value = List (Text × Cell Value)

abbrev is_variant : Text → Option Text → Bool
is_variant name none = false
is_variant name (some v) = text_eq v name

-- `new Map(row.getVisibleCells().map(…)).get(columnId)`: the last entry of a key counts.
unfoldable pub find_cell : {Value : Type 0} → RowCells Value → Text → Option (Cell Value)
find_cell [] id = none
find_cell ((key, cell) ∷ cells) id =
    let rest = find_cell cells id in
    elim rest [ some c ↦ some c | none ↦ if text_eq key id then some cell else none ]

-- `cellData`: its keys are the keys of cells, each set once.
unfoldable pub get_text : List (Text × Text) → Text → Text
get_text [] key = []
get_text ((k, text) ∷ texts) key =
    let rest = get_text texts key in if text_eq k key then text else rest

-- The variables of the loop over the keys.
pub record Copied : Type 0 where
  pub navigable_cells : List Text
  pub selected_column_ids : List Text
  pub row_indices : List ℤ
  pub cell_data : List (Text × Text)

abbrev pub nothing_copied : Copied
nothing_copied = record {
  navigable_cells = [];
  selected_column_ids = [];
  row_indices = [];
  cell_data = [];
}

unfoldable pub add_index : ℤ → List ℤ → List ℤ
add_index i indices = if any (λ j. j ==ℤ i) indices then indices else indices ++ i ∷ []

unfoldable pub add_column : Text → List Text → List Text
add_column id ids = if is_empty id then ids else add id ids

abbrev insert_index : ℤ → List ℤ → List ℤ
insert_index i [] = i ∷ []
insert_index i (j ∷ js) = let rest = insert_index i js in if leb_ℤ i j then i ∷ j ∷ js else j ∷ rest

-- `sort((a, b) => a - b)`
unfoldable pub sort_indices : List ℤ → List ℤ
sort_indices [] = []
sort_indices (i ∷ js) = insert_index i (sort_indices js)

-- A cell without a column id is none that is left out.
unfoldable pub is_copied : Text → Bool
is_copied key =
    let id = (parse_cell_key key).column_id in not (not (is_empty id) && is_non_navigable id)

-- `colIndices` of the keys; `ids` are the selected columns.
unfoldable pub column_indices : List Text → List Text → List ℤ → List ℤ
unfolding add_index index_of
column_indices ids [] indices = indices
column_indices ids (key ∷ keys) indices =
    let i = index_of (parse_cell_key key).column_id ids in
    column_indices ids keys (if leb_ℤ (pos 0) i then add_index i indices else indices)

-- `${selectedColumnIds[i]}`
abbrev column_at : List Text → ℤ → Text
column_at ids i = elim (get_at ids i) [ some id ↦ id | none ↦ codes "undefined" ]

unfoldable pub sorted_column_ids : Copied → List Text
unfolding column_indices sort_indices
sorted_column_ids c =
    map (column_at c.selected_column_ids)
      (sort_indices (column_indices c.selected_column_ids c.navigable_cells []))

unfoldable pub tsv_data : Copied → Text
unfolding sorted_column_ids get_text cell_key
tsv_data c =
    let columns = sorted_column_ids c in
    join (newline ∷ []) (
      map (λ row. join (tab ∷ []) (map (λ id. get_text c.cell_data (cell_key row id)) columns))
        (sort_indices c.row_indices))

module _ {Value : Type 0} (platform : Platform Value) where
  unfoldable pub serialize_value : Cell Value → Text
  serialize_value cell =
      let plain : Text = elim (platform.iso_date cell.value) [
        | some text ↦ text
        | none ↦ platform.to_string cell.value
      ] in
      if is_variant (codes "file") cell.variant || is_variant (codes "multi-select") cell.variant
      then if platform.is_truthy cell.value then platform.stringify cell.value else []
      else plain

  abbrev cell_of_row : Option (RowCells Value) → Text → Option (Cell Value)
  cell_of_row none id = none
  cell_of_row (some cells) id = find_cell cells id

  abbrev add_text : Text → Option (Cell Value) → List (Text × Text) → List (Text × Text)
  add_text key none texts = texts
  add_text key (some cell) texts = (key, serialize_value cell) ∷ texts

  -- One round of the loop.
  unfoldable pub copy_cell : List (RowCells Value) → Text → Copied → Copied
  unfolding add_index add_column find_cell serialize_value
  copy_cell rows key c =
      let p = parse_cell_key key in
      record {
        navigable_cells = c.navigable_cells ++ key ∷ [];
        selected_column_ids = add_column p.column_id c.selected_column_ids;
        row_indices = add_index p.row_index c.row_indices;
        cell_data = add_text key (cell_of_row (get_at rows p.row_index) p.column_id) c.cell_data;
      }

  unfoldable pub copy_cells : List (RowCells Value) → List Text → Copied → Copied
  unfolding copy_cell is_copied
  copy_cells rows [] c = c
  copy_cells rows (key ∷ keys) c =
      copy_cells rows keys (if is_copied key then copy_cell rows key c else c)

  abbrev selected_keys : List Text → Option CellPosition → Option (List Text)
  selected_keys [] none = none
  selected_keys [] (some p) = some (cell_key p.row_index p.column_id ∷ [])
  selected_keys (key ∷ keys) focused = some (key ∷ keys)

  abbrev copy_keys : List (RowCells Value) → Option (List Text) → Option (Text × List Text)
  copy_keys rows none = none
  copy_keys rows (some keys) =
      let c = copy_cells rows keys nothing_copied in some (tsv_data c, c.navigable_cells)

  -- `rows` are the rows that the table shows.
  unfoldable pub serialize_cells_to_tsv :
      List (RowCells Value) → DataGridState → Option (Text × List Text)
  unfolding copy_cells tsv_data
  serialize_cells_to_tsv rows s =
      copy_keys rows (selected_keys s.selection_state.selected_cells s.focused_cell)

abbrev cut_keys : Option (Text × List Text) → DataGridState → DataGridState
cut_keys none s = s
cut_keys (some result) s = record s { cut_cells = result.1 }

-- `written` is whether the clipboard took the text; the set of no cells is left as it is.
unfoldable pub on_cells_copy : Bool → Option (Text × List Text) → DataGridState → DataGridState
on_cells_copy written none s = s
on_cells_copy false (some result) s = s
on_cells_copy true (some result) s = record s { cut_cells = [] }

unfoldable pub on_cells_cut :
    Bool → Bool → Option (Text × List Text) → DataGridState → DataGridState
on_cells_cut read_only written result s = if not read_only && written then cut_keys result s else s
