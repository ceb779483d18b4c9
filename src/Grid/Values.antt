-- ===== src/Grid/Values.antt =====
-- The values that useDataGrid itself writes into cells: getEmptyCellValue, matchSelectOption and
-- getIsFileCellData of packages/webui/lib/data-grid.ts, and CellOpts of
-- packages/webui/types/data-grid.ts as far as the hook reads it.
pub mod Patterns
pub mod Process
pub mod Typed
use mizumi.Prelude.{Bool, false, ◌&&◌, ◌||◌, List, [], ◌∷◌, Option, none, some, map, if◌then◌else◌}
use mizumi.Text.{Text, codes, text_eq}
use mizumi.Text.Sets.{has}

pub record SelectOption : Type 0 where
  pub value : Text
  pub label : Text

pub data CellOpts : Type 0 where
  short_text long_text number checkbox date url file : CellOpts
  select multi_select : List SelectOption → CellOpts

-- An element of an array that JSON.parse returns: an object has its fields, with the text that
-- Array.prototype.join makes of each value.
pub data Item : Type 0 where
  string : Text → Item
  object : List (Text × Text) → Item
  other_item : Item

-- What is written into a cell: `number_of t` is Number.parseFloat(t) and `date_of t` is new Date(t).
pub data CellValue : Type 0 where
  null_value : CellValue
  boolean : Bool → CellValue
  text : Text → CellValue
  number_of : Text → CellValue
  date_of : Text → CellValue
  array : List Item → CellValue

unfoldable pub get_empty_cell_value : Option CellOpts → CellValue
get_empty_cell_value (some (multi_select options)) = array []
get_empty_cell_value (some file) = array []
get_empty_cell_value (some number) = null_value
get_empty_cell_value (some date) = null_value
get_empty_cell_value (some checkbox) = boolean false
get_empty_cell_value _ = text []

abbrev field_names : List (Text × Text) → List Text
field_names fields = map (λ f. f.0) fields

unfoldable pub get_is_file_cell_data : Item → Bool
unfolding has
get_is_file_cell_data (object fields) =
    let names = field_names fields in
    has names (codes "id")
    && has names (codes "name")
    && has names (codes "size")
    && has names (codes "type")
get_is_file_cell_data _ = false

-- `to_lower_case` is String.prototype.toLowerCase.
module _ (to_lower_case : Text → Text) where
  unfoldable pub is_option : Text → SelectOption → Bool
  is_option value o =
      text_eq o.value value
      || text_eq (to_lower_case o.value) (to_lower_case value)
      || text_eq (to_lower_case o.label) (to_lower_case value)

  unfoldable pub match_select_option : Text → List SelectOption → Option Text
  unfolding is_option
  match_select_option value [] = none
  match_select_option value (o ∷ os) =
      let rest = match_select_option value os in if is_option value o then some o.value else rest
