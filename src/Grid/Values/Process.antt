-- ===== src/Grid/Values/Process.antt =====
-- What onCellsPaste of packages/webui/hooks/use-data-grid.ts makes of a pasted text, by the variant
-- of the cell: the value to write, or none where the cell is skipped.
use mizumi.Prelude.{
  ℕ, Bool, true, false, ◌&&◌, ◌||◌, List, [], ◌∷◌, map, Option, none, some, all, length, ltb, ◌==◌,
  if◌then◌else◌,
}
use mizumi.Text.{Text, codes, is_empty, text_eq, join, split}
use mizumi.Text.Trim.{trim}
use mizumi.Text.Sets.{has}
use mizumi.Grid.Values.{
  SelectOption, CellOpts, number, checkbox, date, select, multi_select, file, url, Item, string,
  object, CellValue, null_value, boolean, text, number_of, date_of, array, get_is_file_cell_data,
  match_select_option,
}
use mizumi.Grid.Values.Patterns.{is_iso_date, is_domain}

-- What JSON.parse returns, as far as the code looks at it.
pub data Parsed : Type 0 where
  parsed_array : List Item → Parsed
  parsed_boolean : Bool → Parsed
  parsed_other : Parsed

-- The platform's functions.
pub record Tools : Type 0 where
  -- String.prototype.toLowerCase
  pub to_lower_case : Text → Text
  -- `!Number.isNaN(Number.parseFloat(text))`
  pub is_number : Text → Bool
  -- `!Number.isNaN(new Date(text).getTime())`
  pub is_date : Text → Bool
  -- `new Date(text).toLocaleDateString()`
  pub locale_date : Text → Text
  -- JSON.parse; none where it throws.
  pub parse_json : Text → Option Parsed
  -- Whether `new URL(text)` does not throw.
  pub is_url : Text → Bool

abbrev pub truthy_booleans : List Text
truthy_booleans = codes "true" ∷ codes "1" ∷ codes "yes" ∷ codes "checked" ∷ []

abbrev pub valid_booleans : List Text
valid_booleans =
    codes "true"
    ∷ codes "false"
    ∷ codes "1"
    ∷ codes "0"
    ∷ codes "yes"
    ∷ codes "no"
    ∷ codes "checked"
    ∷ codes "unchecked"
    ∷ []

abbrev comma : ℕ
comma = b','

abbrev separator : Text
separator = codes ", "

-- `filter((v) => typeof v === "string")`
unfoldable pub strings_of : List Item → List Text
strings_of [] = []
strings_of (string s ∷ items) = s ∷ strings_of items
strings_of (_ ∷ items) = strings_of items

abbrev pub is_string : Item → Bool
is_string (string s) = true
is_string _ = false

unfoldable pub files_of : List Item → List Item
unfolding get_is_file_cell_data
files_of [] = []
files_of (item ∷ items) =
    let rest = files_of items in if get_is_file_cell_data item then item ∷ rest else rest

abbrev field_of : List (Text × Text) → Text → Text
field_of [] name = []
field_of ((key, value) ∷ fields) name =
    let rest = field_of fields name in if text_eq key name then value else rest

-- `f.name` as join prints it.
abbrev name_of : Item → Text
name_of (object fields) = field_of fields (codes "name")
name_of _ = []

-- `filter(Boolean)` of the matches.
abbrev pub cons_match : Option Text → List Text → List Text
cons_match none ids = ids
cons_match (some []) ids = ids
cons_match (some (c ∷ s)) ids = (c ∷ s) ∷ ids

-- `text[0]` is one of those characters.
abbrev pub starts_with_any : List ℕ → Text → Bool
starts_with_any [] s = false
starts_with_any (d ∷ ds) [] = false
starts_with_any (d ∷ ds) (c ∷ s) = c == d || starts_with_any ds (c ∷ s)

abbrev checked_text : Bool → CellValue
checked_text b = text (if b then codes "Checked" else codes "Unchecked")

module _ (tools : Tools) where
  abbrev pub lower : Text → Text
  lower = tools.to_lower_case

  unfoldable pub paste_checkbox : Text → Option CellValue
  unfolding has
  paste_checkbox s =
      if has valid_booleans (lower s) then some (boolean (has truthy_booleans (lower s))) else none

  -- `if (matched)` is false for an option whose value is empty.
  unfoldable pub paste_select : List SelectOption → Text → Option CellValue
  unfolding match_select_option
  paste_select options s = elim (match_select_option lower s options) [
    | none ↦ none
    | some matched ↦ if is_empty matched then none else some (text matched)
  ]

  unfoldable pub matches_of : List SelectOption → List Text → List Text
  unfolding match_select_option
  matches_of options [] = []
  matches_of options (v ∷ values) =
      cons_match (match_select_option lower v options) (matches_of options values)

  -- `values`: those of a JSON array, or where there is no JSON, the parts between commas.
  unfoldable pub pasted_values : Option Parsed → Text → List Text
  unfolding strings_of split trim
  pasted_values (some (parsed_array items)) s = strings_of items
  pasted_values (some _) s = []
  pasted_values none s = if is_empty s then [] else map trim (split comma s)

  unfoldable pub paste_multi_select : List SelectOption → Text → Option CellValue
  unfolding pasted_values matches_of
  paste_multi_select options s =
      let values = pasted_values (tools.parse_json s) s in
      let validated = matches_of options values in
      if ltb 0 (length values) && (length validated == 0)
      then none
      else some (array (map string validated))

  unfoldable pub paste_file : Option Parsed → Option CellValue
  unfolding files_of
  paste_file (some (parsed_array items)) =
      let files = files_of items in
      if ltb 0 (length items) && (length files == 0) then none else some (array files)
  paste_file _ = none

  unfoldable pub paste_url : Text → Option CellValue
  unfolding is_domain
  paste_url s =
      if starts_with_any (b'[' ∷ b'{' ∷ []) s
      then none
      else if tools.is_url s || is_domain s
      then some (text s)
      else none

  -- The text of a parsed array, or the pasted text.
  unfoldable pub text_of_items : List Item → Text → CellValue
  unfolding get_is_file_cell_data strings_of join
  text_of_items items s =
      if ltb 0 (length items) && all get_is_file_cell_data items
      then text (join separator (map name_of items))
      else if all is_string items
      then text (join separator (strings_of items))
      else text s

  unfoldable pub text_of_json : Option Parsed → Text → CellValue
  unfolding text_of_items
  text_of_json (some (parsed_array items)) s = text_of_items items s
  text_of_json (some (parsed_boolean b)) s = checked_text b
  text_of_json (some parsed_other) s = text s
  text_of_json none s =
      if text_eq (lower s) (codes "true") || text_eq (lower s) (codes "false")
      then checked_text (text_eq (lower s) (codes "true"))
      else text s

  unfoldable pub paste_text : Text → CellValue
  unfolding is_iso_date text_of_json
  paste_text s =
      if is_iso_date s && tools.is_date s
      then text (tools.locale_date s)
      else if starts_with_any (b'[' ∷ b'{' ∷ b't' ∷ b'f' ∷ []) s
      then text_of_json (tools.parse_json s) s
      else text s

  -- The switch over the variant, for a text that is not empty.
  unfoldable pub process_filled : Option CellOpts → Text → Option CellValue
  unfolding paste_checkbox paste_select paste_multi_select paste_file paste_url paste_text
  process_filled (some number) s = if tools.is_number s then some (number_of s) else none
  process_filled (some checkbox) s = paste_checkbox s
  process_filled (some date) s = if tools.is_date s then some (date_of s) else none
  process_filled (some (select options)) s = paste_select options s
  process_filled (some (multi_select options)) s = paste_multi_select options s
  process_filled (some file) s = paste_file (tools.parse_json s)
  process_filled (some url) s = paste_url s
  process_filled _ s = some (paste_text s)

  -- The same switch for the empty text; JSON.parse throws on it.
  unfoldable pub process_empty : Option CellOpts → CellValue
  process_empty (some number) = null_value
  process_empty (some checkbox) = boolean false
  process_empty (some date) = null_value
  process_empty (some (multi_select options)) = array []
  process_empty (some file) = array []
  process_empty _ = text []

  unfoldable pub process_value : Option CellOpts → Text → Option CellValue
  unfolding process_filled process_empty
  process_value opts [] = some (process_empty opts)
  process_value opts (c ∷ s) = process_filled opts (c ∷ s)
