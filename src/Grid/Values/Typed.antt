-- ===== src/Grid/Values/Typed.antt =====
-- The values that the hook writes suit the variant of the cell.
use mizumi.Prelude.{
  AllSome, ◌≡◌, refl, sym, subst, ◌⊎◌, inl, inr, true, ◌&&◌, ◌||◌, List, [], ◌∷◌, map, Option, none,
  some, All, any, all, length, ltb, ◌==◌, arith, if_cases, if◌then◌else◌,
}
use mizumi.Text.{Text, codes, is_empty, text_eq}
use mizumi.Text.Sets.{has}
use mizumi.Grid.Values.Patterns.{is_iso_date, is_domain}
use mizumi.Text.Laws.{text_eq_self}
use mizumi.Grid.Values.{
  SelectOption, CellOpts, short_text, long_text, number, checkbox, date, select, multi_select, file,
  url, Item, string, CellValue, null_value, boolean, text, number_of, date_of, array,
  get_empty_cell_value, get_is_file_cell_data, is_option, match_select_option,
}
use mizumi.Grid.Values.Process.{
  valid_booleans, is_string, starts_with_any, Parsed, parsed_array, parsed_boolean, parsed_other,
  Tools, files_of, cons_match, lower, paste_checkbox, paste_select, matches_of, pasted_values,
  paste_multi_select, paste_file, paste_url, text_of_items, text_of_json, paste_text,
  process_filled, process_empty, process_value,
}

-- One of the options has that value.
abbrev pub IsOptionValue : List SelectOption → Text → Type 0
IsOptionValue options t = any (λ o. text_eq o.value t) options ≡ true

abbrev pub IsOptionItem : List SelectOption → Item → Type 0
IsOptionItem options (string t) = IsOptionValue options t
IsOptionItem options _ = ⊥

abbrev pub IsNumber : Tools → CellValue → Type 0
IsNumber tools null_value = Unit
IsNumber tools (number_of s) = tools.is_number s ≡ true
IsNumber tools _ = ⊥

abbrev pub IsDate : Tools → CellValue → Type 0
IsDate tools null_value = Unit
IsDate tools (date_of s) = tools.is_date s ≡ true
IsDate tools _ = ⊥

abbrev pub IsBoolean : CellValue → Type 0
IsBoolean (boolean b) = Unit
IsBoolean _ = ⊥

abbrev pub IsText : CellValue → Type 0
IsText (text t) = Unit
IsText _ = ⊥

abbrev pub IsChoice : List SelectOption → CellValue → Type 0
IsChoice options (text t) = (t ≡ []) ⊎ IsOptionValue options t
IsChoice options _ = ⊥

abbrev pub IsArrayOf : (Item → Type 0) → CellValue → Type 0
IsArrayOf P (array items) = All P items
IsArrayOf P _ = ⊥

-- What a cell of the variant may hold: a number, boolean or date, an option's value or none, an
-- array of options' values or of files, and otherwise a text.
abbrev pub Suits : Tools → Option CellOpts → CellValue → Type 0
Suits tools (some number) = IsNumber tools
Suits tools (some checkbox) = IsBoolean
Suits tools (some date) = IsDate tools
Suits tools (some (select options)) = IsChoice options
Suits tools (some (multi_select options)) = IsArrayOf (IsOptionItem options)
Suits tools (some file) = IsArrayOf (λ item. get_is_file_cell_data item ≡ true)
Suits tools _ = IsText

pub get_empty_cell_value-Suits :
    (tools : Tools) (opts : Option CellOpts) → Suits tools opts (get_empty_cell_value opts)
unfolding get_empty_cell_value
get_empty_cell_value-Suits tools none = tt
get_empty_cell_value-Suits tools (some short_text) = tt
get_empty_cell_value-Suits tools (some long_text) = tt
get_empty_cell_value-Suits tools (some number) = tt
get_empty_cell_value-Suits tools (some checkbox) = tt
get_empty_cell_value-Suits tools (some date) = tt
get_empty_cell_value-Suits tools (some url) = tt
get_empty_cell_value-Suits tools (some file) = tt
get_empty_cell_value-Suits tools (some (select options)) = inl refl
get_empty_cell_value-Suits tools (some (multi_select options)) = tt

-- Pasting an empty text writes the value that clearing the cell writes.
process_empty-get_empty_cell_value :
    (tools : Tools) (opts : Option CellOpts) → process_empty tools opts ≡ get_empty_cell_value opts
unfolding process_empty get_empty_cell_value
process_empty-get_empty_cell_value tools none = refl
process_empty-get_empty_cell_value tools (some short_text) = refl
process_empty-get_empty_cell_value tools (some long_text) = refl
process_empty-get_empty_cell_value tools (some number) = refl
process_empty-get_empty_cell_value tools (some checkbox) = refl
process_empty-get_empty_cell_value tools (some date) = refl
process_empty-get_empty_cell_value tools (some url) = refl
process_empty-get_empty_cell_value tools (some file) = refl
process_empty-get_empty_cell_value tools (some (select options)) = refl
process_empty-get_empty_cell_value tools (some (multi_select options)) = refl

match_select_option-IsOptionValue :
    (lower : Text → Text) (value : Text) (options : List SelectOption)
    → AllSome (IsOptionValue options) (match_select_option lower value options)
unfolding match_select_option
match_select_option-IsOptionValue lower value [] = tt
match_select_option-IsOptionValue lower value (o ∷ os) =
    if_cases (AllSome (IsOptionValue (o ∷ os))) (is_option lower value o)
      (λ _. ground (arith, text_eq_self o.value))
      (λ _.
        weaken (match_select_option lower value os)
          (match_select_option-IsOptionValue lower value os))
  where
    weaken : (m : Option Text) → AllSome (IsOptionValue os) m → AllSome (IsOptionValue (o ∷ os)) m
    weaken none h = tt
    weaken (some t) h = ground (arith, h)

files_of-All :
    (items : List Item) → All (λ item. get_is_file_cell_data item ≡ true) (files_of items)
unfolding files_of
files_of-All [] = tt
files_of-All (item ∷ items) =
    if_cases (All (λ item. get_is_file_cell_data item ≡ true)) (get_is_file_cell_data item)
      (λ e. (e, files_of-All items)) (λ _. files_of-All items)

module _ (tools : Tools) where
  paste_select-IsChoice :
      (options : List SelectOption) (s : Text)
      → AllSome (IsChoice options) (paste_select tools options s)
  unfolding paste_select
  paste_select-IsChoice options s =
      go (match_select_option (lower tools) s options)
        (match_select_option-IsOptionValue (lower tools) s options)
    where
      go :
          (m : Option Text)
          → AllSome (IsOptionValue options) m
          → AllSome (IsChoice options) (elim m [
            | none ↦ none
            | some matched ↦ if is_empty matched then none else some (text matched)
          ])
      go none h = tt
      go (some t) h = if_cases (AllSome (IsChoice options)) (is_empty t) (λ _. tt) (λ _. inr h)

  cons_match-All :
      (options : List SelectOption) (m : Option Text) (ids : List Text)
      → AllSome (IsOptionValue options) m
      → All (IsOptionItem options) (map string ids)
      → All (IsOptionItem options) (map string (cons_match m ids))
  cons_match-All options none ids h hs = hs
  cons_match-All options (some []) ids h hs = hs
  cons_match-All options (some (c ∷ t)) ids h hs = (h, hs)

  matches_of-All :
      (options : List SelectOption) (values : List Text)
      → All (IsOptionItem options) (map string (matches_of tools options values))
  unfolding matches_of
  matches_of-All options [] = tt
  matches_of-All options (v ∷ values) =
      cons_match-All options (match_select_option (lower tools) v options)
        (matches_of tools options values)
        (match_select_option-IsOptionValue (lower tools) v options) (matches_of-All options values)

  text_of_json-IsText : (o : Option Parsed) (s : Text) → IsText (text_of_json tools o s)
  unfolding text_of_json text_of_items
  text_of_json-IsText (some (parsed_array items)) s =
      if_cases IsText (ltb 0 (length items) && all get_is_file_cell_data items) (λ _. tt)
        (λ _. if_cases IsText (all is_string items) (λ _. tt) (λ _. tt))
  text_of_json-IsText (some (parsed_boolean b)) s = tt
  text_of_json-IsText (some parsed_other) s = tt
  text_of_json-IsText none s =
      if_cases IsText
        (text_eq (lower tools s) (codes "true") || text_eq (lower tools s) (codes "false"))
        (λ _. tt) (λ _. tt)

  paste_text-IsText : (s : Text) → IsText (paste_text tools s)
  unfolding paste_text
  paste_text-IsText s =
      if_cases IsText (is_iso_date s && tools.is_date s) (λ _. tt)
        (λ _.
          if_cases IsText (starts_with_any (b'[' ∷ b'{' ∷ b't' ∷ b'f' ∷ []) s)
            (λ _. text_of_json-IsText (tools.parse_json s) s) (λ _. tt))

  paste_file-All :
      (o : Option Parsed)
      → AllSome (IsArrayOf (λ item. get_is_file_cell_data item ≡ true)) (paste_file tools o)
  unfolding paste_file
  paste_file-All none = tt
  paste_file-All (some (parsed_array items)) =
      if_cases (AllSome (IsArrayOf (λ item. get_is_file_cell_data item ≡ true)))
        (ltb 0 (length items) && (length (files_of items) == 0)) (λ _. tt) (λ _. files_of-All items)
  paste_file-All (some (parsed_boolean b)) = tt
  paste_file-All (some parsed_other) = tt

  process_filled-Suits :
      (opts : Option CellOpts) (s : Text) → AllSome (Suits tools opts) (process_filled tools opts s)
  unfolding process_filled paste_checkbox paste_multi_select paste_url
  process_filled-Suits none s = paste_text-IsText s
  process_filled-Suits (some short_text) s = paste_text-IsText s
  process_filled-Suits (some long_text) s = paste_text-IsText s
  process_filled-Suits (some number) s =
      if_cases (AllSome (IsNumber tools)) (tools.is_number s) (λ e. e) (λ _. tt)
  process_filled-Suits (some checkbox) s =
      if_cases (AllSome IsBoolean) (has valid_booleans (lower tools s)) (λ _. tt) (λ _. tt)
  process_filled-Suits (some date) s =
      if_cases (AllSome (IsDate tools)) (tools.is_date s) (λ e. e) (λ _. tt)
  process_filled-Suits (some url) s =
      if_cases (AllSome IsText) (starts_with_any (b'[' ∷ b'{' ∷ []) s) (λ _. tt)
        (λ _. if_cases (AllSome IsText) (tools.is_url s || is_domain s) (λ _. tt) (λ _. tt))
  process_filled-Suits (some file) s = paste_file-All (tools.parse_json s)
  process_filled-Suits (some (select options)) s = paste_select-IsChoice options s
  process_filled-Suits (some (multi_select options)) s =
      let values = pasted_values tools (tools.parse_json s) s in
      if_cases (AllSome (IsArrayOf (IsOptionItem options)))
        (ltb 0 (length values) && (length (matches_of tools options values) == 0)) (λ _. tt)
        (λ _. matches_of-All options values)

  pub process_value-Suits :
      (opts : Option CellOpts) (s : Text) → AllSome (Suits tools opts) (process_value tools opts s)
  unfolding process_value
  process_value-Suits opts [] =
      subst (Suits tools opts) (sym (process_empty-get_empty_cell_value tools opts))
        (get_empty_cell_value-Suits tools opts)
  process_value-Suits opts (c ∷ s) = process_filled-Suits opts (c ∷ s)
