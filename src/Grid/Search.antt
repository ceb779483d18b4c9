-- ===== src/Grid/Search.antt =====
-- The search of useDataGrid: onSearch, onSearchOpenChange, onSearchQueryChange,
-- onNavigateToPrevMatch, onNavigateToNextMatch, getIsSearchMatch, getIsActiveSearchMatch and
-- activeSearchMatch. The animation frames that the navigation asks for are run at once; the focus
-- of the grid's element and the scrolling are left out.
pub mod Matches
pub mod Cycle
mod Tests
use mizumi.Prelude.{
  ℕ, zero, suc, ◌%◌, Bool, true, false, ◌&&◌, List, [], ◌∷◌, ◌++◌, Option, none, some, ℤ, pos,
  negsuc, ◌+ℤ◌, ◌-ℤ◌, ltb_ℤ, length, ◌==◌, if◌then◌else◌,
}
use mizumi.Text.{Text, is_empty, text_eq, includes}
use mizumi.Text.Trim.{trim}
use mizumi.Text.Sets.{has, add}
use mizumi.Grid.Key.{CellPosition, position, cell_key}
use mizumi.Grid.Columns.{get_at}
use mizumi.Grid.State.{DataGridState}
use mizumi.Grid.Navigate.{focus_cell, same_cell}

-- The visible cells of a row: the id of the column and `String(value ?? "")`.
abbrev pub VisibleRow : Type 0
VisibleRow = List (Text × Text)

-- `new Map(row.getVisibleCells().map(…)).get(columnId)`: the last entry of a key counts.
unfoldable pub cell_by_id : VisibleRow → Text → Option Text
cell_by_id [] id = none
cell_by_id ((key, value) ∷ cells) id =
    let rest = cell_by_id cells id in
    elim rest [ some v ↦ some v | none ↦ if text_eq key id then some value else none ]

abbrev pub set_matches : List CellPosition → ℤ → DataGridState → DataGridState
set_matches matches index s = record s { search_matches = matches; match_index = index }

-- `matches.length > 0 ? 0 : -1`
abbrev pub first_index : List CellPosition → ℤ
first_index [] = negsuc 0
first_index (m ∷ ms) = pos 0

-- `to_lower_case` is String.prototype.toLowerCase.
module _ (to_lower_case : Text → Text) where
  unfoldable pub search_cell :
      Text → CellPosition → Option Text → List CellPosition → List CellPosition
  search_cell lower_query p none matches = matches
  search_cell lower_query p (some value) matches =
      if includes (to_lower_case value) lower_query then matches ++ p ∷ [] else matches

  unfoldable pub search_row :
      Text → ℕ → VisibleRow → List Text → List CellPosition → List CellPosition
  unfolding search_cell cell_by_id
  search_row lower_query index row [] matches = matches
  search_row lower_query index row (id ∷ ids) matches =
      search_row lower_query index row ids
        (search_cell lower_query (position (pos index) id) (cell_by_id row id) matches)

  -- The rounds of the loop over the rows from `index` on.
  unfoldable pub search_rows :
      Text → List Text → ℕ → List VisibleRow → List CellPosition → List CellPosition
  unfolding search_row
  search_rows lower_query column_ids index [] matches = matches
  search_rows lower_query column_ids index (row ∷ rows) matches =
      search_rows lower_query column_ids (suc index) rows
        (search_row lower_query index row column_ids matches)

  unfoldable pub on_search : List Text → List VisibleRow → Text → DataGridState → DataGridState
  unfolding search_rows trim
  on_search column_ids rows query s =
      let matches = search_rows (to_lower_case query) column_ids 0 rows [] in
      if is_empty (trim query)
      then set_matches [] (negsuc 0) s
      else set_matches matches (first_index matches) s

-- `matchIndex >= 0 && searchMatches[matchIndex]`
abbrev pub current_match : DataGridState → Option CellPosition
current_match s = get_at s.search_matches s.match_index

abbrev focus_match : Option CellPosition → DataGridState → DataGridState
focus_match none s = s
focus_match (some m) s = record s { focused_cell = some m }

unfoldable pub on_search_open_change : Bool → DataGridState → DataGridState
on_search_open_change true s = record s { search_open = true }
on_search_open_change false s =
    focus_match (current_match s)
      (set_matches [] (negsuc 0) (record s { search_open = false; search_query = [] }))

unfoldable pub on_search_query_change : Text → DataGridState → DataGridState
on_search_query_change query s = record s { search_query = query }

-- `a % b` for a positive `b`; the result has the sign of `a`.
unfoldable pub remainder : ℤ → ℕ → ℤ
remainder (pos n) b = pos (n % b)
remainder (negsuc n) b = pos 0 -ℤ pos (suc n % b)

unfoldable pub previous_match : ℤ → ℕ → ℤ
previous_match index count =
    if ltb_ℤ (index -ℤ pos 1) (pos 0) then pos count -ℤ pos 1 else index -ℤ pos 1

unfoldable pub next_match : ℤ → ℕ → ℤ
unfolding remainder
next_match index count = remainder (index +ℤ pos 1) count

-- What both of them do with the new index: `if (match)` is false for an index without a match.
unfoldable pub show_match : ℤ → Option CellPosition → DataGridState → DataGridState
unfolding focus_cell
show_match index none s = s
show_match index (some m) s = focus_cell m (record s { match_index = index })

abbrev to_match : (ℤ → ℕ → ℤ) → DataGridState → DataGridState
to_match step s =
    let index = step s.match_index (length s.search_matches) in
    if length s.search_matches == 0 then s else show_match index (get_at s.search_matches index) s

unfoldable pub on_navigate_to_prev_match : DataGridState → DataGridState
unfolding previous_match show_match
on_navigate_to_prev_match s = to_match previous_match s

unfoldable pub on_navigate_to_next_match : DataGridState → DataGridState
unfolding next_match show_match
on_navigate_to_next_match s = to_match next_match s

unfoldable pub search_match_set : List CellPosition → List Text → List Text
search_match_set [] keys = keys
search_match_set (m ∷ ms) keys = search_match_set ms (add (cell_key m.row_index m.column_id) keys)

unfoldable pub get_is_search_match : DataGridState → ℤ → Text → Bool
unfolding search_match_set
get_is_search_match s row column = has (search_match_set s.search_matches []) (cell_key row column)

abbrev is_at : Option CellPosition → CellPosition → Bool
is_at none p = false
is_at (some m) p = same_cell m p

unfoldable pub get_is_active_search_match : DataGridState → ℤ → Text → Bool
unfolding same_cell
get_is_active_search_match s row column = is_at (current_match s) (position row column)
