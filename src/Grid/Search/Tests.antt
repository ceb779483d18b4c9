-- ===== src/Grid/Search/Tests.antt =====
-- A search in a small grid.
use mizumi.Prelude.{◌≡◌, refl, ◌&&◌, List, [], ◌∷◌, pos, arith, get_elem?}
use mizumi.Text.{Text, codes}
use mizumi.Text.Trim.{trim}
use mizumi.Text.Sets.{has}
use mizumi.Grid.Key.{CellPosition, position}
use mizumi.Grid.State.{DataGridState, initial_state}
use mizumi.Grid.Search.{
  VisibleRow, on_search, get_is_search_match, on_navigate_to_prev_match, on_navigate_to_next_match,
  set_matches,
}
use mizumi.Grid.Search.Matches.{row_matches, get_is_search_match-on_search}
use mizumi.Grid.Search.Cycle.{shows, next_times, next_times-shows, prev-next}

abbrev lower : Text → Text
lower s = s

abbrev rows : List VisibleRow
rows =
    ((codes "a", codes "one") ∷ (codes "b", codes "two") ∷ [])
    ∷ ((codes "b", codes "stone") ∷ [])
    ∷ []

abbrev ids : List Text
ids = codes "a" ∷ codes "b" ∷ []

abbrev first_match : CellPosition
first_match = position (pos 0) (codes "a")

abbrev second_match : CellPosition
second_match = position (pos 1) (codes "b")

abbrev found : DataGridState
found = set_matches (first_match ∷ second_match ∷ []) (pos 1) (initial_state [])

get_is_search_match-on_search_example :
    get_is_search_match
      (on_search lower ids rows (codes "one") (initial_state []))
      (pos 1)
      (codes "b")
    ≡ (has ids (codes "b") && row_matches lower (codes "one") (get_elem? rows 1) (codes "b"))
unfolding trim
get_is_search_match-on_search_example =
    get_is_search_match-on_search lower ids rows (codes "one") (initial_state []) 1 (codes "b") refl

next_times-shows_example : next_times 3 found ≡ shows 0 first_match found
next_times-shows_example = next_times-shows found 1 refl (omega arith) 2 first_match refl

prev-next_example :
    (on_navigate_to_prev_match (on_navigate_to_next_match found) ≡ shows 1 second_match found)
    × (on_navigate_to_next_match (on_navigate_to_prev_match found) ≡ shows 1 second_match found)
prev-next_example = prev-next found 1 second_match refl refl
