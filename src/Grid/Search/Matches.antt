-- ===== src/Grid/Search/Matches.antt =====
-- Which cells onSearch finds.
use mizumi.Prelude.{
  ℕ, suc, ◌≡◌, refl, ap, Bool, false, ◌&&◌, ◌||◌, List, [], ◌∷◌, ◌++◌, Option, none, some, ℤ, pos,
  ◌==◌, leb, ◌-◌, ◌≤◌, get_elem?, any, arith,
}
use mizumi.Text.{Text, is_empty, text_eq, includes}
use mizumi.Text.Laws.{text_eq_iff}
use mizumi.Text.Trim.{trim}
use mizumi.Text.Sets.{has, add, has-add}
use mizumi.Grid.Key.{CellPosition, position, cell_key}
use mizumi.Grid.Key.Laws.{text_eq-cell_key}
use mizumi.Grid.State.{DataGridState}
use mizumi.Grid.Navigate.{same_cell}
use mizumi.Grid.Search.{
  VisibleRow, cell_by_id, search_cell, search_row, search_rows, on_search, search_match_set,
  get_is_search_match,
}

has_nil : (k : Text) → has [] k ≡ false
unfolding has
has_nil k = refl

abbrev is_found : List CellPosition → CellPosition → Bool
is_found ms p = any (λ m. same_cell m p) ms

has-search_match_set :
    (ms : List CellPosition) (keys : List Text) (row : ℤ) (column : Text)
    → has (search_match_set ms keys) (cell_key row column)
      ≡ (is_found ms (position row column) || has keys (cell_key row column))
unfolding search_match_set same_cell
has-search_match_set [] keys row column = refl
has-search_match_set (m ∷ ms) keys row column = ground (
  arith,
  has-search_match_set ms (add (cell_key m.row_index m.column_id) keys) row column,
  has-add keys (cell_key m.row_index m.column_id) (cell_key row column),
  text_eq-cell_key m.row_index row m.column_id column,
)

is_found-snoc :
    (ms : List CellPosition) (m p : CellPosition)
    → is_found (ms ++ m ∷ []) p ≡ (is_found ms p || same_cell m p)
is_found-snoc [] m p = ground arith
is_found-snoc (x ∷ ms) m p = ground (arith, is_found-snoc ms m p)

-- The text in the row's cell of that column, in lower case, has the lower-case query in it.
module _ (to_lower_case : Text → Text) (lower_query : Text) where
  abbrev pub value_matches : Option Text → Bool
  value_matches none = false
  value_matches (some value) = includes (to_lower_case value) lower_query

  is_found-search_cell :
      (p q : CellPosition) (o : Option Text) (ms : List CellPosition)
      → is_found (search_cell to_lower_case lower_query p o ms) q
        ≡ (is_found ms q || same_cell p q && value_matches o)
  unfolding search_cell
  is_found-search_cell p q none ms = ground arith
  is_found-search_cell p q (some v) ms = ground (arith, is_found-snoc ms p q)

  is_found-search_row :
      (i r : ℕ) (row : VisibleRow) (ids : List Text) (column : Text) (ms : List CellPosition)
      → is_found (search_row to_lower_case lower_query i row ids ms) (position (pos r) column) ≡ (
          is_found ms (position (pos r) column)
          || (i == r) && has ids column && value_matches (cell_by_id row column))
  unfolding search_row has
  is_found-search_row i r row [] column ms = ground arith
  is_found-search_row i r row (id ∷ ids) column ms = ground (
    arith,
    at_column,
    text_eq_iff id column,
    same,
    is_found-search_cell (position (pos i) id) (position (pos r) column) (cell_by_id row id) ms,
    is_found-search_row i r row ids column
        (search_cell to_lower_case lower_query (position (pos i) id) (cell_by_id row id) ms),
  )
    where
      at_column :
          id ≡ column → value_matches (cell_by_id row id) ≡ value_matches (cell_by_id row column)
      at_column e = ap (λ k. value_matches (cell_by_id row k)) e

      same :
          same_cell (position (pos i) id) (position (pos r) column)
          ≡ ((i == r) && text_eq id column)
      same = unfold same_cell in ground arith

  -- The cell of row `r`, if there is one, is visible and its text matches.
  abbrev pub row_matches : Option VisibleRow → Text → Bool
  row_matches none column = false
  row_matches (some row) column = value_matches (cell_by_id row column)

  is_found-search_rows :
      (ids : List Text) (i r : ℕ) (rows : List VisibleRow) (column : Text) (ms : List CellPosition)
      → is_found (search_rows to_lower_case lower_query ids i rows ms) (position (pos r) column) ≡ (
          is_found ms (position (pos r) column)
          || leb i r && has ids column && row_matches (get_elem? rows (r - i)) column)
  unfolding search_rows
  is_found-search_rows ids i r [] column ms = ground arith
  is_found-search_rows ids i r (row ∷ rows) column ms = ground (
    arith,
    is_found-search_row i r row ids column ms,
    here,
    there,
    is_found-search_rows ids (suc i) r rows column
        (search_row to_lower_case lower_query i row ids ms),
  )
    where
      cell : ℕ → Bool
      cell k = row_matches (get_elem? (row ∷ rows) k) column

      here :
          i ≡ r
          → row_matches (get_elem? (row ∷ rows) (r - i)) column
            ≡ value_matches (cell_by_id row column)
      here e = let e : r - i ≡ 0 = omega arith in ap cell e

      there :
          suc i ≤ r
          → row_matches (get_elem? (row ∷ rows) (r - i)) column
            ≡ row_matches (get_elem? rows (r - suc i)) column
      there h = let e : r - i ≡ suc (r - suc i) = omega arith in ap cell e

-- After a search for a query that is not blank, a cell is a match exactly if its column is one of
-- the grid's, the row shows it, and its text, in lower case, has the lower-case query in it.
pub get_is_search_match-on_search :
    (to_lower_case : Text → Text) (column_ids : List Text) (rows : List VisibleRow) (query : Text)
    (s : DataGridState) (row : ℕ) (column : Text)
    → is_empty (trim query) ≡ false
    → get_is_search_match (on_search to_lower_case column_ids rows query s) (pos row) column ≡ (
        has column_ids column
        && row_matches to_lower_case (to_lower_case query) (get_elem? rows row) column)
unfolding get_is_search_match on_search
get_is_search_match-on_search to_lower_case column_ids rows query s row column h =
    let ms = search_rows to_lower_case (to_lower_case query) column_ids 0 rows [] in
    rw h (
      ground (
        arith,
        has-search_match_set ms [] (pos row) column,
        has_nil (cell_key (pos row) column),
        is_found-search_rows to_lower_case (to_lower_case query) column_ids 0 row rows column [],
      ))
