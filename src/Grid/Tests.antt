-- ===== src/Grid/Tests.antt =====
-- The grid's operations on a small grid, and their theorems at concrete inputs.
use mizumi.Prelude.{◌≡◌, refl, ◌↔◌, true, false, List, [], ◌∷◌, some, pos, negsuc, arith}
use mizumi.Text.{Text, codes, text_eq, split}
use mizumi.Text.Trim.{is_space, trim_start}
use mizumi.Text.Decimal.{parse_int, read_signed}
use mizumi.Text.Sets.{has}
use mizumi.Grid.Key.{position, cell_key, parse_cell_key}
use mizumi.Grid.Key.Laws.{parse_cell_key-cell_key, cell_key_inj}
use mizumi.Grid.Columns.{navigable_column_ids, is_non_navigable}
use mizumi.Grid.State.{DataGridState, initial_state}
use mizumi.Grid.Select.{get_is_cell_selected, select_range}
use mizumi.Grid.Select.Membership.{IsInRectangle, get_is_cell_selected-select_range}
use mizumi.Grid.Navigate.{Layout, pagedown, navigate_cell, navigate_position}
use mizumi.Grid.Navigate.Bounds.{IsInGrid, navigate_cell-IsInGrid}
use mizumi.Grid.Navigate.Reach.{HasIds, navigate_all, keys_to, navigate_all-keys_to}

abbrev a : Text
a = codes "a"

abbrev b : Text
b = codes "b"

abbrev c : Text
c = codes "c"

abbrev ids : List Text
ids = codes "select" ∷ a ∷ b ∷ c ∷ []

abbrev layout : Layout
layout = record { columns = a ∷ b ∷ c ∷ []; row_count = 4; is_rtl = false; page_size = 10 }

abbrev empty : DataGridState
empty = initial_state []

navigable_ids : navigable_column_ids ids ≡ a ∷ b ∷ c ∷ []
unfolding navigable_column_ids is_non_navigable text_eq
navigable_ids = refl

key_of_cell : cell_key (pos 12) a ≡ codes "12:a"
unfolding cell_key
key_of_cell = refl

key_without_row : parse_cell_key (codes "x:a") ≡ position (pos 0) []
unfolding parse_cell_key split parse_int read_signed trim_start is_space
key_without_row = refl

HasIds-layout : HasIds layout.columns
unfolding has text_eq
HasIds-layout = record {
  named = (λ e. cc, (λ e. cc, (λ e. cc, tt)));
  distinct = (refl, (refl, (refl, tt)));
}

parse_cell_key-cell_key_example : parse_cell_key (cell_key (negsuc 0) a) ≡ position (negsuc 0) a
parse_cell_key-cell_key_example = parse_cell_key-cell_key (negsuc 0) a (λ e. cc) (omega arith)

cell_key_inj_example : (pos 3 ≡ pos 3) × (a ≡ a)
cell_key_inj_example = cell_key_inj (pos 3) (pos 3) a a refl

get_is_cell_selected-select_range_example :
    (get_is_cell_selected
        (select_range ids (position (pos 2) c) (position (pos 1) b) false empty)
        (pos 1)
        c
      ≡ true)
    ↔ IsInRectangle ids (position (pos 2) c) (position (pos 1) b) (pos 1) c
get_is_cell_selected-select_range_example =
    get_is_cell_selected-select_range ids (position (pos 2) c) (position (pos 1) b) false empty
      (pos 1) c (λ e. cc)

abbrev focused : DataGridState
focused = record empty { focused_cell = some (position (pos 1) b) }

focused-IsInGrid : IsInGrid layout (position (pos 1) b)
unfolding has text_eq
focused-IsInGrid = record { row = omega arith; column = refl }

navigate_cell-IsInGrid_example :
    ((navigate_cell layout pagedown focused).focused_cell
      ≡ some (navigate_position layout pagedown (position (pos 1) b)))
    × IsInGrid layout (navigate_position layout pagedown (position (pos 1) b))
navigate_cell-IsInGrid_example =
    navigate_cell-IsInGrid layout pagedown focused (position (pos 1) b) refl focused-IsInGrid

navigate_all-keys_to_example :
    navigate_all layout (keys_to layout 3 2) (position (negsuc 0) []) ≡ position (pos 3) c
navigate_all-keys_to_example =
    navigate_all-keys_to layout (position (negsuc 0) []) 3 2 c HasIds-layout (omega arith) refl
