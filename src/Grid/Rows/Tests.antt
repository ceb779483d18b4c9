-- ===== src/Grid/Rows/Tests.antt =====
-- The selection of rows in a small grid.
use mizumi.Prelude.{◌≡◌, refl, ◌&&◌, true, false, List, [], ◌∷◌, none, pos}
use mizumi.Text.{Text, codes, text_eq}
use mizumi.Text.Sets.{has}
use mizumi.Grid.State.{initial_state}
use mizumi.Grid.Columns.Laws.{IsDistinct}
use mizumi.Grid.Select.{get_is_cell_selected}
use mizumi.Grid.Rows.{set_to, RowSelection, is_on, apply_updater, on_row_selection_change}
use mizumi.Grid.Rows.Selected.{get_is_cell_selected-on_row_selection_change}

abbrev row_ids : List Text
row_ids = codes "r" ∷ codes "s" ∷ []

abbrev ids : List Text
ids = codes "a" ∷ codes "b" ∷ []

abbrev new : RowSelection
new = (codes "r", false) ∷ (codes "s", true) ∷ []

distinct : IsDistinct row_ids
unfolding has text_eq
distinct = (refl, (refl, tt))

get_is_cell_selected-on_row_selection_change_example :
    let t = on_row_selection_change row_ids ids (set_to new) (initial_state []) in
    (get_is_cell_selected t (pos 1) (codes "b") ≡ (
      is_on (apply_updater (set_to new) (initial_state []).row_selection) (codes "s")
      && has ids (codes "b")))
    × (t.focused_cell ≡ none)
    × (t.editing_cell ≡ none)
get_is_cell_selected-on_row_selection_change_example =
    get_is_cell_selected-on_row_selection_change row_ids ids 1 (codes "s") distinct refl
      (set_to new) (initial_state []) (codes "b")
