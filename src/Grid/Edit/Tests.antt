-- ===== src/Grid/Edit/Tests.antt =====
-- The end of editing and a deletion in a small grid.
use mizumi.Prelude.{
  ℕ, suc, ◌⊎◌, any, ◌==ℤ◌, ◌<◌, ◌≡◌, refl, true, false, List, [], ◌∷◌, none, some, ℤ, pos, ◌≤ℤ◌,
  All, arith,
}
use mizumi.Text.{Text, codes, text_eq}
use mizumi.Text.Sets.{has}
use mizumi.Grid.Key.{CellPosition, position}
use mizumi.Grid.State.{DataGridState, initial_state}
use mizumi.Grid.Navigate.{Layout, right}
use mizumi.Grid.Navigate.Bounds.{IsInGrid}
use mizumi.Grid.Edit.{move_to, on_cell_editing_stop, rows_to_delete, on_rows_delete}
use mizumi.Grid.Edit.Focus.{focused-on_rows_delete, on_cell_editing_stop-IsInGrid}

abbrev ids : List Text
ids = codes "a" ∷ codes "b" ∷ []

abbrev layout : Layout
layout = record { columns = ids; row_count = 4; is_rtl = false; page_size = 10 }

abbrev edited : CellPosition
edited = position (pos 1) (codes "a")

abbrev editing : DataGridState
editing = record (initial_state []) { focused_cell = some edited; editing_cell = some edited }

edited-IsInGrid : IsInGrid layout edited
unfolding has text_eq
edited-IsInGrid = record { row = omega arith; column = refl }

on_cell_editing_stop-IsInGrid_example :
    let t = on_cell_editing_stop layout (move_to right) editing in
    (t.editing_cell ≡ none) × ((q : CellPosition) × (t.focused_cell ≡ some q) × IsInGrid layout q)
on_cell_editing_stop-IsInGrid_example =
    on_cell_editing_stop-IsInGrid layout (move_to right) editing edited refl refl edited-IsInGrid

deleted_indices : All (λ j. pos 0 ≤ℤ j) (pos 3 ∷ pos 2 ∷ [])
deleted_indices = (omega arith, (omega arith, tt))

-- Two of the four rows go.
abbrev two_left : List ℕ → List ℤ → ℕ
two_left rows indices = 2

abbrev rows : List ℕ
rows = 10 ∷ 11 ∷ 12 ∷ 13 ∷ []

deleted_rows : rows_to_delete rows (pos 3 ∷ pos 2 ∷ pos 9 ∷ []) ≡ 13 ∷ 12 ∷ []
unfolding rows_to_delete
deleted_rows = refl

focused-on_rows_delete_example :
    let t = on_rows_delete true ids rows two_left (pos 3 ∷ pos 2 ∷ []) editing in
    (r : ℕ) × (t.focused_cell ≡ some (position (pos r) (codes "a")))
    × (r < 2)
    × All (λ j. pos r ≤ℤ j) (pos 3 ∷ pos 2 ∷ [])
    × ((any (λ j. j ==ℤ pos r) (pos 3 ∷ pos 2 ∷ []) ≡ true) ⊎ (suc r ≡ 2))
focused-on_rows_delete_example =
    focused-on_rows_delete ids rows two_left (pos 3) (pos 2 ∷ []) editing b'a' [] (omega arith)
      (omega arith) deleted_indices refl
