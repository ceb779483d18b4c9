-- ===== src/Grid/Update/Tests.antt =====
-- Updates of a small table that shows the rows of its data in another order.
use mizumi.Prelude.{ℕ, ◌≡◌, refl, false, List, [], ◌∷◌, Option, some, pos}
use mizumi.Text.{codes, text_eq}
use mizumi.Grid.Update.{DataRow, CellUpdate, on_data_update, index_of_row, target_index}
use mizumi.Grid.Update.Lookup.{last_value, new_cell, new_cell-on_data_update}

abbrev row : ℕ → DataRow ℕ
row n = record { ref = n; fields = λ column. n }

abbrev data_rows : List (Option (DataRow ℕ))
data_rows = some (row 7) ∷ some (row 8) ∷ []

abbrev shown : Option (List (DataRow ℕ))
shown = some (row 8 ∷ row 7 ∷ [])

abbrev first_update : CellUpdate ℕ
first_update = record { row_index = pos 0; column_id = codes "a"; value = 20 }

abbrev later_updates : List (CellUpdate ℕ)
later_updates = record { row_index = pos 0; column_id = codes "a"; value = 30 } ∷ []

last_value_wins :
    last_value shown data_rows (first_update ∷ later_updates) (pos 1) (codes "a") 8 ≡ 30
unfolding target_index index_of_row text_eq
last_value_wins = refl

new_cell-on_data_update_example :
    new_cell (on_data_update false shown data_rows (first_update ∷ later_updates)) 1 (codes "a")
    ≡ some (last_value shown data_rows (first_update ∷ later_updates) (pos 1) (codes "a") 8)
new_cell-on_data_update_example =
    new_cell-on_data_update shown data_rows first_update later_updates 1 (row 8) (codes "a") refl
