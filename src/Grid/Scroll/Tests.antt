-- ===== src/Grid/Scroll/Tests.antt =====
-- Adding a row to a small grid.
use mizumi.Prelude.{
  ℕ, if◌then◌else◌, ◌≤◌, ◌≡◌, refl, true, false, List, [], ◌∷◌, none, some, pos, ◌<ℤ◌, ltb, leb,
}
use mizumi.Text.{codes, text_eq}
use mizumi.Grid.Key.{position}
use mizumi.Grid.Columns.{
  ColumnDef, column_id_of, column_ids, navigable_column_ids, is_non_navigable,
}
use mizumi.Grid.Select.{on_selection_clear}
use mizumi.Grid.Navigate.{focus_cell}
use mizumi.Grid.Sample.{focused}
use mizumi.Grid.Scroll.{Rounds, at, target_column, on_row_add}
use mizumi.Grid.Scroll.Ends.{target, IsLast, on_row_add-ends}

abbrev columns : List ColumnDef
columns =
    record { id = some (codes "select"); accessor_key = none }
    ∷ record { id = none; accessor_key = some (codes "a") }
    ∷ []

goes_to_a : target_column none (navigable_column_ids (column_ids columns)) ≡ some (codes "a")
unfolding column_ids column_id_of navigable_column_ids is_non_navigable text_eq
goes_to_a = refl

-- The new row is in the data from the third round on, and its cell mounted from the fifth.
abbrev later : Rounds
later = record { data_length = λ k. if ltb k 2 then 2 else 3; is_mounted = λ k. leb 4 k }

on_row_add-ends_example :
    let t = on_row_add true false columns 2 (at none none) later focused in
    (m : ℕ) × (m ≤ 16)
    × (t ≡ focus_cell (target (pos 2) (codes "a") later m) (on_selection_clear focused))
    × IsLast (pos 2) (codes "a") later m 16
    × (pos 2 <ℤ pos (later.data_length m) → t.focused_cell ≡ some (position (pos 2) (codes "a")))
on_row_add-ends_example = on_row_add-ends columns 2 none none later focused b'a' [] goes_to_a
