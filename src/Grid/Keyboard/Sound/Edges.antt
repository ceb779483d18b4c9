-- ===== src/Grid/Keyboard/Sound/Edges.antt =====
-- The growing of a selection keeps its ends inside the table.
use mizumi.Prelude.{
  AllSome, AllSome-intro, ◌≡◌, true, [], ◌∷◌, Option, none, some, ℤ, pos, ◌-ℤ◌, ltb_ℤ, length,
  arith, if_cases,
}
use mizumi.Text.{Text}
use mizumi.Text.Sets.{has}
use mizumi.Grid.Key.{CellPosition}
use mizumi.Grid.Columns.{index_of, get_at}
use mizumi.Grid.State.{CellRange, DataGridState}
use mizumi.Grid.Navigate.{NavigationDirection, up, down, left, right, home, end, some_or}
use mizumi.Grid.Navigate.Bounds.{
  IsRow, nullish, next_column-holds, previous_column-holds, has_of_get_at,
}
use mizumi.Grid.Keyboard.{GridProps, layout_of}
use mizumi.Grid.Keyboard.Extend.{
  selection_edge, selection_start, range_end, range_start, extended_row, extended_column,
  extend_selection, select_to_row, select_to_column,
}
use mizumi.Grid.Keyboard.Edge.{column_after-next_column, column_before-previous_column}
use mizumi.Grid.Keyboard.Indices.{row_count_of-shown}
use mizumi.Grid.Keyboard.Sound.{IsCell, IsRange, IsSound, select_range-IsSound}

module _ (g : GridProps) where
  module _ (p : CellPosition) (c : IsCell g p) where
    range_end-IsCell : (o : Option CellRange) → AllSome (IsRange g) o → IsCell g (range_end o p)
    range_end-IsCell none h = c
    range_end-IsCell (some r) h = h.end

    range_start-IsCell : (o : Option CellRange) → AllSome (IsRange g) o → IsCell g (range_start o p)
    range_start-IsCell none h = c
    range_start-IsCell (some r) h = h.start

    selection_edge-IsCell : (s : DataGridState) → IsSound g s → IsCell g (selection_edge p s)
    unfolding selection_edge
    selection_edge-IsCell s h = range_end-IsCell s.selection_state.selection_range h.ends

    selection_start-IsCell : (s : DataGridState) → IsSound g s → IsCell g (selection_start p s)
    unfolding selection_start
    selection_start-IsCell s h = range_start-IsCell s.selection_state.selection_range h.ends

  abbrev pub IsId : Text → Type 0
  IsId id = has g.all_ids id ≡ true

  module _ (navigable : (id : Text) → has g.navigable_ids id ≡ true → IsId id) where
    in_layout : (id : Text) → has (layout_of g).columns id ≡ true → IsId id
    unfolding layout_of
    in_layout = navigable

    some_or-IsId :
        (i : ℤ) (column : Text) → IsId column → IsId (some_or (get_at g.navigable_ids i) column)
    some_or-IsId = unfold layout_of in nullish (layout_of g) IsId in_layout

    pub get_at-IsId : (i : ℤ) → AllSome IsId (get_at g.navigable_ids i)
    get_at-IsId i =
        AllSome-intro IsId (get_at g.navigable_ids i)
          (λ id e. navigable id (has_of_get_at g.navigable_ids i id e))

    extended_row-IsRow :
        (d : NavigationDirection) (row : ℤ)
        → IsRow (layout_of g) row
        → IsRow (layout_of g) (extended_row g d row)
    unfolding extended_row layout_of
    extended_row-IsRow up row h = ground arith
    extended_row-IsRow down row h =
        let same = row_count_of-shown g (ground arith) in ground (arith, same)
    extended_row-IsRow _ row h = h

    extended_column-IsId :
        (d : NavigationDirection) (column : Text) → IsId column → IsId (extended_column g d column)
    unfolding extended_column
    extended_column-IsId left column h =
        if_cases IsId g.is_rtl
          (λ _.
            rw (column_after-next_column g column)
              (next_column-holds (layout_of g) IsId in_layout column h))
          (λ _.
            rw (column_before-previous_column g column)
              (previous_column-holds (layout_of g) IsId in_layout column h))
    extended_column-IsId right column h =
        if_cases IsId g.is_rtl
          (λ _.
            rw (column_before-previous_column g column)
              (previous_column-holds (layout_of g) IsId in_layout column h))
          (λ _.
            rw (column_after-next_column g column)
              (next_column-holds (layout_of g) IsId in_layout column h))
    extended_column-IsId home column h =
        if_cases IsId (ltb_ℤ (pos 0) (pos (length g.navigable_ids)))
          (λ _. some_or-IsId (pos 0) column h) (λ _. h)
    extended_column-IsId end column h =
        if_cases IsId (ltb_ℤ (pos 0) (pos (length g.navigable_ids)))
          (λ _. some_or-IsId (pos (length g.navigable_ids) -ℤ pos 1) column h) (λ _. h)
    extended_column-IsId _ column h = h

    module _ (p : CellPosition) (c : IsCell g p) (s : DataGridState) (h : IsSound g s) where
      pub extend_selection-IsSound :
          (d : NavigationDirection) → IsSound g (extend_selection g d p s)
      unfolding extend_selection
      extend_selection-IsSound d =
          let edge = selection_edge-IsCell p c s h in
          select_range-IsSound g (selection_start p s) _ s (selection_start-IsCell p c s h)
            (record {
              row = extended_row-IsRow d (selection_edge p s).row_index edge.row;
              column = extended_column-IsId d (selection_edge p s).column_id edge.column;
            })
            h

      pub select_to_row-IsSound :
          (row : ℤ) → IsRow (layout_of g) row → IsSound g (select_to_row g row p s)
      unfolding select_to_row
      select_to_row-IsSound row r =
          let edge = selection_edge-IsCell p c s h in
          select_range-IsSound g (selection_start p s) _ s (selection_start-IsCell p c s h)
            (record {
              row = r;
              column =
                  some_or-IsId (index_of (selection_edge p s).column_id g.navigable_ids)
                    (selection_edge p s).column_id edge.column;
            })
            h

      pub select_to_column-IsSound :
          (o : Option Text) → AllSome IsId o → IsSound g (select_to_column g o p s)
      unfolding select_to_column
      select_to_column-IsSound none a = h
      select_to_column-IsSound (some []) a = h
      select_to_column-IsSound (some (d ∷ id)) a =
          let edge = selection_edge-IsCell p c s h in
          select_range-IsSound g (selection_start p s) _ s (selection_start-IsCell p c s h)
            (record { row = edge.row; column = a }) h
