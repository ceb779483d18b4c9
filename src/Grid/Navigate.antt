-- ===== src/Grid/Navigate.antt =====
-- Keyboard navigation: navigateCell, focusCell and blurCell of useDataGrid. Scrolling and the focus
-- of DOM elements, which follow the focused cell, are not modelled.
pub mod Bounds
pub mod Reach
use mizumi.Prelude.{
  ℕ, zero, suc, Bool, true, false, not, ◌&&◌, ◌||◌, List, [], ◌∷◌, Option, none, some, ℤ, pos, ◌+ℤ◌,
  ◌-ℤ◌, ltb_ℤ, min_ℤ, max_ℤ, ◌==ℤ◌, length, if◌then◌else◌,
}
use mizumi.Text.{Text, text_eq}
use mizumi.Grid.Key.{CellPosition, position}
use mizumi.Grid.Columns.{index_of, get_at}
use mizumi.Grid.State.{DataGridState}

pub data NavigationDirection : Type 0 where
  up down left right home end : NavigationDirection
  ctrl_home ctrl_end ctrl_up ctrl_down : NavigationDirection
  pageup pagedown pageleft pageright : NavigationDirection

abbrev pub horizontal_page_size : ℤ
horizontal_page_size = pos 5

-- What a navigation depends on: the ids of the columns that can be navigated to, the number of rows
-- that the table shows, the writing direction, and the number of rows on a page, which is the
-- virtualizer's or 10 without one.
pub record Layout : Type 0 where
  pub columns : List Text
  pub row_count : ℕ
  pub is_rtl : Bool
  pub page_size : ℕ

-- `if (id) newColumnId = id`
abbrev pub truthy_or : Option Text → Text → Text
truthy_or none column = column
truthy_or (some []) column = column
truthy_or (some (c ∷ s)) column = c ∷ s

-- `id ?? columnId`
abbrev pub some_or : Option Text → Text → Text
some_or none column = column
some_or (some id) column = id

module _ (g : Layout) where
  abbrev pub last_row : ℤ
  last_row = pos g.row_count -ℤ pos 1

  abbrev pub last_column : ℤ
  last_column = pos (length g.columns) -ℤ pos 1

  unfoldable pub previous_column : Text → Text
  previous_column column =
      let i = index_of column g.columns in
      if ltb_ℤ (pos 0) i then truthy_or (get_at g.columns (i -ℤ pos 1)) column else column

  unfoldable pub next_column : Text → Text
  next_column column =
      let i = index_of column g.columns in
      if ltb_ℤ i last_column then truthy_or (get_at g.columns (i +ℤ pos 1)) column else column

  unfoldable pub first_column : Text → Text
  first_column column = some_or (get_at g.columns (pos 0)) column

  unfoldable pub final_column : Text → Text
  final_column column = some_or (get_at g.columns last_column) column

  unfoldable pub page_left : Text → Text
  unfolding ◌+ℤ◌ ◌-ℤ◌ min_ℤ max_ℤ
  page_left column =
      let i = index_of column g.columns in
      let target = max_ℤ (pos 0) (i -ℤ horizontal_page_size) in
      if ltb_ℤ (pos 0) i then truthy_or (get_at g.columns target) column else column

  unfoldable pub page_right : Text → Text
  unfolding ◌+ℤ◌ ◌-ℤ◌ min_ℤ max_ℤ
  page_right column =
      let i = index_of column g.columns in
      let target = min_ℤ last_column (i +ℤ horizontal_page_size) in
      if ltb_ℤ i last_column then truthy_or (get_at g.columns target) column else column

  -- `newRowIndex` of the switch.
  unfoldable pub navigate_row : NavigationDirection → ℤ → ℤ
  unfolding ◌+ℤ◌ ◌-ℤ◌ min_ℤ max_ℤ
  navigate_row up row = max_ℤ (pos 0) (row -ℤ pos 1)
  navigate_row down row = min_ℤ last_row (row +ℤ pos 1)
  navigate_row ctrl_home row = pos 0
  navigate_row ctrl_end row = max_ℤ (pos 0) last_row
  navigate_row ctrl_up row = pos 0
  navigate_row ctrl_down row = max_ℤ (pos 0) last_row
  navigate_row pageup row = max_ℤ (pos 0) (row -ℤ pos g.page_size)
  navigate_row pagedown row = min_ℤ last_row (row +ℤ pos g.page_size)
  navigate_row _ row = row

  -- `newColumnId` of the switch.
  unfoldable pub navigate_column : NavigationDirection → Text → Text
  unfolding previous_column next_column first_column final_column page_left page_right
  navigate_column left column = if g.is_rtl then next_column column else previous_column column
  navigate_column right column = if g.is_rtl then previous_column column else next_column column
  navigate_column home column = first_column column
  navigate_column end column = final_column column
  navigate_column ctrl_home column = first_column column
  navigate_column ctrl_end column = final_column column
  navigate_column pageleft column = page_left column
  navigate_column pageright column = page_right column
  navigate_column _ column = column

  unfoldable pub navigate_position : NavigationDirection → CellPosition → CellPosition
  unfolding navigate_row navigate_column
  navigate_position direction p =
      position (navigate_row direction p.row_index) (navigate_column direction p.column_id)

-- `focusCell`: the two fields that it sets in one batch.
unfoldable pub focus_cell : CellPosition → DataGridState → DataGridState
focus_cell p s = record s { focused_cell = some p; editing_cell = none }

unfoldable pub blur_cell : DataGridState → DataGridState
blur_cell s = record s { focused_cell = none; editing_cell = none }

unfoldable pub same_cell : CellPosition → CellPosition → Bool
same_cell p q = p.row_index ==ℤ q.row_index && text_eq p.column_id q.column_id

-- A focused cell moves, and editing ends, only if the position changes.
abbrev move_focus : CellPosition → CellPosition → DataGridState → DataGridState
move_focus old new s = if same_cell new old then s else focus_cell new s

unfoldable pub navigate_cell : Layout → NavigationDirection → DataGridState → DataGridState
unfolding navigate_position focus_cell
navigate_cell g direction s = elim s.focused_cell [
  | none ↦ s
  | some p ↦ move_focus p (navigate_position g direction p) s
]
