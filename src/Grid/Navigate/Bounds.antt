-- ===== src/Grid/Navigate/Bounds.antt =====
-- Keyboard navigation stays in the grid.
use mizumi.Prelude.{
  ◌≡◌, refl, sym, ap, ◌∙◌, eq_of_parts, inl, inr, Bool, true, false, List, [], ◌∷◌, Option, none,
  some, ℤ, pos, negsuc, ◌≤ℤ◌, ◌<ℤ◌, arith, if◌then◌else◌, Bool-cases,
}
use mizumi.Text.{Text}
use mizumi.Text.Laws.{text_eq_iff}
use mizumi.Text.Sets.{has}
use mizumi.Grid.Key.{CellPosition}
use mizumi.Grid.Columns.{get_at}
use mizumi.Grid.Columns.Laws.{has_of_get_elem?}
use mizumi.Grid.State.{DataGridState}
use mizumi.Grid.Navigate.{
  NavigationDirection, up, down, left, right, home, end, ctrl_home, ctrl_end, pageup, pagedown,
  pageleft, pageright, Layout, truthy_or, some_or, previous_column, next_column, first_column,
  final_column, page_left, page_right, navigate_row, navigate_column, navigate_position,
  navigate_cell, focus_cell, same_cell, move_focus,
}

pub has_of_get_at : (xs : List Text) (i : ℤ) (id : Text) → get_at xs i ≡ some id → has xs id ≡ true
has_of_get_at xs (pos n) id h = has_of_get_elem? xs n id h
has_of_get_at xs (negsuc n) id h = cc

module _ {κ} (P : Text → Type κ) where
  truthy_or-holds :
      (o : Option Text) (column : Text)
      → ((id : Text) → o ≡ some id → P id)
      → P column
      → P (truthy_or o column)
  truthy_or-holds none column f h = h
  truthy_or-holds (some []) column f h = h
  truthy_or-holds (some (c ∷ s)) column f h = f (c ∷ s) refl

  some_or-holds :
      (o : Option Text) (column : Text)
      → ((id : Text) → o ≡ some id → P id)
      → P column
      → P (some_or o column)
  some_or-holds none column f h = h
  some_or-holds (some id) column f h = f id refl

pub eq_of_same_cell : (p q : CellPosition) → same_cell p q ≡ true → p ≡ q
unfolding same_cell
eq_of_same_cell p q h =
    let rows : p.row_index ≡ q.row_index = eq_of_parts _ _ (ground arith) in
    let columns : p.column_id ≡ q.column_id = (text_eq_iff _ _).0 (ground arith) in
    λ i. record { row_index = rows i; column_id = columns i }

focused_cell-move_focus :
    (p q : CellPosition) (s : DataGridState)
    → s.focused_cell ≡ some p
    → (move_focus p q s).focused_cell ≡ some q
unfolding focus_cell
focused_cell-move_focus p q s e = elim (Bool-cases (same_cell q p)) [
  | inl same ↦ rw same (e ∙ ap some (sym (eq_of_same_cell q p same)))
  | inr other ↦ rw other
]

pub focused_cell-navigate_cell :
    (g : Layout) (d : NavigationDirection) (s : DataGridState) (p : CellPosition)
    → s.focused_cell ≡ some p
    → (navigate_cell g d s).focused_cell ≡ some (navigate_position g d p)
unfolding navigate_cell
focused_cell-navigate_cell g d s p e =
    rw (e, navigate_cell) (focused_cell-move_focus p (navigate_position g d p) s e)

module _ (g : Layout) where
  open g use {columns}

  -- What holds of every column that can be navigated to.
  module _ {κ} (P : Text → Type κ) (each : (id : Text) → has columns id ≡ true → P id) where
    guarded :
        (b : Bool) (i : ℤ) (column : Text)
        → P column
        → P (if b then truthy_or (get_at columns i) column else column)
    guarded true i column h =
        truthy_or-holds P (get_at columns i) column (λ id e. each id (has_of_get_at columns i id e))
          h
    guarded false i column h = h

    pub nullish : (i : ℤ) (column : Text) → P column → P (some_or (get_at columns i) column)
    nullish i column =
        some_or-holds P (get_at columns i) column (λ id e. each id (has_of_get_at columns i id e))

    pub previous_column-holds : (column : Text) → P column → P (previous_column g column)
    unfolding previous_column
    previous_column-holds column h = guarded _ _ column h

    pub next_column-holds : (column : Text) → P column → P (next_column g column)
    unfolding next_column
    next_column-holds column h = guarded _ _ column h

    page_left-holds : (column : Text) → P column → P (page_left g column)
    unfolding page_left
    page_left-holds column h = guarded _ _ column h

    page_right-holds : (column : Text) → P column → P (page_right g column)
    unfolding page_right
    page_right-holds column h = guarded _ _ column h

    first_column-holds : (column : Text) → P column → P (first_column g column)
    unfolding first_column
    first_column-holds column h = nullish (pos 0) column h

    final_column-holds : (column : Text) → P column → P (final_column g column)
    unfolding final_column
    final_column-holds column h = nullish _ column h

    pub navigate_column-holds :
        (d : NavigationDirection) (column : Text) → P column → P (navigate_column g d column)
    unfolding navigate_column
    navigate_column-holds left column h = elim (Bool-cases g.is_rtl) [
      | inl e ↦ rw e (next_column-holds column h)
      | inr e ↦ rw e (previous_column-holds column h)
    ]
    navigate_column-holds right column h = elim (Bool-cases g.is_rtl) [
      | inl e ↦ rw e (previous_column-holds column h)
      | inr e ↦ rw e (next_column-holds column h)
    ]
    navigate_column-holds home column h = first_column-holds column h
    navigate_column-holds end column h = final_column-holds column h
    navigate_column-holds ctrl_home column h = first_column-holds column h
    navigate_column-holds ctrl_end column h = final_column-holds column h
    navigate_column-holds pageleft column h = page_left-holds column h
    navigate_column-holds pageright column h = page_right-holds column h
    navigate_column-holds _ column h = h

  abbrev pub IsRow : ℤ → Type 0
  IsRow row = (pos 0 ≤ℤ row) × (row <ℤ pos g.row_count)

  pub navigate_row-IsRow :
      (d : NavigationDirection) (row : ℤ) → IsRow row → IsRow (navigate_row g d row)
  unfolding navigate_row
  navigate_row-IsRow up row h = ground arith
  navigate_row-IsRow down row h = ground arith
  navigate_row-IsRow pageup row h = ground arith
  navigate_row-IsRow pagedown row h = ground arith
  navigate_row-IsRow _ row h = ground arith

  -- A cell of the grid: a row that the table shows, and a column that can be navigated to.
  pub record IsInGrid (p : CellPosition) : Type 0 where
    pub row : IsRow p.row_index
    pub column : has columns p.column_id ≡ true

  -- From a cell of the grid, every navigation leads to a cell of the grid.
  pub navigate_position-IsInGrid :
      (d : NavigationDirection) (p : CellPosition) → IsInGrid p → IsInGrid (navigate_position g d p)
  unfolding navigate_position
  navigate_position-IsInGrid d p h = record {
    row = navigate_row-IsRow d p.row_index h.row;
    column = navigate_column-holds (λ c. has columns c ≡ true) (λ id e. e) d p.column_id h.column;
  }

  -- Where the focused cell is one of the grid's, navigateCell leaves the focus on the cell that the
  -- navigation leads to, where that is the cell itself too, and it is a cell of the grid.
  pub navigate_cell-IsInGrid :
      (d : NavigationDirection) (s : DataGridState) (p : CellPosition)
      → s.focused_cell ≡ some p
      → IsInGrid p
      → ((navigate_cell g d s).focused_cell ≡ some (navigate_position g d p))
        × IsInGrid (navigate_position g d p)
  navigate_cell-IsInGrid d s p e h =
      (focused_cell-navigate_cell g d s p e, navigate_position-IsInGrid d p h)
