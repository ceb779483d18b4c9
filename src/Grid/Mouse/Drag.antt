-- ===== src/Grid/Mouse/Drag.antt =====
-- Selecting cells with the mouse: a click with Ctrl, and a drag from one cell to another.
use mizumi.Prelude.{
  ◌≡◌, refl, sym, ap, ap₂, subst, ◌∙◌, ◌↔◌, Bool, true, false, not, ◌&&◌, ◌||◌, List, [], ◌∷◌,
  Option, none, some, ℤ, ==ℤ_iff, ◌==◌, arith, Bool-cases, if◌then◌else◌, inl, inr, ◌≢◌,
}
use mizumi.Text.{Text, text_eq}
use mizumi.Text.Laws.{text_eq_iff}
use mizumi.Text.Sets.{has, has-add, has-delete}
use mizumi.Grid.Key.{CellPosition, position, cell_key}
use mizumi.Grid.Key.Laws.{text_eq-cell_key}
use mizumi.Grid.State.{DataGridState}
use mizumi.Grid.Select.{range, get_is_cell_selected, select_range}
use mizumi.Grid.Select.Membership.{IsInRectangle, get_is_cell_selected-select_range}
use mizumi.Grid.Navigate.{focus_cell, same_cell}
use mizumi.Grid.Mouse.{
  MouseEvent, is_cell, toggle_key, toggle_cell, on_cell_click, focus_start, extend_range,
  on_cell_mouse_enter, on_cell_mouse_down, on_cell_mouse_up,
}

has-toggle_key :
    (keys : List Text) (key k : Text)
    → has (toggle_key key keys) k ≡ (if text_eq key k then not (has keys k) else has keys k)
unfolding toggle_key
has-toggle_key keys key k =
    ground (arith, has-add keys key k, has-delete keys key k, text_eq_iff key k, at_key)
  where
    at_key : key ≡ k → has keys key ≡ has keys k
    at_key e = ap (has keys) e

-- A click with the first button and Ctrl or Meta on a cell selects it or takes it out of the
-- selection, and leaves every other cell as it was.
pub get_is_cell_selected-on_cell_click :
    (column_ids : List Text) (read_only : Bool) (p : CellPosition) (event : MouseEvent)
    (s : DataGridState) (row : ℤ) (column : Text)
    → (event.button == 2) ≡ false
    → (event.ctrl_key || event.meta_key) ≡ true
    → get_is_cell_selected (on_cell_click column_ids read_only p (some event) s) row column ≡ (
        if same_cell p (position row column)
        then not (get_is_cell_selected s row column)
        else get_is_cell_selected s row column)
unfolding get_is_cell_selected on_cell_click toggle_cell focus_cell same_cell
get_is_cell_selected-on_cell_click column_ids read_only p event s row column b c =
    rw (b, c)
      (has-toggle_key s.selection_state.selected_cells (cell_key p.row_index p.column_id)
          (cell_key row column)
        ∙ ap
            (λ t.
              if t
              then not (get_is_cell_selected s row column)
              else get_is_cell_selected s row column)
            (text_eq-cell_key p.row_index row p.column_id column))

same_cell_eq : (p q : CellPosition) → same_cell p q ≡ true → p ≡ q
unfolding same_cell
same_cell_eq p q e =
    ap₂ position ((==ℤ_iff p.row_index q.row_index).0 (ground arith))
      ((text_eq_iff p.column_id q.column_id).0 (ground arith))

is_cell_eq : (o : Option CellPosition) (p : CellPosition) → is_cell o p ≡ true → o ≡ some p
is_cell_eq none p e = cc
is_cell_eq (some q) p e = ap some (same_cell_eq q p e)

-- The cells that a drag passes, in order.
module _ (column_ids : List Text) where
  abbrev pub enter_all : List CellPosition → DataGridState → DataGridState
  enter_all [] s = s
  enter_all (p ∷ path) s = enter_all path (on_cell_mouse_enter column_ids p s)

  -- A drag from `start` is going on.
  record IsDragging (start : CellPosition) (s : DataGridState) : Type 0 where
    selecting : s.selection_state.is_selecting ≡ true
    last : CellPosition
    from_start : s.selection_state.selection_range ≡ some (range start last)

  on_cell_mouse_enter-IsDragging :
      (start p : CellPosition) (s : DataGridState)
      → IsDragging start s
      → on_cell_mouse_enter column_ids p s
        ≡ select_range column_ids start p true (focus_start column_ids start s)
  unfolding on_cell_mouse_enter
  on_cell_mouse_enter-IsDragging start p s d =
      ap (λ b. if b then extend_range column_ids p s.selection_state.selection_range s else s)
        d.selecting
      ∙ ap (λ r. extend_range column_ids p r s) d.from_start

  on_cell_mouse_down-IsDragging :
      (single : Bool) (event : MouseEvent) (start : CellPosition) (s : DataGridState)
      → (event.button == 2) ≡ false
      → (not event.ctrl_key && (not event.meta_key && not event.shift_key)) ≡ true
      → IsDragging start (on_cell_mouse_down single start event s)
  unfolding on_cell_mouse_down
  on_cell_mouse_down-IsDragging single event start s b m =
      rw (b, m) (record { selecting = refl; last = start; from_start = refl })

  enter_all-IsDragging :
      (start : CellPosition) (path : List CellPosition) (s : DataGridState)
      → IsDragging start s
      → IsDragging start (enter_all path s)
  enter_all-IsDragging start [] s d = d
  enter_all-IsDragging start (p ∷ path) s d =
      enter_all-IsDragging start path (on_cell_mouse_enter column_ids p s) (
        subst (IsDragging start) (sym (on_cell_mouse_enter-IsDragging start p s d))
          (unfold select_range in record { selecting = refl; last = p; from_start = refl }))

  focus_start-focused :
      (start : CellPosition) (s : DataGridState)
      → (focus_start column_ids start s).focused_cell ≡ some start
  unfolding focus_start focus_cell
  focus_start-focused start s = elim (Bool-cases (is_cell s.focused_cell start)) [
    | inl e ↦ rw e (is_cell_eq s.focused_cell start e)
    | inr e ↦ rw e refl
  ]

  -- A drag with the first button and no modifier key, from a cell over any others to the last one:
  -- the selected cells are those of the rectangle between the first cell and the last, whatever was
  -- selected before and wherever the mouse was in between; the first cell has the focus, and the
  -- selecting is over.
  pub drag :
      (single : Bool) (event : MouseEvent) (start end : CellPosition) (path : List CellPosition)
      (s : DataGridState) (row : ℤ) (column : Text)
      → (event.button == 2) ≡ false
      → (not event.ctrl_key && (not event.meta_key && not event.shift_key)) ≡ true
      → column ≢ []
      → let t = on_cell_mouse_up (
          on_cell_mouse_enter column_ids end
            (enter_all path (on_cell_mouse_down single start event s))) in
        ((get_is_cell_selected t row column ≡ true) ↔ IsInRectangle column_ids start end row column)
        × (t.focused_cell ≡ some start)
        × (t.selection_state.is_selecting ≡ false)
  unfolding on_cell_mouse_up get_is_cell_selected select_range
  drag single event start end path s row column b m ne =
      let before = enter_all path (on_cell_mouse_down single start event s) in
      let d =
        enter_all-IsDragging start path _
          (on_cell_mouse_down-IsDragging single event start s b m) in
      let e = on_cell_mouse_enter-IsDragging start end before d in
      (
        subst
            (λ u.
              (get_is_cell_selected (on_cell_mouse_up u) row column ≡ true)
              ↔ IsInRectangle column_ids start end row column)
            (sym e)
            (get_is_cell_selected-select_range column_ids start end true
              (focus_start column_ids start before) row column ne),
        ap (λ u. u.focused_cell) e ∙ focus_start-focused start before,
        refl,
      )
