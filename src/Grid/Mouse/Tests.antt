-- ===== src/Grid/Mouse/Tests.antt =====
-- The mouse in a small grid.
use mizumi.Prelude.{◌≡◌, refl, ◌↔◌, true, false, not, List, [], ◌∷◌, some, pos, if◌then◌else◌}
use mizumi.Text.{Text, codes}
use mizumi.Grid.Key.{CellPosition, position}
use mizumi.Grid.State.{DataGridState, initial_state}
use mizumi.Grid.Navigate.{same_cell}
use mizumi.Grid.Select.{get_is_cell_selected}
use mizumi.Grid.Select.Membership.{IsInRectangle}
use mizumi.Grid.Mouse.{
  MouseEvent, on_cell_click, on_cell_mouse_enter, on_cell_mouse_down, on_cell_mouse_up,
}
use mizumi.Grid.Mouse.Drag.{enter_all, get_is_cell_selected-on_cell_click, drag}

abbrev ids : List Text
ids = codes "a" ∷ codes "b" ∷ codes "c" ∷ []

abbrev start : CellPosition
start = position (pos 2) (codes "c")

abbrev end : CellPosition
end = position (pos 1) (codes "b")

abbrev with_ctrl : MouseEvent
with_ctrl = record {
  button = 0;
  ctrl_key = true;
  meta_key = false;
  shift_key = false;
  client_x = pos 0;
  client_y = pos 0;
}

abbrev plain : MouseEvent
plain = record {
  button = 0;
  ctrl_key = false;
  meta_key = false;
  shift_key = false;
  client_x = pos 0;
  client_y = pos 0;
}

abbrev empty : DataGridState
empty = initial_state []

get_is_cell_selected-on_cell_click_example :
    get_is_cell_selected (on_cell_click ids false end (some with_ctrl) empty) (pos 1) (codes "b")
    ≡ (if same_cell end (position (pos 1) (codes "b"))
        then not (get_is_cell_selected empty (pos 1) (codes "b"))
        else get_is_cell_selected empty (pos 1) (codes "b"))
get_is_cell_selected-on_cell_click_example =
    get_is_cell_selected-on_cell_click ids false end with_ctrl empty (pos 1) (codes "b") refl refl

drag_example :
    let t = on_cell_mouse_up (
      on_cell_mouse_enter ids end (
        enter_all ids
          (start ∷ position (pos 9) (codes "a") ∷ [])
          (on_cell_mouse_down true start plain empty))) in
    ((get_is_cell_selected t (pos 1) (codes "c") ≡ true)
      ↔ IsInRectangle ids start end (pos 1) (codes "c"))
    × (t.focused_cell ≡ some start)
    × (t.selection_state.is_selecting ≡ false)
drag_example =
    drag ids true plain start end (start ∷ position (pos 9) (codes "a") ∷ []) empty (pos 1)
      (codes "c") refl refl (λ e. cc)
