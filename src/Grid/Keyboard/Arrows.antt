-- ===== src/Grid/Keyboard/Arrows.antt =====
-- The arrow keys of onDataGridKeyDown, with and without Shift.
use mizumi.Prelude.{
  ◌≡◌, refl, ap, ◌∙◌, Bool, true, false, not, ◌&&◌, List, [], ◌∷◌, none, some, arith, if◌then◌else◌,
}
use mizumi.Grid.Key.{CellPosition}
use mizumi.Grid.State.{DataGridState}
use mizumi.Grid.Navigate.{NavigationDirection, up, down, left, right, home, end}
use mizumi.Grid.Keyboard.{
  Key, arrow_up, arrow_down, arrow_left, arrow_right, home_key, end_key, KeyEvent, GridProps,
  answer, is_deletion, is_enter, is_tab,
}
use mizumi.Grid.Keyboard.Extend.{extend_selection}
use mizumi.Grid.Keyboard.Handler.{
  moves, switch_key, move_from_selection, follow, focused_key, is_editing, on_data_grid_key_down,
}

-- The keys that move by one cell or to an end of the row.
pub data Arrow : Type 0 where
  to_up to_down to_left to_right to_home to_end : Arrow

abbrev pub key_of : Arrow → Key
key_of to_up = arrow_up
key_of to_down = arrow_down
key_of to_left = arrow_left
key_of to_right = arrow_right
key_of to_home = home_key
key_of to_end = end_key

abbrev pub direction_of : Arrow → NavigationDirection
direction_of to_up = up
direction_of to_down = down
direction_of to_left = left
direction_of to_right = right
direction_of to_home = home
direction_of to_end = end

abbrev pub event_of : Bool → Arrow → KeyEvent
event_of shift a = record {
  key = key_of a;
  ctrl_key = false;
  meta_key = false;
  shift_key = shift;
  alt_key = false;
}

and_false : (b : Bool) → (b && false) ≡ false
and_false b = ground arith

and_true : (b : Bool) → (b && true) ≡ b
and_true b = ground arith

is_deletion-key_of : (a : Arrow) → is_deletion (key_of a) ≡ false
is_deletion-key_of a = ground arith

is_enter-key_of : (a : Arrow) → is_enter (key_of a) ≡ false
is_enter-key_of a = ground arith

is_tab-key_of : (a : Arrow) → is_tab (key_of a) ≡ false
is_tab-key_of a = ground arith

module _ (g : GridProps) where
  -- The keyboard is the grid's own, and the cell `p` has the focus.
  pub record IsReady (p : CellPosition) (s : DataGridState) : Type 0 where
    pub no_search : (g.enable_search && s.search_open) ≡ false
    pub no_editing : s.editing_cell ≡ none
    pub focus : s.focused_cell ≡ some p

  key_down-arrow :
      (shift : Bool) (a : Arrow) (p : CellPosition) (s : DataGridState)
      → IsReady p s
      → on_data_grid_key_down g (event_of shift a) s ≡ focused_key g (event_of shift a) p s
  unfolding on_data_grid_key_down
  key_down-arrow shift a p s h =
      let no_search : (g.enable_search && s.search_open && not (is_editing s.editing_cell))
          ≡ false =
        ground (arith, h.no_search) in
      rw (and_false g.enable_search, no_search, h.no_editing, h.focus) refl

  switch_key-arrow :
      (shift : Bool) (a : Arrow) (p : CellPosition) (s : DataGridState)
      → switch_key g (event_of shift a) p s (key_of a) ≡ moves (direction_of a)
  unfolding switch_key
  switch_key-arrow shift to_up p s = refl
  switch_key-arrow shift to_down p s = refl
  switch_key-arrow shift to_left p s = refl
  switch_key-arrow shift to_right p s = refl
  switch_key-arrow shift to_home p s = refl
  switch_key-arrow shift to_end p s = refl

  focused_key-arrow :
      (shift : Bool) (a : Arrow) (p : CellPosition) (s : DataGridState)
      → focused_key g (event_of shift a) p s
        ≡ answer (
            if shift
            then extend_selection g (direction_of a) p s
            else move_from_selection g (direction_of a) s)
  unfolding focused_key follow
  focused_key-arrow shift a p s =
      rw
        (
          and_false g.enable_paste,
          is_deletion-key_of a,
          is_enter-key_of a,
          switch_key-arrow shift a p s,
          is_tab-key_of a,
          and_true shift,
        )
        refl

  -- The keys in turn.
  abbrev pub press : Bool → List Arrow → DataGridState → DataGridState
  press shift [] s = s
  press shift (a ∷ rest) s = press shift rest (on_data_grid_key_down g (event_of shift a) s).state

  pub key_down-shift :
      (a : Arrow) (p : CellPosition) (s : DataGridState)
      → IsReady p s
      → (on_data_grid_key_down g (event_of true a) s).state
        ≡ extend_selection g (direction_of a) p s
  key_down-shift a p s h =
      ap (λ o. o.state) (key_down-arrow true a p s h ∙ focused_key-arrow true a p s)

  pub key_down-plain :
      (a : Arrow) (p : CellPosition) (s : DataGridState)
      → IsReady p s
      → (on_data_grid_key_down g (event_of false a) s).state
        ≡ move_from_selection g (direction_of a) s
  key_down-plain a p s h =
      ap (λ o. o.state) (key_down-arrow false a p s h ∙ focused_key-arrow false a p s)
