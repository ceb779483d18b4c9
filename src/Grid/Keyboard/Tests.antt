-- ===== src/Grid/Keyboard/Tests.antt =====
-- Keys in a small grid.
use mizumi.Prelude.{
  ◌≡◌, refl, inl, Bool, true, false, List, [], ◌∷◌, none, some, pos, All, arith, if◌then◌else◌,
}
use mizumi.Text.{Text, codes, text_eq}
use mizumi.Text.Sets.{has}
use mizumi.Grid.State.{DataGridState, initial_state, no_selection}
use mizumi.Grid.Select.{get_is_cell_selected}
use mizumi.Grid.Update.{CellUpdate, on_data_update}
use mizumi.Grid.Update.Lookup.{new_cell}
use mizumi.Grid.Values.{CellValue, text}
use mizumi.Grid.Keyboard.{
  Key, KeyEvent, arrow_right, arrow_down, delete_key, escape, character, layout_of, update_data,
}
use mizumi.Grid.Keyboard.Handler.{on_data_grid_key_down}
use mizumi.Grid.Keyboard.Guards.{
  IsHarmless, on_data_grid_key_down-IsHarmless, key_downs, requests, key_downs-editing,
}
use mizumi.Grid.Keyboard.Sound.{IsSound}
use mizumi.Grid.Keyboard.Session.{key_downs-IsSound}
use mizumi.Grid.Sample.{
  a, b, grid, origin, focused, row, data_rows, shown, shown_at, cell_b, cell_b-HasKey,
}
use mizumi.Grid.Keyboard.Clear.{key_at, empty_of, new_cell-key_down}

abbrev editing : DataGridState
editing = record focused { editing_cell = some origin }

abbrev key : Key → Bool → Bool → KeyEvent
key k ctrl shift = record {
  key = k;
  ctrl_key = ctrl;
  meta_key = false;
  shift_key = shift;
  alt_key = false;
}

on_data_grid_key_down-IsHarmless_example :
    let o =
      on_data_grid_key_down
        (record grid { read_only = true })
        (key delete_key false false)
        focused in
    IsHarmless o.request
on_data_grid_key_down-IsHarmless_example =
    on_data_grid_key_down-IsHarmless (record grid { read_only = true }) (key delete_key false false)
      refl focused

key_downs-editing_example :
    ((o : Bool) × (key_downs grid
          (key escape false false ∷ key (character b'f') true false ∷ [])
          editing
        ≡ record editing { search_open = o }))
    × All
        (λ r. r ≡ none)
        (requests grid (key escape false false ∷ key (character b'f') true false ∷ []) editing)
key_downs-editing_example =
    key_downs-editing grid (key escape false false ∷ key (character b'f') true false ∷ []) editing
      origin refl

navigable-column : (id : Text) → has (a ∷ b ∷ []) id ≡ true → has grid.all_ids id ≡ true
unfolding has
navigable-column id h = ground (arith, h)

focused-IsSound : IsSound grid focused
unfolding has text_eq layout_of initial_state
focused-IsSound = record {
  focus = record { row = omega arith; column = refl };
  ends = tt;
  matches = tt;
  active = inl refl;
}

key_downs-IsSound_example : IsSound grid (
    key_downs grid
      (key (character b'a') true false
        ∷ key arrow_down true true
        ∷ key arrow_right false false
        ∷ [])
      focused)
key_downs-IsSound_example =
    key_downs-IsSound grid
      (key (character b'a') true false
        ∷ key arrow_down true true
        ∷ key arrow_right false false
        ∷ [])
      focused navigable-column focused-IsSound

abbrev selected : DataGridState
selected = record focused {
  selection_state = record no_selection { selected_cells = key_at cell_b ∷ [] };
}

new_cell-key_down_example :
    let o = on_data_grid_key_down grid (key delete_key false false) selected in
    (us : List (CellUpdate CellValue)) × (o.request ≡ some (update_data us))
    × (o.state.selection_state ≡ no_selection)
    × (new_cell (on_data_update false shown data_rows us) 0 b
        ≡ some
            (if get_is_cell_selected selected (pos 1) b then empty_of grid b else text (codes "x")))
unfolding initial_state
new_cell-key_down_example =
    new_cell-key_down grid (key delete_key false false) origin selected cell_b [] shown data_rows 0
      (pos 1) (row 7) b (record { no_search = refl; no_editing = refl; focus = refl }) refl refl
      refl refl (cell_b-HasKey, tt) refl shown_at
