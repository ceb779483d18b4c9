-- ===== src/Grid/Keyboard/Session.antt =====
-- Any keys, in any order, keep the positions in the state inside the table.
use mizumi.Prelude.{
  AllSome, ◌≡◌, Bool, true, false, not, ◌&&◌, ◌||◌, List, [], ◌∷◌, Option, none, some, ℤ, pos, ◌-ℤ◌,
  max_ℤ, length, arith, if_cases, if◌then◌else◌,
}
use mizumi.Text.{Text}
use mizumi.Text.Sets.{has}
use mizumi.Grid.Key.{CellPosition}
use mizumi.Grid.Columns.{get_at}
use mizumi.Grid.State.{DataGridState}
use mizumi.Grid.Select.{on_selection_clear}
use mizumi.Grid.Navigate.{NavigationDirection, up, down, left, right, home, end, ctrl_up, ctrl_down}
use mizumi.Grid.Navigate.Bounds.{IsRow}
use mizumi.Grid.Keyboard.{
  Key, arrow_up, arrow_down, arrow_left, arrow_right, home_key, end_key, page_up, page_down, escape,
  tab_key, enter, KeyEvent, GridProps, layout_of, row_count_of, Outcome, is_ctrl, is_tab,
  is_deletion, is_enter, is_shortcut,
}
use mizumi.Grid.Keyboard.Handler.{
  arrow, is_nil, is_editing, search_key, ask_to_delete, indices_to_delete, Switched, no_direction,
  moves, returned, switch_key, move_from_selection, follow, clear_cells, focused_key, with_focus,
  on_data_grid_key_down,
}
use mizumi.Grid.Keyboard.Guards.{key_downs}
use mizumi.Grid.Keyboard.Indices.{row_count_of-shown}
use mizumi.Grid.Keyboard.Sound.Edges.{
  IsId, get_at-IsId, extend_selection-IsSound, select_to_row-IsSound, select_to_column-IsSound,
}
use mizumi.Grid.Keyboard.Sound.{
  IsCell, IsSound, on_selection_clear-IsSound, blur_cell-IsSound, on_navigate_to_prev_match-IsSound,
  on_navigate_to_next_match-IsSound, on_search_open_change-IsSound, select_all-IsSound,
  navigate_cell-IsSound,
}

module _ (g : GridProps) where
  abbrev IsSoundOutcome : Outcome → Type 0
  IsSoundOutcome o = IsSound g o.state

  search_key-IsSound :
      (shift : Bool) (k : Key) (s : DataGridState) → IsSound g s → IsSound g (search_key shift k s)
  unfolding search_key
  search_key-IsSound shift enter s h =
      if_cases (IsSound g) shift (λ _. on_navigate_to_prev_match-IsSound g s h)
        (λ _. on_navigate_to_next_match-IsSound g s h)
  search_key-IsSound shift escape s h = on_search_open_change-IsSound g false s h
  search_key-IsSound shift _ s h = h

  abbrev IsSoundSwitch : Switched → Type 0
  IsSoundSwitch no_direction = Unit
  IsSoundSwitch (moves d) = Unit
  IsSoundSwitch (returned t) = IsSound g t

  arrow-IsSoundSwitch :
      (e : KeyEvent) (t : DataGridState) (d d' : NavigationDirection)
      → IsSound g t
      → IsSoundSwitch (arrow e t d d')
  arrow-IsSoundSwitch e t d d' h =
      if_cases IsSoundSwitch (is_ctrl e)
        (λ _. if_cases IsSoundSwitch e.shift_key (λ _. h) (λ _. tt)) (λ _. tt)

  last_row-IsRow :
      (p : CellPosition)
      → IsCell g p
      → IsRow (layout_of g) (pos 0)
        × IsRow (layout_of g) (max_ℤ (pos 0) (pos (row_count_of g) -ℤ pos 1))
  unfolding max_ℤ ◌-ℤ◌ layout_of
  last_row-IsRow p c =
      let same = row_count_of-shown g (ground (arith, c.row)) in ground (arith, c.row, same)

  module _ (navigable : (id : Text) → has g.navigable_ids id ≡ true → IsId g id)
      (e : KeyEvent) where
    abbrev final : ℤ
    final = pos (length g.navigable_ids) -ℤ pos 1

    first_or_last-IsId :
        (b : Bool) (i j : ℤ)
        → AllSome (IsId g) (if b then get_at g.navigable_ids i else get_at g.navigable_ids j)
    first_or_last-IsId b i j =
        if_cases (AllSome (IsId g)) b (λ _. get_at-IsId g navigable i)
          (λ _. get_at-IsId g navigable j)

    switch_key-IsSoundSwitch :
        (p : CellPosition) (s : DataGridState) (k : Key)
        → IsCell g p
        → IsSound g s
        → IsSoundSwitch (switch_key g e p s k)
    unfolding switch_key
    switch_key-IsSoundSwitch p s arrow_up c h =
        if_cases IsSoundSwitch (e.alt_key && not (is_ctrl e) && not e.shift_key) (λ _. tt)
          (λ _.
            arrow-IsSoundSwitch e _ ctrl_up up
              (select_to_row-IsSound g navigable p c s h (pos 0) (last_row-IsRow p c).0))
    switch_key-IsSoundSwitch p s arrow_down c h =
        if_cases IsSoundSwitch (e.alt_key && not (is_ctrl e) && not e.shift_key) (λ _. tt)
          (λ _.
            arrow-IsSoundSwitch e _ ctrl_down down
              (select_to_row-IsSound g navigable p c s h _ (last_row-IsRow p c).1))
    switch_key-IsSoundSwitch p s arrow_left c h =
        arrow-IsSoundSwitch e _ home left (
          select_to_column-IsSound g navigable p c s h _
            (first_or_last-IsId g.is_rtl final (pos 0)))
    switch_key-IsSoundSwitch p s arrow_right c h =
        arrow-IsSoundSwitch e _ end right (
          select_to_column-IsSound g navigable p c s h _
            (first_or_last-IsId g.is_rtl (pos 0) final))
    switch_key-IsSoundSwitch p s escape c h =
        if_cases (IsSound g)
          (not (is_nil s.selection_state.selected_cells) || not (is_nil s.row_selection))
          (λ _. on_selection_clear-IsSound g s h) (λ _. blur_cell-IsSound g s h)
    switch_key-IsSoundSwitch p s home_key c h = tt
    switch_key-IsSoundSwitch p s end_key c h = tt
    switch_key-IsSoundSwitch p s page_up c h = tt
    switch_key-IsSoundSwitch p s page_down c h = tt
    switch_key-IsSoundSwitch p s tab_key c h = tt
    switch_key-IsSoundSwitch p s _ c h = tt

    cleared-IsSound :
        (b : Bool) (s : DataGridState)
        → IsSound g s
        → IsSound g (if b then on_selection_clear s else s)
    cleared-IsSound b s h = if_cases (IsSound g) b (λ _. on_selection_clear-IsSound g s h) (λ _. h)

    follow-IsSound :
        (p : CellPosition) (s : DataGridState) (w : Switched)
        → IsCell g p
        → IsSound g s
        → IsSoundSwitch w
        → IsSound g (follow g e p s w)
    unfolding follow move_from_selection
    follow-IsSound p s no_direction c h k = h
    follow-IsSound p s (returned t) c h k = k
    follow-IsSound p s (moves d) c h k =
        if_cases (IsSound g) (e.shift_key && not (is_tab e.key))
          (λ _. extend_selection-IsSound g navigable p c s h d)
          (λ _.
            navigate_cell-IsSound g navigable d _
              (cleared-IsSound (not (is_nil s.selection_state.selected_cells)) s h))

    clear_cells-IsSound :
        (p : CellPosition) (s : DataGridState) → IsSound g s → IsSoundOutcome (clear_cells g p s)
    unfolding clear_cells
    clear_cells-IsSound p s h =
        let t = cleared-IsSound (not (is_nil s.selection_state.selected_cells)) s h in
        record { focus = t.focus; ends = t.ends; matches = t.matches; active = t.active }

    focused_key-IsSound :
        (p : CellPosition) (s : DataGridState)
        → IsCell g p
        → IsSound g s
        → IsSoundOutcome (focused_key g e p s)
    unfolding focused_key
    focused_key-IsSound p s c h =
        let P = IsSoundOutcome in
        if_cases P (is_shortcut b'a' e) (λ _. select_all-IsSound g s h)
          (λ _.
            if_cases P (is_shortcut b'c' e) (λ _. h)
              (λ _.
                if_cases P (is_shortcut b'x' e && not g.read_only) (λ _. h)
                  (λ _.
                    if_cases P (g.enable_paste && is_shortcut b'v' e && not g.read_only) (λ _. h)
                      (λ _.
                        if_cases P (is_deletion e.key && not (is_ctrl e) && not g.read_only)
                          (λ _. clear_cells-IsSound p s h)
                          (λ _.
                            if_cases P
                              (is_enter e.key && e.shift_key && not g.read_only && g.can_add_rows)
                              (λ _. h)
                              (λ _.
                                follow-IsSound p s _ c h
                                  (switch_key-IsSoundSwitch p s e.key c h)))))))

    with_focus-IsSound :
        (o : Option CellPosition) (s : DataGridState)
        → AllSome (IsCell g) o
        → IsSound g s
        → IsSoundOutcome (with_focus g e o s)
    with_focus-IsSound none s c h = h
    with_focus-IsSound (some p) s c h = focused_key-IsSound p s c h

    ask_to_delete-IsSound :
        (js : List ℤ) (s : DataGridState) → IsSound g s → IsSoundOutcome (ask_to_delete js s)
    ask_to_delete-IsSound [] s h = h
    ask_to_delete-IsSound (j ∷ js) s h = h

    on_data_grid_key_down-IsSound :
        (s : DataGridState) → IsSound g s → IsSound g (on_data_grid_key_down g e s).state
    unfolding on_data_grid_key_down
    on_data_grid_key_down-IsSound s h =
        let P = IsSoundOutcome in
        if_cases P (g.enable_search && is_shortcut b'f' e)
          (λ _. on_search_open_change-IsSound g true s h)
          (λ _.
            if_cases P (g.enable_search && s.search_open && not (is_editing s.editing_cell))
              (λ _. search_key-IsSound e.shift_key e.key s h)
              (λ _.
                if_cases P (is_editing s.editing_cell) (λ _. h)
                  (λ _.
                    if_cases P
                      (is_ctrl e && is_deletion e.key && not g.read_only && g.can_delete_rows)
                      (λ _. ask_to_delete-IsSound (indices_to_delete g.shown s) s h)
                      (λ _. with_focus-IsSound s.focused_cell s h.focus h))))

  -- Where the columns that can be navigated to are among the grid's columns, any keys in any order
  -- keep these facts: the focused cell, both ends of the selected range and every match of the
  -- search are cells of the table, and the index of the active match is -1 or has a match.
  pub key_downs-IsSound :
      (es : List KeyEvent) (s : DataGridState)
      → ((id : Text) → has g.navigable_ids id ≡ true → has g.all_ids id ≡ true)
      → IsSound g s
      → IsSound g (key_downs g es s)
  key_downs-IsSound [] s navigable h = h
  key_downs-IsSound (e ∷ es) s navigable h =
      key_downs-IsSound es _ navigable (on_data_grid_key_down-IsSound navigable e s h)
