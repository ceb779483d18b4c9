-- ===== src/Grid/Keyboard/Guards.antt =====
-- The guards of onDataGridKeyDown: a grid that is read-only, and a cell that is being edited.
use mizumi.Prelude.{
  ◌≡◌, refl, ◌⊎◌, inl, inr, Bool, true, false, not, ◌&&◌, ◌||◌, List, [], ◌∷◌, Option, none, some,
  All, arith, if_cases, sym, ap, subst, ◌∙◌, Bool-cases,
}
use mizumi.Grid.Key.{CellPosition}
use mizumi.Grid.State.{DataGridState}
use mizumi.Grid.Search.{on_search_open_change}
use mizumi.Grid.Keyboard.{
  KeyEvent, GridProps, Request, copy_cells, Outcome, answer, is_ctrl, is_deletion, is_enter,
  is_shortcut,
}
use mizumi.Grid.Keyboard.Handler.{focused_key, with_focus, is_editing, on_data_grid_key_down}

-- Nothing is asked for, or a copy.
abbrev pub IsHarmless : Option Request → Type 0
IsHarmless r = (r ≡ none) ⊎ (r ≡ some copy_cells)

abbrev Harmless : Outcome → Type 0
Harmless o = IsHarmless o.request

module _ (g : GridProps) (e : KeyEvent) (read_only : g.read_only ≡ true) where
  focused_key-Harmless : (p : CellPosition) (s : DataGridState) → Harmless (focused_key g e p s)
  unfolding focused_key
  focused_key-Harmless p s =
      if_cases Harmless (is_shortcut b'a' e) (λ _. inl refl)
        (λ _.
          if_cases Harmless (is_shortcut b'c' e) (λ _. inr refl)
            (λ _.
              if_cases Harmless (is_shortcut b'x' e && not g.read_only) (λ h. absurd (ground arith))
                (λ _.
                  if_cases Harmless (g.enable_paste && is_shortcut b'v' e && not g.read_only)
                    (λ h. absurd (ground arith))
                    (λ _.
                      if_cases Harmless (is_deletion e.key && not (is_ctrl e) && not g.read_only)
                        (λ h. absurd (ground arith))
                        (λ _.
                          if_cases Harmless
                            (is_enter e.key && e.shift_key && not g.read_only && g.can_add_rows)
                            (λ h. absurd (ground arith)) (λ _. inl refl))))))

  with_focus-Harmless :
      (o : Option CellPosition) (s : DataGridState) → Harmless (with_focus g e o s)
  with_focus-Harmless none s = inl refl
  with_focus-Harmless (some p) s = focused_key-Harmless p s

  -- Where the grid is read-only, no key asks for a deletion, a cut, a paste, an update of the data
  -- or a new row: whatever the state and the key, there is no request, or the one to copy.
  pub on_data_grid_key_down-IsHarmless :
      (s : DataGridState) → IsHarmless (on_data_grid_key_down g e s).request
  unfolding on_data_grid_key_down
  on_data_grid_key_down-IsHarmless s =
      if_cases Harmless (g.enable_search && is_shortcut b'f' e) (λ _. inl refl)
        (λ _.
          if_cases Harmless (g.enable_search && s.search_open && not (is_editing s.editing_cell))
            (λ _. inl refl)
            (λ _.
              if_cases Harmless (is_editing s.editing_cell) (λ _. inl refl)
                (λ _.
                  if_cases Harmless
                    (is_ctrl e && is_deletion e.key && not g.read_only && g.can_delete_rows)
                    (λ h. absurd (ground arith)) (λ _. with_focus-Harmless s.focused_cell s))))

-- The states and the requests of keys in turn.
module _ (g : GridProps) where
  abbrev pub key_downs : List KeyEvent → DataGridState → DataGridState
  key_downs [] s = s
  key_downs (e ∷ es) s = key_downs es (on_data_grid_key_down g e s).state

  abbrev pub requests : List KeyEvent → DataGridState → List (Option Request)
  requests [] s = []
  requests (e ∷ es) s = let o = on_data_grid_key_down g e s in o.request ∷ requests es o.state

  key_down-editing :
      (e : KeyEvent) (s : DataGridState) (p : CellPosition)
      → s.editing_cell ≡ some p
      → on_data_grid_key_down g e s
        ≡ answer
            (record s { search_open = (g.enable_search && is_shortcut b'f' e) || s.search_open })
  unfolding on_data_grid_key_down on_search_open_change
  key_down-editing e s p h =
      let no_search : (g.enable_search && s.search_open && not (is_editing s.editing_cell))
          ≡ false =
        ground (arith, h) in
      elim (Bool-cases (g.enable_search && is_shortcut b'f' e)) [
        | inl b ↦ rw b refl
        | inr b ↦ rw (b, no_search, h) refl
      ]

  -- While a cell is edited, keys change nothing but that the search may open, and ask for nothing.
  pub key_downs-editing :
      (es : List KeyEvent) (s : DataGridState) (p : CellPosition)
      → s.editing_cell ≡ some p
      → ((b : Bool) × (key_downs es s ≡ record s { search_open = b }))
        × All (λ r. r ≡ none) (requests es s)
  key_downs-editing [] s p h = ((s.search_open, refl), tt)
  key_downs-editing (e ∷ es) s p h =
      let b = (g.enable_search && is_shortcut b'f' e) || s.search_open in
      let t : DataGridState = record s { search_open = b } in
      let step = key_down-editing e s p h in
      let ((c, same), quiet) = key_downs-editing es t p h in
      (
        (c, ap (λ o. key_downs es o.state) step ∙ same),
        (
          ap (λ o. o.request) step,
          subst (λ o. All (λ r. r ≡ none) (requests es o.state)) (sym step) quiet,
        ),
      )
