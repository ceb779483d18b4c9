-- ===== src/Grid/Keyboard/Clear.antt =====
-- Delete and Backspace: what they make of the data, through onDataUpdate.
use mizumi.Prelude.{
  ℕ, ◌≡◌, refl, sym, ap, ◌∙◌, ◌≢◌, inl, inr, Bool, true, false, not, ◌&&◌, ◌||◌, List, [], ◌∷◌, map,
  Option, some, ℤ, pos, ◌==ℤ◌, All, get_elem?, arith, Bool-cases, if◌then◌else◌,
}
use mizumi.Text.{Text, text_eq}
use mizumi.Text.Laws.{text_eq_iff, Lacks}
use mizumi.Text.Sets.{has}
use mizumi.Grid.Key.{CellPosition, colon, cell_key}
use mizumi.Grid.Key.Laws.{parse_cell_key-cell_key, text_eq-cell_key}
use mizumi.Grid.State.{DataGridState, no_selection}
use mizumi.Grid.Select.{get_is_cell_selected, on_selection_clear}
use mizumi.Grid.Update.{DataRow, CellUpdate, target_index, on_data_update}
use mizumi.Grid.Update.Lookup.{is_target, last_value, new_cell, new_cell-on_data_update}
use mizumi.Grid.Values.{CellValue, get_empty_cell_value}
use mizumi.Grid.Keyboard.{KeyEvent, GridProps, update_data, is_ctrl, is_deletion, is_shortcut}
use mizumi.Grid.Keyboard.Handler.{
  is_editing, empty_cell, cells_to_clear, clear_cells, focused_key, on_data_grid_key_down,
}
use mizumi.Grid.Keyboard.Arrows.{IsReady}

abbrev pub key_at : CellPosition → Text
key_at p = cell_key p.row_index p.column_id

-- Its key can be read back.
pub record HasKey (p : CellPosition) : Type 0 where
  pub named : p.column_id ≢ []
  pub no_colon : Lacks colon p.column_id

if_or {ℓ} :
    {A : Type ℓ} (a b : Bool) (x y : A)
    → (if b then x else if a then x else y) ≡ (if a || b then x else y)
if_or true true x y = refl
if_or true false x y = refl
if_or false true x y = refl
if_or false false x y = refl

module _ (g : GridProps) where
  module _ (e : KeyEvent) (p : CellPosition) (s : DataGridState) (ready : IsReady g p s)
      (editable : g.read_only ≡ false) (deletion : is_deletion e.key ≡ true)
      (no_ctrl : is_ctrl e ≡ false) where
    not_shortcut : (c : ℕ) → is_shortcut c e ≡ false
    not_shortcut c = ground (arith, no_ctrl)

    key_down-deletion : on_data_grid_key_down g e s ≡ clear_cells g p s
    unfolding on_data_grid_key_down focused_key
    key_down-deletion =
        let search : (g.enable_search && is_shortcut b'f' e) ≡ false =
          ground (arith, not_shortcut b'f') in
        let paste : (g.enable_paste && is_shortcut b'v' e && not g.read_only) ≡ false =
          ground (arith, not_shortcut b'v') in
        let quiet : (g.enable_search && s.search_open && not (is_editing s.editing_cell)) ≡ false =
          ground (arith, ready.no_search) in
        rw
          (
            search,
            quiet,
            ready.no_editing,
            no_ctrl,
            ready.focus,
            not_shortcut b'a',
            not_shortcut b'c',
            not_shortcut b'x',
            paste,
            deletion,
            editable,
          )
          (rw no_ctrl refl)

    key_down-deletion_request :
        (key : Text) (keys : List Text)
        → s.selection_state.selected_cells ≡ key ∷ keys
        → ((on_data_grid_key_down g e s).request
            ≡ some (update_data (map (empty_cell g) (key ∷ keys))))
          × ((on_data_grid_key_down g e s).state.selection_state ≡ no_selection)
    unfolding clear_cells cells_to_clear on_selection_clear
    key_down-deletion_request key keys h = (
      ap (λ o. o.request) key_down-deletion ∙ rw h refl,
      ap (λ o. o.state.selection_state) key_down-deletion ∙ rw h refl,
    )

  -- The value that an emptied cell gets.
  abbrev pub empty_of : Text → CellValue
  empty_of column = get_empty_cell_value (g.cell_opts column)

  empty_cell-cell_key :
      (p : CellPosition)
      → HasKey p
      → empty_cell g (key_at p)
        ≡ record { row_index = p.row_index; column_id = p.column_id; value = empty_of p.column_id }
  unfolding empty_cell
  empty_cell-cell_key p h =
      rw (parse_cell_key-cell_key p.row_index p.column_id h.named h.no_colon) refl

  -- The data's row `i` is the object that the table shows at `j`, and nowhere else.
  module _ (shown : Option (List (DataRow CellValue))) (rows : List (Option (DataRow CellValue)))
      (i : ℕ) (j : ℤ) (at : (k : ℤ) → is_target (target_index shown rows k) (pos i) ≡ (k ==ℤ j))
      (column : Text) where
    one_cell :
        (c : CellPosition) (old : CellValue)
        → (if is_target (target_index shown rows c.row_index) (pos i)
            then if text_eq c.column_id column then empty_of c.column_id else old
            else old)
          ≡ (if text_eq (key_at c) (cell_key j column) then empty_of column else old)
    one_cell c old =
        rw (at c.row_index, text_eq-cell_key c.row_index j c.column_id column)
          (elim (Bool-cases (c.row_index ==ℤ j)) [
            | inl e ↦ rw e (same_column (text_eq c.column_id column) refl)
            | inr e ↦ rw e refl
          ])
      where
        same_column :
            (b : Bool)
            → text_eq c.column_id column ≡ b
            → (if b then empty_of c.column_id else old) ≡ (if b then empty_of column else old)
        same_column true e = ap empty_of ((text_eq_iff c.column_id column).0 e)
        same_column false e = refl

    pub last_value-empty_cells :
        (cells : List CellPosition) (old : CellValue)
        → All HasKey cells
        → last_value shown rows (map (empty_cell g) (map key_at cells)) (pos i) column old
          ≡ (if has (map key_at cells) (cell_key j column) then empty_of column else old)
    unfolding has
    last_value-empty_cells [] old h = refl
    last_value-empty_cells (c ∷ cells) old (h, hs) = rw (empty_cell-cell_key c h) (
        last_value-empty_cells cells _ hs
        ∙ ap (λ v. if has (map key_at cells) (cell_key j column) then empty_of column else v)
            (one_cell c old)
        ∙ if_or (text_eq (key_at c) (cell_key j column))
            (has (map key_at cells) (cell_key j column)) (empty_of column) old)

  -- Where a cell has the focus, none is edited, no search is open and the grid is not read-only:
  -- Delete or Backspace without Ctrl, with the cells `c` and `cells` selected (whose column ids are
  -- not empty and hold no colon), asks for updates and selects nothing any more. If the table shows
  -- the data's row `i` at `j` and nowhere else, the new data has in each column of that row the
  -- column's empty value where the cell was selected, and the old value where it was not.
  pub new_cell-key_down :
      (e : KeyEvent) (p : CellPosition) (s : DataGridState) (c : CellPosition)
      (cells : List CellPosition) (shown : Option (List (DataRow CellValue)))
      (rows : List (Option (DataRow CellValue))) (i : ℕ) (j : ℤ) (row : DataRow CellValue)
      (column : Text)
      → IsReady g p s
      → g.read_only ≡ false
      → is_deletion e.key ≡ true
      → is_ctrl e ≡ false
      → s.selection_state.selected_cells ≡ map key_at (c ∷ cells)
      → All HasKey (c ∷ cells)
      → get_elem? rows i ≡ some (some row)
      → ((k : ℤ) → is_target (target_index shown rows k) (pos i) ≡ (k ==ℤ j))
      → let o = on_data_grid_key_down g e s in
        (us : List (CellUpdate CellValue)) × (o.request ≡ some (update_data us))
        × (o.state.selection_state ≡ no_selection)
        × (new_cell (on_data_update false shown rows us) i column
            ≡ some (if get_is_cell_selected s j column then empty_of column else row.fields column))
  unfolding get_is_cell_selected
  new_cell-key_down e p s c cells shown rows i j row column ready editable del no_ctrl sel keys here
        at =
      let (asked, cleared) =
        key_down-deletion_request e p s ready editable del no_ctrl (key_at c) (map key_at cells)
          sel in
      (
        map (empty_cell g) (map key_at (c ∷ cells)),
        asked,
        cleared,
        new_cell-on_data_update shown rows (empty_cell g (key_at c))
              (map (empty_cell g) (map key_at cells)) i row column here
            ∙ ap some (
                last_value-empty_cells shown rows i j at column (c ∷ cells) (row.fields column) keys
                ∙ ap
                    (λ ks.
                      if has ks (cell_key j column) then empty_of column else row.fields column)
                    (sym sel)),
      )
