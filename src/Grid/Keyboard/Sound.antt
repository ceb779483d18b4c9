-- ===== src/Grid/Keyboard/Sound.antt =====
-- The operations behind the keys keep the positions in the state inside the table.
pub mod Edges
use mizumi.Prelude.{
  AllSome, AllSome-get, AllSome-map, ℕ, zero, suc, ◌<◌, ◌≡◌, refl, sym, ap, subst, ◌∙◌, ◌⊎◌, inl,
  inr, Bool, true, false, not, List, [], ◌∷◌, Option, none, some, ℤ, pos, negsuc, ◌-ℤ◌, ◌≤ℤ◌, ◌<ℤ◌,
  ◌==◌, All, get_elem?, length, arith, lt-length_of_get_elem?, Bool-cases, Option-cases, if_cases,
  if◌then◌else◌,
}
use mizumi.Text.{Text}
use mizumi.Text.Laws.{text_eq_self}
use mizumi.Text.Sets.{has}
use mizumi.Grid.Key.{CellPosition, position}
use mizumi.Grid.Columns.{get_at}
use mizumi.Grid.Columns.Laws.{has_of_get_elem?}
use mizumi.Grid.State.{CellRange, DataGridState}
use mizumi.Grid.Select.{on_selection_clear, select_all, select_range, last, full_range}
use mizumi.Grid.Navigate.{
  NavigationDirection, navigate_position, navigate_cell, focus_cell, blur_cell, same_cell,
}
use mizumi.Grid.Navigate.Bounds.{
  IsRow, navigate_row-IsRow, navigate_column-holds, focused_cell-navigate_cell,
}
use mizumi.Grid.Search.{
  current_match, show_match, on_search_open_change, on_navigate_to_prev_match,
  on_navigate_to_next_match, previous_match, next_match,
}
use mizumi.Grid.Keyboard.{GridProps, layout_of}
use mizumi.Grid.Keyboard.Indices.{
  IsMatchIndex, All-get_at, get_at-IsMatchIndex, has-first, has-last,
}

module _ (g : GridProps) where
  -- A cell of the table: of a row that it shows, and of one of its columns.
  pub record IsCell (p : CellPosition) : Type 0 where
    pub row : IsRow (layout_of g) p.row_index
    pub column : has g.all_ids p.column_id ≡ true

  pub record IsRange (r : CellRange) : Type 0 where
    pub start : IsCell r.start
    pub end : IsCell r.end

  -- The focused cell, the ends of the selected range and the matches of the search are cells of
  -- the table, and the index of the active match is -1 or that of a match.
  pub record IsSound (s : DataGridState) : Type 0 where
    pub focus : AllSome IsCell s.focused_cell
    pub ends : AllSome IsRange s.selection_state.selection_range
    pub matches : All IsCell s.search_matches
    pub active : IsMatchIndex s.match_index s.search_matches

  pub on_selection_clear-IsSound : (s : DataGridState) → IsSound s → IsSound (on_selection_clear s)
  unfolding on_selection_clear
  on_selection_clear-IsSound s h = record {
    focus = h.focus;
    ends = tt;
    matches = h.matches;
    active = h.active;
  }

  pub blur_cell-IsSound : (s : DataGridState) → IsSound s → IsSound (blur_cell s)
  unfolding blur_cell
  blur_cell-IsSound s h = record {
    focus = tt;
    ends = h.ends;
    matches = h.matches;
    active = h.active;
  }

  focus_cell-IsSound :
      (p : CellPosition) (s : DataGridState) → IsCell p → IsSound s → IsSound (focus_cell p s)
  unfolding focus_cell
  focus_cell-IsSound p s c h = record {
    focus = c;
    ends = h.ends;
    matches = h.matches;
    active = h.active;
  }

  pub select_range-IsSound :
      (p q : CellPosition) (s : DataGridState)
      → IsCell p
      → IsCell q
      → IsSound s
      → IsSound (select_range g.all_ids p q false s)
  unfolding select_range
  select_range-IsSound p q s hp hq h = record {
    focus = h.focus;
    ends = record { start = hp; end = hq };
    matches = h.matches;
    active = h.active;
  }

  show_match-IsSound :
      (i : ℤ) (s : DataGridState) → IsSound s → IsSound (show_match i (get_at s.search_matches i) s)
  unfolding show_match
  show_match-IsSound i s h = elim (Option-cases (get_at s.search_matches i)) [
    | inl e ↦ rw e h
    | inr (m, e) ↦ rw e (
        focus_cell-IsSound m (record s { match_index = i })
          (AllSome-get IsCell _ m e (All-get_at IsCell s.search_matches i h.matches))
          (record {
            focus = h.focus;
            ends = h.ends;
            matches = h.matches;
            active = get_at-IsMatchIndex s.search_matches i m e;
          }))
  ]

  pub on_navigate_to_prev_match-IsSound :
      (s : DataGridState) → IsSound s → IsSound (on_navigate_to_prev_match s)
  unfolding on_navigate_to_prev_match
  on_navigate_to_prev_match-IsSound s h =
      if_cases IsSound (length s.search_matches == 0) (λ _. h)
        (λ _. show_match-IsSound (previous_match s.match_index (length s.search_matches)) s h)

  pub on_navigate_to_next_match-IsSound :
      (s : DataGridState) → IsSound s → IsSound (on_navigate_to_next_match s)
  unfolding on_navigate_to_next_match
  on_navigate_to_next_match-IsSound s h =
      if_cases IsSound (length s.search_matches == 0) (λ _. h)
        (λ _. show_match-IsSound (next_match s.match_index (length s.search_matches)) s h)

  pub on_search_open_change-IsSound :
      (is_open : Bool) (s : DataGridState) → IsSound s → IsSound (on_search_open_change is_open s)
  unfolding on_search_open_change
  on_search_open_change-IsSound true s h = record {
    focus = h.focus;
    ends = h.ends;
    matches = h.matches;
    active = h.active;
  }
  on_search_open_change-IsSound false s h = elim (Option-cases (current_match s)) [
    | inl e ↦ rw e (record { focus = h.focus; ends = h.ends; matches = tt; active = inl refl })
    | inr (m, e) ↦ rw e (record {
      focus = AllSome-get IsCell _ m e (All-get_at IsCell s.search_matches s.match_index h.matches);
      ends = h.ends;
      matches = tt;
      active = inl refl;
    })
  ]

  rows_of_table :
      (length g.shown == 0) ≡ false
      → IsRow (layout_of g) (pos 0) × IsRow (layout_of g) (pos (length g.shown) -ℤ pos 1)
  unfolding layout_of ◌-ℤ◌
  rows_of_table b = ground (arith, b)

  full_range-IsRange :
      (last_row : ℤ) (o o' : Option Text)
      → IsRow (layout_of g) (pos 0)
      → IsRow (layout_of g) last_row
      → AllSome (λ id. has g.all_ids id ≡ true) o
      → AllSome (λ id. has g.all_ids id ≡ true) o'
      → AllSome IsRange (full_range last_row o o')
  unfolding full_range
  full_range-IsRange row (some (c ∷ s)) (some (d ∷ t)) a b h k = record {
    start = record { row = a; column = h };
    end = record { row = b; column = k };
  }
  full_range-IsRange row _ _ a b h k = tt

  pub select_all-IsSound :
      (s : DataGridState) → IsSound s → IsSound (select_all g.all_ids (length g.shown) s)
  unfolding select_all
  select_all-IsSound s h = record {
    focus = h.focus;
    ends =
        if_cases (AllSome IsRange) (length g.shown == 0) (λ _. tt)
          (λ b.
            let (first, final) = rows_of_table b in
            full_range-IsRange (pos (length g.shown) -ℤ pos 1) (get_at g.all_ids (pos 0))
              (last g.all_ids) first final (has-first g.all_ids) (has-last g.all_ids));
    matches = h.matches;
    active = h.active;
  }

  module _ (navigable : (id : Text) → has g.navigable_ids id ≡ true → has g.all_ids id ≡ true) where
    pub navigate_position-IsCell :
        (d : NavigationDirection) (p : CellPosition)
        → IsCell p
        → IsCell (navigate_position (layout_of g) d p)
    unfolding navigate_position
    navigate_position-IsCell d p h = record {
      row = navigate_row-IsRow (layout_of g) d p.row_index h.row;
      column =
          navigate_column-holds (layout_of g) (λ c. has g.all_ids c ≡ true)
            (unfold layout_of in navigable) d p.column_id h.column;
    }

    moved-IsSound :
        (d : NavigationDirection) (o : Option CellPosition) (s : DataGridState)
        → AllSome IsCell o
        → IsSound s
        → IsSound (elim o [
          | none ↦ s
          | some p ↦
              if same_cell (navigate_position (layout_of g) d p) p
              then s
              else focus_cell (navigate_position (layout_of g) d p) s
        ])
    moved-IsSound d none s c h = h
    moved-IsSound d (some p) s c h =
        let q = navigate_position (layout_of g) d p in
        if_cases IsSound (same_cell q p) (λ _. h)
          (λ _. focus_cell-IsSound q s (navigate_position-IsCell d p c) h)

    pub navigate_cell-IsSound :
        (d : NavigationDirection) (s : DataGridState)
        → IsSound s
        → IsSound (navigate_cell (layout_of g) d s)
    unfolding navigate_cell
    navigate_cell-IsSound d s h = moved-IsSound d s.focused_cell s h.focus h
