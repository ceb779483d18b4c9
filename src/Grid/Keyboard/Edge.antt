-- ===== src/Grid/Keyboard/Edge.antt =====
-- Shift with an arrow key moves the edge of the selection as the key alone moves the focus.
use mizumi.Prelude.{
  ◌<◌, ◌≡◌, refl, ap, ◌∙◌, ◌+ℤ◌, min_ℤ, List, [], ◌∷◌, ℤ, pos, ◌-ℤ◌, ltb_ℤ, length, arith,
  if◌then◌else◌,
}
use mizumi.Text.{Text}
use mizumi.Grid.Columns.{get_at}
use mizumi.Grid.Navigate.{
  navigate_row, navigate_column, some_or, next_column, previous_column, first_column, final_column,
}
use mizumi.Grid.Keyboard.{GridProps, layout_of}
use mizumi.Grid.Keyboard.Indices.{row_count_of-shown}
use mizumi.Grid.Keyboard.Extend.{extended_row, extended_column, column_after, column_before}
use mizumi.Grid.Keyboard.Handler.{is_nil}
use mizumi.Grid.Keyboard.Arrows.{
  Arrow, to_up, to_down, to_left, to_right, to_home, to_end, direction_of,
}

module _ (g : GridProps) where
  pub extended_row-navigate_row :
      (a : Arrow) (row : ℤ)
      → 0 < length g.shown
      → extended_row g (direction_of a) row ≡ navigate_row (layout_of g) (direction_of a) row
  unfolding extended_row navigate_row layout_of min_ℤ ◌+ℤ◌ ◌-ℤ◌
  extended_row-navigate_row to_up row h = refl
  extended_row-navigate_row to_down row h =
      ap (λ n. min_ℤ (pos n -ℤ pos 1) (row +ℤ pos 1)) (row_count_of-shown g h)
  extended_row-navigate_row _ row h = refl

  pub column_after-next_column :
      (column : Text) → column_after g column ≡ next_column (layout_of g) column
  unfolding column_after next_column layout_of
  column_after-next_column column = refl

  pub column_before-previous_column :
      (column : Text) → column_before g column ≡ previous_column (layout_of g) column
  unfolding column_before previous_column layout_of
  column_before-previous_column column = refl

module _ (column : Text) where
  abbrev nullish_at : List Text → ℤ → Text
  nullish_at ids i = some_or (get_at ids i) column

  if-length :
      (ids : List Text) (x : Text)
      → (if ltb_ℤ (pos 0) (pos (length ids)) then x else column)
        ≡ (if is_nil ids then column else x)
  if-length [] x = refl
  if-length (id ∷ ids) x = ground arith

  home_or :
      (ids : List Text)
      → (if ltb_ℤ (pos 0) (pos (length ids)) then nullish_at ids (pos 0) else column)
        ≡ nullish_at ids (pos 0)
  home_or [] = refl
  home_or (id ∷ ids) = if-length (id ∷ ids) id

  end_or :
      (ids : List Text)
      → (if ltb_ℤ (pos 0) (pos (length ids))
          then nullish_at ids (pos (length ids) -ℤ pos 1)
          else column)
        ≡ nullish_at ids (pos (length ids) -ℤ pos 1)
  end_or [] = unfold ◌-ℤ◌ in refl
  end_or (id ∷ ids) =
      if-length (id ∷ ids) (nullish_at (id ∷ ids) (pos (length (id ∷ ids)) -ℤ pos 1))

-- By cases on whether there are columns: without one, `home` and `end` stay where they are.
pub extended_column-navigate_column :
    (g : GridProps) (a : Arrow) (column : Text)
    → extended_column g (direction_of a) column
      ≡ navigate_column (layout_of g) (direction_of a) column
unfolding extended_column navigate_column
extended_column-navigate_column g to_left column =
    rw (column_after-next_column g column, column_before-previous_column g column)
      (unfold layout_of in refl)
extended_column-navigate_column g to_right column =
    rw (column_after-next_column g column, column_before-previous_column g column)
      (unfold layout_of in refl)
extended_column-navigate_column g to_home column =
    home_or column g.navigable_ids ∙ (unfold first_column layout_of in refl)
extended_column-navigate_column g to_end column =
    end_or column g.navigable_ids ∙ (unfold final_column layout_of in refl)
extended_column-navigate_column g _ column = refl
