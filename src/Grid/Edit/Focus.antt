-- ===== src/Grid/Edit/Focus.antt =====
-- Where the focus is after editing and after the deletion of rows.
use mizumi.Prelude.{
  ℕ, suc, ◌<◌, ◌≡◌, refl, subst, ◌⊎◌, any, ◌==ℤ◌, inl, inr, true, false, List, [], ◌∷◌, none, some,
  ℤ, pos, negsuc, ◌+ℤ◌, ◌-ℤ◌, ◌≤ℤ◌, ◌<ℤ◌, ltb_ℤ, ltb, leb, ◌-◌, min_ℤ, ◌==◌, All, length, arith,
  Bool-cases, if◌then◌else◌,
}
use mizumi.Text.{Text}
use mizumi.Grid.Key.{CellPosition, position}
use mizumi.Grid.State.{DataGridState}
use mizumi.Grid.Navigate.{
  NavigationDirection, Layout, focus_cell, navigate_cell, navigate_position, same_cell,
}
use mizumi.Grid.Navigate.Bounds.{IsInGrid, navigate_cell-IsInGrid}
use mizumi.Grid.Edit.{
  Stop, stay, move_to_next_row, move_to, after_editing, on_cell_editing_stop, min_index,
  focused_column, focus_after_delete, rows_to_delete, on_rows_delete,
}

min_index-le : (i : ℤ) (js : List ℤ) (k : ℤ) → k ≤ℤ min_index i js → All (λ j. k ≤ℤ j) (i ∷ js)
unfolding min_index min_ℤ
min_index-le i [] k h = (h, tt)
min_index-le i (j ∷ js) k h =
    let first : k ≤ℤ i = ground arith in
    let others : k ≤ℤ min_index j js = ground arith in (first, min_index-le j js k others)

min_index-pos : (i : ℤ) (js : List ℤ) → All (λ j. pos 0 ≤ℤ j) (i ∷ js) → pos 0 ≤ℤ min_index i js
unfolding min_index min_ℤ
min_index-pos i [] (h, _) = h
min_index-pos i (j ∷ js) (h, hs) = ground (arith, min_index-pos j js hs)

min_index-has : (i : ℤ) (js : List ℤ) → any (λ j. j ==ℤ min_index i js) (i ∷ js) ≡ true
unfolding min_index min_ℤ
min_index-has i [] = ground arith
min_index-has i (j ∷ js) = ground (arith, min_index-has j js)

-- The row that gets the focus.
target_row :
    (lowest : ℤ) (count : ℕ)
    → pos 0 ≤ℤ lowest
    → 0 < count
    → (r : ℕ) × (min_ℤ lowest (pos count -ℤ pos 1) ≡ pos r)
      × (r < count)
      × (pos r ≤ℤ lowest)
      × ((lowest ≡ pos r) ⊎ (suc r ≡ count))
unfolding min_ℤ ◌-ℤ◌
target_row (pos n) count h p = (
  if leb n (count - 1) then n else count - 1,
  ground arith,
  ground arith,
  ground arith,
  ground arith,
)
target_row (negsuc n) count h p = absurd (omega arith)

-- After a deletion that leaves rows, from a table that showed rows, the focus is in the column that
-- had it, or the first one: at the lowest of the deleted indices if that row is still there, and
-- at the last row that is left otherwise; if the column's id is not empty and no index is negative.
pub focused-on_rows_delete {ℓ} :
    {A : Type ℓ} (ids : List Text) (rows : List A) (delete_rows : List A → List ℤ → ℕ) (i : ℤ)
    (js : List ℤ) (s : DataGridState) (c : ℕ) (id : Text)
    → 0 < length rows
    → 0 < delete_rows (rows_to_delete rows (i ∷ js)) (i ∷ js)
    → All (λ j. pos 0 ≤ℤ j) (i ∷ js)
    → focused_column s.focused_cell ids ≡ some (c ∷ id)
    → let t = on_rows_delete true ids rows delete_rows (i ∷ js) s in
      (r : ℕ) × (t.focused_cell ≡ some (position (pos r) (c ∷ id)))
      × (r < delete_rows (rows_to_delete rows (i ∷ js)) (i ∷ js))
      × All (λ j. pos r ≤ℤ j) (i ∷ js)
      × ((any (λ j. j ==ℤ pos r) (i ∷ js) ≡ true)
          ⊎ (suc r ≡ delete_rows (rows_to_delete rows (i ∷ js)) (i ∷ js)))
unfolding on_rows_delete focus_after_delete focus_cell
focused-on_rows_delete ids rows delete_rows i js s c id p q h e =
    let count = delete_rows (rows_to_delete rows (i ∷ js)) (i ∷ js) in
    let lowest = min_index i js in
    let (r, at, lt, le, last) = target_row lowest count (min_index-pos i js h) q in
    let some_rows : (length rows == 0) ≡ false = ground arith in
    let some_left : ltb 0 count ≡ true = ground arith in
    (
      r,
      rw (some_rows, e, some_left, at) refl,
      lt,
      min_index-le i js (pos r) le,
      elim last [
        | inl low ↦ inl (subst (λ k. any (λ j. j ==ℤ k) (i ∷ js) ≡ true) low (min_index-has i js))
        | inr left ↦ inr left
      ],
    )

next_row :
    (row : ℤ) (count : ℕ)
    → pos 0 ≤ℤ row
    → ltb_ℤ (row +ℤ pos 1) (pos count) ≡ true
    → (pos 0 ≤ℤ row +ℤ pos 1) × (row +ℤ pos 1 <ℤ pos count)
unfolding ◌+ℤ◌
next_row row count h b = ground arith

editing-navigate_cell :
    (g : Layout) (d : NavigationDirection) (p : CellPosition) (s : DataGridState)
    → (navigate_cell g d (focus_cell p s)).editing_cell ≡ none
unfolding navigate_cell focus_cell
editing-navigate_cell g d p s = elim (Bool-cases (same_cell (navigate_position g d p) p)) [
  | inl e ↦ rw e refl
  | inr e ↦ rw e refl
]

-- Where the edited cell has the focus and is one of the grid's, whatever the end of editing asks for
-- (nothing, the next row, or a direction): no cell is edited afterwards, and the focus stays on a
-- cell of the grid.
pub on_cell_editing_stop-IsInGrid :
    (g : Layout) (stop : Stop) (s : DataGridState) (p : CellPosition)
    → s.editing_cell ≡ some p
    → s.focused_cell ≡ some p
    → IsInGrid g p
    → let t = on_cell_editing_stop g stop s in
      (t.editing_cell ≡ none) × ((q : CellPosition) × (t.focused_cell ≡ some q) × IsInGrid g q)
unfolding on_cell_editing_stop after_editing
on_cell_editing_stop-IsInGrid g stay s p e f h = rw e (refl, (p, f, h))
on_cell_editing_stop-IsInGrid g move_to_next_row s p e f h =
    let next = p.row_index +ℤ pos 1 in
    elim (Bool-cases (ltb_ℤ next (pos g.row_count))) [
      | inl b ↦
          rw (e, b)
            (unfold focus_cell in
              (
                refl,
                (
                  position next p.column_id,
                  refl,
                  record { row = next_row p.row_index g.row_count h.row.0 b; column = h.column },
                ),
              ))
      | inr b ↦ rw (e, b) (refl, (p, f, h))
    ]
on_cell_editing_stop-IsInGrid g (move_to d) s p e f h =
    let u = focus_cell p (record s { editing_cell = none }) in
    let (at, inside) = navigate_cell-IsInGrid g d u p (unfold focus_cell in refl) h in
    rw e (
      editing-navigate_cell g d p (record s { editing_cell = none }),
      (navigate_position g d p, at, inside),
    )
