-- ===== src/Grid/Select/Membership.antt =====
-- Which cells selectRange, selectAll and selectColumn select.
use mizumi.Prelude.{
  ◌≡◌, refl, ◌≢◌, ◌↔◌, ◌⊎◌, inl, inr, Bool, true, false, List, [], ◌∷◌, Option, none, some, ℤ,
  min_ℤ, max_ℤ, ◌≤ℤ◌, for_range_collects, arith,
}
use mathlib.Core.List.{cons-ne-nil}
use mathlib.Core.Path.{subst}
use mizumi.Text.{Text}
use mizumi.Text.Laws.{text_eq_iff}
use mizumi.Text.Sets.{has, add, has-add}
use mizumi.Grid.Key.{CellPosition, cell_key}
use mizumi.Grid.Key.Laws.{cell_key_inj}
use mizumi.Grid.Columns.{index_of, get_at}
use mizumi.Grid.State.{DataGridState}
use mizumi.Grid.Select.{
  get_is_cell_selected, add_cell, Rectangle, rectangle, add_columns, cells_of, select_range,
}

abbrev Has : Text → List Text → Type 0
Has k keys = has keys k ≡ true

Has-add : (k x : Text) (keys : List Text) → Has k (add x keys) ↔ (Has k keys ⊎ (x ≡ k))
Has-add k x keys = grind (arith, has-add keys x k, text_eq_iff x k)

has_nil : (k : Text) → has [] k ≡ false
unfolding has
has_nil k = refl

Has-add_cell :
    (row : ℤ) (id : Option Text) (k : Text) (keys : List Text)
    → Has k (add_cell row id keys)
      ↔ (Has k keys ⊎ ((c : Text) × (c ≢ []) × (id ≡ some c) × (cell_key row c ≡ k)))
unfolding add_cell
Has-add_cell row none k keys = (λ h. inl h, λ h. elim h [ inl p ↦ p | inr (x, ne, e, q) ↦ cc ])
Has-add_cell row (some []) k keys =
    (λ h. inl h, λ h. elim h [ inl p ↦ p | inr (x, ne, e, q) ↦ absurd (ne (cc)) ])
Has-add_cell row (some (c ∷ s)) k keys = (
  λ h. elim ((Has-add k (cell_key row (c ∷ s)) keys).0 h) [
    | inl p ↦ inl p
    | inr e ↦ inr (c ∷ s, cons-ne-nil c s, refl, e)
  ],
  λ h. elim h [
    | inl p ↦ (Has-add k (cell_key row (c ∷ s)) keys).1 (inl p)
    | inr (x, ne, e, q) ↦ (Has-add k (cell_key row (c ∷ s)) keys).1 (inr (cc))
  ],
)

module _ (column_ids : List Text) where
  -- A round of the inner loop at the column `i` brings the key `k`.
  abbrev Brings : Text → ℤ → ℤ → Type 0
  Brings k row i = (c : Text) × (c ≢ []) × (get_at column_ids i ≡ some c) × (cell_key row c ≡ k)

  abbrev BringsInRow : Text → ℤ → ℤ → ℤ → Type 0
  BringsInRow k lo hi row = (i : ℤ) × (lo ≤ℤ i) × (i ≤ℤ hi) × Brings k row i

  Has-add_columns :
      (k : Text) (lo hi row : ℤ) (keys : List Text)
      → Has k (add_columns column_ids lo hi row keys) ↔ (Has k keys ⊎ BringsInRow k lo hi row)
  unfolding add_columns
  Has-add_columns k lo hi row =
      for_range_collects (Has k) (Brings k row) _
        (λ i keys. Has-add_cell row (get_at column_ids i) k keys) lo hi

  Has-cells_of :
      (k : Text) (r : Rectangle)
      → Has k (cells_of column_ids r) ↔ (
          Has k []
          ⊎ ((row : ℤ) × (r.min_row ≤ℤ row)
              × (row ≤ℤ r.max_row)
              × BringsInRow k r.min_col r.max_col row))
  unfolding cells_of
  Has-cells_of k r =
      for_range_collects (Has k) (BringsInRow k r.min_col r.max_col) _
        (λ row keys. Has-add_columns k r.min_col r.max_col row keys) r.min_row r.max_row []

  abbrev IsInside : Rectangle → ℤ → Text → Type 0
  IsInside r row id =
      (r.min_row ≤ℤ row)
      × (row ≤ℤ r.max_row)
      × ((i : ℤ) × (r.min_col ≤ℤ i) × (i ≤ℤ r.max_col) × (get_at column_ids i ≡ some id))

  Has-cells_of_iff :
      (r : Rectangle) (row : ℤ) (id : Text)
      → id ≢ []
      → Has (cell_key row id) (cells_of column_ids r) ↔ IsInside r row id
  Has-cells_of_iff r row id ne = (to, from)
    where
      to : Has (cell_key row id) (cells_of column_ids r) → IsInside r row id
      to h = elim ((Has-cells_of (cell_key row id) r).0 h) [
        | inl p ↦ absurd (cc (has_nil (cell_key row id)))
        | inr (row', a, b, (i, c, d, (id', _, e, same))) ↦
            let (p, q) = cell_key_inj row' row id' id same in
            (subst (λ x. r.min_row ≤ℤ x) p a, subst (λ x. x ≤ℤ r.max_row) p b, (i, c, d, cc))
      ]

      from : IsInside r row id → Has (cell_key row id) (cells_of column_ids r)
      from (a, b, (i, c, d, e)) =
          (Has-cells_of (cell_key row id) r).1 (inr (row, a, b, (i, c, d, (id, ne, e, refl))))

-- `x` lies between `a` and `b`, whichever comes first.
abbrev pub IsBetween : ℤ → ℤ → ℤ → Type 0
IsBetween a b x = ((a ≤ℤ x) × (x ≤ℤ b)) ⊎ ((b ≤ℤ x) × (x ≤ℤ a))

min_max-IsBetween : (a b x : ℤ) → ((min_ℤ a b ≤ℤ x) × (x ≤ℤ max_ℤ a b)) ↔ IsBetween a b x
unfolding min_ℤ max_ℤ
min_max-IsBetween a b x = ground arith

module _ (column_ids : List Text) (start end : CellPosition) where
  -- The cell of `row` and `id` lies in the rectangle whose opposite corners are `start` and `end`.
  abbrev pub IsInRectangle : ℤ → Text → Type 0
  IsInRectangle row id =
      IsBetween start.row_index end.row_index row
      × ((i : ℤ) × IsBetween (index_of start.column_id column_ids)
            (index_of end.column_id column_ids) i
          × (get_at column_ids i ≡ some id))

  IsInside-IsInRectangle :
      (row : ℤ) (id : Text)
      → IsInside column_ids (rectangle column_ids start end) row id ↔ IsInRectangle row id
  unfolding rectangle
  IsInside-IsInRectangle row id = (
    λ (a, b, (i, c, d, e)). (
      (min_max-IsBetween start.row_index end.row_index row).0 (a, b),
      (i, (min_max-IsBetween first final i).0 (c, d), e),
    ),
    λ (p, (i, q, e)).
        let (a, b) = (min_max-IsBetween start.row_index end.row_index row).1 p in
        let (c, d) = (min_max-IsBetween first final i).1 q in (a, b, (i, c, d, e)),
  )
    where
      first : ℤ
      first = index_of start.column_id column_ids

      final : ℤ
      final = index_of end.column_id column_ids

  -- selectRange selects a cell, of a column whose id is not empty, exactly if it lies in the
  -- rectangle between the two given cells; nothing that was selected before stays selected.
  pub get_is_cell_selected-select_range :
      (is_selecting : Bool) (s : DataGridState) (row : ℤ) (id : Text)
      → id ≢ []
      → (get_is_cell_selected (select_range column_ids start end is_selecting s) row id ≡ true)
        ↔ IsInRectangle row id
  unfolding get_is_cell_selected select_range
  get_is_cell_selected-select_range is_selecting s row id ne =
      let inside = Has-cells_of_iff column_ids (rectangle column_ids start end) row id ne in
      let same = IsInside-IsInRectangle row id in
      (λ h. same.0 (inside.0 h), λ h. inside.1 (same.1 h))
