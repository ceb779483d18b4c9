-- ===== src/Grid/Paste/Written.antt =====
-- Which updates the loops of onCellsPaste collect.
use mizumi.Prelude.{
  ℕ, zero, suc, ◌-◌, ◌<◌, ◌≤◌, ◌≡◌, refl, sym, ap, ◌∙◌, ◌⊎◌, inl, inr, true, false, List, [], ◌∷◌,
  ◌++◌, append-nil, append_assoc, Option, none, some, ℤ, pos, ◌+ℤ◌, ◌≤ℤ◌, ◌<ℤ◌, leb_ℤ, All,
  All-append, get_elem?, length, arith, int_laws, eq_of_parts, Bool-cases,
}
use mizumi.Text.{Text}
use mizumi.Text.Sets.{has}
use mizumi.Grid.Columns.Laws.{has_of_get_elem?}
use mizumi.Grid.Update.{CellUpdate}
use mizumi.Grid.Values.{CellValue}
use mizumi.Grid.Values.Process.{Tools, process_value}
use mizumi.Grid.Keyboard.{GridProps}
use mizumi.Grid.Paste.{Pasted, nothing_pasted, add_pasted, paste_cell, paste_row, paste_rows}

-- The list without its first elements, and its first elements.
abbrev pub drop {ℓ} : {A : Type ℓ} → ℕ → List A → List A
drop zero xs = xs
drop (suc n) [] = []
drop (suc n) (x ∷ xs) = drop n xs

abbrev pub take {ℓ} : {A : Type ℓ} → ℕ → List A → List A
take zero xs = []
take (suc n) [] = []
take (suc n) (x ∷ xs) = x ∷ take n xs

take_nil {ℓ} : {A : Type ℓ} (n : ℕ) → take {A = A} n [] ≡ []
take_nil zero = refl
take_nil (suc n) = refl

All-of_get_elem? {ℓ κ} :
    {A : Type ℓ} (P : A → Type κ) (xs : List A)
    → ((i : ℕ) (x : A) → get_elem? xs i ≡ some x → P x)
    → All P xs
All-of_get_elem? P [] h = tt
All-of_get_elem? P (x ∷ xs) h = (h zero x refl, All-of_get_elem? P xs (λ i y e. h (suc i) y e))

All-drop {ℓ κ} : {A : Type ℓ} (P : A → Type κ) (n : ℕ) (xs : List A) → All P xs → All P (drop n xs)
All-drop P zero xs h = h
All-drop P (suc n) [] h = tt
All-drop P (suc n) (x ∷ xs) (h, hs) = All-drop P n xs hs

pub has-drop : (ids : List Text) (n : ℕ) → All (λ id. has ids id ≡ true) (drop n ids)
has-drop ids n =
    All-drop (λ id. has ids id ≡ true) n ids
      (All-of_get_elem? (λ id. has ids id ≡ true) ids (has_of_get_elem? ids))

module _ (g : GridProps) (tools : Tools) where
  abbrev entry : ℤ → Text → Option CellValue → List (CellUpdate CellValue)
  entry row id none = []
  entry row id (some v) = record { row_index = row; column_id = id; value = v } ∷ []

  -- A pasted row beside the ids of the columns that it falls on: the values of the cells that are
  -- not skipped, for columns whose id is not empty.
  abbrev pub updates_of_row : ℤ → List Text → List Text → List (CellUpdate CellValue)
  updates_of_row row ids [] = []
  updates_of_row row [] (v ∷ vs) = []
  updates_of_row row ([] ∷ ids) (v ∷ vs) = updates_of_row row ids vs
  updates_of_row row ((c ∷ id) ∷ ids) (v ∷ vs) =
      entry row (c ∷ id) (process_value tools (g.cell_opts (c ∷ id)) v) ++ updates_of_row row ids vs

  -- The pasted rows beside the rows of the table from `row` on.
  abbrev pub updates_of : ℕ → List Text → List (List Text) → List (CellUpdate CellValue)
  updates_of row ids [] = []
  updates_of row ids (vs ∷ rows) = updates_of_row (pos row) ids vs ++ updates_of (suc row) ids rows

  pos-add_one : (n : ℕ) → pos n +ℤ pos 1 ≡ pos (suc n)
  pos-add_one n = eq_of_parts _ _ (omega int_laws)

  updates-add_pasted :
      (row col : ℤ) (id : Text) (o : Option CellValue) (c : Pasted)
      → (add_pasted row col id o c).updates ≡ c.updates ++ entry row id o
  updates-add_pasted row col id none c = sym (append-nil c.updates)
  updates-add_pasted row col id (some v) c = refl

  at_column :
      (ids : List Text) (n : ℕ)
      → ((leb_ℤ (pos (length ids)) (pos n) ≡ true) × (drop n ids ≡ []))
        ⊎ ((leb_ℤ (pos (length ids)) (pos n) ≡ false)
            × ((id : Text) × (get_elem? ids n ≡ some id) × (drop n ids ≡ id ∷ drop (suc n) ids)))
  at_column [] zero = inl (refl, refl)
  at_column [] (suc n) = inl (ground arith, refl)
  at_column (id ∷ ids) zero = inr (ground arith, (id, refl, refl))
  at_column (id ∷ ids) (suc n) = elim (at_column ids n) [
    | inl (a, b) ↦ inl (ground arith, b)
    | inr (a, r) ↦ inr (ground arith, r)
  ]

  updates-paste_cell :
      (row col : ℤ) (id v : Text) (ids vs : List Text) (c : Pasted)
      → (paste_cell g tools row col (some id) v c).updates ++ updates_of_row row ids vs
        ≡ c.updates ++ updates_of_row row (id ∷ ids) (v ∷ vs)
  unfolding paste_cell
  updates-paste_cell row col [] v ids vs c = refl
  updates-paste_cell row col (d ∷ id) v ids vs c =
      let o = process_value tools (g.cell_opts (d ∷ id)) v in
      ap (λ us. us ++ updates_of_row row ids vs) (updates-add_pasted row col (d ∷ id) o c)
      ∙ append_assoc c.updates (entry row (d ∷ id) o) (updates_of_row row ids vs)

  updates-paste_row :
      (row : ℤ) (n : ℕ) (vs : List Text) (c : Pasted)
      → (paste_row g tools row (pos n) vs c).updates
        ≡ c.updates ++ updates_of_row row (drop n g.navigable_ids) vs
  unfolding paste_row
  updates-paste_row row n [] c = sym (append-nil c.updates)
  updates-paste_row row n (v ∷ vs) c = elim (at_column g.navigable_ids n) [
    | inl (past, none_left) ↦ rw (past, none_left) (sym (append-nil c.updates))
    | inr (here, (id, at, more)) ↦
        rw (here, at, more, pos-add_one n)
          (updates-paste_row row (suc n) vs (paste_cell g tools row (pos n) (some id) v c)
            ∙ updates-paste_cell row (pos n) id v (drop (suc n) g.navigable_ids) vs c)
  ]

  at_row :
      (count r : ℕ) (vs : List Text) (rows : List (List Text))
      → ((leb_ℤ (pos count) (pos r) ≡ true) × (take (count - r) (vs ∷ rows) ≡ []))
        ⊎ ((leb_ℤ (pos count) (pos r) ≡ false)
            × (take (count - r) (vs ∷ rows) ≡ vs ∷ take (count - suc r) rows))
  at_row count r vs rows = elim (Bool-cases (leb_ℤ (pos count) (pos r))) [
    | inl h ↦ let e : count - r ≡ 0 = ground arith in inl (h, ap (λ k. take k (vs ∷ rows)) e)
    | inr h ↦
        let e : count - r ≡ suc (count - suc r) = ground arith in
        inr (h, ap (λ k. take k (vs ∷ rows)) e)
  ]

  updates-paste_rows_from :
      (count r n : ℕ) (rows : List (List Text)) (c : Pasted)
      → (paste_rows g tools count (pos r) (pos n) rows c).updates
        ≡ c.updates ++ updates_of r (drop n g.navigable_ids) (take (count - r) rows)
  unfolding paste_rows
  updates-paste_rows_from count r n [] c =
      rw (take_nil {A = List Text} (count - r)) (sym (append-nil c.updates))
  updates-paste_rows_from count r n (vs ∷ rows) c = elim (at_row count r vs rows) [
    | inl (past, none_left) ↦ rw (past, none_left) (sym (append-nil c.updates))
    | inr (here, more) ↦
        rw (here, more, pos-add_one r)
          (updates-paste_rows_from count (suc r) n rows (paste_row g tools (pos r) (pos n) vs c)
            ∙ ap
                (λ us.
                  us ++ updates_of (suc r) (drop n g.navigable_ids) (take (count - suc r) rows))
                (updates-paste_row (pos r) n vs c)
            ∙ append_assoc c.updates (updates_of_row (pos r) (drop n g.navigable_ids) vs)
                (updates_of (suc r) (drop n g.navigable_ids) (take (count - suc r) rows)))
  ]

  -- Pasting rows at the row `r` and the column `n` collects the updates of the pasted rows laid side
  -- by side with the rows of the table from `r` on and the columns from `n` on, in reading order:
  -- what reaches over the last row or the last column is dropped.
  pub updates-paste_rows :
      (count r n : ℕ) (rows : List (List Text))
      → (paste_rows g tools count (pos r) (pos n) rows (nothing_pasted (pos r) (pos n))).updates
        ≡ updates_of r (drop n g.navigable_ids) (take (count - r) rows)
  updates-paste_rows count r n rows =
      updates-paste_rows_from count r n rows (nothing_pasted (pos r) (pos n))

  -- An update for a row from `r` on and before `count`, of a column that can be navigated to.
  abbrev pub IsTarget : ℕ → ℕ → CellUpdate CellValue → Type 0
  IsTarget r count u =
      (pos r ≤ℤ u.row_index) × (u.row_index <ℤ pos count) × (has g.navigable_ids u.column_id ≡ true)

  updates_of_row-IsTarget :
      (r count k : ℕ) (ids vs : List Text)
      → r ≤ k
      → k < count
      → All (λ id. has g.navigable_ids id ≡ true) ids
      → All (IsTarget r count) (updates_of_row (pos k) ids vs)
  updates_of_row-IsTarget r count k ids [] a b h = tt
  updates_of_row-IsTarget r count k [] (v ∷ vs) a b h = tt
  updates_of_row-IsTarget r count k ([] ∷ ids) (v ∷ vs) a b (h, hs) =
      updates_of_row-IsTarget r count k ids vs a b hs
  updates_of_row-IsTarget r count k ((c ∷ id) ∷ ids) (v ∷ vs) a b (h, hs) =
      All-append (IsTarget r count) (entry (pos k) (c ∷ id) o) (updates_of_row (pos k) ids vs)
        (one o) (updates_of_row-IsTarget r count k ids vs a b hs)
    where
      o : Option CellValue
      o = process_value tools (g.cell_opts (c ∷ id)) v

      one : (o : Option CellValue) → All (IsTarget r count) (entry (pos k) (c ∷ id) o)
      one none = tt
      one (some w) = ((omega arith, omega arith, h), tt)

  pub updates_of-IsTarget :
      (r count k : ℕ) (ids : List Text) (rows : List (List Text))
      → r ≤ k
      → All (λ id. has g.navigable_ids id ≡ true) ids
      → All (IsTarget r count) (updates_of k ids (take (count - k) rows))
  updates_of-IsTarget r count k ids [] a h = rw (take_nil {A = List Text} (count - k)) tt
  updates_of-IsTarget r count k ids (vs ∷ rows) a h = elim (at_row count k vs rows) [
    | inl (past, none_left) ↦ rw none_left tt
    | inr (here, more) ↦ rw more (
        All-append (IsTarget r count) (updates_of_row (pos k) ids vs)
          (updates_of (suc k) ids (take (count - suc k) rows))
          (updates_of_row-IsTarget r count k ids vs a (ground arith) h)
          (updates_of-IsTarget r count (suc k) ids rows (omega arith) h))
  ]
