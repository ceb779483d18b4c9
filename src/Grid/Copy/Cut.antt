-- ===== src/Grid/Copy/Cut.antt =====
-- Which cells a cut marks.
use mizumi.Prelude.{
  ◌≡◌, ◌≢◌, refl, ap, ◌∙◌, ℤ, not, Bool, true, false, ◌&&◌, ◌||◌, List, [], ◌∷◌, arith, Bool-cases,
  inl, inr, if◌then◌else◌,
}
use mizumi.Text.{Text, text_eq, is_empty}
use mizumi.Grid.Columns.{select_id, actions_id, is_non_navigable}
use mizumi.Grid.Key.{colon, cell_key}
use mizumi.Text.Laws.{text_eq_iff, Lacks}
use mizumi.Text.Sets.{has, has-append}
use mizumi.Grid.Key.Laws.{parse_cell_key-cell_key}
use mizumi.Grid.State.{DataGridState}
use mizumi.Grid.Copy.{
  Platform, RowCells, Copied, nothing_copied, is_copied, copy_cell, copy_cells,
  serialize_cells_to_tsv, on_cells_cut,
}

has_nil : (k : Text) → has [] k ≡ false
unfolding has
has_nil k = refl

has_one : (x k : Text) → has (x ∷ []) k ≡ text_eq x k
unfolding has
has_one x k = ground arith

is_copied-cell_key :
    (row : ℤ) (id : Text)
    → id ≢ []
    → Lacks colon id
    → is_copied (cell_key row id) ≡ not (text_eq id select_id || text_eq id actions_id)
unfolding is_copied is_non_navigable
is_copied-cell_key row [] ne h = absurd (ne refl)
is_copied-cell_key row (c ∷ id) ne h =
    ap (λ p. not (not (is_empty p.column_id) && is_non_navigable p.column_id))
      (parse_cell_key-cell_key row (c ∷ id) ne h)

module _ {Value : Type 0} (platform : Platform Value) (rows : List (RowCells Value)) where
  has-copy_cell :
      (key k : Text) (c : Copied)
      → has (if is_copied key then copy_cell platform rows key c else c).navigable_cells k
        ≡ (has c.navigable_cells k || text_eq key k && is_copied k)
  unfolding copy_cell
  has-copy_cell key k c = elim (Bool-cases (is_copied key)) [
    | inl e ↦ rw e (
        ground (
          arith,
          has-append c.navigable_cells (key ∷ []) k,
          has_one key k,
          text_eq_iff key k,
          at_key,
        ))
    | inr e ↦ rw e (ground (arith, text_eq_iff key k, at_key))
  ]
    where
      at_key : key ≡ k → is_copied key ≡ is_copied k
      at_key e = ap is_copied e

  has-copy_cells :
      (keys : List Text) (k : Text) (c : Copied)
      → has (copy_cells platform rows keys c).navigable_cells k
        ≡ (has c.navigable_cells k || has keys k && is_copied k)
  unfolding copy_cells has
  has-copy_cells [] k c = ground arith
  has-copy_cells (key ∷ keys) k c = ground (
    arith,
    has-copy_cell key k c,
    has-copy_cells keys k (if is_copied key then copy_cell platform rows key c else c),
  )

  -- With cells selected, a cut marks those that are selected, less those of the columns `select` and
  -- `actions`, and no others; a grid that is read-only, or a clipboard that does not take the text,
  -- leaves the marks as they were. Said of the keys of columns whose id is not empty and holds no
  -- colon.
  pub has-on_cells_cut :
      (read_only written : Bool) (s : DataGridState) (key : Text) (keys : List Text) (row : ℤ)
      (id : Text)
      → s.selection_state.selected_cells ≡ key ∷ keys
      → id ≢ []
      → Lacks colon id
      → let cut = on_cells_cut read_only written (serialize_cells_to_tsv platform rows s) s in
        has cut.cut_cells (cell_key row id) ≡ (
          if not read_only && written
          then has s.selection_state.selected_cells (cell_key row id)
            && not (text_eq id select_id || text_eq id actions_id)
          else has s.cut_cells (cell_key row id))
  unfolding on_cells_cut serialize_cells_to_tsv
  has-on_cells_cut true written s key keys row id e ne h = refl
  has-on_cells_cut false false s key keys row id e ne h = refl
  has-on_cells_cut false true s key keys row id e ne h =
      let k = cell_key row id in
      rw e (
        has-copy_cells (key ∷ keys) k nothing_copied
        ∙ ap (λ b. b || has (key ∷ keys) k && is_copied k) (has_nil k)
        ∙ ap (λ b. has (key ∷ keys) k && b) (is_copied-cell_key row id ne h))
