-- ===== src/Grid/Copy/Tests.antt =====
-- Copying and cutting in a small grid.
use mizumi.Prelude.{◌≡◌, ◌≢◌, refl, ◌&&◌, pos, arith, true, false, List, [], ◌∷◌, none}
use mizumi.Text.{Text, codes, split, text_eq}
use mizumi.Text.Decimal.{parse_int, read_signed}
use mizumi.Text.Trim.{trim_start, is_space}
use mizumi.Text.Sets.{has}
use mizumi.Text.Laws.{Lacks}
use mizumi.Grid.Key.{colon, cell_key, parse_cell_key}
use mizumi.Grid.Columns.{select_id, is_non_navigable}
use mizumi.Grid.State.{DataGridState, initial_state}
use mizumi.Grid.Copy.{Platform, RowCells, serialize_cells_to_tsv, on_cells_cut}
use mizumi.Grid.Copy.Cut.{has-on_cells_cut}

-- Values that are texts.
abbrev texts : Platform Text
texts = record {
  is_truthy = λ s. true;
  stringify = λ s. s;
  iso_date = λ s. none;
  to_string = λ s. s;
}

abbrev rows : List (RowCells Text)
rows =
    ((codes "a", record { variant = none; value = codes "one" })
      ∷ (codes "b", record { variant = none; value = codes "two" })
      ∷ [])
    ∷ []

-- The cell of the second column was selected before that of the first one.
abbrev clicked : DataGridState
clicked = record (initial_state []) {
  selection_state = record {
    selected_cells = codes "0:b" ∷ codes "0:a" ∷ [];
    selection_range = none;
    is_selecting = false;
  };
}

-- The row's check box is selected too.
abbrev with_box : DataGridState
with_box = record clicked {
  selection_state = record {
    selected_cells = codes "0:b" ∷ cell_key (pos 0) select_id ∷ [];
    selection_range = none;
    is_selecting = false;
  };
}

box_test :
    (on_cells_cut false true (serialize_cells_to_tsv texts rows with_box) with_box).cut_cells
    ≡ codes "0:b" ∷ []
unfolding on_cells_cut serialize_cells_to_tsv initial_state cell_key parse_cell_key split parse_int
    read_signed trim_start is_space is_non_navigable text_eq
box_test = refl

b-ne-nil : codes "b" ≢ []
b-ne-nil e = cc

b-Lacks : Lacks colon (codes "b")
b-Lacks = (λ e. omega (arith, e), tt)

has-on_cells_cut_example :
    let cut = on_cells_cut false true (serialize_cells_to_tsv texts rows with_box) with_box in
    has cut.cut_cells (cell_key (pos 0) (codes "b"))
    ≡ (has with_box.selection_state.selected_cells (cell_key (pos 0) (codes "b")) && true)
unfolding text_eq
has-on_cells_cut_example =
    has-on_cells_cut texts rows false true with_box (codes "0:b") (cell_key (pos 0) select_id ∷ [])
      (pos 0) (codes "b") refl b-ne-nil b-Lacks
