-- ===== src/Grid/Sample.antt =====
-- A small grid for the tests.
use mizumi.Prelude.{
  ℕ, zero, suc, negsuc, ◌≡◌, refl, true, false, List, [], ◌∷◌, Option, some, ℤ, pos, ◌==ℤ◌, arith,
  if◌then◌else◌,
}
use mathlib.Core.List.{cons-ne-nil}
use mizumi.Text.{Text, codes, text_eq}
use mizumi.Grid.Key.{CellPosition, position}
use mizumi.Grid.State.{DataGridState, initial_state}
use mizumi.Grid.Update.{DataRow, index_of_row, target_index}
use mizumi.Grid.Update.Lookup.{is_target}
use mizumi.Grid.Values.{CellValue, CellOpts, checkbox, number, text}
use mizumi.Grid.Keyboard.{ShownRow, GridProps}
use mizumi.Grid.Keyboard.Clear.{HasKey}

abbrev pub a : Text
a = codes "a"

abbrev pub b : Text
b = codes "b"

abbrev pub opts : Text → Option CellOpts
opts id = if text_eq id b then some checkbox else some number

abbrev pub rows : List ShownRow
rows = record { id = codes "r0"; index = pos 0 } ∷ record { id = codes "r1"; index = pos 1 } ∷ []

abbrev pub grid : GridProps
grid = record {
  enable_search = true;
  enable_paste = true;
  read_only = false;
  can_delete_rows = true;
  can_add_rows = true;
  is_rtl = false;
  page_size = 10;
  shown = rows;
  data_length = 2;
  all_ids = codes "select" ∷ a ∷ b ∷ [];
  navigable_ids = a ∷ b ∷ [];
  cell_opts = opts;
}

abbrev pub origin : CellPosition
origin = position (pos 0) a

abbrev pub focused : DataGridState
focused = record (initial_state []) { focused_cell = some origin }

-- Two rows of data that the table shows in the other order.
abbrev pub row : ℕ → DataRow CellValue
row n = record { ref = n; fields = λ id. text (codes "x") }

abbrev pub data_rows : List (Option (DataRow CellValue))
data_rows = some (row 7) ∷ some (row 8) ∷ []

abbrev pub shown : Option (List (DataRow CellValue))
shown = some (row 8 ∷ row 7 ∷ [])

pub shown_at : (k : ℤ) → is_target (target_index shown data_rows k) (pos 0) ≡ (k ==ℤ pos 1)
unfolding target_index index_of_row
shown_at (pos zero) = refl
shown_at (pos (suc zero)) = refl
shown_at (pos (suc (suc n))) = ground arith
shown_at (negsuc n) = ground arith

abbrev pub cell_b : CellPosition
cell_b = position (pos 1) b

pub cell_b-HasKey : HasKey cell_b
cell_b-HasKey = record {
  named = cons-ne-nil b'b' [];
  no_colon = ((λ e. absurd (omega (arith, e))), tt);
}
