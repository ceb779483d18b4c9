-- ===== src/Grid/Paste/Tests.antt =====
-- Pasting into a small grid.
use mizumi.Prelude.{
  ℕ, ◌+◌, ◌<◌, ◌≤◌, ◌≡◌, refl, ◌⊎◌, inr, true, false, [], ◌∷◌, none, some, pos, ◌≤ℤ◌, ◌<ℤ◌, ltb,
  ◌++◌, All, length, arith, if◌then◌else◌,
}
use mizumi.Text.{Text, codes, text_eq, starts_with, includes, split}
use mizumi.Text.Sets.{has}
use mizumi.Grid.Key.{position, cell_key}
use mizumi.Grid.Columns.{index_of}
use mizumi.Grid.State.{DataGridState, initial_state, closed_paste_dialog}
use mizumi.Grid.Tsv.{
  parse_tsv, has_quotes, parse_plain, column_count, count_tabs, rows_or_lines, join_lines,
}
use mizumi.Grid.Update.{on_data_update}
use mizumi.Grid.Update.Lookup.{new_cell, last_value}
use mizumi.Grid.Values.{text}
use mizumi.Grid.Values.Process.{Tools}
use mizumi.Grid.Values.Patterns.{is_iso_date, is_domain}
use mizumi.Grid.Keyboard.Handler.{is_nil}
use mizumi.Grid.Keyboard.Clear.{key_at, empty_of}
use mizumi.Grid.Sample.{
  a, b, grid, origin, focused, row, data_rows, shown, shown_at, cell_b, cell_b-HasKey,
}
use mizumi.Grid.Paste.{
  Surroundings, Pasted, nothing_pasted, await_rows, with_cut, finish_paste, on_cells_paste,
}
use mizumi.Grid.Paste.Written.{IsTarget}
use mizumi.Grid.Paste.Outcome.{IsPaste, updates_of_text, updates-on_cells_paste}
use mizumi.Grid.Paste.Confirmed.{IsTooLong, IsConfirmed, whole, on_cells_paste-confirmed}
use mizumi.Grid.Paste.Dialog.{await_rows-ends}
use mizumi.Grid.Paste.Emptied.{new_cell-finish_paste}
use mizumi.Grid.Paste.Typed.{IsTyped, on_cells_paste-IsTyped}

abbrev tools : Tools
tools = record {
  to_lower_case = λ s. s;
  is_number = λ s. true;
  is_date = λ s. false;
  locale_date = λ s. s;
  parse_json = λ s. none;
  is_url = λ s. false;
}

iso_date_time : is_iso_date (codes "2024-05-06T07:08:09Z") ≡ true
unfolding is_iso_date
iso_date_time = refl

no_iso_date : is_iso_date (codes "2024-5-06") ≡ false
unfolding is_iso_date
no_iso_date = refl

domain_with_path : is_domain (codes "www.example.org/a?b=c") ≡ true
unfolding is_domain
domain_with_path = refl

no_domain : is_domain (codes "example") ≡ false
unfolding is_domain
no_domain = refl

-- Two rows and two columns.
abbrev copied : Text
copied = codes "1" ++ (9 ∷ codes "true") ++ (10 ∷ codes "2") ++ (9 ∷ codes "no")

abbrev world : (ℕ → ℕ) → Surroundings
world row_counts = record {
  clipboard_text = some copied;
  rows_added = true;
  row_counts = row_counts;
  accepted = true;
}

origin_column : index_of a grid.navigable_ids ≡ pos 0
unfolding index_of text_eq
origin_column = refl

two_rows : length (parse_tsv copied 2) ≡ 2
unfolding parse_tsv has_quotes starts_with includes parse_plain column_count split count_tabs
    rows_or_lines join_lines
two_rows = refl

fits : 0 + length (parse_tsv copied 2) ≤ 2
fits = omega (arith, two_rows)

copied-IsPaste : IsPaste grid tools (world (λ n. 2)) focused 0 0 a copied
unfolding initial_state
copied-IsPaste = record {
  editable = refl;
  focus = refl;
  no_dialog = refl;
  read = refl;
  filled = refl;
  column = origin_column;
  accepted = refl;
  room = inr fits;
}

updates-on_cells_paste_example :
    ((on_cells_paste grid tools (world (λ n. 2)) false focused).updates ≡ (
      if is_nil (updates_of_text grid tools (world (λ n. 2)) focused 0 0 a copied)
      then []
      else with_cut grid focused.cut_cells
          (updates_of_text grid tools (world (λ n. 2)) focused 0 0 a copied)))
    × All
        (IsTarget grid tools 0 2)
        (updates_of_text grid tools (world (λ n. 2)) focused 0 0 a copied)
updates-on_cells_paste_example =
    updates-on_cells_paste grid tools (world (λ n. 2)) focused 0 0 a copied copied-IsPaste

await_rows-ends_example :
    (m : ℕ) × (m ≤ 50)
    × (await_rows 50 (pos 3) (λ n. n) ≡ m)
    × ((k : ℕ) → k < m → pos k <ℤ pos 3)
    × ((pos 3 ≤ℤ pos m) ⊎ (m ≡ 50))
await_rows-ends_example = await_rows-ends 50 (pos 3) (λ n. n)

-- The focus is on the last row.
abbrev low : DataGridState
low = record focused { focused_cell = some (position (pos 1) a) }

over : 2 < 1 + length (parse_tsv copied 2)
over = omega (arith, two_rows)

enough : 1 + length (parse_tsv copied 2) ≤ 3
enough = omega (arith, two_rows)

too_long :
    IsTooLong grid tools
      (world (λ n. 2))
      low
      1
      0
      a
      b'1'
      (9 ∷ codes "true" ++ (10 ∷ codes "2") ++ (9 ∷ codes "no"))
unfolding initial_state
too_long = record {
  editable = refl;
  focus = refl;
  no_dialog = refl;
  read = refl;
  column = origin_column;
  adds = refl;
  over = over;
}

-- The new row is shown at the third reading.
abbrev later : Surroundings
later = world (λ n. if ltb n 2 then 2 else 3)

confirmed : IsConfirmed grid tools later (1 + length (parse_tsv copied 2))
confirmed = record { added = refl; accepted = refl; at = 2; in_time = omega arith; enough = enough }

on_cells_paste-confirmed_example :
    let t = (on_cells_paste grid tools (world (λ n. 2)) false low).state in
    let o = on_cells_paste grid tools later true t in
    let us =
      whole grid tools
        (world (λ n. 2))
        low
        1
        0
        a
        b'1'
        (9 ∷ codes "true" ++ (10 ∷ codes "2") ++ (9 ∷ codes "no"))
        too_long
        later
        confirmed in
    ((on_cells_paste grid tools (world (λ n. 2)) false low).updates ≡ [])
    × (t.paste_dialog.is_open ≡ true)
    × (o.updates ≡ (if is_nil us then [] else with_cut grid low.cut_cells us))
    × (o.state.paste_dialog ≡ closed_paste_dialog)
on_cells_paste-confirmed_example =
    on_cells_paste-confirmed grid tools (world (λ n. 2)) low 1 0 a b'1'
      (9 ∷ codes "true" ++ (10 ∷ codes "2") ++ (9 ∷ codes "no")) too_long later confirmed

-- The cell that was cut gets a pasted value.
abbrev over_cut : Pasted
over_cut = record (nothing_pasted (pos 0) (pos 0)) {
  updates = record { row_index = pos 1; column_id = b; value = text (codes "new") } ∷ [];
}

abbrev cut_b : DataGridState
cut_b = record focused { cut_cells = key_at cell_b ∷ [] }

new_cell-finish_paste_example :
    let o = finish_paste grid true origin over_cut cut_b in
    (new_cell (on_data_update false shown data_rows o.updates) 0 b
      ≡ some (
          if has cut_b.cut_cells (cell_key (pos 1) b)
          then empty_of grid b
          else last_value shown data_rows over_cut.updates (pos 0) b (text (codes "x"))))
    × (o.state.cut_cells ≡ [])
new_cell-finish_paste_example =
    new_cell-finish_paste grid origin over_cut cut_b
      (record { row_index = pos 1; column_id = b; value = text (codes "new") }) [] (cell_b ∷ [])
      shown data_rows 0 (pos 1) (row 7) b refl refl (cell_b-HasKey, tt) refl shown_at

on_cells_paste-IsTyped_example :
    All (IsTyped grid tools) (on_cells_paste grid tools (world (λ n. 2)) false focused).updates
on_cells_paste-IsTyped_example = on_cells_paste-IsTyped grid tools (world (λ n. 2)) false focused
