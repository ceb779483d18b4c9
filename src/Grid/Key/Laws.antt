-- ===== src/Grid/Key/Laws.antt =====
-- A cell key determines its cell, and parseCellKey reads it back.
use mizumi.Prelude.{
  ℕ, suc, ◌≡◌, refl, sym, ap, ap₂, ◌∙◌, ◌&&◌, ◌==ℤ◌, ==ℤ_iff, ◌≢◌, List, [], ◌∷◌, ◌++◌, none, some,
  ℤ, pos, negsuc, arith,
}
use mizumi.Text.{Text, text_eq, join, split}
use mizumi.Text.Laws.{Lacks, text_eq_iff, split_from-append, split_from_sep, split-join}
use mizumi.Text.Decimal.{show_ℕ, show_ℤ, parse_int, read_signed}
use mizumi.Text.Trim.{trim_start}
use mizumi.Text.Decimal.RoundTrip.{IsDigits, show_ℕ-IsNumber, parse_int-show_ℤ, IsNumber}
use mizumi.Grid.Key.{position, colon, cell_key, position_or, parse_parts, parse_cell_key}

IsDigits-Lacks : (s : Text) → IsDigits s → Lacks colon s
IsDigits-Lacks [] h = tt
IsDigits-Lacks (c ∷ s) ((h, k), hs) = (omega arith, IsDigits-Lacks s hs)

IsNumber-Lacks : (s : Text) → IsNumber s → Lacks colon s
IsNumber-Lacks [] h = absurd h
IsNumber-Lacks (c ∷ s) h = IsDigits-Lacks (c ∷ s) h

show_ℤ-Lacks : (z : ℤ) → Lacks colon (show_ℤ z)
unfolding show_ℤ
show_ℤ-Lacks (pos n) = IsNumber-Lacks (show_ℕ n) (show_ℕ-IsNumber n)
show_ℤ-Lacks (negsuc n) = (omega arith, IsNumber-Lacks (show_ℕ (suc n)) (show_ℕ-IsNumber (suc n)))

parse_parts_of_ne :
    (row column : Text) (rest : List Text)
    → row ≢ []
    → column ≢ []
    → parse_parts (row ∷ column ∷ rest) ≡ position_or (parse_int row) column
unfolding parse_parts
parse_parts_of_ne [] column rest h k = absurd (h refl)
parse_parts_of_ne (c ∷ s) [] rest h k = absurd (k refl)
parse_parts_of_ne (c ∷ s) (d ∷ t) rest h k = refl

parse_int_nil : parse_int [] ≡ none
unfolding parse_int trim_start read_signed
parse_int_nil = refl

show_ℤ-ne-nil : (z : ℤ) → show_ℤ z ≢ []
show_ℤ-ne-nil z e = cc (parse_int-show_ℤ z, ap parse_int e, parse_int_nil)

split-cell_key :
    (row : ℤ) (column : Text)
    → Lacks colon column
    → split colon (cell_key row column) ≡ show_ℤ row ∷ column ∷ []
unfolding split cell_key join
split-cell_key row column h =
    split_from-append colon [] (show_ℤ row) (colon ∷ column) (show_ℤ-Lacks row)
    ∙ split_from_sep colon (show_ℤ row) column
    ∙ ap (show_ℤ row ∷◌) (split-join colon column [] (h, tt))

-- parseCellKey gives back the position of every key of a column whose id is not empty and holds
-- no colon.
pub parse_cell_key-cell_key :
    (row : ℤ) (column : Text)
    → column ≢ []
    → Lacks colon column
    → parse_cell_key (cell_key row column) ≡ position row column
unfolding parse_cell_key
parse_cell_key-cell_key row column ne h =
    ap parse_parts (split-cell_key row column h)
    ∙ parse_parts_of_ne (show_ℤ row) column [] (show_ℤ-ne-nil row) ne
    ∙ ap (λ r. position_or r column) (parse_int-show_ℤ row)

append_sep_inj :
    (sep : ℕ) (a b s t : Text)
    → Lacks sep a
    → Lacks sep b
    → a ++ (sep ∷ s) ≡ b ++ (sep ∷ t)
    → (a ≡ b) × (s ≡ t)
append_sep_inj sep [] [] s t ha hb e = (refl, cc)
append_sep_inj sep [] (d ∷ b) s t ha (hd, hb) e = absurd (hd (cc))
append_sep_inj sep (c ∷ a) [] s t (hc, ha) hb e = absurd (hc (cc))
append_sep_inj sep (c ∷ a) (d ∷ b) s t (hc, ha) (hd, hb) e =
    let (p, q) = append_sep_inj sep a b s t ha hb (cc) in (cc, q)

-- Two cells have one key only if they are one cell, whatever the ids of their columns.
pub cell_key_inj :
    (row row' : ℤ) (column column' : Text)
    → cell_key row column ≡ cell_key row' column'
    → (row ≡ row') × (column ≡ column')
unfolding cell_key
cell_key_inj row row' column column' e =
    let (p, q) =
      append_sep_inj colon (show_ℤ row) (show_ℤ row') column column' (show_ℤ-Lacks row)
        (show_ℤ-Lacks row') e in
    let r : some row ≡ some row' =
      sym (parse_int-show_ℤ row) ∙ ap parse_int p ∙ parse_int-show_ℤ row' in
    (cc, q)

pub text_eq-cell_key :
    (row row' : ℤ) (column column' : Text)
    → text_eq (cell_key row column) (cell_key row' column')
      ≡ (row ==ℤ row' && text_eq column column')
text_eq-cell_key row row' column column' = ground (
  arith,
  ==ℤ_iff row row',
  text_eq_iff column column',
  text_eq_iff (cell_key row column) (cell_key row' column'),
  split_key,
  join_key,
)
  where
    split_key : cell_key row column ≡ cell_key row' column' → (row ≡ row') × (column ≡ column')
    split_key = cell_key_inj row row' column column'

    join_key : row ≡ row' → column ≡ column' → cell_key row column ≡ cell_key row' column'
    join_key e f = ap₂ cell_key e f
