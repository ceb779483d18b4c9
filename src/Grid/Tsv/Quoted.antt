-- ===== src/Grid/Tsv/Quoted.antt =====
-- parseTsv of a text with quotes: it reads back what a spreadsheet prints.
use mizumi.Prelude.{
  ℕ, ◌≡◌, refl, sym, ap, ◌∙◌, ◌≢◌, inl, inr, Bool, true, false, ◌||◌, List, [], ◌∷◌, ◌++◌, map,
  append_assoc, append-nil, arith, ◌==◌, ==_iff, any, All, Bool-cases, if◌then◌else◌,
}
use mizumi.Text.{Text, newline, return, join}
use mizumi.Csv.{double_quotes}
use mizumi.Grid.Tsv.{
  tab, quote, Scanner, is_row, push_row, scan_char, scan_chars, scanned, parse_quoted, has_quotes,
  parse_tsv,
}

abbrev pub needs_quotes : ℕ → Bool
needs_quotes c = c == tab || c == newline || c == return || c == quote

-- A cell as a spreadsheet puts it on the clipboard: in quotes where it has to be.
unfoldable pub print_field : Text → Text
print_field f = if any needs_quotes f then quote ∷ (double_quotes f ++ quote ∷ []) else f

-- A row is its first cell and the others.
abbrev pub Cells : Type 0
Cells = Text × List Text

abbrev pub cells : Cells → List Text
cells (f, fs) = f ∷ fs

unfoldable pub print_row : Cells → Text
print_row r = join (tab ∷ []) (map print_field (cells r))

unfoldable pub print_rows : List Cells → Text
print_rows rows = join (newline ∷ []) (map print_row rows)

-- What may stand behind a cell.
data Follows : Text → Type 0 where
  at_end : Follows []
  at_tab : (s : Text) → Follows (tab ∷ s)
  at_newline : (s : Text) → Follows (newline ∷ s)

module _ (rows : List (List Text)) (row : List Text) where
  abbrev scanner : Text → Bool → Scanner
  scanner cur q = record { rows = rows; current_row = row; current_field = cur; in_quotes = q }

  scan_chars-plain :
      (cur : Text) (c : ℕ) (s : Text)
      → needs_quotes c ≡ false
      → scan_chars (scanner cur false) (c ∷ s) ≡ scan_chars (scanner (cur ++ c ∷ []) false) s
  unfolding scan_chars scan_char
  scan_chars-plain cur c [] h = ground arith
  scan_chars-plain cur c (n ∷ s) h = ground arith

  scan_chars-quoted :
      (cur : Text) (c : ℕ) (s : Text)
      → c ≢ quote
      → scan_chars (scanner cur true) (c ∷ s) ≡ scan_chars (scanner (cur ++ c ∷ []) true) s
  unfolding scan_chars scan_char
  scan_chars-quoted cur c [] h = ground arith
  scan_chars-quoted cur c (n ∷ s) h = ground arith

  scan_chars-pair :
      (cur s : Text)
      → scan_chars (scanner cur true) (quote ∷ quote ∷ s)
        ≡ scan_chars (scanner (cur ++ quote ∷ []) true) s
  unfolding scan_chars scan_char
  scan_chars-pair cur s = refl

  scan_chars-close :
      (cur s : Text)
      → Follows s
      → scan_chars (scanner cur true) (quote ∷ s) ≡ scan_chars (scanner cur false) s
  unfolding scan_chars scan_char
  scan_chars-close cur _ at_end = refl
  scan_chars-close cur _ (at_tab s) = refl
  scan_chars-close cur _ (at_newline s) = refl

  scan_chars-open :
      (s : Text) → scan_chars (scanner [] false) (quote ∷ s) ≡ scan_chars (scanner [] true) s
  unfolding scan_chars scan_char
  scan_chars-open [] = refl
  scan_chars-open (n ∷ s) = refl

  scan_chars-unquoted :
      (cur f s : Text)
      → any needs_quotes f ≡ false
      → scan_chars (scanner cur false) (f ++ s) ≡ scan_chars (scanner (cur ++ f) false) s
  scan_chars-unquoted cur [] s h = rw (append-nil cur)
  scan_chars-unquoted cur (c ∷ f) s h =
      scan_chars-plain cur c (f ++ s) (ground arith)
      ∙ scan_chars-unquoted (cur ++ c ∷ []) f s (ground arith)
      ∙ ap (λ t. scan_chars (scanner t false) s) (append_assoc cur (c ∷ []) f)

  scan_chars-double_quotes :
      (cur f s : Text)
      → Follows s
      → scan_chars (scanner cur true) (double_quotes f ++ quote ∷ s)
        ≡ scan_chars (scanner (cur ++ f) false) s
  unfolding double_quotes
  scan_chars-double_quotes cur [] s h = rw (append-nil cur) (scan_chars-close cur s h)
  scan_chars-double_quotes cur (c ∷ f) s h = elim (Bool-cases (c == quote)) [
    | inl e ↦
        rw (e, (==_iff c quote).0 e)
          (scan_chars-pair cur (double_quotes f ++ quote ∷ s)
            ∙ scan_chars-double_quotes (cur ++ quote ∷ []) f s h
            ∙ ap (λ t. scan_chars (scanner t false) s) (append_assoc cur (quote ∷ []) f))
    | inr e ↦ rw e (
        scan_chars-quoted cur c _ (λ k. cc (e, (==_iff c quote).1 k))
        ∙ scan_chars-double_quotes (cur ++ c ∷ []) f s h
        ∙ ap (λ t. scan_chars (scanner t false) s) (append_assoc cur (c ∷ []) f))
  ]

  scan_chars-print_field :
      (f s : Text)
      → Follows s
      → scan_chars (scanner [] false) (print_field f ++ s) ≡ scan_chars (scanner f false) s
  unfolding print_field
  scan_chars-print_field f s h = elim (Bool-cases (any needs_quotes f)) [
    | inl e ↦
        rw (e, append_assoc (double_quotes f) (quote ∷ []) s)
          (scan_chars-open (double_quotes f ++ quote ∷ s) ∙ scan_chars-double_quotes [] f s h)
    | inr e ↦ rw e (scan_chars-unquoted [] f s e)
  ]

  scan_chars_nil : (cur : Text) → scan_chars (scanner cur false) [] ≡ scanner cur false
  unfolding scan_chars
  scan_chars_nil cur = refl

scan_chars-tab :
    (rows : List (List Text)) (row : List Text) (f s : Text)
    → scan_chars (scanner rows row f false) (tab ∷ s)
      ≡ scan_chars (scanner rows (row ++ f ∷ []) [] false) s
unfolding scan_chars scan_char
scan_chars-tab rows row f [] = refl
scan_chars-tab rows row f (n ∷ s) = refl

scan_chars-newline :
    (rows : List (List Text)) (row : List Text) (f s : Text)
    → scan_chars (scanner rows row f false) (newline ∷ s)
      ≡ scan_chars (scanner (push_row rows (row ++ f ∷ [])) [] [] false) s
unfolding scan_chars scan_char
scan_chars-newline rows row f [] = refl
scan_chars-newline rows row f (n ∷ s) = refl

-- The last row of the text.
scanned-print_row :
    (rows : List (List Text)) (row : List Text) (f : Text) (fs : List Text)
    → scanned (scan_chars (scanner rows row [] false) (print_row (f, fs)))
      ≡ push_row rows (row ++ f ∷ fs)
unfolding print_row join
scanned-print_row rows row f [] =
    ap (λ t. scanned (scan_chars (scanner rows row [] false) t)) (sym (append-nil (print_field f)))
    ∙ ap scanned (scan_chars-print_field rows row f [] at_end ∙ scan_chars_nil rows row f)
scanned-print_row rows row f (g ∷ fs) =
    ap scanned (scan_chars-print_field rows row f _ (at_tab _) ∙ scan_chars-tab rows row f _)
    ∙ scanned-print_row rows (row ++ f ∷ []) g fs
    ∙ ap (push_row rows) (append_assoc row (f ∷ []) (g ∷ fs))

-- A row before another one.
scan_chars-print_row :
    (rows : List (List Text)) (row : List Text) (f : Text) (fs : List Text) (s : Text)
    → scan_chars (scanner rows row [] false) (print_row (f, fs) ++ (newline ∷ s))
      ≡ scan_chars (scanner (push_row rows (row ++ f ∷ fs)) [] [] false) s
unfolding print_row join
scan_chars-print_row rows row f [] s =
    scan_chars-print_field rows row f _ (at_newline s) ∙ scan_chars-newline rows row f s
scan_chars-print_row rows row f (g ∷ fs) s =
    ap (scan_chars (scanner rows row [] false))
      (append_assoc (print_field f) (tab ∷ print_row (g, fs)) (newline ∷ s))
    ∙ scan_chars-print_field rows row f _ (at_tab _)
    ∙ scan_chars-tab rows row f _
    ∙ scan_chars-print_row rows (row ++ f ∷ []) g fs s
    ∙ ap (λ r. scan_chars (scanner (push_row rows r) [] [] false) s)
        (append_assoc row (f ∷ []) (g ∷ fs))

push_row_of_is_row :
    (rows : List (List Text)) (row : List Text)
    → is_row row ≡ true
    → push_row rows row ≡ rows ++ row ∷ []
unfolding push_row
push_row_of_is_row rows row h = rw h

-- A row that is more than one empty cell.
abbrev pub IsKept : Cells → Type 0
IsKept r = is_row (cells r) ≡ true

scanned-print_rows :
    (rows : List (List Text)) (r : Cells) (rs : List Cells)
    → All IsKept (r ∷ rs)
    → scanned (scan_chars (scanner rows [] [] false) (print_rows (r ∷ rs)))
      ≡ rows ++ map cells (r ∷ rs)
unfolding print_rows join
scanned-print_rows rows (f, fs) [] (h, _) =
    scanned-print_row rows [] f fs ∙ push_row_of_is_row rows (f ∷ fs) h
scanned-print_rows rows (f, fs) (r ∷ rs) (h, hs) =
    ap scanned (
      scan_chars-print_row rows [] f fs _
      ∙ ap (λ t. scan_chars (scanner t [] [] false) (print_rows (r ∷ rs)))
          (push_row_of_is_row rows (f ∷ fs) h))
    ∙ scanned-print_rows (rows ++ (f ∷ fs) ∷ []) r rs hs
    ∙ append_assoc rows ((f ∷ fs) ∷ []) (map cells (r ∷ rs))

parse_quoted_lem :
    (text : Text) → parse_quoted text ≡ scanned (scan_chars (scanner [] [] [] false) text)
unfolding parse_quoted
parse_quoted_lem text = refl

-- Rows that a spreadsheet prints, a cell in quotes where it holds a tab, a line break or a quote,
-- are read back cell by cell, if no row is a single empty cell and the printed text begins with a
-- quote or has one behind a tab.
pub parse_tsv-print_rows :
    (r : Cells) (rs : List Cells) (fallback : ℕ)
    → All IsKept (r ∷ rs)
    → has_quotes (print_rows (r ∷ rs)) ≡ true
    → parse_tsv (print_rows (r ∷ rs)) fallback ≡ map cells (r ∷ rs)
unfolding parse_tsv
parse_tsv-print_rows r rs fallback h q =
    rw q (parse_quoted_lem (print_rows (r ∷ rs)) ∙ scanned-print_rows [] r rs h)
