-- ===== src/Grid/Tsv/Plain.antt =====
-- parseTsv of a text without quotes: a rectangle of cells is read back.
use mizumi.Prelude.{
  ℕ, suc, ◌+◌, ◌-◌, ◌<◌, ◌≡◌, refl, sym, ap, ap₂, ◌∙◌, ◌≢◌, false, List, [], ◌∷◌, ◌++◌, map,
  append_assoc, append-nil, arith, ◌==◌, ==_iff, ltb, length, All, All-append, if◌then◌else◌,
}
use mizumi.Text.{Text, newline, join, split}
use mizumi.Text.Laws.{Lacks, split-join}
use mizumi.Grid.Tsv.{
  tab, Joiner, join_line, join_lines, count_tabs, max_tab_count, column_count, parse_plain,
  parse_lines, has_quotes, parse_tsv, rows_or_lines,
}
use mizumi.Grid.Tsv.Quoted.{Cells, cells}

-- The cells of a row with tabs between them, and the rows with newlines between them.
abbrev pub join_row : Cells → Text
join_row r = join (tab ∷ []) (cells r)

abbrev pub join_rows : List Cells → Text
join_rows rows = join (newline ∷ []) (map join_row rows)

-- `n` tabs in the row, and no tab or newline within a cell.
abbrev pub IsPlainRow : ℕ → Cells → Type 0
IsPlainRow n r = (length r.1 ≡ n) × All (Lacks tab) (cells r) × All (Lacks newline) (cells r)

count_tabs-append : (f s : Text) → Lacks tab f → count_tabs (f ++ s) ≡ count_tabs s
unfolding count_tabs
count_tabs-append [] s h = refl
count_tabs-append (c ∷ f) s (h, hs) = ground (arith, count_tabs-append f s hs)

count_tabs-Lacks : (f : Text) → Lacks tab f → count_tabs f ≡ 0
unfolding count_tabs
count_tabs-Lacks [] h = refl
count_tabs-Lacks (c ∷ f) (h, hs) = ground (arith, count_tabs-Lacks f hs)

count_tabs-tab : (s : Text) → count_tabs (tab ∷ s) ≡ suc (count_tabs s)
unfolding count_tabs
count_tabs-tab s = refl

count_tabs-join :
    (f : Text) (fs : List Text)
    → All (Lacks tab) (f ∷ fs)
    → count_tabs (join (tab ∷ []) (f ∷ fs)) ≡ length fs
unfolding join
count_tabs-join f [] (h, _) = count_tabs-Lacks f h
count_tabs-join f (g ∷ fs) (h, hs) =
    count_tabs-append f _ h ∙ count_tabs-tab _ ∙ ap suc (count_tabs-join g fs hs)

join-Lacks :
    (f : Text) (fs : List Text)
    → All (Lacks newline) (f ∷ fs)
    → Lacks newline (join (tab ∷ []) (f ∷ fs))
unfolding join
join-Lacks f [] (h, _) = h
join-Lacks f (g ∷ fs) (h, hs) =
    All-append (λ c. c ≢ newline) f _ h (omega arith, join-Lacks g fs hs)

-- Each line has `n` tabs.
abbrev HasTabs : ℕ → List Text → Type 0
HasTabs n = All (λ line. count_tabs line ≡ n)

max_tab_count-HasTabs : (n : ℕ) (lines : List Text) → HasTabs n lines → max_tab_count n lines ≡ n
unfolding max_tab_count
max_tab_count-HasTabs n [] h = refl
max_tab_count-HasTabs n (line ∷ lines) (h, hs) =
    let e : (if ltb n (count_tabs line) then count_tabs line else n) ≡ n = ground arith in
    ap (λ m. max_tab_count m lines) e ∙ max_tab_count-HasTabs n lines hs

max_tab_count_first :
    (n : ℕ) (line : Text) (lines : List Text)
    → HasTabs n (line ∷ lines)
    → max_tab_count 0 (line ∷ lines) ≡ n
unfolding max_tab_count
max_tab_count_first n line lines (h, hs) =
    let e : (if ltb 0 (count_tabs line) then count_tabs line else 0) ≡ n = ground arith in
    ap (λ m. max_tab_count m lines) e ∙ max_tab_count-HasTabs n lines hs

column_count-HasTabs :
    (n : ℕ) (line : Text) (lines : List Text) (fallback : ℕ)
    → 0 < n
    → HasTabs n (line ∷ lines)
    → column_count (line ∷ lines) fallback ≡ n + 1
unfolding column_count
column_count-HasTabs n line lines fallback p h = ground (arith, max_tab_count_first n line lines h)

abbrev joiner : List (List Text) → Joiner
joiner rows = record { rows = rows; buf = []; buf_tab_count = 0 }

join_line-HasTabs :
    (n : ℕ) (rows : List (List Text)) (line : Text)
    → count_tabs line ≡ n
    → join_line n (joiner rows) line ≡ joiner (rows ++ split tab line ∷ [])
unfolding join_line
join_line-HasTabs n rows line h = rw ((==_iff (count_tabs line) n).1 h)

join_lines-HasTabs :
    (n : ℕ) (rows : List (List Text)) (lines : List Text)
    → HasTabs n lines
    → join_lines n (joiner rows) lines ≡ rows ++ map (split tab) lines
unfolding join_lines
join_lines-HasTabs n rows [] h = sym (append-nil rows)
join_lines-HasTabs n rows (line ∷ lines) (h, hs) =
    ap (λ s. join_lines n s lines) (join_line-HasTabs n rows line h)
    ∙ join_lines-HasTabs n (rows ++ split tab line ∷ []) lines hs
    ∙ append_assoc rows (split tab line ∷ []) (map (split tab) lines)

module _ (n : ℕ) where
  HasTabs-join_row : (rows : List Cells) → All (IsPlainRow n) rows → HasTabs n (map join_row rows)
  HasTabs-join_row [] h = tt
  HasTabs-join_row ((f, fs) ∷ rows) ((width, tabs, _), h) =
      (count_tabs-join f fs tabs ∙ width, HasTabs-join_row rows h)

  Lacks-join_row :
      (rows : List Cells) → All (IsPlainRow n) rows → All (Lacks newline) (map join_row rows)
  Lacks-join_row [] h = tt
  Lacks-join_row ((f, fs) ∷ rows) ((_, _, lines), h) =
      (join-Lacks f fs lines, Lacks-join_row rows h)

  split-join_row :
      (rows : List Cells)
      → All (IsPlainRow n) rows
      → map (split tab) (map join_row rows) ≡ map cells rows
  split-join_row [] h = refl
  split-join_row ((f, fs) ∷ rows) ((_, tabs, _), h) =
      ap₂ ◌∷◌ (split-join tab f fs tabs) (split-join_row rows h)

  parse_lines-join_row :
      (r : Cells) (rs : List Cells) (fallback : ℕ)
      → 0 < n
      → All (IsPlainRow n) (r ∷ rs)
      → parse_lines (map join_row (r ∷ rs)) fallback ≡ map cells (r ∷ rs)
  unfolding parse_lines
  parse_lines-join_row r rs fallback p h =
      let tabs = HasTabs-join_row (r ∷ rs) h in
      let count = column_count-HasTabs n (join_row r) (map join_row rs) fallback p tabs in
      let nonzero : (n + 1 == 0) ≡ false = ground arith in
      let expected : n + 1 - 1 ≡ n = omega arith in
      rw
        (
          count,
          nonzero,
          expected,
          join_lines-HasTabs n [] (map join_row (r ∷ rs)) tabs,
          split-join_row (r ∷ rs) h,
        )
        (unfold rows_or_lines in refl)

  parse_plain-join_rows :
      (r : Cells) (rs : List Cells) (fallback : ℕ)
      → 0 < n
      → All (IsPlainRow n) (r ∷ rs)
      → parse_plain (join_rows (r ∷ rs)) fallback ≡ map cells (r ∷ rs)
  unfolding parse_plain
  parse_plain-join_rows r rs fallback p h =
      ap (λ lines. parse_lines lines fallback)
        (split-join newline (join_row r) (map join_row rs) (Lacks-join_row (r ∷ rs) h))
      ∙ parse_lines-join_row r rs fallback p h

  -- A rectangle of two or more columns is read back cell by cell, empty cells included, if no cell
  -- holds a tab or a newline and the text neither begins with a quote nor has one behind a tab.
  pub parse_tsv-join_rows :
      (r : Cells) (rs : List Cells) (fallback : ℕ)
      → 0 < n
      → All (IsPlainRow n) (r ∷ rs)
      → has_quotes (join_rows (r ∷ rs)) ≡ false
      → parse_tsv (join_rows (r ∷ rs)) fallback ≡ map cells (r ∷ rs)
  unfolding parse_tsv
  parse_tsv-join_rows r rs fallback p h q = rw q (parse_plain-join_rows r rs fallback p h)
