-- ===== src/Csv/File/RoundTrip.antt =====
-- readCsvRows of a file that streamCsvRows printed.
use mizumi.Prelude.{
  ℕ, ◌≡◌, refl, ap, ap₂, ◌∙◌, sym, ◌≢◌, true, false, inl, inr, List, [], ◌∷◌, ◌++◌, map,
  append_assoc, append-nil, arith, Bool-cases, All, All-append, any,
}
use mizumi.Text.{Text, newline, return, join}
use mizumi.Text.Trim.{is_space, trim_start, cons_trimmed, trim_end, trim}
use mizumi.Text.Laws.{Lacks}
use mizumi.Csv.{is_special, double_quotes, escape_csv, csv_line_to_values, csv_row}
use mizumi.Csv.RoundTrip.{csv_line_to_values-csv_row}
use mizumi.Csv.File.{
  split_lines, to_row, found, read_lines, read_csv_rows, csv_lines, stream_csv_rows,
}

abbrev pub IsOneLine : Text → Type 0
IsOneLine f = Lacks newline f × Lacks return f

split_lines-char :
    (cur : Text) (c : ℕ) (s : Text)
    → c ≢ newline
    → c ≢ return
    → split_lines cur (c ∷ s) ≡ split_lines (cur ++ c ∷ []) s
unfolding split_lines
split_lines-char cur c [] h k = ground arith
split_lines-char cur c (n ∷ s) h k = ground arith

split_lines-append :
    (cur f s : Text) → IsOneLine f → split_lines cur (f ++ s) ≡ split_lines (cur ++ f) s
split_lines-append cur [] s h = rw (append-nil cur)
split_lines-append cur (c ∷ f) s ((h, hs), (k, ks)) =
    split_lines-char cur c (f ++ s) h k
    ∙ split_lines-append (cur ++ c ∷ []) f s (hs, ks)
    ∙ ap (λ t. split_lines t s) (append_assoc cur (c ∷ []) f)

split_lines-newline : (cur s : Text) → split_lines cur (newline ∷ s) ≡ cur ∷ split_lines [] s
unfolding split_lines
split_lines-newline cur [] = refl
split_lines-newline cur (n ∷ s) = refl

split_lines_nil : (cur : Text) → split_lines cur [] ≡ cur ∷ []
unfolding split_lines
split_lines_nil cur = refl

split_lines-join :
    (f : Text) (fs : List Text)
    → All IsOneLine (f ∷ fs)
    → split_lines [] (join (newline ∷ []) (f ∷ fs)) ≡ f ∷ fs
unfolding join
split_lines-join f [] (h, _) =
    ap (split_lines []) (sym (append-nil f)) ∙ split_lines-append [] f [] h ∙ split_lines_nil f
split_lines-join f (g ∷ fs) (h, hs) =
    split_lines-append [] f _ h ∙ split_lines-newline f _ ∙ ap (f ∷◌) (split_lines-join g fs hs)

-- The text begins, or ends, with a code unit that `trim` keeps.
abbrev pub StartsInk : Text → Type 0
StartsInk [] = ⊥
StartsInk (c ∷ s) = is_space c ≡ false

abbrev pub EndsInk : Text → Type 0
EndsInk [] = ⊥
EndsInk (c ∷ []) = is_space c ≡ false
EndsInk (c ∷ d ∷ s) = EndsInk (d ∷ s)

trim_start-StartsInk : (s : Text) → StartsInk s → (t : Text) → trim_start (s ++ t) ≡ s ++ t
unfolding trim_start
trim_start-StartsInk [] h t = absurd h
trim_start-StartsInk (c ∷ s) h t = rw h

newline_space : is_space newline ≡ true
unfolding is_space
newline_space = refl

trim_end-newline : (s : Text) → EndsInk s → trim_end (s ++ newline ∷ []) ≡ s
unfolding trim_end
trim_end-newline [] h = absurd h
trim_end-newline (c ∷ []) h = rw (newline_space, h)
trim_end-newline (c ∷ d ∷ s) h = ap (cons_trimmed c) (trim_end-newline (d ∷ s) h)

trim-newline : (s : Text) → StartsInk s → EndsInk s → trim (s ++ newline ∷ []) ≡ s
unfolding trim
trim-newline s h k = ap trim_end (trim_start-StartsInk s h (newline ∷ [])) ∙ trim_end-newline s k

csv_lines-join :
    (line : Text) (lines : List Text)
    → csv_lines (line ∷ lines) ≡ join (newline ∷ []) (line ∷ lines) ++ newline ∷ []
unfolding csv_lines join
csv_lines-join line [] = refl
csv_lines-join line (next ∷ lines) =
    ap (λ t. line ++ (newline ∷ t)) (csv_lines-join next lines)
    ∙ sym (append_assoc line (newline ∷ join (newline ∷ []) (next ∷ lines)) (newline ∷ []))

-- Printing adds quotes and commas only.
module _ (sep : ℕ) (no_quote : b'"' ≢ sep) (no_comma : b',' ≢ sep) where
  double_quotes-Lacks : (s : Text) → Lacks sep s → Lacks sep (double_quotes s)
  unfolding double_quotes
  double_quotes-Lacks [] h = tt
  double_quotes-Lacks (c ∷ s) (h, hs) = ground (arith, double_quotes-Lacks s hs)

  escape_csv-Lacks : (f : Text) → Lacks sep f → Lacks sep (escape_csv f)
  unfolding escape_csv
  escape_csv-Lacks f h = elim (Bool-cases (any is_special f)) [
    | inl e ↦ rw e (
      no_quote,
      All-append (λ c. c ≢ sep) (double_quotes f) (b'"' ∷ []) (double_quotes-Lacks f h)
          (no_quote, tt),
    )
    | inr e ↦ rw e h
  ]

  csv_row-Lacks : (fs : List Text) → All (Lacks sep) fs → Lacks sep (csv_row fs)
  unfolding csv_row join
  csv_row-Lacks [] h = tt
  csv_row-Lacks (f ∷ []) (h, _) = escape_csv-Lacks f h
  csv_row-Lacks (f ∷ g ∷ fs) (h, hs) =
      All-append (λ c. c ≢ sep) (escape_csv f) _ (escape_csv-Lacks f h)
        (no_comma, csv_row-Lacks (g ∷ fs) hs)

-- A header that streamCsvRows may print as it is.
abbrev pub IsPlain : Text → Type 0
IsPlain h = (any is_special h ≡ false) × Lacks return h

Lacks-newline : (h : Text) → any is_special h ≡ false → Lacks newline h
Lacks-newline [] e = tt
Lacks-newline (c ∷ h) e = (ground arith, Lacks-newline h (ground arith))

join-IsPlain : (hs : List Text) → All IsPlain hs → join (b',' ∷ []) hs ≡ csv_row hs
unfolding join csv_row escape_csv
join-IsPlain [] h = refl
join-IsPlain (f ∷ []) ((p, _), _) = rw p
join-IsPlain (f ∷ g ∷ fs) ((p, _), hs) = rw p (ap (λ t. f ++ (b',' ∷ t)) (join-IsPlain (g ∷ fs) hs))

csv_row-IsOneLine :
    (fs : List Text) → All (Lacks newline) fs → All (Lacks return) fs → IsOneLine (csv_row fs)
csv_row-IsOneLine fs h k = (
  csv_row-Lacks newline (omega arith) (omega arith) fs h,
  csv_row-Lacks return (omega arith) (omega arith) fs k,
)

-- A row is a first field and the others, so that it holds at least one.
abbrev pub Fields : Type 0
Fields = Text × List Text

abbrev pub fields : Fields → List Text
fields (f, fs) = f ∷ fs

abbrev pub IsPrintable : Fields → Type 0
IsPrintable r = All (Lacks newline) (fields r) × All (Lacks return) (fields r)

map-csv_row-IsOneLine :
    (rs : List Fields) → All IsPrintable rs → All IsOneLine (map csv_row (map fields rs))
map-csv_row-IsOneLine [] h = tt
map-csv_row-IsOneLine ((f, fs) ∷ rs) ((h, k), hs) =
    (csv_row-IsOneLine (f ∷ fs) h k, map-csv_row-IsOneLine rs hs)

map-to_row-csv_row :
    (headers : List Text) (rs : List Fields)
    → map (λ l. to_row headers (csv_line_to_values l)) (map csv_row (map fields rs))
      ≡ map (to_row headers) (map fields rs)
map-to_row-csv_row headers [] = refl
map-to_row-csv_row headers ((f, fs) ∷ rs) =
    ap₂ ◌∷◌ (ap (to_row headers) (csv_line_to_values-csv_row f fs)) (map-to_row-csv_row headers rs)

read_lines_printed :
    (h : Text) (hs : List Text) (r : Fields) (rs : List Fields)
    → csv_row (h ∷ hs) ≢ []
    → read_lines (csv_row (h ∷ hs) ∷ map csv_row (map fields (r ∷ rs)))
      ≡ found (map (to_row (h ∷ hs)) (map fields (r ∷ rs)))
unfolding read_lines
read_lines_printed h hs r rs ne = go (csv_row (h ∷ hs)) refl
  where
    go :
        (line : Text)
        → csv_row (h ∷ hs) ≡ line
        → read_lines (line ∷ map csv_row (map fields (r ∷ rs)))
          ≡ found (map (to_row (h ∷ hs)) (map fields (r ∷ rs)))
    go [] e = absurd (ne e)
    go (c ∷ s) e =
        ap
          (λ t.
            found (map (λ l. to_row t (csv_line_to_values l)) (map csv_row (map fields (r ∷ rs)))))
          (ap csv_line_to_values (sym e) ∙ csv_line_to_values-csv_row h hs)
        ∙ ap found (map-to_row-csv_row (h ∷ hs) (r ∷ rs))

StartsInk-ne-nil : (s t : Text) → StartsInk (s ++ (newline ∷ t)) → s ≢ []
StartsInk-ne-nil [] t h = absurd (cc newline_space)
StartsInk-ne-nil (c ∷ s) t h = cc

-- The printed lines, without the newline at the very end.
abbrev pub body : List Text → List (List Text) → Text
body headers rows = join (newline ∷ []) (csv_row headers ∷ map csv_row rows)

headers-IsOneLine : (hs : List Text) → All IsPlain hs → IsOneLine (csv_row hs)
headers-IsOneLine hs h = csv_row-IsOneLine hs (newlines hs h) (returns hs h)
  where
    newlines : (hs : List Text) → All IsPlain hs → All (Lacks newline) hs
    newlines [] h = tt
    newlines (f ∷ fs) ((p, _), h) = (Lacks-newline f p, newlines fs h)

    returns : (hs : List Text) → All IsPlain hs → All (Lacks return) hs
    returns [] h = tt
    returns (f ∷ fs) ((_, k), h) = (k, returns fs h)

csv_row-ne-nil :
    (hs r : List Text) (rs : List (List Text)) → StartsInk (body hs (r ∷ rs)) → csv_row hs ≢ []
unfolding join
csv_row-ne-nil hs r rs h = StartsInk-ne-nil (csv_row hs) _ h

module _ (h : Text) (hs : List Text) (r : Fields) (rs : List Fields) where
  -- A file that streamCsvRows prints is read back by readCsvRows as one object for each row, which
  -- holds the row's fields under the headers: if there is a header, which needs no quotes, and a
  -- row, each row has a field, no field holds a newline or a carriage return, and the printed text
  -- neither begins nor, before its last newline, ends with white space.
  pub read_csv_rows-stream_csv_rows :
      All IsPlain (h ∷ hs)
      → All IsPrintable (r ∷ rs)
      → StartsInk (body (h ∷ hs) (map fields (r ∷ rs)))
      → EndsInk (body (h ∷ hs) (map fields (r ∷ rs)))
      → read_csv_rows (stream_csv_rows (h ∷ hs) (map fields (r ∷ rs)))
        ≡ found (map (to_row (h ∷ hs)) (map fields (r ∷ rs)))
  unfolding read_csv_rows stream_csv_rows
  read_csv_rows-stream_csv_rows plain printable start end =
      ap (λ t. read_csv_rows (csv_lines (t ∷ map csv_row (map fields (r ∷ rs)))))
        (join-IsPlain (h ∷ hs) plain)
      ∙ ap (λ t. read_lines (split_lines [] (trim t)))
          (csv_lines-join (csv_row (h ∷ hs)) (map csv_row (map fields (r ∷ rs))))
      ∙ ap (λ t. read_lines (split_lines [] t)) (trim-newline _ start end)
      ∙ ap read_lines (
          split_lines-join (csv_row (h ∷ hs)) (map csv_row (map fields (r ∷ rs)))
            (headers-IsOneLine (h ∷ hs) plain, map-csv_row-IsOneLine (r ∷ rs) printable))
      ∙ read_lines_printed h hs r rs (csv_row-ne-nil (h ∷ hs) (fields r) (map fields rs) start)
