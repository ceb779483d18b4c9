-- ===== src/Csv/RoundTrip.antt =====
-- Reading a printed row back: csvLineToValues after escapeCsv and join.
use mizumi.Prelude.{
  ℕ, ◌≡◌, refl, ap, ◌∙◌, sym, ◌≢◌, Bool, true, false, inl, inr, List, [], ◌∷◌, ◌++◌, append_assoc,
  append-nil, arith, ◌==◌, ==_iff, Bool-cases, any,
}
use mizumi.Text.{Text, join}
use mizumi.Csv.{
  is_special, double_quotes, escape_csv, Reader, read_char, read_chars, values_of,
  csv_line_to_values, csv_row,
}

abbrev reader : List Text → Text → Bool → Reader
reader vs cur q = record { values = vs; current = cur; in_quotes = q }

-- Inside quotes a code unit that is no quote is taken as it is; so is one that is not special
-- outside of them.
read_chars-plain :
    (vs : List Text) (cur : Text) (c : ℕ) (s : Text)
    → is_special c ≡ false
    → read_chars (reader vs cur false) (c ∷ s) ≡ read_chars (reader vs (cur ++ c ∷ []) false) s
unfolding read_chars read_char
read_chars-plain vs cur c [] h = ground arith
read_chars-plain vs cur c (n ∷ s) h = ground arith

read_chars-quoted :
    (vs : List Text) (cur : Text) (c : ℕ) (s : Text)
    → c ≢ b'"'
    → read_chars (reader vs cur true) (c ∷ s) ≡ read_chars (reader vs (cur ++ c ∷ []) true) s
unfolding read_chars read_char
read_chars-quoted vs cur c [] h = ground arith
read_chars-quoted vs cur c (n ∷ s) h = ground arith

-- What may stand behind a field: nothing, or a comma.
data Follows : Text → Type 0 where
  end : Follows []
  comma : (s : Text) → Follows (b',' ∷ s)

read_chars-unquoted :
    (vs : List Text) (cur f s : Text)
    → any is_special f ≡ false
    → read_chars (reader vs cur false) (f ++ s) ≡ read_chars (reader vs (cur ++ f) false) s
read_chars-unquoted vs cur [] s h = rw (append-nil cur)
read_chars-unquoted vs cur (c ∷ f) s h =
    read_chars-plain vs cur c (f ++ s) (ground arith)
    ∙ read_chars-unquoted vs (cur ++ c ∷ []) f s (ground arith)
    ∙ ap (λ t. read_chars (reader vs t false) s) (append_assoc cur (c ∷ []) f)

read_chars-close :
    (vs : List Text) (cur s : Text)
    → Follows s
    → read_chars (reader vs cur true) (b'"' ∷ s) ≡ read_chars (reader vs cur false) s
unfolding read_chars read_char
read_chars-close vs cur [] end = refl
read_chars-close vs cur (_ ∷ s) (comma _) = refl

read_chars-pair :
    (vs : List Text) (cur s : Text)
    → read_chars (reader vs cur true) (b'"' ∷ b'"' ∷ s)
      ≡ read_chars (reader vs (cur ++ b'"' ∷ []) true) s
unfolding read_chars read_char
read_chars-pair vs cur s = refl

module _ (vs : List Text) where
  read_chars-double_quotes :
      (cur f s : Text)
      → Follows s
      → read_chars (reader vs cur true) (double_quotes f ++ b'"' ∷ s)
        ≡ read_chars (reader vs (cur ++ f) false) s
  unfolding double_quotes
  read_chars-double_quotes cur [] s h = rw (append-nil cur) (read_chars-close vs cur s h)
  read_chars-double_quotes cur (c ∷ f) s h = elim (Bool-cases (c == b'"')) [
    | inl e ↦
        rw (e, (==_iff c b'"').0 e)
          (read_chars-pair vs cur (double_quotes f ++ b'"' ∷ s)
            ∙ read_chars-double_quotes (cur ++ b'"' ∷ []) f s h
            ∙ ap (λ t. read_chars (reader vs t false) s) (append_assoc cur (b'"' ∷ []) f))
    | inr e ↦ rw e (
        read_chars-quoted vs cur c _ (λ k. cc (e, (==_iff c b'"').1 k))
        ∙ read_chars-double_quotes (cur ++ c ∷ []) f s h
        ∙ ap (λ t. read_chars (reader vs t false) s) (append_assoc cur (c ∷ []) f))
  ]

  read_chars-open :
      (s : Text) → read_chars (reader vs [] false) (b'"' ∷ s) ≡ read_chars (reader vs [] true) s
  unfolding read_chars read_char
  read_chars-open [] = refl
  read_chars-open (n ∷ s) = refl

  -- A printed field is read whole, up to the comma behind it.
  read_chars-escape_csv :
      (f s : Text)
      → Follows s
      → read_chars (reader vs [] false) (escape_csv f ++ s) ≡ read_chars (reader vs f false) s
  unfolding escape_csv
  read_chars-escape_csv f s h = elim (Bool-cases (any is_special f)) [
    | inl e ↦
        rw (e, append_assoc (double_quotes f) (b'"' ∷ []) s)
          (read_chars-open (double_quotes f ++ b'"' ∷ s) ∙ read_chars-double_quotes [] f s h)
    | inr e ↦ rw e (read_chars-unquoted vs [] f s e)
  ]

  read_chars-comma :
      (f s : Text)
      → read_chars (reader vs f false) (b',' ∷ s) ≡ read_chars (reader (vs ++ f ∷ []) [] false) s
  unfolding read_chars read_char
  read_chars-comma f [] = refl
  read_chars-comma f (n ∷ s) = refl

read_chars_nil : (r : Reader) → read_chars r [] ≡ r
unfolding read_chars
read_chars_nil r = refl

read_chars-csv_row :
    (vs : List Text) (f : Text) (fs : List Text)
    → values_of (read_chars (reader vs [] false) (csv_row (f ∷ fs))) ≡ vs ++ f ∷ fs
unfolding csv_row join
read_chars-csv_row vs f [] =
    ap (λ t. values_of (read_chars (reader vs [] false) t)) (sym (append-nil (escape_csv f)))
    ∙ ap values_of (read_chars-escape_csv vs f [] end ∙ read_chars_nil _)
read_chars-csv_row vs f (g ∷ fs) =
    ap values_of (read_chars-escape_csv vs f _ (comma _) ∙ read_chars-comma vs f _)
    ∙ read_chars-csv_row (vs ++ f ∷ []) g fs
    ∙ append_assoc vs (f ∷ []) (g ∷ fs)

-- Every non-empty list of fields, whatever they hold, is read back from the row that prints it.
pub csv_line_to_values-csv_row :
    (f : Text) (fs : List Text) → csv_line_to_values (csv_row (f ∷ fs)) ≡ f ∷ fs
unfolding csv_line_to_values
csv_line_to_values-csv_row f fs = read_chars-csv_row [] f fs
