-- ===== src/Grid/Keyboard/Indices.antt =====
-- What stands at an index of a list of cells or columns.
use mizumi.Prelude.{
  AllSome, AllSome-map, ℕ, zero, suc, ◌<◌, ◌≡◌, refl, ◌⊎◌, inr, true, List, [], ◌∷◌, some, ℤ, pos,
  negsuc, All, get_elem?, length, arith, lt-length_of_get_elem?,
}
use mizumi.Text.{Text}
use mizumi.Text.Laws.{text_eq_self}
use mizumi.Text.Sets.{has}
use mizumi.Grid.Columns.{get_at}
use mizumi.Grid.Select.{last}
use mizumi.Grid.Keyboard.{GridProps, or_length, row_count_of}

All-get_elem? {ℓ κ} :
    {A : Type ℓ} (P : A → Type κ) (xs : List A) (i : ℕ) → All P xs → AllSome P (get_elem? xs i)
All-get_elem? P [] i h = tt
All-get_elem? P (x ∷ xs) zero (h, hs) = h
All-get_elem? P (x ∷ xs) (suc i) (h, hs) = All-get_elem? P xs i hs

pub All-get_at {ℓ κ} :
    {A : Type ℓ} (P : A → Type κ) (xs : List A) (i : ℤ) → All P xs → AllSome P (get_at xs i)
All-get_at P xs (pos n) h = All-get_elem? P xs n h
All-get_at P xs (negsuc n) h = tt

-- The index -1, or one at which there is a match.
abbrev pub IsMatchIndex {ℓ} : {A : Type ℓ} → ℤ → List A → Type 0
IsMatchIndex i ms = (i ≡ negsuc 0) ⊎ ((n : ℕ) × (i ≡ pos n) × (n < length ms))

pub get_at-IsMatchIndex {ℓ} :
    {A : Type ℓ} (ms : List A) (i : ℤ) (m : A) → get_at ms i ≡ some m → IsMatchIndex i ms
get_at-IsMatchIndex ms (pos n) m h = inr (n, refl, lt-length_of_get_elem? ms n h)
get_at-IsMatchIndex ms (negsuc n) m h = cc

or_length_of_lt : (n m : ℕ) → 0 < n → or_length n m ≡ n
unfolding or_length
or_length_of_lt zero m h = absurd (omega arith)
or_length_of_lt (suc n) m h = refl

-- The two row counts differ only where the table shows no row.
pub row_count_of-shown : (g : GridProps) → 0 < length g.shown → row_count_of g ≡ length g.shown
unfolding row_count_of
row_count_of-shown g h = or_length_of_lt (length g.shown) g.data_length h

pub has-first : (ids : List Text) → AllSome (λ id. has ids id ≡ true) (get_at ids (pos 0))
unfolding has
has-first [] = tt
has-first (x ∷ ids) = ground (arith, text_eq_self x)

pub has-last : (ids : List Text) → AllSome (λ id. has ids id ≡ true) (last ids)
unfolding has
has-last [] = tt
has-last (x ∷ []) = has-first (x ∷ [])
has-last (x ∷ y ∷ ids) =
    AllSome-map (λ id. has (y ∷ ids) id ≡ true) (λ id. has (x ∷ y ∷ ids) id ≡ true) (last (y ∷ ids))
      (λ id h. ground (arith, h)) (has-last (y ∷ ids))
