-- ===== src/Grid/Columns/Laws.antt =====
-- indexOf and array accesses on the columns; which columns can be navigated to.
use mizumi.Prelude.{
  ℕ, zero, suc, ◌≡◌, refl, ap, inl, inr, true, false, List, [], ◌∷◌, some, pos, negsuc, arith,
  get_elem?, Bool-cases, if◌then◌else◌,
}
use mizumi.Text.{Text, text_eq}
use mizumi.Text.Laws.{text_eq_iff}
use mizumi.Text.Sets.{has}
use mizumi.Grid.Columns.{is_non_navigable, navigable_column_ids, next_index, index_of}

-- No id stands twice.
abbrev pub IsDistinct : List Text → Type 0
IsDistinct [] = Unit
IsDistinct (x ∷ xs) = (has xs x ≡ false) × IsDistinct xs

index_of-cons :
    (id x : Text) (xs : List Text)
    → index_of id (x ∷ xs) ≡ (if text_eq x id then pos 0 else next_index (index_of id xs))
unfolding index_of
index_of-cons id x xs = refl

-- An id that is there has an index, and stands at it.
pub index_of_of_has :
    (id : Text) (xs : List Text)
    → has xs id ≡ true
    → (n : ℕ) × (index_of id xs ≡ pos n) × (get_elem? xs n ≡ some id)
unfolding has
index_of_of_has id [] h = cc
index_of_of_has id (x ∷ xs) h = elim (Bool-cases (text_eq x id)) [
  | inl e ↦ (0, rw (index_of-cons id x xs, e), ap some ((text_eq_iff x id).0 e))
  | inr e ↦
      let (n, p, q) = index_of_of_has id xs (ground arith) in
      (suc n, rw (index_of-cons id x xs, e, p), q)
]

pub index_of_of_lacks : (id : Text) (xs : List Text) → has xs id ≡ false → index_of id xs ≡ negsuc 0
unfolding has
index_of_of_lacks id [] h = unfold index_of in refl
index_of_of_lacks id (x ∷ xs) h = ground (arith, index_of-cons id x xs, index_of_of_lacks id xs)

pub has_of_get_elem? :
    (xs : List Text) (n : ℕ) (id : Text) → get_elem? xs n ≡ some id → has xs id ≡ true
unfolding has
has_of_get_elem? [] n id h = cc
has_of_get_elem? (x ∷ xs) zero id h = ground (arith, text_eq_iff x id)
has_of_get_elem? (x ∷ xs) (suc n) id h = ground (arith, has_of_get_elem? xs n id h)

-- Where no id stands twice, indexOf is the inverse of the access.
pub index_of-get_elem? :
    (xs : List Text) (n : ℕ) (id : Text)
    → IsDistinct xs
    → get_elem? xs n ≡ some id
    → index_of id xs ≡ pos n
index_of-get_elem? [] n id d h = cc
index_of-get_elem? (x ∷ xs) zero id d h = ground (arith, index_of-cons id x xs, text_eq_iff x id)
index_of-get_elem? (x ∷ xs) (suc n) id (d, ds) h = ground (
  arith,
  index_of-cons id x xs,
  text_eq_iff x id,
  index_of-get_elem? xs n id ds h,
  has_of_get_elem? xs n id h,
)

pub navigable_column_ids-ne :
    (ids : List Text) (id : Text)
    → has (navigable_column_ids ids) id ≡ true
    → is_non_navigable id ≡ false
unfolding navigable_column_ids has
navigable_column_ids-ne [] id h = cc
navigable_column_ids-ne (x ∷ ids) id h =
    ground (arith, text_eq_iff x id, navigable_column_ids-ne ids id)
