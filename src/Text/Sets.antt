-- ===== src/Text/Sets.antt =====
-- JavaScript's `Set<string>` in its order of insertion.
use mizumi.Prelude.{
  ◌≡◌, refl, ap, Bool, true, false, ◌||◌, List, [], ◌∷◌, ◌++◌, arith, if◌then◌else◌,
}
use mizumi.Text.{Text, text_eq}
use mizumi.Text.Laws.{text_eq_iff}

unfoldable pub has : List Text → Text → Bool
has [] k = false
has (x ∷ xs) k = text_eq x k || has xs k

-- `set.add(k)`: a key that is there already keeps its place.
unfoldable pub add : Text → List Text → List Text
add k xs = if has xs k then xs else xs ++ k ∷ []

-- `set.delete(k)`.
unfoldable pub delete : Text → List Text → List Text
delete k [] = []
delete k (x ∷ xs) = let rest = delete k xs in if text_eq x k then rest else x ∷ rest

pub has-append : (xs ys : List Text) (k : Text) → has (xs ++ ys) k ≡ (has xs k || has ys k)
unfolding has
has-append [] ys k = refl
has-append (x ∷ xs) ys k = ground (arith, has-append xs ys k)

has-one : (x k : Text) → has (x ∷ []) k ≡ text_eq x k
unfolding has
has-one x k = ground arith

-- Membership after an insertion, in a form that serves as a rewriting rule.
pub has-add : (xs : List Text) (x k : Text) → has (add x xs) k ≡ (text_eq x k || has xs k)
unfolding add
has-add xs x k = ground (arith, has-append xs (x ∷ []) k, has-one x k, text_eq_iff x k, at_key)
  where
    at_key : text_eq x k ≡ true → has xs x ≡ has xs k
    at_key e = ap (has xs) ((text_eq_iff x k).0 e)

pub has-delete :
    (xs : List Text) (x k : Text) → has (delete x xs) k ≡ (if text_eq x k then false else has xs k)
unfolding has delete
has-delete [] x k = ground arith
has-delete (y ∷ ys) x k =
    ground (arith, text_eq_iff x k, text_eq_iff y x, text_eq_iff y k, has-delete ys x k)
