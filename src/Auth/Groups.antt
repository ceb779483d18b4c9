-- ===== src/Auth/Groups.antt =====
-- What normalizeGroups makes of the groups of a token.
use mizumi.Prelude.{
  ◌≡◌, refl, subst, ap, false, not, List, [], ◌∷◌, map, filter, Option, none, some, All, arith,
  if_cases,
}
use mizumi.Text.{Text, is_empty}
use mizumi.Text.Trimmed.{trim-again}
use mizumi.Text.Trim.{trim}
use mizumi.Auth.Claims.{GroupsClaim, many, one, some_unless_nil, normalize_groups}

-- A group's name: not empty, and without white space around it.
abbrev pub IsGroup : Text → Type 0
IsGroup t = (is_empty t ≡ false) × (trim t ≡ t)

trimmed-IsGroup :
    (values : List Text) → All IsGroup (filter (λ t. not (is_empty t)) (map trim values))
trimmed-IsGroup [] = tt
trimmed-IsGroup (v ∷ values) =
    if_cases (All IsGroup) (not (is_empty (trim v)))
      (λ e. ((ground (arith, e), trim-again v), trimmed-IsGroup values))
      (λ _. trimmed-IsGroup values)

groups_again : (gs : List Text) → All IsGroup gs → filter (λ t. not (is_empty t)) (map trim gs) ≡ gs
groups_again [] h = refl
groups_again (g ∷ gs) ((ne, t), hs) = rw (t, ne, groups_again gs hs) refl

some_unless_nil-Groups :
    (all_groups gs : List Text)
    → All IsGroup all_groups
    → some_unless_nil all_groups ≡ some gs
    → All IsGroup gs × (normalize_groups (some (many gs)) ≡ some gs)
unfolding normalize_groups
some_unless_nil-Groups [] gs h e = cc
some_unless_nil-Groups (g ∷ rest) gs h e =
    subst (λ t. All IsGroup t × (normalize_groups (some (many t)) ≡ some t)) (same e)
      (h, ap some_unless_nil (groups_again (g ∷ rest) h))
  where
    same : some (g ∷ rest) ≡ some gs → (g ∷ rest) ≡ gs
    same e = cc

-- The groups of a session are names that are not empty and have no white space around them,
-- whether the token gives an array or one string, and normalizing them again changes nothing.
pub normalize_groups-IsGroup :
    (groups : Option GroupsClaim) (gs : List Text)
    → normalize_groups groups ≡ some gs
    → All IsGroup gs × (normalize_groups (some (many gs)) ≡ some gs)
unfolding normalize_groups
normalize_groups-IsGroup none gs e = cc
normalize_groups-IsGroup (some (one [])) gs e = cc
normalize_groups-IsGroup (some (one (c ∷ s))) gs e =
    some_unless_nil-Groups (filter (λ t. not (is_empty t)) (map trim ((c ∷ s) ∷ []))) gs
      (trimmed-IsGroup ((c ∷ s) ∷ [])) e
normalize_groups-IsGroup (some (many values)) gs e =
    some_unless_nil-Groups (filter (λ t. not (is_empty t)) (map trim values)) gs
      (trimmed-IsGroup values) e
