-- ===== src/Grid/Columns.antt =====
-- The columns of the grid: columnIds and navigableColumnIds of useDataGrid, and the array accesses
-- that their users make.
pub mod Laws
use mizumi.Prelude.{
  ℕ, zero, suc, Bool, true, false, not, ◌||◌, List, [], ◌∷◌, Option, none, some, ℤ, pos, negsuc,
  ◌+ℤ◌, get_elem?, length, if◌then◌else◌,
}
use mizumi.Text.{Text, codes, text_eq}

-- A column definition as the hook reads it.
pub record ColumnDef : Type 0 where
  pub id : Option Text
  pub accessor_key : Option Text

-- The id of a column that passes `Boolean(id)`.
abbrev truthy : Option Text → Option Text
truthy none = none
truthy (some []) = none
truthy (some (c ∷ s)) = some (c ∷ s)

-- `if (c.id) return c.id; if ("accessorKey" in c) return c.accessorKey; return undefined`
unfoldable pub column_id_of : ColumnDef → Option Text
column_id_of c = elim (truthy c.id) [ some id ↦ some id | none ↦ truthy c.accessor_key ]

abbrev cons_some : Option Text → List Text → List Text
cons_some none ids = ids
cons_some (some id) ids = id ∷ ids

unfoldable pub column_ids : List ColumnDef → List Text
unfolding column_id_of
column_ids [] = []
column_ids (c ∷ cs) = cons_some (column_id_of c) (column_ids cs)

abbrev pub select_id : Text
select_id = codes "select"

abbrev pub actions_id : Text
actions_id = codes "actions"

unfoldable pub is_non_navigable : Text → Bool
is_non_navigable id = text_eq id select_id || text_eq id actions_id

unfoldable pub navigable_column_ids : List Text → List Text
navigable_column_ids [] = []
navigable_column_ids (id ∷ ids) =
    let rest = navigable_column_ids ids in if is_non_navigable id then rest else id ∷ rest

abbrev pub next_index : ℤ → ℤ
next_index (pos n) = pos (suc n)
next_index (negsuc n) = negsuc n

-- `ids.indexOf(id)`: -1 where there is none.
unfoldable pub index_of : Text → List Text → ℤ
index_of id [] = negsuc 0
index_of id (x ∷ xs) =
    let rest = next_index (index_of id xs) in if text_eq x id then pos 0 else rest

-- `xs[i]`.
abbrev pub get_at {ℓ} : {A : Type ℓ} → List A → ℤ → Option A
get_at xs (pos n) = get_elem? xs n
get_at xs (negsuc n) = none
