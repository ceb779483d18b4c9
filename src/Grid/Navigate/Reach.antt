-- ===== src/Grid/Navigate/Reach.antt =====
-- The arrow keys are inverse to one another inside the grid, and reach every cell.
use mizumi.Prelude.{
  ℕ, zero, suc, ◌+◌, ◌<◌, ◌≡◌, refl, sym, ap, ◌∙◌, ◌≢◌, inl, inr, true, List, [], ◌∷◌, ◌++◌, some,
  ℤ, pos, ◌+ℤ◌, ◌-ℤ◌, -ℤ_parts, ltb_ℤ, eq_of_parts, int_laws, arith, get_elem?, length, replicate,
  lt-length_of_get_elem?, get_elem?_of_lt-length, All, Bool-cases, if◌then◌else◌,
}
use mizumi.Text.{Text}
use mizumi.Grid.Key.{CellPosition, position}
use mizumi.Grid.Columns.Laws.{IsDistinct, index_of-get_elem?}
use mizumi.Grid.Navigate.{
  NavigationDirection, down, left, right, ctrl_home, Layout, truthy_or, previous_column,
  next_column, first_column, navigate_position, last_column,
}

pos-add_one : (n : ℕ) → pos n +ℤ pos 1 ≡ pos (suc n)
pos-add_one n = eq_of_parts _ _ (omega int_laws)

pos-sub_one : (n : ℕ) → pos (suc n) -ℤ pos 1 ≡ pos n
pos-sub_one n = eq_of_parts _ _ (omega int_laws)

-- What the ids of the columns satisfy: none is empty, and none stands twice.
pub record HasIds (columns : List Text) : Type 0 where
  pub named : All (λ id. id ≢ []) columns
  pub distinct : IsDistinct columns

ne_of_get_elem? :
    (ids : List Text) (n : ℕ) (id : Text)
    → All (λ x. x ≢ []) ids
    → get_elem? ids n ≡ some id
    → id ≢ []
ne_of_get_elem? [] n id h e = cc
ne_of_get_elem? (x ∷ ids) zero id (h, _) e = λ k. h (cc)
ne_of_get_elem? (x ∷ ids) (suc n) id (_, h) e = ne_of_get_elem? ids n id h e

truthy_or_of_ne : (id column : Text) → id ≢ [] → truthy_or (some id) column ≡ id
truthy_or_of_ne [] column h = absurd (h refl)
truthy_or_of_ne (c ∷ s) column h = refl

module _ (g : Layout) (ids : HasIds g.columns) where
  open g use {columns}

  -- The columns `n` and `n + 1` are neighbours.
  module _ (n : ℕ) (c c' : Text) (here : get_elem? columns n ≡ some c)
      (after : get_elem? columns (suc n) ≡ some c') where
    last_column-lt : ltb_ℤ (pos n) (last_column g) ≡ true
    last_column-lt =
        let h = lt-length_of_get_elem? columns (suc n) after in
        ground (arith, -ℤ_parts (pos (length columns)) (pos 1), h)

    next_column-neighbour : next_column g c ≡ c'
    unfolding next_column
    next_column-neighbour =
        rw (index_of-get_elem? columns n c ids.distinct here, last_column-lt, pos-add_one, after)
          (truthy_or_of_ne c' c (ne_of_get_elem? columns (suc n) c' ids.named after))

    previous_column-neighbour : previous_column g c' ≡ c
    unfolding previous_column
    previous_column-neighbour =
        rw (index_of-get_elem? columns (suc n) c' ids.distinct after, pos-sub_one, here)
          (ground (arith, truthy_or_of_ne c c' (ne_of_get_elem? columns n c ids.named here)))

-- The arrow key towards the end of the row, in the writing direction of the grid, and the other one.
abbrev pub forward : Layout → NavigationDirection
forward g = if g.is_rtl then left else right

abbrev pub backward : Layout → NavigationDirection
backward g = if g.is_rtl then right else left

forward_step :
    (g : Layout) (row : ℤ) (c : Text)
    → navigate_position g (forward g) (position row c) ≡ position row (next_column g c)
unfolding navigate_position
forward_step g row c = elim (Bool-cases g.is_rtl) [ inl e ↦ simp e | inr e ↦ simp e ]

backward_step :
    (g : Layout) (row : ℤ) (c : Text)
    → navigate_position g (backward g) (position row c) ≡ position row (previous_column g c)
unfolding navigate_position
backward_step g row c = elim (Bool-cases g.is_rtl) [ inl e ↦ simp e | inr e ↦ simp e ]

-- In every row the two keys take a cell to its neighbour and back.
navigate_back :
    (g : Layout) (row : ℤ) (n : ℕ) (c c' : Text)
    → HasIds g.columns
    → get_elem? g.columns n ≡ some c
    → get_elem? g.columns (suc n) ≡ some c'
    → (navigate_position g (forward g) (position row c) ≡ position row c')
      × (navigate_position g (backward g) (position row c') ≡ position row c)
navigate_back g row n c c' ids here after = (
  forward_step g row c ∙ ap (position row) (next_column-neighbour g ids n c c' here after),
  backward_step g row c' ∙ ap (position row) (previous_column-neighbour g ids n c c' here after),
)

-- The keys that are pressed one after the other.
abbrev pub navigate_all : Layout → List NavigationDirection → CellPosition → CellPosition
navigate_all g [] p = p
navigate_all g (d ∷ ds) p = navigate_all g ds (navigate_position g d p)

navigate_all-append :
    (g : Layout) (ds es : List NavigationDirection) (p : CellPosition)
    → navigate_all g (ds ++ es) p ≡ navigate_all g es (navigate_all g ds p)
navigate_all-append g [] es p = refl
navigate_all-append g (d ∷ ds) es p = navigate_all-append g ds es (navigate_position g d p)

down_step :
    (g : Layout) (r : ℕ) (c : Text)
    → suc r < g.row_count
    → navigate_position g down (position (pos r) c) ≡ position (pos (suc r)) c
unfolding navigate_position
down_step g r c h = ap (λ row. position row c) (eq_of_parts _ _ (ground arith))

down_all :
    (g : Layout) (k r : ℕ) (c : Text)
    → r + k < g.row_count
    → navigate_all g (replicate k down) (position (pos r) c) ≡ position (pos (r + k)) c
down_all g zero r c h = ap (λ n. position (pos n) c) (omega arith)
down_all g (suc k) r c h =
    ap (navigate_all g (replicate k down)) (down_step g r c (omega arith))
    ∙ down_all g k (suc r) c (omega arith)
    ∙ ap (λ n. position (pos n) c) (omega arith)

module _ (g : Layout) (ids : HasIds g.columns) (row : ℤ) where
  open g use {columns}

  forward_all :
      (k n : ℕ) (c c' : Text)
      → get_elem? columns n ≡ some c
      → get_elem? columns (n + k) ≡ some c'
      → navigate_all g (replicate k (forward g)) (position row c) ≡ position row c'
  forward_all zero n c c' here there =
      let e : n ≡ n + 0 = omega arith in
      let there' : get_elem? columns n ≡ some c' = ap (get_elem? columns) e ∙ there in
      ap (position row) (cc)
  forward_all (suc k) n c c' here there =
      let h = lt-length_of_get_elem? columns (n + suc k) there in
      let (c₁, after) = get_elem?_of_lt-length columns (suc n) (omega arith) in
      let e : suc n + k ≡ n + suc k = omega arith in
      ap (navigate_all g (replicate k (forward g))) (navigate_back g row n c c₁ ids here after).0
      ∙ forward_all k (suc n) c₁ c' after (ap (get_elem? columns) e ∙ there)

first_column_of :
    (g : Layout) (c column : Text) → get_elem? g.columns 0 ≡ some c → first_column g column ≡ c
unfolding first_column
first_column_of g c column h = rw h

home_step :
    (g : Layout) (c : Text) (p : CellPosition)
    → get_elem? g.columns 0 ≡ some c
    → navigate_position g ctrl_home p ≡ position (pos 0) c
unfolding navigate_position
home_step g c p h = ap (position (pos 0)) (first_column_of g c p.column_id h)

-- Ctrl+Home, and then the arrow keys as often as the cell is away from the corner.
abbrev pub keys_to : Layout → ℕ → ℕ → List NavigationDirection
keys_to g r n = ctrl_home ∷ (replicate r down ++ replicate n (forward g))

-- Where no id of the columns that can be navigated to is empty and none stands twice: wherever the
-- focus is, in the grid or not, the keys reach every row that the table shows in every such
-- column.
pub navigate_all-keys_to :
    (g : Layout) (p : CellPosition) (r n : ℕ) (c : Text)
    → HasIds g.columns
    → r < g.row_count
    → get_elem? g.columns n ≡ some c
    → navigate_all g (keys_to g r n) p ≡ position (pos r) c
navigate_all-keys_to g p r n c ids h e =
    let lt = lt-length_of_get_elem? g.columns n e in
    let (c₀, first) = get_elem?_of_lt-length g.columns 0 (omega arith) in
    let from_zero : n ≡ 0 + n = omega arith in
    ap (navigate_all g (replicate r down ++ replicate n (forward g))) (home_step g c₀ p first)
    ∙ navigate_all-append g (replicate r down) (replicate n (forward g)) (position (pos 0) c₀)
    ∙ ap (navigate_all g (replicate n (forward g)))
        (down_all g r 0 c₀ (omega arith) ∙ ap (λ k. position (pos k) c₀) (omega arith))
    ∙ forward_all g ids (pos r) n 0 c₀ c first (ap (get_elem? g.columns) (sym from_zero) ∙ e)
