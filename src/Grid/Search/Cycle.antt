-- ===== src/Grid/Search/Cycle.antt =====
-- Going through the matches of a search: onNavigateToPrevMatch and onNavigateToNextMatch.
use mizumi.Prelude.{
  ℕ, zero, suc, ◌+◌, ◌-◌, ◌%◌, ◌<◌, ◌≤◌, ◌≡◌, refl, sym, ap, subst, ◌∙◌, ◌⊎◌, inl, inr, false, List,
  [], ◌∷◌, none, some, pos, ◌+ℤ◌, ◌-ℤ◌, ltb, ◌==◌, length, get_elem?, arith, if◌then◌else◌,
  int_laws, get_elem?_of_lt-length, lt-length_of_get_elem?,
}
use native.Mathlib.Nat.{mod-lt, mod-eq_of_lt, mod_self, suc-mod}
use mizumi.Grid.Key.{CellPosition}
use mizumi.Grid.State.{DataGridState}
use mizumi.Grid.Navigate.{focus_cell}
use mizumi.Grid.Search.{
  previous_match, next_match, show_match, remainder, on_navigate_to_prev_match,
  on_navigate_to_next_match,
}

-- The match with that index is the active one, and its cell has the focus.
abbrev pub shows : ℕ → CellPosition → DataGridState → DataGridState
shows i m s = record s { match_index = pos i; focused_cell = some m; editing_cell = none }

abbrev step_back : ℕ → ℕ → ℕ
step_back i count = if ltb 0 i then i - 1 else count - 1

lt_or_eq : (a b : ℕ) → a ≤ b → (a < b) ⊎ (a ≡ b)
lt_or_eq a b h = ground arith

pos-add_one : (i : ℕ) → pos i +ℤ pos 1 ≡ pos (suc i)
pos-add_one i = grind int_laws

next_match-pos : (i count : ℕ) → next_match (pos i) count ≡ pos (suc i % count)
unfolding next_match remainder
next_match-pos i count = rw (pos-add_one i) refl

previous_match-pos :
    (i count : ℕ) → 0 < count → previous_match (pos i) count ≡ pos (step_back i count)
unfolding previous_match ◌-ℤ◌
previous_match-pos i count h = ground arith

length_ne :
    (ms : List CellPosition) (i : ℕ) (m : CellPosition)
    → get_elem? ms i ≡ some m
    → (length ms == 0) ≡ false
length_ne [] i m h = cc
length_ne (_ ∷ ms) i m h = ground arith

lt-length :
    (ms : List CellPosition) (i : ℕ) {m : CellPosition} → get_elem? ms i ≡ some m → 0 < length ms
lt-length ms i h = omega (arith, lt-length_of_get_elem? ms i h)

next-shows :
    (s : DataGridState) (i j : ℕ) (m : CellPosition)
    → s.match_index ≡ pos i
    → suc i % length s.search_matches ≡ j
    → get_elem? s.search_matches j ≡ some m
    → on_navigate_to_next_match s ≡ shows j m s
unfolding on_navigate_to_next_match show_match focus_cell
next-shows s i j m e e' h =
    let count = length s.search_matches in
    let step : next_match s.match_index count ≡ pos j =
      ap (λ k. next_match k count) e ∙ next_match-pos i count ∙ ap pos e' in
    rw (length_ne s.search_matches j m h, step, h) refl

-- `n` calls of onNavigateToNextMatch.
abbrev pub next_times : ℕ → DataGridState → DataGridState
next_times zero s = s
next_times (suc n) s = on_navigate_to_next_match (next_times n s)

module _ (s : DataGridState) (i : ℕ) (at : s.match_index ≡ pos i)
    (some_match : 0 < length s.search_matches) where
  suc-add_mod :
      (n : ℕ)
      → suc ((i + n) % length s.search_matches) % length s.search_matches
        ≡ (i + suc n) % length s.search_matches
  suc-add_mod n =
      sym (suc-mod (i + n) (length s.search_matches))
      ∙ ap (λ k. k % length s.search_matches) (omega arith)

  one_more : suc i ≡ i + 1
  one_more = omega arith

  -- From the active match on, where there are matches, any number of steps to the next match goes
  -- round through them: after `n + 1` steps the match that stands so many places later, counted
  -- from the front again behind the last, is the active one and has the focus, no cell is edited
  -- any more, and nothing else has changed.
  pub next_times-shows :
      (n : ℕ) (m : CellPosition)
      → get_elem? s.search_matches ((i + suc n) % length s.search_matches) ≡ some m
      → next_times (suc n) s ≡ shows ((i + suc n) % length s.search_matches) m s
  next_times-shows zero m h =
      next-shows s i _ m at (ap (λ k. k % length s.search_matches) one_more) h
  next_times-shows (suc n) m h =
      let (m', h') =
        get_elem?_of_lt-length s.search_matches ((i + suc n) % length s.search_matches)
          (mod-lt (i + suc n) some_match) in
      ap on_navigate_to_next_match (next_times-shows n m' h')
      ∙ next-shows (shows ((i + suc n) % length s.search_matches) m' s) _ _ m refl
          (suc-add_mod (suc n)) h

prev-shows :
    (s : DataGridState) (i j : ℕ) (m : CellPosition)
    → s.match_index ≡ pos i
    → step_back i (length s.search_matches) ≡ j
    → get_elem? s.search_matches j ≡ some m
    → on_navigate_to_prev_match s ≡ shows j m s
unfolding on_navigate_to_prev_match show_match focus_cell
prev-shows s i j m e e' h =
    let step : previous_match s.match_index (length s.search_matches) ≡ pos j =
      ap (λ k. previous_match k (length s.search_matches)) e
      ∙ previous_match-pos i (length s.search_matches) (lt-length s.search_matches j h)
      ∙ ap pos e' in
    rw (length_ne s.search_matches _ m h, step, h) refl

module _ (i count : ℕ) (inside : i < count) where
  suc-mod_cases : suc i % count ≡ (if ltb (suc i) count then suc i else 0)
  suc-mod_cases = elim (lt_or_eq (suc i) count (omega arith)) [
    | inl h ↦ mod-eq_of_lt h ∙ ground arith
    | inr h ↦
        subst (λ k. suc i % k ≡ (if ltb (suc i) k then suc i else 0)) h
          (mod_self (suc i) ∙ ground arith)
  ]

  step_back_lt : step_back i count < count
  step_back_lt = ground arith

  step_back-suc-mod : step_back (suc i % count) count ≡ i
  step_back-suc-mod = ap (λ k. step_back k count) suc-mod_cases ∙ ground arith

  suc-step_back-mod : suc (step_back i count) % count ≡ i
  suc-step_back-mod = elim (lt_or_eq 0 i (omega arith)) [
    | inl h ↦ ap (λ k. k % count) (ground arith) ∙ mod-eq_of_lt inside
    | inr h ↦ ap (λ k. k % count) (ground arith) ∙ mod_self count ∙ h
  ]

-- One step to the next match and one back, in either order: the match that was active is active
-- again and its cell has the focus, also at the ends, where the steps go round.
pub prev-next :
    (s : DataGridState) (i : ℕ) (m : CellPosition)
    → s.match_index ≡ pos i
    → get_elem? s.search_matches i ≡ some m
    → (on_navigate_to_prev_match (on_navigate_to_next_match s) ≡ shows i m s)
      × (on_navigate_to_next_match (on_navigate_to_prev_match s) ≡ shows i m s)
prev-next s i m e h =
    let inside = lt-length_of_get_elem? s.search_matches i h in
    let count = length s.search_matches in
    let (n, next) =
      get_elem?_of_lt-length s.search_matches (suc i % count)
        (mod-lt (suc i) (lt-length s.search_matches i h)) in
    let (p, prev) =
      get_elem?_of_lt-length s.search_matches (step_back i count) (step_back_lt i count inside) in
    (
      ap on_navigate_to_prev_match (next-shows s i (suc i % count) n e refl next)
          ∙ prev-shows (shows (suc i % count) n s) (suc i % count) i m refl
              (step_back-suc-mod i count inside) h,
      ap on_navigate_to_next_match (prev-shows s i (step_back i count) p e refl prev)
          ∙ next-shows (shows (step_back i count) p s) (step_back i count) i m refl
              (suc-step_back-mod i count inside) h,
    )
