-- ===== src/Grid/Paste/Dialog.antt =====
-- Pasting more rows than the table has: the question, and the paste once it is confirmed.
use mizumi.Prelude.{
  ℕ, zero, suc, ◌<◌, ◌≤◌, ◌≡◌, refl, sym, ap, subst, ◌∙◌, ◌⊎◌, inl, inr, true, false, not, List, [],
  ◌∷◌, Option, none, some, ℤ, pos, ◌≤ℤ◌, ◌<ℤ◌, ltb_ℤ, length, arith, if_cases,
}
use mizumi.Text.{Text}
use mizumi.Grid.Key.{CellPosition}
use mizumi.Grid.Columns.{get_at}
use mizumi.Grid.State.{DataGridState, PasteDialogState, closed_paste_dialog}
use mizumi.Grid.Select.{select_range}
use mizumi.Grid.Keyboard.{GridProps}
use mizumi.Grid.Keyboard.Handler.{is_nil}
use mizumi.Grid.Paste.{Pasted, await_rows, PasteOutcome, close_dialog, select_pasted, finish_paste}
use mizumi.Grid.Paste.Written.{take}

lt_or_ge : (k m : ℕ) → (k < m) ⊎ (m ≤ k)
lt_or_ge k m = ground arith

ltb_ℤ_cases : (a b : ℤ) → ((ltb_ℤ a b ≡ true) × (a <ℤ b)) ⊎ ((ltb_ℤ a b ≡ false) × (b ≤ℤ a))
ltb_ℤ_cases a b = ground arith

all_below {κ} :
    (P : ℕ → Type κ) (m : ℕ) → P 0 → ((k : ℕ) → k < m → P (suc k)) → (k : ℕ) → k < suc m → P k
all_below P m h hs zero lt = h
all_below P m h hs (suc k) lt = hs k (omega arith)

-- The wait for new rows ends: after `m` of at most `attempts` further readings it has the number of
-- rows that the table shows then. All readings before were too low, and that one is high enough or
-- the last that is allowed.
pub await_rows-ends :
    (attempts : ℕ) (expected : ℤ) (row_counts : ℕ → ℕ)
    → (m : ℕ) × (m ≤ attempts)
      × (await_rows attempts expected row_counts ≡ row_counts m)
      × ((k : ℕ) → k < m → pos (row_counts k) <ℤ expected)
      × ((expected ≤ℤ pos (row_counts m)) ⊎ (m ≡ attempts))
unfolding await_rows
await_rows-ends zero expected f = (0, omega arith, refl, λ k h. absurd (omega arith), inr refl)
await_rows-ends (suc n) expected f = elim (ltb_ℤ_cases (pos (f 0)) expected) [
  | inl (b, low) ↦
      let (m, le, same, before, last) = await_rows-ends n expected (λ k. f (suc k)) in
      (
        suc m,
        omega arith,
        rw b same,
        all_below (λ k. pos (f k) <ℤ expected) m low before,
        elim last [ inl enough ↦ inl enough | inr e ↦ inr (ap suc e) ],
      )
  | inr (b, enough) ↦ (0, omega arith, rw b refl, λ k h. absurd (omega arith), inl enough)
]

pub await_rows-enough :
    (attempts : ℕ) (expected : ℤ) (row_counts : ℕ → ℕ) (k : ℕ)
    → k ≤ attempts
    → expected ≤ℤ pos (row_counts k)
    → expected ≤ℤ pos (await_rows attempts expected row_counts)
await_rows-enough attempts expected f k le enough =
    let (m, le', same, before, last) = await_rows-ends attempts expected f in
    rw same (elim last [
      | inl h ↦ h
      | inr e ↦ elim (lt_or_ge k m) [
        | inl lt ↦ absurd (omega (arith, before k lt))
        | inr ge ↦
            let here : m ≡ k = omega arith in subst (λ i. expected ≤ℤ pos (f i)) (sym here) enough
      ]
    ])

pub take_all {ℓ} : {A : Type ℓ} (n : ℕ) (xs : List A) → length xs ≤ n → take n xs ≡ xs
take_all zero [] h = refl
take_all zero (x ∷ xs) h = absurd (omega arith)
take_all (suc n) [] h = refl
take_all (suc n) (x ∷ xs) h = ap (x ∷◌) (take_all n xs (omega arith))

dialog-close_dialog :
    (s : DataGridState)
    → s.paste_dialog.is_open ≡ true
    → (close_dialog s).paste_dialog ≡ closed_paste_dialog
dialog-close_dialog s h =
    if_cases (λ (t : DataGridState). t.paste_dialog ≡ closed_paste_dialog) s.paste_dialog.is_open
      (λ _. refl) (λ e. absurd (ground (arith, h, e)))

dialog-select_pasted :
    (g : GridProps) (p : CellPosition) (row : ℤ) (o : Option Text) (s : DataGridState)
    → (select_pasted g p row o s).paste_dialog ≡ s.paste_dialog
unfolding select_pasted select_range
dialog-select_pasted g p row none s = refl
dialog-select_pasted g p row (some []) s = refl
dialog-select_pasted g p row (some (c ∷ id)) s = refl

pub dialog-finish_paste :
    (g : GridProps) (p : CellPosition) (c : Pasted) (s : DataGridState)
    → s.paste_dialog.is_open ≡ true
    → (finish_paste g true p c s).state.paste_dialog ≡ closed_paste_dialog
unfolding finish_paste
dialog-finish_paste g p c s h =
    if_cases (λ (o : PasteOutcome). o.state.paste_dialog ≡ closed_paste_dialog)
      (not (is_nil c.updates))
      (λ _. dialog-close_dialog _ (
        ap (λ (d : PasteDialogState). d.is_open)
          (dialog-select_pasted g p c.end_row (get_at g.navigable_ids c.end_col)
            (record s { cut_cells = [] }))
        ∙ h))
      (λ _. dialog-close_dialog s h)
