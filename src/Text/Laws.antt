-- ===== src/Text/Laws.antt =====
-- Equality, joining and splitting of texts.
use mizumi.Prelude.{
  ℕ, ◌≡◌, refl, ap, ◌∙◌, sym, ◌≢◌, ◌↔◌, true, false, inl, inr, List, [], ◌∷◌, ◌++◌, append_assoc,
  append-nil, arith, ◌==◌, ==_iff, Bool-cases, All,
}
use mizumi.Text.{Text, text_eq, join, split_from, split}

eq_of_text_eq : (s t : Text) → text_eq s t ≡ true → s ≡ t
unfolding text_eq
eq_of_text_eq [] [] h = refl
eq_of_text_eq [] (d ∷ t) h = cc
eq_of_text_eq (c ∷ s) [] h = cc
eq_of_text_eq (c ∷ s) (d ∷ t) h = ground (arith, eq_of_text_eq s t)

pub text_eq_self : (s : Text) → text_eq s s ≡ true
unfolding text_eq
text_eq_self [] = refl
text_eq_self (c ∷ s) = ground (arith, text_eq_self s)

pub text_eq_iff : (s t : Text) → (text_eq s t ≡ true) ↔ (s ≡ t)
text_eq_iff s t = (eq_of_text_eq s t, λ e. rw e (text_eq_self t))

pub text_ne : (s t : Text) → s ≢ t → text_eq s t ≡ false
text_ne s t h = elim (Bool-cases (text_eq s t)) [
  | inl e ↦ absurd (h (eq_of_text_eq s t e))
  | inr e ↦ e
]

-- No code unit of the text is `sep`.
abbrev pub Lacks : ℕ → Text → Type 0
Lacks sep = All (λ c. c ≢ sep)

-- The piece that is being read goes on to the next separator.
pub split_from-append :
    (sep : ℕ) (cur f s : Text)
    → Lacks sep f
    → split_from sep cur (f ++ s) ≡ split_from sep (cur ++ f) s
unfolding split_from
split_from-append sep cur [] s h = rw (append-nil cur)
split_from-append sep cur (c ∷ f) s (p, h) = elim (Bool-cases (c == sep)) [
  | inl e ↦ absurd (p ((==_iff c sep).0 e))
  | inr e ↦ rw e (
      split_from-append sep (cur ++ c ∷ []) f s h
      ∙ ap (λ t. split_from sep t s) (append_assoc cur (c ∷ []) f))
]

pub split_from_sep :
    (sep : ℕ) (cur s : Text) → split_from sep cur (sep ∷ s) ≡ cur ∷ split_from sep [] s
unfolding split_from
split_from_sep sep cur s = rw ((==_iff sep sep).1 refl)

pub split-join :
    (sep : ℕ) (f : Text) (fs : List Text)
    → All (Lacks sep) (f ∷ fs)
    → split sep (join (sep ∷ []) (f ∷ fs)) ≡ f ∷ fs
unfolding split join
split-join sep f [] (h, _) =
    ap (split_from sep []) (sym (append-nil f)) ∙ split_from-append sep [] f [] h
split-join sep f (g ∷ fs) (h, hs) =
    split_from-append sep [] f _ h ∙ split_from_sep sep f _ ∙ ap (f ∷◌) (split-join sep g fs hs)
