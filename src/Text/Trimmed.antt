-- ===== src/Text/Trimmed.antt =====
-- A text that is trimmed already.
use mizumi.Prelude.{◌≡◌, refl, ap, ◌∙◌, false, [], ◌∷◌, if_cases}
use mizumi.Text.{Text}
use mizumi.Text.Trim.{is_space, trim_start, trim_end, cons_trimmed, trim}

pub trim_end-again : (s : Text) → trim_end (trim_end s) ≡ trim_end s
unfolding trim_end
trim_end-again [] = refl
trim_end-again (c ∷ s) = again (trim_end s) (trim_end-again s)
  where
    again : (t : Text) → trim_end t ≡ t → trim_end (cons_trimmed c t) ≡ cons_trimmed c t
    again [] h = if_cases (λ t. trim_end t ≡ t) (is_space c) (λ _. refl) (λ e. rw e refl)
    again (d ∷ t) h = ap (cons_trimmed c) h

-- The text is empty, or does not begin with white space.
abbrev IsStarted : Text → Type 0
IsStarted [] = Unit
IsStarted (c ∷ s) = is_space c ≡ false

trim_start-IsStarted : (s : Text) → IsStarted (trim_start s)
unfolding trim_start
trim_start-IsStarted [] = tt
trim_start-IsStarted (c ∷ s) =
    if_cases IsStarted (is_space c) (λ _. trim_start-IsStarted s) (λ e. e)

trim_end-IsStarted : (s : Text) → IsStarted s → IsStarted (trim_end s)
unfolding trim_end
trim_end-IsStarted [] h = tt
trim_end-IsStarted (c ∷ s) h = started (trim_end s)
  where
    started : (t : Text) → IsStarted (cons_trimmed c t)
    started [] = rw h h
    started (d ∷ t) = h

trim_start-started : (s : Text) → IsStarted s → trim_start s ≡ s
unfolding trim_start
trim_start-started [] h = refl
trim_start-started (c ∷ s) h = rw h refl

pub trim-again : (s : Text) → trim (trim s) ≡ trim s
unfolding trim
trim-again s =
    ap trim_end (
      trim_start-started (trim_end (trim_start s))
        (trim_end-IsStarted (trim_start s) (trim_start-IsStarted s)))
    ∙ trim_end-again (trim_start s)
