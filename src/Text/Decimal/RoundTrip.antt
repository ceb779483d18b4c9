-- ===== src/Text/Decimal/RoundTrip.antt =====
-- A printed integer is read back by parseInt, and holds digits and a sign only.
use Prim.Native.Nat.{◌<◌, ◌≤◌}
use mathlib.Core.Logic.{dite, ite, if_pos, if_neg}
use mathlib.Core.WellFounded
use mathlib.Core.WellFounded.{Acc, Acc-prop}
use native.Mathlib.Decide.{dec_lt}
use mizumi.Prelude.{
  ℕ, suc, ◌+◌, ◌/◌, ◌%◌, ◌≡◌, refl, sym, ◌∙◌, ap, false, [], ◌∷◌, some, ℤ, pos, negsuc, arith, All,
  inl, inr, ◌⊎◌,
}
use mizumi.Text.{Text}
use mizumi.Text.Trim.{is_space, trim_start}
use mizumi.Text.Decimal.{
  lt_wf, tenth_lt, show_acc, show_digits, show_ℕ, show_ℤ, read_digits, read_number, negated,
  positive, read_signed, read_signed, parse_int,
}

show_acc_step :
    (n : ℕ) (w : Acc ◌<◌ n) (w' : Acc ◌<◌ (n / 10)) (out : Text)
    → show_acc n w out ≡ ite (dec_lt 0 n) (show_acc (n / 10) w' ((b'0' + n % 10) ∷ out)) out
unfolding show_acc
show_acc_step n (Acc.intro _ smaller) w' out = λ i.
    dite (dec_lt 0 n)
      (λ h.
        show_acc (n / 10) (Acc-prop (smaller (n / 10) (tenth_lt h)) w' i) ((b'0' + n % 10) ∷ out))
      (λ _. out)

show_digits_step :
    (n : ℕ) (out : Text)
    → show_digits n out ≡ ite (dec_lt 0 n) (show_digits (n / 10) ((b'0' + n % 10) ∷ out)) out
unfolding show_digits
show_digits_step n = show_acc_step n _ _

read_digits_last :
    (n : ℕ) (out : Text) → read_digits (n / 10) ((b'0' + n % 10) ∷ out) ≡ read_digits n out
unfolding read_digits
read_digits_last n out = ground arith

read_digits-show_digits :
    (n : ℕ) (out : Text) → read_digits 0 (show_digits n out) ≡ read_digits n out
read_digits-show_digits n =
    WellFounded.induction lt_wf
      {C = λ m. (out : Text) → read_digits 0 (show_digits m out) ≡ read_digits m out} n
      λ m ih out. grind (arith, show_digits_step m out, read_digits_last m out, ih (m / 10))

abbrev pub IsDigits : Text → Type 0
IsDigits = All (λ d. (b'0' ≤ d) × (d ≤ b'9'))

-- Digits only, and one at least.
abbrev pub IsNumber : Text → Type 0
IsNumber [] = ⊥
IsNumber (c ∷ s) = IsDigits (c ∷ s)

show_digits-IsNumber :
    (n c : ℕ) (out : Text) → IsDigits (c ∷ out) → IsNumber (show_digits n (c ∷ out))
show_digits-IsNumber n =
    WellFounded.induction lt_wf
      {C = λ m. (c : ℕ) (out : Text) → IsDigits (c ∷ out) → IsNumber (show_digits m (c ∷ out))} n
      λ m ih c out h. elim (dec_lt 0 m) [
        | yes p ↦
            rw (show_digits_step m (c ∷ out), if_pos _ p)
              (ih (m / 10) (tenth_lt p) (b'0' + m % 10) (c ∷ out) ((omega arith, omega arith), h))
        | no p ↦ rw (show_digits_step m (c ∷ out), if_neg _ p) h
      ]

show_positive : (n : ℕ) → 0 < n → show_digits n [] ≡ show_digits (n / 10) ((b'0' + n % 10) ∷ [])
show_positive n p = rw (show_digits_step n [], if_pos _ p)

show_ℕ_cases :
    (n : ℕ) → ((n ≡ 0) × (show_ℕ n ≡ b'0' ∷ [])) ⊎ ((0 < n) × (show_ℕ n ≡ show_digits n []))
unfolding show_ℕ
show_ℕ_cases n = ground arith

pub show_ℕ-IsNumber : (n : ℕ) → IsNumber (show_ℕ n)
show_ℕ-IsNumber n = elim (show_ℕ_cases n) [
  | inl (_, e) ↦ rw e (omega arith)
  | inr (p, e) ↦
      rw (e, show_positive n p) (show_digits-IsNumber (n / 10) (b'0' + n % 10) [] (omega arith))
]

read_digits-show_ℕ : (n : ℕ) → read_digits 0 (show_ℕ n) ≡ n
read_digits-show_ℕ n = elim (show_ℕ_cases n) [
  | inl (z, e) ↦ rw e (unfold read_digits in sym z)
  | inr (p, e) ↦ rw e (read_digits-show_digits n [] ∙ unfold read_digits in refl)
]

read_number_of_IsNumber : (s : Text) → IsNumber s → read_number s ≡ some (read_digits 0 s)
read_number_of_IsNumber [] h = absurd h
read_number_of_IsNumber (c ∷ s) h = ground arith

read_number-show_ℕ : (n : ℕ) → read_number (show_ℕ n) ≡ some n
read_number-show_ℕ n =
    read_number_of_IsNumber (show_ℕ n) (show_ℕ-IsNumber n) ∙ ap some (read_digits-show_ℕ n)

is_space-digit : (c : ℕ) → b'0' ≤ c → c ≤ b'9' → is_space c ≡ false
unfolding is_space
is_space-digit c h k = ground arith

parse_int-cons : (c : ℕ) (s : Text) → is_space c ≡ false → parse_int (c ∷ s) ≡ read_signed (c ∷ s)
unfolding parse_int trim_start
parse_int-cons c s h = rw h

read_signed-digit :
    (c : ℕ) (s : Text) → b'0' ≤ c → c ≤ b'9' → read_signed (c ∷ s) ≡ positive (read_number (c ∷ s))
unfolding read_signed
read_signed-digit c s h k = ground arith

parse_int_of_IsNumber : (s : Text) → IsNumber s → parse_int s ≡ positive (read_number s)
parse_int_of_IsNumber [] h = absurd h
parse_int_of_IsNumber (c ∷ s) ((h, k), _) =
    parse_int-cons c s (is_space-digit c h k) ∙ read_signed-digit c s h k

parse_int_minus : (s : Text) → parse_int (b'-' ∷ s) ≡ negated (read_number s)
unfolding read_signed is_space
parse_int_minus s = parse_int-cons b'-' s refl

-- An integer printed in a template literal is read back by parseInt.
pub parse_int-show_ℤ : (z : ℤ) → parse_int (show_ℤ z) ≡ some z
unfolding show_ℤ
parse_int-show_ℤ (pos n) =
    parse_int_of_IsNumber (show_ℕ n) (show_ℕ-IsNumber n) ∙ ap positive (read_number-show_ℕ n)
parse_int-show_ℤ (negsuc n) =
    parse_int_minus (show_ℕ (suc n)) ∙ ap negated (read_number-show_ℕ (suc n))
