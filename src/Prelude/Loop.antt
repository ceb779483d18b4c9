-- ===== src/Prelude/Loop.antt =====
-- `for (let i = lo; i <= hi; i++)` over integers, and what such a loop collects.
use Prim.Native.Nat.{ℕ, zero, suc}
use mathlib.Core.Path.{◌≡◌, refl, sym, subst}
use mathlib.Core.Logic.{◌↔◌, ◌⊎◌, inl, inr}
use native.Mathlib.Omega.{arith}
use mizumi.Prelude.Int.{ℤ, pos, pos_part, neg_part, ◌+ℤ◌, ◌-ℤ◌, ◌≤ℤ◌, ◌<ℤ◌, int_laws}

module _ {ℓ} {S : Type ℓ} where
  -- `n` rounds from `i` on.
  unfoldable pub for_rounds : ℕ → ℤ → (ℤ → S → S) → S → S
  for_rounds zero i body s = s
  for_rounds (suc n) i body s = for_rounds n (i +ℤ pos 1) body (body i s)

  unfoldable pub for_range : ℤ → ℤ → (ℤ → S → S) → S → S
  unfolding for_rounds ◌+ℤ◌ ◌-ℤ◌
  for_range lo hi body s = for_rounds (pos_part (hi -ℤ lo +ℤ pos 1)) lo body s

for_range_lem {ℓ} :
    {S : Type ℓ} (lo hi : ℤ) (body : ℤ → S → S) (s : S)
    → for_range lo hi body s ≡ for_rounds (pos_part (hi -ℤ lo +ℤ pos 1)) lo body s
unfolding for_range
for_range_lem lo hi body s = refl

≤ℤ_cases : (lo i : ℤ) → lo ≤ℤ i → (lo ≡ i) ⊎ (lo +ℤ pos 1 ≤ℤ i)
unfolding ◌+ℤ◌
≤ℤ_cases lo i h = ground arith

one_part : (z : ℤ) → (pos_part z ≡ 0) ⊎ (neg_part z ≡ 0)
one_part z = ground arith

le_of_round : (lo hi i : ℤ) → lo ≤ℤ i → i <ℤ lo +ℤ pos (pos_part (hi -ℤ lo +ℤ pos 1)) → i ≤ℤ hi
le_of_round lo hi i a b = omega (int_laws, one_part (hi -ℤ lo +ℤ pos 1))

round_of_le : (lo hi i : ℤ) → lo ≤ℤ i → i ≤ℤ hi → i <ℤ lo +ℤ pos (pos_part (hi -ℤ lo +ℤ pos 1))
round_of_le lo hi i a b = omega (int_laws, one_part (hi -ℤ lo +ℤ pos 1))

-- `Q` holds in one of the `n` rounds from `lo` on.
abbrev pub SomeRound {μ} : (ℤ → Type μ) → ℕ → ℤ → Type μ
SomeRound Q n lo = (i : ℤ) × (lo ≤ℤ i) × (i <ℤ lo +ℤ pos n) × Q i

module _ {ℓ κ μ} {S : Type ℓ} (P : S → Type κ) (Q : ℤ → Type μ) (body : ℤ → S → S)
    (step : (i : ℤ) (s : S) → P (body i s) ↔ (P s ⊎ Q i)) where
  for_rounds_sound : (n : ℕ) (lo : ℤ) (s : S) → P (for_rounds n lo body s) → P s ⊎ SomeRound Q n lo
  unfolding for_rounds
  for_rounds_sound zero lo s h = inl h
  for_rounds_sound (suc n) lo s h = elim (for_rounds_sound n (lo +ℤ pos 1) (body lo s) h) [
    | inl p ↦ elim ((step lo s).0 p) [
      | inl q ↦ inl q
      | inr q ↦ inr (lo, omega arith, omega int_laws, q)
    ]
    | inr (i, a, b, q) ↦ inr (i, omega int_laws, omega int_laws, q)
  ]

  for_rounds_keeps : (n : ℕ) (lo : ℤ) (s : S) → P s → P (for_rounds n lo body s)
  unfolding for_rounds
  for_rounds_keeps zero lo s h = h
  for_rounds_keeps (suc n) lo s h =
      for_rounds_keeps n (lo +ℤ pos 1) (body lo s) ((step lo s).1 (inl h))

  for_rounds_complete : (n : ℕ) (lo : ℤ) (s : S) → SomeRound Q n lo → P (for_rounds n lo body s)
  unfolding for_rounds
  for_rounds_complete zero lo s (i, a, b, q) = absurd (omega int_laws)
  for_rounds_complete (suc n) lo s (i, a, b, q) = elim (≤ℤ_cases lo i a) [
    | inl e ↦ for_rounds_keeps n (lo +ℤ pos 1) (body lo s) ((step lo s).1 (inr (subst Q (sym e) q)))
    | inr h ↦ for_rounds_complete n (lo +ℤ pos 1) (body lo s) (i, h, omega int_laws, q)
  ]

  -- `P` holds after the loop exactly if it held before, or a round brought it.
  pub for_range_collects :
      (lo hi : ℤ) (s : S)
      → P (for_range lo hi body s) ↔ (P s ⊎ ((i : ℤ) × (lo ≤ℤ i) × (i ≤ℤ hi) × Q i))
  for_range_collects lo hi s = (to, from)
    where
      n : ℕ
      n = pos_part (hi -ℤ lo +ℤ pos 1)

      to : P (for_range lo hi body s) → P s ⊎ ((i : ℤ) × (lo ≤ℤ i) × (i ≤ℤ hi) × Q i)
      to h = elim (for_rounds_sound n lo s (rw (← for_range_lem lo hi body s) h)) [
        | inl p ↦ inl p
        | inr (i, a, b, q) ↦ inr (i, a, le_of_round lo hi i a b, q)
      ]

      from : P s ⊎ ((i : ℤ) × (lo ≤ℤ i) × (i ≤ℤ hi) × Q i) → P (for_range lo hi body s)
      from (inl p) = rw for_range_lem (for_rounds_keeps n lo s p)
      from (inr (i, a, b, q)) =
          rw for_range_lem (for_rounds_complete n lo s (i, a, round_of_le lo hi i a b, q))
