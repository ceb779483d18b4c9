-- ===== src/Lineage/Ancestors.antt =====
-- The loop that keeps the ancestors by containment ends after two rounds.
use mizumi.Prelude.{
  ℕ, suc, ◌≡◌, refl, ap, ◌∙◌, Bool, true, false, not, ◌&&◌, List, [], ◌∷◌, some, All, arith,
  Bool-cases, inl, inr, if◌then◌else◌,
}
use mizumi.Text.{Text}
use mizumi.Text.Laws.{text_eq_self}
use mizumi.Text.Sets.{has, add, has-add}
use mizumi.Lineage.{LineageEdge, is_contains, is_visible, keep_ancestor, keep_pass, keep_ancestors}

module _ (visible : List Text) where
  -- The edge is one of containment between visible nodes.
  abbrev pub counts : LineageEdge → Bool
  counts e = is_contains e && is_visible visible e

  -- What a round does to the set, in one condition: the target is visible where the edge counts.
  keep_ancestor_lem :
      (e : LineageEdge) (kept : List Text) (changed : Bool)
      → keep_ancestor visible e kept changed ≡ (
          if counts e && not (has kept e.source)
          then (add e.source kept, true)
          else (kept, changed))
  unfolding keep_ancestor
  keep_ancestor_lem e kept changed = ground arith

  keep_ancestor-keeps :
      (e : LineageEdge) (kept : List Text) (changed : Bool) (x : Text)
      → has kept x ≡ true
      → has (keep_ancestor visible e kept changed).0 x ≡ true
  keep_ancestor-keeps e kept changed x h = elim (Bool-cases (counts e && not (has kept e.source))) [
    | inl b ↦ rw (keep_ancestor_lem e kept changed, b) (ground (arith, has-add kept e.source x, h))
    | inr b ↦ rw (keep_ancestor_lem e kept changed, b) h
  ]

  keep_ancestor-brings :
      (e : LineageEdge) (kept : List Text) (changed : Bool)
      → counts e ≡ true
      → has (keep_ancestor visible e kept changed).0 e.source ≡ true
  keep_ancestor-brings e kept changed c = elim (Bool-cases (counts e && not (has kept e.source))) [
    | inl b ↦
        rw (keep_ancestor_lem e kept changed, b)
          (ground (arith, has-add kept e.source e.source, text_eq_self e.source))
    | inr b ↦ rw (keep_ancestor_lem e kept changed, b) (ground (arith, b, c))
  ]

  keep_pass-keeps :
      (es : List LineageEdge) (kept : List Text) (changed : Bool) (x : Text)
      → has kept x ≡ true
      → has (keep_pass visible es kept changed).0 x ≡ true
  unfolding keep_pass
  keep_pass-keeps [] kept changed x h = h
  keep_pass-keeps (e ∷ es) kept changed x h =
      keep_pass-keeps es _ _ x (keep_ancestor-keeps e kept changed x h)

  -- Every edge that counts has its source in the set.
  abbrev pub IsKept : List Text → List LineageEdge → Type 0
  IsKept kept = All (λ e. counts e ≡ true → has kept e.source ≡ true)

  keep_pass-IsKept :
      (es : List LineageEdge) (kept : List Text) (changed : Bool)
      → IsKept (keep_pass visible es kept changed).0 es
  unfolding keep_pass
  keep_pass-IsKept [] kept changed = tt
  keep_pass-IsKept (e ∷ es) kept changed =
      let next = keep_ancestor visible e kept changed in
      (
        λ c. keep_pass-keeps es next.0 next.1 e.source (keep_ancestor-brings e kept changed c),
        keep_pass-IsKept es next.0 next.1,
      )

  keep_pass-again :
      (es : List LineageEdge) (kept : List Text)
      → IsKept kept es
      → keep_pass visible es kept false ≡ (kept, false)
  unfolding keep_pass
  keep_pass-again [] kept h = refl
  keep_pass-again (e ∷ es) kept (h, hs) =
      let same : keep_ancestor visible e kept false ≡ (kept, false) =
        keep_ancestor_lem e kept false
        ∙ (let b : (counts e && not (has kept e.source)) ≡ false = ground (arith, h) in
            rw b refl) in
      ap (λ next. keep_pass visible es next.0 next.1) same ∙ keep_pass-again es kept hs

  -- Two rounds of the `while` are always enough: with any larger number of rounds it ends as well,
  -- and with the set that the first round makes, in which every edge of containment between
  -- visible nodes has its source.
  pub keep_ancestors-ends :
      (n : ℕ) (edges : List LineageEdge) (kept : List Text)
      → (keep_ancestors (suc (suc n)) visible edges kept
          ≡ some (keep_pass visible edges kept false).0)
        × IsKept (keep_pass visible edges kept false).0 edges
  unfolding keep_ancestors
  keep_ancestors-ends n edges kept =
      let first = keep_pass visible edges kept false in
      let all_kept = keep_pass-IsKept edges kept false in
      let again = keep_pass-again edges first.0 all_kept in
      (elim (Bool-cases first.1) [ inl b ↦ rw (b, again) refl | inr b ↦ rw b refl ], all_kept)
