-- ===== src/Lineage/Ends.antt =====
-- The ends of the edges of the lineage graph, as sets of ids.
use mizumi.Prelude.{
  ◌≡◌, refl, ap, ◌∙◌, Bool, true, false, ◌&&◌, ◌||◌, List, [], ◌∷◌, All, filter, arith,
  if◌then◌else◌,
}
use mizumi.Text.{Text, text_eq}
use mizumi.Text.Laws.{text_eq_self, text_eq_iff}
use mizumi.Text.Sets.{has, add, has-add}
use mizumi.Lineage.{LineageNode, LineageEdge, ids_of, add_ends}

-- Both ends of the edge are in the set.
abbrev pub HasEnds : List Text → LineageEdge → Type 0
HasEnds ids e = (has ids e.source ≡ true) × (has ids e.target ≡ true)

pub has-filter :
    (q : Text → Bool) (nodes : List LineageNode) (x : Text)
    → has (ids_of (filter (λ n. q n.id) nodes)) x ≡ (has (ids_of nodes) x && q x)
unfolding has
has-filter q [] x = refl
has-filter q (n ∷ nodes) x =
    has_if (q n.id) (filter (λ m. q m.id) nodes) ∙ ground (arith, has-filter q nodes x, same)
  where
    has_if :
        (b : Bool) (rest : List LineageNode)
        → has (ids_of (if b then n ∷ rest else rest)) x
          ≡ ((b && text_eq n.id x) || has (ids_of rest) x)
    has_if true rest = refl
    has_if false rest = refl

    same : text_eq n.id x ≡ true → q n.id ≡ q x
    same e = ap q ((text_eq_iff n.id x).0 e)

pub has-add_ends :
    (es : List LineageEdge) (ids : List Text) (x : Text)
    → has ids x ≡ true
    → has (add_ends es ids) x ≡ true
unfolding add_ends
has-add_ends [] ids x h = h
has-add_ends (e ∷ es) ids x h =
    has-add_ends es (add e.target (add e.source ids)) x
      (ground (arith, has-add (add e.source ids) e.target x, has-add ids e.source x, h))

pub add_ends-HasEnds :
    (es : List LineageEdge) (ids : List Text) → All (HasEnds (add_ends es ids)) es
unfolding add_ends
add_ends-HasEnds [] ids = tt
add_ends-HasEnds (e ∷ es) ids =
    let next = add e.target (add e.source ids) in
    (
      (
        has-add_ends es next e.source (
            ground (
              arith,
              has-add (add e.source ids) e.target e.source,
              has-add ids e.source e.source,
              text_eq_self e.source,
            )),
        has-add_ends es next e.target
            (ground (arith, has-add (add e.source ids) e.target e.target, text_eq_self e.target)),
      ),
      add_ends-HasEnds es next,
    )
