-- ===== src/Lineage/Closed.antt =====
-- Every edge that the lineage graph shows connects nodes that it shows.
use mizumi.Prelude.{
  ◌≡◌, refl, sym, ap, ◌∙◌, Bool, true, not, ◌&&◌, ◌||◌, List, [], ◌∷◌, Option, none, some, All,
  All-map, All-zip, filter-All, AllSome, AllSome-map, All-filter, any, filter, length, ltb, ◌==◌,
  arith, if_cases,
}
use mizumi.Text.{Text, is_empty, text_eq}
use mizumi.Text.Laws.{text_eq_self, text_eq_iff}
use mizumi.Text.Sets.{has, has-add}
use mizumi.Lineage.Ends.{HasEnds, has-filter, has-add_ends, add_ends-HasEnds}
use mizumi.Lineage.{
  LineageNode, LineageEdge, GraphView, LineageFilters, or_else, is_contains, is_visible, ids_of,
  visible_edges, add_ends, add_root, shown_root, final_nodes, matches_filters, filtered_graph,
  find_node, focused_root, neighbourhood, focused_graph, kept_containment_ancestors,
  expansion_seeds,
}

-- Every edge connects nodes of the graph, and the root is a node of the graph.
pub record IsClosed (graph : GraphView) : Type 0 where
  pub edges : All (HasEnds (ids_of graph.nodes)) graph.edges
  pub root : AllSome (λ r. has (ids_of graph.nodes) r.id ≡ true) graph.root

any-has :
    (nodes : List LineageNode) (x : Text) → any (λ n. text_eq n.id x) nodes ≡ has (ids_of nodes) x
unfolding has
any-has [] x = refl
any-has (n ∷ nodes) x = ap (λ b. text_eq n.id x || b) (any-has nodes x)

shown_root-has :
    (nodes : List LineageNode) (o : Option LineageNode)
    → AllSome (λ r. has (ids_of nodes) r.id ≡ true) (shown_root nodes o)
unfolding shown_root
shown_root-has nodes none = tt
shown_root-has nodes (some r) =
    if_cases (AllSome (λ (r : LineageNode). has (ids_of nodes) r.id ≡ true))
      (any (λ n. text_eq n.id r.id) nodes) (λ e. sym (any-has nodes r.id) ∙ e) (λ _. tt)

has-add_root :
    (o : Option LineageNode) (ids : List Text) (x : Text)
    → has ids x ≡ true
    → has (add_root o ids) x ≡ true
unfolding add_root
has-add_root none ids x h = h
has-add_root (some r) ids x h =
    if_cases (λ s. has s x ≡ true) (is_empty r.id) (λ _. h)
      (λ _. ground (arith, has-add ids r.id x, h))

module _ (to_lower_case : Text → Text) (f : LineageFilters) (graph : GraphView) where
  abbrev matched : List LineageNode
  matched = filter (matches_filters to_lower_case f) graph.nodes

  abbrev shown_edges : List LineageEdge
  shown_edges = visible_edges to_lower_case f (ids_of matched) graph.edges

  shown_edges-HasEnds : All (HasEnds (ids_of matched)) shown_edges
  unfolding visible_edges
  shown_edges-HasEnds =
      All-map
        (λ e.
          ((or_else f.include_contains true || not (is_contains e))
            && is_visible (ids_of matched) e)
          ≡ true)
        (HasEnds (ids_of matched)) shown_edges (λ e h. (ground (arith, h), ground (arith, h)))
        (filter-All _ graph.edges)

  final_nodes-HasEnds :
      All (HasEnds (ids_of (final_nodes to_lower_case f graph matched shown_edges))) shown_edges
  unfolding final_nodes
  final_nodes-HasEnds =
      let connected = add_root graph.root (add_ends shown_edges []) in
      let kept = kept_containment_ancestors (ids_of matched) graph.edges in
      let q : Text → Bool = λ id. has connected id || has kept id in
      let still : (x : Text)
          → has (ids_of matched) x ≡ true
          → has (add_ends shown_edges []) x ≡ true
          → has (ids_of (filter (λ n. q n.id) matched)) x ≡ true =
        λ x a b.
          let c = has-add_root graph.root (add_ends shown_edges []) x b in
          has-filter q matched x ∙ ground (arith, a, c) in
      if_cases (λ nodes. All (HasEnds (ids_of nodes)) shown_edges)
        (ltb 0 (length (or_else f.node_types [])) || (length shown_edges == 0))
        (λ _. shown_edges-HasEnds)
        (λ _.
          All-map (λ e. HasEnds (ids_of matched) e × HasEnds (add_ends shown_edges []) e)
            (HasEnds (ids_of (filter (λ n. q n.id) matched))) shown_edges
            (λ e (h, k). (still e.source h.0 k.0, still e.target h.1 k.1))
            (All-zip (HasEnds (ids_of matched)) (HasEnds (add_ends shown_edges [])) shown_edges
              shown_edges-HasEnds (add_ends-HasEnds shown_edges [])))

  filtered_graph-IsClosed : IsClosed (filtered_graph to_lower_case f graph)
  unfolding filtered_graph
  filtered_graph-IsClosed = record {
    edges = final_nodes-HasEnds;
    root = shown_root-has (final_nodes to_lower_case f graph matched shown_edges) graph.root;
  }

find_node-has :
    (id : Text) (nodes : List LineageNode)
    → AllSome (λ r. (has (ids_of nodes) r.id ≡ true) × (r.id ≡ id)) (find_node id nodes)
unfolding find_node has
find_node-has id [] = tt
find_node-has id (n ∷ nodes) =
    let P =
      λ (ns : List LineageNode) (r : LineageNode). (has (ids_of ns) r.id ≡ true) × (r.id ≡ id) in
    if_cases (AllSome (P (n ∷ nodes))) (text_eq n.id id)
      (λ e. (ground (arith, text_eq_self n.id), (text_eq_iff n.id id).0 e))
      (λ _.
        AllSome-map (P nodes) (P (n ∷ nodes)) (find_node id nodes)
          (λ r (a, b). (ground (arith, a), b)) (find_node-has id nodes))

focused_root-has :
    (focused : List Text) (selected : Text) (graph : GraphView) (P : Text → Type 0)
    (o : Option LineageNode)
    → ((x : Text) → has (ids_of graph.nodes) x ≡ true → has focused x ≡ true → P x)
    → has focused selected ≡ true
    → AllSome (λ r. has (ids_of graph.nodes) r.id ≡ true) o
    → AllSome (λ r. P r.id) (focused_root focused selected graph o)
unfolding focused_root
focused_root-has focused selected graph P o still here h = go o h
  where
    found : AllSome (λ (r : LineageNode). P r.id) (find_node selected graph.nodes)
    found =
        AllSome-map
          (λ (r : LineageNode). (has (ids_of graph.nodes) r.id ≡ true) × (r.id ≡ selected))
          (λ (r : LineageNode). P r.id) (find_node selected graph.nodes)
          (λ r (a, b). still r.id a (ap (has focused) b ∙ here))
          (find_node-has selected graph.nodes)

    go :
        (o : Option LineageNode)
        → AllSome (λ (r : LineageNode). has (ids_of graph.nodes) r.id ≡ true) o
        → AllSome (λ (r : LineageNode). P r.id) (focused_root focused selected graph o)
    go none h = found
    go (some r) h =
        if_cases (AllSome (λ (r : LineageNode). P r.id)) (has focused r.id) (λ b. still r.id h b)
          (λ _. found)

has_self : (x : Text) → has (x ∷ []) x ≡ true
unfolding has
has_self x = ground (arith, text_eq_self x)

module _ (selected : Text) (expanded : List Text) (graph : GraphView) (h : IsClosed graph) where
  neighbourhood-IsClosed : IsClosed (neighbourhood selected expanded graph)
  unfolding neighbourhood
  neighbourhood-IsClosed =
      let seeds = expansion_seeds selected expanded graph in
      let edges = filter (λ e. has seeds e.source || has seeds e.target) graph.edges in
      let focused = add_ends edges (selected ∷ []) in
      let still : (x : Text)
          → has (ids_of graph.nodes) x ≡ true
          → has focused x ≡ true
          → has (ids_of (filter (λ n. has focused n.id) graph.nodes)) x ≡ true =
        λ x a b. has-filter (has focused) graph.nodes x ∙ ground (arith, a, b) in
      record {
        edges =
            All-map (λ e. HasEnds (ids_of graph.nodes) e × HasEnds focused e)
              (HasEnds (ids_of (filter (λ n. has focused n.id) graph.nodes))) edges
              (λ e (a, b). (still e.source a.0 b.0, still e.target a.1 b.1))
              (All-zip (HasEnds (ids_of graph.nodes)) (HasEnds focused) edges
                (All-filter (HasEnds (ids_of graph.nodes)) _ graph.edges h.edges)
                (add_ends-HasEnds edges (selected ∷ [])));
        root =
            focused_root-has focused selected graph
              (λ x. has (ids_of (filter (λ n. has focused n.id) graph.nodes)) x ≡ true) graph.root
              still (has-add_ends edges (selected ∷ []) selected (has_self selected)) h.root;
      }

focused_graph-IsClosed_of :
    (selected : Option Text) (expanded : List Text) (graph : GraphView)
    → IsClosed graph
    → IsClosed (focused_graph selected expanded graph)
unfolding focused_graph
focused_graph-IsClosed_of none expanded graph h = h
focused_graph-IsClosed_of (some []) expanded graph h = h
focused_graph-IsClosed_of (some (c ∷ s)) expanded graph h =
    if_cases IsClosed (any (λ n. text_eq n.id (c ∷ s)) graph.nodes)
      (λ _. neighbourhood-IsClosed (c ∷ s) expanded graph h) (λ _. h)

-- Whatever graph the server sends, with any filters, selection and expanded nodes: both ends of
-- every edge that is shown are nodes that are shown, and so is the root, if there is one.
pub focused_graph-IsClosed :
    (to_lower_case : Text → Text) (f : LineageFilters) (selected : Option Text)
    (expanded : List Text) (graph : GraphView)
    → IsClosed (focused_graph selected expanded (filtered_graph to_lower_case f graph))
focused_graph-IsClosed to_lower_case f selected expanded graph =
    focused_graph-IsClosed_of selected expanded (filtered_graph to_lower_case f graph)
      (filtered_graph-IsClosed to_lower_case f graph)
