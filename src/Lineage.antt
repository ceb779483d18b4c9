-- ===== src/Lineage.antt =====
-- The lineage graph of the web interface: what LineageGraph in
-- packages/webui/app/(authed)/pipelines/assets/[...path]/LineageGraph.tsx shows of the graph that the
-- server sends, filteredGraph and focusedGraph. The layout is dagre's and is left out.
pub mod Ancestors
pub mod Closed
pub mod Ends
mod Tests
use mizumi.Prelude.{
  ℕ, zero, suc, Bool, true, false, not, ◌&&◌, ◌||◌, List, [], ◌∷◌, map, Option, none, some, any,
  filter, length, ltb, ◌==◌, if◌then◌else◌,
}
use mizumi.Text.{Text, codes, is_empty, text_eq, includes}
use mizumi.Text.Trim.{trim}
use mizumi.Text.Sets.{has, add}

pub record RuntimeInfo : Type 0 where
  pub latest_run_started_at : Option Text
  pub latest_materialization_at : Option Text
  pub unstarted_run_ids : List Text
  pub in_progress_run_ids : List Text

pub record LineageNode : Type 0 where
  pub id : Text
  pub node_type : Text
  pub platform : Text
  pub name : Text
  pub display_name : Text
  pub runtime : Option RuntimeInfo

pub record LineageEdge : Type 0 where
  pub source : Text
  pub target : Text
  pub edge_type : Text

-- LineageGraphView; the server's graph has no containment edges.
pub record GraphView : Type 0 where
  pub nodes : List LineageNode
  pub edges : List LineageEdge
  pub containment_edges : List LineageEdge
  pub root : Option LineageNode

-- Each of them may be missing.
pub record LineageFilters : Type 0 where
  pub query : Option Text
  pub node_types : Option (List Text)
  pub include_contains : Option Bool
  pub runtime_only : Option Bool

-- `value ?? otherwise`
abbrev or_else {ℓ} : {A : Type ℓ} → Option A → A → A
or_else none otherwise = otherwise
or_else (some a) otherwise = a

abbrev is_filled : Option Text → Bool
is_filled none = false
is_filled (some s) = not (is_empty s)

abbrev pub is_contains : LineageEdge → Bool
is_contains e = text_eq e.edge_type (codes "contains")

abbrev pub ids_of : List LineageNode → List Text
ids_of nodes = map (λ n. n.id) nodes

unfoldable pub has_runs : Option RuntimeInfo → Bool
has_runs none = false
has_runs (some r) =
    is_filled r.latest_materialization_at
    || is_filled r.latest_run_started_at
    || ltb 0 (length r.in_progress_run_ids)
    || ltb 0 (length r.unstarted_run_ids)

-- Both ends are among the visible nodes.
abbrev pub is_visible : List Text → LineageEdge → Bool
is_visible visible e = has visible e.source && has visible e.target

-- A round of the `for` over the edges, on the set of kept ancestors and on `changed`.
unfoldable pub keep_ancestor : List Text → LineageEdge → List Text → Bool → List Text × Bool
keep_ancestor visible e kept changed =
    if not (is_contains e) || not (is_visible visible e)
    then (kept, changed)
    else if has visible e.target || has kept e.target
    then if not (has kept e.source) then (add e.source kept, true) else (kept, changed)
    else (kept, changed)

unfoldable pub keep_pass : List Text → List LineageEdge → List Text → Bool → List Text × Bool
unfolding keep_ancestor
keep_pass visible [] kept changed = (kept, changed)
keep_pass visible (e ∷ es) kept changed =
    let next = keep_ancestor visible e kept changed in keep_pass visible es next.0 next.1

-- `while (changed)`, with at most so many rounds; none where they are not enough.
unfoldable pub keep_ancestors : ℕ → List Text → List LineageEdge → List Text → Option (List Text)
unfolding keep_pass
keep_ancestors zero visible edges kept = none
keep_ancestors (suc n) visible edges kept =
    let next = keep_pass visible edges kept false in
    let rest = keep_ancestors n visible edges next.0 in if next.1 then rest else some next.0

-- Two rounds are enough.
unfoldable pub kept_containment_ancestors : List Text → List LineageEdge → List Text
unfolding keep_ancestors
kept_containment_ancestors visible edges = or_else (keep_ancestors 2 visible edges []) []

-- The ends of the edges, added to a set.
unfoldable pub add_ends : List LineageEdge → List Text → List Text
add_ends [] ids = ids
add_ends (e ∷ es) ids = add_ends es (add e.target (add e.source ids))

unfoldable pub add_root : Option LineageNode → List Text → List Text
add_root none ids = ids
add_root (some r) ids = if is_empty r.id then ids else add r.id ids

-- The root, if its node is shown.
unfoldable pub shown_root : List LineageNode → Option LineageNode → Option LineageNode
unfolding text_eq
shown_root nodes none = none
shown_root nodes (some r) = if any (λ n. text_eq n.id r.id) nodes then some r else none

-- `to_lower_case` is String.prototype.toLowerCase.
module _ (to_lower_case : Text → Text) where
  -- `matchesQuery`
  unfoldable pub matches_query : Text → LineageNode → Bool
  unfolding includes
  matches_query query n =
      (length query == 0)
      || includes (to_lower_case n.display_name) query
      || includes (to_lower_case n.name) query
      || includes (to_lower_case n.node_type) query
      || includes (to_lower_case n.platform) query

  unfoldable pub matches_filters : LineageFilters → LineageNode → Bool
  unfolding matches_query has_runs trim has
  matches_filters f n =
      let query = to_lower_case (trim (or_else f.query [])) in
      let allowed = or_else f.node_types [] in
      matches_query query n
      && (not (ltb 0 (length allowed)) || has allowed n.node_type)
      && (not (or_else f.runtime_only false) || has_runs n.runtime)

  unfoldable pub visible_edges : LineageFilters → List Text → List LineageEdge → List LineageEdge
  unfolding has
  visible_edges f visible edges =
      filter (λ e. (or_else f.include_contains true || not (is_contains e)) && is_visible visible e)
        edges

  -- `finalNodes`
  unfoldable pub final_nodes :
      LineageFilters → GraphView → List LineageNode → List LineageEdge → List LineageNode
  unfolding add_ends add_root kept_containment_ancestors has
  final_nodes f graph matched edges =
      let connected = add_root graph.root (add_ends edges []) in
      let kept = kept_containment_ancestors (ids_of matched) graph.edges in
      if ltb 0 (length (or_else f.node_types [])) || (length edges == 0)
      then matched
      else filter (λ n. has connected n.id || has kept n.id) matched

  unfoldable pub filtered_graph : LineageFilters → GraphView → GraphView
  unfolding matches_filters visible_edges final_nodes shown_root
  filtered_graph f graph =
      let matched = filter (matches_filters f) graph.nodes in
      let visible = ids_of matched in
      let edges = visible_edges f visible graph.edges in
      let nodes = final_nodes f graph matched edges in
      record {
        nodes = nodes;
        edges = edges;
        containment_edges = filter (λ e. is_contains e && is_visible visible e) graph.edges;
        root = shown_root nodes graph.root;
      }

-- `filteredGraph.nodes.find((node) => node.id === id) ?? null`
unfoldable pub find_node : Text → List LineageNode → Option LineageNode
unfolding text_eq
find_node id [] = none
find_node id (n ∷ nodes) = let rest = find_node id nodes in if text_eq n.id id then some n else rest

unfoldable pub focused_root : List Text → Text → GraphView → Option LineageNode → Option LineageNode
unfolding find_node has
focused_root focused selected graph none = find_node selected graph.nodes
focused_root focused selected graph (some r) =
    if has focused r.id then some r else find_node selected graph.nodes

-- `expansionSeeds`: the selected node and the expanded ones that are shown.
unfoldable pub expansion_seeds : Text → List Text → GraphView → List Text
unfolding text_eq
expansion_seeds selected expanded graph =
    selected ∷ filter (λ id. any (λ n. text_eq n.id id) graph.nodes) expanded

-- The neighbourhood of a node that is shown.
unfoldable pub neighbourhood : Text → List Text → GraphView → GraphView
unfolding expansion_seeds add_ends focused_root has
neighbourhood selected expanded graph =
    let seeds = expansion_seeds selected expanded graph in
    let edges = filter (λ e. has seeds e.source || has seeds e.target) graph.edges in
    let focused = add_ends edges (selected ∷ []) in
    record {
      nodes = filter (λ n. has focused n.id) graph.nodes;
      edges = edges;
      containment_edges =
          filter (λ e. has focused e.source && has focused e.target) graph.containment_edges;
      root = focused_root focused selected graph graph.root;
    }

-- `selected` is the selected node, where the selection of neighbourhoods is enabled.
unfoldable pub focused_graph : Option Text → List Text → GraphView → GraphView
unfolding neighbourhood text_eq
focused_graph none expanded graph = graph
focused_graph (some []) expanded graph = graph
focused_graph (some (c ∷ selected)) expanded graph =
    if any (λ n. text_eq n.id (c ∷ selected)) graph.nodes
    then neighbourhood (c ∷ selected) expanded graph
    else graph
