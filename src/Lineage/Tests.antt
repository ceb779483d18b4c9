-- ===== src/Lineage/Tests.antt =====
-- A catalog, its schema and a table, and a table on its own.
use mizumi.Prelude.{◌≡◌, refl, false, List, [], ◌∷◌, none, some}
use mizumi.Text.{Text, codes, text_eq}
use mizumi.Text.Sets.{has, add}
use mizumi.Lineage.{
  LineageNode, LineageEdge, GraphView, LineageFilters, ids_of, keep_pass, keep_ancestors,
  kept_containment_ancestors, filtered_graph, focused_graph,
}
use mizumi.Lineage.Ancestors.{IsKept, keep_ancestors-ends}
use mizumi.Lineage.Closed.{IsClosed, focused_graph-IsClosed}

abbrev node : Text → Text → LineageNode
node id kind = record {
  id = id;
  node_type = kind;
  platform = codes "lake";
  name = id;
  display_name = id;
  runtime = none;
}

abbrev contains : Text → Text → LineageEdge
contains source target = record { source = source; target = target; edge_type = codes "contains" }

abbrev edges : List LineageEdge
edges = contains (codes "schema") (codes "table") ∷ contains (codes "catalog") (codes "schema") ∷ []

abbrev graph : GraphView
graph = record {
  nodes =
      node (codes "catalog") (codes "catalog")
      ∷ node (codes "schema") (codes "schema")
      ∷ node (codes "table") (codes "table")
      ∷ node (codes "other") (codes "table")
      ∷ [];
  edges = edges;
  containment_edges = [];
  root = none;
}

abbrev no_filters : LineageFilters
no_filters = record {
  query = none;
  node_types = none;
  include_contains = none;
  runtime_only = none;
}

ancestors :
    kept_containment_ancestors (ids_of graph.nodes) edges ≡ codes "schema" ∷ codes "catalog" ∷ []
unfolding kept_containment_ancestors text_eq has add
ancestors = refl

keep_ancestors-ends_example :
    (keep_ancestors 5 (ids_of graph.nodes) edges []
      ≡ some (keep_pass (ids_of graph.nodes) edges [] false).0)
    × IsKept (ids_of graph.nodes) (keep_pass (ids_of graph.nodes) edges [] false).0 edges
keep_ancestors-ends_example = keep_ancestors-ends (ids_of graph.nodes) 3 edges []

focused_graph-IsClosed_example :
    IsClosed (focused_graph (some (codes "schema")) [] (filtered_graph (λ s. s) no_filters graph))
focused_graph-IsClosed_example =
    focused_graph-IsClosed (λ s. s) no_filters (some (codes "schema")) [] graph
