-- ===== src/Roadmaps/Graph.antt =====
-- `assertValidGraph` of src/roadmaps/roadmaps.service.ts.
use jagalchi_api.Base.{
  String, Bool, true, false, Option, none, some, List, [], ◌∷◌, ◌&&◌, ◌||◌, not, any, length,
  str_eq, ltb, ◌==◌, if◌then◌else◌,
}
use jagalchi_api.Roadmaps.Types.{
  Coordinate, finite, not_finite, Position, Node, Edge, Graph, Error, invalid_graph, invalid_node,
  invalid_edge,
}

-- `has` of a set of strings
abbrev pub has : String → List String → Bool
has x xs = any (str_eq x) xs

abbrev is_finite : Coordinate → Bool
is_finite (finite _) = true
is_finite not_finite = false

abbrev pub is_placed : Option Position → Bool
is_placed none = false
is_placed (some p) = is_finite p.x && is_finite p.y

abbrev pub is_node_kind : String → Bool
is_node_kind k =
    str_eq k "jagalchi-node"
    || str_eq k "jagalchi-section"
    || str_eq k "jagalchi-text"
    || str_eq k "detail-node"

abbrev new_node_id : List String → Node → Option String → Option String
new_node_id seen n none = none
new_node_id seen n (some i) =
    if is_node_kind n.kind && is_placed n.position && not (has i seen) then some i else none

-- The identifier of a node that passes.
abbrev pub accept_node : List String → Option Node → Option String
accept_node seen none = none
accept_node seen (some n) = new_node_id seen n n.id

-- The loop over the nodes: the set of their identifiers, if all of them pass.
unfoldable pub check_nodes : List String → List (Option Node) → Option (List String)
check_nodes seen [] = some seen
check_nodes seen (n ∷ ns) = elim (accept_node seen n) [
  | none ↦ none
  | some i ↦ check_nodes (i ∷ seen) ns
]

abbrev new_edge_id : List String → List String → Edge → Option String → Option String
new_edge_id nodes seen e none = none
new_edge_id nodes seen e (some i) =
    if not (has i seen)
      && has e.source nodes
      && has e.target nodes
      && not (str_eq e.source e.target)
    then some i
    else none

abbrev pub accept_edge : List String → List String → Option Edge → Option String
accept_edge nodes seen none = none
accept_edge nodes seen (some e) = new_edge_id nodes seen e e.id

-- The loop over the edges.
unfoldable pub check_edges : List String → List String → List (Option Edge) → Option (List String)
check_edges nodes seen [] = some seen
check_edges nodes seen (e ∷ es) = elim (accept_edge nodes seen e) [
  | none ↦ none
  | some i ↦ check_edges nodes (i ∷ seen) es
]

abbrev pub check_lists : List (Option Node) → List (Option Edge) → Option Error
check_lists ns es =
    if ltb 1000 (length ns) || ltb 2000 (length es)
    then some invalid_graph
    else elim (check_nodes [] ns) [
      | none ↦ some invalid_node
      | some ids ↦ elim (check_edges ids [] es) [ none ↦ some invalid_edge | some _ ↦ none ]
    ]

abbrev pub check_arrays : Option (List (Option Node)) → Option (List (Option Edge)) → Option Error
check_arrays (some ns) (some es) = check_lists ns es
check_arrays _ _ = some invalid_graph

-- What `assertValidGraph` throws; `none` where it returns.
unfoldable pub assert_valid_graph : Graph → Option Error
unfolding check_nodes check_edges any
assert_valid_graph g =
    if not (g.schema_version == 1) then some invalid_graph else check_arrays g.nodes g.edges
