-- ===== src/Roadmaps/Shape.antt =====
-- What `assertValidGraph` (src/roadmaps/roadmaps.service.ts) lets pass.
use jagalchi_api.Base.{
  String, Bool, true, false, Option, none, some, List, [], ◌∷◌, ◌≡◌, subst, inl, inr, ◌&&◌, ◌||◌,
  not, length, str_eq, if_eq, Option-cases, Bool-cases, ◌≤◌, arith, ltb, ◌==◌,
}
use jagalchi_api.Roadmaps.Types.{Node, Edge, Graph, invalid_node, invalid_edge, invalid_graph}
use jagalchi_api.Roadmaps.Graph.{
  has, is_node_kind, is_placed, check_nodes, check_edges, check_lists, assert_valid_graph,
}

some_eq : {a b : List String} → some a ≡ some b → a ≡ b
some_eq h = cc

-- Every item has an identifier that none before it has, and fits; `seen` are the identifiers of
-- those before, and the last list is all of them.
pub data Numbered {A : Type 0} (id_of : A → Option String) (Fits : A → Type 0)
    : List String → List (Option A) → List String → Type 0 where
  done : {seen : List String} → Numbered id_of Fits seen [] seen
  one_more :
      {seen : List String} {x : A} {xs : List (Option A)} {ids : List String} (i : String)
      → id_of x ≡ some i
      → has i seen ≡ false
      → Fits x
      → Numbered id_of Fits (i ∷ seen) xs ids
      → Numbered id_of Fits seen (some x ∷ xs) ids

abbrev pub NodeFits : Node → Type 0
NodeFits n = (is_node_kind n.kind ≡ true) × (is_placed n.position ≡ true)

-- Both ends are nodes, and are not the same.
abbrev pub EdgeFits : List String → Edge → Type 0
EdgeFits nodes e =
    (has e.source nodes ≡ true) × (has e.target nodes ≡ true) × (str_eq e.source e.target ≡ false)

abbrev pub node_id : Node → Option String
node_id n = n.id

abbrev pub edge_id : Edge → Option String
edge_id e = e.id

node_test : (a b c : Bool) → (a && b && not c) ≡ true → (a ≡ true) × (b ≡ true) × (c ≡ false)
node_test a b c h = ground arith

edge_test :
    (a b c d : Bool)
    → (not a && b && c && not d) ≡ true
    → (a ≡ false) × (b ≡ true) × (c ≡ true) × (d ≡ false)
edge_test a b c d h = ground arith

check_nodes-Numbered :
    (seen : List String) (ns : List (Option Node)) {ids : List String}
    → check_nodes seen ns ≡ some ids
    → Numbered node_id NodeFits seen ns ids
unfolding check_nodes
check_nodes-Numbered seen [] {ids} h = subst (Numbered node_id NodeFits seen []) (some_eq h) done
check_nodes-Numbered seen (none ∷ ns) h = cc
check_nodes-Numbered seen (some n ∷ ns) {ids} h = elim (Option-cases n.id) [
  | inl e ↦ let k : none ≡ some ids = rw (e, check_nodes) at h in cc
  | inr (i, e) ↦
      elim (Bool-cases (is_node_kind n.kind && is_placed n.position && not (has i seen))) [
        | inr g ↦ let k : none ≡ some ids = rw (e, g, check_nodes) at h in cc
        | inl g ↦
            let k : check_nodes (i ∷ seen) ns ≡ some ids = rw (e, g, check_nodes) at h in
            let (a, b, c) = node_test (is_node_kind n.kind) (is_placed n.position) (has i seen) g in
            one_more i e c (a, b) (check_nodes-Numbered (i ∷ seen) ns k)
      ]
]

check_edges-Numbered :
    (nodes seen : List String) (es : List (Option Edge)) {ids : List String}
    → check_edges nodes seen es ≡ some ids
    → Numbered edge_id (EdgeFits nodes) seen es ids
unfolding check_edges
check_edges-Numbered nodes seen [] {ids} h =
    subst (Numbered edge_id (EdgeFits nodes) seen []) (some_eq h) done
check_edges-Numbered nodes seen (none ∷ es) h = cc
check_edges-Numbered nodes seen (some x ∷ es) {ids} h = elim (Option-cases x.id) [
  | inl e ↦ let k : none ≡ some ids = rw (e, check_edges) at h in cc
  | inr (i, e) ↦
      elim (Bool-cases (
        not (has i seen)
        && has x.source nodes
        && has x.target nodes
        && not (str_eq x.source x.target))) [
          | inr g ↦ let k : none ≡ some ids = rw (e, g, check_edges) at h in cc
          | inl g ↦
              let k : check_edges nodes (i ∷ seen) es ≡ some ids = rw (e, g, check_edges) at h in
              let (a, b, c, d) =
                edge_test (has i seen) (has x.source nodes) (has x.target nodes)
                  (str_eq x.source x.target) g in
              one_more i e a (b, c, d) (check_edges-Numbered nodes (i ∷ seen) es k)
        ]
]

-- A graph that is well formed: its nodes and edges are arrays of bounded length, the nodes have
-- known kinds, finite positions and distinct identifiers, the edges have distinct identifiers and
-- join two different nodes of the graph.
pub record IsWellFormed (g : Graph) : Type 0 where
  pub nodes : List (Option Node)
  pub edges : List (Option Edge)
  pub node_ids : List String
  pub edge_ids : List String
  pub first_version : g.schema_version ≡ 1
  pub node_array : g.nodes ≡ some nodes
  pub edge_array : g.edges ≡ some edges
  pub few_nodes : length nodes ≤ 1000
  pub few_edges : length edges ≤ 2000
  pub numbered_nodes : Numbered node_id NodeFits [] nodes node_ids
  pub numbered_edges : Numbered edge_id (EdgeFits node_ids) [] edges edge_ids

lists-IsWellFormed :
    (g : Graph) (ns : List (Option Node)) (es : List (Option Edge))
    → g.schema_version ≡ 1
    → g.nodes ≡ some ns
    → g.edges ≡ some es
    → check_lists ns es ≡ none
    → IsWellFormed g
lists-IsWellFormed g ns es v a b h =
    if_eq (ltb 1000 (length ns) || ltb 2000 (length es)) h (λ _ k. cc)
      (λ bound k. elim (Option-cases (check_nodes [] ns)) [
        | inl e ↦ let q : some invalid_node ≡ none = rw e at k in cc
        | inr (ids, e) ↦ elim (Option-cases (check_edges ids [] es)) [
          | inl f ↦ let q : some invalid_edge ≡ none = rw (e, f) at k in cc
          | inr (ids', f) ↦ record {
            nodes = ns;
            edges = es;
            node_ids = ids;
            edge_ids = ids';
            first_version = v;
            node_array = a;
            edge_array = b;
            few_nodes = ground arith;
            few_edges = ground arith;
            numbered_nodes = check_nodes-Numbered [] ns e;
            numbered_edges = check_edges-Numbered ids [] es f;
          }
        ]
      ])

-- Every graph that `assertValidGraph` lets pass is well formed: its nodes and edges are arrays of at
-- most 1000 and 2000, the nodes have known kinds, finite positions and distinct identifiers, and the
-- edges have distinct identifiers and join two different nodes of the graph.
pub assert_valid_graph-IsWellFormed : (g : Graph) → assert_valid_graph g ≡ none → IsWellFormed g
unfolding assert_valid_graph
assert_valid_graph-IsWellFormed g h =
    if_eq (not (g.schema_version == 1)) h (λ _ k. cc)
      (λ v k. elim (Option-cases g.nodes) [
        | inl a ↦ let q : some invalid_graph ≡ none = rw a at k in cc
        | inr (ns, a) ↦ elim (Option-cases g.edges) [
          | inl b ↦ let q : some invalid_graph ≡ none = rw (a, b) at k in cc
          | inr (es, b) ↦ lists-IsWellFormed g ns es (ground arith) a b (rw (a, b) at k)
        ]
      ])
