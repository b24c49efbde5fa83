-- ===== src/Realtime/Graph.antt =====
-- `applyOperation` and its tests (src/realtime/realtime.service.ts). Nodes and edges are JSON objects.
-- The name of an operation is given by its two halves; numbers stand for finite ones.
use mathlib.Core.List.{◌++◌}
use jagalchi_api.Base.{
  ℕ, String, Bool, true, false, Option, none, some, List, [], ◌∷◌, ◌+◌, ◌&&◌, ◌||◌, not, str_eq,
  is_some, is_text, if◌then◌else◌, any, keep, decimal, find_where,
}
use jagalchi_api.Json.{Json, Items, Fields, num, text, arr, obj, nil, cons, end, field, get_field}

pub data OperationTarget : Type 0 where
  node_target edge_target section_target text_target group_target resource_target : OperationTarget

pub data OperationVerb : Type 0 where
  create_verb update_verb delete_verb : OperationVerb

pub record RoadmapOperation : Type 0 where
  pub target : OperationTarget
  pub verb : OperationVerb
  pub target_id : String
  pub value : Option Fields

-- The columns of a roadmap that an operation reads or writes.
pub record EditedRoadmap : Type 0 where
  pub id : String
  pub owner_id : String
  pub title : String
  pub nodes : List Fields
  pub edges : List Fields

-- A text that is trimmed, and cut to 120 units.
pub record TitleText : Type 0 where
  pub trim : String → String
  pub first_120 : String → String

-- The entries of an array, as a spread sees them.
unfoldable pub indexed : ℕ → Items → Fields
indexed n nil = end
indexed n (cons x xs) = field (decimal n) x (indexed (n + 1) xs)

-- A value that is an object or an array, and not null.
unfoldable pub as_object : Option Json → Option Fields
unfolding indexed
as_object (some (obj fs)) = some fs
as_object (some (arr xs)) = some (indexed 0 xs)
as_object _ = none

abbrev pub of_object : String → Option Fields → Option Json
of_object k none = none
of_object k (some fs) = get_field k fs

-- A member that is a text.
unfoldable pub text_at : String → Fields → Option String
unfolding get_field
text_at k fs = elim (get_field k fs) [
  | some v ↦ elim v [ text s ↦ some s | _ ↦ none ]
  | none ↦ none
]

unfoldable pub set_field : String → Json → Fields → Fields
set_field k v end = field k v end
set_field k v (field j w fs) =
    let rest = set_field k v fs in if str_eq j k then field j v fs else field j w rest

-- `{ ...left, ...right }`
unfoldable pub spread : Fields → Fields → Fields
unfolding set_field
spread left end = left
spread left (field k v right) = spread (set_field k v left) right

unfoldable pub has_id : String → Fields → Bool
unfolding text_at
has_id t fs = is_text (text_at "id" fs) t

unfoldable pub is_number : Option Json → Bool
is_number (some (num _)) = true
is_number _ = false

unfoldable pub is_node_type : Option Json → Bool
is_node_type (some (text s)) =
    str_eq s "jagalchi-node"
    || str_eq s "jagalchi-section"
    || str_eq s "jagalchi-text"
    || str_eq s "detail-node"
is_node_type _ = false

-- `isGraphNode`
unfoldable pub is_graph_node : Fields → String → Bool
unfolding has_id is_node_type as_object is_number get_field
is_graph_node value target =
    let position = as_object (get_field "position" value) in
    has_id target value
    && is_node_type (get_field "type" value)
    && is_some position
    && is_number (of_object "x" position)
    && is_number (of_object "y" position)
    && is_some (as_object (get_field "data" value))

-- The ends of an edge are two texts.
unfoldable pub joins_two : Fields → Bool
unfolding text_at
joins_two value = elim (text_at "source" value) [
  | none ↦ false
  | some s ↦ elim (text_at "target" value) [ none ↦ false | some t ↦ not (str_eq s t) ]
]

-- `isGraphEdge`
unfoldable pub is_graph_edge : Fields → String → Bool
unfolding has_id joins_two
is_graph_edge value target = has_id target value && joins_two value

-- `edgeNodesExist`
unfoldable pub edge_nodes_exist : List Fields → Fields → Bool
unfolding has_id text_at any
edge_nodes_exist nodes value = elim (text_at "source" value) [
  | none ↦ false
  | some s ↦ elim (text_at "target" value) [
    | none ↦ false
    | some t ↦ any (has_id s) nodes && any (has_id t) nodes
  ]
]

-- `xs[findIndex(…)] = x`
unfoldable pub replace_first : (Fields → Bool) → Fields → List Fields → List Fields
replace_first p x [] = []
replace_first p x (y ∷ ys) = let rest = replace_first p x ys in if p y then x ∷ ys else y ∷ rest

-- `{ ...existing, ...next, id: targetId }`
unfoldable pub candidate : Fields → Fields → String → Fields
unfolding spread set_field
candidate existing next target = set_field "id" (text target) (spread existing next)

unfoldable pub touches : String → Fields → Bool
unfolding text_at
touches target edge =
    is_text (text_at "source" edge) target || is_text (text_at "target" edge) target

-- The case of an edge: a new one, one that is there, and either. `none` is a throw.
unfoldable pub new_edge : OperationVerb → String → Fields → EditedRoadmap → Option EditedRoadmap
unfolding is_graph_edge edge_nodes_exist
new_edge create_verb target next r =
    if is_graph_edge next target && edge_nodes_exist r.nodes next
    then some (record r { edges = r.edges ++ (next ∷ []) })
    else some r
new_edge _ target next r = some r

unfoldable pub edit_edge : OperationVerb → String → Fields → EditedRoadmap → Option EditedRoadmap
unfolding new_edge find_where has_id candidate is_graph_edge edge_nodes_exist replace_first
edit_edge verb target next r = elim (find_where (has_id target) r.edges) [
  | none ↦ new_edge verb target next r
  | some existing ↦
      let changed = candidate existing next target in
      if not (is_graph_edge changed target) || not (edge_nodes_exist r.nodes changed)
      then none
      else some (record r { edges = replace_first (has_id target) changed r.edges })
]

unfoldable pub apply_to_edge :
    OperationVerb → String → Option Fields → EditedRoadmap → Option EditedRoadmap
unfolding edit_edge has_id keep
apply_to_edge delete_verb target next r =
    some (record r { edges = keep (λ e. not (has_id target e)) r.edges })
apply_to_edge verb target none r = some r
apply_to_edge verb target (some next) r = edit_edge verb target next r

-- The case of a node, likewise.
unfoldable pub new_node : OperationVerb → String → Fields → EditedRoadmap → Option EditedRoadmap
unfolding is_graph_node
new_node create_verb target next r =
    if is_graph_node next target then some (record r { nodes = r.nodes ++ (next ∷ []) }) else some r
new_node _ target next r = some r

unfoldable pub edit_node : OperationVerb → String → Fields → EditedRoadmap → Option EditedRoadmap
unfolding new_node find_where has_id candidate is_graph_node replace_first
edit_node verb target next r = elim (find_where (has_id target) r.nodes) [
  | none ↦ new_node verb target next r
  | some existing ↦
      let changed = candidate existing next target in
      if not (is_graph_node changed target)
      then none
      else some (record r { nodes = replace_first (has_id target) changed r.nodes })
]

unfoldable pub apply_to_node :
    OperationVerb → String → Option Fields → EditedRoadmap → Option EditedRoadmap
unfolding edit_node has_id touches keep
apply_to_node delete_verb target next r = some (record r {
  nodes = keep (λ n. not (has_id target n)) r.nodes;
  edges = keep (λ e. not (touches target e)) r.edges;
})
apply_to_node verb target none r = some r
apply_to_node verb target (some next) r = edit_node verb target next r

-- The title that the data of an operation gives.
unfoldable pub new_title : TitleText → Option Json → String → String
new_title texts (some (text s)) title =
    let trimmed = texts.trim s in if str_eq trimmed "" then title else texts.first_120 trimmed
new_title texts _ title = title

-- `applyOperation`
unfoldable pub apply_operation : TitleText → RoadmapOperation → EditedRoadmap → Option EditedRoadmap
unfolding as_object apply_to_edge apply_to_node new_title get_field
apply_operation texts op r =
    let payload = as_object (of_object "payload" op.value) in
    let data_of = as_object (of_object "data" payload) in
    let next = as_object (of_object "next" payload) in
    let titled = record r { title = new_title texts (of_object "title" data_of) r.title } in
    elim op.target [
      | edge_target ↦ apply_to_edge op.verb op.target_id next titled
      | _ ↦ apply_to_node op.verb op.target_id next titled
    ]
