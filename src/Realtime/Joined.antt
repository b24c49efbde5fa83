-- ===== src/Realtime/Joined.antt =====
-- The graphs that the operations of src/realtime/realtime.service.ts keep.
use mathlib.Core.List.{◌++◌}
use jagalchi_api.Base.{
  String, Bool, true, false, Option, none, some, [], ◌∷◌, ◌≡◌, subst, inl, inr, ◌&&◌, ◌||◌, not,
  keep, find_where, All-map, All-zip, All-keep, keep-All, All-append, if_ind, Option-cases, arith,
}
use jagalchi_api.Json.{Fields}
use jagalchi_api.Realtime.Graph.{
  OperationTarget, edge_target, node_target, section_target, text_target, group_target,
  resource_target, OperationVerb, create_verb, update_verb, delete_verb, RoadmapOperation,
  EditedRoadmap, TitleText, has_id, is_graph_edge, is_graph_node, edge_nodes_exist, replace_first,
  candidate, touches, new_edge, edit_edge, new_node, edit_node, apply_to_edge, apply_to_node,
  apply_operation, as_object, of_object, new_title,
}
use jagalchi_api.Realtime.Edges.{
  IsJoined, AllJoined, All-replace_first, both, covered, any-append, any-replace_first,
  removed_node,
}

-- What an operation makes of a roadmap, where it does not throw.
abbrev IsKept : Option EditedRoadmap → Type 0
IsKept none = Unit
IsKept (some r) = AllJoined r

new_edge-IsKept :
    (verb : OperationVerb) (target : String) (next : Fields) (r : EditedRoadmap)
    → AllJoined r
    → IsKept (new_edge verb target next r)
unfolding new_edge is_graph_edge
new_edge-IsKept create_verb target next r h =
    if_ind IsKept (is_graph_edge next target && edge_nodes_exist r.nodes next)
      (λ e.
        let (shape, there) = both (is_graph_edge next target) _ e in
        All-append (λ x. IsJoined r.nodes x) r.edges (next ∷ []) h
          ((there, (both (has_id target next) _ shape).1), tt))
      (λ _. h)
new_edge-IsKept update_verb target next r h = h
new_edge-IsKept delete_verb target next r h = h

edit_edge-IsKept :
    (verb : OperationVerb) (target : String) (next : Fields) (r : EditedRoadmap)
    → AllJoined r
    → IsKept (edit_edge verb target next r)
unfolding edit_edge is_graph_edge
edit_edge-IsKept verb target next r h = elim (Option-cases (find_where (has_id target) r.edges)) [
  | inl e ↦ rw (e, edit_edge) (new_edge-IsKept verb target next r h)
  | inr (existing, e) ↦
      let changed = candidate existing next target in
      rw (e, edit_edge)
        (if_ind IsKept
          (not (is_graph_edge changed target) || not (edge_nodes_exist r.nodes changed)) (λ _. tt)
          (λ ok_.
            let (shape, there) = neither_not (is_graph_edge changed target) _ ok_ in
            All-replace_first (λ x. IsJoined r.nodes x) (has_id target) changed r.edges
              (there, (both (has_id target changed) _ shape).1) h))
]
  where
    neither_not : (a b : Bool) → (not a || not b) ≡ false → (a ≡ true) × (b ≡ true)
    neither_not a b g = ground arith

apply_to_edge-IsKept :
    (verb : OperationVerb) (target : String) (next : Option Fields) (r : EditedRoadmap)
    → AllJoined r
    → IsKept (apply_to_edge verb target next r)
unfolding apply_to_edge
apply_to_edge-IsKept delete_verb target next r h =
    All-keep (λ e. IsJoined r.nodes e) (λ e. not (has_id target e)) r.edges h
apply_to_edge-IsKept create_verb target none r h = h
apply_to_edge-IsKept update_verb target none r h = h
apply_to_edge-IsKept create_verb target (some next) r h =
    edit_edge-IsKept create_verb target next r h
apply_to_edge-IsKept update_verb target (some next) r h =
    edit_edge-IsKept update_verb target next r h

new_node-IsKept :
    (verb : OperationVerb) (target : String) (next : Fields) (r : EditedRoadmap)
    → AllJoined r
    → IsKept (new_node verb target next r)
unfolding new_node
new_node-IsKept create_verb target next r h =
    if_ind IsKept (is_graph_node next target)
      (λ _.
        All-map _ _ r.edges
          (λ e j.
            covered (r.nodes ++ (next ∷ [])) r.nodes e
              (λ s found. any-append (has_id s) r.nodes (next ∷ []) found) j)
          h)
      (λ _. h)
new_node-IsKept update_verb target next r h = h
new_node-IsKept delete_verb target next r h = h

edit_node-IsKept :
    (verb : OperationVerb) (target : String) (next : Fields) (r : EditedRoadmap)
    → AllJoined r
    → IsKept (edit_node verb target next r)
unfolding edit_node is_graph_node
edit_node-IsKept verb target next r h = elim (Option-cases (find_where (has_id target) r.nodes)) [
  | inl e ↦ rw (e, edit_node) (new_node-IsKept verb target next r h)
  | inr (existing, e) ↦
      let changed = candidate existing next target in
      rw (e, edit_node)
        (if_ind IsKept (not (is_graph_node changed target)) (λ _. tt)
          (λ shape.
            All-map _ _ r.edges
              (λ x j.
                covered (replace_first (has_id target) changed r.nodes) r.nodes x
                  (any-replace_first target changed r.nodes (named changed shape)) j)
              h))
]
  where
    named :
        (changed : Fields)
        → not (is_graph_node changed target) ≡ false
        → has_id target changed ≡ true
    named changed shape = ground arith

apply_to_node-IsKept :
    (verb : OperationVerb) (target : String) (next : Option Fields) (r : EditedRoadmap)
    → AllJoined r
    → IsKept (apply_to_node verb target next r)
unfolding apply_to_node
apply_to_node-IsKept delete_verb target next r h =
    let far = All-keep (λ e. IsJoined r.nodes e) (λ e. not (touches target e)) r.edges h in
    All-map _ _ (keep (λ e. not (touches target e)) r.edges)
      (λ e (j, apart). removed_node target r.nodes e (negated (touches target e) apart) j)
      (All-zip _ _ (keep (λ e. not (touches target e)) r.edges) far
        (keep-All (λ e. not (touches target e)) r.edges))
  where
    negated : (b : Bool) → not b ≡ true → b ≡ false
    negated b g = ground arith
apply_to_node-IsKept create_verb target none r h = h
apply_to_node-IsKept update_verb target none r h = h
apply_to_node-IsKept create_verb target (some next) r h =
    edit_node-IsKept create_verb target next r h
apply_to_node-IsKept update_verb target (some next) r h =
    edit_node-IsKept update_verb target next r h

-- An operation that does not throw keeps a graph whose edges join two different nodes of it so.
pub apply_operation-AllJoined :
    (texts : TitleText) (op : RoadmapOperation) (r r' : EditedRoadmap)
    → AllJoined r
    → apply_operation texts op r ≡ some r'
    → AllJoined r'
unfolding apply_operation
apply_operation-AllJoined texts op r r' h e = subst IsKept e kept
  where
    payload : Option Fields
    payload = as_object (of_object "payload" op.value)

    next : Option Fields
    next = as_object (of_object "next" payload)

    titled : EditedRoadmap
    titled = record r {
      title = new_title texts (of_object "title" (as_object (of_object "data" payload))) r.title;
    }

    kept : IsKept (apply_operation texts op r)
    kept = by_target op.target
      where
        by_target :
            (t : OperationTarget) → IsKept (apply_operation texts (record op { target = t }) r)
        by_target edge_target = apply_to_edge-IsKept op.verb op.target_id next titled h
        by_target node_target = apply_to_node-IsKept op.verb op.target_id next titled h
        by_target section_target = apply_to_node-IsKept op.verb op.target_id next titled h
        by_target text_target = apply_to_node-IsKept op.verb op.target_id next titled h
        by_target group_target = apply_to_node-IsKept op.verb op.target_id next titled h
        by_target resource_target = apply_to_node-IsKept op.verb op.target_id next titled h
