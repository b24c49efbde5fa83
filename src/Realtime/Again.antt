-- ===== src/Realtime/Again.antt =====
-- Operations that are sent again (src/realtime/realtime.service.ts).
use jagalchi_api.Base.{
  ℕ, String, Bool, true, Option, none, some, ◌≡◌, refl, sym, ◌∙◌, subst, inl, inr, ◌&&◌, not, ◌==◌,
  find_where, find_where-save_key, find_where_holds, if_ind, Bool-cases, Option-cases, eq_iff,
  eq_refl, arith, ok, err,
}
use jagalchi_api.Json.{Fields}
use jagalchi_api.Realtime.Graph.{
  OperationTarget, edge_target, node_target, section_target, text_target, group_target,
  resource_target, OperationVerb, create_verb, update_verb, delete_verb, EditedRoadmap,
  RoadmapOperation, TitleText, apply_operation, apply_to_edge, apply_to_node, edit_edge, edit_node,
  new_edge, new_node, is_graph_node, has_id, candidate, as_object, of_object, new_title,
}
use jagalchi_api.Realtime.Append.{
  RoadmapEvent, Live, EditRequest, EditAck, Outcome, roadmap_key, is_owned, is_duplicate,
  current_of, can_edit, new_event, write_event, append_new, append,
}

-- A roadmap that keeps its identifier and its owner.
abbrev Same : EditedRoadmap → Option EditedRoadmap → Type 0
Same r none = Unit
Same r (some r') = (r'.id ≡ r.id) × (r'.owner_id ≡ r.owner_id)

edit_edge-Same :
    (verb : OperationVerb) (target : String) (next : Fields) (r : EditedRoadmap)
    → Same r (edit_edge verb target next r)
unfolding edit_edge new_edge
edit_edge-Same create_verb target next r = ground arith
edit_edge-Same update_verb target next r = ground arith
edit_edge-Same delete_verb target next r = ground arith

new_node-Same :
    (verb : OperationVerb) (target : String) (next : Fields) (r : EditedRoadmap)
    → Same r (new_node verb target next r)
unfolding new_node
new_node-Same create_verb target next r =
    if_ind (Same r) (is_graph_node next target) (λ _. (refl, refl)) (λ _. (refl, refl))
new_node-Same update_verb target next r = (refl, refl)
new_node-Same delete_verb target next r = (refl, refl)

edit_node-Same :
    (verb : OperationVerb) (target : String) (next : Fields) (r : EditedRoadmap)
    → Same r (edit_node verb target next r)
unfolding edit_node
edit_node-Same verb target next r = elim (Option-cases (find_where (has_id target) r.nodes)) [
  | inl e ↦ rw (e, edit_node) (new_node-Same verb target next r)
  | inr (existing, e) ↦
      rw (e, edit_node)
        (if_ind (Same r) (not (is_graph_node (candidate existing next target) target)) (λ _. tt)
          (λ _. (refl, refl)))
]

apply_to_edge-Same :
    (verb : OperationVerb) (target : String) (next : Option Fields) (r : EditedRoadmap)
    → Same r (apply_to_edge verb target next r)
unfolding apply_to_edge
apply_to_edge-Same delete_verb target next r = (refl, refl)
apply_to_edge-Same create_verb target none r = (refl, refl)
apply_to_edge-Same update_verb target none r = (refl, refl)
apply_to_edge-Same create_verb target (some next) r = edit_edge-Same create_verb target next r
apply_to_edge-Same update_verb target (some next) r = edit_edge-Same update_verb target next r

apply_to_node-Same :
    (verb : OperationVerb) (target : String) (next : Option Fields) (r : EditedRoadmap)
    → Same r (apply_to_node verb target next r)
unfolding apply_to_node
apply_to_node-Same delete_verb target next r = (refl, refl)
apply_to_node-Same create_verb target none r = (refl, refl)
apply_to_node-Same update_verb target none r = (refl, refl)
apply_to_node-Same create_verb target (some next) r = edit_node-Same create_verb target next r
apply_to_node-Same update_verb target (some next) r = edit_node-Same update_verb target next r

titled :
    (r : EditedRoadmap) (title : String) (o : Option EditedRoadmap)
    → Same (record r { title = title }) o
    → Same r o
titled r title none h = tt
titled r title (some r') h = h

apply_operation-Same :
    (texts : TitleText) (op : RoadmapOperation) (r : EditedRoadmap)
    → Same r (apply_operation texts op r)
unfolding apply_operation
apply_operation-Same texts op r = by_target op.target
  where
    payload : Option Fields
    payload = as_object (of_object "payload" op.value)

    next : Option Fields
    next = as_object (of_object "next" payload)

    title : String
    title = new_title texts (of_object "title" (as_object (of_object "data" payload))) r.title

    by_node : Same r (apply_to_node op.verb op.target_id next (record r { title = title }))
    by_node =
        titled r title (apply_to_node op.verb op.target_id next (record r { title = title }))
          (apply_to_node-Same op.verb op.target_id next (record r { title = title }))

    by_target : (t : OperationTarget) → Same r (apply_operation texts (record op { target = t }) r)
    by_target edge_target =
        titled r title (apply_to_edge op.verb op.target_id next (record r { title = title }))
          (apply_to_edge-Same op.verb op.target_id next (record r { title = title }))
    by_target node_target = by_node
    by_target section_target = by_node
    by_target text_target = by_node
    by_target group_target = by_node
    by_target resource_target = by_node

known_again :
    (texts : TitleText) (id actor : String) (req : EditRequest) (s : Live) (e : RoadmapEvent)
    → can_edit actor req.roadmap_id s ≡ true
    → find_where (is_duplicate req) s.events ≡ some e
    → append texts id actor req s
      ≡ (ok (record { duplicate = true; sequence = e.sequence; event_id = e.id }), s)
unfolding append
known_again texts id actor req s e may found = rw (append, may, found) refl

editable_again :
    (id actor : String) (req : EditRequest) (roadmap changed : EditedRoadmap) (current : ℕ)
    (s : Live)
    → is_owned actor req.roadmap_id roadmap ≡ true
    → Same roadmap (some changed)
    → can_edit actor req.roadmap_id (write_event id actor req changed current s) ≡ true
unfolding can_edit write_event
editable_again id actor req roadmap changed current s owned same =
    let still : is_owned actor req.roadmap_id changed ≡ true = rw (same.0, same.1) owned in
    rw
      (
        can_edit,
        find_where-save_key roadmap_key (is_owned actor req.roadmap_id) changed s.roadmaps
            (λ x h.
              (eq_iff x.id req.roadmap_id).0 (first _ _ h)
              ∙ sym ((eq_iff changed.id req.roadmap_id).0 (first _ _ still)))
            still,
      )
      refl
  where
    first : (a b : Bool) → (a && b) ≡ true → a ≡ true
    first a b h = ground arith

-- What an answer makes of the same request, sent again.
abbrev Repeats : TitleText → String → String → EditRequest → Outcome EditAck × Live → Type 0
Repeats texts id actor req (ok ack, s') =
    append texts id actor req s' ≡ (ok (record ack { duplicate = true }), s')
Repeats texts id actor req (err e, s') = Unit

first_found :
    (id actor : String) (req : EditRequest) (changed : EditedRoadmap) (current : ℕ) (s : Live)
    → find_where (is_duplicate req) (write_event id actor req changed current s).events
      ≡ some (new_event id actor req current)
unfolding write_event find_where
first_found id actor req changed current s =
    rw (eq_refl req.roadmap_id, eq_refl req.idempotency_key) refl

append_new-Repeats :
    (texts : TitleText) (id id' actor : String) (req : EditRequest) (s : Live)
    → Repeats texts id' actor req (append_new texts id actor req s)
unfolding append_new find_where
append_new-Repeats texts id id' actor req s =
    let current = current_of req.roadmap_id s.sequences in
    let Q = Repeats texts id' actor req in
    let stale = not (current == req.base_sequence) in
    elim (Option-cases (find_where (is_owned actor req.roadmap_id) s.roadmaps)) [
      | inl e ↦ rw (append_new, e) (if_ind Q stale (λ _. tt) (λ _. tt))
      | inr (roadmap, e) ↦ elim (Option-cases (apply_operation texts req.operation roadmap)) [
        | inl k ↦ rw (append_new, e, k) (if_ind Q stale (λ _. tt) (λ _. tt))
        | inr (changed, k) ↦
            let kept : Same roadmap (some changed) =
              subst (Same roadmap) k (apply_operation-Same texts req.operation roadmap) in
            let owned = find_where_holds (is_owned actor req.roadmap_id) s.roadmaps e in
            rw (append_new, e, k)
              (if_ind Q stale (λ _. tt)
                (λ _.
                  known_again texts id' actor req (write_event id actor req changed current s)
                    (new_event id actor req current)
                    (editable_again id actor req roadmap changed current s owned kept)
                    (first_found id actor req changed current s)))
      ]
    ]

append-Repeats :
    (texts : TitleText) (id id' actor : String) (req : EditRequest) (s : Live)
    → Repeats texts id' actor req (append texts id actor req s)
unfolding append
append-Repeats texts id id' actor req s =
    let Q = Repeats texts id' actor req in
    elim (Bool-cases (can_edit actor req.roadmap_id s)) [
      | inr e ↦ rw (append, e) tt
      | inl e ↦ elim (Option-cases (find_where (is_duplicate req) s.events)) [
        | inl k ↦ rw (append, e, k) (append_new-Repeats texts id id' actor req s)
        | inr (x, k) ↦ rw (append, e, k) (known_again texts id' actor req s x e k)
      ]
    ]

-- An operation that was answered is answered in the same way when it is sent again at once, as a
-- duplicate of the same number and event, and writes nothing more.
pub append_again :
    (texts : TitleText) (id id' actor : String) (req : EditRequest) (s s' : Live) (ack : EditAck)
    → append texts id actor req s ≡ (ok ack, s')
    → append texts id' actor req s' ≡ (ok (record ack { duplicate = true }), s')
append_again texts id id' actor req s s' ack h =
    subst (Repeats texts id' actor req) h (append-Repeats texts id id' actor req s)
