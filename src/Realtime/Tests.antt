-- ===== src/Realtime/Tests.antt =====
-- Examples of connection tickets and of edits (src/realtime/realtime-ticket.service.ts,
-- src/realtime/realtime.service.ts).
use jagalchi_api.Base.{
  String, is_some, none, true, false, ok, List, ◌∷◌, [], ◌≡◌, refl, find_where, save,
}
use jagalchi_api.Base.Int.{ℤ, pos, negsuc}
use jagalchi_api.Json.Canonical.{Runtime}
use jagalchi_api.Realtime.Requests.{
  parse_edit_request, parse_operation, parse_value, natural_at, fields_at, has_only, is_roadmap_id,
  is_key_units,
}
use jagalchi_api.Realtime.{ConnectionTicket, issue, is_usable, consume}
use jagalchi_api.Realtime.Once.{consume_once}
use jagalchi_api.Json.{Json, Fields, text, obj, num, end, field, get_field}
use jagalchi_api.Realtime.Graph.{
  EditedRoadmap, TitleText, edge_nodes_exist, joins_two, node_target, delete_verb, text_at,
}
use jagalchi_api.Realtime.Append.{Live, EditRequest, current_of, append}
use jagalchi_api.Realtime.Sequence.{IsLogged, numbers, append-IsLogged}
use jagalchi_api.Realtime.Again.{append_again}

abbrev issued : List ConnectionTicket
unfolding issue
issued = issue (λ s. s) "ada" "roadmaps" "secret" "t1" 1000 []

abbrev after_use : List ConnectionTicket
after_use = (consume (λ s. s) "secret" "roadmaps" 2000 2000 issued).1

consume_once_example : consume (λ s. s) "secret" "roadmaps" 3000 3000 after_use ≡ (none, after_use)
unfolding consume issue is_usable find_where save
consume_once_example =
    consume_once (λ s. s) "secret" "roadmaps" "roadmaps" 2000 2000 3000 3000 issued after_use "ada"
      (tt, tt) (tt, tt) refl

abbrev node : String → Fields
node id = field "id" (text id) (
    field "type" (text "jagalchi-node") (
      field "position" (obj (field "x" (num (pos 0)) (field "y" (num (pos 0)) end)))
        (field "data" (obj end) end)))

abbrev link : Fields
link = field "id" (text "e1") (field "source" (text "n1") (field "target" (text "n2") end))

abbrev plain : TitleText
plain = record { trim = λ s. s; first_120 = λ s. s }

abbrev drawn : EditedRoadmap
drawn = record {
  id = "r1";
  owner_id = "ada";
  title = "Sea";
  nodes = node "n1" ∷ node "n2" ∷ [];
  edges = link ∷ [];
}

abbrev first_state : Live
first_state = record { roadmaps = drawn ∷ []; events = []; sequences = [] }

abbrev delete_n2 : EditRequest
delete_n2 = record {
  roadmap_id = "r1";
  idempotency_key = "key-0001";
  base_sequence = 0;
  operation = record { target = node_target; verb = delete_verb; target_id = "n2"; value = none };
}

abbrev deleted : Live
deleted = (append plain "v1" "ada" delete_n2 first_state).1

append-IsLogged_example : IsLogged deleted
unfolding numbers current_of edge_nodes_exist joins_two
append-IsLogged_example =
    append-IsLogged plain "v1" "ada" delete_n2 first_state ((λ r. refl), (((refl, refl), tt), tt))

append_again_example :
    append plain "v2" "ada" delete_n2 deleted
    ≡ (ok (record { duplicate = true; sequence = 1; event_id = "v1" }), deleted)
unfolding append
append_again_example =
    append_again plain "v1" "v2" "ada" delete_n2 first_state deleted
      (record { duplicate = false; sequence = 1; event_id = "v1" }) refl

abbrev runtime : Runtime
runtime = record { locale_lt = λ a b. false; stringify = λ v. ""; sha256 = λ s. s }

abbrev sent : ℤ → String → Json
sent base name = obj (
    field "roadmapId" (text "123e4567-e89b-12d3-a456-426614174000") (
      field "idempotencyKey" (text "edit-0001") (
        field "baseSequence" (num base) (
          field "operation" (obj (field "type" (text name) (field "targetId" (text "n1") end)))
            end))))

accepted : is_some (parse_edit_request runtime (sent (pos 0) "NODE_DELETE")) ≡ true
unfolding parse_edit_request parse_operation parse_value find_where get_field text_at natural_at
    fields_at has_only is_roadmap_id is_key_units
accepted = refl

unknown_type : parse_edit_request runtime (sent (pos 0) "NODE_MOVE") ≡ none
unfolding parse_edit_request parse_operation parse_value find_where get_field text_at natural_at
    fields_at has_only is_roadmap_id is_key_units
unknown_type = refl

negative_base : parse_edit_request runtime (sent (negsuc 0) "NODE_DELETE") ≡ none
unfolding parse_edit_request parse_operation parse_value find_where get_field text_at natural_at
    fields_at has_only is_roadmap_id is_key_units
negative_base = refl
