-- ===== src/Realtime/Requests.antt =====
-- `parseEditRequest` (src/realtime/realtime.types.ts): what a client sent, as a request or as nothing.
use jagalchi_api.Base.{
  ℕ, String, Bool, true, false, Option, none, some, List, [], ◌∷◌, ◌&&◌, ◌||◌, not, str_eq, ltb,
  leb, ◌==◌, if◌then◌else◌, all, any, units, length, find_where,
}
use jagalchi_api.Base.Int.{ℤ, pos, negsuc}
use jagalchi_api.Json.{Json, Fields, num, obj, end, field, get_field}
use jagalchi_api.Json.Canonical.{Runtime}
use jagalchi_api.Evaluator.Digest.{json_text}
use jagalchi_api.Realtime.Graph.{
  OperationTarget, node_target, edge_target, section_target, text_target, group_target,
  resource_target, OperationVerb, create_verb, update_verb, delete_verb, RoadmapOperation, text_at,
}
use jagalchi_api.Realtime.Append.{EditRequest}

-- `Number.MAX_SAFE_INTEGER`
abbrev pub max_safe_integer : ℕ
max_safe_integer = 9007199254740991

abbrev pub is_digit : ℕ → Bool
is_digit c = leb 48 c && leb c 57

abbrev pub is_letter : ℕ → Bool
is_letter c = (leb 65 c && leb c 90) || (leb 97 c && leb c 122)

-- /^[0-9a-f-]{36}$/i
unfoldable pub is_roadmap_id : String → Bool
unfolding all units
is_roadmap_id s =
    (length (units s) == 36)
    && all (λ c. is_digit c || (leb 65 c && leb c 70) || (leb 97 c && leb c 102) || c == 45)
        (units s)

-- /^[A-Za-z0-9][A-Za-z0-9._:-]{7,127}$/
unfoldable pub is_key_units : List ℕ → Bool
unfolding all
is_key_units [] = false
is_key_units (c ∷ cs) =
    (is_digit c || is_letter c)
    && leb 7 (length cs)
    && leb (length cs) 127
    && all (λ d. is_digit d || is_letter d || d == 46 || d == 95 || d == 58 || d == 45) cs

-- `ROADMAP_OPERATION_TYPES`, each with the halves of its name.
abbrev pub roadmap_operation_types : List (String × (OperationTarget × OperationVerb))
roadmap_operation_types =
    ("NODE_CREATE", (node_target, create_verb))
    ∷ ("NODE_UPDATE", (node_target, update_verb))
    ∷ ("NODE_DELETE", (node_target, delete_verb))
    ∷ ("EDGE_CREATE", (edge_target, create_verb))
    ∷ ("EDGE_UPDATE", (edge_target, update_verb))
    ∷ ("EDGE_DELETE", (edge_target, delete_verb))
    ∷ ("SECTION_CREATE", (section_target, create_verb))
    ∷ ("SECTION_UPDATE", (section_target, update_verb))
    ∷ ("SECTION_DELETE", (section_target, delete_verb))
    ∷ ("TEXT_CREATE", (text_target, create_verb))
    ∷ ("TEXT_UPDATE", (text_target, update_verb))
    ∷ ("TEXT_DELETE", (text_target, delete_verb))
    ∷ ("GROUP_CREATE", (group_target, create_verb))
    ∷ ("GROUP_UPDATE", (group_target, update_verb))
    ∷ ("GROUP_DELETE", (group_target, delete_verb))
    ∷ ("RESOURCE_CREATE", (resource_target, create_verb))
    ∷ ("RESOURCE_UPDATE", (resource_target, update_verb))
    ∷ ("RESOURCE_DELETE", (resource_target, delete_verb))
    ∷ []

-- `Object.keys(value).some((key) => ![…].includes(key))`, negated
unfoldable pub has_only : List String → Fields → Bool
unfolding any
has_only ks end = true
has_only ks (field k v fs) = any (str_eq k) ks && has_only ks fs

abbrev natural : ℤ → Option ℕ
natural (pos n) = some n
natural (negsuc n) = none

abbrev pub request_keys : List String
request_keys = "roadmapId" ∷ "idempotencyKey" ∷ "baseSequence" ∷ "operation" ∷ []

-- A member that is a number from 0 on.
unfoldable pub natural_at : String → Fields → Option ℕ
unfolding get_field
natural_at k fs = elim (get_field k fs) [
  | some v ↦ elim v [ num n ↦ natural n | _ ↦ none ]
  | none ↦ none
]

-- A member that is an object, and no array.
unfoldable pub fields_at : String → Fields → Option Fields
unfolding get_field
fields_at k fs = elim (get_field k fs) [
  | some v ↦ elim v [ obj inner ↦ some inner | _ ↦ none ]
  | none ↦ none
]

module _ (rt : Runtime) where
  -- `operation.value`: absent, or an object of at most 64,000 characters.
  unfoldable pub parse_value : Fields → Option (Option Fields)
  unfolding get_field json_text units
  parse_value fs = elim (get_field "value" fs) [
    | none ↦ some none
    | some v ↦ elim v [
      | obj value ↦
          if ltb 64000 (length (units (json_text rt (obj value)))) then none else some (some value)
      | _ ↦ none
    ]
  ]

  -- The second half of `parseEditRequest`.
  unfoldable pub parse_operation : Fields → Option RoadmapOperation
  unfolding has_only text_at find_where parse_value units
  parse_operation fs = elim (text_at "type" fs) [
    | none ↦ none
    | some name ↦ elim (find_where (λ t. str_eq t.0 name) roadmap_operation_types) [
      | none ↦ none
      | some t ↦ elim (text_at "targetId" fs) [
        | none ↦ none
        | some id ↦ elim (parse_value fs) [
          | none ↦ none
          | some value ↦
              if not (has_only ("type" ∷ "targetId" ∷ "value" ∷ []) fs)
                || ltb (length (units id)) 1
                || ltb 120 (length (units id))
              then none
              else some (record { target = t.1.0; verb = t.1.1; target_id = id; value = value })
        ]
      ]
    ]
  ]

  -- `parseEditRequest`
  unfoldable pub parse_edit_request : Json → Option EditRequest
  unfolding has_only text_at get_field is_roadmap_id is_key_units units parse_operation natural_at
      fields_at
  parse_edit_request (obj fs) = elim (text_at "roadmapId" fs) [
    | none ↦ none
    | some roadmap ↦ elim (text_at "idempotencyKey" fs) [
      | none ↦ none
      | some key ↦ elim (natural_at "baseSequence" fs) [
        | none ↦ none
        | some base ↦ elim (fields_at "operation" fs) [
          | none ↦ none
          | some inner ↦ elim (parse_operation inner) [
            | none ↦ none
            | some op ↦
                if not (has_only request_keys fs)
                  || not (is_roadmap_id roadmap)
                  || not (is_key_units (units key))
                  || ltb max_safe_integer base
                then none
                else some (record {
                  roadmap_id = roadmap;
                  idempotency_key = key;
                  base_sequence = base;
                  operation = op;
                })
          ]
        ]
      ]
    ]
  ]
  parse_edit_request _ = none
