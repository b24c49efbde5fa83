-- ===== src/Workflow/Create.antt =====
-- `createOrReplay` (src/workflow-operations/workflow-operation.service.ts). The look-up and the
-- insertion are two statements, and what other clients commit in between is an argument.
use jagalchi_api.Base.{
  ℕ, String, Bool, true, false, Option, none, some, List, [], ◌∷◌, ◌&&◌, ◌||◌, str_eq,
  if◌then◌else◌, find_where,
}
use jagalchi_api.Base.Int.{ℤ, pos}
use jagalchi_api.Json.{Json, null, bool, num, text, arr, obj, member}
use jagalchi_api.Json.Canonical.{Runtime, input_hash}
use jagalchi_api.Workflow.Types.{
  Operation, Store, Outcome, ok, err, idempotency_key_reused, pending,
}

pub record CreateArgs : Type 0 where
  pub owner_id : String
  pub route : String
  pub idempotency_key : String
  pub kind : String
  pub input : Json

-- `Number.isInteger(input.schemaVersion) ? Number(input.schemaVersion) : 1`
unfoldable pub schema_version : Json → ℤ
schema_version input = elim (member "schemaVersion" input) [
  | none ↦ pos 1
  | some null ↦ pos 1
  | some (bool _) ↦ pos 1
  | some (num n) ↦ n
  | some (text _) ↦ pos 1
  | some (arr _) ↦ pos 1
  | some (obj _) ↦ pos 1
]

-- The columns of `uq_workflow_operations_idempotency`.
abbrev pub has_key : String → String → String → Operation → Bool
has_key owner route key op =
    str_eq op.owner_id owner && str_eq op.route route && str_eq op.idempotency_key key

unfoldable pub new_operation : Runtime → CreateArgs → String → ℕ → Operation
unfolding schema_version
new_operation rt args id now = record {
  id = id;
  owner_id = args.owner_id;
  route = args.route;
  idempotency_key = args.idempotency_key;
  kind = args.kind;
  input_hash = input_hash rt args.input;
  input = args.input;
  input_schema_version = schema_version args.input;
  result_schema_version = pos 1;
  state = pending;
  version = 1;
  available_at = now;
  next_attempt_at = now;
  lease_owner = none;
  lease_expires_at = none;
  heartbeat_at = none;
  attempts = 0;
  max_attempts = 3;
  error_code = none;
  error_message = none;
  failure_class = none;
  result_type = none;
  result_id = none;
  result_href = none;
  completed_at = none;
  created_at = now;
}

-- An INSERT: `none` is a violation of the primary key or of the unique columns (23505).
unfoldable pub insert_operation : Operation → List Operation → Option (List Operation)
insert_operation op ops =
    elim (find_where (λ o. str_eq o.id op.id || has_key op.owner_id op.route op.idempotency_key o)
      ops) [ none ↦ some (op ∷ ops) | some _ ↦ none ]

-- One pass of `createOrReplay`: what others commit after the look-up, and the identifier and the
-- time of the row that is then inserted.
pub record Round : Type 0 where
  pub others : Store → Store
  pub new_id : String
  pub now : ℕ

pub record Created : Type 0 where
  pub operation : Operation
  pub replayed : Bool

abbrev pub is_same_request : Runtime → CreateArgs → Operation → Bool
is_same_request rt args existing =
    str_eq existing.kind args.kind && str_eq existing.input_hash (input_hash rt args.input)

-- `none`: the rounds ran out before the call returned.
unfoldable pub create_or_replay :
    Runtime → CreateArgs → List Round → Store → Option (Outcome Created) × Store
create_or_replay rt args [] s = (none, s)
create_or_replay rt args (r ∷ rs) s =
    elim (find_where (has_key args.owner_id args.route args.idempotency_key) s.operations) [
      | some existing ↦ (
        some (
            if is_same_request rt args existing
            then ok (record { operation = existing; replayed = true })
            else err idempotency_key_reused),
        s,
      )
      | none ↦
          let op = new_operation rt args r.new_id r.now in
          let s' = r.others s in
          elim (insert_operation op s'.operations) [
            | some ops ↦ (
              some (ok (record { operation = op; replayed = false })),
              record s' { operations = ops },
            )
            | none ↦ create_or_replay rt args rs s'
          ]
    ]
