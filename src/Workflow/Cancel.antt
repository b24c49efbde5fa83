-- ===== src/Workflow/Cancel.antt =====
-- `requestCancel` and `requestCancelVersioned`
-- (src/workflow-operations/workflow-operation.service.ts).
use Prim.Native.String.{◌++◌}
use jagalchi_api.Base.{
  ℕ, String, Bool, none, some, ◌∷◌, ◌+◌, ◌&&◌, ◌||◌, not, str_eq, ◌==◌, if◌then◌else◌, save,
  find_where,
}
use jagalchi_api.Base.Int.{pos}
use jagalchi_api.Json.{num, obj, field, end}
use jagalchi_api.Json.Canonical.{Runtime, input_hash}
use jagalchi_api.Workflow.Types.{
  Operation, Store, ProjectRunCommand, CancelResponse, Outcome, ok, err, WorkflowState, cancelled,
  cancel_requested, is_pending, is_terminal, is_cancelled, is_cancel_requested,
  idempotency_key_reused, canonical_cancel_required, operation_not_found, stale_version,
  operation_terminal, cancel_already_requested, entity_not_found,
}
use jagalchi_api.Workflow.Claim.{op_id}

unfoldable pub needs_canonical_cancel : String → Bool
needs_canonical_cancel kind =
    str_eq kind "JOB_TARGET_IMPORT"
    || str_eq kind "CANDIDATE_PROFILE_SNAPSHOT"
    || str_eq kind "PROJECT_PROPOSALS_V1"
    || str_eq kind "PROJECT_RUN_CREATE"
    || str_eq kind "TASK_VERIFICATION"

abbrev pub cancel_state : WorkflowState → WorkflowState
cancel_state st = if is_pending st then cancelled else cancel_requested

-- The assignments that both routes make to the row.
unfoldable pub mark_cancel : ℕ → Operation → Operation
mark_cancel now op =
    let st = cancel_state op.state in
    record op {
      state = st;
      completed_at = if is_cancelled st then some now else op.completed_at;
      version = op.version + 1;
    }

abbrev pub is_owned : String → String → Operation → Bool
is_owned id owner op = str_eq op.id id && str_eq op.owner_id owner

unfoldable pub request_cancel : String → String → ℕ → Store → Outcome Operation × Store
unfolding mark_cancel
request_cancel id owner now s = elim (find_where (is_owned id owner) s.operations) [
  | none ↦ (err entity_not_found, s)
  | some op ↦
      if needs_canonical_cancel op.kind
      then (err canonical_cancel_required, s)
      else if is_terminal op.state
      then (ok op, s)
      else let op' = mark_cancel now op in
        (ok op', record s { operations = save op_id op' s.operations })
]

abbrev pub cancel_route : String → String
cancel_route id = "/api/workflow-operations/" ++ (id ++ "/cancel")

abbrev pub is_command : String → String → String → ProjectRunCommand → Bool
is_command owner route key c =
    str_eq c.owner_id owner && str_eq c.route route && str_eq c.idempotency_key key

-- `canonicalJson({ expectedVersion })` under SHA-256.
abbrev pub cancel_hash : Runtime → ℕ → String
cancel_hash rt expected = input_hash rt (obj (field "expectedVersion" (num (pos expected)) end))

abbrev pub cancel_response : Operation → CancelResponse
cancel_response op = record { id = op.id; state = op.state; version = op.version }

-- The part of `requestCancelVersioned` that finds no recorded answer.
unfoldable pub cancel_fresh :
    Runtime → String → String → ℕ → String → ℕ → Store → Outcome CancelResponse × Store
unfolding mark_cancel
cancel_fresh rt id owner expected key now s = elim (find_where (is_owned id owner) s.operations) [
  | none ↦ (err operation_not_found, s)
  | some op ↦
      if not (op.version == expected)
      then (err (stale_version op.version), s)
      else if is_terminal op.state
      then (err operation_terminal, s)
      else if is_cancel_requested op.state
      then (err cancel_already_requested, s)
      else let op' = mark_cancel now op in
        let response = cancel_response op' in
        let command : ProjectRunCommand = record {
          owner_id = owner;
          route = cancel_route id;
          idempotency_key = key;
          input_hash = cancel_hash rt expected;
          response = response;
        } in
        (
          ok response,
          record s { operations = save op_id op' s.operations; commands = command ∷ s.commands },
        )
]

unfoldable pub request_cancel_versioned :
    Runtime → String → String → ℕ → String → ℕ → Store → Outcome CancelResponse × Store
request_cancel_versioned rt id owner expected key now s =
    elim (find_where (is_command owner (cancel_route id) key) s.commands) [
      | some prior ↦ (
        if str_eq prior.input_hash (cancel_hash rt expected)
            then ok prior.response
            else err idempotency_key_reused,
        s,
      )
      | none ↦ cancel_fresh rt id owner expected key now s
    ]
