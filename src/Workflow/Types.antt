-- ===== src/Workflow/Types.antt =====
-- The rows of the workflow tables (src/workflow-operations/workflow-operation.entities.ts) and the
-- errors that the service throws. Dates are milliseconds since the epoch. A text that the service
-- only compares or joins is a `String`; a text that it cuts is its list of UTF-16 units. The
-- column `updated_at` is set by the ORM, nothing reads it, and it is left out.
use jagalchi_api.Base.{ℕ, String, Bool, true, false, Option, List, ◌||◌, str_eq}
use jagalchi_api.Base.Int.{ℤ}
use jagalchi_api.Json.{Json}

pub data WorkflowState : Type 0 where
  pending running cancel_requested succeeded failed cancelled : WorkflowState

pub record Operation : Type 0 where
  pub id : String
  pub owner_id : String
  pub route : String
  pub idempotency_key : String
  pub kind : String
  pub input_hash : String
  pub input : Json
  pub input_schema_version : ℤ
  pub result_schema_version : ℤ
  pub state : WorkflowState
  pub version : ℕ
  pub available_at : ℕ
  pub next_attempt_at : ℕ
  pub lease_owner : Option String
  pub lease_expires_at : Option ℕ
  pub heartbeat_at : Option ℕ
  pub attempts : ℕ
  pub max_attempts : ℕ
  pub error_code : Option String
  pub error_message : Option (List ℕ)
  pub failure_class : Option String
  pub result_type : Option String
  pub result_id : Option String
  pub result_href : Option String
  pub completed_at : Option ℕ
  pub created_at : ℕ

pub record OperationResult : Type 0 where
  pub operation_id : String
  pub value : Json

pub record WorkerHeartbeat : Type 0 where
  pub worker_id : String
  pub heartbeat_at : ℕ

-- The recorded answer of a cancellation (a row of `project_run_commands`).
pub record CancelResponse : Type 0 where
  pub id : String
  pub state : WorkflowState
  pub version : ℕ

pub record ProjectRunCommand : Type 0 where
  pub owner_id : String
  pub route : String
  pub idempotency_key : String
  pub input_hash : String
  pub response : CancelResponse

pub record Store : Type 0 where
  pub operations : List Operation
  pub results : List OperationResult
  pub heartbeats : List WorkerHeartbeat
  pub commands : List ProjectRunCommand

-- What a service call throws, by its code. `unique_violation` is PostgreSQL's 23505.
pub data Error : Type 0 where
  idempotency_key_reused canonical_cancel_required operation_not_found : Error
  stale_version : ℕ → Error
  operation_terminal cancel_already_requested entity_not_found unique_violation : Error

pub data Outcome (A : Type 0) : Type 0 where
  ok : A → Outcome A
  err : Error → Outcome A

-- The sets of states that the service tests: `TERMINAL`, and a lease being held.
abbrev pub is_terminal : WorkflowState → Bool
is_terminal succeeded = true
is_terminal failed = true
is_terminal cancelled = true
is_terminal _ = false

abbrev pub is_active : WorkflowState → Bool
is_active running = true
is_active cancel_requested = true
is_active _ = false

abbrev pub is_pending : WorkflowState → Bool
is_pending pending = true
is_pending _ = false

abbrev pub is_running : WorkflowState → Bool
is_running running = true
is_running _ = false

abbrev pub is_cancel_requested : WorkflowState → Bool
is_cancel_requested cancel_requested = true
is_cancel_requested _ = false

abbrev pub is_cancelled : WorkflowState → Bool
is_cancelled cancelled = true
is_cancelled _ = false

abbrev pub is_succeeded : WorkflowState → Bool
is_succeeded succeeded = true
is_succeeded _ = false

-- `FAILURE_CLASSES`, and `redactedFailureClass`.
unfoldable pub is_failure_class : String → Bool
is_failure_class s =
    str_eq s "TRANSIENT_DEPENDENCY"
    || str_eq s "CONTRACT_VIOLATION"
    || str_eq s "NONRETRYABLE_DEPENDENCY"
    || str_eq s "TERMINAL_HANDLER"
    || str_eq s "RETRY_EXHAUSTED"
    || str_eq s "TERMINAL"
