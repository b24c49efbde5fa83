-- ===== src/Workflow/Finish.antt =====
-- How a worker ends an operation that it has claimed: `succeed`, `fail`, `retry`,
-- `finishCancellation` and `abandon` (src/workflow-operations/workflow-operation.service.ts).
use Prim.Native.String.{◌++◌}
use jagalchi_api.Base.{
  ℕ, String, Bool, true, false, Option, none, some, List, ◌∷◌, ◌+◌, ◌&&◌, str_eq, is_text, is_after,
  leb, take, if◌then◌else◌, or_else, save, find_by, any,
}
use jagalchi_api.Base.Int.{ℤ, pos}
use jagalchi_api.Json.{Json}
use jagalchi_api.Workflow.Types.{
  Operation, OperationResult, Store, Outcome, ok, err, pending, succeeded, failed, cancelled,
  is_running, is_active, is_cancel_requested, is_failure_class, unique_violation,
}
use jagalchi_api.Workflow.Backoff.{BackoffPolicy, delay_ms}
use jagalchi_api.Workflow.Claim.{op_id}

unfoldable pub owns_live_lease : String → ℕ → Operation → Bool
owns_live_lease worker now op =
    is_text op.lease_owner worker && is_after op.lease_expires_at now && is_active op.state

unfoldable pub redacted_failure_class : String → String → String
unfolding is_failure_class
redacted_failure_class value fallback = if is_failure_class value then value else fallback

pub record Resource : Type 0 where
  pub kind : String
  pub id : String
  pub href : String
  pub schema_version : Option ℤ

abbrev pub resource_or : (Resource → String) → Option Resource → String → String
resource_or f none d = d
resource_or f (some r) d = f r

abbrev pub resource_version : Option Resource → ℤ
resource_version none = pos 1
resource_version (some r) = or_else r.schema_version (pos 1)

unfoldable pub mark_succeeded : Option Resource → ℕ → Operation → Operation
mark_succeeded resource now op = record op {
  state = succeeded;
  version = op.version + 1;
  completed_at = some now;
  lease_owner = none;
  lease_expires_at = none;
  result_type = some (resource_or (λ r. r.kind) resource (op.kind ++ "_RESULT"));
  result_id = some (resource_or (λ r. r.id) resource op.id);
  result_href = some (resource_or (λ r. r.href) resource ("/api/v1/operations/" ++ op.id));
  result_schema_version = resource_version resource;
  error_code = none;
  error_message = none;
  failure_class = none;
}

unfoldable pub may_succeed : String → ℕ → Operation → Bool
may_succeed worker now op =
    is_text op.lease_owner worker && is_running op.state && is_after op.lease_expires_at now

abbrev pub result_of : String → OperationResult → Bool
result_of id r = str_eq r.operation_id id

-- The clock is read for the lease, `asked`, and for the completion, `now`. A second result of the
-- operation violates `uq_workflow_operation_results_operation`, and the transaction is undone.
unfoldable pub succeed :
    String → String → Json → Option Resource → ℕ → ℕ → Store → Outcome Bool × Store
succeed id worker value resource asked now s = elim (find_by op_id id s.operations) [
  | none ↦ (ok false, s)
  | some op ↦
      if may_succeed worker asked op
      then if any (result_of id) s.results then (err unique_violation, s) else (
        ok true,
        record s {
          operations = save op_id (mark_succeeded resource now op) s.operations;
          results = record { operation_id = id; value = value } ∷ s.results;
        },
      )
      else (ok false, s)
]

unfoldable pub mark_failed : String → List ℕ → String → ℕ → Operation → Operation
mark_failed code message failure_class now op = record op {
  state = failed;
  version = op.version + 1;
  error_code = some code;
  error_message = some (take 1000 message);
  failure_class = some (redacted_failure_class failure_class "TERMINAL");
  completed_at = some now;
  lease_owner = none;
  lease_expires_at = none;
}

-- `fail` is `completeFailure`.
unfoldable pub fail : String → String → String → List ℕ → String → ℕ → Store → Bool × Store
fail id worker code message failure_class now s = elim (find_by op_id id s.operations) [
  | none ↦ (false, s)
  | some op ↦
      if owns_live_lease worker now op && is_running op.state
      then (
        true,
        record s {
          operations = save op_id (mark_failed code message failure_class now op) s.operations;
        },
      )
      else (false, s)
]

pub data Retry : Type 0 where
  retried exhausted lost : Retry

unfoldable pub mark_exhausted : String → List ℕ → ℕ → Operation → Operation
mark_exhausted code message now op = record op {
  error_code = some code;
  error_message = some (take 1000 message);
  lease_owner = none;
  lease_expires_at = none;
  heartbeat_at = none;
  state = failed;
  version = op.version + 1;
  completed_at = some now;
  failure_class = some "RETRY_EXHAUSTED";
}

unfoldable pub mark_retried : BackoffPolicy → String → List ℕ → String → ℕ → Operation → Operation
mark_retried policy code message failure_class now op =
    let next = now + delay_ms policy op.attempts in
    record op {
      error_code = some code;
      error_message = some (take 1000 message);
      failure_class = some (redacted_failure_class failure_class "TRANSIENT_DEPENDENCY");
      lease_owner = none;
      lease_expires_at = none;
      heartbeat_at = none;
      state = pending;
      version = op.version + 1;
      available_at = next;
      next_attempt_at = next;
    }

unfoldable pub retry :
    BackoffPolicy → String → String → String → List ℕ → String → ℕ → Store → Retry × Store
retry policy id worker code message failure_class now s = elim (find_by op_id id s.operations) [
  | none ↦ (lost, s)
  | some op ↦
      if owns_live_lease worker now op
      then if leb op.max_attempts op.attempts
        then (
          exhausted,
          record s { operations = save op_id (mark_exhausted code message now op) s.operations },
        )
        else (
          retried,
          record s {
            operations =
                save op_id (mark_retried policy code message failure_class now op) s.operations;
          },
        )
      else (lost, s)
]

unfoldable pub mark_cancelled : ℕ → Operation → Operation
mark_cancelled now op = record op {
  state = cancelled;
  version = op.version + 1;
  completed_at = some now;
  lease_owner = none;
  lease_expires_at = none;
}

unfoldable pub finish_cancellation : String → String → ℕ → Store → Bool × Store
finish_cancellation id worker now s = elim (find_by op_id id s.operations) [
  | none ↦ (false, s)
  | some op ↦
      if owns_live_lease worker now op && is_cancel_requested op.state
      then (true, record s { operations = save op_id (mark_cancelled now op) s.operations })
      else (false, s)
]

unfoldable pub mark_abandoned : ℕ → Operation → Operation
mark_abandoned now op = record op {
  state = if is_cancel_requested op.state then cancelled else pending;
  completed_at = if is_cancel_requested op.state then some now else none;
  available_at = now;
  next_attempt_at = now;
  lease_owner = none;
  lease_expires_at = none;
  heartbeat_at = none;
  version = op.version + 1;
}

-- No condition on the end of the lease.
unfoldable pub abandon : String → String → ℕ → Store → Bool × Store
abandon id worker now s = elim (find_by op_id id s.operations) [
  | none ↦ (false, s)
  | some op ↦
      if is_text op.lease_owner worker && is_active op.state
      then (true, record s { operations = save op_id (mark_abandoned now op) s.operations })
      else (false, s)
]
