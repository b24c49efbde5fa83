-- ===== src/Workflow/Reap.antt =====
-- `reapExpired` (src/workflow-operations/workflow-operation.service.ts): what becomes of the
-- operations whose lease has run out.
use jagalchi_api.Base.{
  ℕ, String, Bool, none, some, List, [], ◌∷◌, ◌+◌, ◌&&◌, not, is_before, ltb, leb, if◌then◌else◌,
  or_else, save, keep, sort_by, length, units,
}
use jagalchi_api.Workflow.Types.{
  Operation, Store, pending, failed, cancelled, is_active, is_cancel_requested,
}
use jagalchi_api.Workflow.Backoff.{BackoffPolicy, delay_ms}
use jagalchi_api.Workflow.Claim.{op_id}

unfoldable pub is_expired : ℕ → (String → Bool) → Operation → Bool
is_expired now locked op =
    is_active op.state && is_before op.lease_expires_at now && not (locked op.id)

-- The body of the loop, before the row is saved.
unfoldable pub reap_row : BackoffPolicy → ℕ → Operation → Operation
reap_row policy now op =
    let freed = record op {
      lease_owner = none;
      lease_expires_at = none;
      heartbeat_at = none;
      version = op.version + 1;
    } in
    if is_cancel_requested op.state
    then record freed { state = cancelled; completed_at = some now }
    else if leb op.max_attempts op.attempts
    then record freed {
      state = failed;
      error_code = some "LEASE_EXPIRED";
      error_message = some (units "Workflow operation exhausted its retry budget");
      failure_class = some "RETRY_EXHAUSTED";
      completed_at = some now;
    }
    else (let next = now + delay_ms policy op.attempts in
        record freed {
          state = pending;
          error_code = some "LEASE_EXPIRED";
          error_message = some (units "Workflow worker lease expired before completion");
          failure_class = some "TRANSIENT_DEPENDENCY";
          available_at = next;
          next_attempt_at = next;
        })

-- `ORDER BY lease_expires_at`; an expired row has one.
abbrev pub expires_earlier : Operation → Operation → Bool
expires_earlier a b = ltb (or_else a.lease_expires_at 0) (or_else b.lease_expires_at 0)

unfoldable pub reap_each : BackoffPolicy → ℕ → List Operation → List Operation → List Operation
reap_each policy now [] ops = ops
reap_each policy now (op ∷ rest) ops =
    reap_each policy now rest (save op_id (reap_row policy now op) ops)

unfoldable pub reap_expired : BackoffPolicy → ℕ → (String → Bool) → Store → ℕ × Store
reap_expired policy now locked s =
    let expired = sort_by expires_earlier (keep (is_expired now locked) s.operations) in
    (length expired, record s { operations = reap_each policy now expired s.operations })
