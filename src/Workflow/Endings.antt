-- ===== src/Workflow/Endings.antt =====
-- What an operation may look like after a turn of the worker
-- (src/workflow-operations/workflow-operation.worker.ts).
use jagalchi_api.Base.{
  ℕ, String, true, false, none, some, List, ◌≡◌, ◌≢◌, ◌⊎◌, ◌≤◌, ◌<◌, ◌+◌, units, or_else, take,
}
use jagalchi_api.Json.{Json}
use jagalchi_api.Workflow.Types.{Operation, pending, succeeded, failed}
use jagalchi_api.Workflow.Backoff.{BackoffPolicy, delay_ms}
use jagalchi_api.Workflow.Worker.{
  Turn, Ending, returned, threw, Thrown, retryable, semantic, coded, other, is_rejected_input,
}
use jagalchi_api.Workflow.Resources.{Points}

-- The row is failed at a time, for a reason, and free.
pub record IsFailed (row : Operation) (at : ℕ) (code : String) (message : List ℕ) (class : String)
    : Type 0 where
  pub state : row.state ≡ failed
  pub error_code : row.error_code ≡ some code
  pub error_message : row.error_message ≡ some (take 1000 message)
  pub failure_class : row.failure_class ≡ some class
  pub completed : row.completed_at ≡ some at
  pub free : row.lease_owner ≡ none

-- The row waits for its next attempt, and is free.
pub record IsQueued (row : Operation) (at : ℕ) : Type 0 where
  pub state : row.state ≡ pending
  pub due : row.next_attempt_at ≡ at
  pub available : row.available_at ≡ at
  pub free : row.lease_owner ≡ none

pub record IsDone (op row : Operation) (at : ℕ) (value : Json) : Type 0 where
  pub state : row.state ≡ succeeded
  pub completed : row.completed_at ≡ some at
  pub free : row.lease_owner ≡ none
  pub kind : String
  pub id : String
  pub href : String
  pub points : Points op value kind id href
  pub result_type : row.result_type ≡ some kind
  pub result_id : row.result_id ≡ some id
  pub result_href : row.result_href ≡ some href

-- A passing error: a further attempt after a delay, while there are attempts left.
abbrev pub Retries : BackoffPolicy → String → ℕ → Operation → Operation → Type 0
Retries policy code at row row' =
    ((row.attempts < row.max_attempts)
      × IsQueued row' (at + delay_ms policy row.attempts)
      × (row'.error_code ≡ some code))
    ⊎ ((row.max_attempts ≤ row.attempts)
        × IsFailed row' at code (units "A transient dependency prevented workflow completion")
            "RETRY_EXHAUSTED")

-- Neither of the two codes of their own.
abbrev pub IsOther : String → Type 0
IsOther code = (code ≢ "AI_CONTRACT_INVALID") × (code ≢ "AI_REQUEST_REJECTED")

-- What an error makes of the row, by its class and its code.
abbrev pub Fails : BackoffPolicy → Thrown → ℕ → Operation → Operation → Type 0
Fails policy (retryable code class) at row row' = Retries policy code at row row'
Fails policy (semantic code message) at row row' =
    IsFailed row' at code message "NONRETRYABLE_DEPENDENCY"
Fails policy (coded code message) at row row' =
    ((code ≡ "AI_CONTRACT_INVALID")
      × IsFailed row' at "AI_CONTRACT_INVALID"
          (or_else message (units "AI response violates the canonical contract"))
          "CONTRACT_VIOLATION")
    ⊎ ((code ≡ "AI_REQUEST_REJECTED")
        × IsFailed row' at "AI_REQUEST_REJECTED" (units "AI service rejected the workflow request")
            "NONRETRYABLE_DEPENDENCY")
    ⊎ (IsOther code
        × (is_rejected_input code ≡ true)
        × IsFailed row' at code (units "Workflow input or provider result was rejected")
            "NONRETRYABLE_DEPENDENCY")
    ⊎ (IsOther code
        × (is_rejected_input code ≡ false)
        × IsFailed row' at "HANDLER_FAILED" (units "Workflow handler failed") "TERMINAL_HANDLER")
Fails policy other at row row' =
    IsFailed row' at "HANDLER_FAILED" (units "Workflow handler failed") "TERMINAL_HANDLER"

abbrev pub Ends : BackoffPolicy → Turn → Operation → Ending → Operation → Operation → Type 0
Ends policy turn op (returned value) row row' = IsDone op row' turn.report_now value
Ends policy turn op (threw e) row row' =
    ((turn.stopping_then ≡ true) × IsQueued row' turn.report_now)
    ⊎ ((turn.stopping_then ≡ false) × Fails policy e turn.report_now row row')
