-- ===== src/Workflow/Worker.antt =====
-- One turn of the worker (src/workflow-operations/workflow-operation.worker.ts): `runOnce`, with
-- `classifyFailure` and `resourceMetadata`. What the handler does is its ending, and what other
-- workers and owners commit while it runs, and between two calls, are arguments.
use Prim.Native.String.{◌++◌}
use jagalchi_api.Base.{
  ℕ, String, Bool, true, false, Option, none, some, List, ◌∷◌, ◌&&◌, ◌||◌, str_eq, leb, or_else,
  any, has_prefix, units, if◌then◌else◌, ◌==◌,
}
use jagalchi_api.Base.Int.{pos}
use jagalchi_api.Json.{Json, null, bool, num, text, arr, obj, member}
use jagalchi_api.Workflow.Types.{Operation, Store, Outcome, ok, err}
use jagalchi_api.Workflow.Backoff.{BackoffPolicy}
use jagalchi_api.Workflow.Claim.{claim, record_worker_heartbeat}
use jagalchi_api.Workflow.Finish.{Resource, succeed, fail, retry, finish_cancellation, abandon}
use jagalchi_api.Workflow.Reap.{reap_expired}

-- What a handler may throw: the two classes that the worker knows, any object with a text in
-- `code` (and a message, if it is an `Error`), and anything else.
pub data Thrown : Type 0 where
  retryable : String → String → Thrown
  semantic : String → List ℕ → Thrown
  coded : String → Option (List ℕ) → Thrown
  other : Thrown

pub record Failure : Type 0 where
  pub code : String
  pub message : List ℕ
  pub failure_class : String
  pub may_retry : Bool

-- `[A-Z0-9_]`
unfoldable pub is_code_letter : ℕ → Bool
is_code_letter c = (leb b'A' c && leb c b'Z') || (leb b'0' c && leb c b'9') || c == b'_'

-- `/^AI_[A-Z0-9_]+/`
unfoldable pub is_ai_code : List ℕ → Bool
is_ai_code (a ∷ i ∷ u ∷ c ∷ _) = a == b'A' && i == b'I' && u == b'_' && is_code_letter c
is_ai_code _ = false

unfoldable pub is_rejected_input : String → Bool
is_rejected_input code =
    has_prefix (units "JOB_SOURCE_") (units code)
    || has_prefix (units "MANUAL_CAPTURE_") (units code)
    || has_prefix (units "REPOSITORY_") (units code)
    || has_prefix (units "SNAPSHOT_") (units code)
    || has_prefix (units "INSUFFICIENT_") (units code)
    || has_prefix (units "EVIDENCE_") (units code)
    || is_ai_code (units code)

abbrev pub handler_failed : Failure
handler_failed = record {
  code = "HANDLER_FAILED";
  message = units "Workflow handler failed";
  failure_class = "TERMINAL_HANDLER";
  may_retry = false;
}

unfoldable pub classify_failure : Thrown → Failure
classify_failure (retryable code class) = record {
  code = code;
  message = units "A transient dependency prevented workflow completion";
  failure_class = class;
  may_retry = true;
}
classify_failure (semantic code message) = record {
  code = code;
  message = message;
  failure_class = "NONRETRYABLE_DEPENDENCY";
  may_retry = false;
}
classify_failure (coded code message) =
    if str_eq code "AI_CONTRACT_INVALID"
    then record {
      code = "AI_CONTRACT_INVALID";
      message = or_else message (units "AI response violates the canonical contract");
      failure_class = "CONTRACT_VIOLATION";
      may_retry = false;
    }
    else if str_eq code "AI_REQUEST_REJECTED"
    then record {
      code = "AI_REQUEST_REJECTED";
      message = units "AI service rejected the workflow request";
      failure_class = "NONRETRYABLE_DEPENDENCY";
      may_retry = false;
    }
    else if is_rejected_input code
    then record {
      code = code;
      message = units "Workflow input or provider result was rejected";
      failure_class = "NONRETRYABLE_DEPENDENCY";
      may_retry = false;
    }
    else handler_failed
classify_failure other = handler_failed

abbrev pub as_text : Option Json → Option String
as_text none = none
as_text (some (text s)) = some s
as_text (some null) = none
as_text (some (bool _)) = none
as_text (some (num _)) = none
as_text (some (arr _)) = none
as_text (some (obj _)) = none

-- `value.k`, where `value` may be missing.
abbrev pub member_of : String → Option Json → Option Json
member_of k none = none
member_of k (some v) = member k v

-- The resource that the result names in its own field.
unfoldable pub named_resource : Json → Option Resource
named_resource value =
    let r = member "resource" value in
    elim (as_text (member_of "resourceType" r)) [
      | none ↦ none
      | some t ↦ elim (as_text (member_of "resourceId" r)) [
        | none ↦ none
        | some i ↦ elim (as_text (member_of "resourceHref" r)) [
          | none ↦ none
          | some h ↦ some (record { kind = t; id = i; href = h; schema_version = some (pos 1) })
        ]
      ]
    ]

unfoldable pub resource_metadata : Operation → Json → Resource
unfolding named_resource
resource_metadata op value = elim (named_resource value) [
  | some r ↦ r
  | none ↦ elim (as_text (member_of "id" (member_of "projectRun" (member "execution" value)))) [
    | some id ↦ record {
      kind = "PROJECT_RUN";
      id = id;
      href = "/api/project-runs/" ++ id;
      schema_version = some (pos 1);
    }
    | none ↦ record {
      kind = op.kind ++ "_RESULT";
      id = op.id;
      href = "/api/v1/operations/" ++ op.id;
      schema_version = some (pos 1);
    }
  ]
]

-- How the handler ends (a wait that is aborted ends it too).
pub data Ending : Type 0 where
  returned : Json → Ending
  threw : Thrown → Ending

-- What one turn meets: the flag `stopping` at its beginning and when an error is caught, the
-- readings of the clock, the rows that are locked, and what others commit.
pub record Turn : Type 0 where
  pub stopping : Bool
  pub beat_at : ℕ
  pub reap_at : ℕ
  pub reap_locked : String → Bool
  pub claim_asked : ℕ
  pub claim_now : ℕ
  pub claim_locked : String → Bool
  pub while_handling : Store → Store
  pub stopping_then : Bool
  pub cancel_at : ℕ
  pub in_between : Store → Store
  pub report_asked : ℕ
  pub report_now : ℕ

module _ (policy : BackoffPolicy) (worker : String) (turn : Turn) where
  -- The `catch` block.
  unfoldable pub handle_failure : Operation → Thrown → Store → Store
  unfolding classify_failure
  handle_failure op e s =
      if turn.stopping_then
      then (abandon op.id worker turn.report_now s).1
      else let (finished, s') = finish_cancellation op.id worker turn.cancel_at s in
        if finished
        then s'
        else let f = classify_failure e in
          if f.may_retry
          then (retry policy op.id worker f.code f.message f.failure_class turn.report_now
              (turn.in_between s')).1
          else (fail op.id worker f.code f.message f.failure_class turn.report_now
              (turn.in_between s')).1

  -- A report that throws inside the `try` block is caught as well.
  unfoldable pub catch_report : Operation → Outcome Bool × Store → Store
  unfolding handle_failure
  catch_report op (ok _, s) = s
  catch_report op (err _, s) = handle_failure op other s

  -- The `try` block after the handler.
  unfoldable pub settle : Operation → Ending → Store → Store
  unfolding catch_report
  settle op (threw e) s = handle_failure op e s
  settle op (returned value) s =
      let (finished, s') = finish_cancellation op.id worker turn.cancel_at s in
      if finished
      then s'
      else catch_report op (
          succeed op.id worker value (some (resource_metadata op value)) turn.report_asked
            turn.report_now (turn.in_between s'))

  -- `kinds` are the kinds with a registered handler.
  unfoldable pub run_once : ℕ → List String → (Operation → Ending) → Store → Bool × Store
  unfolding settle
  run_once lease_ms kinds handler s =
      if turn.stopping
      then (false, s)
      else let s1 = record_worker_heartbeat worker turn.beat_at s in
        let s2 = (reap_expired policy turn.reap_at turn.reap_locked s1).1 in
        let (claimed, s3) =
          claim worker lease_ms (some kinds) turn.claim_locked turn.claim_asked turn.claim_now s2 in
        elim claimed [
          | none ↦ (false, s3)
          | some op ↦
              if any (str_eq op.kind) kinds
              then (true, settle op (handler op) (turn.while_handling s3))
              else (false, s3)
        ]
