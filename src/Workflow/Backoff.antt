-- ===== src/Workflow/Backoff.antt =====
-- `WorkflowBackoffPolicy` (src/workflow-operations/workflow-runtime.ts): the two settings are
-- `WORKFLOW_RETRY_BASE_MS` and `WORKFLOW_RETRY_MAX_MS`.
use jagalchi_api.Base.{ℕ, ◌-◌, ◌*◌, ◌^◌, min}

pub record BackoffPolicy : Type 0 where
  pub base : ℕ
  pub maximum : ℕ

-- `attempts - 1` stops at 0, as `Math.max(0, attempts - 1)` does.
unfoldable pub delay_ms : BackoffPolicy → ℕ → ℕ
delay_ms p attempts = min p.maximum (p.base * 2 ^ (attempts - 1))

abbrev pub default_policy : BackoffPolicy
default_policy = record { base = 1000; maximum = 30000 }
