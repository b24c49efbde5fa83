-- ===== src/Workflow/Outcomes.antt =====
-- What a turn of the worker leaves of the operation that it claimed
-- (src/workflow-operations/workflow-operation.worker.ts).
use jagalchi_api.Json.{Json}
