-- ===== src/Workflow/Valid.antt =====
-- The invariant of one row of the operations table, and lemmas on the assignments of the service
-- (src/workflow-operations/workflow-operation.service.ts).
use jagalchi_api.Base.{ℕ, String, true, false, Option, List, ◌≤◌, ◌<◌, ◌≡◌, arith, is_some}
use jagalchi_api.Json.Canonical.{Runtime}
use jagalchi_api.Workflow.Types.{Operation, succeeded, failed, is_terminal, is_active, is_running}
use jagalchi_api.Workflow.Backoff.{BackoffPolicy}
use jagalchi_api.Workflow.Create.{CreateArgs, new_operation}
use jagalchi_api.Workflow.Claim.{is_claimable, lease_to, renew}
use jagalchi_api.Workflow.Cancel.{mark_cancel}
use jagalchi_api.Workflow.Finish.{
  Resource, mark_succeeded, mark_failed, mark_exhausted, mark_retried, mark_cancelled,
  mark_abandoned,
}
use jagalchi_api.Workflow.Reap.{reap_row}

-- A lease is held exactly while the operation is worked on, it is completed exactly when it is in
-- a terminal state, and the retry budget is never overdrawn.
pub record IsValid (op : Operation) : Type 0 where
  pub budget : op.attempts ≤ op.max_attempts
  pub started : is_active op.state ≡ true → 0 < op.attempts
  pub owned : is_some op.lease_owner ≡ is_active op.state
  pub leased : is_some op.lease_expires_at ≡ is_active op.state
  pub completed : is_some op.completed_at ≡ is_terminal op.state
  pub resulting : op.state ≡ succeeded → is_some op.result_id ≡ true
  pub explained : op.state ≡ failed → is_some op.error_code ≡ true

pub new_operation-IsValid :
    (rt : Runtime) (args : CreateArgs) (id : String) (now : ℕ)
    → IsValid (new_operation rt args id now)
unfolding new_operation
new_operation-IsValid rt args id now = ground arith

pub lease_to-IsValid :
    (w : String) (ms now asked : ℕ) (kinds : Option (List String)) (op : Operation)
    → is_claimable asked kinds op ≡ true
    → IsValid op
    → IsValid (lease_to w ms now op)
unfolding lease_to is_claimable
lease_to-IsValid w ms now asked kinds op c v = ground arith

module _ (op : Operation) (v : IsValid op) (now : ℕ) where
  pub renew-IsValid : (ms : ℕ) → is_running op.state ≡ true → IsValid (renew ms now op)
  unfolding renew
  renew-IsValid ms r = ground arith

  pub mark_cancel-IsValid : is_terminal op.state ≡ false → IsValid (mark_cancel now op)
  unfolding mark_cancel
  mark_cancel-IsValid t = ground arith

  pub mark_succeeded-IsValid : (r : Option Resource) → IsValid (mark_succeeded r now op)
  unfolding mark_succeeded
  mark_succeeded-IsValid r = ground arith

  pub mark_failed-IsValid :
      (c : String) (m : List ℕ) (f : String) → IsValid (mark_failed c m f now op)
  unfolding mark_failed
  mark_failed-IsValid c m f = ground arith

  pub mark_exhausted-IsValid : (c : String) (m : List ℕ) → IsValid (mark_exhausted c m now op)
  unfolding mark_exhausted
  mark_exhausted-IsValid c m = ground arith

  pub mark_retried-IsValid :
      (p : BackoffPolicy) (c : String) (m : List ℕ) (f : String)
      → is_active op.state ≡ true
      → IsValid (mark_retried p c m f now op)
  unfolding mark_retried
  mark_retried-IsValid p c m f a = ground arith

  pub mark_cancelled-IsValid : IsValid (mark_cancelled now op)
  unfolding mark_cancelled
  mark_cancelled-IsValid = ground arith

  pub mark_abandoned-IsValid : IsValid (mark_abandoned now op)
  unfolding mark_abandoned
  mark_abandoned-IsValid = ground arith

  pub reap_row-IsValid :
      (p : BackoffPolicy) → is_active op.state ≡ true → IsValid (reap_row p now op)
  unfolding reap_row
  reap_row-IsValid p a = ground arith
