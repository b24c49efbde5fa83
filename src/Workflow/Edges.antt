-- ===== src/Workflow/Edges.antt =====
-- The transition diagram of an operation, and lemmas on the assignments of the service
-- (src/workflow-operations/workflow-operation.service.ts).
use jagalchi_api.Base.{ℕ, String, true, false, Option, List, ◌+◌, ◌≡◌, arith}
use jagalchi_api.Workflow.Types.{
  WorkflowState, Operation, pending, running, cancel_requested, succeeded, failed, cancelled,
  is_terminal, is_active, is_running, is_cancel_requested,
}
use jagalchi_api.Workflow.Backoff.{BackoffPolicy}
use jagalchi_api.Workflow.Claim.{is_claimable, lease_to, renew}
use jagalchi_api.Workflow.Cancel.{mark_cancel}
use jagalchi_api.Workflow.Finish.{
  Resource, mark_succeeded, mark_failed, mark_exhausted, mark_retried, mark_cancelled,
  mark_abandoned,
}
use jagalchi_api.Workflow.Reap.{reap_row}

infix 40 ◌⟶◌
pub data ◌⟶◌ : WorkflowState → WorkflowState → Type 0 where
  start : pending ⟶ running
  withdraw : pending ⟶ cancelled
  complete : running ⟶ succeeded
  break_off : running ⟶ failed
  ask_cancel : running ⟶ cancel_requested
  ask_again : cancel_requested ⟶ cancel_requested
  requeue : running ⟶ pending
  stop : cancel_requested ⟶ cancelled
  exhaust : cancel_requested ⟶ failed
  forget_cancel : cancel_requested ⟶ pending

pub ruleset edges = (
  start, withdraw, complete, break_off, ask_cancel, ask_again, requeue, stop, exhaust,
  forget_cancel,
)

-- What a row keeps for ever.
pub record SameRequest (op op' : Operation) : Type 0 where
  pub same_id : op'.id ≡ op.id
  pub same_owner : op'.owner_id ≡ op.owner_id
  pub same_route : op'.route ≡ op.route
  pub same_key : op'.idempotency_key ≡ op.idempotency_key
  pub same_kind : op'.kind ≡ op.kind
  pub same_hash : op'.input_hash ≡ op.input_hash
  pub same_input : op'.input ≡ op.input
  pub same_budget : op'.max_attempts ≡ op.max_attempts

-- One change of a row: a renewed lease, or an edge of the diagram and the next version.
pub data Change (op op' : Operation) : Type 0 where
  beat : op.state ≡ running → op'.state ≡ running → op'.version ≡ op.version → Change op op'
  move : op.state ⟶ op'.state → op'.version ≡ op.version + 1 → Change op op'

abbrev pub Changed : Operation → Operation → Type 0
Changed op op' = SameRequest op op' × Change op op'

pub lease_to-Changed :
    (w : String) (ms now asked : ℕ) (kinds : Option (List String)) (op : Operation)
    → is_claimable asked kinds op ≡ true
    → Changed op (lease_to w ms now op)
unfolding lease_to is_claimable
lease_to-Changed w ms now asked kinds op c = grind (arith, edges, move)

module _ (op : Operation) (now : ℕ) where
  pub renew-Changed : (ms : ℕ) → is_running op.state ≡ true → Changed op (renew ms now op)
  unfolding renew
  renew-Changed ms r = grind (arith, beat)

  pub mark_cancel-Changed : is_terminal op.state ≡ false → Changed op (mark_cancel now op)
  unfolding mark_cancel
  mark_cancel-Changed t = grind (arith, edges, move)

  pub mark_succeeded-Changed :
      (r : Option Resource) → is_running op.state ≡ true → Changed op (mark_succeeded r now op)
  unfolding mark_succeeded
  mark_succeeded-Changed r h = grind (arith, edges, move)

  pub mark_failed-Changed :
      (c : String) (m : List ℕ) (f : String)
      → is_running op.state ≡ true
      → Changed op (mark_failed c m f now op)
  unfolding mark_failed
  mark_failed-Changed c m f h = grind (arith, edges, move)

  pub mark_exhausted-Changed :
      (c : String) (m : List ℕ) → is_active op.state ≡ true → Changed op (mark_exhausted c m now op)
  unfolding mark_exhausted
  mark_exhausted-Changed c m h = grind (arith, edges, move)

  pub mark_retried-Changed :
      (p : BackoffPolicy) (c : String) (m : List ℕ) (f : String)
      → is_active op.state ≡ true
      → Changed op (mark_retried p c m f now op)
  unfolding mark_retried
  mark_retried-Changed p c m f h = grind (arith, edges, move)

  pub mark_cancelled-Changed :
      is_cancel_requested op.state ≡ true → Changed op (mark_cancelled now op)
  unfolding mark_cancelled
  mark_cancelled-Changed h = grind (arith, edges, move)

  pub mark_abandoned-Changed : is_active op.state ≡ true → Changed op (mark_abandoned now op)
  unfolding mark_abandoned
  mark_abandoned-Changed h = grind (arith, edges, move)

  pub reap_row-Changed :
      (p : BackoffPolicy) → is_active op.state ≡ true → Changed op (reap_row p now op)
  unfolding reap_row
  reap_row-Changed p h = grind (arith, edges, move)
