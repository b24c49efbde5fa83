-- ===== src/Workflow/Steps.antt =====
-- Which call may move an operation along which edge, and what single rows and tables make of it
-- (src/workflow-operations/workflow-operation.service.ts).
use jagalchi_api.Base.{
  ℕ, String, true, false, Option, some, List, ◌+◌, ◌≡◌, refl, ◌∙◌, subst, arith, inl, inr, find_by,
  find_by-save, key-find_by, save, str_eq, eq_iff, Bool-cases,
}
use jagalchi_api.Workflow.Types.{
  WorkflowState, Operation, pending, running, cancel_requested, succeeded, failed, cancelled,
  is_terminal, is_active, is_running, is_cancel_requested,
}
use jagalchi_api.Workflow.Backoff.{BackoffPolicy}
use jagalchi_api.Workflow.Claim.{op_id, is_claimable, lease_to, renew}
use jagalchi_api.Workflow.Cancel.{mark_cancel}
use jagalchi_api.Workflow.Finish.{
  Resource, mark_succeeded, mark_failed, mark_exhausted, mark_retried, mark_cancelled,
  mark_abandoned,
}
use jagalchi_api.Workflow.Reap.{reap_row}

-- The calls, by what they may do to a row that is there.
pub data Call : Type 0 where
  creating claiming beating cancelling succeeding failing retrying finishing abandoning reaping :
      Call

-- The diagram of states, each edge with the calls that may take it.
pub data Edge : Call → WorkflowState → WorkflowState → Type 0 where
  claimed : Edge claiming pending running
  cancelled_early : Edge cancelling pending cancelled
  cancel_asked : Edge cancelling running cancel_requested
  cancel_asked_again : Edge cancelling cancel_requested cancel_requested
  completed : Edge succeeding running succeeded
  broken_off : Edge failing running failed
  requeued : Edge retrying running pending
  exhausted : Edge retrying running failed
  cancel_forgotten : Edge retrying cancel_requested pending
  cancel_exhausted : Edge retrying cancel_requested failed
  cancel_finished : Edge finishing cancel_requested cancelled
  given_back : Edge abandoning running pending
  cancel_given_up : Edge abandoning cancel_requested cancelled
  reaped : Edge reaping running pending
  reaped_last : Edge reaping running failed
  cancel_reaped : Edge reaping cancel_requested cancelled

pub ruleset labelled = (
  claimed, cancelled_early, cancel_asked, cancel_asked_again, completed, broken_off, requeued,
  exhausted, cancel_forgotten, cancel_exhausted, cancel_finished, given_back, cancel_given_up,
  reaped, reaped_last, cancel_reaped,
)

-- What one call makes of a row: nothing; a longer lease of a running row; or one edge, and the next
-- version.
pub data Step (c : Call) (op op' : Operation) : Type 0 where
  rest : op' ≡ op → Step c op op'
  beat :
      c ≡ beating
      → op.state ≡ running
      → op'.state ≡ running
      → op'.version ≡ op.version
      → Step c op op'
  move : Edge c op.state op'.state → op'.version ≡ op.version + 1 → Step c op op'

pub lease_to-Step :
    (w : String) (ms now asked : ℕ) (kinds : Option (List String)) (op : Operation)
    → is_claimable asked kinds op ≡ true
    → Step claiming op (lease_to w ms now op)
unfolding lease_to is_claimable
lease_to-Step w ms now asked kinds op c = grind (arith, labelled, move)

module _ (op : Operation) (now : ℕ) where
  pub renew-Step : (ms : ℕ) → is_running op.state ≡ true → Step beating op (renew ms now op)
  unfolding renew
  renew-Step ms r = grind (arith, beat)

  pub mark_cancel-Step : is_terminal op.state ≡ false → Step cancelling op (mark_cancel now op)
  unfolding mark_cancel
  mark_cancel-Step t = grind (arith, labelled, move)

  pub mark_succeeded-Step :
      (r : Option Resource)
      → is_running op.state ≡ true
      → Step succeeding op (mark_succeeded r now op)
  unfolding mark_succeeded
  mark_succeeded-Step r h = grind (arith, labelled, move)

  pub mark_failed-Step :
      (c : String) (m : List ℕ) (f : String)
      → is_running op.state ≡ true
      → Step failing op (mark_failed c m f now op)
  unfolding mark_failed
  mark_failed-Step c m f h = grind (arith, labelled, move)

  pub mark_exhausted-Step :
      (c : String) (m : List ℕ)
      → is_active op.state ≡ true
      → Step retrying op (mark_exhausted c m now op)
  unfolding mark_exhausted
  mark_exhausted-Step c m h = grind (arith, labelled, move)

  pub mark_retried-Step :
      (p : BackoffPolicy) (c : String) (m : List ℕ) (f : String)
      → is_active op.state ≡ true
      → Step retrying op (mark_retried p c m f now op)
  unfolding mark_retried
  mark_retried-Step p c m f h = grind (arith, labelled, move)

  pub mark_cancelled-Step :
      is_cancel_requested op.state ≡ true → Step finishing op (mark_cancelled now op)
  unfolding mark_cancelled
  mark_cancelled-Step h = grind (arith, labelled, move)

  pub mark_abandoned-Step : is_active op.state ≡ true → Step abandoning op (mark_abandoned now op)
  unfolding mark_abandoned
  mark_abandoned-Step h = grind (arith, labelled, move)

  pub reap_row-Step :
      (p : BackoffPolicy) → is_active op.state ≡ true → Step reaping op (reap_row p now op)
  unfolding reap_row
  reap_row-Step p h = grind (arith, labelled, move)

-- Every row is still there, after one step.
abbrev pub Steps : Call → List Operation → List Operation → Type 0
Steps c ops ops' =
    (i : String) (op : Operation)
    → find_by op_id i ops ≡ some op
    → (op' : Operation) × (find_by op_id i ops' ≡ some op') × Step c op op'

pub Steps-refl : (c : Call) (ops : List Operation) → Steps c ops ops
Steps-refl c ops i op e = (op, e, rest refl)

pub save-Steps :
    (c : Call) (ops : List Operation) (i : String) (op op' : Operation)
    → find_by op_id i ops ≡ some op
    → op'.id ≡ op.id
    → Step c op op'
    → Steps c ops (save op_id op' ops)
save-Steps c ops i op op' found same step j o e = elim (Bool-cases (str_eq op'.id j)) [
  | inl h ↦
      let here : i ≡ j = cc (same, key-find_by op_id i ops found, (eq_iff op'.id j).0 h) in
      let again : find_by op_id j ops ≡ some op =
        subst (λ k. find_by op_id k ops ≡ some op) here found in
      let q : op ≡ o = cc in
      (op', find_by-save op_id j op' ops ∙ (rw h refl), subst (λ x. Step c x op') q step)
  | inr h ↦ (o, find_by-save op_id j op' ops ∙ (rw (h, e) refl), rest refl)
]
