-- ===== src/Workflow/Losses.antt =====
-- `abandon` in a last attempt, and `retry` after a request of cancellation
-- (src/workflow-operations/workflow-operation.service.ts).
use jagalchi_api.Base.{
  ℕ, String, Bool, true, false, Option, some, List, ◌≡◌, refl, ◌∙◌, ◌≤◌, ◌<◌, arith, find_by,
  find_by-save, save, is_text, leb, eq_iff, key-find_by, ◌&&◌,
}
use jagalchi_api.Workflow.Types.{Operation, Store, pending, running, cancel_requested, is_active}
use jagalchi_api.Workflow.Backoff.{BackoffPolicy}
use jagalchi_api.Workflow.Claim.{op_id, is_claimable}
use jagalchi_api.Workflow.Finish.{
  retry, retried, abandon, mark_abandoned, mark_retried, owns_live_lease, fail,
}
use jagalchi_api.Workflow.Reap.{is_expired}

-- What is saved under the identifier of a row is found there.
pub found_saved :
    (id : String) (op op' : Operation) (ops : List Operation)
    → find_by op_id id ops ≡ some op
    → op'.id ≡ op.id
    → find_by op_id id (save op_id op' ops) ≡ some op'
found_saved id op op' ops e same =
    find_by-save op_id id op' ops ∙ (rw ((eq_iff op'.id id).1 (same ∙ key-find_by op_id id ops e)))

-- A worker that shuts down during the last attempt of an operation leaves the operation pending
-- with its budget spent: at no time can it be claimed by any worker, and at no time is it reaped.
pub abandon_strands :
    (id worker : String) (now : ℕ) (s : Store) (op : Operation)
    → find_by op_id id s.operations ≡ some op
    → op.state ≡ running
    → is_text op.lease_owner worker ≡ true
    → op.max_attempts ≤ op.attempts
    → ((abandon id worker now s).0 ≡ true)
      × ((op' : Operation) × (find_by op_id id (abandon id worker now s).1.operations ≡ some op')
          × (op'.state ≡ pending)
          × ((asked : ℕ) (kinds : Option (List String)) → is_claimable asked kinds op' ≡ false)
          × ((at : ℕ) (locked : String → Bool) → is_expired at locked op' ≡ false))
unfolding abandon mark_abandoned is_claimable is_expired
abandon_strands id worker now s op e r w b =
    let held : (is_text op.lease_owner worker && is_active op.state) ≡ true = rw (w, r) refl in
    (
      rw (e, abandon) (rw held),
      (
        mark_abandoned now op,
        rw (e, abandon) (rw held (found_saved id op (mark_abandoned now op) s.operations e refl)),
        ground arith,
        λ asked kinds. ground arith,
        λ at locked. ground arith,
      ),
    )

-- `retry` by the worker that holds the live lease also accepts an operation whose cancellation has
-- been requested, if it has attempts left: it goes back to the queue, and the request is forgotten.
-- `fail` refuses in the same state.
pub retry_forgets_cancel :
    (policy : BackoffPolicy) (id worker code : String) (message : List ℕ) (class : String) (now : ℕ)
    (s : Store) (op : Operation)
    → find_by op_id id s.operations ≡ some op
    → op.state ≡ cancel_requested
    → owns_live_lease worker now op ≡ true
    → op.attempts < op.max_attempts
    → ((retry policy id worker code message class now s).0 ≡ retried)
      × ((op' : Operation) × (find_by op_id id
              (retry policy id worker code message class now s).1.operations
            ≡ some op')
          × (op'.state ≡ pending))
      × (fail id worker code message class now s ≡ (false, s))
unfolding retry fail mark_retried
retry_forgets_cancel policy id worker code message class now s op e r w b =
    let left : leb op.max_attempts op.attempts ≡ false = ground arith in
    (
      rw (e, retry) (rw (w, left)),
      (
        mark_retried policy code message class now op,
        rw (e, retry)
            (rw (w, left)
              (found_saved id op (mark_retried policy code message class now op) s.operations e
                refl)),
        refl,
      ),
      rw (e, fail) (rw (w, r)),
    )
