-- ===== src/Workflow/Reports.antt =====
-- The edges that the reports of a worker and the cancellations of an owner take
-- (src/workflow-operations/workflow-operation.service.ts).
use jagalchi_api.Base.{
  ℕ, String, Bool, false, Option, some, List, ◌≡◌, ◌&&◌, not, inl, inr, find_by, find_where, save,
  All-find_where, find_by-All, Distinct, if_ind, Option-cases, leb, is_text, any, ◌==◌,
}
use jagalchi_api.Json.{Json}
use jagalchi_api.Json.Canonical.{Runtime}
use jagalchi_api.Workflow.Types.{
  Operation, Store, Outcome, CancelResponse, is_active, is_running, is_terminal,
  is_cancel_requested,
}
use jagalchi_api.Workflow.Backoff.{BackoffPolicy}
use jagalchi_api.Workflow.Claim.{op_id}
use jagalchi_api.Workflow.Cancel.{
  mark_cancel, is_owned, request_cancel, cancel_fresh, request_cancel_versioned, cancel_route,
  is_command, needs_canonical_cancel,
}
use jagalchi_api.Workflow.Finish.{
  Resource, owns_live_lease, may_succeed, result_of, Retry, succeed, fail, retry,
  finish_cancellation, abandon, mark_succeeded, mark_failed, mark_exhausted, mark_retried,
  mark_cancelled, mark_abandoned,
}
use jagalchi_api.Workflow.Edges.{
  mark_cancel-Changed, mark_succeeded-Changed, mark_failed-Changed, mark_exhausted-Changed,
  mark_retried-Changed, mark_cancelled-Changed, mark_abandoned-Changed,
}
use jagalchi_api.Workflow.Calls.{owns_live_lease-active, &&_right}
use jagalchi_api.Workflow.Completion.{may_succeed-running}
use jagalchi_api.Workflow.Steps.{
  Call, cancelling, succeeding, failing, retrying, finishing, abandoning, Steps, Steps-refl,
  save-Steps, mark_cancel-Step, mark_succeeded-Step, mark_failed-Step, mark_exhausted-Step,
  mark_retried-Step, mark_cancelled-Step, mark_abandoned-Step,
}

-- The tables after a call, beside its answer.
abbrev After : {A : Type 0} → Call → Store → A × Store → Type 0
After c s out = Steps c s.operations out.1.operations

module _ (id worker : String) (now : ℕ) (s : Store) where
  pub fail-Steps :
      (code : String) (message : List ℕ) (class : String)
      → Steps failing s.operations (fail id worker code message class now s).1.operations
  unfolding fail
  fail-Steps code message class = elim (Option-cases (find_by op_id id s.operations)) [
    | inl e ↦ rw (e, fail) (Steps-refl failing s.operations)
    | inr (op, e) ↦
        rw (e, fail)
          (if_ind (After {A = Bool} failing s)
            (owns_live_lease worker now op && is_running op.state)
            (λ g.
              save-Steps failing s.operations id op (mark_failed code message class now op) e
                (mark_failed-Changed op now code message class (&&_right _ _ g)).0.same_id
                (mark_failed-Step op now code message class (&&_right _ _ g)))
            (λ _. Steps-refl failing s.operations))
  ]

  pub retry-Steps :
      (policy : BackoffPolicy) (code : String) (message : List ℕ) (class : String)
      → Steps retrying s.operations (retry policy id worker code message class now s).1.operations
  unfolding retry
  retry-Steps policy code message class = elim (Option-cases (find_by op_id id s.operations)) [
    | inl e ↦ rw (e, retry) (Steps-refl retrying s.operations)
    | inr (op, e) ↦
        rw (e, retry)
          (if_ind (After {A = Retry} retrying s) (owns_live_lease worker now op)
            (λ g.
              let active = owns_live_lease-active worker now op g in
              if_ind (After {A = Retry} retrying s) (leb op.max_attempts op.attempts)
                (λ _.
                  save-Steps retrying s.operations id op (mark_exhausted code message now op) e
                    (mark_exhausted-Changed op now code message active).0.same_id
                    (mark_exhausted-Step op now code message active))
                (λ _.
                  save-Steps retrying s.operations id op
                    (mark_retried policy code message class now op) e
                    (mark_retried-Changed op now policy code message class active).0.same_id
                    (mark_retried-Step op now policy code message class active)))
            (λ _. Steps-refl retrying s.operations))
  ]

  pub finish_cancellation-Steps :
      Steps finishing s.operations (finish_cancellation id worker now s).1.operations
  unfolding finish_cancellation
  finish_cancellation-Steps = elim (Option-cases (find_by op_id id s.operations)) [
    | inl e ↦ rw (e, finish_cancellation) (Steps-refl finishing s.operations)
    | inr (op, e) ↦
        rw (e, finish_cancellation)
          (if_ind (After {A = Bool} finishing s)
            (owns_live_lease worker now op && is_cancel_requested op.state)
            (λ g.
              save-Steps finishing s.operations id op (mark_cancelled now op) e
                (mark_cancelled-Changed op now (&&_right _ _ g)).0.same_id
                (mark_cancelled-Step op now (&&_right _ _ g)))
            (λ _. Steps-refl finishing s.operations))
  ]

  pub abandon-Steps : Steps abandoning s.operations (abandon id worker now s).1.operations
  unfolding abandon
  abandon-Steps = elim (Option-cases (find_by op_id id s.operations)) [
    | inl e ↦ rw (e, abandon) (Steps-refl abandoning s.operations)
    | inr (op, e) ↦
        rw (e, abandon)
          (if_ind (After {A = Bool} abandoning s)
            (is_text op.lease_owner worker && is_active op.state)
            (λ g.
              save-Steps abandoning s.operations id op (mark_abandoned now op) e
                (mark_abandoned-Changed op now (&&_right _ _ g)).0.same_id
                (mark_abandoned-Step op now (&&_right _ _ g)))
            (λ _. Steps-refl abandoning s.operations))
  ]

  pub succeed-Steps :
      (value : Json) (resource : Option Resource) (asked : ℕ)
      → Steps succeeding s.operations (succeed id worker value resource asked now s).1.operations
  unfolding succeed
  succeed-Steps value resource asked = elim (Option-cases (find_by op_id id s.operations)) [
    | inl e ↦ rw (e, succeed) (Steps-refl succeeding s.operations)
    | inr (op, e) ↦
        rw (e, succeed)
          (if_ind (After {A = Outcome Bool} succeeding s) (may_succeed worker asked op)
            (λ g.
              if_ind (After {A = Outcome Bool} succeeding s) (any (result_of id) s.results)
                (λ _. Steps-refl succeeding s.operations)
                (λ _.
                  save-Steps succeeding s.operations id op (mark_succeeded resource now op) e
                    (mark_succeeded-Changed op now resource
                      (may_succeed-running worker asked op g)).0.same_id
                    (mark_succeeded-Step op now resource (may_succeed-running worker asked op g))))
            (λ _. Steps-refl succeeding s.operations))
  ]

module _ (id owner : String) (now : ℕ) (s : Store) (distinct : Distinct op_id s.operations) where
  cancel_row-Steps :
      (op : Operation)
      → find_where (is_owned id owner) s.operations ≡ some op
      → is_terminal op.state ≡ false
      → Steps cancelling s.operations (save op_id (mark_cancel now op) s.operations)
  cancel_row-Steps op e t =
      save-Steps cancelling s.operations op.id op (mark_cancel now op)
        (All-find_where (λ a. find_by op_id (op_id a) s.operations ≡ some a) (is_owned id owner)
          s.operations (find_by-All op_id s.operations distinct) e)
        (mark_cancel-Changed op now t).0.same_id (mark_cancel-Step op now t)

  idle : Steps cancelling s.operations s.operations
  idle = Steps-refl cancelling s.operations

  pub request_cancel-Steps :
      Steps cancelling s.operations (request_cancel id owner now s).1.operations
  unfolding request_cancel
  request_cancel-Steps = elim (Option-cases (find_where (is_owned id owner) s.operations)) [
    | inl e ↦ rw (e, request_cancel) idle
    | inr (op, e) ↦
        rw (e, request_cancel)
          (if_ind (After {A = Outcome Operation} cancelling s) (needs_canonical_cancel op.kind)
            (λ _. idle)
            (λ _.
              if_ind (After {A = Outcome Operation} cancelling s) (is_terminal op.state) (λ _. idle)
                (cancel_row-Steps op e)))
  ]

  module _ (rt : Runtime) (expected : ℕ) (key : String) where
    cancel_fresh-Steps :
        Steps cancelling s.operations (cancel_fresh rt id owner expected key now s).1.operations
    unfolding cancel_fresh
    cancel_fresh-Steps = elim (Option-cases (find_where (is_owned id owner) s.operations)) [
      | inl e ↦ rw (e, cancel_fresh) idle
      | inr (op, e) ↦
          rw (e, cancel_fresh)
            (if_ind (After {A = Outcome CancelResponse} cancelling s) (not (op.version == expected))
              (λ _. idle)
              (λ _.
                if_ind (After {A = Outcome CancelResponse} cancelling s) (is_terminal op.state)
                  (λ _. idle)
                  (λ t.
                    if_ind (After {A = Outcome CancelResponse} cancelling s)
                      (is_cancel_requested op.state) (λ _. idle) (λ _. cancel_row-Steps op e t))))
    ]

    pub request_cancel_versioned-Steps :
        Steps cancelling s.operations
          (request_cancel_versioned rt id owner expected key now s).1.operations
    unfolding request_cancel_versioned
    request_cancel_versioned-Steps =
        elim (Option-cases (find_where (is_command owner (cancel_route id) key) s.commands)) [
          | inl e ↦ rw (e, request_cancel_versioned) cancel_fresh-Steps
          | inr (prior, e) ↦ rw (e, request_cancel_versioned) idle
        ]
