-- ===== src/Workflow/Calls.antt =====
-- Lemmas on the calls by which a worker or an owner ends or cancels an operation
-- (src/workflow-operations/workflow-operation.service.ts).
use jagalchi_api.Base.{
  ℕ, String, Bool, true, false, some, List, ◌≡◌, ◌&&◌, not, arith, inl, inr, find_by, find_where,
  save, All-find_where, find_by-All, if_ind, Option-cases, leb, is_text, ◌==◌,
}
use jagalchi_api.Json.Canonical.{Runtime}
use jagalchi_api.Workflow.Types.{
  Operation, Store, Outcome, CancelResponse, is_active, is_running, is_terminal,
  is_cancel_requested,
}
use jagalchi_api.Workflow.Backoff.{BackoffPolicy}
use jagalchi_api.Workflow.Claim.{op_id}
use jagalchi_api.Workflow.Cancel.{
  mark_cancel, is_owned, request_cancel, cancel_fresh, request_cancel_versioned, cancel_route,
  is_command, needs_canonical_cancel,
}
use jagalchi_api.Workflow.Finish.{
  owns_live_lease, Retry, fail, retry, finish_cancellation, abandon, mark_failed, mark_exhausted,
  mark_retried, mark_cancelled, mark_abandoned,
}
use jagalchi_api.Workflow.Valid.{
  mark_cancel-IsValid, mark_failed-IsValid, mark_exhausted-IsValid, mark_retried-IsValid,
  mark_cancelled-IsValid, mark_abandoned-IsValid,
}
use jagalchi_api.Workflow.Edges.{
  mark_cancel-Changed, mark_failed-Changed, mark_exhausted-Changed, mark_retried-Changed,
  mark_cancelled-Changed, mark_abandoned-Changed,
}
use jagalchi_api.Workflow.Sound.{Sound, Keeps, Keeps-refl, save-Sound}

pub owns_live_lease-active :
    (w : String) (now : ℕ) (op : Operation)
    → owns_live_lease w now op ≡ true
    → is_active op.state ≡ true
unfolding owns_live_lease
owns_live_lease-active w now op h = ground arith

&&_left : (a b : Bool) → (a && b) ≡ true → a ≡ true
&&_left a b h = ground arith

pub &&_right : (a b : Bool) → (a && b) ≡ true → b ≡ true
&&_right a b h = ground arith

module _ (id worker : String) (now : ℕ) (s : Store) where
  pub fail-Keeps :
      (code : String) (message : List ℕ) (class : String)
      → Keeps s (fail id worker code message class now s).1
  unfolding fail
  fail-Keeps code message class = elim (Option-cases (find_by op_id id s.operations)) [
    | inl e ↦ rw (e, fail) (Keeps-refl s)
    | inr (op, e) ↦
        rw (e, fail)
          (if_ind (λ (r : Bool × Store). Keeps s r.1)
            (owns_live_lease worker now op && is_running op.state)
            (λ g.
              save-Sound s.operations id op (mark_failed code message class now op) e
                (mark_failed-Changed op now code message class (&&_right _ _ g)) s.results
                (λ v. mark_failed-IsValid op v now code message class))
            (λ _. Keeps-refl s))
  ]

  pub retry-Keeps :
      (policy : BackoffPolicy) (code : String) (message : List ℕ) (class : String)
      → Keeps s (retry policy id worker code message class now s).1
  unfolding retry
  retry-Keeps policy code message class = elim (Option-cases (find_by op_id id s.operations)) [
    | inl e ↦ rw (e, retry) (Keeps-refl s)
    | inr (op, e) ↦
        rw (e, retry)
          (if_ind (λ (r : Retry × Store). Keeps s r.1) (owns_live_lease worker now op)
            (λ g.
              let active = owns_live_lease-active worker now op g in
              if_ind (λ (r : Retry × Store). Keeps s r.1) (leb op.max_attempts op.attempts)
                (λ _.
                  save-Sound s.operations id op (mark_exhausted code message now op) e
                    (mark_exhausted-Changed op now code message active) s.results
                    (λ v. mark_exhausted-IsValid op v now code message))
                (λ _.
                  save-Sound s.operations id op (mark_retried policy code message class now op) e
                    (mark_retried-Changed op now policy code message class active) s.results
                    (λ v. mark_retried-IsValid op v now policy code message class active)))
            (λ _. Keeps-refl s))
  ]

  pub finish_cancellation-Keeps : Keeps s (finish_cancellation id worker now s).1
  unfolding finish_cancellation
  finish_cancellation-Keeps = elim (Option-cases (find_by op_id id s.operations)) [
    | inl e ↦ rw (e, finish_cancellation) (Keeps-refl s)
    | inr (op, e) ↦
        rw (e, finish_cancellation)
          (if_ind (λ (r : Bool × Store). Keeps s r.1)
            (owns_live_lease worker now op && is_cancel_requested op.state)
            (λ g.
              save-Sound s.operations id op (mark_cancelled now op) e
                (mark_cancelled-Changed op now (&&_right _ _ g)) s.results
                (λ v. mark_cancelled-IsValid op v now))
            (λ _. Keeps-refl s))
  ]

  pub abandon-Keeps : Keeps s (abandon id worker now s).1
  unfolding abandon
  abandon-Keeps = elim (Option-cases (find_by op_id id s.operations)) [
    | inl e ↦ rw (e, abandon) (Keeps-refl s)
    | inr (op, e) ↦
        rw (e, abandon)
          (if_ind (λ (r : Bool × Store). Keeps s r.1)
            (is_text op.lease_owner worker && is_active op.state)
            (λ g.
              save-Sound s.operations id op (mark_abandoned now op) e
                (mark_abandoned-Changed op now (&&_right _ _ g)) s.results
                (λ v. mark_abandoned-IsValid op v now))
            (λ _. Keeps-refl s))
  ]

-- A row that an owner asked for is the row of that identifier, where identifiers are distinct.
module _ (id owner : String) (now : ℕ) (s : Store) where
  -- Marking the row that `is_owned` finds.
  cancel_row-Keeps :
      (op : Operation)
      → find_where (is_owned id owner) s.operations ≡ some op
      → is_terminal op.state ≡ false
      → Sound s.operations s.results (save op_id (mark_cancel now op) s.operations) s.results
  cancel_row-Keeps op e t v =
      save-Sound s.operations op.id op (mark_cancel now op)
        (All-find_where (λ a. find_by op_id (op_id a) s.operations ≡ some a) (is_owned id owner)
          s.operations (find_by-All op_id s.operations v.distinct) e)
        (mark_cancel-Changed op now t) s.results (λ w. mark_cancel-IsValid op w now t) v

  pub request_cancel-Keeps : Keeps s (request_cancel id owner now s).1
  unfolding request_cancel
  request_cancel-Keeps = elim (Option-cases (find_where (is_owned id owner) s.operations)) [
    | inl e ↦ rw (e, request_cancel) (Keeps-refl s)
    | inr (op, e) ↦
        rw (e, request_cancel)
          (if_ind (λ (r : Outcome Operation × Store). Keeps s r.1) (needs_canonical_cancel op.kind)
            (λ _. Keeps-refl s)
            (λ _.
              if_ind (λ (r : Outcome Operation × Store). Keeps s r.1) (is_terminal op.state)
                (λ _. Keeps-refl s) (λ t. cancel_row-Keeps op e t)))
  ]

  module _ (rt : Runtime) (expected : ℕ) (key : String) where
    cancel_fresh-Keeps : Keeps s (cancel_fresh rt id owner expected key now s).1
    unfolding cancel_fresh
    cancel_fresh-Keeps = elim (Option-cases (find_where (is_owned id owner) s.operations)) [
      | inl e ↦ rw (e, cancel_fresh) (Keeps-refl s)
      | inr (op, e) ↦
          rw (e, cancel_fresh)
            (if_ind (λ (r : Outcome CancelResponse × Store). Keeps s r.1)
              (not (op.version == expected)) (λ _. Keeps-refl s)
              (λ _.
                if_ind (λ (r : Outcome CancelResponse × Store). Keeps s r.1) (is_terminal op.state)
                  (λ _. Keeps-refl s)
                  (λ t.
                    if_ind (λ (r : Outcome CancelResponse × Store). Keeps s r.1)
                      (is_cancel_requested op.state) (λ _. Keeps-refl s)
                      (λ _. cancel_row-Keeps op e t))))
    ]

    pub request_cancel_versioned-Keeps :
        Keeps s (request_cancel_versioned rt id owner expected key now s).1
    unfolding request_cancel_versioned
    request_cancel_versioned-Keeps =
        elim (Option-cases (find_where (is_command owner (cancel_route id) key) s.commands)) [
          | inl e ↦ rw (e, request_cancel_versioned) cancel_fresh-Keeps
          | inr (prior, e) ↦ rw (e, request_cancel_versioned) (Keeps-refl s)
        ]
