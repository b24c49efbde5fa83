-- ===== src/Workflow/Turns.antt =====
-- What one turn of the worker comes to (src/workflow-operations/workflow-operation.worker.ts).
use jagalchi_api.Base.{
  ◌∷◌, ℕ, String, true, false, Option, some, List, ◌≡◌, refl, find_by, save, is_text, is_after, any,
  ◌&&◌, Bool-cases, inl, inr, if◌then◌else◌, leb,
}
use jagalchi_api.Json.{Json}
use jagalchi_api.Workflow.Types.{
  Operation, Store, running, cancel_requested, cancelled, is_active, is_running,
  is_cancel_requested, ok,
}
use jagalchi_api.Workflow.Backoff.{BackoffPolicy}
use jagalchi_api.Workflow.Claim.{op_id}
use jagalchi_api.Workflow.Finish.{
  Resource, owns_live_lease, may_succeed, result_of, succeed, fail, retry, finish_cancellation,
  abandon, mark_succeeded, mark_failed, mark_exhausted, mark_retried, mark_cancelled,
  mark_abandoned,
}
use jagalchi_api.Workflow.Worker.{
  Turn, Ending, returned, threw, Thrown, classify_failure, resource_metadata, handle_failure,
  settle,
}
use jagalchi_api.Workflow.Sound.{StoreValid}
use jagalchi_api.Workflow.Completion.{recorded_excludes_running}
use jagalchi_api.Workflow.Losses.{found_saved}

-- The row after a report that is accepted.
module _ (id worker : String) (now : ℕ) (s : Store) (row : Operation)
    (found : find_by op_id id s.operations ≡ some row) where
  abandon-done :
      (is_text row.lease_owner worker && is_active row.state) ≡ true
      → abandon id worker now s
        ≡ (true, record s { operations = save op_id (mark_abandoned now row) s.operations })
  unfolding abandon
  abandon-done g = rw (found, abandon) (rw g)

  abandoned_found :
      find_by op_id id (save op_id (mark_abandoned now row) s.operations)
      ≡ some (mark_abandoned now row)
  unfolding mark_abandoned
  abandoned_found = found_saved id row (mark_abandoned now row) s.operations found refl

  fail-row :
      (code : String) (message : List ℕ) (class : String)
      → (owns_live_lease worker now row && is_running row.state) ≡ true
      → find_by op_id id (fail id worker code message class now s).1.operations
        ≡ some (mark_failed code message class now row)
  unfolding fail mark_failed
  fail-row code message class g =
      rw (found, fail)
        (rw g (found_saved id row (mark_failed code message class now row) s.operations found refl))

  cancel-done :
      (owns_live_lease worker now row && is_cancel_requested row.state) ≡ true
      → finish_cancellation id worker now s
        ≡ (true, record s { operations = save op_id (mark_cancelled now row) s.operations })
  unfolding finish_cancellation
  cancel-done g = rw (found, finish_cancellation) (rw g)

  succeed-done :
      (value : Json) (resource : Option Resource) (asked : ℕ)
      → may_succeed worker asked row ≡ true
      → any (result_of id) s.results ≡ false
      → succeed id worker value resource asked now s ≡ (
        ok true,
        record s {
          operations = save op_id (mark_succeeded resource now row) s.operations;
          results = record { operation_id = id; value = value } ∷ s.results;
        },
      )
  unfolding succeed
  succeed-done value resource asked g none_yet = rw (found, succeed) (rw (g, none_yet))

retry-row :
    (policy : BackoffPolicy) (id worker : String) (now : ℕ) (s : Store) (row : Operation)
    → find_by op_id id s.operations ≡ some row
    → (code : String) (message : List ℕ) (class : String) → owns_live_lease worker now row ≡ true
    → find_by op_id id (retry policy id worker code message class now s).1.operations
      ≡ some (
          if leb row.max_attempts row.attempts
          then mark_exhausted code message now row
          else mark_retried policy code message class now row)
unfolding retry mark_exhausted mark_retried
retry-row policy id worker now s row found code message class own =
    elim (Bool-cases (leb row.max_attempts row.attempts)) [
      | inl spent ↦
          rw (found, retry)
            (rw (own, spent)
              (found_saved id row (mark_exhausted code message now row) s.operations found refl))
      | inr left ↦
          rw (found, retry)
            (rw (own, left)
              (found_saved id row (mark_retried policy code message class now row) s.operations
                found refl))
    ]

succeeded_id :
    (r : Option Resource) (now : ℕ) (row : Operation) → (mark_succeeded r now row).id ≡ row.id
unfolding mark_succeeded
succeeded_id r now row = refl

abandoned_cancelled :
    (now : ℕ) (row : Operation)
    → row.state ≡ cancel_requested
    → (mark_abandoned now row).state ≡ cancelled
unfolding mark_abandoned
abandoned_cancelled now row r = rw r refl

may_at :
    (worker : String) (now : ℕ) (row : Operation)
    → is_text row.lease_owner worker ≡ true
    → is_after row.lease_expires_at now ≡ true
    → row.state ≡ running
    → may_succeed worker now row ≡ true
unfolding may_succeed
may_at worker now row a b r = rw (a, b, r) refl

module _ (policy : BackoffPolicy) (worker : String) (turn : Turn) where
  -- What becomes of a row whose handler threw, and whose lease and state allow a report.
  abbrev pub failed_row : Thrown → Operation → Operation
  failed_row e row =
      let f = classify_failure e in
      if turn.stopping_then
      then mark_abandoned turn.report_now row
      else if f.may_retry
      then if leb row.max_attempts row.attempts
        then mark_exhausted f.code f.message turn.report_now row
        else mark_retried policy f.code f.message f.failure_class turn.report_now row
      else mark_failed f.code f.message f.failure_class turn.report_now row

  abbrev pub settled_row : Operation → Ending → Operation → Operation
  settled_row op (returned value) row =
      mark_succeeded (some (resource_metadata op value)) turn.report_now row
  settled_row op (threw e) row = failed_row e row

  -- The worker holds the lease of a row at each time at which the turn reads the clock.
  pub record Holds (row : Operation) : Type 0 where
    pub owner : is_text row.lease_owner worker ≡ true
    pub cancel_in_time : is_after row.lease_expires_at turn.cancel_at ≡ true
    pub asked_in_time : is_after row.lease_expires_at turn.report_asked ≡ true
    pub report_in_time : is_after row.lease_expires_at turn.report_now ≡ true

  held_at :
      (now : ℕ) (row : Operation)
      → is_text row.lease_owner worker ≡ true
      → is_after row.lease_expires_at now ≡ true
      → is_active row.state ≡ true
      → owns_live_lease worker now row ≡ true
  unfolding owns_live_lease
  held_at now row a b c = rw (a, b, c) refl

  module _ (op row : Operation) (s : Store) (found : find_by op_id op.id s.operations ≡ some row)
      (h : Holds row) where
    no_cancellation :
        row.state ≡ running → finish_cancellation op.id worker turn.cancel_at s ≡ (false, s)
    unfolding finish_cancellation
    no_cancellation r =
        let own = held_at turn.cancel_at row h.owner h.cancel_in_time (rw r refl) in
        let idle : (owns_live_lease worker turn.cancel_at row && is_cancel_requested row.state)
            ≡ false =
          rw (own, r) refl in
        rw (found, finish_cancellation) (rw idle)

    handle_failure-row :
        (e : Thrown)
        → row.state ≡ running
        → turn.in_between s ≡ s
        → find_by op_id op.id (handle_failure policy worker turn op e s).operations
          ≡ some (failed_row e row)
    unfolding handle_failure
    handle_failure-row e r quiet =
        let f = classify_failure e in
        let now = turn.report_now in
        let act : is_active row.state ≡ true = rw r refl in
        let own : owns_live_lease worker now row ≡ true =
          held_at now row h.owner h.report_in_time act in
        elim (Bool-cases turn.stopping_then) [
          | inl st ↦ rw st (
              rw (abandon-done op.id worker now s row found (rw (h.owner, act) refl))
                (abandoned_found op.id worker now s row found))
          | inr st ↦ rw st (
              rw (no_cancellation r) (
                rw quiet (elim (Bool-cases f.may_retry) [
                  | inl again ↦ rw again (
                      retry-row policy op.id worker now s row found f.code f.message f.failure_class
                        own)
                  | inr never ↦ rw never (
                      fail-row op.id worker now s row found f.code f.message f.failure_class
                        (rw (own, r) refl))
                ])))
        ]

    -- A turn whose worker holds the lease until its last report, and is alone with the operation,
    -- ends the operation's work: it succeeds with the resource of the result if the handler
    -- returned; if it threw, it is abandoned when the worker is shutting down, queued again while
    -- a retryable failure has attempts left, and failed otherwise.
    pub settle-row :
        (ending : Ending)
        → StoreValid s.operations s.results
        → row.state ≡ running
        → turn.in_between s ≡ s
        → find_by op_id op.id (settle policy worker turn op ending s).operations
          ≡ some (settled_row op ending row)
    unfolding settle
    settle-row (threw e) v r quiet = handle_failure-row e r quiet
    settle-row (returned value) v r quiet =
        let may : may_succeed worker turn.report_asked row ≡ true =
          may_at worker turn.report_asked row h.owner h.asked_in_time r in
        rw (no_cancellation r) (
          rw quiet (
            rw
              (succeed-done op.id worker turn.report_now s row found value
                (some (resource_metadata op value)) turn.report_asked may
                (recorded_excludes_running s.operations s.results op.id row v.recorded found
                  (rw r refl)))
              (found_saved op.id row
                (mark_succeeded (some (resource_metadata op value)) turn.report_now row)
                s.operations found
                (succeeded_id (some (resource_metadata op value)) turn.report_now row))))

    cancels :
        row.state ≡ cancel_requested
        → finish_cancellation op.id worker turn.cancel_at s ≡ (
          true,
          record s { operations = save op_id (mark_cancelled turn.cancel_at row) s.operations },
        )
    cancels r =
        let own = held_at turn.cancel_at row h.owner h.cancel_in_time (rw r refl) in
        cancel-done op.id worker turn.cancel_at s row found (rw (own, r) refl)

    cancelled_after :
        row.state ≡ cancel_requested
        → (row' : Operation) × (find_by op_id op.id
              (save op_id (mark_cancelled turn.cancel_at row) s.operations)
            ≡ some row')
          × (row'.state ≡ cancelled)
          × (s.results ≡ s.results)
    unfolding mark_cancelled
    cancelled_after r =
        let row' = mark_cancelled turn.cancel_at row in
        (row', found_saved op.id row row' s.operations found refl, refl, refl)

    -- If the cancellation of the operation was requested, and the worker holds its lease until its
    -- last report, the turn cancels it, whatever the handler did, and stores no result.
    pub settle-cancelled :
        (ending : Ending)
        → row.state ≡ cancel_requested
        → (row' : Operation) × (find_by op_id op.id
              (settle policy worker turn op ending s).operations
            ≡ some row')
          × (row'.state ≡ cancelled)
          × ((settle policy worker turn op ending s).results ≡ s.results)
    unfolding settle
    settle-cancelled (returned value) r = rw (cancels r) (cancelled_after r)
    settle-cancelled (threw e) r = elim (Bool-cases turn.stopping_then) [
      | inl st ↦
          rw (st, handle_failure)
            (rw (abandon-done op.id worker turn.report_now s row found (rw (h.owner, r) refl)) (
              mark_abandoned turn.report_now row,
              abandoned_found op.id worker turn.report_now s row found,
              abandoned_cancelled turn.report_now row r,
              refl,
            ))
      | inr st ↦ rw (st, handle_failure) (rw (cancels r) (cancelled_after r))
    ]
