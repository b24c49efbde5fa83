-- ===== src/Workflow/Path.antt =====
-- The path of an operation through the diagram of states, call by call
-- (src/workflow-operations/workflow-operation.service.ts).
use jagalchi_api.Base.{
  ℕ, String, Bool, true, false, Option, some, List, [], ◌∷◌, ◌≡◌, ◌≢◌, refl, sym, ◌∙◌, subst, inl,
  inr, All, All-map, All-zip, All-keep, keep, keep-All, keep-Distinct, sort_by, All-sort_by,
  sort_by-Distinct, find_by, find_by-All, find_by-save, find_by-update_where, Distinct, save,
  if_ind, Option-cases, Bool-cases, str_eq, str_ne, eq_iff,
}
use jagalchi_api.Json.Canonical.{Runtime}
use jagalchi_api.Workflow.Types.{Operation, Store, is_active}
use jagalchi_api.Workflow.Backoff.{BackoffPolicy}
use jagalchi_api.Workflow.Create.{CreateArgs, new_operation, create_or_replay}
use jagalchi_api.Workflow.Claim.{
  op_id, select_claim, lease_to, claim, is_empty_list, is_beating, renew, heartbeat,
}
use jagalchi_api.Workflow.Reap.{is_expired, reap_row, reap_each, reap_expired, expires_earlier}
use jagalchi_api.Workflow.Edges.{lease_to-Changed, reap_row-Changed}
use jagalchi_api.Workflow.Sound.{IsStoreValid}
use jagalchi_api.Workflow.Requests.{create_or_replay_ind, insert-same}
use jagalchi_api.Workflow.Leasing.{
  select_claim-All, renew-id, is_beating-running, IsWaiting, is_expired-active, reap_row-IsWaiting,
}
use jagalchi_api.Workflow.Steps.{
  Call, creating, claiming, beating, cancelling, succeeding, failing, retrying, finishing,
  abandoning, reaping, Step, rest, Steps, Steps-refl, save-Steps, lease_to-Step, renew-Step,
  reap_row-Step,
}
use jagalchi_api.Workflow.Reports.{
  fail-Steps, retry-Steps, finish_cancellation-Steps, abandon-Steps, succeed-Steps,
  request_cancel-Steps, request_cancel_versioned-Steps,
}
use jagalchi_api.Workflow.Run.{
  Action, create, claim_next, beat_lease, cancel, cancel_versioned, report_success, report_failure,
  report_retry, report_cancelled, give_up, reap, perform, run, perform-Keeps,
}

claim-Steps :
    (asked : ℕ) (kinds : Option (List String)) (locked : String → Bool) (worker : String)
    (lease_ms now : ℕ) (s : Store)
    → Distinct op_id s.operations
    → Steps claiming s.operations (claim worker lease_ms kinds locked asked now s).1.operations
unfolding claim
claim-Steps asked kinds locked worker lease_ms now s distinct =
    if_ind (λ (r : Option Operation × Store). Steps claiming s.operations r.1.operations)
      (is_empty_list kinds) (λ _. Steps-refl claiming s.operations)
      (λ _. elim (Option-cases (select_claim asked kinds locked s.operations)) [
        | inl e ↦ rw e (Steps-refl claiming s.operations)
        | inr (op, e) ↦
            let (found, free, _) =
              select_claim-All asked kinds locked
                (λ a. find_by op_id (op_id a) s.operations ≡ some a) s.operations
                (find_by-All op_id s.operations distinct) e in
            rw e (
              save-Steps claiming s.operations op.id op (lease_to worker lease_ms now op) found
                (lease_to-Changed worker lease_ms now asked kinds op free).0.same_id
                (lease_to-Step worker lease_ms now asked kinds op free))
      ])

heartbeat-Steps :
    (id worker : String) (lease_ms now : ℕ) (s : Store)
    → Steps beating s.operations (heartbeat id worker lease_ms now s).1.operations
unfolding heartbeat
heartbeat-Steps id worker lease_ms now s j o e =
    let seen =
      find_by-update_where op_id j (is_beating id worker now) (renew lease_ms now) s.operations
        (renew-id lease_ms now) in
    elim (Bool-cases (is_beating id worker now o)) [
      | inl h ↦ (
        renew lease_ms now o,
        seen ∙ (rw (e, h)),
        renew-Step o now lease_ms (is_beating-running id worker now o h),
      )
      | inr h ↦ (o, seen ∙ (rw (e, h)), rest refl)
    ]

module _ (policy : BackoffPolicy) (now : ℕ) where
  -- Rows that are not among those to be reaped stay.
  reap_each-spares :
      (rows ops : List Operation) (i : String)
      → All (λ (o : Operation). o.id ≢ i) rows
      → All (λ (o : Operation). is_active o.state ≡ true) rows
      → find_by op_id i (reap_each policy now rows ops) ≡ find_by op_id i ops
  unfolding reap_each
  reap_each-spares [] ops i n a = refl
  reap_each-spares (op ∷ rows) ops i n a =
      let row = reap_row policy now op in
      let same = (reap_row-Changed op now policy a.0).0.same_id in
      let other : str_eq row.id i ≡ false = str_ne (λ q. n.0 (sym same ∙ q)) in
      reap_each-spares rows (save op_id row ops) i n.1 a.1
      ∙ find_by-save op_id i row ops
      ∙ (rw other refl)

  reap_each-Steps :
      (rows ops : List Operation)
      → All (IsWaiting ops) rows
      → Distinct op_id rows
      → Steps reaping ops (reap_each policy now rows ops)
  unfolding reap_each
  reap_each-Steps [] ops w d i o e = Steps-refl reaping ops i o e
  reap_each-Steps (op ∷ rows) ops w d i o e =
      let row = reap_row policy now op in
      let same : row.id ≡ op.id = (reap_row-Changed op now policy w.0.1).0.same_id in
      elim (Bool-cases (str_eq row.id i)) [
        | inl h ↦
            let here : op.id ≡ i = sym same ∙ (eq_iff row.id i).0 h in
            let found : find_by op_id i ops ≡ some op =
              subst (λ k. find_by op_id k ops ≡ some op) here w.0.0 in
            let q : op ≡ o = cc in
            let spared =
              reap_each-spares rows (save op_id row ops) i
                (subst (λ k. All (λ (x : Operation). x.id ≢ k) rows) here d.0)
                (All-map _ _ rows (λ x a. a.1) w.1) in
            (
              row,
              spared ∙ find_by-save op_id i row ops ∙ (rw h refl),
              subst (λ x. Step reaping x row) q (reap_row-Step op now policy w.0.1),
            )
        | inr h ↦
            reap_each-Steps rows (save op_id row ops)
              (reap_row-IsWaiting policy now [] op rows ops w.0.1 d.0 w.1) d.1 i o
              (find_by-save op_id i row ops ∙ (rw (h, e) refl))
      ]

reap_expired-Steps :
    (policy : BackoffPolicy) (now : ℕ) (locked : String → Bool) (s : Store)
    → Distinct op_id s.operations
    → Steps reaping s.operations (reap_expired policy now locked s).1.operations
unfolding reap_expired
reap_expired-Steps policy now locked s distinct =
    let p = is_expired now locked in
    let expired = keep p s.operations in
    let waiting : All (IsWaiting s.operations) expired =
      All-map _ _ expired (λ o (e, h). (e, is_expired-active now locked o h))
        (All-zip _ _ expired
          (All-keep (λ o. find_by op_id (op_id o) s.operations ≡ some o) p s.operations
            (find_by-All op_id s.operations distinct))
          (keep-All p s.operations)) in
    reap_each-Steps policy now (sort_by expires_earlier expired) s.operations
      (All-sort_by (IsWaiting s.operations) expires_earlier expired waiting)
      (sort_by-Distinct op_id expires_earlier expired (keep-Distinct op_id p s.operations distinct))

-- A new operation leaves the others as they are.
abbrev Same : Store → Store → Type 0
Same s t =
    (i : String) (op : Operation)
    → find_by op_id i s.operations ≡ some op
    → find_by op_id i t.operations ≡ some op

create-Steps :
    (rt : Runtime) (args : CreateArgs) (id : String) (now : ℕ) (s : Store)
    → Same s
        (create_or_replay rt args (record { others = λ t. t; new_id = id; now = now } ∷ []) s).1
create-Steps rt args id now s =
    create_or_replay_ind rt args (Same s) (record { others = λ t. t; new_id = id; now = now } ∷ [])
      s ((λ t k. k), tt)
      (λ id' now' t free k i op e.
        insert-same (new_operation rt args id' now') t.operations free i op (k i op e))
      (λ i op e. e)

abbrev call_of : Action → Call
call_of (create args id now) = creating
call_of (claim_next w ms kinds locked asked now) = claiming
call_of (beat_lease id w ms now) = beating
call_of (cancel id owner now) = cancelling
call_of (cancel_versioned id owner expected key now) = cancelling
call_of (report_success id w value resource asked now) = succeeding
call_of (report_failure id w code message class now) = failing
call_of (report_retry id w code message class now) = retrying
call_of (report_cancelled id w now) = finishing
call_of (give_up id w now) = abandoning
call_of (reap now locked) = reaping

module _ (rt : Runtime) (policy : BackoffPolicy) where
  perform-Steps :
      (a : Action) (s : Store)
      → IsStoreValid s
      → Steps (call_of a) s.operations (perform rt policy a s).operations
  unfolding perform
  perform-Steps (create args id now) s v =
      λ i op e. (op, create-Steps rt args id now s i op e, rest refl)
  perform-Steps (claim_next w ms kinds locked asked now) s v =
      claim-Steps asked kinds locked w ms now s v.distinct
  perform-Steps (beat_lease id w ms now) s v = heartbeat-Steps id w ms now s
  perform-Steps (cancel id owner now) s v = request_cancel-Steps id owner now s v.distinct
  perform-Steps (cancel_versioned id owner expected key now) s v =
      request_cancel_versioned-Steps id owner now s v.distinct rt expected key
  perform-Steps (report_success id w value resource asked now) s v =
      succeed-Steps id w now s value resource asked
  perform-Steps (report_failure id w code message class now) s v =
      fail-Steps id w now s code message class
  perform-Steps (report_retry id w code message class now) s v =
      retry-Steps id w now s policy code message class
  perform-Steps (report_cancelled id w now) s v = finish_cancellation-Steps id w now s
  perform-Steps (give_up id w now) s v = abandon-Steps id w now s
  perform-Steps (reap now locked) s v = reap_expired-Steps policy now locked s v.distinct

-- One step for each call.
unfoldable pub IsPath : List Action → Operation → Operation → Type 0
IsPath [] op op' = op' ≡ op
IsPath (a ∷ acts) op op' = (mid : Operation) × Step (call_of a) op mid × IsPath acts mid op'

-- Whatever is called, an operation stays in the tables, and what becomes of it is a path with one
-- step for each call: the call leaves the row as it is, or renews the lease of a running one, or
-- takes the row along an edge of the diagram that is open to that call, to the next version. So
-- only `retry` withdraws a requested cancellation, and only `succeed` succeeds.
pub run-IsPath :
    (rt : Runtime) (policy : BackoffPolicy) (acts : List Action) (s : Store) (id : String)
    (op : Operation)
    → IsStoreValid s
    → find_by op_id id s.operations ≡ some op
    → (op' : Operation) × (find_by op_id id (run rt policy acts s).operations ≡ some op')
      × IsPath acts op op'
unfolding run IsPath
run-IsPath rt policy [] s id op v e = (op, e, refl)
run-IsPath rt policy (a ∷ acts) s id op v e =
    let (mid, f, step) = perform-Steps rt policy a s v id op e in
    let (op', g, path) =
      run-IsPath rt policy acts (perform rt policy a s) id mid (perform-Keeps rt policy a s v).valid
        f in
    (op', g, (mid, step, path))
