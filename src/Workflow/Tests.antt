-- ===== src/Workflow/Tests.antt =====
-- Examples of operations (src/workflow-operations), at which the theorems on them apply.
use jagalchi_api.Base.{
  ℕ, String, Bool, true, false, Option, none, some, List, [], ◌∷◌, ◌≡◌, ◌≢◌, refl, arith, is_text,
  any, keep, map, find_by, find_where, save, find_by, eq_iff, ◌≤◌,
}
use jagalchi_api.Base.Int.{pos}
use jagalchi_api.Json.{null, bool, num, text, arr, obj, field, end}
use jagalchi_api.Json.Canonical.{
  Runtime, canonical_json, join, entries_text, insert_entry, input_hash,
}
use jagalchi_api.Workflow.Types.{
  Operation, Store, pending, running, cancel_requested, succeeded, cancelled, ok, err,
  unique_violation,
}
use jagalchi_api.Workflow.Backoff.{delay_ms, default_policy}
use jagalchi_api.Workflow.Create.{
  CreateArgs, Round, create_or_replay, new_operation, insert_operation, schema_version,
}
use jagalchi_api.Workflow.Claim.{
  record_worker_heartbeat, op_id, claim, is_claimable, accepts_kind, select_claim, lease_to,
}
use jagalchi_api.Workflow.Cancel.{
  request_cancel_versioned, cancel_response, mark_cancel, cancel_fresh,
}
use jagalchi_api.Workflow.Finish.{
  succeed, abandon, retry, retried, fail, owns_live_lease, may_succeed, mark_succeeded,
}
use jagalchi_api.Workflow.Reap.{is_expired, reap_expired}
use jagalchi_api.Workflow.Valid.{IsValid}
use jagalchi_api.Workflow.Sound.{StoreValid, IsStoreValid}
use jagalchi_api.Workflow.Worker.{returned, Turn, Ending, settle}
use jagalchi_api.Workflow.Run.{
  Action, create, cancel, reap, claim_next, report_success, run, run-StoreValid, run-terminal,
}
use jagalchi_api.Workflow.Path.{IsPath, run-IsPath}
use jagalchi_api.Workflow.Ownership.{Refused, other_worker-Refused, late_worker-Refused}
use jagalchi_api.Workflow.Scheduling.{ClaimSpec, claim-ClaimSpec, delay_ms_bounds}
use jagalchi_api.Workflow.Requests.{create_or_replay-StoreValid}
use jagalchi_api.Workflow.Replay.{create_or_replay_returns, create_or_replay_again}
use jagalchi_api.Workflow.Completion.{succeed_unrefused}
use jagalchi_api.Workflow.Cancelling.{request_cancel_versioned_again}
use jagalchi_api.Workflow.Turns.{Holds, settle-cancelled}
use jagalchi_api.Workflow.Losses.{abandon_strands, retry_forgets_cancel}

-- A runtime whose hash is the text itself.
abbrev runtime : Runtime
runtime = record {
  locale_lt = λ a b. false;
  stringify = λ v. elim v [
    | null ↦ "null"
    | bool _ ↦ "true"
    | num _ ↦ "1"
    | text s ↦ s
    | arr _ ↦ ""
    | obj _ ↦ ""
  ];
  sha256 = λ s. s;
}

abbrev request : CreateArgs
request = record {
  owner_id = "ada";
  route = "/ai/jobs";
  idempotency_key = "key-1";
  kind = "ROADMAP";
  input = obj (field "topic" (text "rust") end);
}

abbrev waiting : Operation
waiting = record {
  id = "op-1";
  owner_id = "ada";
  route = "/ai/jobs";
  idempotency_key = "key-1";
  kind = "ROADMAP";
  input_hash = "{topic:rust}";
  input = obj (field "topic" (text "rust") end);
  input_schema_version = pos 1;
  result_schema_version = pos 1;
  state = pending;
  version = 1;
  available_at = 1000;
  next_attempt_at = 1000;
  lease_owner = none;
  lease_expires_at = none;
  heartbeat_at = none;
  attempts = 0;
  max_attempts = 3;
  error_code = none;
  error_message = none;
  failure_class = none;
  result_type = none;
  result_id = none;
  result_href = none;
  completed_at = none;
  created_at = 1000;
}

-- The same under the lease of the worker `w`, until 9000.
abbrev in_work : Operation
in_work = record waiting {
  state = running;
  version = 2;
  lease_owner = some "w";
  lease_expires_at = some 9000;
  heartbeat_at = some 2000;
  attempts = 1;
}

abbrev last_try : Operation
last_try = record in_work { attempts = 3 }

abbrev being_cancelled : Operation
being_cancelled = record in_work { state = cancel_requested; version = 3 }

abbrev finished : Operation
finished = record waiting {
  state = succeeded;
  version = 3;
  attempts = 1;
  result_id = some "op-1";
  completed_at = some 3000;
}

abbrev store_of : Operation → Store
store_of op = record { operations = op ∷ []; results = []; heartbeats = []; commands = [] }

valid_row : (op : Operation) → IsValid op → StoreValid (store_of op).operations []
valid_row op v = record { rows = (v, tt); distinct = (tt, tt); keys = (tt, tt); recorded = tt }

waiting-IsValid : IsValid waiting
waiting-IsValid = ground arith

in_work-IsValid : IsValid in_work
in_work-IsValid = ground arith

finished-IsValid : IsValid finished
finished-IsValid = ground arith

abbrev calls : List Action
calls =
    claim_next "w" 8000 none (λ _. false) 1000 1000
    ∷ report_success "op-1" "w" null none 2000 2000
    ∷ []

-- The worker `w` takes the operation and completes it.
completes :
    (run runtime default_policy calls (store_of waiting)).results
    ≡ record { operation_id = "op-1"; value = null } ∷ []
unfolding run claim select_claim keep is_claimable accepts_kind lease_to succeed find_by find_where
    save any may_succeed
completes = refl

run-StoreValid_example :
    StoreValid
      (run runtime default_policy calls (store_of waiting)).operations
      (run runtime default_policy calls (store_of waiting)).results
run-StoreValid_example =
    run-StoreValid runtime default_policy calls (store_of waiting)
      (valid_row waiting waiting-IsValid)

run-terminal_example :
    find_by op_id "op-1" (run runtime default_policy calls (store_of finished)).operations
    ≡ some finished
unfolding find_by find_where
run-terminal_example =
    run-terminal runtime default_policy calls (store_of finished) "op-1" finished
      (valid_row finished finished-IsValid) refl refl

-- Its owner cancels the operation that the worker has taken; the lease then runs out.
abbrev cut_short : List Action
cut_short =
    claim_next "w" 8000 none (λ _. false) 1000 1000
    ∷ cancel "op-1" "ada" 2000
    ∷ reap 9500 (λ _. false)
    ∷ []

run-IsPath_example :
    (op' : Operation) × (find_by op_id "op-1"
        (run runtime default_policy cut_short (store_of waiting)).operations
      ≡ some op')
    × IsPath cut_short waiting op'
unfolding find_by find_where
run-IsPath_example =
    run-IsPath runtime default_policy cut_short (store_of waiting) "op-1" waiting
      (valid_row waiting waiting-IsValid) refl

w_not_z : ◌≢◌ {A = String} "w" "z"
w_not_z e = let h : false ≡ true = (eq_iff "w" "z").1 e in cc

other_worker-Refused_example :
    Refused default_policy "op-1" "z" 3000 (store_of in_work)
    × (abandon "op-1" "z" 3000 (store_of in_work) ≡ (false, store_of in_work))
unfolding find_by find_where
other_worker-Refused_example =
    other_worker-Refused default_policy "op-1" "z" "w" 3000 (store_of in_work) in_work refl refl
      w_not_z

late_worker-Refused_example : Refused default_policy "op-1" "w" 9000 (store_of in_work)
unfolding find_by find_where
late_worker-Refused_example =
    late_worker-Refused default_policy "op-1" "w" 9000 9000 (store_of in_work) in_work refl refl
      (omega arith)

claim-ClaimSpec_example :
    ClaimSpec "w" 8000 none
      (λ _. false)
      1000
      1000
      (store_of waiting)
      (claim "w" 8000 none (λ _. false) 1000 1000 (store_of waiting))
claim-ClaimSpec_example =
    claim-ClaimSpec "w" 8000 none (λ _. false) 1000 1000 (store_of waiting)
      (valid_row waiting waiting-IsValid) refl

delay_ms_bounds_example :
    (delay_ms default_policy 9 ≤ 30000)
    × (delay_ms default_policy 2 ≤ delay_ms default_policy 9)
    × (delay_ms default_policy 0 ≡ delay_ms default_policy 1)
delay_ms_bounds_example = delay_ms_bounds default_policy 2 9 (omega arith)

abbrev empty : Store
empty = record { operations = []; results = []; heartbeats = []; commands = [] }

abbrev quiet_round : String → Round
quiet_round id = record { others = λ s. s; new_id = id; now = 1000 }

abbrev request_of : String → CreateArgs
request_of key = record request { idempotency_key = key }

-- In the first pass another client takes the identifier, so that the insertion is refused; in the
-- second, a worker completes `op-1` and its result is stored before the insertion.
abbrev busy_rounds : List Round
busy_rounds =
    record {
      others = run runtime default_policy (create (request_of "key-3") "op-2" 1001 ∷ []);
      new_id = "op-2";
      now = 1000;
    }
    ∷ record { others = run runtime default_policy calls; new_id = "op-3"; now = 1000 }
    ∷ []

abbrev after_busy : Store
after_busy = (create_or_replay runtime (request_of "key-2") busy_rounds (store_of waiting)).1

create_or_replay-StoreValid_example : IsStoreValid after_busy
create_or_replay-StoreValid_example =
    create_or_replay-StoreValid runtime (request_of "key-2") busy_rounds (store_of waiting)
      (
        run-StoreValid runtime default_policy (create (request_of "key-3") "op-2" 1001 ∷ []),
        (run-StoreValid runtime default_policy calls, tt),
      )
      (valid_row waiting waiting-IsValid)

-- Both other clients' writes and the new operation are there.
busy_keys :
    map (λ (o : Operation). o.idempotency_key) after_busy.operations
    ≡ "key-2" ∷ "key-3" ∷ "key-1" ∷ []
unfolding create_or_replay find_where insert_operation run new_operation succeed find_by claim
    select_claim keep is_claimable accepts_kind save lease_to may_succeed any mark_succeeded
busy_keys = refl

busy_results : after_busy.results ≡ record { operation_id = "op-1"; value = null } ∷ []
unfolding create_or_replay find_where insert_operation run new_operation succeed find_by claim
    select_claim keep is_claimable accepts_kind save lease_to may_succeed any mark_succeeded
busy_results = refl

-- Another client enters the same request between the look-up and the insertion.
abbrev race : Round
race = record { others = λ _. store_of waiting; new_id = "op-2"; now = 1000 }

create_or_replay_returns_example :
    (create_or_replay runtime request (race ∷ quiet_round "op-3" ∷ []) empty).0 ≢ none
unfolding find_by find_where
create_or_replay_returns_example =
    create_or_replay_returns runtime request race (quiet_round "op-3") [] empty refl

create_or_replay_again_example :
    create_or_replay runtime request
      (quiet_round "op-3" ∷ [])
      (store_of (new_operation runtime request "op-2" 1000))
    ≡ (
      some (ok (record { operation = new_operation runtime request "op-2" 1000; replayed = true })),
      (store_of (new_operation runtime request "op-2" 1000)),
    )
unfolding create_or_replay find_where insert_operation new_operation input_hash canonical_json
    schema_version join entries_text insert_entry
create_or_replay_again_example =
    create_or_replay_again runtime request request (quiet_round "op-2" ∷ []) (quiet_round "op-3") []
      empty (record { operation = new_operation runtime request "op-2" 1000; replayed = false })
      refl refl refl refl

-- The tables after the cancellation.
abbrev after_cancel : Store
after_cancel = (request_cancel_versioned runtime "op-1" "ada" 2 "key-9" 3000 (store_of in_work)).1

request_cancel_versioned_again_example :
    request_cancel_versioned runtime "op-1" "ada" 2 "key-9" 4000 after_cancel
    ≡ (ok (cancel_response (mark_cancel 3000 in_work)), after_cancel)
unfolding request_cancel_versioned find_where cancel_fresh input_hash canonical_json join
    entries_text insert_entry
request_cancel_versioned_again_example =
    request_cancel_versioned_again runtime "op-1" "ada" "key-9" 2 2 3000 4000 (store_of in_work)
      (cancel_response (mark_cancel 3000 in_work)) refl

succeed_unrefused_example :
    (succeed "op-1" "w" null none 3000 3000 (store_of in_work)).0 ≢ err unique_violation
succeed_unrefused_example =
    succeed_unrefused "op-1" "w" null none 3000 3000 (store_of in_work)
      (valid_row in_work in_work-IsValid)

abbrev turn : Turn
turn = record {
  stopping = false;
  beat_at = 1000;
  reap_at = 1000;
  reap_locked = λ _. false;
  claim_asked = 1000;
  claim_now = 2000;
  claim_locked = λ _. false;
  while_handling = λ s. s;
  stopping_then = false;
  cancel_at = 4000;
  in_between = λ s. s;
  report_asked = 5000;
  report_now = 5000;
}

abbrev held :
    (op : Operation)
    → is_text op.lease_owner "w" ≡ true
    → op.lease_expires_at ≡ some 9000
    → Holds default_policy "w" turn op
held op w e = record {
  owner = w;
  cancel_in_time = rw e refl;
  asked_in_time = rw e refl;
  report_in_time = rw e refl;
}

-- The worker takes the waiting operation, and its handler makes a project run.
abbrev leased : Operation
unfolding lease_to
leased = lease_to "w" 7000 2000 waiting

abbrev before_claim : Store
before_claim =
    (reap_expired default_policy 1000 (λ _. false)
      (record_worker_heartbeat "w" 1000 (store_of waiting))).1

abbrev after_claim : Store
after_claim = (claim "w" 7000 (some ("ROADMAP" ∷ [])) (λ _. false) 1000 2000 before_claim).1

abbrev makes_run : Operation → Ending
makes_run _ = returned (
    obj
      (field "execution" (obj (field "projectRun" (obj (field "id" (text "run-1") end)) end)) end))

settle-cancelled_example :
    (row' : Operation) × (find_by op_id "op-1"
        (settle default_policy "w" turn in_work
          (returned null)
          (store_of being_cancelled)).operations
      ≡ some row')
    × (row'.state ≡ cancelled)
    × ((settle default_policy "w" turn in_work (returned null) (store_of being_cancelled)).results
        ≡ [])
unfolding find_by find_where
settle-cancelled_example =
    settle-cancelled default_policy "w" turn in_work being_cancelled (store_of being_cancelled) refl
      (held being_cancelled refl refl) (returned null) refl

abandon_strands_example :
    ((abandon "op-1" "w" 3000 (store_of last_try)).0 ≡ true)
    × ((op' : Operation) × (find_by op_id "op-1"
            (abandon "op-1" "w" 3000 (store_of last_try)).1.operations
          ≡ some op')
        × (op'.state ≡ pending)
        × ((asked : ℕ) (kinds : Option (List String)) → is_claimable asked kinds op' ≡ false)
        × ((at : ℕ) (locked : String → Bool) → is_expired at locked op' ≡ false))
unfolding find_by find_where
abandon_strands_example =
    abandon_strands "op-1" "w" 3000 (store_of last_try) last_try refl refl refl (omega arith)

retry_forgets_cancel_example :
    ((retry default_policy "op-1" "w" "LATE" [] "TERMINAL" 3000 (store_of being_cancelled)).0
      ≡ retried)
    × ((op' : Operation) × (find_by op_id "op-1"
            (retry default_policy "op-1" "w" "LATE" [] "TERMINAL" 3000
              (store_of being_cancelled)).1.operations
          ≡ some op')
        × (op'.state ≡ pending))
    × (fail "op-1" "w" "LATE" [] "TERMINAL" 3000 (store_of being_cancelled)
        ≡ (false, store_of being_cancelled))
unfolding find_by find_where owns_live_lease
retry_forgets_cancel_example =
    retry_forgets_cancel default_policy "op-1" "w" "LATE" [] "TERMINAL" 3000
      (store_of being_cancelled) being_cancelled refl refl refl (omega arith)
