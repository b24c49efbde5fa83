-- ===== src/Workflow/Run.antt =====
-- Any sequence of calls of the service (src/workflow-operations/workflow-operation.service.ts),
-- each a transaction of its own, by any owners and workers, at any times.
use jagalchi_api.Base.{ℕ, String, Bool, true, Option, some, List, [], ◌∷◌, ◌≡◌, refl, ◌∙◌, find_by}
use jagalchi_api.Json.{Json}
use jagalchi_api.Json.Canonical.{Runtime}
use jagalchi_api.Workflow.Types.{Operation, Store, is_terminal}
use jagalchi_api.Workflow.Backoff.{BackoffPolicy}
use jagalchi_api.Workflow.Create.{CreateArgs, Round, create_or_replay}
use jagalchi_api.Workflow.Claim.{op_id, claim, heartbeat}
use jagalchi_api.Workflow.Cancel.{request_cancel, request_cancel_versioned}
use jagalchi_api.Workflow.Finish.{Resource, succeed, fail, retry, finish_cancellation, abandon}
use jagalchi_api.Workflow.Reap.{reap_expired}
use jagalchi_api.Workflow.Sound.{StoreValid, Keeps, Keeps-refl, Kept-trans, Evolved-terminal}
use jagalchi_api.Workflow.Calls.{
  fail-Keeps, retry-Keeps, finish_cancellation-Keeps, abandon-Keeps, request_cancel-Keeps,
  request_cancel_versioned-Keeps,
}
use jagalchi_api.Workflow.Completion.{succeed-Keeps}
use jagalchi_api.Workflow.Leasing.{claim-Keeps, heartbeat-Keeps, reap_expired-Keeps}
use jagalchi_api.Workflow.Requests.{create_or_replay-Keeps}

-- One call, with its arguments and the readings of the clock.
pub data Action : Type 0 where
  create : CreateArgs → String → ℕ → Action
  claim_next : String → ℕ → Option (List String) → (String → Bool) → ℕ → ℕ → Action
  beat_lease : String → String → ℕ → ℕ → Action
  cancel : String → String → ℕ → Action
  cancel_versioned : String → String → ℕ → String → ℕ → Action
  report_success : String → String → Json → Option Resource → ℕ → ℕ → Action
  report_failure : String → String → String → List ℕ → String → ℕ → Action
  report_retry : String → String → String → List ℕ → String → ℕ → Action
  report_cancelled : String → String → ℕ → Action
  give_up : String → String → ℕ → Action
  reap : ℕ → (String → Bool) → Action

module _ (rt : Runtime) (policy : BackoffPolicy) where
  -- A request that no other client interrupts takes one pass.
  abbrev quiet : String → ℕ → Round
  quiet id now = record { others = λ s. s; new_id = id; now = now }

  unfoldable pub perform : Action → Store → Store
  perform (create args id now) s = (create_or_replay rt args (quiet id now ∷ []) s).1
  perform (claim_next w ms kinds locked asked now) s = (claim w ms kinds locked asked now s).1
  perform (beat_lease id w ms now) s = (heartbeat id w ms now s).1
  perform (cancel id owner now) s = (request_cancel id owner now s).1
  perform (cancel_versioned id owner expected key now) s =
      (request_cancel_versioned rt id owner expected key now s).1
  perform (report_success id w value resource asked now) s =
      (succeed id w value resource asked now s).1
  perform (report_failure id w code message class now) s = (fail id w code message class now s).1
  perform (report_retry id w code message class now) s =
      (retry policy id w code message class now s).1
  perform (report_cancelled id w now) s = (finish_cancellation id w now s).1
  perform (give_up id w now) s = (abandon id w now s).1
  perform (reap now locked) s = (reap_expired policy now locked s).1

  unfoldable pub run : List Action → Store → Store
  unfolding perform
  run [] s = s
  run (a ∷ acts) s = run acts (perform a s)

  pub perform-Keeps : (a : Action) (s : Store) → Keeps s (perform a s)
  unfolding perform
  perform-Keeps (create args id now) s = create_or_replay-Keeps rt args (quiet id now) s (λ _. refl)
  perform-Keeps (claim_next w ms kinds locked asked now) s =
      claim-Keeps asked kinds locked w ms now s
  perform-Keeps (beat_lease id w ms now) s = heartbeat-Keeps id w ms now s
  perform-Keeps (cancel id owner now) s = request_cancel-Keeps id owner now s
  perform-Keeps (cancel_versioned id owner expected key now) s =
      request_cancel_versioned-Keeps id owner now s rt expected key
  perform-Keeps (report_success id w value resource asked now) s =
      succeed-Keeps id w value resource asked now s
  perform-Keeps (report_failure id w code message class now) s =
      fail-Keeps id w now s code message class
  perform-Keeps (report_retry id w code message class now) s =
      retry-Keeps id w now s policy code message class
  perform-Keeps (report_cancelled id w now) s = finish_cancellation-Keeps id w now s
  perform-Keeps (give_up id w now) s = abandon-Keeps id w now s
  perform-Keeps (reap now locked) s = reap_expired-Keeps policy now locked s

  run-Keeps : (acts : List Action) (s : Store) → Keeps s (run acts s)
  unfolding run
  run-Keeps [] s v = Keeps-refl s v
  run-Keeps (a ∷ acts) s v =
      let k = perform-Keeps a s v in Kept-trans k (run-Keeps acts (perform a s) k.valid)

  -- Any calls, in any order, take valid tables to valid tables: each operation holds a lease exactly
  -- while it is worked on, is completed exactly in a terminal state, and has not more attempts than
  -- it may have; no two operations share an identifier or a request key; every stored result
  -- belongs to an operation that succeeded.
  pub run-StoreValid :
      (acts : List Action) (s : Store)
      → StoreValid s.operations s.results
      → StoreValid (run acts s).operations (run acts s).results
  run-StoreValid acts s v = (run-Keeps acts s v).valid

  -- An operation that has succeeded, failed or been cancelled stays as it is, whatever is called.
  pub run-terminal :
      (acts : List Action) (s : Store) (id : String) (op : Operation)
      → StoreValid s.operations s.results
      → find_by op_id id s.operations ≡ some op
      → is_terminal op.state ≡ true
      → find_by op_id id (run acts s).operations ≡ some op
  run-terminal acts s id op v e t =
      let (op', e', k) = (run-Keeps acts s v).evolves id op e in
      let same : op' ≡ op = Evolved-terminal k t in e' ∙ (rw same)
