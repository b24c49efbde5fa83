-- ===== src/Workflow/Cancelling.antt =====
-- Cancellation by version (src/workflow-operations/workflow-operation.service.ts): each outcome of
-- `requestCancelVersioned`, and what a repeated request is answered.
use jagalchi_api.Base.{
  ℕ, String, some, ◌≡◌, refl, find_where, str_eq, eq_refl, eq_iff, Option-cases, inl, inr,
  if◌then◌else◌, ◌==◌, not, if_eq, if_ind,
}
use jagalchi_api.Json.Canonical.{Runtime}
use jagalchi_api.Workflow.Types.{
  Store, CancelResponse, ProjectRunCommand, Outcome, ok, err, idempotency_key_reused, Error,
  operation_not_found, stale_version, operation_terminal, cancel_already_requested, is_terminal,
  is_cancel_requested,
}
use jagalchi_api.Workflow.Cancel.{
  mark_cancel, is_owned, cancel_fresh, request_cancel_versioned, cancel_route, is_command,
  cancel_hash, cancel_response,
}

module _ (rt : Runtime) (id owner key : String) where
  -- The answer of a call is the one on record from then on.
  abbrev Answered : ℕ → CancelResponse → Store → Type 0
  Answered expected response s =
      (c : ProjectRunCommand) × (find_where (is_command owner (cancel_route id) key) s.commands
        ≡ some c)
      × (c.input_hash ≡ cancel_hash rt expected)
      × (c.response ≡ response)

  abbrev Recorded : ℕ → Outcome CancelResponse × Store → Type 0
  Recorded expected (out, s) =
      (response : CancelResponse) → out ≡ ok response → Answered expected response s

  refusal-Recorded : (expected : ℕ) (e : Error) (s : Store) → Recorded expected (err e, s)
  refusal-Recorded expected e s response h = cc

  cancel_fresh-Recorded :
      (expected now : ℕ) (s : Store)
      → Recorded expected (cancel_fresh rt id owner expected key now s)
  unfolding cancel_fresh find_where
  cancel_fresh-Recorded expected now s =
      elim (Option-cases (find_where (is_owned id owner) s.operations)) [
        | inl e ↦ rw (e, cancel_fresh) (refusal-Recorded expected operation_not_found s)
        | inr (op, e) ↦
            rw (e, cancel_fresh)
              (if_ind (Recorded expected) (not (op.version == expected))
                (λ _. refusal-Recorded expected (stale_version op.version) s)
                (λ _.
                  if_ind (Recorded expected) (is_terminal op.state)
                    (λ _. refusal-Recorded expected operation_terminal s)
                    (λ _.
                      if_ind (Recorded expected) (is_cancel_requested op.state)
                        (λ _. refusal-Recorded expected cancel_already_requested s)
                        (λ _ response h. (
                          record {
                            owner_id = owner;
                            route = cancel_route id;
                            idempotency_key = key;
                            input_hash = cancel_hash rt expected;
                            response = cancel_response (mark_cancel now op);
                          },
                          rw (eq_refl owner, eq_refl (cancel_route id), eq_refl key) refl,
                          refl,
                          cc,
                        )))))
      ]

  request_cancel_versioned-Recorded :
      (expected now : ℕ) (s : Store)
      → Recorded expected (request_cancel_versioned rt id owner expected key now s)
  unfolding request_cancel_versioned
  request_cancel_versioned-Recorded expected now s =
      elim (Option-cases (find_where (is_command owner (cancel_route id) key) s.commands)) [
        | inl e ↦ rw (e, request_cancel_versioned) (cancel_fresh-Recorded expected now s)
        | inr (prior, e) ↦
            rw (e, request_cancel_versioned)
              (λ response h.
                if_eq (str_eq prior.input_hash (cancel_hash rt expected)) h
                  (λ same q. (prior, e, (eq_iff _ _).0 same, cc)) (λ _ q. cc))
      ]

  -- A cancellation that is sent again under its key is answered as it was the first time, and one
  -- that expects another version is refused, if its hash differs; nothing is written either way.
  pub request_cancel_versioned_again :
      (expected expected' now now' : ℕ) (s : Store) (response : CancelResponse)
      → (request_cancel_versioned rt id owner expected key now s).0 ≡ ok response
      → let s' = (request_cancel_versioned rt id owner expected key now s).1 in
        request_cancel_versioned rt id owner expected' key now' s' ≡ (
          if str_eq (cancel_hash rt expected) (cancel_hash rt expected')
              then ok response
              else err idempotency_key_reused,
          s',
        )
  unfolding request_cancel_versioned
  request_cancel_versioned_again expected expected' now now' s response h =
      let (c, found, hash, same) = request_cancel_versioned-Recorded expected now s response h in
      rw (found, request_cancel_versioned) (rw (hash, same))
