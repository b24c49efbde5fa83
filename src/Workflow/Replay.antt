-- ===== src/Workflow/Replay.antt =====
-- The passes of `createOrReplay` (src/workflow-operations/workflow-operation.service.ts), and requests
-- that are sent again.
use jagalchi_api.Base.{
  ℕ, String, Bool, true, false, none, some, List, [], ◌∷◌, ◌≡◌, ◌≢◌, refl, ◌||◌, arith, inl, inr,
  All-find_where, find_where, find_where-none, find_where_holds, find_by, str_eq, Option-cases,
  eq_refl, if◌then◌else◌,
}
use jagalchi_api.Json.Canonical.{Runtime}
use jagalchi_api.Workflow.Types.{Operation, Store, ok, err, idempotency_key_reused}
use jagalchi_api.Workflow.Claim.{op_id}
use jagalchi_api.Workflow.Requests.{insert_operation-some}
use jagalchi_api.Workflow.Create.{
  CreateArgs, Round, Created, has_key, new_operation, insert_operation, create_or_replay,
  is_same_request,
}

-- A row of the identifier or of the request: the two reasons for 23505.
taken_key :
    (op o : Operation)
    → (str_eq o.id op.id || has_key op.owner_id op.route op.idempotency_key o) ≡ true
    → str_eq o.id op.id ≡ false
    → has_key op.owner_id op.route op.idempotency_key o ≡ true
taken_key op o h f = ground arith

-- A refused insertion of a row with a new identifier means that the request is there by now.
refused_has_key :
    (op : Operation) (ops : List Operation)
    → find_by op_id op.id ops ≡ none
    → insert_operation op ops ≡ none
    → (o : Operation) × (find_where (has_key op.owner_id op.route op.idempotency_key) ops ≡ some o)
unfolding insert_operation find_by
refused_has_key op ops new h =
    let taken =
      λ (o : Operation). str_eq o.id op.id || has_key op.owner_id op.route op.idempotency_key o in
    let wanted = has_key op.owner_id op.route op.idempotency_key in
    elim (Option-cases (find_where wanted ops)) [
      | inr found ↦ found
      | inl absent ↦ elim (Option-cases (find_where taken ops)) [
        | inl e ↦ let g : some (op ∷ ops) ≡ none = rw (e, insert_operation) at h in cc
        | inr (o, e) ↦
            let key = taken_key op o (find_where_holds taken ops e) (
              All-find_where (λ x. str_eq x.id op.id ≡ false) taken ops
                (find_where-none (λ x. str_eq x.id op.id) ops new) e) in
            let no_key =
              All-find_where (λ x. wanted x ≡ false) taken ops (find_where-none wanted ops absent)
                e in
            absurd (cc (key, no_key))
      ]
    ]

answered :
    (b : Bool) (x : Created) {c : Created}
    → some (if b then ok x else err idempotency_key_reused) ≡ some (ok c)
    → x.operation ≡ c.operation
answered true x h = cc
answered false x h = cc

module _ (rt : Runtime) (args : CreateArgs) where
  -- A call returns within two passes, if the identifier that the first one would insert is new after
  -- what other clients commit: an insertion that is refused is followed by a look-up that succeeds.
  pub create_or_replay_returns :
      (r r' : Round) (rs : List Round) (s : Store)
      → find_by op_id r.new_id (r.others s).operations ≡ none
      → (create_or_replay rt args (r ∷ r' ∷ rs) s).0 ≢ none
  unfolding create_or_replay new_operation
  create_or_replay_returns r r' rs s new =
      let wanted = has_key args.owner_id args.route args.idempotency_key in
      elim (Option-cases (find_where wanted s.operations)) [
        | inr (old, e) ↦ rw (e, create_or_replay) (λ q. cc)
        | inl e ↦
            let op = new_operation rt args r.new_id r.now in
            elim (Option-cases (insert_operation op (r.others s).operations)) [
              | inr (ops', q) ↦ rw (e, create_or_replay) (rw (q, create_or_replay) (λ z. cc))
              | inl q ↦
                  let (old, found) = refused_has_key op (r.others s).operations new q in
                  rw (e, create_or_replay)
                    (rw (q, create_or_replay) (rw (found, create_or_replay) (λ z. cc)))
            ]
      ]

  has_key-new_operation :
      (id : String) (now : ℕ)
      → has_key args.owner_id args.route args.idempotency_key (new_operation rt args id now) ≡ true
  unfolding new_operation
  has_key-new_operation id now =
      rw (eq_refl args.owner_id, eq_refl args.route, eq_refl args.idempotency_key)

  inserted_found :
      (id : String) (now : ℕ) (ops : List Operation)
      → find_where
          (has_key args.owner_id args.route args.idempotency_key)
          (new_operation rt args id now ∷ ops)
        ≡ some (new_operation rt args id now)
  unfolding find_where
  inserted_found id now ops = rw (has_key-new_operation id now)

  -- The operation that a call answers with is the one that its key finds from then on.
  created_found :
      (rounds : List Round) (s : Store) (c : Created)
      → (create_or_replay rt args rounds s).0 ≡ some (ok c)
      → find_where
          (has_key args.owner_id args.route args.idempotency_key)
          (create_or_replay rt args rounds s).1.operations
        ≡ some c.operation
  unfolding create_or_replay
  created_found [] s c h = cc
  created_found (r ∷ rs) s c h =
      let wanted = has_key args.owner_id args.route args.idempotency_key in
      let op = new_operation rt args r.new_id r.now in
      elim (Option-cases (find_where wanted s.operations)) [
        | inr (old, e) ↦
            let same = answered (is_same_request rt args old) _ (rw (e, create_or_replay) at h) in
            rw (e, create_or_replay) (rw (e, ← same))
        | inl e ↦ elim (Option-cases (insert_operation op (r.others s).operations)) [
          | inr (ops', q) ↦
              let (made, _) = insert_operation-some op (r.others s).operations q in
              let same = answered true _ (rw (e, q, create_or_replay) at h) in
              rw (e, create_or_replay)
                (rw (q, create_or_replay)
                  (rw (made, ← same) (inserted_found r.new_id r.now (r.others s).operations)))
          | inl q ↦
              rw (e, create_or_replay)
                (rw (q, create_or_replay)
                  (created_found rs (r.others s) c (rw (e, q, create_or_replay) at h)))
        ]
      ]

-- A request that is sent again under the key of an operation is answered by that operation, if it
-- asks for the same, and refused otherwise; nothing is written.
pub create_or_replay_again :
    (rt : Runtime) (args args' : CreateArgs) (rounds : List Round) (r : Round) (rs : List Round)
    (s : Store) (c : Created)
    → args'.owner_id ≡ args.owner_id
    → args'.route ≡ args.route
    → args'.idempotency_key ≡ args.idempotency_key
    → (create_or_replay rt args rounds s).0 ≡ some (ok c)
    → let made = (create_or_replay rt args rounds s).1 in
      create_or_replay rt args' (r ∷ rs) made ≡ (
        some (
            if is_same_request rt args' c.operation
            then ok (record { operation = c.operation; replayed = true })
            else err idempotency_key_reused),
        made,
      )
unfolding create_or_replay
create_or_replay_again rt args args' rounds r rs s c o t k h =
    let found : find_where (has_key args'.owner_id args'.route args'.idempotency_key)
          (create_or_replay rt args rounds s).1.operations
        ≡ some c.operation =
      rw (o, t, k) (created_found rt args rounds s c h) in
    rw (found, create_or_replay) refl
