-- ===== src/Workflow/Requests.antt =====
-- `createOrReplay` (src/workflow-operations/workflow-operation.service.ts) and the tables.
use jagalchi_api.Base.{
  Bool, ℕ, String, false, none, some, List, [], ◌∷◌, ◌≡◌, ◌≢◌, ◌∙◌, sym, subst, ◌||◌, arith, inl,
  inr, All, All-map, find_where, find_where-none, find_by, All-find_by, key-find_by, str_eq, eq_iff,
  Option-cases, Bool-cases,
}
use jagalchi_api.Json.Canonical.{Runtime}
use jagalchi_api.Workflow.Types.{Operation, OperationResult, Store}
use jagalchi_api.Workflow.Claim.{op_id}
use jagalchi_api.Workflow.Create.{
  CreateArgs, Round, has_key, new_operation, insert_operation, create_or_replay,
}
use jagalchi_api.Workflow.Valid.{IsValid, new_operation-IsValid}
use jagalchi_api.Workflow.Sound.{
  IsStoreValid, Keeps, Keeps-refl, Kept, Sound, Evolves, here, request_key, IsRecorded-on,
  Kept-trans,
}

abbrev pub is_taken : Operation → Operation → Bool
is_taken op o = str_eq o.id op.id || has_key op.owner_id op.route op.idempotency_key o

pub insert_operation-some :
    (op : Operation) (ops : List Operation) {ops' : List Operation}
    → insert_operation op ops ≡ some ops'
    → (ops' ≡ op ∷ ops) × All (λ o. is_taken op o ≡ false) ops
unfolding insert_operation
insert_operation-some op ops {ops'} h = elim (Option-cases (find_where (is_taken op) ops)) [
  | inl e ↦
      let g : some (op ∷ ops) ≡ some ops' = rw (e, insert_operation) at h in
      (cc, find_where-none (is_taken op) ops e)
  | inr (o, e) ↦ let g : none ≡ some ops' = rw (e, insert_operation) at h in cc
]

not_taken_id : (op o : Operation) → is_taken op o ≡ false → o.id ≢ op.id
not_taken_id op o h e = ground (arith, eq_iff o.id op.id)

not_taken_key : (op o : Operation) → is_taken op o ≡ false → request_key o ≢ request_key op
not_taken_key op o h e = ground (
  arith,
  eq_iff o.owner_id op.owner_id,
  eq_iff o.route op.route,
  eq_iff o.idempotency_key op.idempotency_key,
)

-- Inserting a row whose identifier and request are new.
module _ (op : Operation) (ops : List Operation) (free : All (λ o. is_taken op o ≡ false) ops) where
  pub insert-same :
      (i : String) (o : Operation)
      → find_by op_id i ops ≡ some o
      → find_by op_id i (op ∷ ops) ≡ some o
  unfolding find_by find_where
  insert-same i o e = elim (Bool-cases (str_eq op.id i)) [
    | inl h ↦ absurd (
        not_taken_id op o (All-find_by op_id (λ x. is_taken op x ≡ false) i ops free e)
          (key-find_by op_id i ops e ∙ sym ((eq_iff op.id i).0 h)))
    | inr h ↦ rw h e
  ]

  insert-Evolves : Evolves ops (op ∷ ops)
  insert-Evolves i o e = (o, insert-same i o e, here)

  insert-Sound : (rs : List OperationResult) → IsValid op → Sound ops rs (op ∷ ops) rs
  insert-Sound rs w v = record {
    valid = record {
      rows = (w, v.rows);
      distinct = (All-map _ _ ops (not_taken_id op) free, v.distinct);
      keys = (All-map _ _ ops (not_taken_key op) free, v.keys);
      recorded = All-map _ _ rs (IsRecorded-on ops (op ∷ ops) insert-Evolves) v.recorded;
    };
    evolves = insert-Evolves;
  }

-- What holds of the tables, is kept by what other clients commit, and by an insertion, holds after
-- the call.
pub create_or_replay_ind {ℓ} :
    (rt : Runtime) (args : CreateArgs) (P : Store → Type ℓ) (rounds : List Round) (s : Store)
    → All (λ (r : Round). (t : Store) → P t → P (r.others t)) rounds
    → ((id : String) (now : ℕ) (t : Store)
        → All (λ o. is_taken (new_operation rt args id now) o ≡ false) t.operations
        → P t
        → P (record t { operations = new_operation rt args id now ∷ t.operations }))
    → P s
    → P (create_or_replay rt args rounds s).1
unfolding create_or_replay
create_or_replay_ind rt args P [] s keep insert h = h
create_or_replay_ind rt args P (r ∷ rounds) s keep insert h =
    elim (Option-cases
      (find_where (has_key args.owner_id args.route args.idempotency_key) s.operations)) [
        | inr (old, e) ↦ rw (e, create_or_replay) h
        | inl e ↦
            let t = r.others s in
            let op = new_operation rt args r.new_id r.now in
            let before : P t = keep.0 s h in
            elim (Option-cases (insert_operation op t.operations)) [
              | inr (ops', q) ↦
                  let (same, free) = insert_operation-some op t.operations q in
                  rw (e, create_or_replay)
                    (rw (q, create_or_replay) (rw same (insert r.new_id r.now t free before)))
              | inl q ↦
                  rw (e, create_or_replay)
                    (rw (q, create_or_replay)
                      (create_or_replay_ind rt args P rounds t keep.1 insert before))
            ]
      ]

module _ (rt : Runtime) (args : CreateArgs) where
  inserted :
      (id : String) (now : ℕ) (t : Store)
      → All (λ o. is_taken (new_operation rt args id now) o ≡ false) t.operations
      → Keeps t (record t { operations = new_operation rt args id now ∷ t.operations })
  inserted id now t free v =
      insert-Sound (new_operation rt args id now) t.operations free t.results
        (new_operation-IsValid rt args id now) v

  -- A call that no other client interrupts.
  pub create_or_replay-Keeps :
      (r : Round) (s : Store)
      → ((t : Store) → r.others t ≡ t)
      → Keeps s (create_or_replay rt args (r ∷ []) s).1
  create_or_replay-Keeps r s alone v =
      create_or_replay_ind rt args (λ t. Kept s.operations s.results t.operations t.results)
        (r ∷ []) s
        (
          (λ t k.
              subst (λ (u : Store). Kept s.operations s.results u.operations u.results)
                (sym (alone t)) k),
          tt,
        )
        (λ id now t free k. Kept-trans k (inserted id now t free k.valid)) (Keeps-refl s v)

  -- If what other clients commit between the statements of `createOrReplay` takes valid tables to
  -- valid tables, be they those of the operations or of the results, the call does so as well,
  -- however often it starts again: above all, it never enters a second operation for a request key.
  pub create_or_replay-StoreValid :
      (rounds : List Round) (s : Store)
      → All (λ (r : Round). (t : Store) → IsStoreValid t → IsStoreValid (r.others t)) rounds
      → IsStoreValid s
      → IsStoreValid (create_or_replay rt args rounds s).1
  create_or_replay-StoreValid rounds s fair v =
      create_or_replay_ind rt args IsStoreValid rounds s fair
        (λ id now t free w. (inserted id now t free w).valid) v
