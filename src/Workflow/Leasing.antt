-- ===== src/Workflow/Leasing.antt =====
-- Lemmas on `claim`, `heartbeat` and `reapExpired`
-- (src/workflow-operations/workflow-operation.service.ts).
use jagalchi_api.Base.{
  ℕ, String, Bool, true, false, Option, some, List, [], ◌∷◌, ◌≡◌, ◌≢◌, refl, ◌∙◌, sym, subst, ◌&&◌,
  not, arith, inl, inr, All, All-map, All-zip, All-keep, keep, keep-All, keep-Distinct, sort_by,
  All-sort_by, sort_by-Distinct, find_by, find_by-All, find_by-save, find_by-update_where,
  update_where, All-update_where, update_where-Distinct, Distinct, save, if_ind, if_eq,
  Option-cases, Bool-cases, str_ne, if◌then◌else◌,
}
use jagalchi_api.Workflow.Types.{Operation, OperationResult, Store, is_running, is_active}
use jagalchi_api.Workflow.Backoff.{BackoffPolicy}
use jagalchi_api.Workflow.Claim.{
  op_id, is_claimable, is_earlier, first_of_order, select_claim, lease_to, claim, is_empty_list,
  is_beating, renew, heartbeat,
}
use jagalchi_api.Workflow.Reap.{is_expired, reap_row, reap_each, reap_expired, expires_earlier}
use jagalchi_api.Workflow.Valid.{IsValid, lease_to-IsValid, renew-IsValid, reap_row-IsValid}
use jagalchi_api.Workflow.Edges.{lease_to-Changed, renew-Changed, reap_row-Changed}
use jagalchi_api.Workflow.Sound.{
  Kept, Sound, Keeps, Keeps-refl, save-Sound, Evolves, here, next, request_key, IsRecorded-on,
  Kept-trans,
}

pub All-first_of_order {κ} :
    (P : Operation → Type κ) (xs : List Operation) {op : Operation}
    → All P xs
    → first_of_order xs ≡ some op
    → P op
unfolding first_of_order
All-first_of_order P [] h e = cc
All-first_of_order P (x ∷ xs) {op} h e = elim (Option-cases (first_of_order xs)) [
  | inl n ↦ let g : some x ≡ some op = rw (n, first_of_order) at e in subst P (cc) h.0
  | inr (y, n) ↦
      let g : (if is_earlier y x then some y else some x) ≡ some op = rw (n, first_of_order) at e in
      if_eq (is_earlier y x) g (λ _ q. subst P (cc) (All-first_of_order P xs h.1 n))
        (λ _ q. subst P (cc) h.0)
]

module _ (asked : ℕ) (kinds : Option (List String)) (locked : String → Bool) where
  -- The row that is selected is a claimable row of the table, and no other transaction holds it.
  pub select_claim-All {κ} :
      (P : Operation → Type κ) (ops : List Operation) {op : Operation}
      → All P ops
      → select_claim asked kinds locked ops ≡ some op
      → P op × (is_claimable asked kinds op ≡ true) × (locked op.id ≡ false)
  unfolding select_claim
  select_claim-All P ops {op} h e =
      let free = λ (o : Operation). is_claimable asked kinds o && not (locked o.id) in
      let both =
        All-first_of_order (λ o. P o × (free o ≡ true)) (keep free ops)
          (All-zip P (λ o. free o ≡ true) (keep free ops) (All-keep P free ops h)
            (keep-All free ops))
          e in
      (both.0, ground (arith, both.1), ground (arith, both.1))

  pub claim-Keeps :
      (worker : String) (lease_ms now : ℕ) (s : Store)
      → Keeps s (claim worker lease_ms kinds locked asked now s).1
  unfolding claim
  claim-Keeps worker lease_ms now s =
      if_ind (λ (r : Option Operation × Store). Keeps s r.1) (is_empty_list kinds)
        (λ _. Keeps-refl s)
        (λ _. elim (Option-cases (select_claim asked kinds locked s.operations)) [
          | inl e ↦ rw e (Keeps-refl s)
          | inr (op, e) ↦ rw e (λ v.
              let (found, free, _) =
                select_claim-All (λ a. find_by op_id (op_id a) s.operations ≡ some a) s.operations
                  (find_by-All op_id s.operations v.distinct) e in
              save-Sound s.operations op.id op (lease_to worker lease_ms now op) found
                (lease_to-Changed worker lease_ms now asked kinds op free) s.results
                (λ w. lease_to-IsValid worker lease_ms now asked kinds op free w) v)
        ])

pub renew-id : (ms now : ℕ) (op : Operation) → (renew ms now op).id ≡ op.id
unfolding renew
renew-id ms now op = refl

renew-request_key : (ms now : ℕ) (op : Operation) → request_key (renew ms now op) ≡ request_key op
unfolding renew
renew-request_key ms now op = refl

pub is_beating-running :
    (id w : String) (now : ℕ) (op : Operation)
    → is_beating id w now op ≡ true
    → is_running op.state ≡ true
unfolding is_beating
is_beating-running id w now op h = ground arith

module _ (id worker : String) (lease_ms now : ℕ) (s : Store) where
  beat_all : List Operation
  beat_all = update_where (is_beating id worker now) (renew lease_ms now) s.operations

  beat_all-Evolves : Evolves s.operations beat_all
  unfolding beat_all
  beat_all-Evolves j o e =
      let seen =
        find_by-update_where op_id j (is_beating id worker now) (renew lease_ms now) s.operations
          (renew-id lease_ms now) in
      elim (Bool-cases (is_beating id worker now o)) [
        | inl h ↦ (
          renew lease_ms now o,
          seen ∙ (rw (e, h)),
          next here (renew-Changed o now lease_ms (is_beating-running id worker now o h)),
        )
        | inr h ↦ (o, seen ∙ (rw (e, h)), here)
      ]

  pub heartbeat-Keeps : Keeps s (heartbeat id worker lease_ms now s).1
  unfolding heartbeat beat_all
  heartbeat-Keeps v = record {
    valid = record {
      rows =
          All-update_where IsValid (is_beating id worker now) (renew lease_ms now) s.operations
            (λ o h w. renew-IsValid o w now lease_ms (is_beating-running id worker now o h)) v.rows;
      distinct =
          update_where-Distinct op_id (is_beating id worker now) (renew lease_ms now) s.operations
            (renew-id lease_ms now) v.distinct;
      keys =
          update_where-Distinct request_key (is_beating id worker now) (renew lease_ms now)
            s.operations (renew-request_key lease_ms now) v.keys;
      recorded =
          All-map _ _ s.results (IsRecorded-on s.operations beat_all beat_all-Evolves) v.recorded;
    };
    evolves = beat_all-Evolves;
  }

-- The rows that the loop still has to save are those of the table, and all are active.
abbrev pub IsWaiting : List Operation → Operation → Type 0
IsWaiting ops op = (find_by op_id op.id ops ≡ some op) × (is_active op.state ≡ true)

module _ (policy : BackoffPolicy) (now : ℕ) (rs : List OperationResult) where
  reap_row-id : (op : Operation) → is_active op.state ≡ true → (reap_row policy now op).id ≡ op.id
  reap_row-id op a = (reap_row-Changed op now policy a).0.same_id

  -- Saving the first row leaves the others waiting.
  pub reap_row-IsWaiting :
      (op : Operation) (rest ops : List Operation)
      → is_active op.state ≡ true
      → All (λ (o : Operation). o.id ≢ op.id) rest
      → All (IsWaiting ops) rest
      → All (IsWaiting (save op_id (reap_row policy now op) ops)) rest
  reap_row-IsWaiting op rest ops a other waiting =
      All-map _ _ rest
        (λ o (ne, w). (
          find_by-save op_id o.id (reap_row policy now op) ops
              ∙ (rw (str_ne (λ q. ne (sym q ∙ reap_row-id op a))) w.0),
          w.1,
        ))
        (All-zip _ _ rest other waiting)

  reap_each-Sound :
      (rest ops : List Operation)
      → All (IsWaiting ops) rest
      → Distinct op_id rest
      → Sound ops rs (reap_each policy now rest ops) rs
  unfolding reap_each
  reap_each-Sound [] ops a d v = record { valid = v; evolves = λ i op e. (op, e, here) }
  reap_each-Sound (op ∷ rest) ops a d v =
      let op' = reap_row policy now op in
      let first : Kept ops rs (save op_id op' ops) rs =
        save-Sound ops op.id op op' a.0.0 (reap_row-Changed op now policy a.0.1) rs
          (λ w. reap_row-IsValid op w now policy a.0.1) v in
      let waiting = reap_row-IsWaiting op rest ops a.0.1 d.0 a.1 in
      Kept-trans first (reap_each-Sound rest (save op_id op' ops) waiting d.1 first.valid)

pub is_expired-active :
    (now : ℕ) (locked : String → Bool) (op : Operation)
    → is_expired now locked op ≡ true
    → is_active op.state ≡ true
unfolding is_expired
is_expired-active now locked op h = ground arith

pub reap_expired-Keeps :
    (policy : BackoffPolicy) (now : ℕ) (locked : String → Bool) (s : Store)
    → Keeps s (reap_expired policy now locked s).1
unfolding reap_expired
reap_expired-Keeps policy now locked s v =
    let p = is_expired now locked in
    let expired = keep p s.operations in
    let waiting : All (IsWaiting s.operations) expired =
      All-map _ _ expired (λ o (e, h). (e, is_expired-active now locked o h))
        (All-zip _ _ expired
          (All-keep (λ o. find_by op_id (op_id o) s.operations ≡ some o) p s.operations
            (find_by-All op_id s.operations v.distinct))
          (keep-All p s.operations)) in
    reap_each-Sound policy now s.results (sort_by expires_earlier expired) s.operations
      (All-sort_by (IsWaiting s.operations) expires_earlier expired waiting)
      (sort_by-Distinct op_id expires_earlier expired
        (keep-Distinct op_id p s.operations v.distinct))
      v
