-- ===== src/Workflow/Sound.antt =====
-- The invariant of the workflow tables, how a row may evolve under a sequence of calls of the
-- service (src/workflow-operations/workflow-operation.service.ts), and lemmas on both.
use jagalchi_api.Base.{
  String, true, some, List, ◌≡◌, refl, sym, ◌∙◌, ap, subst, arith, inl, inr, All, All-map, All-save,
  Distinct, save-Distinct, find_by, find_by-save, key-find_by, All-find_by, save, str_eq, eq_iff,
  Bool-cases,
}
use jagalchi_api.Workflow.Types.{
  WorkflowState, Operation, OperationResult, Store, succeeded, is_terminal,
}
use jagalchi_api.Workflow.Claim.{op_id}
use jagalchi_api.Workflow.Valid.{IsValid}
use jagalchi_api.Workflow.Edges.{◌⟶◌, beat, move, Changed, start}

-- Any number of changes of one row.
pub data Evolved (op : Operation) : Operation → Type 0 where
  here : Evolved op op
  next : {b c : Operation} → Evolved op b → Changed b c → Evolved op c

pub Evolved-trans : {a b c : Operation} → Evolved a b → Evolved b c → Evolved a c
Evolved-trans h here = h
Evolved-trans h (next k s) = next (Evolved-trans h k) s

-- Every row is still there, and has evolved.
abbrev pub Evolves : List Operation → List Operation → Type 0
Evolves ops ops' =
    (i : String) (op : Operation)
    → find_by op_id i ops ≡ some op
    → (op' : Operation) × (find_by op_id i ops' ≡ some op') × Evolved op op'

-- The columns of the unique constraint.
abbrev pub request_key : Operation → String × String × String
request_key op = (op.owner_id, op.route, op.idempotency_key)

-- The operation of a result has succeeded.
abbrev pub IsRecorded : List Operation → OperationResult → Type 0
IsRecorded ops r =
    (op : Operation) × (find_by op_id r.operation_id ops ≡ some op) × (op.state ≡ succeeded)

pub record StoreValid (ops : List Operation) (rs : List OperationResult) : Type 0 where
  pub rows : All IsValid ops
  pub distinct : Distinct op_id ops
  pub keys : Distinct request_key ops
  pub recorded : All (IsRecorded ops) rs

abbrev pub IsStoreValid : Store → Type 0
IsStoreValid s = StoreValid s.operations s.results

-- A call takes valid tables to valid tables, and no row is lost or changed off the diagram.
pub record Kept (ops : List Operation) (rs : List OperationResult) (ops' : List Operation)
    (rs' : List OperationResult) : Type 0 where
  pub valid : StoreValid ops' rs'
  pub evolves : Evolves ops ops'

abbrev pub Sound :
    List Operation → List OperationResult → List Operation → List OperationResult → Type 0
Sound ops rs ops' rs' = StoreValid ops rs → Kept ops rs ops' rs'

abbrev pub Keeps : Store → Store → Type 0
Keeps s t = Sound s.operations s.results t.operations t.results

pub Keeps-refl : (s : Store) → Keeps s s
Keeps-refl s v = record { valid = v; evolves = λ i op e. (op, e, here) }

pub Kept-trans :
    {xs ys zs : List Operation} {ra rb rc : List OperationResult}
    → Kept xs ra ys rb
    → Kept ys rb zs rc
    → Kept xs ra zs rc
Kept-trans a b = record {
  valid = b.valid;
  evolves = λ i op e.
      let (op', e', p) = a.evolves i op e in
      let (op'', e'', q) = b.evolves i op' e' in (op'', e'', Evolved-trans p q);
}

-- A terminal row does not change any more.
terminal_stuck : {s t : WorkflowState} → is_terminal s ≡ true → s ⟶ t → ⊥
terminal_stuck h start = cc
terminal_stuck h _ = cc

Changed-terminal : {op op' : Operation} → Changed op op' → is_terminal op.state ≡ true → ⊥
Changed-terminal (_, beat r _ _) h = ground arith
Changed-terminal (_, move e _) h = terminal_stuck h e

pub Evolved-terminal :
    {op op' : Operation} → Evolved op op' → is_terminal op.state ≡ true → op' ≡ op
Evolved-terminal here h = refl
Evolved-terminal (next {b} k c) h =
    let e = Evolved-terminal k h in
    absurd (Changed-terminal c (subst (λ o. is_terminal o.state ≡ true) (sym e) h))

pub IsRecorded-on :
    (ops ops' : List Operation)
    → Evolves ops ops'
    → (r : OperationResult) → IsRecorded ops r
    → IsRecorded ops' r
IsRecorded-on ops ops' ev r (op, e, s) =
    let (op', e', k) = ev r.operation_id op e in
    let same = Evolved-terminal k (rw s) in (op', e', ap (λ o. o.state) same ∙ s)

-- Saving a changed row that was found by its identifier.
module _ (ops : List Operation) (i : String) (op op' : Operation)
    (found : find_by op_id i ops ≡ some op) (c : Changed op op') where
  saved_id : op'.id ≡ i
  saved_id = c.0.same_id ∙ key-find_by op_id i ops found

  found_again : find_by op_id op'.id ops ≡ some op
  found_again = rw saved_id found

  pub save-Evolves : Evolves ops (save op_id op' ops)
  save-Evolves j o e = elim (Bool-cases (str_eq op'.id j)) [
    | inl h ↦
        let q : o ≡ op = cc ((eq_iff op'.id j).0 h, saved_id) in
        (
          op',
          find_by-save op_id j op' ops ∙ (rw h),
          subst (λ x. Evolved x op') (sym q) (next here c),
        )
    | inr h ↦ (o, find_by-save op_id j op' ops ∙ (rw h e), here)
  ]

  same_request_key : request_key op' ≡ request_key op
  same_request_key = cc (c.0.same_owner, c.0.same_route, c.0.same_key)

  pub save-Sound :
      (rs : List OperationResult)
      → (IsValid op → IsValid op')
      → Sound ops rs (save op_id op' ops) rs
  save-Sound rs keep v = record {
    valid = record {
      rows =
          All-save op_id IsValid op' ops v.rows
            (keep (All-find_by op_id IsValid i ops v.rows found));
      distinct = save-Distinct op_id op_id op' ops found_again c.0.same_id v.distinct;
      keys = save-Distinct op_id request_key op' ops found_again same_request_key v.keys;
      recorded = All-map _ _ rs (IsRecorded-on ops (save op_id op' ops) save-Evolves) v.recorded;
    };
    evolves = save-Evolves;
  }
