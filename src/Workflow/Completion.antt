-- ===== src/Workflow/Completion.antt =====
-- `succeed` (src/workflow-operations/workflow-operation.service.ts), the tables and the unique
-- constraint on results.
use jagalchi_api.Base.{
  String, Bool, true, false, Option, some, List, [], ◌∷◌, ◌≡◌, refl, ◌∙◌, ◌≢◌, arith, inl, inr, All,
  any, find_by, find_by-save, save, if_ind, Option-cases, eq_iff, key-find_by, ℕ,
}
use jagalchi_api.Json.{Json}
use jagalchi_api.Workflow.Types.{
  Operation, OperationResult, Store, Outcome, err, unique_violation, is_running,
}
use jagalchi_api.Workflow.Claim.{op_id}
use jagalchi_api.Workflow.Finish.{Resource, may_succeed, mark_succeeded, result_of, succeed}
use jagalchi_api.Workflow.Valid.{mark_succeeded-IsValid}
use jagalchi_api.Workflow.Edges.{mark_succeeded-Changed}
use jagalchi_api.Workflow.Sound.{StoreValid, IsRecorded, Kept, Sound, Keeps, Keeps-refl, save-Sound}

pub may_succeed-running :
    (w : String) (now : ℕ) (op : Operation)
    → may_succeed w now op ≡ true
    → is_running op.state ≡ true
unfolding may_succeed
may_succeed-running w now op h = ground arith

-- The operation of a recorded result is not running.
pub recorded_excludes_running :
    (ops : List Operation) (rs : List OperationResult) (id : String) (op : Operation)
    → All (IsRecorded ops) rs
    → find_by op_id id ops ≡ some op
    → is_running op.state ≡ true
    → any (result_of id) rs ≡ false
unfolding any
recorded_excludes_running ops [] id op a e h = refl
recorded_excludes_running ops (r ∷ rs) id op ((o, f, st), a) e h =
    ground (arith, eq_iff r.operation_id id, recorded_excludes_running ops rs id op a e h)

module _ (id worker : String) (value : Json) (resource : Option Resource) (asked now : ℕ)
    (s : Store) where
  -- Storing the result together with the completed row.
  complete_row :
      (op : Operation)
      → find_by op_id id s.operations ≡ some op
      → is_running op.state ≡ true
      → Sound s.operations s.results
          (save op_id (mark_succeeded resource now op) s.operations)
          (record { operation_id = id; value = value } ∷ s.results)
  unfolding mark_succeeded
  complete_row op e r v =
      let op' = mark_succeeded resource now op in
      let kept : Kept s.operations s.results (save op_id op' s.operations) s.results =
        save-Sound s.operations id op op' e (mark_succeeded-Changed op now resource r) s.results
          (λ w. mark_succeeded-IsValid op w now resource) v in
      let found : find_by op_id id (save op_id op' s.operations) ≡ some op' =
        find_by-save op_id id op' s.operations
        ∙ (rw ((eq_iff op.id id).1 (key-find_by op_id id s.operations e))) in
      record {
        valid = record {
          rows = kept.valid.rows;
          distinct = kept.valid.distinct;
          keys = kept.valid.keys;
          recorded = ((op', found, refl), kept.valid.recorded);
        };
        evolves = kept.evolves;
      }

  pub succeed-Keeps : Keeps s (succeed id worker value resource asked now s).1
  unfolding succeed
  succeed-Keeps = elim (Option-cases (find_by op_id id s.operations)) [
    | inl e ↦ rw (e, succeed) (Keeps-refl s)
    | inr (op, e) ↦
        rw (e, succeed)
          (if_ind (λ (r : Outcome Bool × Store). Keeps s r.1) (may_succeed worker asked op)
            (λ g.
              if_ind (λ (r : Outcome Bool × Store). Keeps s r.1) (any (result_of id) s.results)
                (λ _. Keeps-refl s)
                (λ _. complete_row op e (may_succeed-running worker asked op g)))
            (λ _. Keeps-refl s))
  ]

  -- With valid tables, `succeed` never violates the uniqueness of a result.
  pub succeed_unrefused :
      StoreValid s.operations s.results
      → (succeed id worker value resource asked now s).0 ≢ err unique_violation
  unfolding succeed
  succeed_unrefused v = elim (Option-cases (find_by op_id id s.operations)) [
    | inl e ↦ rw (e, succeed) (λ q. cc)
    | inr (op, e) ↦
        rw (e, succeed)
          (if_ind (λ (r : Outcome Bool × Store). r.0 ≢ err unique_violation)
            (may_succeed worker asked op)
            (λ g.
              rw
                (recorded_excludes_running s.operations s.results id op v.recorded e
                  (may_succeed-running worker asked op g))
                (λ q. cc))
            (λ _ q. cc))
  ]
