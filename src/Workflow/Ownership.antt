-- ===== src/Workflow/Ownership.antt =====
-- Who may end an operation, and when (src/workflow-operations/workflow-operation.service.ts).
use jagalchi_api.Base.{
  ℕ, String, false, Option, some, List, ◌≡◌, ◌≢◌, refl, ◌≤◌, arith, find_by, is_text, str_ne,
}
use jagalchi_api.Json.{Json}
use jagalchi_api.Workflow.Types.{Operation, Store, ok}
use jagalchi_api.Workflow.Backoff.{BackoffPolicy}
use jagalchi_api.Workflow.Claim.{op_id}
use jagalchi_api.Workflow.Finish.{
  Resource, succeed, fail, retry, lost, finish_cancellation, abandon, owns_live_lease, may_succeed,
}

-- Every report of a worker on an operation that it may not end is refused, and writes nothing.
abbrev pub Refused : BackoffPolicy → String → String → ℕ → Store → Type 0
Refused policy id worker now s =
    ((value : Json) (resource : Option Resource) (at : ℕ)
      → succeed id worker value resource now at s ≡ (ok false, s))
    × ((code : String) (message : List ℕ) (class : String)
        → fail id worker code message class now s ≡ (false, s))
    × ((code : String) (message : List ℕ) (class : String)
        → retry policy id worker code message class now s ≡ (lost, s))
    × (finish_cancellation id worker now s ≡ (false, s))

Refused-without_lease :
    (policy : BackoffPolicy) (id worker : String) (now : ℕ) (s : Store) (op : Operation)
    → find_by op_id id s.operations ≡ some op
    → owns_live_lease worker now op ≡ false
    → may_succeed worker now op ≡ false
    → Refused policy id worker now s
unfolding succeed fail retry finish_cancellation
Refused-without_lease policy id worker now s op e no_lease no_success = (
  λ value resource at. rw (e, succeed) (rw no_success),
  λ code message class. rw (e, fail) (rw no_lease),
  λ code message class. rw (e, retry) (rw no_lease),
  rw (e, finish_cancellation) (rw no_lease),
)

not_owner :
    (worker : String) (now : ℕ) (op : Operation)
    → is_text op.lease_owner worker ≡ false
    → (owns_live_lease worker now op ≡ false) × (may_succeed worker now op ≡ false)
unfolding owns_live_lease may_succeed
not_owner worker now op h = rw h (refl, refl)

-- A worker that does not hold the lease of an operation cannot end it: each of its reports is
-- refused and writes nothing, and so is `abandon`.
pub other_worker-Refused :
    (policy : BackoffPolicy) (id worker holder : String) (now : ℕ) (s : Store) (op : Operation)
    → find_by op_id id s.operations ≡ some op
    → op.lease_owner ≡ some holder
    → holder ≢ worker
    → Refused policy id worker now s × (abandon id worker now s ≡ (false, s))
unfolding abandon
other_worker-Refused policy id worker holder now s op e h n =
    let foreign : is_text op.lease_owner worker ≡ false = rw h (str_ne n) in
    let (a, b) = not_owner worker now op foreign in
    (Refused-without_lease policy id worker now s op e a b, rw (e, abandon) (rw foreign))

late :
    (worker : String) (now t : ℕ) (op : Operation)
    → op.lease_expires_at ≡ some t
    → t ≤ now
    → (owns_live_lease worker now op ≡ false) × (may_succeed worker now op ≡ false)
unfolding owns_live_lease may_succeed
late worker now t op h le = (ground arith, ground arith)

-- From the moment at which its lease ends, no worker can report on an operation, its holder not
-- excepted.
pub late_worker-Refused :
    (policy : BackoffPolicy) (id worker : String) (now t : ℕ) (s : Store) (op : Operation)
    → find_by op_id id s.operations ≡ some op
    → op.lease_expires_at ≡ some t
    → t ≤ now
    → Refused policy id worker now s
late_worker-Refused policy id worker now t s op e h le =
    let (a, b) = late worker now t op h le in Refused-without_lease policy id worker now s op e a b
