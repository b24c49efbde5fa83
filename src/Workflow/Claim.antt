-- ===== src/Workflow/Claim.antt =====
-- `claim`, `heartbeat` and the heartbeats of the workers
-- (src/workflow-operations/workflow-operation.service.ts).
use jagalchi_api.Base.{
  ℕ, String, Bool, true, false, Option, none, some, List, [], ◌∷◌, ◌+◌, ◌&&◌, ◌||◌, not, str_eq,
  is_text, is_after, ltb, leb, ◌==◌, any, keep, if◌then◌else◌, save, update_where, count_where,
}
use jagalchi_api.Workflow.Types.{Operation, Store, WorkerHeartbeat, running, is_pending, is_running}

abbrev pub op_id : Operation → String
op_id op = op.id

-- `kind IN (…)`; no list of kinds accepts every kind.
unfoldable pub accepts_kind : Option (List String) → String → Bool
accepts_kind none kind = true
accepts_kind (some kinds) kind = any (str_eq kind) kinds

-- The conditions of the query of `claim`.
unfoldable pub is_claimable : ℕ → Option (List String) → Operation → Bool
is_claimable asked kinds op =
    is_pending op.state
    && leb op.next_attempt_at asked
    && ltb op.attempts op.max_attempts
    && accepts_kind kinds op.kind

-- `ORDER BY next_attempt_at, created_at`
abbrev pub is_earlier : Operation → Operation → Bool
is_earlier a b =
    ltb a.next_attempt_at b.next_attempt_at
    || (a.next_attempt_at == b.next_attempt_at && ltb a.created_at b.created_at)

-- `LIMIT 1` of the ordered rows.
unfoldable pub first_of_order : List Operation → Option Operation
first_of_order [] = none
first_of_order (x ∷ xs) = elim (first_of_order xs) [
  | none ↦ some x
  | some y ↦ if is_earlier y x then some y else some x
]

-- `SKIP LOCKED`: `locked` says which rows other transactions hold at that moment.
unfoldable pub select_claim :
    ℕ → Option (List String) → (String → Bool) → List Operation → Option Operation
unfolding first_of_order
select_claim asked kinds locked ops =
    first_of_order (keep (λ op. is_claimable asked kinds op && not (locked op.id)) ops)

unfoldable pub lease_to : String → ℕ → ℕ → Operation → Operation
lease_to worker lease_ms now op = record op {
  state = running;
  lease_owner = some worker;
  heartbeat_at = some now;
  lease_expires_at = some (now + lease_ms);
  attempts = op.attempts + 1;
  version = op.version + 1;
}

abbrev pub is_empty_list : Option (List String) → Bool
is_empty_list (some []) = true
is_empty_list _ = false

-- The clock is read once for the query, `asked`, and once for the lease, `now`.
unfoldable pub claim :
    String → ℕ → Option (List String) → (String → Bool) → ℕ → ℕ → Store → Option Operation × Store
claim worker lease_ms kinds locked asked now s =
    if is_empty_list kinds then (none, s) else elim (select_claim asked kinds locked s.operations) [
      | none ↦ (none, s)
      | some op ↦
          let leased = lease_to worker lease_ms now op in
          (some leased, record s { operations = save op_id leased s.operations })
    ]

-- `upsert({ workerId, heartbeatAt }, ['workerId'])`
abbrev pub worker_of : WorkerHeartbeat → String
worker_of h = h.worker_id

unfoldable pub record_worker_heartbeat : String → ℕ → Store → Store
record_worker_heartbeat worker at s = record s {
  heartbeats = save worker_of (record { worker_id = worker; heartbeat_at = at }) s.heartbeats;
}

-- The row of the latest heartbeat.
unfoldable pub latest_worker_heartbeat : List WorkerHeartbeat → Option ℕ
latest_worker_heartbeat [] = none
latest_worker_heartbeat (h ∷ hs) = elim (latest_worker_heartbeat hs) [
  | none ↦ some h.heartbeat_at
  | some t ↦ if ltb h.heartbeat_at t then some t else some h.heartbeat_at
]

unfoldable pub is_beating : String → String → ℕ → Operation → Bool
is_beating id worker now op =
    str_eq op.id id
    && is_text op.lease_owner worker
    && is_running op.state
    && is_after op.lease_expires_at now

unfoldable pub renew : ℕ → ℕ → Operation → Operation
renew lease_ms now op = record op {
  heartbeat_at = some now;
  lease_expires_at = some (now + lease_ms);
}

unfoldable pub heartbeat : String → String → ℕ → ℕ → Store → Bool × Store
unfolding record_worker_heartbeat
heartbeat id worker lease_ms now s =
    let affected = count_where (is_beating id worker now) s.operations in
    let operations = update_where (is_beating id worker now) (renew lease_ms now) s.operations in
    (affected == 1, record_worker_heartbeat worker now (record s { operations = operations }))
