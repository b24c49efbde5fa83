-- ===== src/Tickets/Charges.antt =====
-- What calls of `TicketsService` (src/tickets/tickets.service.ts) do to those that come after them.
use jagalchi_api.Base.{
  ℕ, String, true, some, List, ◌≡◌, refl, sym, ◌∙◌, subst, inl, inr, find_by, find_by-save,
  find_where, save, eq_iff, eq_refl, if_ind, Option-cases, not, key-find_by,
}
use jagalchi_api.Base.Int.{pos, ltb_ℤ}
use jagalchi_api.Tickets.Types.{
  Tickets, LedgerRow, LedgerStatus, Feature, ai_feature_cost, feature_name, reserved, committed,
  refunded, is_reserved, is_refunded, account_user, row_id, Outcome, ok, err, already_finalized,
  not_refundable,
}
use jagalchi_api.Tickets.Service.{
  has_ledger_key, insert_row, usage_row, reserve_ai_usage, change_reservation_status,
  commit_ai_usage, refund_ai_usage, has_status, is_feature,
}
use jagalchi_api.Tickets.Ledger.{insert_row-some}

-- The row of a reservation that succeeded.
abbrev pub Reserves : String → Feature → String → Outcome LedgerRow × Tickets → Type 0
Reserves user feature key (ok row, s) =
    (find_where (has_ledger_key user key) s.ledger ≡ some row)
    × (is_feature row.feature feature ≡ true)
Reserves user feature key (err e, s) = Unit {0}

pub reserve_ai_usage-Reserves :
    (user : String) (feature : Feature) (key id : String) (now : ℕ) (s : Tickets)
    → Reserves user feature key (reserve_ai_usage user feature key id now s)
unfolding reserve_ai_usage usage_row find_where is_feature
reserve_ai_usage-Reserves user feature key id now s =
    elim (Option-cases (find_where (has_ledger_key user key) s.ledger)) [
      | inr (o, f) ↦
          rw (f, reserve_ai_usage)
            (if_ind (λ x. Reserves user feature key (x, s)) (is_feature o.feature feature)
              (λ h. (f, h)) (λ _. tt))
      | inl f ↦ elim (Option-cases (find_by account_user user s.accounts)) [
        | inl e ↦ rw (f, reserve_ai_usage) (rw e tt)
        | inr (a, e) ↦
            rw (f, reserve_ai_usage)
              (rw e (
                if_ind (Reserves user feature key) (ltb_ℤ a.balance (pos (ai_feature_cost feature)))
                  (λ _. tt)
                  (λ h.
                    elim (Option-cases (insert_row (usage_row user feature key id now) s.ledger)) [
                      | inl g ↦ rw g tt
                      | inr (rows, g) ↦ rw g (
                        subst
                            (λ rows.
                              find_where (has_ledger_key user key) rows
                              ≡ some (usage_row user feature key id now))
                            (sym (insert_row-some (usage_row user feature key id now) s.ledger g))
                            (rw (eq_refl user, eq_refl key) refl),
                        eq_refl (feature_name feature),
                      )
                    ])))
      ]
    ]

-- A reservation made again, by the same user for the same feature under the same key, answers with
-- the row of the first and charges nothing.
pub reserve_ai_usage_again :
    (user : String) (feature : Feature) (key id id' : String) (now now' : ℕ) (s s' : Tickets)
    (row : LedgerRow)
    → reserve_ai_usage user feature key id now s ≡ (ok row, s')
    → reserve_ai_usage user feature key id' now' s' ≡ (ok row, s')
unfolding reserve_ai_usage
reserve_ai_usage_again user feature key id id' now now' s s' row h =
    let (f, g) =
      subst (Reserves user feature key) h (reserve_ai_usage-Reserves user feature key id now s) in
    rw (f, reserve_ai_usage) (rw g refl)

-- A row under the identifier, in the state.
abbrev Settles : String → LedgerStatus → Outcome LedgerRow × Tickets → Type 0
Settles id status (ok row, s) = (find_by row_id id s.ledger ≡ some row) × (row.status ≡ status)
Settles id status (err e, s) = Unit {0}

has_status-eq : (a b : LedgerStatus) → has_status a b ≡ true → a ≡ b
has_status-eq reserved reserved h = refl
has_status-eq committed committed h = refl
has_status-eq refunded refunded h = refl
has_status-eq reserved committed h = cc
has_status-eq reserved refunded h = cc
has_status-eq committed reserved h = cc
has_status-eq committed refunded h = cc
has_status-eq refunded reserved h = cc
has_status-eq refunded committed h = cc

refunded_status : (a : LedgerStatus) → is_refunded a ≡ true → a ≡ refunded
refunded_status reserved h = cc
refunded_status committed h = cc
refunded_status refunded h = refl

found_row :
    (id : String) (row : LedgerRow) (rows : List LedgerRow)
    → row.id ≡ id
    → find_by row_id id (save row_id row rows) ≡ some row
found_row id row rows e = find_by-save row_id id row rows ∙ rw ((eq_iff row.id id).1 e) refl

commit_ai_usage-Settles : (id : String) (s : Tickets) → Settles id committed (commit_ai_usage id s)
unfolding commit_ai_usage change_reservation_status
commit_ai_usage-Settles id s = elim (Option-cases (find_by row_id id s.ledger)) [
  | inl e ↦ rw (e, change_reservation_status) tt
  | inr (row, e) ↦
      rw (e, change_reservation_status)
        (if_ind (Settles id committed) (has_status row.status committed)
          (λ h. (e, has_status-eq row.status committed h))
          (λ _.
            if_ind (Settles id committed) (not (is_reserved row.status)) (λ _. tt)
              (λ _. (
                found_row id (record row { status = committed }) s.ledger
                    (key-find_by row_id id s.ledger e),
                refl,
              ))))
]

refund_ai_usage-Settles : (id : String) (s : Tickets) → Settles id refunded (refund_ai_usage id s)
unfolding refund_ai_usage
refund_ai_usage-Settles id s = elim (Option-cases (find_by row_id id s.ledger)) [
  | inl e ↦ rw (e, refund_ai_usage) tt
  | inr (row, e) ↦
      rw (e, refund_ai_usage)
        (if_ind (Settles id refunded) (is_refunded row.status)
          (λ h. (e, refunded_status row.status h))
          (λ _.
            if_ind (Settles id refunded) (not (is_reserved row.status)) (λ _. tt)
              (λ _. elim (Option-cases (find_by account_user row.user_id s.accounts)) [
                | inl g ↦ rw g tt
                | inr (a, g) ↦ rw g (
                  found_row id (record row { status = refunded }) s.ledger
                      (key-find_by row_id id s.ledger e),
                  refl,
                )
              ])))
]

-- A refund made again answers with the refunded row and pays nothing, and a commit after it is
-- refused and changes nothing.
pub refund_ai_usage_once :
    (id : String) (s s' : Tickets) (row : LedgerRow)
    → refund_ai_usage id s ≡ (ok row, s')
    → (refund_ai_usage id s' ≡ (ok row, s')) × (commit_ai_usage id s' ≡ (err already_finalized, s'))
unfolding refund_ai_usage commit_ai_usage change_reservation_status
refund_ai_usage_once id s s' row h =
    let (e, g) = subst (Settles id refunded) h (refund_ai_usage-Settles id s) in
    (rw (e, refund_ai_usage) (rw g refl), rw (e, change_reservation_status) (rw g refl))

-- A commit made again answers with the committed row, and a refund after it is refused; neither
-- changes anything.
pub commit_ai_usage_once :
    (id : String) (s s' : Tickets) (row : LedgerRow)
    → commit_ai_usage id s ≡ (ok row, s')
    → (commit_ai_usage id s' ≡ (ok row, s')) × (refund_ai_usage id s' ≡ (err not_refundable, s'))
unfolding refund_ai_usage commit_ai_usage change_reservation_status
commit_ai_usage_once id s s' row h =
    let (e, g) = subst (Settles id committed) h (commit_ai_usage-Settles id s) in
    (rw (e, change_reservation_status) (rw g refl), rw (e, refund_ai_usage) (rw g refl))
