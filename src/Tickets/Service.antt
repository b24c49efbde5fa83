-- ===== src/Tickets/Service.antt =====
-- `TicketsService` (src/tickets/tickets.service.ts). Each method is taken to run alone: it returns the
-- new tables with its answer, and the tables of its last commit where it throws. The identifier and
-- the time of a new row are arguments.
use Prim.Native.String.{◌++◌}
use jagalchi_api.Base.{
  ℕ, String, Bool, true, false, Option, none, some, List, ◌∷◌, ◌+◌, ◌&&◌, ◌||◌, not, str_eq, ltb,
  ◌==◌, if◌then◌else◌, find_by, find_where, save, keep, sort_by, take, utc, utc_month,
  utc_full_year, decimal,
}
use jagalchi_api.Base.Int.{ℤ, pos, ◌+ℤ◌, neg, abs, ltb_ℤ}
use jagalchi_api.Tickets.Types.{
  Tickets, TicketAccount, LedgerRow, LedgerStatus, Feature, ai_feature_cost, feature_name,
  signup_grant, monthly_grant, ai_usage, reserved, committed, refunded, is_reserved, is_refunded,
  ticket_signup_grant, ticket_monthly_grant, account_user, row_id, Outcome, ok, err,
  account_not_found, reservation_not_found, other_feature, insufficient_tickets, not_refundable,
  already_finalized, unique_violation,
}

-- An INSERT into the ledger: `none` where the primary key or the unique index on the user and the
-- idempotency key is violated.
abbrev pub has_ledger_key : String → String → LedgerRow → Bool
has_ledger_key user key r = str_eq r.user_id user && str_eq r.idempotency_key key

unfoldable pub insert_row : LedgerRow → List LedgerRow → Option (List LedgerRow)
insert_row row rows =
    elim (find_where (λ r. str_eq r.id row.id || has_ledger_key row.user_id row.idempotency_key r)
      rows) [ none ↦ some (row ∷ rows) | some _ ↦ none ]

-- `isEarlierMonth`
unfoldable pub is_earlier_month : ℕ → ℕ → Bool
is_earlier_month value now =
    ltb (utc_full_year value) (utc_full_year now)
    || (utc_full_year value == utc_full_year now && ltb (utc_month value) (utc_month now))

-- `nextMonth`
unfoldable pub next_month : ℕ → ℕ
next_month value = utc (utc_full_year value) (utc_month value + 1)

abbrev pub monthly_key : String → ℕ → String
monthly_key user now =
    "monthly:"
    ++ (user ++ (":" ++ (decimal (utc_full_year now) ++ ("-" ++ decimal (utc_month now + 1)))))

unfoldable pub monthly_row : String → String → ℕ → LedgerRow
monthly_row user id now = record {
  id = id;
  user_id = user;
  amount = pos ticket_monthly_grant;
  kind = monthly_grant;
  status = committed;
  feature = none;
  idempotency_key = monthly_key user now;
  description = "월간 무료 티켓";
  created_at = now;
}

-- `applyMonthlyGrantIfDue`
unfoldable pub apply_monthly_grant_if_due :
    String → String → ℕ → Tickets → Outcome (Unit {0}) × Tickets
unfolding monthly_row
apply_monthly_grant_if_due user id now s = elim (find_by account_user user s.accounts) [
  | none ↦ (ok tt, s)
  | some account ↦
      if not (is_earlier_month account.last_monthly_grant_at now)
      then (ok tt, s)
      else let account' = record account {
        balance = account.balance +ℤ pos ticket_monthly_grant;
        last_monthly_grant_at = now;
      } in
        elim (insert_row (monthly_row user id now) s.ledger) [
          | none ↦ (err unique_violation, s)
          | some rows ↦
              (ok tt, record s { accounts = save account_user account' s.accounts; ledger = rows })
        ]
]

-- `TicketBalanceResult`, without `expiresAt`, which is always null.
pub record Balance : Type 0 where
  pub balance : ℤ
  pub next_monthly_grant_at : ℕ

abbrev pub read_balance : String → Tickets → Outcome Balance
read_balance user s = elim (find_by account_user user s.accounts) [
  | none ↦ err account_not_found
  | some account ↦ ok (record {
    balance = account.balance;
    next_monthly_grant_at = next_month account.last_monthly_grant_at;
  })
]

unfoldable pub get_balance : String → String → ℕ → Tickets → Outcome Balance × Tickets
get_balance user id now s =
    let (granted, s') = apply_monthly_grant_if_due user id now s in
    elim granted [ err e ↦ (err e, s') | ok _ ↦ (read_balance user s', s') ]

unfoldable pub signup_row : String → String → ℕ → LedgerRow
signup_row user id now = record {
  id = id;
  user_id = user;
  amount = pos ticket_signup_grant;
  kind = signup_grant;
  status = committed;
  feature = none;
  idempotency_key = "signup:" ++ user;
  description = "신규 가입 무료 티켓";
  created_at = now;
}

-- The transaction of `openAccount`.
unfoldable pub create_account : String → String → ℕ → Tickets → Outcome (Unit {0}) × Tickets
unfolding signup_row
create_account user id now s = elim (find_by account_user user s.accounts) [
  | some _ ↦ (ok tt, s)
  | none ↦
      let account : TicketAccount = record {
        user_id = user;
        balance = pos ticket_signup_grant;
        last_monthly_grant_at = now;
      } in
      elim (insert_row (signup_row user id now) s.ledger) [
        | none ↦ (err unique_violation, s)
        | some rows ↦
            (ok tt, record s { accounts = save account_user account s.accounts; ledger = rows })
      ]
]

-- `openAccount`, which ends by `getBalance`; `grant_id` is for the row that this may insert.
unfoldable pub open_account : String → String → String → ℕ → Tickets → Outcome Balance × Tickets
open_account user id grant_id now s =
    let (made, s') = create_account user id now s in
    elim made [ err e ↦ (err e, s') | ok _ ↦ get_balance user grant_id now s' ]

-- `listLedger`: the newest 100 rows.
unfoldable pub list_ledger : String → Tickets → List LedgerRow
list_ledger user s =
    take 100
      (sort_by (λ a b. ltb b.created_at a.created_at) (keep (λ r. str_eq r.user_id user) s.ledger))

-- Features are compared by their names, as the column holds them.
unfoldable pub is_feature : Option Feature → Feature → Bool
is_feature none f = false
is_feature (some g) f = str_eq (feature_name g) (feature_name f)

unfoldable pub usage_row : String → Feature → String → String → ℕ → LedgerRow
usage_row user feature key id now = record {
  id = id;
  user_id = user;
  amount = neg (ai_feature_cost feature);
  kind = ai_usage;
  status = reserved;
  feature = some feature;
  idempotency_key = key;
  description = "AI " ++ (feature_name feature ++ " 사용 예약");
  created_at = now;
}

-- `reserveAiUsage`
unfoldable pub reserve_ai_usage :
    String → Feature → String → String → ℕ → Tickets → Outcome LedgerRow × Tickets
reserve_ai_usage user feature key id now s = elim (find_where (has_ledger_key user key) s.ledger) [
  | some existing ↦
      (if is_feature existing.feature feature then ok existing else err other_feature, s)
  | none ↦ elim (find_by account_user user s.accounts) [
    | none ↦ (err account_not_found, s)
    | some account ↦
        let cost = ai_feature_cost feature in
        if ltb_ℤ account.balance (pos cost)
        then (err (insufficient_tickets cost account.balance), s)
        else let account' = record account { balance = account.balance +ℤ neg cost } in
          let row = usage_row user feature key id now in
          elim (insert_row row s.ledger) [
            | none ↦ (err unique_violation, s)
            | some rows ↦ (
              ok row,
              record s { accounts = save account_user account' s.accounts; ledger = rows },
            )
          ]
  ]
]

abbrev pub has_status : LedgerStatus → LedgerStatus → Bool
has_status reserved reserved = true
has_status committed committed = true
has_status refunded refunded = true
has_status _ _ = false

-- `changeReservationStatus`
unfoldable pub change_reservation_status :
    String → LedgerStatus → Tickets → Outcome LedgerRow × Tickets
change_reservation_status id status s = elim (find_by row_id id s.ledger) [
  | none ↦ (err reservation_not_found, s)
  | some row ↦
      if has_status row.status status
      then (ok row, s)
      else if not (is_reserved row.status)
      then (err already_finalized, s)
      else let row' = record row { status = status } in
        (ok row', record s { ledger = save row_id row' s.ledger })
]

unfoldable pub commit_ai_usage : String → Tickets → Outcome LedgerRow × Tickets
unfolding change_reservation_status
commit_ai_usage id s = change_reservation_status id committed s

-- `refundAiUsage`
unfoldable pub refund_ai_usage : String → Tickets → Outcome LedgerRow × Tickets
refund_ai_usage id s = elim (find_by row_id id s.ledger) [
  | none ↦ (err reservation_not_found, s)
  | some row ↦
      if is_refunded row.status
      then (ok row, s)
      else if not (is_reserved row.status)
      then (err not_refundable, s)
      else elim (find_by account_user row.user_id s.accounts) [
        | none ↦ (err account_not_found, s)
        | some account ↦
            let account' = record account { balance = account.balance +ℤ pos (abs row.amount) } in
            let row' = record row { status = refunded } in
            (
              ok row',
              record s {
                accounts = save account_user account' s.accounts;
                ledger = save row_id row' s.ledger;
              },
            )
      ]
]
