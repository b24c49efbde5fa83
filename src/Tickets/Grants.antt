-- ===== src/Tickets/Grants.antt =====
-- The monthly grant of `TicketsService` (src/tickets/tickets.service.ts).
use jagalchi_api.Base.{
  ℕ, String, Bool, true, false, none, some, List, ◌≡◌, refl, sym, ap, ◌∙◌, subst, inl, inr, ◌||◌,
  arith, find_by, find_where, find_where-none, find_where_holds, All-find_where, str_eq, if_ind,
  Option-cases, not, key-find_by, utc_full_year, utc_month,
}
use jagalchi_api.Base.Int.{pos, ◌+ℤ◌}
use jagalchi_api.Tickets.Types.{
  Tickets, TicketAccount, LedgerRow, Feature, account_user, Outcome, ok, err, unique_violation,
  ticket_monthly_grant,
}
use jagalchi_api.Tickets.Service.{
  has_ledger_key, insert_row, monthly_key, monthly_row, apply_monthly_grant_if_due,
  is_earlier_month, reserve_ai_usage, get_balance,
}
use jagalchi_api.Tickets.Charges.{Reserves, reserve_ai_usage-Reserves}
use jagalchi_api.Tickets.Sales.{found_saved}

-- No grant is due.
abbrev IsGranted : String → ℕ → Tickets → Type 0
IsGranted user now s =
    (a : TicketAccount)
    → find_by account_user user s.accounts ≡ some a
    → is_earlier_month a.last_monthly_grant_at now ≡ false

abbrev Grants : String → ℕ → Outcome (Unit {0}) × Tickets → Type 0
Grants user now (ok _, s) = IsGranted user now s
Grants user now (err e, s) = Unit {0}

-- Two times in one calendar month of UTC.
abbrev pub IsSameMonth : ℕ → ℕ → Type 0
IsSameMonth a b = (utc_full_year a ≡ utc_full_year b) × (utc_month a ≡ utc_month b)

same_month : (last a b : ℕ) → IsSameMonth a b → is_earlier_month last b ≡ is_earlier_month last a
unfolding is_earlier_month
same_month last a b (y, m) = rw (y, m) refl

not_earlier : (now : ℕ) → is_earlier_month now now ≡ false
unfolding is_earlier_month
not_earlier now = ground arith

granted_false : (b : Bool) → not b ≡ true → b ≡ false
granted_false b h = ground arith

apply_monthly_grant_if_due-Grants :
    (user id : String) (now : ℕ) (s : Tickets)
    → Grants user now (apply_monthly_grant_if_due user id now s)
unfolding apply_monthly_grant_if_due monthly_row
apply_monthly_grant_if_due-Grants user id now s =
    elim (Option-cases (find_by account_user user s.accounts)) [
      | inl e ↦ rw (e, apply_monthly_grant_if_due) (λ a f. none_some a (sym e ∙ f))
      | inr (a, e) ↦
          rw (e, apply_monthly_grant_if_due)
            (if_ind (Grants user now) (not (is_earlier_month a.last_monthly_grant_at now))
              (λ h b f.
                subst (λ x. is_earlier_month x.last_monthly_grant_at now ≡ false) {x = a} {y = b}
                  (some_eq (sym e ∙ f))
                  (granted_false (is_earlier_month a.last_monthly_grant_at now) h))
              (λ _. elim (Option-cases (insert_row (monthly_row user id now) s.ledger)) [
                | inl g ↦ rw g tt
                | inr (rows, g) ↦ rw g (λ b f.
                    subst (λ x. is_earlier_month x.last_monthly_grant_at now ≡ false)
                      {x = record a {
                        balance = a.balance +ℤ pos ticket_monthly_grant;
                        last_monthly_grant_at = now;
                      }}
                      {y = b}
                      (some_eq (
                        sym (
                          found_saved user a.user_id
                            (record a {
                              balance = a.balance +ℤ pos ticket_monthly_grant;
                              last_monthly_grant_at = now;
                            })
                            s.accounts refl (key-find_by account_user user s.accounts e))
                        ∙ f))
                      (not_earlier now))
              ]))
    ]
  where
    none_some : {C : Type 0} (a : TicketAccount) → none ≡ some a → C
    none_some a h = cc

    some_eq : {a b : TicketAccount} → some a ≡ some b → a ≡ b
    some_eq h = cc

-- An account gets at most one grant in a calendar month: where the grant has been applied, another
-- application in that month changes nothing.
pub monthly_grant_once :
    (user id id' : String) (now now' : ℕ) (s s' : Tickets)
    → IsSameMonth now now'
    → apply_monthly_grant_if_due user id now s ≡ (ok tt, s')
    → apply_monthly_grant_if_due user id' now' s' ≡ (ok tt, s')
unfolding apply_monthly_grant_if_due
monthly_grant_once user id id' now now' s s' same h =
    elim (Option-cases (find_by account_user user s'.accounts)) [
      | inl e ↦ rw (e, apply_monthly_grant_if_due) refl
      | inr (a, e) ↦
          rw (e, apply_monthly_grant_if_due)
            (rw
              (same_month a.last_monthly_grant_at now now' same
                ∙ subst (Grants user now) h (apply_monthly_grant_if_due-Grants user id now s) a e)
              refl)
    ]

or_false : {C : Type 0} (p q : Bool) → (p || q) ≡ false → q ≡ true → C
or_false true q h g = cc
or_false false q h g = cc

-- A row whose key is taken is not inserted.
insert_row-taken :
    (row : LedgerRow) (rows : List LedgerRow) {o : LedgerRow}
    → find_where (has_ledger_key row.user_id row.idempotency_key) rows ≡ some o
    → insert_row row rows ≡ none
unfolding insert_row
insert_row-taken row rows {o} h =
    elim (Option-cases (
      find_where (λ r. str_eq r.id row.id || has_ledger_key row.user_id row.idempotency_key r)
        rows)) [
          | inr (q, e) ↦ rw (e, insert_row) refl
          | inl e ↦
              let none_holds =
                find_where-none
                  (λ r. str_eq r.id row.id || has_ledger_key row.user_id row.idempotency_key r) rows
                  e in
              or_false (str_eq o.id row.id) (has_ledger_key row.user_id row.idempotency_key o)
                (All-find_where
                  (λ r.
                    (str_eq r.id row.id || has_ledger_key row.user_id row.idempotency_key r)
                    ≡ false)
                  (has_ledger_key row.user_id row.idempotency_key) rows none_holds h)
                (find_where_holds (has_ledger_key row.user_id row.idempotency_key) rows h)
        ]

-- A reservation under the key of the month's grant, which a client may choose, makes every reading
-- of the balance in that month fail while the grant is due.
pub get_balance-taken_key :
    (user : String) (feature : Feature) (id id' : String) (reserved_at now : ℕ) (s s' : Tickets)
    (row : LedgerRow) (a : TicketAccount)
    → reserve_ai_usage user feature (monthly_key user now) id reserved_at s ≡ (ok row, s')
    → find_by account_user user s'.accounts ≡ some a
    → is_earlier_month a.last_monthly_grant_at now ≡ true
    → get_balance user id' now s' ≡ (err unique_violation, s')
unfolding get_balance apply_monthly_grant_if_due monthly_row
get_balance-taken_key user feature id id' reserved_at now s s' row a h e due =
    let (f, _) =
      subst (Reserves user feature (monthly_key user now)) h
        (reserve_ai_usage-Reserves user feature (monthly_key user now) id reserved_at s) in
    let failed : apply_monthly_grant_if_due user id' now s' ≡ (err unique_violation, s') =
      rw (e, apply_monthly_grant_if_due)
        (rw due (rw (insert_row-taken (monthly_row user id' now) s'.ledger f) refl)) in
    rw (failed, get_balance) (ap (λ out. (err unique_violation, out.1)) failed)
