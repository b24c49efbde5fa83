-- ===== src/Tickets/Balanced.antt =====
-- Lemmas on the methods of `TicketsService` (src/tickets/tickets.service.ts) and the balances.
use jagalchi_api.Base.{
  ℕ, String, Bool, true, false, some, List, ◌≡◌, refl, sym, ap, ◌∙◌, subst, arith, inl, inr,
  All-save, find_by, find_where, save, key-find_by, if_ind, Option-cases, not,
}
use jagalchi_api.Base.Int.{ℤ, pos, ◌+ℤ◌, ◌≤ℤ◌, neg, pos_part, neg_part, int_laws, ltb_ℤ}
use jagalchi_api.Tickets.Types.{
  Tickets, TicketAccount, LedgerRow, LedgerStatus, Feature, ai_feature_cost, reserved, committed,
  refunded, is_reserved, is_refunded, ticket_signup_grant, account_user, row_id, Outcome, ok, err,
}
use jagalchi_api.Tickets.Service.{
  has_ledger_key, insert_row, monthly_row, signup_row, usage_row, apply_monthly_grant_if_due,
  create_account, get_balance, open_account, is_earlier_month, reserve_ai_usage,
  change_reservation_status, has_status, Balance, read_balance,
}
use jagalchi_api.Tickets.Ledger.{
  IsBalanced, IsExpense, share, credit, balance_of, entry-IsBalanced, held, insert_row-some,
  credit-save,
}

-- A row entered with the balance that it makes.
entered :
    (s : Tickets) (account' : TicketAccount) (row : LedgerRow) {rows : List LedgerRow}
    → IsBalanced s
    → row.user_id ≡ account'.user_id
    → account'.balance ≡ balance_of account'.user_id s.accounts +ℤ row.amount
    → is_refunded row.status ≡ false
    → pos 0 ≤ℤ account'.balance
    → IsExpense row
    → insert_row row s.ledger ≡ some rows
    → IsBalanced (record s { accounts = save account_user account' s.accounts; ledger = rows })
entered s account' row v same amount valued enough expense e =
    subst
      (λ rows.
        IsBalanced (record s { accounts = save account_user account' s.accounts; ledger = rows }))
      (sym (insert_row-some row s.ledger e))
      (entry-IsBalanced s v account' row same amount valued enough expense)

pub more : (a : ℤ) (n : ℕ) → pos 0 ≤ℤ a → pos 0 ≤ℤ a +ℤ pos n
more a n h = omega int_laws

less : (a : ℤ) (n : ℕ) → ltb_ℤ a (pos n) ≡ false → pos 0 ≤ℤ a +ℤ neg n
less a n h = grind int_laws

-- A row that the found account pays, or that is paid to it.
pub paid :
    (user : String) (s : Tickets) (row : LedgerRow) {a : TicketAccount} (now : ℕ)
    {rows : List LedgerRow}
    → IsBalanced s
    → find_by account_user user s.accounts ≡ some a
    → row.user_id ≡ user
    → is_refunded row.status ≡ false
    → pos 0 ≤ℤ a.balance +ℤ row.amount
    → IsExpense row
    → insert_row row s.ledger ≡ some rows
    → IsBalanced (record s {
      accounts =
          save account_user
            (record {
              user_id = a.user_id;
              balance = a.balance +ℤ row.amount;
              last_monthly_grant_at = now;
            })
            s.accounts;
      ledger = rows;
    })
paid user s row {a} now v e same valued enough expense =
    entered s (record a { balance = a.balance +ℤ row.amount; last_monthly_grant_at = now }) row v
      (same ∙ sym (key-find_by account_user user s.accounts e))
      (ap (λ b. b +ℤ row.amount) (sym (held user s.accounts e))) valued enough expense

pub funded :
    (user : String) (s : Tickets) {a : TicketAccount}
    → IsBalanced s
    → find_by account_user user s.accounts ≡ some a
    → pos 0 ≤ℤ a.balance
funded user s {a} v e = subst (λ b. pos 0 ≤ℤ b) (held user s.accounts e) (v.covered a.user_id)

pub apply_monthly_grant_if_due-IsBalanced :
    (user id : String) (now : ℕ) (s : Tickets)
    → IsBalanced s
    → IsBalanced (apply_monthly_grant_if_due user id now s).1
unfolding apply_monthly_grant_if_due monthly_row
apply_monthly_grant_if_due-IsBalanced user id now s v =
    elim (Option-cases (find_by account_user user s.accounts)) [
      | inl e ↦ rw (e, apply_monthly_grant_if_due) v
      | inr (a, e) ↦
          rw (e, apply_monthly_grant_if_due)
            (if_ind (λ (_, s'). IsBalanced s') (not (is_earlier_month a.last_monthly_grant_at now))
              (λ _. v)
              (λ _. elim (Option-cases (insert_row (monthly_row user id now) s.ledger)) [
                | inl g ↦ rw g v
                | inr (rows, g) ↦ rw g (
                    paid user s (monthly_row user id now) now v e refl refl
                      (more a.balance 15 (funded user s v e)) (λ h. ground arith) g)
              ]))
    ]

pub create_account-IsBalanced :
    (user id : String) (now : ℕ) (s : Tickets)
    → IsBalanced s
    → IsBalanced (create_account user id now s).1
unfolding create_account signup_row
create_account-IsBalanced user id now s v =
    elim (Option-cases (find_by account_user user s.accounts)) [
      | inr (a, e) ↦ rw (e, create_account) v
      | inl e ↦ elim (Option-cases (insert_row (signup_row user id now) s.ledger)) [
        | inl g ↦ rw (e, create_account) (rw g v)
        | inr (rows, g) ↦
            rw (e, create_account)
              (rw g (
                entered s
                  (record {
                    user_id = user;
                    balance = pos ticket_signup_grant;
                    last_monthly_grant_at = now;
                  })
                  (signup_row user id now) v refl (rw e (omega int_laws)) refl (ground arith)
                  (λ h. ground arith) g))
      ]
    ]

pub get_balance-IsBalanced :
    (user id : String) (now : ℕ) (s : Tickets)
    → IsBalanced s
    → IsBalanced (get_balance user id now s).1
unfolding get_balance
get_balance-IsBalanced user id now s v =
    go (apply_monthly_grant_if_due user id now s)
      (apply_monthly_grant_if_due-IsBalanced user id now s v)
  where
    go :
        (out : Outcome (Unit {0}) × Tickets)
        → IsBalanced out.1
        → IsBalanced
            (elim out.0 as (λ _. Outcome Balance × Tickets) [
              | err e ↦ (err e, out.1)
              | ok _ ↦ (read_balance user out.1, out.1)
            ]).1
    go (err e, s') v' = v'
    go (ok _, s') v' = v'

pub reserve_ai_usage-IsBalanced :
    (user : String) (feature : Feature) (key id : String) (now : ℕ) (s : Tickets)
    → IsBalanced s
    → IsBalanced (reserve_ai_usage user feature key id now s).1
unfolding reserve_ai_usage usage_row
reserve_ai_usage-IsBalanced user feature key id now s v =
    elim (Option-cases (find_where (has_ledger_key user key) s.ledger)) [
      | inr (o, f) ↦ rw (f, reserve_ai_usage) v
      | inl f ↦ elim (Option-cases (find_by account_user user s.accounts)) [
        | inl e ↦ rw (f, reserve_ai_usage) (rw e v)
        | inr (a, e) ↦
            rw (f, reserve_ai_usage)
              (rw e (
                if_ind (λ (_, s'). IsBalanced s') (ltb_ℤ a.balance (pos (ai_feature_cost feature)))
                  (λ _. v)
                  (λ h.
                    elim (Option-cases (insert_row (usage_row user feature key id now) s.ledger)) [
                      | inl g ↦ rw g v
                      | inr (rows, g) ↦ rw g (
                          paid user s (usage_row user feature key id now) a.last_monthly_grant_at v
                            e refl refl (less a.balance (ai_feature_cost feature) h)
                            (λ _. grind int_laws) g)
                    ])))
      ]
    ]

pub open_account-IsBalanced :
    (user id grant_id : String) (now : ℕ) (s : Tickets)
    → IsBalanced s
    → IsBalanced (open_account user id grant_id now s).1
unfolding open_account
open_account-IsBalanced user id grant_id now s v =
    go (create_account user id now s) (create_account-IsBalanced user id now s v)
  where
    go :
        (out : Outcome (Unit {0}) × Tickets)
        → IsBalanced out.1
        → IsBalanced
            (elim out.0 as (λ _. Outcome Balance × Tickets) [
              | err e ↦ (err e, out.1)
              | ok _ ↦ get_balance user grant_id now out.1
            ]).1
    go (err e, s') v' = v'
    go (ok _, s') v' = get_balance-IsBalanced user grant_id now s' v'

pub found_again :
    (id : String) (rows : List LedgerRow) {row : LedgerRow}
    → find_by row_id id rows ≡ some row
    → find_by row_id row.id rows ≡ some row
found_again id rows {row} e =
    subst (λ i. find_by row_id i rows ≡ some row) (sym (key-find_by row_id id rows e)) e

pub reserved_valued :
    (status : LedgerStatus) → not (is_reserved status) ≡ false → is_refunded status ≡ false
reserved_valued reserved h = refl
reserved_valued committed h = refl
reserved_valued refunded h = cc

pub open_valued : (status : LedgerStatus) → is_reserved status ≡ true → is_refunded status ≡ false
open_valued reserved h = refl
open_valued committed h = refl
open_valued refunded h = sym h

pub double_negation : (b : Bool) → not b ≡ false → b ≡ true
double_negation true h = refl
double_negation false h = sym h

-- Saving a row under a status that it keeps its share with.
kept_share :
    (row : LedgerRow) (status : LedgerStatus) (user : String)
    → is_refunded row.status ≡ is_refunded status
    → share user (record row { status = status }) ≡ share user row
kept_share row status user h = rw h refl

cancel_share : (a b c : ℤ) → a +ℤ c ≡ b +ℤ c → b ≡ a
cancel_share a b c h = omega (int_laws, ap pos_part h, ap neg_part h)

pub change_reservation_status-IsBalanced :
    (id : String) (status : LedgerStatus) (s : Tickets)
    → is_reserved status ≡ false
    → is_refunded status ≡ false
    → IsBalanced s
    → IsBalanced (change_reservation_status id status s).1
unfolding change_reservation_status
change_reservation_status-IsBalanced id status s settled valued v =
    elim (Option-cases (find_by row_id id s.ledger)) [
      | inl e ↦ rw (e, change_reservation_status) v
      | inr (row, e) ↦
          rw (e, change_reservation_status)
            (if_ind (λ (_, s'). IsBalanced s') (has_status row.status status) (λ _. v)
              (λ _.
                if_ind (λ (_, s'). IsBalanced s') (not (is_reserved row.status)) (λ _. v)
                  (λ h. record {
                    adds_up = λ user.
                        v.adds_up user
                        ∙ cancel_share
                            (credit user (save row_id (record row { status = status }) s.ledger))
                            (credit user s.ledger) (share user row)
                            (credit-save user row (record row { status = status }) s.ledger
                                (found_again id s.ledger e)
                              ∙ ap (λ x. credit user s.ledger +ℤ x)
                                  (kept_share row status user
                                    (reserved_valued row.status h ∙ sym valued)));
                    covered = v.covered;
                    expenses =
                        All-save row_id IsExpense (record row { status = status }) s.ledger
                          v.expenses (λ k. cc);
                  })))
    ]
