-- ===== src/Tickets/Refunds.antt =====
-- Lemmas on `refundAiUsage` (src/tickets/tickets.service.ts) and the balances.
use jagalchi_api.Base.{
  String, Bool, true, some, ◌≡◌, sym, ap, ◌∙◌, subst, arith, inl, inr, All-save, All-find_by,
  find_by, save, str_eq, eq_iff, key-find_by, if_ind, Option-cases, not,
}
use jagalchi_api.Base.Int.{ℤ, pos, ◌+ℤ◌, ◌≤ℤ◌, abs, pos_part, neg_part, int_laws}
use jagalchi_api.Tickets.Types.{
  Tickets, TicketAccount, LedgerRow, refunded, is_reserved, is_refunded, account_user, row_id,
}
use jagalchi_api.Tickets.Service.{refund_ai_usage}
use jagalchi_api.Tickets.Ledger.{
  IsBalanced, IsExpense, share, credit, balance_of, held, credit-save, balance_of-save, share-own,
  share-other,
}
use jagalchi_api.Tickets.Balanced.{more, funded, found_again, open_valued, double_negation}

-- A reserved row under which its user is paid back.
no_share : (row : LedgerRow) (user : String) → share user (record row { status = refunded }) ≡ pos 0
no_share row user = ground arith

paid_back : (a x : ℤ) → pos_part x ≡ 0 → a +ℤ pos (abs x) +ℤ x ≡ a
paid_back a x h = omega int_laws

refund_sum : (c c' x : ℤ) → pos_part x ≡ 0 → c' +ℤ x ≡ c +ℤ pos 0 → c +ℤ pos (abs x) ≡ c'
refund_sum c c' x p h = omega (int_laws, ap pos_part h, ap neg_part h)

same_sum : (c c' : ℤ) → c' +ℤ pos 0 ≡ c +ℤ pos 0 → c ≡ c'
same_sum c c' h = omega (int_laws, ap pos_part h, ap neg_part h)

module _ (s : Tickets) (v : IsBalanced s) (row : LedgerRow) {a : TicketAccount}
    (e : find_by row_id row.id s.ledger ≡ some row) (is_open : is_reserved row.status ≡ true)
    (g : find_by account_user row.user_id s.accounts ≡ some a) where
  abbrev back : TicketAccount
  back = record a { balance = a.balance +ℤ pos (abs row.amount) }

  abbrev row' : LedgerRow
  row' = record row { status = refunded }

  changed :
      (user : String) {x : ℤ}
      → share user row ≡ x
      → credit user (save row_id row' s.ledger) +ℤ x ≡ credit user s.ledger +ℤ pos 0
  changed user h =
      ap (λ x. credit user (save row_id row' s.ledger) +ℤ x) (sym h)
      ∙ credit-save user row row' s.ledger e
      ∙ ap (λ x. credit user s.ledger +ℤ x) (no_share row user)

  own_sum : (user : String) → str_eq a.user_id user ≡ true → a.balance ≡ credit user s.ledger
  own_sum user h =
      subst (λ u. a.balance ≡ credit u s.ledger) ((eq_iff a.user_id user).0 h)
        (sym (held row.user_id s.accounts g) ∙ v.adds_up a.user_id)

  of_row : (user : String) {b : Bool} → str_eq a.user_id user ≡ b → str_eq row.user_id user ≡ b
  of_row user {b} =
      subst (λ u. str_eq u user ≡ b) (key-find_by account_user row.user_id s.accounts g)

  expense : pos_part row.amount ≡ 0
  expense = All-find_by row_id IsExpense row.id s.ledger v.expenses e is_open

  back_adds_up :
      (user : String)
      → balance_of user (save account_user back s.accounts)
        ≡ credit user (save row_id row' s.ledger)
  back_adds_up user =
      balance_of-save user back s.accounts
      ∙ if_ind (λ x. x ≡ credit user (save row_id row' s.ledger)) (str_eq a.user_id user)
          (λ h.
            ap (λ x. x +ℤ pos (abs row.amount)) (own_sum user h)
            ∙ refund_sum (credit user s.ledger) (credit user (save row_id row' s.ledger)) row.amount
                expense
                (changed user
                  (share-own user row (of_row user h) (open_valued row.status is_open))))
          (λ h.
            v.adds_up user
            ∙ same_sum (credit user s.ledger) (credit user (save row_id row' s.ledger))
                (changed user (share-other user row (of_row user h))))

  back_funded : pos 0 ≤ℤ a.balance +ℤ pos (abs row.amount)
  back_funded = more a.balance (abs row.amount) (funded row.user_id s v g)

  refund-IsBalanced : IsBalanced (record s {
    accounts = save account_user back s.accounts;
    ledger = save row_id row' s.ledger;
  })
  refund-IsBalanced = record {
    adds_up = back_adds_up;
    covered = λ user.
        subst (λ b. pos 0 ≤ℤ b) (sym (balance_of-save user back s.accounts))
          (if_ind (λ b. pos 0 ≤ℤ b) (str_eq a.user_id user) (λ _. back_funded)
            (λ _. v.covered user));
    expenses = All-save row_id IsExpense row' s.ledger v.expenses (λ k. ground arith);
  }

pub refund_ai_usage-IsBalanced :
    (id : String) (s : Tickets) → IsBalanced s → IsBalanced (refund_ai_usage id s).1
unfolding refund_ai_usage
refund_ai_usage-IsBalanced id s v = elim (Option-cases (find_by row_id id s.ledger)) [
  | inl e ↦ rw (e, refund_ai_usage) v
  | inr (row, e) ↦
      rw (e, refund_ai_usage)
        (if_ind (λ (_, s'). IsBalanced s') (is_refunded row.status) (λ _. v)
          (λ _.
            if_ind (λ (_, s'). IsBalanced s') (not (is_reserved row.status)) (λ _. v)
              (λ h. elim (Option-cases (find_by account_user row.user_id s.accounts)) [
                | inl g ↦ rw g v
                | inr (a, g) ↦ rw g (
                    refund-IsBalanced s v row (found_again id s.ledger e)
                      (double_negation (is_reserved row.status) h) g)
              ])))
]
