-- ===== src/Tickets/Ledger.antt =====
-- The balances and the ledger of `TicketsService` (src/tickets/tickets.service.ts), and lemmas on
-- entering a row and on saving one.
use jagalchi_api.Base.{
  String, true, false, Option, none, some, List, [], ◌∷◌, ◌≡◌, refl, sym, ap, ◌∙◌, subst, inl, inr,
  All, find_by, find_by-save, find_where, save, str_eq, eq_iff, key-find_by, if◌then◌else◌, if_ind,
  if_eq, Option-cases, Bool-cases, ◌||◌,
}
use jagalchi_api.Base.Int.{ℤ, pos, ◌+ℤ◌, ◌≤ℤ◌, pos_part, neg_part, int_laws}
use jagalchi_api.Tickets.Types.{
  Tickets, TicketAccount, LedgerRow, is_reserved, is_refunded, account_user, row_id,
}
use jagalchi_api.Tickets.Service.{has_ledger_key, insert_row}

-- What a row contributes to a user's balance: a refunded reservation nothing.
abbrev pub share : String → LedgerRow → ℤ
share user r =
    if str_eq r.user_id user then if is_refunded r.status then pos 0 else r.amount else pos 0

unfoldable pub credit : String → List LedgerRow → ℤ
credit user [] = pos 0
credit user (r ∷ rs) = share user r +ℤ credit user rs

-- The balance of a user; one without an account has none.
abbrev pub balance_in : Option TicketAccount → ℤ
balance_in none = pos 0
balance_in (some a) = a.balance

abbrev pub balance_of : String → List TicketAccount → ℤ
balance_of user accounts = balance_in (find_by account_user user accounts)

-- Only an expense is ever reserved.
abbrev pub IsExpense : LedgerRow → Type 0
IsExpense r = is_reserved r.status ≡ true → pos_part r.amount ≡ 0

pub record IsBalanced (s : Tickets) : Type 0 where
  pub adds_up : (user : String) → balance_of user s.accounts ≡ credit user s.ledger
  pub covered : (user : String) → pos 0 ≤ℤ balance_of user s.accounts
  pub expenses : All IsExpense s.ledger

pub insert_row-some :
    (row : LedgerRow) (rows : List LedgerRow) {rows' : List LedgerRow}
    → insert_row row rows ≡ some rows'
    → rows' ≡ row ∷ rows
unfolding insert_row
insert_row-some row rows {rows'} h =
    elim (Option-cases (
      find_where (λ r. str_eq r.id row.id || has_ledger_key row.user_id row.idempotency_key r)
        rows)) [
          | inl e ↦ let g : some (row ∷ rows) ≡ some rows' = rw (e, insert_row) at h in cc
          | inr (o, e) ↦ let g : none ≡ some rows' = rw (e, insert_row) at h in cc
        ]

pub share-own :
    (user : String) (r : LedgerRow)
    → str_eq r.user_id user ≡ true
    → is_refunded r.status ≡ false
    → share user r ≡ r.amount
share-own user r h e = rw (h, e) refl

pub share-other :
    (user : String) (r : LedgerRow) → str_eq r.user_id user ≡ false → share user r ≡ pos 0
share-other user r h = rw h refl

zero_plus : (a : ℤ) → a ≡ pos 0 +ℤ a
zero_plus a = omega int_laws

swap : (a b : ℤ) → a +ℤ b ≡ b +ℤ a
swap a b = omega int_laws

pub exchange : (a b c : ℤ) → a +ℤ c +ℤ b ≡ b +ℤ c +ℤ a
exchange a b c = omega int_laws

carry : (a b b' c d : ℤ) → b' +ℤ c ≡ b +ℤ d → a +ℤ b' +ℤ c ≡ a +ℤ b +ℤ d
carry a b b' c d h = omega (int_laws, ap pos_part h, ap neg_part h)

-- Saving a row that is found exchanges its share.
pub credit-save :
    (user : String) (row row' : LedgerRow) (rows : List LedgerRow)
    → find_by row_id row'.id rows ≡ some row
    → credit user (save row_id row' rows) +ℤ share user row ≡ credit user rows +ℤ share user row'
unfolding credit save find_by find_where
credit-save user row row' [] e = cc
credit-save user row row' (r ∷ rs) e =
    if_eq (str_eq r.id row'.id) e
      (λ h g.
        let same : share user r ≡ share user row = ap (share user) {x = r} {y = row} (cc) in
        rw h (rw same (exchange (share user row') (share user row) (credit user rs))))
      (λ h g. rw h (
        carry (share user r) (credit user rs) (credit user (save row_id row' rs)) (share user row)
          (share user row') (credit-save user row row' rs g)))

pub balance_of-save :
    (user : String) (a : TicketAccount) (accounts : List TicketAccount)
    → balance_of user (save account_user a accounts)
      ≡ (if str_eq a.user_id user then a.balance else balance_of user accounts)
balance_of-save user a accounts = elim (Bool-cases (str_eq a.user_id user)) [
  | inl h ↦ ap balance_in (find_by-save account_user user a accounts) ∙ (rw h)
  | inr h ↦ ap balance_in (find_by-save account_user user a accounts) ∙ (rw h)
]

-- Giving a user an amount, and entering it as a row of the ledger.
module _ (s : Tickets) (v : IsBalanced s) (account' : TicketAccount) (row : LedgerRow)
    (same_user : row.user_id ≡ account'.user_id)
    (amount : account'.balance ≡ balance_of account'.user_id s.accounts +ℤ row.amount)
    (valued : is_refunded row.status ≡ false) where
  own :
      (user : String)
      → balance_of user s.accounts +ℤ row.amount ≡ row.amount +ℤ credit user s.ledger
  own user = rw (v.adds_up user) (swap (credit user s.ledger) row.amount)

  entry-adds_up :
      (user : String)
      → balance_of user (save account_user account' s.accounts) ≡ credit user (row ∷ s.ledger)
  unfolding credit
  entry-adds_up user =
      balance_of-save user account' s.accounts
      ∙ if_ind (λ x. x ≡ share user row +ℤ credit user s.ledger) (str_eq account'.user_id user)
          (λ h.
            rw (share-own user row (subst (λ u. str_eq u user ≡ true) (sym same_user) h) valued) (
              amount
              ∙ subst
                  (λ u.
                    balance_of account'.user_id s.accounts +ℤ row.amount
                    ≡ row.amount +ℤ credit u s.ledger)
                  ((eq_iff account'.user_id user).0 h) (own account'.user_id)))
          (λ h.
            rw (share-other user row (subst (λ u. str_eq u user ≡ false) (sym same_user) h))
              (v.adds_up user ∙ zero_plus (credit user s.ledger)))

  pub entry-IsBalanced :
      pos 0 ≤ℤ account'.balance
      → IsExpense row
      → IsBalanced
          (record s { accounts = save account_user account' s.accounts; ledger = row ∷ s.ledger })
  entry-IsBalanced enough expense = record {
    adds_up = entry-adds_up;
    covered = λ user.
        subst (λ b. pos 0 ≤ℤ b) (sym (balance_of-save user account' s.accounts))
          (if_ind (λ b. pos 0 ≤ℤ b) (str_eq account'.user_id user) (λ _. enough)
            (λ _. v.covered user));
    expenses = (expense, v.expenses);
  }

-- The account that is found holds its user's balance.
pub held :
    (user : String) (accounts : List TicketAccount) {a : TicketAccount}
    → find_by account_user user accounts ≡ some a
    → balance_of a.user_id accounts ≡ a.balance
held user accounts {a} e =
    subst (λ u. balance_of u accounts ≡ a.balance) (sym (key-find_by account_user user accounts e))
      (ap balance_in e)
