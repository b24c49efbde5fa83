-- ===== src/Tickets/Sales.antt =====
-- What `fulfill` of src/tickets/purchases/ticket-purchases.service.ts answers to later requests.
use jagalchi_api.Base.{
  ℕ, String, true, false, some, List, ◌≡◌, refl, sym, ◌∙◌, subst, inl, inr, ◌⊎◌, ◌≢◌, str_ne,
  find_by, find_by-save, find_where, save, str_eq, eq_iff, eq_refl, if_ind, Option-cases,
  Bool-cases, not, key-find_by,
}
use jagalchi_api.Base.Int.{pos, ◌+ℤ◌}
use jagalchi_api.Tickets.Types.{
  Tickets, TicketAccount, PurchaseRow, TicketPack, get_ticket_pack_by_product_id, account_user,
  Outcome, ok, err, other_account, iap_disabled, product_not_approved, unique_violation, Error,
}
use jagalchi_api.Tickets.Service.{insert_row}
use jagalchi_api.Tickets.Ledger.{held}
use jagalchi_api.Tickets.Balanced.{double_negation}
use jagalchi_api.Tickets.Purchases.{
  Verified, PurchaseProof, PurchaseResult, Shop, verify, is_sale, insert_purchase, existing_result,
  after_violation, sale_row, purchase_row, credit_purchase, rescue, buy, fulfill, already_fulfilled,
  store_name, clashes,
}

-- The transaction is in the tables as the user's purchase that the result names.
pub record IsSold (user : String) (verified : Verified) (r : PurchaseResult) (s : Tickets)
    : Type 0 where
  pub row : PurchaseRow
  pub account : TicketAccount
  pub found :
      find_where (is_sale verified.store verified.provider_transaction_id) s.purchases ≡ some row
  pub owner : str_eq row.user_id user ≡ true
  pub named : r.purchase_id ≡ row.id
  pub held_by : find_by account_user user s.accounts ≡ some account

-- A result is that of a purchase in the tables.
abbrev pub Sells : String → Verified → Outcome PurchaseResult × Tickets → Type 0
Sells user verified (ok r, s) = IsSold user verified r s
Sells user verified (err e, s) = Unit {0}

pub existing_result-Sells :
    (user : String) (verified : Verified) (p : PurchaseRow) (s : Tickets)
    → find_where (is_sale verified.store verified.provider_transaction_id) s.purchases ≡ some p
    → Sells user verified (existing_result user p s, s)
unfolding existing_result
existing_result-Sells user verified p s f =
    if_ind (λ o. Sells user verified (o, s)) (not (str_eq p.user_id user)) (λ _. tt)
      (λ b. elim (Option-cases (find_by account_user user s.accounts)) [
        | inl e ↦ rw e tt
        | inr (a, e) ↦ rw e (record {
          row = p;
          account = a;
          found = f;
          owner = double_negation (str_eq p.user_id user) b;
          named = refl;
          held_by = e;
        })
      ])

pub found_saved :
    (user held : String) (a : TicketAccount) (accounts : List TicketAccount)
    → a.user_id ≡ held
    → held ≡ user
    → find_by account_user user (save account_user a accounts) ≡ some a
found_saved user held a accounts e g =
    find_by-save account_user user a accounts ∙ rw ((eq_iff a.user_id user).1 (e ∙ g)) refl

credit_purchase-Sells :
    (user : String) (pack : TicketPack) (verified : Verified) (id ledger_id : String) (now : ℕ)
    (s : Tickets)
    → Sells user verified (credit_purchase user pack verified id ledger_id now s)
unfolding credit_purchase sale_row purchase_row insert_purchase find_where
credit_purchase-Sells user pack verified id ledger_id now s =
    elim (Option-cases (find_by account_user user s.accounts)) [
      | inl e ↦ rw (e, credit_purchase) tt
      | inr (a, e) ↦
          elim (Option-cases (insert_row (sale_row user pack verified ledger_id now) s.ledger)) [
            | inl g ↦ rw (e, credit_purchase) (rw g tt)
            | inr (rows, g) ↦
                elim (Option-cases (
                  find_where (clashes (purchase_row user pack verified id ledger_id))
                    s.purchases)) [
                      | inr (q, k) ↦ rw (e, credit_purchase) (rw g (rw (k, insert_purchase) tt))
                      | inl k ↦
                          rw (e, credit_purchase)
                            (rw g (
                              rw (k, insert_purchase)
                                (record {
                                  row = purchase_row user pack verified id ledger_id;
                                  account = record a { balance = a.balance +ℤ pos pack.tickets };
                                  found =
                                      rw
                                        (
                                          eq_refl (store_name verified.store),
                                          eq_refl verified.provider_transaction_id,
                                        )
                                        refl;
                                  owner = eq_refl user;
                                  named = refl;
                                  held_by =
                                      found_saved user a.user_id
                                        (record a { balance = a.balance +ℤ pos pack.tickets })
                                        s.accounts refl
                                        (key-find_by account_user user s.accounts e);
                                })))
                    ]
          ]
    ]

rescue-Sells :
    (user : String) (verified : Verified) (out : Outcome PurchaseResult × Tickets)
    → Sells user verified out
    → Sells user verified (rescue user verified out)
unfolding after_violation
rescue-Sells user verified (ok r, s) h = h
rescue-Sells user verified (err unique_violation, s) h =
    elim (Option-cases
      (find_where (is_sale verified.store verified.provider_transaction_id) s.purchases)) [
        | inl e ↦ rw (e, after_violation) tt
        | inr (p, e) ↦ rw (e, after_violation) (existing_result-Sells user verified p s e)
      ]
rescue-Sells user verified (err _, s) h = h

pub buy-Sells :
    (user : String) (pack : TicketPack) (verified : Verified) (others : Tickets → Tickets)
    (id ledger_id : String) (now : ℕ) (s : Tickets)
    → Sells user verified (buy user pack verified others id ledger_id now s)
unfolding buy
buy-Sells user pack verified others id ledger_id now s =
    elim (Option-cases
      (find_where (is_sale verified.store verified.provider_transaction_id) s.purchases)) [
        | inr (p, e) ↦ rw (e, buy) (existing_result-Sells user verified p s e)
        | inl e ↦
            rw (e, buy)
              (rescue-Sells user verified
                (credit_purchase user pack verified id ledger_id now (others s))
                (credit_purchase-Sells user pack verified id ledger_id now (others s)))
      ]

-- The answer to a purchase that is in the tables.
abbrev pub replayed : PurchaseRow → TicketAccount → PurchaseResult
replayed p a = record {
  status = already_fulfilled;
  purchase_id = p.id;
  product_id = p.product_id;
  tickets = p.tickets;
  balance = a.balance;
}

pub buy-IsSold :
    (user : String) (pack : TicketPack) (verified : Verified) (others : Tickets → Tickets)
    (id ledger_id : String) (now : ℕ) {r : PurchaseResult} (s : Tickets)
    (sold : IsSold user verified r s)
    → buy user pack verified others id ledger_id now s ≡ (ok (replayed sold.row sold.account), s)
unfolding buy existing_result
buy-IsSold user pack verified others id ledger_id now s sold =
    rw (sold.found, buy) (rw (sold.owner, existing_result) (rw sold.held_by refl))

buy-sold_to_other :
    (user other : String) (pack : TicketPack) (verified : Verified) (others : Tickets → Tickets)
    (id ledger_id : String) (now : ℕ) {r : PurchaseResult} (s : Tickets)
    → user ≢ other
    → IsSold user verified r s
    → buy other pack verified others id ledger_id now s ≡ (err other_account, s)
unfolding buy existing_result
buy-sold_to_other user other pack verified others id ledger_id now s n sold =
    rw (sold.found, buy)
      (rw
        (
          str_ne {s = sold.row.user_id} {t = other}
              (λ e. n (sym ((eq_iff sold.row.user_id user).0 sold.owner) ∙ e)),
          existing_result,
        )
        refl)

-- A request whose proof is verified, for a pack on offer.
pub record IsOffered (shop : Shop) (user : String) (dto : PurchaseProof) : Type 0 where
  pub verified : Verified
  pub pack : TicketPack
  pub enabled : not shop.iap_enabled ≡ false
  pub proven : verify shop user dto ≡ ok verified
  pub approved : get_ticket_pack_by_product_id verified.product_id ≡ some pack

pub fulfill-IsOffered :
    (shop : Shop) (user : String) (dto : PurchaseProof) (others : Tickets → Tickets)
    (id ledger_id : String) (now : ℕ) (s : Tickets) (o : IsOffered shop user dto)
    → fulfill shop user dto others id ledger_id now s
      ≡ buy user o.pack o.verified others id ledger_id now s
unfolding fulfill
fulfill-IsOffered shop user dto others id ledger_id now s o =
    rw (o.enabled, fulfill) (rw o.proven (rw o.approved refl))

-- Any other request is refused at once.
abbrev pub IsRefused : Shop → String → PurchaseProof → Type 0
IsRefused shop user dto =
    (e : Error) × ((others : Tickets → Tickets) (id ledger_id : String) (now : ℕ) (s : Tickets)
      → fulfill shop user dto others id ledger_id now s ≡ (err e, s))

pub Outcome-cases :
    {A : Type 0} (o : Outcome A) → ((e : Error) × (o ≡ err e)) ⊎ ((a : A) × (o ≡ ok a))
Outcome-cases (ok a) = inr (a, refl)
Outcome-cases (err e) = inl (e, refl)

pub offered :
    (shop : Shop) (user : String) (dto : PurchaseProof)
    → IsRefused shop user dto ⊎ IsOffered shop user dto
unfolding fulfill
offered shop user dto = elim (Bool-cases (not shop.iap_enabled)) [
  | inl h ↦ inl (iap_disabled, λ others id ledger_id now s. rw (h, fulfill) refl)
  | inr h ↦ elim (Outcome-cases (verify shop user dto)) [
    | inl (e, g) ↦ inl (e, λ others id ledger_id now s. rw (h, fulfill) (rw g refl))
    | inr (verified, g) ↦ elim (Option-cases (get_ticket_pack_by_product_id verified.product_id)) [
      | inl k ↦
          inl
            (product_not_approved, λ others id ledger_id now s. rw (h, fulfill) (rw g (rw k refl)))
      | inr (pack, k) ↦
          inr (record { verified = verified; pack = pack; enabled = h; proven = g; approved = k })
    ]
  ]
]

pub refused_ok :
    {C : Type 0} (e : Error) (s s' : Tickets) (r : PurchaseResult)
    → ◌≡◌ {A = Outcome PurchaseResult × Tickets} (err e, s) (ok r, s')
    → C
refused_ok e s s' r h = cc

-- A store transaction that is fulfilled for one user is refused to every other, with the tables
-- unchanged, where the verifier accepts the other user's proof of it.
pub fulfill_elsewhere :
    (shop : Shop) (user other : String) (dto dto' : PurchaseProof)
    (others others' : Tickets → Tickets) (id ledger_id id' ledger_id' : String) (now now' : ℕ)
    (s s' : Tickets) (r : PurchaseResult) (verified : Verified)
    → user ≢ other
    → verify shop user dto ≡ ok verified
    → verify shop other dto' ≡ ok verified
    → fulfill shop user dto others id ledger_id now s ≡ (ok r, s')
    → fulfill shop other dto' others' id' ledger_id' now' s' ≡ (err other_account, s')
fulfill_elsewhere shop user other dto dto' others others' id ledger_id id' ledger_id' now now' s s'
      r verified n p q h =
    elim (offered shop user dto) [
      | inl (e, k) ↦ refused_ok e s s' r (sym (k others id ledger_id now s) ∙ h)
      | inr o ↦
          let same : ◌≡◌ {A = Outcome Verified} (ok verified) (ok o.verified) = sym p ∙ o.proven in
          fulfill-IsOffered shop other dto' others' id' ledger_id' now' s' (record {
            verified = o.verified;
            pack = o.pack;
            enabled = o.enabled;
            proven = q ∙ same;
            approved = o.approved;
          })
          ∙ buy-sold_to_other user other o.pack o.verified others' id' ledger_id' now' s' n (
              subst (Sells user o.verified)
                (sym (fulfill-IsOffered shop user dto others id ledger_id now s o) ∙ h)
                (buy-Sells user o.pack o.verified others id ledger_id now s))
    ]
