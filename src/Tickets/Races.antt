-- ===== src/Tickets/Races.antt =====
-- Requests for one purchase that are sent twice, one after the other or at once
-- (src/tickets/purchases/ticket-purchases.service.ts).
use jagalchi_api.Base.{
  ℕ, String, Bool, List, save, find_by-save, Bool-cases, true, false, none, some, ◌≡◌, refl, sym,
  ◌∙◌, subst, ◌||◌, inl, inr, find_by, find_where, find_where-none, find_where_holds,
  All-find_where, str_eq, arith, Option-cases,
}
use jagalchi_api.Tickets.Types.{
  Tickets, TicketAccount, LedgerRow, PurchaseRow, TicketPack, account_user, Outcome, ok, err,
}
use jagalchi_api.Tickets.Service.{insert_row}
use jagalchi_api.Tickets.Purchases.{
  Verified, PurchaseProof, PurchaseResult, Shop, verify, is_sale, clashes, insert_purchase,
  existing_result, after_violation, sale_row, purchase_row, credit_purchase, rescue, buy, fulfill,
  already_fulfilled,
}
use jagalchi_api.Tickets.Sales.{
  IsSold, Sells, buy-Sells, buy-IsSold, replayed, fulfill-IsOffered, offered, refused_ok,
}

-- No purchase and no account is removed.
pub record KeepsSales (s u : Tickets) : Type 0 where
  pub sales :
      (verified : Verified) (row : PurchaseRow)
      → find_where (is_sale verified.store verified.provider_transaction_id) s.purchases ≡ some row
      → find_where (is_sale verified.store verified.provider_transaction_id) u.purchases ≡ some row
  pub accounts :
      (user : String) (a : TicketAccount)
      → find_by account_user user s.accounts ≡ some a
      → (b : TicketAccount) × (find_by account_user user u.accounts ≡ some b)

-- Such is a commit that saves an account and writes the ledger.
pub save-KeepsSales :
    (a : TicketAccount) (rows : List LedgerRow) (s : Tickets)
    → KeepsSales s (record s { accounts = save account_user a s.accounts; ledger = rows })
save-KeepsSales a rows s = record {
  sales = λ v row e. e;
  accounts = λ user b e. elim (Bool-cases (str_eq a.user_id user)) [
    | inl h ↦ (a, find_by-save account_user user a s.accounts ∙ (rw h refl))
    | inr h ↦ (b, find_by-save account_user user a s.accounts ∙ (rw h e))
  ];
}

KeepsSales-IsSold :
    {user : String} {verified : Verified} {r : PurchaseResult} (s u : Tickets)
    → KeepsSales s u
    → IsSold user verified r s
    → IsSold user verified r u
KeepsSales-IsSold {user} {verified} s u k sold =
    let (b, e) = k.accounts user sold.account sold.held_by in
    record {
      row = sold.row;
      account = b;
      found = k.sales verified sold.row sold.found;
      owner = sold.owner;
      named = sold.named;
      held_by = e;
    }

middle : (a b c : Bool) → (a || b || c) ≡ false → b ≡ false
middle a b c h = ground arith

clash : {b : Bool} → b ≡ false → b ≡ true → ⊥
clash h k = cc

-- A second purchase of a store transaction violates the unique columns.
insert_purchase-sold :
    (user : String) (pack : TicketPack) (verified : Verified) (id ledger_id : String)
    {r : PurchaseResult} (u : Tickets)
    → IsSold user verified r u
    → insert_purchase (purchase_row user pack verified id ledger_id) u.purchases ≡ none
unfolding insert_purchase purchase_row
insert_purchase-sold user pack verified id ledger_id u sold =
    let p = purchase_row user pack verified id ledger_id in
    let same = is_sale verified.store verified.provider_transaction_id in
    elim (Option-cases (find_where (clashes p) u.purchases)) [
      | inr (q, e) ↦ rw (e, insert_purchase) refl
      | inl e ↦
          let free : clashes p sold.row ≡ false =
            All-find_where (λ q. clashes p q ≡ false) same u.purchases
              (find_where-none (clashes p) u.purchases e) sold.found in
          let sale : same sold.row ≡ true = find_where_holds same u.purchases sold.found in
          absurd (clash (middle (str_eq sold.row.id p.id) (same sold.row) _ free) sale)
    ]

after_violation-sold :
    (user : String) (verified : Verified) {r : PurchaseResult} (u : Tickets)
    (sold : IsSold user verified r u)
    → after_violation user verified u ≡ ok (replayed sold.row sold.account)
unfolding after_violation existing_result
after_violation-sold user verified u sold =
    rw (sold.found, after_violation) (rw (sold.owner, existing_result) (rw sold.held_by refl))

-- A request whose look-up came too early to see the purchase.
credit_purchase-sold :
    (user : String) (pack : TicketPack) (verified : Verified) (id ledger_id : String) (now : ℕ)
    {r : PurchaseResult} (u : Tickets) (sold : IsSold user verified r u)
    → rescue user verified (credit_purchase user pack verified id ledger_id now u)
      ≡ (ok (replayed sold.row sold.account), u)
unfolding credit_purchase
credit_purchase-sold user pack verified id ledger_id now u sold =
    elim (Option-cases (insert_row (sale_row user pack verified ledger_id now) u.ledger)) [
      | inl g ↦
          rw (sold.held_by, credit_purchase)
            (rw (g, after_violation-sold user verified u sold) refl)
      | inr (rows, g) ↦
          rw (sold.held_by, credit_purchase)
            (rw
              (
                g,
                insert_purchase-sold user pack verified id ledger_id u sold,
                after_violation-sold user verified u sold,
              )
              refl)
    ]

buy-raced :
    (user : String) (pack : TicketPack) (verified : Verified) (others : Tickets → Tickets)
    (id ledger_id : String) (now : ℕ) {r : PurchaseResult} (t u : Tickets)
    (sold : IsSold user verified r u)
    → find_where (is_sale verified.store verified.provider_transaction_id) t.purchases ≡ none
    → others t ≡ u
    → buy user pack verified others id ledger_id now t ≡ (ok (replayed sold.row sold.account), u)
unfolding buy
buy-raced user pack verified others id ledger_id now t u sold early commits =
    rw (early, buy) (rw commits (credit_purchase-sold user pack verified id ledger_id now u sold))

-- The answer says that the purchase which a result names is fulfilled, and nothing is written.
abbrev pub IsReplay : PurchaseResult → Tickets → Outcome PurchaseResult × Tickets → Type 0
IsReplay r u (ok r', s') =
    (r'.status ≡ already_fulfilled) × (r'.purchase_id ≡ r.purchase_id) × (s' ≡ u)
IsReplay r u (err e, s') = ⊥

-- A request that has succeeded, made again, answers that it is fulfilled, names the same purchase
-- and changes nothing: if it begins after the first has committed, and also if it looked for the
-- purchase before, and the first committed only then. Other transactions may commit in between, as
-- long as they remove no purchase and no account; u are the tables with all that. The verifier
-- answers as it did.
pub fulfill_again :
    (shop : Shop) (user : String) (dto : PurchaseProof) (verified : Verified)
    (others others' others'' : Tickets → Tickets) (id ledger_id id' ledger_id' : String)
    (now now' : ℕ) (s s' t u : Tickets) (r : PurchaseResult)
    → verify shop user dto ≡ ok verified
    → fulfill shop user dto others id ledger_id now s ≡ (ok r, s')
    → KeepsSales s' u
    → find_where (is_sale verified.store verified.provider_transaction_id) t.purchases ≡ none
    → others' t ≡ u
    → IsReplay r u (fulfill shop user dto others'' id' ledger_id' now' u)
      × IsReplay r u (fulfill shop user dto others' id' ledger_id' now' t)
fulfill_again shop user dto verified others others' others'' id ledger_id id' ledger_id' now now' s
      s' t u r proof h keeps early commits =
    elim (offered shop user dto) [
      | inl (e, k) ↦ refused_ok e s s' r (sym (k others id ledger_id now s) ∙ h)
      | inr o ↦
          let same : ◌≡◌ {A = Outcome Verified} (ok verified) (ok o.verified) =
            sym proof ∙ o.proven in
          let is : verified ≡ o.verified = cc in
          let first : IsSold user o.verified r s' =
            subst (Sells user o.verified)
              (sym (fulfill-IsOffered shop user dto others id ledger_id now s o) ∙ h)
              (buy-Sells user o.pack o.verified others id ledger_id now s) in
          let sold = KeepsSales-IsSold s' u keeps first in
          let none_yet : find_where (is_sale o.verified.store o.verified.provider_transaction_id)
                t.purchases
              ≡ none =
            subst
              (λ (v : Verified).
                find_where (is_sale v.store v.provider_transaction_id) t.purchases ≡ none)
              is early in
          (
            subst (IsReplay r u)
                (sym (
                  fulfill-IsOffered shop user dto others'' id' ledger_id' now' u o
                  ∙ buy-IsSold user o.pack o.verified others'' id' ledger_id' now' u sold))
                (refl, sym sold.named, refl),
            subst (IsReplay r u)
                (sym (
                  fulfill-IsOffered shop user dto others' id' ledger_id' now' t o
                  ∙ buy-raced user o.pack o.verified others' id' ledger_id' now' t u sold none_yet
                      commits))
                (refl, sym sold.named, refl),
          )
    ]
