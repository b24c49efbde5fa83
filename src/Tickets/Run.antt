-- ===== src/Tickets/Run.antt =====
-- Any sequence of calls of `TicketsService` and `TicketPurchasesService` (src/tickets), each a
-- transaction of its own, by any users, at any times.
use jagalchi_api.Base.{
  ℕ, String, List, [], ◌∷◌, refl, arith, inl, inr, find_by, find_where, if_ind, Option-cases, not,
}
use jagalchi_api.Tickets.Types.{
  Tickets, TicketAccount, LedgerRow, PurchaseRow, Feature, committed, TicketPack,
  get_ticket_pack_by_product_id, account_user, Outcome, ok, err, unique_violation,
}
use jagalchi_api.Tickets.Service.{
  get_balance, open_account, reserve_ai_usage, commit_ai_usage, refund_ai_usage, insert_row,
}
use jagalchi_api.Tickets.Purchases.{
  Verified, PurchaseProof, PurchaseResult, Shop, verify, is_sale, insert_purchase, sale_row,
  purchase_row, credit_purchase, rescue, buy, fulfill,
}
use jagalchi_api.Tickets.Ledger.{IsBalanced}
use jagalchi_api.Tickets.Balanced.{
  paid, more, funded, get_balance-IsBalanced, open_account-IsBalanced, reserve_ai_usage-IsBalanced,
  change_reservation_status-IsBalanced,
}
use jagalchi_api.Tickets.Refunds.{refund_ai_usage-IsBalanced}
use jagalchi_api.Tickets.Sales.{Outcome-cases}

resold :
    {accounts : List TicketAccount} {rows : List LedgerRow} (ps qs : List PurchaseRow)
    → IsBalanced (record { accounts = accounts; ledger = rows; purchases = qs })
    → IsBalanced (record { accounts = accounts; ledger = rows; purchases = ps })
resold ps qs v = record { adds_up = v.adds_up; covered = v.covered; expenses = v.expenses }

credit_purchase-IsBalanced :
    (user : String) (pack : TicketPack) (verified : Verified) (id ledger_id : String) (now : ℕ)
    (s : Tickets)
    → IsBalanced s
    → IsBalanced (credit_purchase user pack verified id ledger_id now s).1
unfolding credit_purchase sale_row purchase_row
credit_purchase-IsBalanced user pack verified id ledger_id now s v =
    elim (Option-cases (find_by account_user user s.accounts)) [
      | inl e ↦ rw (e, credit_purchase) v
      | inr (a, e) ↦
          elim (Option-cases (insert_row (sale_row user pack verified ledger_id now) s.ledger)) [
            | inl g ↦ rw (e, credit_purchase) (rw g v)
            | inr (rows, g) ↦
                elim (Option-cases
                  (insert_purchase (purchase_row user pack verified id ledger_id) s.purchases)) [
                    | inl k ↦ rw (e, credit_purchase) (rw g (rw k v))
                    | inr (ps, k) ↦
                        rw (e, credit_purchase)
                          (rw g (
                            rw k (
                              resold ps s.purchases (
                                paid user s (sale_row user pack verified ledger_id now)
                                  a.last_monthly_grant_at v e refl refl
                                  (more a.balance pack.tickets (funded user s v e))
                                  (λ h. ground arith) g))))
                  ]
          ]
    ]

rescue-IsBalanced :
    (user : String) (verified : Verified) (out : Outcome PurchaseResult × Tickets)
    → IsBalanced out.1
    → IsBalanced (rescue user verified out).1
rescue-IsBalanced user verified (ok r, s) h = h
rescue-IsBalanced user verified (err unique_violation, s) h = h
rescue-IsBalanced user verified (err _, s) h = h

pub fulfill-IsBalanced :
    (shop : Shop) (user : String) (dto : PurchaseProof) (others : Tickets → Tickets)
    (id ledger_id : String) (now : ℕ) (s : Tickets)
    → ((t : Tickets) → IsBalanced t → IsBalanced (others t))
    → IsBalanced s
    → IsBalanced (fulfill shop user dto others id ledger_id now s).1
unfolding fulfill buy
fulfill-IsBalanced shop user dto others id ledger_id now s keeps v =
    if_ind (λ (_, s'). IsBalanced s') (not shop.iap_enabled) (λ _. v)
      (λ _. elim (Outcome-cases (verify shop user dto)) [
        | inl (e, g) ↦ rw g v
        | inr (verified, g) ↦
            elim (Option-cases (get_ticket_pack_by_product_id verified.product_id)) [
              | inl k ↦ rw g (rw k v)
              | inr (pack, k) ↦
                  elim (Option-cases (
                    find_where (is_sale verified.store verified.provider_transaction_id)
                      s.purchases)) [
                        | inr (p, f) ↦ rw g (rw k (rw (f, buy) v))
                        | inl f ↦ rw g (
                            rw k (
                              rw (f, buy)
                                (rescue-IsBalanced user verified
                                  (credit_purchase user pack verified id ledger_id now (others s))
                                  (credit_purchase-IsBalanced user pack verified id ledger_id now
                                    (others s) (keeps s v)))))
                      ]
            ]
      ])

-- One call, with its arguments, the identifiers of the rows that it may insert and the clock.
pub data Action : Type 0 where
  open_account_of : String → String → String → ℕ → Action
  ask_balance : String → String → ℕ → Action
  reserve : String → Feature → String → String → ℕ → Action
  commit : String → Action
  refund : String → Action
  purchase_pack : String → PurchaseProof → String → String → ℕ → Action

module _ (shop : Shop) where
  unfoldable pub perform : Action → Tickets → Tickets
  perform (open_account_of user id grant_id now) s = (open_account user id grant_id now s).1
  perform (ask_balance user id now) s = (get_balance user id now s).1
  perform (reserve user feature key id now) s = (reserve_ai_usage user feature key id now s).1
  perform (commit id) s = (commit_ai_usage id s).1
  perform (refund id) s = (refund_ai_usage id s).1
  perform (purchase_pack user dto id ledger_id now) s =
      (fulfill shop user dto (λ t. t) id ledger_id now s).1

  unfoldable pub run : List Action → Tickets → Tickets
  unfolding perform
  run [] s = s
  run (c ∷ cs) s = run cs (perform c s)

  perform-IsBalanced : (c : Action) (s : Tickets) → IsBalanced s → IsBalanced (perform c s)
  unfolding perform commit_ai_usage
  perform-IsBalanced (open_account_of user id grant_id now) s v =
      open_account-IsBalanced user id grant_id now s v
  perform-IsBalanced (ask_balance user id now) s v = get_balance-IsBalanced user id now s v
  perform-IsBalanced (reserve user feature key id now) s v =
      reserve_ai_usage-IsBalanced user feature key id now s v
  perform-IsBalanced (commit id) s v =
      change_reservation_status-IsBalanced id committed s refl refl v
  perform-IsBalanced (refund id) s v = refund_ai_usage-IsBalanced id s v
  perform-IsBalanced (purchase_pack user dto id ledger_id now) s v =
      fulfill-IsBalanced shop user dto (λ t. t) id ledger_id now s (λ _ w. w) v

  -- From tables whose balances are what the ledger adds up to, no sequence of calls makes a balance
  -- other than the sum of its user's ledger rows (a refunded reservation counting nothing), and
  -- none makes a balance negative.
  pub run-IsBalanced : (calls : List Action) (s : Tickets) → IsBalanced s → IsBalanced (run calls s)
  unfolding run
  run-IsBalanced [] s v = v
  run-IsBalanced (c ∷ cs) s v = run-IsBalanced cs (perform c s) (perform-IsBalanced c s v)
