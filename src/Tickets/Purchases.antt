-- ===== src/Tickets/Purchases.antt =====
-- `TicketPurchasesService` (src/tickets/purchases/ticket-purchases.service.ts). The verifiers of the
-- two stores, which call out, are parameters.
use Prim.Native.String.{◌++◌}
use jagalchi_api.Base.{
  ℕ, String, Bool, Option, none, some, List, ◌∷◌, ◌&&◌, ◌||◌, not, str_eq, if◌then◌else◌, find_by,
  find_where, save,
}
use jagalchi_api.Base.Int.{ℤ, pos, ◌+ℤ◌}
use jagalchi_api.Tickets.Types.{
  Tickets, LedgerRow, PurchaseRow, PurchaseStore, apple, google, fulfilled, TicketPack,
  get_ticket_pack_by_product_id, purchase, committed, account_user, Outcome, ok, err,
  account_not_found, iap_disabled, proof_incomplete, product_not_approved, other_account,
  unique_violation,
}
use jagalchi_api.Tickets.Service.{insert_row}

-- `VerifiedTicketPurchase`
pub record Verified : Type 0 where
  pub store : PurchaseStore
  pub provider_transaction_id : String
  pub provider_token_hash : String
  pub product_id : String
  pub environment : String
  pub purchased_at : ℕ

-- `FulfillTicketPurchaseDto`
pub record PurchaseProof : Type 0 where
  pub store : PurchaseStore
  pub signed_transaction_info : Option String
  pub purchase_token : Option String

pub data PurchaseOutcome : Type 0 where
  new_purchase already_fulfilled : PurchaseOutcome

-- `TicketPurchaseResult`
pub record PurchaseResult : Type 0 where
  pub status : PurchaseOutcome
  pub purchase_id : String
  pub product_id : String
  pub tickets : ℕ
  pub balance : ℤ

-- What the service is set up with: `IAP_ENABLED`, and the verifiers, which take the proof and the
-- user that it must be bound to.
pub record Shop : Type 0 where
  pub iap_enabled : Bool
  pub apple_verify : String → String → Outcome Verified
  pub google_verify : String → String → Outcome Verified

-- An empty string is falsy.
abbrev pub truthy : Option String → Option String
truthy none = none
truthy (some s) = if str_eq s "" then none else some s

-- `verify`
unfoldable pub verify : Shop → String → PurchaseProof → Outcome Verified
verify shop user dto = elim dto.store [
  | apple ↦ elim (truthy dto.signed_transaction_info) [
    | none ↦ err proof_incomplete
    | some info ↦ shop.apple_verify info user
  ]
  | google ↦ elim (truthy dto.purchase_token) [
    | none ↦ err proof_incomplete
    | some token ↦ shop.google_verify token user
  ]
]

abbrev pub store_name : PurchaseStore → String
store_name apple = "APPLE"
store_name google = "GOOGLE"

abbrev pub is_sale : PurchaseStore → String → PurchaseRow → Bool
is_sale store transaction p =
    str_eq (store_name p.store) (store_name store) && str_eq p.provider_transaction_id transaction

-- The unique columns of a purchase.
abbrev pub clashes : PurchaseRow → PurchaseRow → Bool
clashes p q =
    str_eq q.id p.id
    || is_sale p.store p.provider_transaction_id q
    || str_eq q.ledger_id p.ledger_id

unfoldable pub insert_purchase : PurchaseRow → List PurchaseRow → Option (List PurchaseRow)
insert_purchase p ps = elim (find_where (clashes p) ps) [ none ↦ some (p ∷ ps) | some _ ↦ none ]

-- `existingResult`
unfoldable pub existing_result : String → PurchaseRow → Tickets → Outcome PurchaseResult
existing_result user p s =
    if not (str_eq p.user_id user)
    then err other_account
    else elim (find_by account_user user s.accounts) [
      | none ↦ err account_not_found
      | some account ↦ ok (record {
        status = already_fulfilled;
        purchase_id = p.id;
        product_id = p.product_id;
        tickets = p.tickets;
        balance = account.balance;
      })
    ]

-- The `catch` of a unique violation: the transaction is rolled back.
unfoldable pub after_violation : String → Verified → Tickets → Outcome PurchaseResult
after_violation user verified s =
    elim (find_where (is_sale verified.store verified.provider_transaction_id) s.purchases) [
      | none ↦ err other_account
      | some existing ↦ existing_result user existing s
    ]

unfoldable pub sale_row : String → TicketPack → Verified → String → ℕ → LedgerRow
sale_row user pack verified id now = record {
  id = id;
  user_id = user;
  amount = pos pack.tickets;
  kind = purchase;
  status = committed;
  feature = none;
  idempotency_key =
      "purchase:" ++ (store_name verified.store ++ (":" ++ verified.provider_transaction_id));
  description = pack.id ++ " 스토어 구매";
  created_at = now;
}

unfoldable pub purchase_row : String → TicketPack → Verified → String → String → PurchaseRow
purchase_row user pack verified id ledger_id = record {
  id = id;
  user_id = user;
  store = verified.store;
  provider_transaction_id = verified.provider_transaction_id;
  provider_token_hash = verified.provider_token_hash;
  product_id = verified.product_id;
  pack_id = pack.id;
  tickets = pack.tickets;
  environment = verified.environment;
  status = fulfilled;
  ledger_id = ledger_id;
  purchased_at = verified.purchased_at;
}

-- The transaction after its first lookup has found no purchase: the account is credited, and both
-- rows are inserted; a unique violation of either undoes all of it.
unfoldable pub credit_purchase :
    String
    → TicketPack
    → Verified
    → String
    → String
    → ℕ
    → Tickets
    → Outcome PurchaseResult × Tickets
unfolding sale_row purchase_row
credit_purchase user pack verified id ledger_id now s =
    elim (find_by account_user user s.accounts) [
      | none ↦ (err account_not_found, s)
      | some account ↦
          let account' = record account { balance = account.balance +ℤ pos pack.tickets } in
          let p = purchase_row user pack verified id ledger_id in
          elim (insert_row (sale_row user pack verified ledger_id now) s.ledger) [
            | none ↦ (err unique_violation, s)
            | some rows ↦ elim (insert_purchase p s.purchases) [
              | none ↦ (err unique_violation, s)
              | some ps ↦ (
                ok (record {
                  status = new_purchase;
                  purchase_id = p.id;
                  product_id = p.product_id;
                  tickets = p.tickets;
                  balance = account'.balance;
                }),
                record {
                  accounts = save account_user account' s.accounts;
                  ledger = rows;
                  purchases = ps;
                },
              )
            ]
          ]
    ]

-- The `catch` clause.
abbrev pub rescue :
    String → Verified → Outcome PurchaseResult × Tickets → Outcome PurchaseResult × Tickets
rescue user verified (err unique_violation, s) = (after_violation user verified s, s)
rescue _ _ out = out

-- The body of the `try`: `others` is what other transactions commit between the lookup of the
-- purchase, which locks nothing, and the rest, which holds the account's lock. Where the purchase is
-- found nothing is written, and its row and the account are read as of one moment; so are those that
-- the `catch` reads.
unfoldable pub buy :
    String
    → TicketPack
    → Verified
    → (Tickets → Tickets)
    → String
    → String
    → ℕ
    → Tickets
    → Outcome PurchaseResult × Tickets
buy user pack verified others id ledger_id now s =
    elim (find_where (is_sale verified.store verified.provider_transaction_id) s.purchases) [
      | some existing ↦ (existing_result user existing s, s)
      | none ↦ rescue user verified (credit_purchase user pack verified id ledger_id now (others s))
    ]

unfoldable pub fulfill :
    Shop
    → String
    → PurchaseProof
    → (Tickets → Tickets)
    → String
    → String
    → ℕ
    → Tickets
    → Outcome PurchaseResult × Tickets
fulfill shop user dto others id ledger_id now s =
    if not shop.iap_enabled then (err iap_disabled, s) else elim (verify shop user dto) [
      | err e ↦ (err e, s)
      | ok verified ↦ elim (get_ticket_pack_by_product_id verified.product_id) [
        | none ↦ (err product_not_approved, s)
        | some pack ↦ buy user pack verified others id ledger_id now s
      ]
    ]
