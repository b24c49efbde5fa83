-- ===== src/Tickets/Types.antt =====
-- The rows of the ticket tables (src/tickets/entities) and the prices of
-- src/tickets/ticket-policy.ts. Amounts and balances are signed; the columns `version`,
-- `created_at` of an account and `updated_at` are set by the ORM, and nothing reads them.
use jagalchi_api.Base.{ℕ, String, Bool, true, false, Option, List, [], ◌∷◌, str_eq, find_where}
use jagalchi_api.Base.Int.{ℤ}

pub data LedgerKind : Type 0 where
  signup_grant monthly_grant purchase ai_usage : LedgerKind

pub data LedgerStatus : Type 0 where
  reserved committed refunded : LedgerStatus

pub data Feature : Type 0 where
  coaching node_explanation resource_recommendation deep_search feedback roadmap_generation
        document_conversion :
      Feature

-- `AI_FEATURE_COSTS`
unfoldable pub ai_feature_cost : Feature → ℕ
ai_feature_cost coaching = 1
ai_feature_cost node_explanation = 1
ai_feature_cost resource_recommendation = 1
ai_feature_cost deep_search = 2
ai_feature_cost feedback = 2
ai_feature_cost roadmap_generation = 5
ai_feature_cost document_conversion = 5

abbrev pub feature_name : Feature → String
feature_name coaching = "coaching"
feature_name node_explanation = "node_explanation"
feature_name resource_recommendation = "resource_recommendation"
feature_name deep_search = "deep_search"
feature_name feedback = "feedback"
feature_name roadmap_generation = "roadmap_generation"
feature_name document_conversion = "document_conversion"

abbrev pub ticket_signup_grant : ℕ
ticket_signup_grant = 30

abbrev pub ticket_monthly_grant : ℕ
ticket_monthly_grant = 15

pub record TicketPack : Type 0 where
  pub id : String
  pub store_product_id : String
  pub tickets : ℕ
  pub price_krw : ℕ

abbrev pub ticket_packs : List TicketPack
ticket_packs =
    record {
      id = "ticket-20";
      store_product_id = "com.jagalchi.app.ticket20";
      tickets = 20;
      price_krw = 3900;
    }
    ∷ record {
      id = "ticket-60";
      store_product_id = "com.jagalchi.app.ticket60";
      tickets = 60;
      price_krw = 8900;
    }
    ∷ record {
      id = "ticket-150";
      store_product_id = "com.jagalchi.app.ticket150";
      tickets = 150;
      price_krw = 17900;
    }
    ∷ []

unfoldable pub get_ticket_pack_by_product_id : String → Option TicketPack
unfolding find_where
get_ticket_pack_by_product_id product_id =
    find_where (λ pack. str_eq pack.store_product_id product_id) ticket_packs

pub record TicketAccount : Type 0 where
  pub user_id : String
  pub balance : ℤ
  pub last_monthly_grant_at : ℕ

pub record LedgerRow : Type 0 where
  pub id : String
  pub user_id : String
  pub amount : ℤ
  pub kind : LedgerKind
  pub status : LedgerStatus
  pub feature : Option Feature
  pub idempotency_key : String
  pub description : String
  pub created_at : ℕ

pub data PurchaseStore : Type 0 where
  apple google : PurchaseStore

pub data PurchaseStatus : Type 0 where
  fulfilled : PurchaseStatus

pub record PurchaseRow : Type 0 where
  pub id : String
  pub user_id : String
  pub store : PurchaseStore
  pub provider_transaction_id : String
  pub provider_token_hash : String
  pub product_id : String
  pub pack_id : String
  pub tickets : ℕ
  pub environment : String
  pub status : PurchaseStatus
  pub ledger_id : String
  pub purchased_at : ℕ

pub record Tickets : Type 0 where
  pub accounts : List TicketAccount
  pub ledger : List LedgerRow
  pub purchases : List PurchaseRow

-- What the services throw. `unique_violation` is PostgreSQL's 23505.
pub data Error : Type 0 where
  account_not_found reservation_not_found other_feature : Error
  insufficient_tickets : ℕ → ℤ → Error
  not_refundable already_finalized unique_violation : Error
  iap_disabled proof_incomplete product_not_approved other_account not_configured not_verified :
      Error

pub data Outcome (A : Type 0) : Type 0 where
  ok : A → Outcome A
  err : Error → Outcome A

abbrev pub is_reserved : LedgerStatus → Bool
is_reserved reserved = true
is_reserved _ = false

abbrev pub is_refunded : LedgerStatus → Bool
is_refunded refunded = true
is_refunded _ = false

abbrev pub is_committed : LedgerStatus → Bool
is_committed committed = true
is_committed _ = false

abbrev pub account_user : TicketAccount → String
account_user a = a.user_id

abbrev pub row_id : LedgerRow → String
row_id r = r.id
