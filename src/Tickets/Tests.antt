-- ===== src/Tickets/Tests.antt =====
-- Examples of tickets (src/tickets), at which the theorems on them apply.
use jagalchi_api.Base.{
  ℕ, String, true, false, none, some, List, [], ◌∷◌, ◌≡◌, ◌≢◌, refl, arith, find_by, find_where,
  save, eq_iff, utc_full_year,
}
use jagalchi_api.Base.Int.{pos, negsuc, ◌+ℤ◌, neg}
use jagalchi_api.Tickets.Types.{
  Tickets, TicketAccount, LedgerRow, coaching, deep_search, ai_feature_cost, ai_usage, reserved,
  committed, refunded, ok, err, apple, already_finalized, not_refundable, other_account,
  unique_violation, get_ticket_pack_by_product_id,
}
use jagalchi_api.Tickets.Service.{
  insert_row, monthly_key, usage_row, reserve_ai_usage, refund_ai_usage, commit_ai_usage,
  apply_monthly_grant_if_due, get_balance, is_earlier_month,
}
use jagalchi_api.Tickets.Purchases.{
  Shop, PurchaseProof, PurchaseResult, Verified, verify, fulfill, buy, credit_purchase,
  insert_purchase, new_purchase,
}
use jagalchi_api.Tickets.Ledger.{IsBalanced, credit}
use jagalchi_api.Tickets.Run.{
  Action, open_account_of, reserve, refund, purchase_pack, run, run-IsBalanced,
}
use jagalchi_api.Tickets.Races.{IsReplay, KeepsSales, save-KeepsSales, fulfill_again}
use jagalchi_api.Tickets.Sales.{fulfill_elsewhere}
use jagalchi_api.Tickets.Races.{IsReplay, KeepsSales, save-KeepsSales, fulfill_again}
use jagalchi_api.Tickets.Charges.{
  reserve_ai_usage_again, refund_ai_usage_once, commit_ai_usage_once,
}
use jagalchi_api.Tickets.Grants.{monthly_grant_once, get_balance-taken_key}

abbrev empty : Tickets
empty = record { accounts = []; ledger = []; purchases = [] }

empty-IsBalanced : IsBalanced empty
unfolding credit find_by find_where
empty-IsBalanced = record { adds_up = λ user. refl; covered = λ user. omega arith; expenses = tt }

-- A store that verifies every proof as one transaction, and what it verifies.
abbrev sale : Verified
sale = record {
  store = apple;
  provider_transaction_id = "tx-1";
  provider_token_hash = "hash";
  product_id = "com.jagalchi.app.ticket60";
  environment = "Sandbox";
  purchased_at = 500;
}

abbrev shop : Shop
shop = record {
  iap_enabled = true;
  apple_verify = λ proof user. ok sale;
  google_verify = λ proof user. ok sale;
}

abbrev proof : PurchaseProof
proof = record { store = apple; signed_transaction_info = some "jws"; purchase_token = none }

abbrev calls : List Action
calls =
    open_account_of "ada" "l1" "l2" 1000
    ∷ reserve "ada" deep_search "key-1234" "l3" 2000
    ∷ refund "l3"
    ∷ purchase_pack "ada" proof "p1" "l4" 3000
    ∷ []

run-IsBalanced_example : IsBalanced (run shop calls empty)
run-IsBalanced_example = run-IsBalanced shop calls empty empty-IsBalanced

abbrev ada : TicketAccount
ada = record { user_id = "ada"; balance = pos 30; last_monthly_grant_at = 1000 }

abbrev ben : TicketAccount
ben = record { user_id = "ben"; balance = pos 0; last_monthly_grant_at = 1000 }

abbrev opened : Tickets
opened = record { accounts = ada ∷ ben ∷ []; ledger = []; purchases = [] }

abbrev bought : PurchaseResult
bought = record {
  status = new_purchase;
  purchase_id = "p1";
  product_id = "com.jagalchi.app.ticket60";
  tickets = 60;
  balance = pos 90;
}

abbrev after_sale : Tickets
after_sale = (fulfill shop "ada" proof (λ t. t) "p1" "l1" 2000 opened).1

-- Another transaction takes tickets of the same account.
abbrev then_reserve : Tickets → Tickets
then_reserve t = (reserve_ai_usage "ada" deep_search "key-1234" "l3" 2500 t).1

-- The first request, and the other transaction, commit after the look-up of the second.
abbrev meanwhile : Tickets → Tickets
meanwhile t = then_reserve (fulfill shop "ada" proof (λ t. t) "p1" "l1" 2000 t).1

reserve-KeepsSales : KeepsSales after_sale (then_reserve after_sale)
unfolding reserve_ai_usage find_where fulfill verify get_ticket_pack_by_product_id buy
    credit_purchase find_by insert_row insert_purchase save ◌+ℤ◌ ai_feature_cost usage_row neg
reserve-KeepsSales = save-KeepsSales (record ada { balance = pos 88 }) _ after_sale

fulfill_again_example :
    IsReplay bought
      (then_reserve after_sale)
      (fulfill shop "ada" proof (λ t. t) "p2" "l2" 3000 (then_reserve after_sale))
    × IsReplay bought
        (then_reserve after_sale)
        (fulfill shop "ada" proof meanwhile "p2" "l2" 3000 opened)
unfolding fulfill verify get_ticket_pack_by_product_id buy credit_purchase find_by insert_row
    insert_purchase ◌+ℤ◌
fulfill_again_example =
    fulfill_again shop "ada" proof sale (λ t. t) meanwhile (λ t. t) "p1" "l1" "p2" "l2" 2000 3000
      opened after_sale opened (then_reserve after_sale) bought refl refl reserve-KeepsSales refl
      refl

ada_not_ben : ◌≢◌ {A = String} "ada" "ben"
ada_not_ben e = let h : false ≡ true = (eq_iff "ada" "ben").1 e in cc

fulfill_elsewhere_example :
    fulfill shop "ben" proof (λ t. t) "p2" "l2" 3000 after_sale ≡ (err other_account, after_sale)
unfolding fulfill verify get_ticket_pack_by_product_id buy credit_purchase find_by insert_row
    insert_purchase ◌+ℤ◌
fulfill_elsewhere_example =
    fulfill_elsewhere shop "ada" "ben" proof proof (λ t. t) (λ t. t) "p1" "l1" "p2" "l2" 2000 3000
      opened after_sale bought sale ada_not_ben refl refl refl

abbrev after_reserve : Tickets
after_reserve = (reserve_ai_usage "ada" deep_search "key-1234" "l1" 2000 opened).1

reserve_ai_usage_again_example :
    reserve_ai_usage "ada" deep_search "key-1234" "l2" 3000 after_reserve
    ≡ (ok (usage_row "ada" deep_search "key-1234" "l1" 2000), after_reserve)
unfolding reserve_ai_usage find_where find_by ai_feature_cost insert_row
reserve_ai_usage_again_example =
    reserve_ai_usage_again "ada" deep_search "key-1234" "l1" "l2" 2000 3000 opened after_reserve
      (usage_row "ada" deep_search "key-1234" "l1" 2000) refl

abbrev held_row : LedgerRow
held_row = record {
  id = "l1";
  user_id = "ada";
  amount = negsuc 1;
  kind = ai_usage;
  status = reserved;
  feature = some deep_search;
  idempotency_key = "key-1234";
  description = "AI deep_search 사용 예약";
  created_at = 2000;
}

abbrev charged : Tickets
charged = record {
  accounts = record ada { balance = pos 28 } ∷ [];
  ledger = held_row ∷ [];
  purchases = [];
}

abbrev after_refund : Tickets
after_refund = (refund_ai_usage "l1" charged).1

refund_ai_usage_once_example :
    (refund_ai_usage "l1" after_refund ≡ (ok (record held_row { status = refunded }), after_refund))
    × (commit_ai_usage "l1" after_refund ≡ (err already_finalized, after_refund))
unfolding refund_ai_usage find_by
refund_ai_usage_once_example =
    refund_ai_usage_once "l1" charged after_refund (record held_row { status = refunded }) refl

abbrev after_commit : Tickets
after_commit = (commit_ai_usage "l1" charged).1

commit_ai_usage_once_example :
    (commit_ai_usage "l1" after_commit
      ≡ (ok (record held_row { status = committed }), after_commit))
    × (refund_ai_usage "l1" after_commit ≡ (err not_refundable, after_commit))
unfolding commit_ai_usage find_by
commit_ai_usage_once_example =
    commit_ai_usage_once "l1" charged after_commit (record held_row { status = committed }) refl

-- 1 and 2 March 1970; the account of `ada` had its grant in January.
abbrev march : ℕ
march = 5097600000

abbrev next_day : ℕ
next_day = 5184000000

abbrev after_grant : Tickets
after_grant = (apply_monthly_grant_if_due "ada" "l1" march opened).1

monthly_grant_once_example :
    apply_monthly_grant_if_due "ada" "l2" next_day after_grant ≡ (ok tt, after_grant)
unfolding apply_monthly_grant_if_due utc_full_year find_by is_earlier_month insert_row
monthly_grant_once_example =
    monthly_grant_once "ada" "l1" "l2" march next_day opened after_grant (refl, refl) refl

abbrev squatted : Tickets
squatted = (reserve_ai_usage "ada" coaching (monthly_key "ada" march) "l1" 2000 opened).1

get_balance-taken_key_example :
    get_balance "ada" "l2" march squatted ≡ (err unique_violation, squatted)
unfolding reserve_ai_usage find_where find_by ai_feature_cost insert_row save ◌+ℤ◌ neg
    is_earlier_month utc_full_year
get_balance-taken_key_example =
    get_balance-taken_key "ada" coaching "l1" "l2" 2000 march opened squatted
      (usage_row "ada" coaching (monthly_key "ada" march) "l1" 2000)
      (record ada { balance = pos 29 }) refl refl refl
