-- ===== src/Witnesses/Payments.antt =====
-- Payments, commissions and the webhook.
use afrique_os.Common.{◌≡◌, refl, true, ◌&&◌, none, some, [], ◌∷◌, ◌==◌, any, arith}
use afrique_os.Common.Int.{◌+ℤ◌, ◌*ℕ◌}
use afrique_os.Common.Tables.{count}
use afrique_os.Database.Enums.{OrderStatus}
use afrique_os.Database.Rows.{order_already_paid}
use afrique_os.Database.Action.{ok, after}
use afrique_os.Orders.Credit.{
  seller_plan, sync_allocation, ready_shipments, award_points, credit_seller_for_paid_order,
}
use afrique_os.Orders.Payment.{is_owner, settle_transition, confirm_transaction, confirm_payment}
use afrique_os.Orders.Payment.Once.{confirm_all, confirm_once}
use afrique_os.Orders.Payment.Credited.{balances, due, confirm-balances}
use afrique_os.Orders.Payment.Atomic.{confirm_payment_owner}
use afrique_os.Paydunya.Settle.{settle_credit, settle_paid_order}
use afrique_os.Paydunya.Settle.Credit.{settle_credit-credit_seller}
use afrique_os.Paydunya.Settle.Once.{settle_once}
use afrique_os.Paydunya.Settle.Balances.{settle-balances}
use afrique_os.Witnesses.Shop.{to_cents, phone, shop, waiting, cancelled_order, db}

confirm_once_example :
    confirm_all to_cents 10 1000
      ((8, none, 91) ∷ (9, some 3, 92) ∷ [])
      (after (confirm_transaction to_cents 10 1000 7 (some 55) 90) db)
    ≡ after (confirm_transaction to_cents 10 1000 7 (some 55) 90) db
unfolding confirm_transaction settle_transition credit_seller_for_paid_order seller_plan
    sync_allocation ready_shipments award_points ◌+ℤ◌ ◌*ℕ◌
confirm_once_example =
    confirm_once to_cents 10 1000 7 (some 55) 90 ((8, none, 91) ∷ (9, some 3, 92) ∷ []) db _ refl

confirm-balances_example :
    balances (after (confirm_transaction to_cents 10 1000 7 (some 55) 90) db)
    ≡ balances db +ℤ due to_cents 10 1000 waiting db *ℕ count (λ b. b.id == 10) db.boutiques
unfolding confirm_transaction settle_transition credit_seller_for_paid_order seller_plan
    sync_allocation ready_shipments award_points ◌+ℤ◌ ◌*ℕ◌
confirm-balances_example =
    confirm-balances to_cents 10 1000 7 (some 55) 90 db
      (record waiting { status = OrderStatus.paid; paid_at = some 7; payment_ref = some 55 }) refl
      (λ e. ground arith)

confirm_payment_owner_example :
    any (λ o. o.id == 1000 && o.boutique_id == 10 && is_owner none (some phone) o) db.orders ≡ true
unfolding confirm_payment settle_transition credit_seller_for_paid_order seller_plan sync_allocation
    ready_shipments award_points ◌+ℤ◌ ◌*ℕ◌
confirm_payment_owner_example =
    confirm_payment_owner to_cents 10 1000 (some phone) (some 55) none 7 90 db _ refl

settle_credit-credit_seller_example :
    settle_credit to_cents (some shop) waiting 90 db
    ≡ credit_seller_for_paid_order to_cents waiting 90 db
settle_credit-credit_seller_example = settle_credit-credit_seller to_cents waiting 90 db

settle_once_example :
    settle_paid_order to_cents
      (some 1000)
      (some 4)
      66
      9
      92
      (after (settle_paid_order to_cents (some 1000) none 55 8 91) db)
    ≡ (ok (some order_already_paid), after (settle_paid_order to_cents (some 1000) none 55 8 91) db)
unfolding settle_paid_order ◌+ℤ◌ ◌*ℕ◌
settle_once_example = settle_once to_cents 55 8 91 1000 none db 66 9 92 (some 4) refl

settle-balances_example :
    balances (after (settle_paid_order to_cents (some 1001) none 55 8 91) db)
    ≡ balances db +ℤ due to_cents 0 0 cancelled_order db *ℕ count (λ b. b.id == 10) db.boutiques
unfolding settle_paid_order ◌+ℤ◌ ◌*ℕ◌
settle-balances_example =
    settle-balances to_cents 55 8 91 1001 none db cancelled_order refl refl refl
