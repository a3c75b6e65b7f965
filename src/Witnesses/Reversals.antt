-- ===== src/Witnesses/Reversals.antt =====
-- Reversed payments, blocked accounts, and the reads of the window.
use afrique_os.Common.{◌≤◌, ◌≡◌, refl, none, ◌==◌, length, All}
use afrique_os.Common.Int.{pos, ◌+ℤ◌, ◌-ℤ◌, ◌*ℕ◌}
use afrique_os.Common.Tables.{count}
use afrique_os.Database.Enums.{Plan}
use afrique_os.Database.Action.{after, bad_request}
use afrique_os.Orders.Credit.{gross_total, net_of, trace_on_order}
use afrique_os.Orders.Payment.Credited.{balances}
use afrique_os.Orders.Cancel.{undo_payment, cancel_by_customer}
use afrique_os.Orders.Cancel.Atomic.{cancel_by_customer_atomic}
use afrique_os.Orders.Cancel.Balance.{undo_payment-balances}
use afrique_os.Orders.Reads.{IsOwn, find_for_customer, find_for_customer-IsOwn}
use afrique_os.Admin.{reverse_payment}
use afrique_os.Admin.Laws.{reverse_payment-balances}
use afrique_os.Witnesses.Shop.{to_cents, phone, paid_order, db}

undo_payment-balances_example :
    balances (
      after
        (undo_payment 10
          (trace_on_order to_cents (gross_total paid_order) Plan.business 200 paid_order))
        db)
    ≡ balances db
      +ℤ (pos 0 -ℤ net_of to_cents (gross_total paid_order) 200)
        *ℕ count (λ b. b.id == 10) db.boutiques
unfolding undo_payment
undo_payment-balances_example =
    undo_payment-balances to_cents Plan.business 200 paid_order db refl refl

reverse_payment-balances_example :
    balances (after (reverse_payment paid_order) db)
    ≡ balances db +ℤ (pos 0 -ℤ paid_order.total) *ℕ count (λ b. b.id == 10) db.boutiques
unfolding reverse_payment
reverse_payment-balances_example = reverse_payment-balances paid_order db refl refl

find_for_customer-IsOwn_example :
    (length (find_for_customer phone 10 db) ≤ 20)
    × All (IsOwn phone) (find_for_customer phone 10 db)
find_for_customer-IsOwn_example = find_for_customer-IsOwn phone 10 db

cancel_by_customer_atomic_example : after (cancel_by_customer 10 1001 phone none) db ≡ db
unfolding cancel_by_customer
cancel_by_customer_atomic_example = cancel_by_customer_atomic 10 1001 phone none db bad_request refl
