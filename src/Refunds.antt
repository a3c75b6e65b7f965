-- ===== src/Refunds.antt =====
-- backend/src/refunds/refunds.service.ts: a buyer's request for a refund, the seller's reply and the
-- administrator's decision. The texts of a request are left out.
pub mod Laws
use afrique_os.Common.{
  ℕ, Bool, true, false, ◌&&◌, ◌||◌, not, Option, none, some, List, [], ◌∷◌, if◌then◌else◌, ◌==◌,
  any, is_id,
}
use afrique_os.Common.Int.{ℤ, pos, ◌-ℤ◌, ltb_ℤ}
use afrique_os.Common.Tables.{find_first, find_many, update_many}
use afrique_os.Database.Enums.{
  OrderStatus, SettlementStatus, RefundStatus, is_paid, is_delivered, is_seller, is_refunded,
}
use afrique_os.Database.Rows.{Boutique, Order, Allocation, RefundRequest, Db}
use afrique_os.Database.Action.{
  Action, Result, ok, err, pure, gets, or_throw, throw, throw_if, modify, transaction, ◌>>=◌, ◌>>◌,
  not_found, bad_request,
}
use afrique_os.Database.Calls.{update_boutique, update_found}

-- The statuses of the money that has not left yet.
abbrev pub is_unreleased : SettlementStatus → Bool
is_unreleased SettlementStatus.pending_payment = true
is_unreleased SettlementStatus.awaiting_delivery_verification = true
is_unreleased SettlementStatus.awaiting_buyer_conformity = true
is_unreleased SettlementStatus.eligible_for_release = true
is_unreleased _ = false

abbrev pub seller_part : ℕ → Allocation → Bool
seller_part order a = a.order_id == order && is_seller a.beneficiary_type

abbrev pub freezable : ℕ → Allocation → Bool
freezable order a = seller_part order a && is_unreleased a.status

abbrev pub freeze : Allocation → Allocation
freeze a = record a { status = SettlementStatus.on_hold_dispute }

unfoldable pub create_request : ℕ → ℕ → ℕ → Action RefundRequest
create_request client order_id new_id = do
  found ← gets (λ db. find_first (λ o. o.id == order_id && is_id o.user_id client) db.orders)
  order ← or_throw found not_found
  throw_if (not (is_paid order.status || is_delivered order.status)) bad_request
  existing ← gets (λ db. any (λ r. r.order_id == order_id) db.refunds)
  throw_if existing bad_request
  let created : RefundRequest = record {
    id = new_id;
    order_id = order_id;
    client_id = client;
    boutique_id = order.boutique_id;
    status = RefundStatus.pending;
  }
  modify (λ db. record db {
    refunds = created ∷ db.refunds;
    allocations = update_many (freezable order_id) freeze db.allocations;
  })
  pure created

abbrev is_waiting : RefundStatus → Bool
is_waiting RefundStatus.pending = true
is_waiting _ = false

abbrev pub is_decided : RefundStatus → Bool
is_decided RefundStatus.approved = true
is_decided RefundStatus.rejected = true
is_decided _ = false

abbrev pub set_refund : ℕ → RefundStatus → Db → Db
set_refund id status db = record db {
  refunds = update_many (λ r. r.id == id) (λ r. record r { status = status }) db.refunds;
}

unfoldable pub vendor_reply : ℕ → ℕ → Action (Unit {0})
vendor_reply boutique id = do
  found ← gets (λ db. find_first (λ r. r.id == id && r.boutique_id == boutique) db.refunds)
  r ← or_throw found not_found
  throw_if (not (is_waiting r.status)) bad_request
  modify (set_refund id RefundStatus.vendor_replied)

abbrev pub refundable : ℕ → Allocation → Bool
refundable order a = seller_part order a && not (is_refunded a.status)

-- `if (deduction > 0 && …) balance: { decrement: deduction }`
abbrev pub deduct : ℕ → ℤ → Action (Unit {0})
deduct boutique amount =
    if ltb_ℤ (pos 0) amount
    then update_boutique boutique (λ b. record b { balance = b.balance -ℤ amount })
    else pure tt

unfoldable pub deduct_all : List Allocation → Action (Unit {0})
deduct_all [] = pure tt
deduct_all (a ∷ rest) = deduct a.beneficiary_id a.net_amount >> deduct_all rest

abbrev net_or_nothing : Option ℤ → ℤ
net_or_nothing none = pos 0
net_or_nothing (some n) = n

unfoldable pub deduct_order : Option Order → ℕ → Action (Unit {0})
deduct_order none boutique = pure tt
deduct_order (some o) boutique = deduct boutique (net_or_nothing o.net_amount)

-- The seller's allocations are refunded and their net amounts taken back; where there is none, the
-- net amount of the order is.
unfoldable pub take_back : List Allocation → Option Order → RefundRequest → Action (Unit {0})
unfolding deduct_all deduct_order
take_back [] order r = deduct_order order r.boutique_id
take_back (a ∷ rest) order r =
    modify (λ db. record db {
      allocations =
          update_many (refundable r.order_id) (λ a. record a { status = SettlementStatus.refunded })
            db.allocations;
    })
    >> deduct_all (a ∷ rest)

unfoldable pub decide_transaction : Bool → Option Order → RefundRequest → Action (Unit {0})
unfolding take_back
decide_transaction approve order r = transaction do
  modify (set_refund r.id (if approve then RefundStatus.approved else RefundStatus.rejected))
  parts ← gets (λ db. find_many (refundable r.order_id) db.allocations)
  if approve then take_back parts order r else pure tt

unfoldable pub admin_decide : ℕ → Bool → Action (Unit {0})
unfolding decide_transaction
admin_decide id approve = do
  found ← gets (λ db. find_first (λ r. r.id == id) db.refunds)
  r ← or_throw found not_found
  throw_if (is_decided r.status) bad_request
  order ← gets (λ db. find_first (λ o. o.id == r.order_id) db.orders)
  decide_transaction approve order r
