-- ===== src/Orders/Cancel.antt =====
-- cancelByCustomer of backend/src/orders/orders.service.ts.
pub mod Restock
pub mod Balance
pub mod Atomic
use afrique_os.Common.{
  ℕ, zero, suc, ◌+◌, Bool, true, false, ◌&&◌, ◌||◌, not, Option, none, some, List, [], ◌∷◌,
  if◌then◌else◌, ◌==◌,
}
use afrique_os.Common.Int.{ℤ, pos, ◌+ℤ◌, ◌-ℤ◌, ◌*ℕ◌, ltb_ℤ}
use afrique_os.Common.Tables.{find_first, update_many, count}
use afrique_os.Common.Text.{trim, is_empty}
use afrique_os.Phone.{phone_match_clause}
use afrique_os.Database.Enums.{
  OrderStatus, SettlementStatus, PointReason, is_paid, is_pending, is_cancelled,
}
use afrique_os.Database.Rows.{Text, OrderItem, Order, Effect, Db}
use afrique_os.Database.Action.{
  Action, ok, err, pure, gets, or_throw, throw, throw_if, modify, transaction, ◌>>=◌, ◌>>◌,
  not_found, bad_request,
}
use afrique_os.Database.Calls.{
  order_or_throw, update_boutique, update_user, update_product, update_variant, add_points,
  point_transaction,
}
use afrique_os.Orders.View.{OrderView, to_order_view}

abbrev pub cancellable : OrderStatus → Bool
cancellable status = is_pending status || is_paid status

abbrev keep_reason : Option Text → Option Text → Option Text
keep_reason none old = old
keep_reason (some reason) old = if is_empty (trim reason) then old else some (trim reason)

abbrev pub still_cancellable : ℕ → ℕ → Order → Bool
still_cancellable boutique id o = o.id == id && o.boutique_id == boutique && cancellable o.status

abbrev pub set_cancelled : Option Text → Order → Order
set_cancelled reason o = record o {
  status = OrderStatus.cancelled;
  cancellation_reason = keep_reason reason o.cancellation_reason;
}

-- What was credited when the order was paid: the net amount, where the commission is known.
unfoldable pub credited : Order → ℤ
credited order = elim order.commission_amount [
  | none ↦ order.total
  | some commission ↦ order.total +ℤ order.points_used *ℕ 100 -ℤ commission
]

abbrev cancel_allocations : ℕ → Db → Db
cancel_allocations id db = record db {
  allocations =
      update_many (λ a. a.order_id == id) (λ a. record a { status = SettlementStatus.cancelled })
        db.allocations;
}

abbrev return_points : Option ℕ → ℤ → ℕ → Action (Unit {0})
return_points none points order = pure tt
return_points (some user) points order =
    if ltb_ℤ (pos 0) points
    then update_user user (add_points points)
      >> modify (point_transaction user points PointReason.refund_on_order_cancel order)
    else pure tt

-- Of a paid order the seller's credit is taken back, and the buyer's points are given back.
unfoldable pub undo_payment : ℕ → Order → Action (Unit {0})
unfolding credited
undo_payment boutique order =
    if is_paid order.status
    then (do
      update_boutique boutique (λ b. record b { balance = b.balance -ℤ credited order })
      modify (cancel_allocations order.id)
      return_points order.user_id order.points_used order.id)
    else pure tt

abbrev add_variant_stock : Option ℕ → ℕ → Action (Unit {0})
add_variant_stock none quantity = pure tt
add_variant_stock (some variant) quantity =
    update_variant variant (λ v. record v { stock = v.stock + quantity })

abbrev restock_line : OrderItem → Action (Unit {0})
restock_line line = elim line.product_id [
  | none ↦ pure tt
  | some product ↦
      update_product product (λ p. record p { stock = p.stock + line.quantity })
      >> add_variant_stock line.variant_id line.quantity
]

unfoldable pub restock : List OrderItem → Action (Unit {0})
restock [] = pure tt
restock (line ∷ lines) = restock_line line >> restock lines

cancel_met : ℕ → ℕ → Order → Action Order
cancel_met zero boutique order = throw bad_request
cancel_met (suc met) boutique order = do
  updated ← order_or_throw order.id
  undo_payment boutique order
  restock updated.items
  pure updated

unfoldable pub cancel_transaction : ℕ → Option Text → Order → Action Order
unfolding cancel_met undo_payment restock
cancel_transaction boutique reason order = transaction do
  met ← gets (λ db. count (still_cancellable boutique order.id) db.orders)
  modify (λ db. record db {
    orders = update_many (still_cancellable boutique order.id) (set_cancelled reason) db.orders;
  })
  cancel_met met boutique order

-- The notice to the seller, and the answer.
unfoldable pub told_cancelled : Order → Action OrderView
unfolding to_order_view
told_cancelled cancelled = do
  modify (λ db. record db { effects = Effect.cancellation_notice cancelled.reference ∷ db.effects })
  pure (to_order_view cancelled)

unfoldable pub cancel_by_customer : ℕ → ℕ → Text → Option Text → Action OrderView
unfolding cancel_transaction phone_match_clause told_cancelled
cancel_by_customer boutique id phone reason = do
  found ← gets (λ db.
      find_first
        (λ o. o.id == id && o.boutique_id == boutique && phone_match_clause phone o.customer_phone)
        db.orders)
  order ← or_throw found not_found
  throw_if (is_cancelled order.status) bad_request
  throw_if (not (cancellable order.status)) bad_request
  cancelled ← cancel_transaction boutique reason order
  told_cancelled cancelled
