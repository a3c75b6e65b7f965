-- ===== src/Orders/Status.antt =====
-- updateStatus of backend/src/orders/orders.service.ts: the seller moves an order along.
pub mod Step
pub mod Progress
pub mod Laws
use afrique_os.Common.{
  ℕ, zero, suc, Bool, true, false, ◌&&◌, ◌||◌, not, Option, none, some, ◌∷◌, if◌then◌else◌, ◌==◌,
}
use afrique_os.Common.Int.{ℤ}
use afrique_os.Common.Tables.{find_first, update_many, count}
use afrique_os.Common.Text.{is_empty}
use afrique_os.Database.Enums.{OrderStatus, is_paid, is_pending, is_shipping, is_delivered}
use afrique_os.Database.Rows.{Text, Order, Effect, Db}
use afrique_os.Database.Action.{
  Action, ok, err, pure, gets, or_throw, throw, throw_if, modify, transaction, ◌>>=◌, ◌>>◌,
  not_found, bad_request,
}
use afrique_os.Database.Calls.{order_or_throw, update_order}
use afrique_os.Orders.Credit.{credit_seller_for_paid_order}
use afrique_os.Orders.View.{OrderView, to_order_view}

-- The table `validTransitions`.
unfoldable pub is_valid_transition : OrderStatus → OrderStatus → Bool
is_valid_transition OrderStatus.pending OrderStatus.paid = true
is_valid_transition OrderStatus.pending OrderStatus.shipping = true
is_valid_transition OrderStatus.pending OrderStatus.delivered = true
is_valid_transition OrderStatus.pending OrderStatus.cancelled = true
is_valid_transition OrderStatus.paid OrderStatus.shipping = true
is_valid_transition OrderStatus.paid OrderStatus.delivered = true
is_valid_transition OrderStatus.paid OrderStatus.cancelled = true
is_valid_transition OrderStatus.whatsapp_confirmed OrderStatus.shipping = true
is_valid_transition OrderStatus.whatsapp_confirmed OrderStatus.delivered = true
is_valid_transition OrderStatus.whatsapp_confirmed OrderStatus.cancelled = true
is_valid_transition OrderStatus.shipping OrderStatus.delivered = true
is_valid_transition OrderStatus.shipping OrderStatus.cancelled = true
is_valid_transition _ _ = false

abbrev pub same_status : OrderStatus → OrderStatus → Bool
same_status OrderStatus.pending OrderStatus.pending = true
same_status OrderStatus.paid OrderStatus.paid = true
same_status OrderStatus.whatsapp_confirmed OrderStatus.whatsapp_confirmed = true
same_status OrderStatus.shipping OrderStatus.shipping = true
same_status OrderStatus.delivered OrderStatus.delivered = true
same_status OrderStatus.cancelled OrderStatus.cancelled = true
same_status _ _ = false

-- Whether the courier's contact is given; an empty text does not count.
abbrev pub has_contact : Option Text → Bool
has_contact none = false
has_contact (some t) = not (is_empty t)

abbrev pub set_status : OrderStatus → Option Text → Order → Order
set_status status contact o = record o {
  status = status;
  delivery_contact = if has_contact contact then contact else o.delivery_contact;
}

abbrev pub still_pending : ℕ → Order → Bool
still_pending id o = o.id == id && is_pending o.status

-- The messages to the client and the entry in the log.
unfoldable pub announce : OrderStatus → OrderStatus → ℕ → Db → Db
announce old new id db = record db {
  effects =
      Effect.audit_log id old new
      ∷ (if is_shipping new || is_delivered new
          then Effect.courier_message id ∷ db.effects
          else db.effects);
}

module _ (to_fixed : ℤ → ℕ → ℤ) where
  unfoldable pub pay_transition : ℕ → ℕ → ℕ → Action Order
  pay_transition zero id new_id = throw bad_request
  pay_transition (suc met) id new_id = do
    paid ← order_or_throw id
    credit_seller_for_paid_order to_fixed paid new_id
    pure paid

  unfoldable pub mark_paid_by_seller : ℕ → Option Text → ℕ → Action Order
  unfolding pay_transition
  mark_paid_by_seller id contact new_id = transaction do
    met ← gets (λ db. count (still_pending id) db.orders)
    modify (λ db. record db {
      orders = update_many (still_pending id) (set_status OrderStatus.paid contact) db.orders;
    })
    pay_transition met id new_id

  unfoldable pub change_status : Order → OrderStatus → Option Text → ℕ → Action Order
  unfolding mark_paid_by_seller
  change_status order status contact new_id =
      if is_paid status && is_pending order.status
      then mark_paid_by_seller order.id contact new_id
      else (do update_order order.id (set_status status contact); order_or_throw order.id)

  unfoldable pub move_order : Order → OrderStatus → Option Text → ℕ → Action OrderView
  unfolding is_valid_transition announce to_order_view
  move_order order status contact new_id =
      if same_status order.status status then pure (to_order_view order) else (do
        throw_if (not (is_valid_transition order.status status)) bad_request
        throw_if (is_shipping status && not (has_contact contact)) bad_request
        updated ← change_status order status contact new_id
        modify (announce order.status status order.id)
        pure (to_order_view updated))

  unfoldable pub update_status : ℕ → ℕ → OrderStatus → Option Text → ℕ → Action OrderView
  unfolding move_order
  update_status boutique id status contact new_id = do
    found ← gets (λ db. find_first (λ o. o.id == id && o.boutique_id == boutique) db.orders)
    order ← or_throw found not_found
    move_order order status contact new_id

-- remindPayment: a reminder only while the order waits for its payment.
unfoldable pub remind_payment : ℕ → ℕ → Action (Unit {0})
remind_payment boutique id = do
  found ← gets (λ db. find_first (λ o. o.id == id && o.boutique_id == boutique) db.orders)
  order ← or_throw found not_found
  throw_if (not (is_pending order.status)) bad_request
  modify (λ db. record db { effects = Effect.reminder_message order.id ∷ db.effects })
