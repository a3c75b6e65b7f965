-- ===== src/Admin.antt =====
-- cancelOrder and setUserStatus of backend/src/admin/admin.service.ts. The log is left out.
pub mod Laws
use afrique_os.Common.{
  ℕ, ◌+◌, Bool, true, false, ◌&&◌, ◌||◌, not, Option, none, some, List, [], ◌∷◌, if◌then◌else◌,
  ◌==◌,
}
use afrique_os.Common.Int.{ℤ, pos, ◌-ℤ◌, ltb_ℤ}
use afrique_os.Common.Tables.{find_first}
use afrique_os.Database.Enums.{
  OrderStatus, UserStatus, PointReason, Role, is_paid, is_pending, is_cancelled, is_blocked,
}
use afrique_os.Database.Rows.{Text, OrderItem, Order, User, Db}
use afrique_os.Database.Action.{
  Action, Result, ok, err, pure, gets, or_throw, throw, throw_if, modify, transaction, ◌>>=◌, ◌>>◌,
  not_found, bad_request,
}
use afrique_os.Database.Calls.{
  order_or_throw, update_order, update_boutique, update_user, update_product, update_variant,
  add_points, point_transaction,
}

abbrev give_back_points : Order → Action (Unit {0})
give_back_points order = elim order.user_id [
  | none ↦ pure tt
  | some user ↦
      if ltb_ℤ (pos 0) order.points_used
      then update_user user (add_points order.points_used)
        >> modify
            (point_transaction user order.points_used PointReason.refund_on_order_cancel order.id)
      else pure tt
]

-- What is taken back is the order's total.
unfoldable pub reverse_payment : Order → Action (Unit {0})
reverse_payment order =
    if is_paid order.status
    then update_boutique order.boutique_id (λ b. record b { balance = b.balance -ℤ order.total })
      >> give_back_points order
    else pure tt

abbrev return_variant : Option ℕ → ℕ → Action (Unit {0})
return_variant none quantity = pure tt
return_variant (some variant) quantity =
    update_variant variant (λ v. record v { stock = v.stock + quantity })

abbrev return_line : OrderItem → Action (Unit {0})
return_line line = elim line.product_id [
  | none ↦ pure tt
  | some product ↦
      update_product product (λ p. record p { stock = p.stock + line.quantity })
      >> return_variant line.variant_id line.quantity
]

unfoldable pub return_stock : List OrderItem → Action (Unit {0})
return_stock [] = pure tt
return_stock (line ∷ lines) = return_line line >> return_stock lines

unfoldable pub cancel_order_transaction : Order → Text → Action Order
unfolding reverse_payment return_stock
cancel_order_transaction order reason = transaction do
  update_order order.id
      (λ o. record o { status = OrderStatus.cancelled; cancellation_reason = some reason })
  updated ← order_or_throw order.id
  reverse_payment order
  return_stock updated.items
  pure updated

unfoldable pub cancel_order : ℕ → Text → Action Order
unfolding cancel_order_transaction
cancel_order id reason = do
  found ← gets (λ db. find_first (λ o. o.id == id) db.orders)
  order ← or_throw found not_found
  throw_if (is_cancelled order.status) bad_request
  throw_if (not (is_pending order.status || is_paid order.status)) bad_request
  cancel_order_transaction order reason

abbrev is_admin : Role → Bool
is_admin Role.admin = true
is_admin _ = false

abbrev pub set_user : UserStatus → User → User
set_user status u = record u {
  status = status;
  refresh_token_hash = if is_blocked status then none else u.refresh_token_hash;
}

unfoldable pub set_user_status : ℕ → UserStatus → Action (Unit {0})
set_user_status id status = do
  found ← gets (λ db. find_first (λ u. u.id == id) db.users)
  user ← or_throw found not_found
  throw_if (is_admin user.role) bad_request
  update_user id (set_user status)
