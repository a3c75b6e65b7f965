-- ===== src/Orders/Payment.antt =====
-- confirmPayment of backend/src/orders/orders.service.ts. The order that the transaction works on
-- was read before it began: `confirm_transaction` is a step of its own, so that calls can interleave.
pub mod Once
pub mod Atomic
pub mod Credited
use afrique_os.Common.{
  ℕ, zero, suc, Bool, true, false, ◌&&◌, not, Option, none, some, ◌∷◌, if◌then◌else◌, ◌==◌, is_id,
}
use afrique_os.Common.Int.{ℤ}
use afrique_os.Common.Tables.{find_first, update_many, count}
use afrique_os.Common.Text.{is_empty}
use afrique_os.Phone.{phone_match_clause}
use afrique_os.Database.Enums.{OrderStatus, is_paid, is_pending}
use afrique_os.Database.Rows.{Text, Order, Effect, Db}
use afrique_os.Database.Action.{
  Action, ok, err, pure, gets, or_throw, throw, throw_if, modify, transaction, ◌>>=◌, ◌>>◌,
  not_found, bad_request,
}
use afrique_os.Database.Calls.{order_or_throw}
use afrique_os.Orders.Credit.{credit_seller_for_paid_order}
use afrique_os.Orders.View.{OrderView, to_order_view}

-- A connected buyer is known by the token, a visitor by the telephone of the order.
unfoldable pub is_owner : Option ℕ → Option Text → Order → Bool
unfolding phone_match_clause
is_owner (some user) phone o = is_id o.user_id user
is_owner none (some phone) o = not (is_empty phone) && phone_match_clause phone o.customer_phone
is_owner none none o = false

-- `updateMany … where id, boutiqueId, status: PENDING`, with the number of rows that it met.
abbrev pub payable : ℕ → ℕ → Order → Bool
payable boutique id o = o.id == id && o.boutique_id == boutique && is_pending o.status

abbrev pub set_paid : ℕ → Option ℕ → Order → Order
set_paid now ref o = record o {
  status = OrderStatus.paid;
  paid_at = some now;
  payment_ref = elim ref [ none ↦ o.payment_ref | some r ↦ some r ];
}

abbrev pub mark_paid : ℕ → ℕ → ℕ → Option ℕ → Db → Db
mark_paid boutique id now ref db = record db {
  orders = update_many (payable boutique id) (set_paid now ref) db.orders;
}

module _ (to_fixed : ℤ → ℕ → ℤ) where
  -- What follows the conditional update: an answer without credit where no row was met.
  unfoldable pub settle_transition : ℕ → ℕ → ℕ → Action Order
  settle_transition zero id new_id = order_or_throw id
  settle_transition (suc met) id new_id = do
    paid ← order_or_throw id
    credit_seller_for_paid_order to_fixed paid new_id
    pure paid

  unfoldable pub confirm_transaction : ℕ → ℕ → ℕ → Option ℕ → ℕ → Action Order
  unfolding settle_transition
  confirm_transaction boutique id now ref new_id = transaction do
    met ← gets (λ db. count (payable boutique id) db.orders)
    modify (mark_paid boutique id now ref)
    settle_transition met id new_id

  unfoldable pub confirm_payment :
      ℕ → ℕ → Option Text → Option ℕ → Option ℕ → ℕ → ℕ → Action OrderView
  unfolding confirm_transaction to_order_view is_owner
  confirm_payment boutique id phone ref user now new_id = do
    found ← gets (λ db.
        find_first (λ o. o.id == id && o.boutique_id == boutique && is_owner user phone o)
          db.orders)
    order ← or_throw found not_found
    if is_paid order.status then (do again ← order_or_throw id; pure (to_order_view again)) else (do
      throw_if (not (is_pending order.status)) bad_request
      updated ← confirm_transaction boutique id now ref new_id
      modify (λ db. record db { effects = Effect.payment_notice updated.reference ∷ db.effects })
      pure (to_order_view updated))
