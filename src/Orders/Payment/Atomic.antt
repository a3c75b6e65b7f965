-- ===== src/Orders/Payment/Atomic.antt =====
-- What a refused confirmation leaves, and who may confirm.
use afrique_os.Common.{ℕ, ◌≡◌, true, ◌&&◌, Option, ◌==◌, arith, any}
use afrique_os.Common.Int.{ℤ}
use afrique_os.Common.Tables.{any-find_first, count}
use afrique_os.Database.Rows.{Text, Db}
use afrique_os.Database.Action.{ok, err, outcome, after, HttpError, transaction_atomic}
use afrique_os.Orders.Payment.{
  payable, mark_paid, settle_transition, confirm_transaction, confirm_payment, is_owner,
}
use afrique_os.Orders.View.{OrderView}

module _ (to_fixed : ℤ → ℕ → ℤ) where
  confirm_transaction_atomic :
      (boutique id now : ℕ) (ref : Option ℕ) (new_id : ℕ) (db : Db) (e : HttpError)
      → outcome (confirm_transaction to_fixed boutique id now ref new_id) db ≡ err e
      → after (confirm_transaction to_fixed boutique id now ref new_id) db ≡ db
  unfolding confirm_transaction
  confirm_transaction_atomic boutique id now ref new_id db e h =
      transaction_atomic
        (λ d.
          settle_transition to_fixed (count (payable boutique id) d.orders) id new_id
            (mark_paid boutique id now ref d))
        db h

  -- A confirmation that is refused, for whatever reason, changes nothing.
  pub confirm_payment_atomic :
      (boutique id : ℕ) (phone : Option Text) (ref user : Option ℕ) (now new_id : ℕ) (db : Db)
      (e : HttpError)
      → outcome (confirm_payment to_fixed boutique id phone ref user now new_id) db ≡ err e
      → after (confirm_payment to_fixed boutique id phone ref user now new_id) db ≡ db
  unfolding confirm_payment
  confirm_payment_atomic boutique id phone ref user now new_id db e h =
      ground (arith, confirm_transaction_atomic boutique id now ref new_id db)

  -- A confirmation is answered only where the shop has an order of that identifier that belongs to
  -- the caller: to the connected buyer, or to a visitor who gives the telephone of the order.
  pub confirm_payment_owner :
      (boutique id : ℕ) (phone : Option Text) (ref user : Option ℕ) (now new_id : ℕ) (db : Db)
      (v : OrderView)
      → outcome (confirm_payment to_fixed boutique id phone ref user now new_id) db ≡ ok v
      → any (λ o. o.id == id && o.boutique_id == boutique && is_owner user phone o) db.orders ≡ true
  unfolding confirm_payment
  confirm_payment_owner boutique id phone ref user now new_id db v h = ground (
    arith,
    any-find_first (λ o. o.id == id && o.boutique_id == boutique && is_owner user phone o)
        db.orders,
  )
