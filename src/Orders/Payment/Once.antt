-- ===== src/Orders/Payment/Once.antt =====
-- However often and in whatever order the confirmations of one payment arrive, one of them counts.
use afrique_os.Common.{ℕ, zero, suc, ◌≡◌, refl, Option, none, some, List, [], ◌∷◌, ◌==◌, arith, ◌∙◌}
use afrique_os.Common.Int.{ℤ}
use afrique_os.Common.Tables.{
  count, find_first, update_many-none, count-update_many, count-update_many_out,
}
use afrique_os.Database.Rows.{Order, Db}
use afrique_os.Database.Action.{
  Action, Result, ok, err, outcome, after, continue-ok, roll_back, roll_back-keep, continue,
  continue-keep, or_throw, or_throw-after, record_missing, ◌>>◌, pure,
}
use afrique_os.Orders.Credit.{credit_seller_for_paid_order}
use afrique_os.Orders.Credit.Balance.{credit-orders}
use afrique_os.Orders.Payment.{payable, set_paid, mark_paid, settle_transition, confirm_transaction}

module _ (to_fixed : ℤ → ℕ → ℤ) (boutique id : ℕ) where
  -- One confirmation after another; each has its own time, reference and fresh identifier.
  pub confirm_all : List (ℕ × Option ℕ × ℕ) → Db → Db
  confirm_all [] db = db
  confirm_all ((now, ref, new_id) ∷ rest) db =
      confirm_all rest (after (confirm_transaction to_fixed boutique id now ref new_id) db)

  pub confirm_transaction_lem :
      (now : ℕ) (ref : Option ℕ) (new_id : ℕ) (db : Db)
      → confirm_transaction to_fixed boutique id now ref new_id db
        ≡ roll_back db (
            settle_transition to_fixed
              (count (payable boutique id) db.orders)
              id
              new_id
              (mark_paid boutique id now ref db))
  unfolding confirm_transaction
  confirm_transaction_lem now ref new_id db = refl

  not_met : (new_id : ℕ) (db : Db) → (settle_transition to_fixed 0 id new_id db).1 ≡ db
  unfolding settle_transition
  not_met new_id db = or_throw-after (find_first (λ o. o.id == id) db.orders) record_missing db

  pub confirm_again :
      (now : ℕ) (ref : Option ℕ) (new_id : ℕ) (db : Db)
      → count (payable boutique id) db.orders ≡ 0
      → after (confirm_transaction to_fixed boutique id now ref new_id) db ≡ db
  confirm_again now ref new_id db h =
      rw (after, confirm_transaction_lem, h)
        (rw (update_many-none (payable boutique id) (set_paid now ref) db.orders h)
          (roll_back-keep (λ d. d) db _ λ _ _. not_met new_id db))

  -- The credit keeps the status of every order.
  credited_count :
      (paid : Order) (new_id : ℕ) (db : Db)
      → outcome (credit_seller_for_paid_order to_fixed paid new_id) db ≡ ok tt
      → count
          (payable boutique id)
          (after (credit_seller_for_paid_order to_fixed paid new_id) db).orders
        ≡ count (payable boutique id) db.orders
  credited_count paid new_id db h =
      rw (credit-orders to_fixed paid new_id db h)
        (count-update_many (payable boutique id) (λ o. o.id == paid.id) _ db.orders (λ o. refl))

  abbrev pub paying : ℕ → Order → Action Order
  paying new_id paid = credit_seller_for_paid_order to_fixed paid new_id >> pure paid

  met_count :
      (new_id met : ℕ) (db : Db) (o : Order)
      → (settle_transition to_fixed (suc met) id new_id db).0 ≡ ok o
      → count (payable boutique id) (settle_transition to_fixed (suc met) id new_id db).1.orders
        ≡ count (payable boutique id) db.orders
  unfolding settle_transition
  met_count new_id met db o h = paid_count (find_first (λ x. x.id == id) db.orders) h
    where
      paid_count :
          (found : Option Order)
          → (continue (or_throw found record_missing db) (paying new_id)).0 ≡ ok o
          → count
              (payable boutique id)
              (continue (or_throw found record_missing db) (paying new_id)).1.orders
            ≡ count (payable boutique id) db.orders
      paid_count none h = cc
      paid_count (some paid) h =
          let (t, e, rest) =
            continue-ok (credit_seller_for_paid_order to_fixed paid new_id db) (λ _. pure paid) h in
          continue-keep (λ d. count (payable boutique id) d.orders)
            (credit_seller_for_paid_order to_fixed paid new_id db) (λ _. pure paid) (λ _ _. refl)
          ∙ credited_count paid new_id db e

  marked_count :
      (now : ℕ) (ref : Option ℕ) (db : Db)
      → count (payable boutique id) (mark_paid boutique id now ref db).orders ≡ 0
  marked_count now ref db =
      count-update_many_out (payable boutique id) (set_paid now ref) db.orders (λ o. ground arith)

  rolled_count :
      (db : Db) (r : Result Order × Db) (o : Order)
      → (roll_back db r).0 ≡ ok o
      → (r.0 ≡ ok o → count (payable boutique id) r.1.orders ≡ 0)
      → count (payable boutique id) (roll_back db r).1.orders ≡ 0
  rolled_count db (ok a, d) o h k = k h
  rolled_count db (err e, d) o h k = cc

  settled_count :
      (met new_id : ℕ) (db : Db) (o : Order)
      → count (payable boutique id) db.orders ≡ 0
      → (settle_transition to_fixed met id new_id db).0 ≡ ok o
      → count (payable boutique id) (settle_transition to_fixed met id new_id db).1.orders ≡ 0
  settled_count zero new_id db o h k = rw (not_met new_id db) h
  settled_count (suc met) new_id db o h k = met_count new_id met db o k ∙ h

  -- After a confirmation that went through, the order no longer waits for its payment.
  confirmed_count :
      (now : ℕ) (ref : Option ℕ) (new_id : ℕ) (db : Db) (o : Order)
      → outcome (confirm_transaction to_fixed boutique id now ref new_id) db ≡ ok o
      → count
          (payable boutique id)
          (after (confirm_transaction to_fixed boutique id now ref new_id) db).orders
        ≡ 0
  confirmed_count now ref new_id db o h =
      rw (after, confirm_transaction_lem)
        (rolled_count db _ o (rw (outcome, confirm_transaction_lem) at h) (
          settled_count (count (payable boutique id) db.orders) new_id
            (mark_paid boutique id now ref db) o (marked_count now ref db)))

  confirm_all_idle :
      (calls : List (ℕ × Option ℕ × ℕ)) (db : Db)
      → count (payable boutique id) db.orders ≡ 0
      → confirm_all calls db ≡ db
  unfolding confirm_all
  confirm_all_idle [] db h = refl
  confirm_all_idle ((now, ref, new_id) ∷ rest) db h =
      rw (confirm_again now ref new_id db h) (confirm_all_idle rest db h)

  -- Once a confirmation of an order has gone through, any further confirmations of it, with
  -- whatever times and references, leave the whole database as it is: nothing is credited twice.
  pub confirm_once :
      (now : ℕ) (ref : Option ℕ) (new_id : ℕ) (calls : List (ℕ × Option ℕ × ℕ)) (db : Db)
      (o : Order)
      → outcome (confirm_transaction to_fixed boutique id now ref new_id) db ≡ ok o
      → confirm_all calls (after (confirm_transaction to_fixed boutique id now ref new_id) db)
        ≡ after (confirm_transaction to_fixed boutique id now ref new_id) db
  confirm_once now ref new_id calls db o h =
      confirm_all_idle calls _ (confirmed_count now ref new_id db o h)
