-- ===== src/Paydunya/Settle/Balances.antt =====
-- What the settlement of an order adds to the balances.
use afrique_os.Common.{
  ℕ, ◌≡◌, ◌≢◌, refl, true, false, Option, some, List, ◌∷◌, ◌==◌, arith, ◌∙◌, sym, zero, suc, ==→eq,
}
use mathlib.Core.Path.{subst}
use afrique_os.Common.Int.{ℤ, ◌+ℤ◌, ◌*ℕ◌}
use afrique_os.Common.Tables.{find_first, count, find_first-test, find_first-count}
use afrique_os.Database.Enums.{is_paid}
use afrique_os.Database.Rows.{Order, order_paid_success, Effect, Db}
use afrique_os.Database.Action.{
  Action, ok, outcome, after, modify, continue-ok, continue-keep, pure,
}
use afrique_os.Orders.Credit.Balance.{credit-balance}
use afrique_os.Paydunya.Settle.{
  settle_credit, settle_met, settle_transaction, settle_found, settle_paid_order, unpaid,
}
use afrique_os.Paydunya.Settle.Credit.{settle_credit-credit_seller}
use afrique_os.Paydunya.Settle.Once.{shop_of, mark, rolled}
use afrique_os.Orders.Payment.Credited.{balances, due}

module _ (to_fixed : ℤ → ℕ → ℤ) (tx now new_id : ℕ) where
  abbrev raised : Order → Db → ℤ
  raised o db =
      balances db +ℤ due to_fixed 0 0 o db *ℕ count (λ b. b.id == o.boutique_id) db.boutiques

  credit-balances :
      (o : Order) (db : Db)
      → (settle_credit to_fixed (shop_of to_fixed tx now new_id o db) o new_id db).0 ≡ ok tt
      → balances (settle_credit to_fixed (shop_of to_fixed tx now new_id o db) o new_id db).1
        ≡ raised o db
  credit-balances o db =
      rw (settle_credit-credit_seller to_fixed o new_id db) (credit-balance to_fixed o new_id db)

  met-balances :
      (met : ℕ) (o : Order) (db : Db)
      → met ≢ 0
      → (settle_met to_fixed met (shop_of to_fixed tx now new_id o db) o new_id db).0 ≡ ok tt
      → balances (settle_met to_fixed met (shop_of to_fixed tx now new_id o db) o new_id db).1
        ≡ raised o db
  unfolding settle_met
  met-balances zero o db n h = absurd (n refl)
  met-balances (suc met) o db n h =
      let r = settle_credit to_fixed (shop_of to_fixed tx now new_id o db) o new_id db in
      let told : Unit {0} → Action (Unit {0}) =
        λ _. modify (λ d. record d { effects = Effect.payment_notice o.reference ∷ d.effects }) in
      let (u, e, rest) = continue-ok r told h in
      continue-keep balances r told (λ _ _. refl) ∙ credit-balances o db e

  settle_transaction-balances :
      (o : Order) (db : Db)
      → count (unpaid o.id) db.orders ≢ 0
      → outcome
          (settle_transaction to_fixed (shop_of to_fixed tx now new_id o db) o tx now new_id)
          db
        ≡ ok tt
      → balances (
          after
            (settle_transaction to_fixed (shop_of to_fixed tx now new_id o db) o tx now new_id)
            db)
        ≡ raised o db
  unfolding settle_transaction
  settle_transaction-balances o db n h =
      rolled to_fixed tx now new_id db
        (settle_met to_fixed (count (unpaid o.id) db.orders) (shop_of to_fixed tx now new_id o db) o
          new_id (mark to_fixed tx now new_id o.id db))
        (λ d. balances d ≡ raised o db) h
        (met-balances (count (unpaid o.id) db.orders) o (mark to_fixed tx now new_id o.id db) n)

  still_unpaid :
      (id : ℕ) (o : Order) (orders : List Order)
      → find_first (λ x. x.id == id) orders ≡ some o
      → is_paid o.status ≡ false
      → count (unpaid o.id) orders ≢ 0
  still_unpaid id o orders e p n =
      let same = ==→eq o.id id (find_first-test (λ x. x.id == id) orders e) in
      cc (
        find_first-count (unpaid o.id) (λ x. x.id == id) orders n e,
        (let t : unpaid o.id o ≡ true = ground arith in t),
      )

  found-balances :
      (id : ℕ) (db : Db) (o : Order)
      → find_first (λ x. x.id == id) db.orders ≡ some o
      → is_paid o.status ≡ false
      → (settle_found to_fixed (some o) tx now new_id db).0 ≡ ok (some order_paid_success)
      → balances (settle_found to_fixed (some o) tx now new_id db).1 ≡ raised o db
  unfolding settle_found
  found-balances id db o e p h =
      let r =
        settle_transaction to_fixed (shop_of to_fixed tx now new_id o db) o tx now new_id db in
      let (u, t, _) = continue-ok r (λ _. pure (some order_paid_success)) (rw p at h) in
      rw p (
        continue-keep balances r (λ _. pure (some order_paid_success)) (λ _ _. refl)
        ∙ settle_transaction-balances o db (still_unpaid id o db.orders e p) t)

  -- A settlement that goes through adds what the order is due to the balances, once for each row of
  -- its shop, whatever the status of the order was, PAID excepted: also where it was cancelled, on
  -- its way, or delivered.
  pub settle-balances :
      (id : ℕ) (reference : Option ℕ) (db : Db) (o : Order)
      → find_first (λ x. x.id == id) db.orders ≡ some o
      → is_paid o.status ≡ false
      → outcome (settle_paid_order to_fixed (some id) reference tx now new_id) db
        ≡ ok (some order_paid_success)
      → balances (after (settle_paid_order to_fixed (some id) reference tx now new_id) db)
        ≡ raised o db
  unfolding settle_paid_order
  settle-balances id reference db o e p h =
      subst (λ x. balances (settle_found to_fixed x tx now new_id db).1 ≡ raised o db) (sym e)
        (found-balances id db o e p (
          subst (λ x. (settle_found to_fixed x tx now new_id db).0 ≡ ok (some order_paid_success)) e
            h))
