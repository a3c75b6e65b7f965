-- ===== src/Paydunya/Settle/Once.antt =====
-- What the settlement of an order does to its row, and what a second one does.
use afrique_os.Common.{
  ℕ, ◌≡◌, refl, Bool, true, false, Option, none, some, ◌∷◌, ◌==◌, arith, ◌∙◌, ap, sym, zero, suc,
  inl, inr, Bool-cases, ltb, any, ==→eq,
}
use mathlib.Core.Path.{subst}
use afrique_os.Common.Int.{ℤ}
use afrique_os.Common.Tables.{
  find_first, count, update_many, count-update_many, count-update_many_out, any-count,
  any-find_first, is_some, find_first-test, find_first-count,
}
use afrique_os.Database.Enums.{is_paid}
use afrique_os.Database.Rows.{
  Boutique, Order, Body, order_paid_success, order_already_paid, Effect, Db,
}
use afrique_os.Database.Action.{
  Action, Result, ok, err, outcome, after, modify, continue-ok, continue-keep, roll_back, pure,
}
use afrique_os.Database.Enums.{Plan}
use afrique_os.Orders.Credit.{trace_on_order, gross_total}
use afrique_os.Orders.Credit.Balance.{credit-orders}
use afrique_os.Paydunya.Settle.{
  settle_credit, settle_met, settle_transaction, settle_found, settle_paid_order, unpaid,
  set_paid_by_paydunya,
}
use afrique_os.Paydunya.Settle.Credit.{settle_credit-credit_seller}

module _ (to_fixed : ℤ → ℕ → ℤ) (tx now new_id : ℕ) where
  abbrev pub shop_of : Order → Db → Option Boutique
  shop_of o db = find_first (λ b. b.id == o.boutique_id) db.boutiques

  abbrev pub mark : ℕ → Db → Db
  mark id db = record db {
    orders = update_many (unpaid id) (set_paid_by_paydunya tx now) db.orders;
  }

  -- A test of orders that the credit does not touch.
  credit-count :
      (q : Order → Bool) (o : Order) (db : Db)
      → ((x : Order) → (p : Plan × ℕ) → q (trace_on_order to_fixed (gross_total o) p.0 p.1 x) ≡ q x)
      → (settle_credit to_fixed (shop_of o db) o new_id db).0 ≡ ok tt
      → count q (settle_credit to_fixed (shop_of o db) o new_id db).1.orders ≡ count q db.orders
  credit-count q o db same = rw (settle_credit-credit_seller to_fixed o new_id db) (λ h.
      rw (credit-orders to_fixed o new_id db h)
        (count-update_many q (λ x. x.id == o.id) _ db.orders (λ x. same x _)))

  met-count :
      (q : Order → Bool) (met : ℕ) (o : Order) (db : Db)
      → ((x : Order) → (p : Plan × ℕ) → q (trace_on_order to_fixed (gross_total o) p.0 p.1 x) ≡ q x)
      → (settle_met to_fixed met (shop_of o db) o new_id db).0 ≡ ok tt
      → count q (settle_met to_fixed met (shop_of o db) o new_id db).1.orders ≡ count q db.orders
  unfolding settle_met
  met-count q zero o db same h = refl
  met-count q (suc met) o db same h =
      let r = settle_credit to_fixed (shop_of o db) o new_id db in
      let (u, e, rest) =
        continue-ok r
          (λ _. modify (λ d. record d { effects = Effect.payment_notice o.reference ∷ d.effects }))
          h in
      continue-keep (λ d. count q d.orders) r
        (λ _. modify (λ d. record d { effects = Effect.payment_notice o.reference ∷ d.effects }))
        (λ _ _. refl)
      ∙ credit-count q o db same e

  pub rolled :
      (db : Db) (r : Result (Unit {0}) × Db) (P : Db → Type 0)
      → (roll_back db r).0 ≡ ok tt
      → (r.0 ≡ ok tt → P r.1)
      → P (roll_back db r).1
  rolled db (ok a, d) P h k = k refl
  rolled db (err e, d) P h k = cc

  abbrev IsSettled : ℕ → Db → Db → Type 0
  IsSettled id db d =
      (count (unpaid id) d.orders ≡ 0)
      × (count (λ o. o.id == id) d.orders ≡ count (λ o. o.id == id) db.orders)

  settle_transaction-IsSettled :
      (o : Order) (db : Db)
      → outcome (settle_transaction to_fixed (shop_of o db) o tx now new_id) db ≡ ok tt
      → IsSettled o.id db (after (settle_transaction to_fixed (shop_of o db) o tx now new_id) db)
  unfolding settle_transaction
  settle_transaction-IsSettled o db h =
      rolled db
        (settle_met to_fixed (count (unpaid o.id) db.orders) (shop_of o db) o new_id (mark o.id db))
        (IsSettled o.id db) h
        (λ e. (
          met-count (unpaid o.id) _ o (mark o.id db) (λ x p. refl) e
              ∙ count-update_many_out (unpaid o.id) (set_paid_by_paydunya tx now) db.orders
                  (λ x. ground arith),
          met-count (λ x. x.id == o.id) _ o (mark o.id db) (λ x p. refl) e
              ∙ count-update_many (λ x. x.id == o.id) (unpaid o.id) (set_paid_by_paydunya tx now)
                  db.orders (λ x. refl),
        ))

  unpaid_id :
      (id : ℕ) (o : Order) → (o.id == id) ≡ true → unpaid id o ≡ false → is_paid o.status ≡ true
  unpaid_id id o h k = ground arith

  idle :
      (id : ℕ) (reference : Option ℕ) (db : Db)
      → count (unpaid id) db.orders ≡ 0
      → any (λ o. o.id == id) db.orders ≡ true
      → settle_paid_order to_fixed (some id) reference tx now new_id db
        ≡ (ok (some order_already_paid), db)
  unfolding settle_paid_order settle_found
  idle id reference db none_left there = found (find_first (λ o. o.id == id) db.orders) refl
    where
      found :
          (x : Option Order)
          → find_first (λ o. o.id == id) db.orders ≡ x
          → settle_found to_fixed x tx now new_id db ≡ (ok (some order_already_paid), db)
      found none e = cc (any-find_first (λ o. o.id == id) db.orders)
      found (some o) e =
          rw
            (unpaid_id id o (find_first-test (λ o. o.id == id) db.orders e)
              (find_first-count (unpaid id) (λ o. o.id == id) db.orders none_left e))
            refl

module _ (to_fixed : ℤ → ℕ → ℤ) (tx now new_id id : ℕ) (reference : Option ℕ) (db : Db) where
  abbrev settle : Action (Option Body)
  settle = settle_paid_order to_fixed (some id) reference tx now new_id

  abbrev IsDone : Db → Type 0
  IsDone d = (count (unpaid id) d.orders ≡ 0) × (any (λ o. o.id == id) d.orders ≡ true)

  done :
      (d : Db) {o : Order}
      → find_first (λ x. x.id == id) db.orders ≡ some o
      → IsSettled to_fixed tx now new_id id db d
      → IsDone d
  done d e (a, b) = (
    a,
    any-count (λ o. o.id == id) d.orders
        ∙ ap (ltb 0) b
        ∙ sym (any-count (λ o. o.id == id) db.orders)
        ∙ any-find_first (λ o. o.id == id) db.orders
        ∙ ap is_some e,
  )

  settled : outcome settle db ≡ ok (some order_paid_success) → IsDone (after settle db)
  unfolding settle_paid_order settle_found
  settled = found (find_first (λ o. o.id == id) db.orders) refl
    where
      found :
          (x : Option Order)
          → find_first (λ o. o.id == id) db.orders ≡ x
          → (settle_found to_fixed x tx now new_id db).0 ≡ ok (some order_paid_success)
          → IsDone (settle_found to_fixed x tx now new_id db).1
      found none e h = cc
      found (some o) e h = elim (Bool-cases (is_paid o.status)) [
        | inl p ↦ cc (let k = rw p at h in k)
        | inr p ↦
            let r =
              settle_transaction to_fixed (shop_of to_fixed tx now new_id o db) o tx now new_id
                db in
            let (u, t, _) = continue-ok r (λ _. pure (some order_paid_success)) (rw p at h) in
            let same = ==→eq o.id id (find_first-test (λ x. x.id == id) db.orders e) in
            rw p (
              subst IsDone
                (sym (continue-keep (λ d. d) r (λ _. pure (some order_paid_success)) (λ _ _. refl)))
                (done r.1 e (
                  subst (λ n. IsSettled to_fixed tx now new_id n db r.1) same
                    (settle_transaction-IsSettled to_fixed tx now new_id o db t))))
      ]

  -- A settlement that went through is not repeated: a second one of the same order, with whatever
  -- transaction, answers that the order is paid and changes nothing.
  pub settle_once :
      (tx' later new_id' : ℕ) (reference' : Option ℕ)
      → outcome settle db ≡ ok (some order_paid_success)
      → settle_paid_order to_fixed (some id) reference' tx' later new_id' (after settle db)
        ≡ (ok (some order_already_paid), after settle db)
  settle_once tx' later new_id' reference' h =
      let (none_left, there) = settled h in
      idle to_fixed tx' later new_id' id reference' (after settle db) none_left there
