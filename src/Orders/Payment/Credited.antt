-- ===== src/Orders/Payment/Credited.antt =====
-- What one confirmation of a payment moves.
use afrique_os.Common.{ℕ, zero, suc, ◌≡◌, ◌≢◌, refl, Option, none, some, ◌==◌, ◌∙◌, ap}
use afrique_os.Common.Int.{ℤ, ◌+ℤ◌, ◌*ℕ◌}
use afrique_os.Common.Tables.{count, find_first, sum_by}
use afrique_os.Database.Rows.{Order, Db}
use afrique_os.Database.Action.{
  Result, ok, err, outcome, after, continue-ok, continue, continue-keep, or_throw, record_missing,
  roll_back, pure,
}
use afrique_os.Orders.Credit.{gross_total, seller_plan, net_of, credit_seller_for_paid_order}
use afrique_os.Orders.Credit.Balance.{credit-balance}
use afrique_os.Orders.Payment.{payable, mark_paid, settle_transition, confirm_transaction}
use afrique_os.Orders.Payment.Once.{confirm_transaction_lem, paying}

abbrev pub balances : Db → ℤ
balances db = sum_by (λ b. b.balance) db.boutiques

module _ (to_fixed : ℤ → ℕ → ℤ) (boutique id : ℕ) where
  -- What the shop of an order is owed for it.
  abbrev pub due : Order → Db → ℤ
  due o db = net_of to_fixed (gross_total o) (seller_plan o.boutique_id db.boutiques).1

  pub settled-balances :
      (met new_id : ℕ) (db : Db) (o : Order)
      → (settle_transition to_fixed (suc met) id new_id db).0 ≡ ok o
      → balances (settle_transition to_fixed (suc met) id new_id db).1
        ≡ balances db +ℤ due o db *ℕ count (λ b. b.id == o.boutique_id) db.boutiques
  unfolding settle_transition
  settled-balances met new_id db o h = paid_balances (find_first (λ x. x.id == id) db.orders) h
    where
      paid_balances :
          (found : Option Order)
          → (continue (or_throw found record_missing db) (paying to_fixed boutique id new_id)).0
            ≡ ok o
          → balances
              (continue (or_throw found record_missing db) (paying to_fixed boutique id new_id)).1
            ≡ balances db +ℤ due o db *ℕ count (λ b. b.id == o.boutique_id) db.boutiques
      paid_balances none h = cc
      paid_balances (some paid) h =
          let (t, e, rest) =
            continue-ok (credit_seller_for_paid_order to_fixed paid new_id db) (λ _. pure paid) h in
          let same : paid ≡ o = cc in
          continue-keep balances (credit_seller_for_paid_order to_fixed paid new_id db)
            (λ _. pure paid) (λ _ _. refl)
          ∙ credit-balance to_fixed paid new_id db e
          ∙ ap (λ p. balances db +ℤ due p db *ℕ count (λ b. b.id == p.boutique_id) db.boutiques)
              same

  -- A confirmation that met the waiting order adds to the balances what the returned order is due,
  -- once for its shop, and nothing else.
  pub confirm-balances :
      (now : ℕ) (ref : Option ℕ) (new_id : ℕ) (db : Db) (o : Order)
      → outcome (confirm_transaction to_fixed boutique id now ref new_id) db ≡ ok o
      → count (payable boutique id) db.orders ≢ 0
      → balances (after (confirm_transaction to_fixed boutique id now ref new_id) db)
        ≡ balances db +ℤ due o db *ℕ count (λ b. b.id == o.boutique_id) db.boutiques
  confirm-balances now ref new_id db o h met =
      rw (after, confirm_transaction_lem)
        (rolled (count (payable boutique id) db.orders) met
          (rw (outcome, confirm_transaction_lem) at h))
    where
      rolled :
          (n : ℕ)
          → n ≢ 0
          → (roll_back db
              (settle_transition to_fixed n id new_id (mark_paid boutique id now ref db))).0
            ≡ ok o
          → balances
              (roll_back db
                (settle_transition to_fixed n id new_id (mark_paid boutique id now ref db))).1
            ≡ balances db +ℤ due o db *ℕ count (λ b. b.id == o.boutique_id) db.boutiques
      rolled zero n h = absurd (n refl)
      rolled (suc n) _ h =
          kept (settle_transition to_fixed (suc n) id new_id (mark_paid boutique id now ref db)) h
            (settled-balances n new_id (mark_paid boutique id now ref db) o)
        where
          kept :
              (r : Result Order × Db)
              → (roll_back db r).0 ≡ ok o
              → (r.0 ≡ ok o
                  → balances r.1
                    ≡ balances db +ℤ due o db *ℕ count (λ b. b.id == o.boutique_id) db.boutiques)
              → balances (roll_back db r).1
                ≡ balances db +ℤ due o db *ℕ count (λ b. b.id == o.boutique_id) db.boutiques
          kept (ok a, d) h k = k h
          kept (err e, d) h k = cc
