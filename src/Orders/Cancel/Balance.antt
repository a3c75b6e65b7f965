-- ===== src/Orders/Cancel/Balance.antt =====
-- What the cancellation of a paid order takes back.
use afrique_os.Common.{
  ℕ, ◌≡◌, refl, Bool, true, false, Option, none, some, ◌==◌, any, arith, ◌∙◌, ap,
}
use afrique_os.Common.Int.{ℤ, pos, ◌+ℤ◌, ◌-ℤ◌, ◌*ℕ◌, int_laws}
use afrique_os.Common.Tables.{update_many, count, sum_by, sum_by-update_many}
use afrique_os.Database.Enums.{Plan, is_paid}
use afrique_os.Database.Rows.{Order, Db}
use afrique_os.Database.Action.{Action, ok, outcome, after, modify, continue, ◌>>◌}
use afrique_os.Database.Calls.{update_found}
use afrique_os.Orders.Credit.{gross_total, net_of, trace_on_order}
use afrique_os.Orders.Payment.Credited.{balances}
use afrique_os.Orders.Cancel.{credited, cancel_allocations, return_points, undo_payment}

points-boutiques :
    (user : Option ℕ) (points : ℤ) (id : ℕ) (db : Db)
    → (after (return_points user points id) db).boutiques ≡ db.boutiques
points-boutiques none points id db = refl
points-boutiques (some user) points id db = ground arith

lowered : (a b : ℤ) → a -ℤ b ≡ a +ℤ (pos 0 -ℤ b)
lowered a b = omega int_laws

module _ (boutique : ℕ) (o : Order) where
  abbrev lower : Db → Db
  lower d = record d {
    boutiques =
        update_many (λ b. b.id == boutique) (λ b. record b { balance = b.balance -ℤ credited o })
          d.boutiques;
  }

  abbrev rest : Action (Unit {0})
  rest = modify (cancel_allocations o.id) >> return_points o.user_id o.points_used o.id

  undone :
      (db : Db) (found : Bool)
      → (continue (update_found found lower db) (λ _. rest)).0 ≡ ok tt
      → balances (continue (update_found found lower db) (λ _. rest)).1
        ≡ balances db +ℤ (pos 0 -ℤ credited o) *ℕ count (λ b. b.id == boutique) db.boutiques
  undone db false h = cc
  undone db true h =
      ap (sum_by (λ b. b.balance))
        (points-boutiques o.user_id o.points_used o.id (cancel_allocations o.id (lower db)))
      ∙ sum_by-update_many (λ b. b.balance) (pos 0 -ℤ credited o) (λ b. b.id == boutique)
          (λ b. record b { balance = b.balance -ℤ credited o }) db.boutiques
          (λ b. lowered b.balance (credited o))

  undo_payment-credited :
      (db : Db)
      → is_paid o.status ≡ true
      → outcome (undo_payment boutique o) db ≡ ok tt
      → balances (after (undo_payment boutique o) db)
        ≡ balances db +ℤ (pos 0 -ℤ credited o) *ℕ count (λ b. b.id == boutique) db.boutiques
  unfolding undo_payment
  undo_payment-credited db paid h =
      rw (after, paid)
        (undone db (any (λ b. b.id == boutique) db.boutiques) (rw (outcome, paid) at h))

module _ (to_fixed : ℤ → ℕ → ℤ) (gross : ℤ) (plan : Plan) (rate : ℕ) where
  credited-trace :
      (o : Order)
      → gross ≡ gross_total o
      → credited (trace_on_order to_fixed gross plan rate o) ≡ net_of to_fixed gross rate
  unfolding credited
  credited-trace o e = rw e refl

-- Of a paid order on which its payment has written the commission, undoing the payment, when it
-- goes through, takes from the balances exactly the net amount that the payment credited, once for
-- each row of its shop.
pub undo_payment-balances :
    (to_fixed : ℤ → ℕ → ℤ) (plan : Plan) (rate : ℕ) (o : Order) (db : Db)
    → is_paid o.status ≡ true
    → let paid = trace_on_order to_fixed (gross_total o) plan rate o in
      outcome (undo_payment o.boutique_id paid) db ≡ ok tt
      → balances (after (undo_payment o.boutique_id paid) db)
        ≡ balances db
          +ℤ (pos 0 -ℤ net_of to_fixed (gross_total o) rate)
            *ℕ count (λ b. b.id == o.boutique_id) db.boutiques
undo_payment-balances to_fixed plan rate o db p h =
    undo_payment-credited o.boutique_id (trace_on_order to_fixed (gross_total o) plan rate o) db p h
    ∙ ap (λ c. balances db +ℤ (pos 0 -ℤ c) *ℕ count (λ b. b.id == o.boutique_id) db.boutiques)
        (credited-trace to_fixed (gross_total o) plan rate o refl)
