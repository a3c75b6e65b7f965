-- ===== src/Paydunya/Settle/Credit.antt =====
-- The webhook's credit and the one of the orders service are written twice; they are the same.
use afrique_os.Common.{
  ℕ, ◌≡◌, refl, true, false, Option, none, some, List, ◌==◌, arith, ◌∙◌, ap, sym, inl, inr,
  Bool-cases,
}
use afrique_os.Common.Int.{ℤ, pos, ltb_ℤ, floor_div}
use afrique_os.Common.Tables.{find_many, find_first}
use afrique_os.Database.Enums.{Plan}
use afrique_os.Database.Rows.{Boutique, Order, User, Db}
use afrique_os.Database.Action.{Action, ok, modify, ◌>>◌}
use afrique_os.Database.Calls.{update_order, update_boutique, add_balance}
use afrique_os.Orders.Credit.{
  seller_plan, plan_of, net_of, gross_total, trace_on_order, sync_allocation, award_points,
  award_buyer, ready_shipments, credit_seller_for_paid_order, points_earned,
}
use afrique_os.Paydunya.Settle.{
  commission_of, cash_back_all, cash_back_buyer, cash_back_sponsor, settle_credit,
}

commission_of_lem :
    (boutique : ℕ) (shops : List Boutique)
    → commission_of (find_first (λ b. b.id == boutique) shops) shops ≡ seller_plan boutique shops
unfolding commission_of seller_plan
commission_of_lem boutique shops = by_found (find_first (λ b. b.id == boutique) shops)
  where
    by_found :
        (found : Option Boutique)
        → commission_of found shops ≡ elim found [
          | none ↦ (Plan.starter, 500)
          | some b ↦ plan_of (find_many (λ s. s.owner_id == b.owner_id) shops)
        ]
    by_found none = refl
    by_found (some b) = refl

cash_back_buyer_lem :
    (buyer : Option User) (earned : ℤ) (order : ℕ) (db : Db)
    → ltb_ℤ (pos 0) earned ≡ true
    → cash_back_buyer buyer earned order db ≡ award_buyer buyer earned order db
unfolding cash_back_buyer cash_back_sponsor award_buyer
cash_back_buyer_lem none earned order db h = refl
cash_back_buyer_lem (some u) earned order db h = ground arith

no_points :
    (buyer : Option User) (earned : ℤ) (order : ℕ) (db : Db)
    → ltb_ℤ (pos 0) earned ≡ false
    → award_buyer buyer earned order db ≡ (ok tt, db)
unfolding award_buyer
no_points none earned order db h = refl
no_points (some u) earned order db h = ground arith

cash_back_all_lem :
    (user : Option ℕ) (gross : ℤ) (order : ℕ) (db : Db)
    → cash_back_all user (floor_div gross 20000) order db ≡ award_points user gross order db
unfolding cash_back_all award_points
cash_back_all_lem none gross order db = refl
cash_back_all_lem (some user) gross order db =
    elim (Bool-cases (ltb_ℤ (pos 0) (points_earned gross))) [
      | inl e ↦ rw e (cash_back_buyer_lem (find_first (λ u. u.id == user) db.users) _ order db e)
      | inr e ↦ rw e (sym (no_points (find_first (λ u. u.id == user) db.users) _ order db e))
    ]

module _ (to_fixed : ℤ → ℕ → ℤ) (order : Order) (new_id : ℕ) where
  abbrev credit_with : Plan × ℕ → Action (Unit {0}) → Action (Unit {0})
  credit_with seller points =
      update_order order.id (trace_on_order to_fixed (gross_total order) seller.0 seller.1)
      >> (update_boutique order.boutique_id
            (add_balance (net_of to_fixed (gross_total order) seller.1))
          >> (sync_allocation order (gross_total order) seller.1
                (to_fixed (gross_total order) seller.1) new_id
              >> (modify (ready_shipments order.id) >> points)))

  -- For an order with its shop as it stands in the database, the webhook's credit and the credit of
  -- the orders service are the same: the same answer and the same database.
  pub settle_credit-credit_seller :
      (db : Db)
      → settle_credit to_fixed
          (find_first (λ b. b.id == order.boutique_id) db.boutiques)
          order
          new_id
          db
        ≡ credit_seller_for_paid_order to_fixed order new_id db
  unfolding settle_credit credit_seller_for_paid_order
  settle_credit-credit_seller db =
      ap
        (λ seller.
          credit_with seller
            (cash_back_all order.user_id (floor_div (gross_total order) 20000) order.id) db)
        (commission_of_lem order.boutique_id db.boutiques)
      ∙ ap (λ points. credit_with (seller_plan order.boutique_id db.boutiques) points db)
          (λ i d. cash_back_all_lem order.user_id (gross_total order) order.id d i)
