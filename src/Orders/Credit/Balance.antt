-- ===== src/Orders/Credit/Balance.antt =====
-- What the credit of a paid order does to the balances.
use afrique_os.Common.{
  ℕ, ◌≡◌, refl, Option, none, some, ◌==◌, any, arith, inl, inr, Bool-cases, ◌∙◌, ap,
}
use afrique_os.Common.Int.{ℤ, ◌+ℤ◌, ◌*ℕ◌}
use afrique_os.Common.Tables.{find_first, sum_by, count, update_many, sum_by-update_many}
use afrique_os.Database.Enums.{Plan}
use afrique_os.Database.Rows.{Order, User, Db}
use afrique_os.Database.Action.{Action, ok, outcome, after, modify, ◌>>◌, continue-keep}
use afrique_os.Database.Calls.{add_balance}
use afrique_os.Orders.Credit.{
  seller_plan, net_of, gross_total, trace_on_order, sync_allocation, award_points, award_buyer,
  points_earned, ready_shipments, credit_seller_for_paid_order,
}

award_buyer-boutiques :
    (buyer : Option User) (earned : ℤ) (order : ℕ) (db : Db)
    → (after (award_buyer buyer earned order) db).boutiques ≡ db.boutiques
unfolding award_buyer
award_buyer-boutiques none earned order db = refl
award_buyer-boutiques (some u) earned order db = ground arith

pub award_points-boutiques :
    (user : Option ℕ) (gross : ℤ) (order : ℕ) (db : Db)
    → (after (award_points user gross order) db).boutiques ≡ db.boutiques
unfolding award_points
award_points-boutiques none gross order db = refl
award_points-boutiques (some user) gross order db =
    award_buyer-boutiques (find_first (λ u. u.id == user) db.users) (points_earned gross) order db

pub sync_allocation-boutiques :
    (order : Order) (gross : ℤ) (rate : ℕ) (commission : ℤ) (new_id : ℕ) (db : Db)
    → (after (sync_allocation order gross rate commission new_id) db).boutiques ≡ db.boutiques
unfolding sync_allocation
sync_allocation-boutiques order gross rate commission new_id db = ground arith

award_buyer-orders :
    (buyer : Option User) (earned : ℤ) (order : ℕ) (db : Db)
    → (after (award_buyer buyer earned order) db).orders ≡ db.orders
unfolding award_buyer
award_buyer-orders none earned order db = refl
award_buyer-orders (some u) earned order db = ground arith

award_points-orders :
    (user : Option ℕ) (gross : ℤ) (order : ℕ) (db : Db)
    → (after (award_points user gross order) db).orders ≡ db.orders
unfolding award_points
award_points-orders none gross order db = refl
award_points-orders (some user) gross order db =
    award_buyer-orders (find_first (λ u. u.id == user) db.users) (points_earned gross) order db

sync_allocation-orders :
    (order : Order) (gross : ℤ) (rate : ℕ) (commission : ℤ) (new_id : ℕ) (db : Db)
    → (after (sync_allocation order gross rate commission new_id) db).orders ≡ db.orders
unfolding sync_allocation
sync_allocation-orders order gross rate commission new_id db = ground arith

module _ (to_fixed : ℤ → ℕ → ℤ) (order : Order) (new_id : ℕ) (db : Db) where
  abbrev pub seller : Plan × ℕ
  seller = seller_plan order.boutique_id db.boutiques

  abbrev pub net_credit : ℤ
  net_credit = net_of to_fixed (gross_total order) seller.1

  abbrev later : Action (Unit {0})
  later =
      sync_allocation order (gross_total order) seller.1 (to_fixed (gross_total order) seller.1)
        new_id
      >> (modify (ready_shipments order.id)
          >> award_points order.user_id (gross_total order) order.id)

  later-boutiques : (d : Db) → (after later d).boutiques ≡ d.boutiques
  unfolding ready_shipments
  later-boutiques d =
      continue-keep (λ x. x.boutiques)
        (sync_allocation order (gross_total order) seller.1 (to_fixed (gross_total order) seller.1)
          new_id d)
        (λ _.
          modify (ready_shipments order.id)
          >> award_points order.user_id (gross_total order) order.id)
        (λ _ x.
          award_points-boutiques order.user_id (gross_total order) order.id
            (ready_shipments order.id x))
      ∙ sync_allocation-boutiques order (gross_total order) seller.1
          (to_fixed (gross_total order) seller.1) new_id d

  later-orders : (d : Db) → (after later d).orders ≡ d.orders
  unfolding ready_shipments
  later-orders d =
      continue-keep (λ x. x.orders)
        (sync_allocation order (gross_total order) seller.1 (to_fixed (gross_total order) seller.1)
          new_id d)
        (λ _.
          modify (ready_shipments order.id)
          >> award_points order.user_id (gross_total order) order.id)
        (λ _ x.
          award_points-orders order.user_id (gross_total order) order.id
            (ready_shipments order.id x))
      ∙ sync_allocation-orders order (gross_total order) seller.1
          (to_fixed (gross_total order) seller.1) new_id d

  -- A credit that goes through writes the commission on the order and touches no other column.
  pub credit-orders :
      outcome (credit_seller_for_paid_order to_fixed order new_id) db ≡ ok tt
      → (after (credit_seller_for_paid_order to_fixed order new_id) db).orders
        ≡ update_many
            (λ o. o.id == order.id)
            (trace_on_order to_fixed (gross_total order) seller.0 seller.1)
            db.orders
  unfolding credit_seller_for_paid_order
  credit-orders h = elim (Bool-cases (any (λ o. o.id == order.id) db.orders)) [
    | inr e ↦ cc (rw e at h)
    | inl e ↦ elim (Bool-cases (any (λ b. b.id == order.boutique_id) db.boutiques)) [
      | inr b ↦ cc (rw (e, b) at h)
      | inl b ↦ rw (e, b) (later-orders _)
    ]
  ]

  pub credit-boutiques :
      outcome (credit_seller_for_paid_order to_fixed order new_id) db ≡ ok tt
      → (after (credit_seller_for_paid_order to_fixed order new_id) db).boutiques
        ≡ update_many (λ b. b.id == order.boutique_id) (add_balance net_credit) db.boutiques
  unfolding credit_seller_for_paid_order
  credit-boutiques h = elim (Bool-cases (any (λ o. o.id == order.id) db.orders)) [
    | inr e ↦ cc (rw e at h)
    | inl e ↦ elim (Bool-cases (any (λ b. b.id == order.boutique_id) db.boutiques)) [
      | inr b ↦ cc (rw (e, b) at h)
      | inl b ↦ rw (e, b) (later-boutiques _)
    ]
  ]

  -- A credit that goes through adds the net amount to the balance of the order's shop, once for
  -- each row of that identifier, and to no other balance.
  pub credit-balance :
      outcome (credit_seller_for_paid_order to_fixed order new_id) db ≡ ok tt
      → sum_by
          (λ b. b.balance)
          (after (credit_seller_for_paid_order to_fixed order new_id) db).boutiques
        ≡ sum_by (λ b. b.balance) db.boutiques
          +ℤ net_credit *ℕ count (λ b. b.id == order.boutique_id) db.boutiques
  credit-balance h =
      ap (sum_by (λ b. b.balance)) (credit-boutiques h)
      ∙ sum_by-update_many (λ b. b.balance) net_credit (λ b. b.id == order.boutique_id)
          (add_balance net_credit) db.boutiques (λ b. refl)
