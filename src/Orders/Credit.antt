-- ===== src/Orders/Credit.antt =====
-- creditSellerForPaidOrder of backend/src/orders/orders.service.ts: the commission by the seller's
-- plan, the credit of the net amount, the escrow allocation, and the points of the buyer and the
-- sponsor. A rate is in hundredths of a percent (5.0 % is 500). The commission's rounding to two
-- decimals is the language's `toFixed`, a parameter `to_fixed gross rate`.
pub mod Rates
pub mod Balance
use afrique_os.Common.{
  ℕ, ◌*◌, ◌≡◌, Bool, true, false, ◌&&◌, Option, none, some, List, [], ◌∷◌, if◌then◌else◌, ◌==◌, any,
  is_id,
}
use afrique_os.Common.Int.{ℤ, pos, ◌+ℤ◌, ◌-ℤ◌, ◌*ℕ◌, ◌≤ℤ◌, ltb_ℤ, floor_div}
use afrique_os.Common.Tables.{find_first, find_many, update_many}
use afrique_os.Database.Enums.{
  Plan, is_enterprise, is_business, is_seller, BeneficiaryType, SettlementStatus, ShipmentStatus,
  PointReason,
}
use afrique_os.Database.Rows.{Boutique, Order, User, Allocation, Shipment, Db}
use afrique_os.Database.Action.{Action, Result, ok, err, pure, gets, throw_if, modify, ◌>>=◌, ◌>>◌}
use afrique_os.Database.Calls.{
  update_order, update_boutique, update_user, update_allocation, add_balance, add_points,
  point_transaction,
}

-- `Number(order.total) + Number(order.pointsUsed || 0)`; a point is worth a franc.
abbrev pub gross_total : Order → ℤ
gross_total order = order.total +ℤ order.points_used *ℕ 100

unfoldable pub plan_of : List Boutique → Plan × ℕ
plan_of shops =
    if any (λ b. is_enterprise b.plan) shops
    then (Plan.enterprise, 150)
    else if any (λ b. is_business b.plan) shops
    then (Plan.business, 200)
    else (Plan.starter, 500)

-- The plan is the best of all the shops of the same owner.
unfoldable pub seller_plan : ℕ → List Boutique → Plan × ℕ
unfolding plan_of
seller_plan boutique shops = elim (find_first (λ b. b.id == boutique) shops) [
  | none ↦ (Plan.starter, 500)
  | some b ↦ plan_of (find_many (λ s. s.owner_id == b.owner_id) shops)
]

abbrev pub owned_by_seller : ℕ → Allocation → Bool
owned_by_seller order a = a.order_id == order && is_seller a.beneficiary_type

abbrev pub leave_pending : SettlementStatus → SettlementStatus
leave_pending SettlementStatus.pending_payment = SettlementStatus.awaiting_delivery_verification
leave_pending s = s

abbrev pub set_amounts : ℤ → ℕ → ℤ → Allocation → Allocation
set_amounts gross rate commission a = record a {
  gross_amount = gross;
  commission_rate = rate;
  commission_amount = commission;
  net_amount = gross -ℤ commission;
  status = leave_pending a.status;
}

abbrev pub first_shipment : ℕ → List Shipment → Option ℕ
first_shipment order shipments = elim (find_first (λ s. s.order_id == order) shipments) [
  | none ↦ none
  | some s ↦ some s.id
]

-- The allocation is brought up to date, or created with the identifier `new_id`.
unfoldable pub sync_allocation : Order → ℤ → ℕ → ℤ → ℕ → Action (Unit {0})
sync_allocation order gross rate commission new_id db =
    elim (find_first (owned_by_seller order.id) db.allocations) [
      | some a ↦ update_allocation a.id (set_amounts gross rate commission) db
      | none ↦
          modify
            (λ d. record d {
              allocations =
                  record {
                    id = new_id;
                    order_id = order.id;
                    shipment_id = first_shipment order.id d.shipments;
                    beneficiary_type = BeneficiaryType.seller_boutique;
                    beneficiary_id = order.boutique_id;
                    gross_amount = gross;
                    commission_rate = rate;
                    commission_amount = commission;
                    net_amount = gross -ℤ commission;
                    status = SettlementStatus.awaiting_delivery_verification;
                    eligible_for_release_at = none;
                    released_at = none;
                  }
                  ∷ d.allocations;
            })
            db
    ]

abbrev is_awaiting_preparation : ShipmentStatus → Bool
is_awaiting_preparation ShipmentStatus.awaiting_preparation = true
is_awaiting_preparation _ = false

unfoldable pub ready_shipments : ℕ → Db → Db
ready_shipments order db = record db {
  shipments =
      update_many (λ s. s.order_id == order && is_awaiting_preparation s.status)
        (λ s. record s { status = ShipmentStatus.ready_for_dispatch }) db.shipments;
}

abbrev award : ℕ → ℤ → PointReason → ℕ → Action (Unit {0})
award user earned reason order =
    update_user user (add_points earned) >> modify (point_transaction user earned reason order)

abbrev award_sponsor : Option ℕ → ℤ → ℕ → Action (Unit {0})
award_sponsor none earned order = pure tt
award_sponsor (some sponsor) earned order =
    if ltb_ℤ (pos 0) earned
    then award sponsor earned PointReason.cashback_referral order
    else pure tt

unfoldable pub award_buyer : Option User → ℤ → ℕ → Action (Unit {0})
award_buyer none earned order = pure tt
award_buyer (some buyer) earned order =
    (if ltb_ℤ (pos 0) earned
      then award buyer.id earned PointReason.cashback_purchase order
      else pure tt)
    >> award_sponsor buyer.referred_by_id earned order

abbrev pub points_earned : ℤ → ℤ
points_earned gross = floor_div gross 20000

unfoldable pub award_points : Option ℕ → ℤ → ℕ → Action (Unit {0})
unfolding award_buyer
award_points none gross order db = (ok tt, db)
award_points (some user) gross order db =
    award_buyer (find_first (λ u. u.id == user) db.users) (points_earned gross) order db

module _ (to_fixed : ℤ → ℕ → ℤ) where
  abbrev pub net_of : ℤ → ℕ → ℤ
  net_of gross rate = gross -ℤ to_fixed gross rate

  abbrev pub trace_on_order : ℤ → Plan → ℕ → Order → Order
  trace_on_order gross plan rate o = record o {
    commission_rate = some rate;
    commission_amount = some (to_fixed gross rate);
    net_amount = some (net_of gross rate);
    plan_at_purchase = some plan;
  }

  unfoldable pub credit_seller_for_paid_order : Order → ℕ → Action (Unit {0})
  credit_seller_for_paid_order order new_id = do
    seller ← gets (λ db. seller_plan order.boutique_id db.boutiques)
    update_order order.id (trace_on_order (gross_total order) seller.0 seller.1)
    update_boutique order.boutique_id (add_balance (net_of (gross_total order) seller.1))
    sync_allocation order (gross_total order) seller.1 (to_fixed (gross_total order) seller.1)
        new_id
    modify (ready_shipments order.id)
    award_points order.user_id (gross_total order) order.id
