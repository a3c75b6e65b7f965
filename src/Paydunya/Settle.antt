-- ===== src/Paydunya/Settle.antt =====
-- settleSubscriptionViaPayDunya and settlePaidOrderViaPayDunya of
-- backend/src/paydunya/paydunya.service.ts. A plan's slug is taken as one of the four known ones.
pub mod Credit
pub mod Once
pub mod Balances
use afrique_os.Common.{
  ℕ, zero, suc, ◌+◌, ◌*◌, Bool, true, false, ◌&&◌, not, Option, none, some, List, [], ◌∷◌,
  if◌then◌else◌, ◌==◌, any, is_id, map,
}
use afrique_os.Common.Int.{ℤ, pos, ◌+ℤ◌, ◌-ℤ◌, ◌*ℕ◌, ltb_ℤ, floor_div}
use afrique_os.Common.Tables.{find_first, find_many, update_many, count}
use afrique_os.Database.Enums.{
  OrderStatus, PaymentMethod, Plan, PointReason, is_paid, is_enterprise, is_business,
  BeneficiaryType, SettlementStatus, ShipmentStatus,
}
use afrique_os.Database.Rows.{
  Boutique, Order, User, Effect, Body, order_paid_success, order_already_paid, PlanRow,
  Subscription, Db,
}
use afrique_os.Database.Action.{
  Action, Result, ok, err, pure, gets, or_throw, throw_if, modify, transaction, ◌>>=◌, ◌>>◌,
  record_missing,
}
use afrique_os.Database.Calls.{
  update_order, update_boutique, update_user, add_balance, add_points, point_transaction,
}
use afrique_os.Orders.Credit.{sync_allocation, ready_shipments}

abbrev same_plan : Plan → Plan → Bool
same_plan Plan.starter Plan.starter = true
same_plan Plan.pro Plan.pro = true
same_plan Plan.business Plan.business = true
same_plan Plan.enterprise Plan.enterprise = true
same_plan _ _ = false

-- PLAN_PRICES, in hundredths, with the order of display.
abbrev pub plan_price : Plan → ℤ × ℕ
plan_price Plan.starter = (pos 0, 1)
plan_price Plan.pro = (pos 1500000, 2)
plan_price Plan.business = (pos 1250000, 3)
plan_price Plan.enterprise = (pos 4500000, 4)

unfoldable pub upsert_plan : Plan → List PlanRow → List PlanRow
upsert_plan slug plans =
    if any (λ p. same_plan p.slug slug) plans
    then update_many (λ p. same_plan p.slug slug) (λ p. record p { is_active = true }) plans
    else record {
      slug = slug;
      price = (plan_price slug).0;
      is_active = true;
      sort_order = (plan_price slug).1;
    }
      ∷ plans

-- Thirty days in milliseconds.
abbrev pub period : ℕ
period = 30 * 24 * 60 * 60 * 1000

unfoldable pub upsert_subscription : Plan → ℕ → List Subscription → ℕ → List Subscription
upsert_subscription slug now subscriptions boutique =
    if any (λ s. s.boutique_id == boutique) subscriptions
    then update_many (λ s. s.boutique_id == boutique)
        (λ s. record s {
          plan = slug;
          is_active = true;
          price = (plan_price slug).0;
          current_period_start = now;
          current_period_end = some (now + period);
          cancelled_at = none;
        })
        subscriptions
    else record {
      boutique_id = boutique;
      plan = slug;
      is_active = true;
      price = (plan_price slug).0;
      starts_at = now;
      current_period_start = now;
      current_period_end = some (now + period);
      cancelled_at = none;
    }
      ∷ subscriptions

unfoldable pub subscribe_all : Plan → ℕ → List Boutique → List Subscription → List Subscription
unfolding upsert_subscription
subscribe_all slug now [] subscriptions = subscriptions
subscribe_all slug now (b ∷ shops) subscriptions =
    subscribe_all slug now shops (upsert_subscription slug now subscriptions b.id)

unfoldable pub settle_subscription : ℕ → Plan → ℕ → Db → Db
unfolding upsert_plan subscribe_all
settle_subscription user slug now db = record db {
  plans = upsert_plan slug db.plans;
  boutiques = update_many (λ b. b.owner_id == user) (λ b. record b { plan = slug }) db.boutiques;
  subscriptions =
      subscribe_all slug now (find_many (λ b. b.owner_id == user) db.boutiques) db.subscriptions;
}

-- `boutique` is the shop of the order as it was read with the order.
unfoldable pub commission_of : Option Boutique → List Boutique → Plan × ℕ
commission_of none shops = (Plan.starter, 500)
commission_of (some b) shops =
    let owned = find_many (λ s. s.owner_id == b.owner_id) shops in
    if any (λ s. is_enterprise s.plan) owned
    then (Plan.enterprise, 150)
    else if any (λ s. is_business s.plan) owned
    then (Plan.business, 200)
    else (Plan.starter, 500)

abbrev cash_back : ℕ → ℤ → PointReason → ℕ → Action (Unit {0})
cash_back user earned reason order =
    update_user user (add_points earned) >> modify (point_transaction user earned reason order)

unfoldable pub cash_back_sponsor : Option ℕ → ℤ → ℕ → Action (Unit {0})
cash_back_sponsor none earned order = pure tt
cash_back_sponsor (some sponsor) earned order =
    cash_back sponsor earned PointReason.cashback_referral order

unfoldable pub cash_back_buyer : Option User → ℤ → ℕ → Action (Unit {0})
unfolding cash_back_sponsor
cash_back_buyer none earned order = pure tt
cash_back_buyer (some buyer) earned order =
    cash_back buyer.id earned PointReason.cashback_purchase order
    >> cash_back_sponsor buyer.referred_by_id earned order

-- `if (order.userId && pointsEarned > 0)`
unfoldable pub cash_back_all : Option ℕ → ℤ → ℕ → Action (Unit {0})
unfolding cash_back_buyer
cash_back_all none earned order db = (ok tt, db)
cash_back_all (some user) earned order db =
    if ltb_ℤ (pos 0) earned
    then cash_back_buyer (find_first (λ u. u.id == user) db.users) earned order db
    else (ok tt, db)

-- `updateMany … where id, status: { not: PAID }`
abbrev pub unpaid : ℕ → Order → Bool
unpaid id o = o.id == id && not (is_paid o.status)

abbrev pub set_paid_by_paydunya : ℕ → ℕ → Order → Order
set_paid_by_paydunya transaction_id now o = record o {
  status = OrderStatus.paid;
  payment_method = PaymentMethod.paydunya;
  payment_ref = some transaction_id;
  paid_at = some now;
}

module _ (to_fixed : ℤ → ℕ → ℤ) where
  -- The credit: the commission, the balance, the allocation, the shipments and the points.
  -- The source repeats the text of creditSellerForPaidOrder for the allocation and the shipments, which
  -- are that function's definitions here.
  unfoldable pub settle_credit : Option Boutique → Order → ℕ → Action (Unit {0})
  unfolding commission_of sync_allocation ready_shipments cash_back_all
  settle_credit boutique order new_id = do
    let gross = order.total +ℤ order.points_used *ℕ 100
    seller ← gets (λ db. commission_of boutique db.boutiques)
    let commission = to_fixed gross seller.1
    update_order order.id (λ o. record o {
      commission_rate = some seller.1;
      commission_amount = some commission;
      net_amount = some (gross -ℤ commission);
      plan_at_purchase = some seller.0;
    })
    update_boutique order.boutique_id (add_balance (gross -ℤ commission))
    sync_allocation order gross seller.1 commission new_id
    modify (ready_shipments order.id)
    cash_back_all order.user_id (floor_div gross 20000) order.id

  unfoldable pub settle_met : ℕ → Option Boutique → Order → ℕ → Action (Unit {0})
  unfolding settle_credit
  settle_met zero boutique order new_id = pure tt
  settle_met (suc met) boutique order new_id = do
    settle_credit boutique order new_id
    modify (λ db. record db { effects = Effect.payment_notice order.reference ∷ db.effects })

  unfoldable pub settle_transaction : Option Boutique → Order → ℕ → ℕ → ℕ → Action (Unit {0})
  unfolding settle_met
  settle_transaction boutique order transaction_id now new_id = transaction do
    met ← gets (λ db. count (unpaid order.id) db.orders)
    modify (λ db. record db {
      orders = update_many (unpaid order.id) (set_paid_by_paydunya transaction_id now) db.orders;
    })
    settle_met met boutique order new_id

  -- `where: orderId ? { id: orderId } : { reference: orderRef }`
  abbrev pub is_wanted : Option ℕ → Option ℕ → Order → Bool
  is_wanted (some id) reference o = o.id == id
  is_wanted none (some reference) o = o.reference == reference
  is_wanted none none o = true

  unfoldable pub settle_found : Option Order → ℕ → ℕ → ℕ → Action (Option Body)
  unfolding settle_transaction
  settle_found none transaction_id now new_id = pure none
  settle_found (some order) transaction_id now new_id =
      if is_paid order.status then pure (some order_already_paid) else (do
        boutique ← gets (λ db. find_first (λ b. b.id == order.boutique_id) db.boutiques)
        settle_transaction boutique order transaction_id now new_id
        pure (some order_paid_success))

  unfoldable pub settle_paid_order : Option ℕ → Option ℕ → ℕ → ℕ → ℕ → Action (Option Body)
  unfolding settle_found
  settle_paid_order id reference transaction_id now new_id = do
    order ← gets (λ db. find_first (is_wanted id reference) db.orders)
    settle_found order transaction_id now new_id
