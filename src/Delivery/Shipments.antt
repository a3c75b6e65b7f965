-- ===== src/Delivery/Shipments.antt =====
-- createOrGetShipmentForOrder of backend/src/delivery/delivery.service.ts. The address snapshots, the
-- stations and the description of the parcel are left out: the communes of the two addresses are
-- arguments. The drawn code and token are arguments as well; the answer is the shipment.
pub mod Once
use afrique_os.Common.{
  ℕ, ◌+◌, Bool, true, false, ◌&&◌, ◌||◌, not, Option, none, some, List, [], ◌∷◌, if◌then◌else◌,
  ◌==◌,
}
use afrique_os.Common.Int.{ℤ, pos, ◌+ℤ◌, ◌-ℤ◌, ◌*ℕ◌, max_ℤ}
use afrique_os.Common.Tables.{find_first}
use afrique_os.Common.Text.{trim}
use afrique_os.Database.Enums.{
  OrderStatus, PaymentMethod, Plan, ShipmentStatus, DeliveryMode, PackageSize, ZoneType, LegType,
  LegStatus, BeneficiaryType, SettlementStatus, is_paid, is_seller,
}
use afrique_os.Database.Rows.{
  Text, Boutique, Order, Shipment, Leg, Allocation, EventKind, EventState, Db,
}
use afrique_os.Database.Action.{
  Action, pure, gets, or_throw, throw_if, modify, transaction, ◌>>=◌, ◌>>◌, not_found, bad_request,
  record_missing,
}
use afrique_os.Database.Calls.{update_allocation, shipment_or_throw, add_event}
use afrique_os.Delivery.Config.{or_else, get_config}
use afrique_os.Delivery.Quote.{QuoteInput, Quote, calculate_quote, is_interurban_mode}
use afrique_os.Delivery.Tokens.{hash_token_or_code}

pub record ShipmentRequest : Type 0 where
  pub order_id : ℕ
  pub mode : Option DeliveryMode
  pub destination_station : Option ℕ
  pub package_size : Option PackageSize
  pub origin : ℕ
  pub destination : ℕ
  pub code : Text
  pub token : Text

-- The identifiers of the new rows.
pub record NewIds : Type 0 where
  pub shipment : ℕ
  pub first_leg : ℕ
  pub second_leg : ℕ
  pub third_leg : ℕ
  pub allocation : ℕ

-- What the zones, the rate rules and the built-in table say of communes.
pub record Geography : Type 0 where
  pub is_greater_cotonou : ℕ → Bool
  pub rule_price : ℕ → ℕ → DeliveryMode → Option ℤ
  pub table_type : ℕ → Option ZoneType
  pub zone_type : ℕ → Option ZoneType

abbrev pub mode_of : Geography → ShipmentRequest → DeliveryMode
mode_of geo dto = elim dto.mode [
  | some mode ↦ mode
  | none ↦ elim dto.destination_station [
    | some _ ↦ DeliveryMode.interurban_station
    | none ↦
        if not (dto.destination == dto.origin) && not (geo.is_greater_cotonou dto.destination)
        then DeliveryMode.interurban_home
        else DeliveryMode.home
  ]
]

abbrev is_cash_order : PaymentMethod → Bool
is_cash_order PaymentMethod.cash_on_delivery = true
is_cash_order _ = false

abbrev is_confirmed : OrderStatus → Bool
is_confirmed OrderStatus.paid = true
is_confirmed OrderStatus.whatsapp_confirmed = true
is_confirmed _ = false

abbrev pub quote_of : Geography → ShipmentRequest → Order → Quote
unfolding calculate_quote
quote_of geo dto order = calculate_quote (record {
  origin = dto.origin;
  destination = dto.destination;
  mode = mode_of geo dto;
  size = some (or_else dto.package_size PackageSize.standard);
  selected_pack = some order.delivery_price;
  rule_price = geo.rule_price dto.origin dto.destination (mode_of geo dto);
  table_type = geo.table_type dto.destination;
  zone_type = geo.zone_type dto.destination;
})

unfoldable pub items_subtotal : Order → ℤ
items_subtotal o = max_ℤ (pos 0) (o.total +ℤ o.points_used *ℕ 100 -ℤ o.delivery_price)

-- Fourteen days.
abbrev pub code_validity_ms : ℕ
code_validity_ms = 1209600000

abbrev pub new_shipment : (Text → ℕ) → Geography → ℕ → ShipmentRequest → NewIds → Order → Shipment
unfolding hash_token_or_code quote_of
new_shipment digest geo now dto ids order = record {
  id = ids.shipment;
  order_id = order.id;
  boutique_id = order.boutique_id;
  customer_user_id = order.user_id;
  status =
      if is_confirmed order.status
      then ShipmentStatus.ready_for_dispatch
      else ShipmentStatus.awaiting_preparation;
  delivery_mode = mode_of geo dto;
  dispatch_mode = none;
  quoted_fee = (quote_of geo dto order).quoted;
  assigned_agency_id = none;
  assigned_courier_id = none;
  dispatched_at = none;
  delivery_code_hash = some (hash_token_or_code digest dto.code);
  delivery_code_expires_at = some (now + code_validity_ms);
  delivery_code_attempts = 0;
  delivery_code_locked_until = none;
  guest_tracking_token_hash = some (hash_token_or_code digest dto.token);
  picked_up_at = none;
  arrived_at_station_at = none;
  delivered_verified_at = none;
  conformity_deadline_at = none;
  buyer_accepted_at = none;
}

abbrev planned_leg : ℕ → ℕ → LegType → Leg
planned_leg id shipment type = record {
  id = id;
  shipment_id = shipment;
  leg_type = type;
  status = LegStatus.planned;
  arrived_at = none;
}

abbrev last_leg : DeliveryMode → LegType
last_leg DeliveryMode.interurban_station = LegType.station_pickup
last_leg _ = LegType.last_mile

abbrev local_leg : DeliveryMode → LegType
local_leg DeliveryMode.station_pickup = LegType.station_pickup
local_leg _ = LegType.direct_local

-- Three legs between two cities, and one within a city.
abbrev pub legs_of : DeliveryMode → NewIds → List Leg → List Leg
legs_of mode ids rest =
    if is_interurban_mode mode
    then planned_leg ids.first_leg ids.shipment LegType.collection
      ∷ planned_leg ids.second_leg ids.shipment LegType.interurban_transit
      ∷ planned_leg ids.third_leg ids.shipment (last_leg mode)
      ∷ rest
    else planned_leg ids.first_leg ids.shipment (local_leg mode) ∷ rest

abbrev pub plan_rate : Plan → ℕ
plan_rate Plan.enterprise = 150
plan_rate Plan.business = 200
plan_rate _ = 500

unfoldable pub cash_refused : Geography → ShipmentRequest → Order → Db → Bool
unfolding get_config
cash_refused geo dto order db =
    is_cash_order order.payment_method
    && is_interurban_mode (mode_of geo dto)
    && not (get_config db).interurban_cod

-- `round_share` is the rounded share `Number(((x * rate) / 100).toFixed(2))` of this file, which
-- multiplies before it divides; the credit of an order has a parameter of its own for its expression.
module _ (round_share : ℤ → ℕ → ℤ) where
  abbrev pub seller_allocation : NewIds → Order → Plan → Allocation
  unfolding items_subtotal
  seller_allocation ids order plan =
      let commission = round_share (items_subtotal order) (plan_rate plan) in
      record {
        id = ids.allocation;
        order_id = order.id;
        shipment_id = some ids.shipment;
        beneficiary_type = BeneficiaryType.seller_boutique;
        beneficiary_id = order.boutique_id;
        gross_amount = items_subtotal order;
        commission_rate = plan_rate plan;
        commission_amount = commission;
        net_amount = max_ℤ (pos 0) (items_subtotal order -ℤ commission);
        status =
            if is_paid order.status
            then SettlementStatus.awaiting_delivery_verification
            else SettlementStatus.pending_payment;
        eligible_for_release_at = none;
        released_at = none;
      }

  -- The seller's part is opened with the shipment, or tied to it where it stands without one.
  unfoldable pub tie_seller_part : NewIds → Order → Plan → Option Allocation → Action (Unit {0})
  unfolding seller_allocation
  tie_seller_part ids order plan none =
      modify (λ db. record db { allocations = seller_allocation ids order plan ∷ db.allocations })
  tie_seller_part ids order plan (some a) = elim a.shipment_id [
    | none ↦ update_allocation a.id (λ x. record x { shipment_id = some ids.shipment })
    | some _ ↦ pure tt
  ]

  module _ (digest : Text → ℕ) (geo : Geography) (now : ℕ) where
    unfoldable pub create_shipment : ShipmentRequest → NewIds → Order → Plan → Action Shipment
    unfolding tie_seller_part new_shipment
    create_shipment dto ids order plan = transaction do
      modify (λ db. record db {
        shipments = new_shipment digest geo now dto ids order ∷ db.shipments;
        legs = legs_of (mode_of geo dto) ids db.legs;
      })
      part ← gets (λ db.
          find_first (λ a. a.order_id == order.id && is_seller a.beneficiary_type) db.allocations)
      tie_seller_part ids order plan part
      modify (
          add_event ids.shipment EventKind.shipment_created EventState.no_state
            (EventState.of_shipment (new_shipment digest geo now dto ids order).status))
      shipment_or_throw ids.shipment

    unfoldable pub create_new_shipment : ShipmentRequest → NewIds → Action Shipment
    unfolding create_shipment cash_refused
    create_new_shipment dto ids = do
      found ← gets (λ db. find_first (λ o. o.id == dto.order_id) db.orders)
      order ← or_throw found not_found
      owner ← gets (λ db. find_first (λ b. b.id == order.boutique_id) db.boutiques)
      boutique ← or_throw owner record_missing
      refused ← gets (cash_refused geo dto order)
      throw_if refused bad_request
      create_shipment dto ids order boutique.plan

    -- An order that has a shipment keeps it.
    unfoldable pub get_or_create : ShipmentRequest → NewIds → Option Shipment → Action Shipment
    unfolding create_new_shipment
    get_or_create dto ids none = create_new_shipment dto ids
    get_or_create dto ids (some s) = pure s

    unfoldable pub create_or_get_shipment : ShipmentRequest → NewIds → Action Shipment
    unfolding get_or_create
    create_or_get_shipment dto ids = do
      existing ← gets (λ db. find_first (λ s. s.order_id == dto.order_id) db.shipments)
      get_or_create dto ids existing
