-- ===== src/Delivery/Dispatch.antt =====
-- dispatchShipment of backend/src/delivery/delivery.service.ts: a mission for the seller's own courier,
-- for an agency, or for the public pool. The summaries of the addresses are left out; the commission
-- is rounded from the exact product.
pub mod Fee
use afrique_os.Common.{
  ℕ, ◌+◌, Bool, true, false, ◌&&◌, ◌||◌, not, Option, none, some, ◌∷◌, [], ◌++◌, if◌then◌else◌,
  ◌==◌, any,
}
use afrique_os.Common.Int.{ℤ, pos, ◌+ℤ◌, ◌-ℤ◌, ◌*ℕ◌, floor_div, max_ℤ}
use afrique_os.Common.Tables.{find_first, update_many}
use afrique_os.Common.Text.{trim, is_empty}
use afrique_os.Database.Enums.{
  DispatchMode, MissionStatus, ShipmentStatus, BeneficiaryType, SettlementStatus, PaymentMethod,
  AgencyStatus, is_public_pool, is_pending, is_verified, is_active_membership,
}
use afrique_os.Database.Rows.{
  Text, Order, Shipment, Mission, Leg, Agency, EventKind, EventState, Db,
}
use afrique_os.Database.Action.{
  Action, pure, gets, or_throw, throw, throw_if, modify, transaction, ◌>>=◌, ◌>>◌, not_found,
  bad_request, forbidden, conflict,
}
use afrique_os.Database.Calls.{order_or_throw, update_order, update_shipment, add_event}
use afrique_os.Delivery.Config.{DeliveryConfig, get_config, or_else}
use afrique_os.Delivery.Quote.{is_interurban_mode}

pub record DispatchRequest : Type 0 where
  pub mode : DispatchMode
  pub personal_name : Option Text
  pub personal_phone : Option Text
  pub is_external_payment : Option Bool
  pub agency_id : Option ℕ
  pub requested_courier_id : Option ℕ
  pub agreed_fee : Option ℤ

abbrev pub is_running : MissionStatus → Bool
is_running MissionStatus.offered = true
is_running MissionStatus.reserved = true
is_running MissionStatus.assigned = true
is_running MissionStatus.accepted = true
is_running MissionStatus.collecting = true
is_running MissionStatus.carrying = true
is_running MissionStatus.handover_pending = true
is_running _ = false

abbrev pub is_running_for : ℕ → Mission → Bool
is_running_for shipment m = m.shipment_id == shipment && is_running m.status

abbrev is_cash : PaymentMethod → Bool
is_cash PaymentMethod.cash_on_delivery = true
is_cash _ = false

abbrev is_personal : DispatchMode → Bool
is_personal DispatchMode.seller_personal_courier = true
is_personal _ = false

abbrev pub owns_boutique : ℕ → ℕ → Db → Bool
owns_boutique user boutique db = any (λ b. b.id == boutique && b.owner_id == user) db.boutiques

-- The rules of payment: what may not be paid at the door, and what has to be paid before.
unfoldable pub check_payment : DispatchMode → Shipment → Order → DeliveryConfig → Action (Unit {0})
check_payment mode s order config = do
  throw_if (is_cash order.payment_method && is_public_pool mode && not config.public_cod)
      bad_request
  throw_if
      (is_cash order.payment_method
        && is_interurban_mode s.delivery_mode
        && not config.interurban_cod)
      bad_request
  throw_if
      ((not (is_personal mode) || is_interurban_mode s.delivery_mode) && is_pending order.status)
      bad_request

abbrev pub applied_rate : DispatchMode → DeliveryConfig → ℕ
applied_rate DispatchMode.seller_personal_courier c = c.personal_rate
applied_rate DispatchMode.partner_agency c = c.agency_rate
applied_rate DispatchMode.public_pool c = c.independent_rate

-- The fee, its commission in whole francs, halves up, and what is left of it.
unfoldable pub platform_commission : ℤ → ℕ → ℤ
platform_commission fee rate = floor_div (fee *ℕ rate +ℤ pos 500000) 1000000 *ℕ 100

unfoldable pub net_courier_payout : ℤ → ℕ → ℤ
unfolding platform_commission
net_courier_payout fee rate = max_ℤ (pos 0) (fee -ℤ platform_commission fee rate)

abbrev leg_id_of : Option Leg → Option ℕ
leg_id_of none = none
leg_id_of (some l) = some l.id

-- A mission as it is created: offered, to nobody yet.
unfoldable pub new_mission : ℕ → DispatchRequest → Shipment → DeliveryConfig → Option Leg → Mission
unfolding platform_commission net_courier_payout
new_mission new_id dto s config leg =
    let fee = or_else dto.agreed_fee s.quoted_fee in
    let rate = applied_rate dto.mode config in
    record {
      id = new_id;
      shipment_id = s.id;
      leg_id = leg_id_of leg;
      mission_mode = dto.mode;
      status = MissionStatus.offered;
      agency_id = none;
      courier_id = none;
      requested_courier_id = none;
      agency_approved_preferred = none;
      agreed_fee = fee;
      commission_rate = rate;
      commission = platform_commission fee rate;
      net_payout = net_courier_payout fee rate;
      is_external_payment = false;
      expires_at = none;
      accepted_at = none;
      picked_up_at = none;
      completed_at = none;
    }

abbrev pub add_mission : Mission → Db → Db
add_mission m db = record db { missions = m ∷ db.missions }

-- "name (phone)"
abbrev pub contact_text : Text → Text → Text
contact_text name phone = name ++ 32 ∷ 40 ∷ phone ++ 41 ∷ []

abbrev pub is_given : Option Text → Bool
is_given none = false
is_given (some t) = not (is_empty t)

abbrev text_of : Option Text → Text
text_of none = []
text_of (some t) = t

abbrev pub personal_mission : ℕ → DispatchRequest → Mission → Mission
personal_mission now dto m = record m {
  status = MissionStatus.assigned;
  is_external_payment = or_else dto.is_external_payment true;
  accepted_at = some now;
}

unfoldable pub record_personal : ℕ → DispatchRequest → Shipment → Mission → Action Mission
unfolding trim
record_personal now dto s m = transaction do
  modify (add_mission (personal_mission now dto m))
  update_shipment s.id (λ x. record x {
    dispatch_mode = some DispatchMode.seller_personal_courier;
    status = ShipmentStatus.assigned;
    dispatched_at = some now;
  })
  update_order s.order_id (λ o. record o {
    delivery_contact =
        some (contact_text (trim (text_of dto.personal_name)) (trim (text_of dto.personal_phone)));
  })
  modify (
      add_event s.id EventKind.dispatched_personal_courier (EventState.of_shipment s.status)
        (EventState.of_shipment ShipmentStatus.assigned))
  pure (personal_mission now dto m)

unfoldable pub dispatch_personal : ℕ → DispatchRequest → Shipment → Mission → Action Mission
unfolding record_personal
dispatch_personal now dto s m = do
  throw_if (not (is_given dto.personal_name && is_given dto.personal_phone)) bad_request
  record_personal now dto s m

abbrev pub is_active_agency : AgencyStatus → Bool
is_active_agency AgencyStatus.active = true
is_active_agency _ = false

abbrev pub is_active_member : ℕ → ℕ → Db → Bool
is_active_member agency courier db =
    any (λ m. m.agency_id == agency && m.courier_id == courier && is_active_membership m.status)
      db.memberships

abbrev pub is_member_if : ℕ → Option ℕ → Db → Bool
is_member_if agency none db = true
is_member_if agency (some courier) db = is_active_member agency courier db

unfoldable pub offer_to_agency : ℕ → ℕ → ℕ → Shipment → Mission → Action Mission
offer_to_agency now new_id agency s m = transaction do
  modify (add_mission m)
  update_shipment s.id (λ x. record x {
    dispatch_mode = some DispatchMode.partner_agency;
    status = ShipmentStatus.awaiting_assignment;
    assigned_agency_id = some agency;
    dispatched_at = some now;
  })
  modify (λ db. record db {
    allocations =
        record {
          id = new_id;
          order_id = s.order_id;
          shipment_id = some s.id;
          beneficiary_type = BeneficiaryType.delivery_agency;
          beneficiary_id = agency;
          gross_amount = m.agreed_fee;
          commission_rate = m.commission_rate;
          commission_amount = m.commission;
          net_amount = m.net_payout;
          status = SettlementStatus.awaiting_delivery_verification;
          eligible_for_release_at = none;
          released_at = none;
        }
        ∷ db.allocations;
  })
  modify (
      add_event s.id EventKind.mission_offered_to_agency (EventState.of_shipment s.status)
        (EventState.of_shipment ShipmentStatus.awaiting_assignment))
  pure m

abbrev pub agency_mission : ℕ → ℕ → DispatchRequest → Mission → Mission
agency_mission now agency dto m = record m {
  agency_id = some agency;
  requested_courier_id = dto.requested_courier_id;
  expires_at = some (now + 14400000);
}

unfoldable pub dispatch_to_agency : ℕ → ℕ → DispatchRequest → Shipment → Mission → Action Mission
unfolding offer_to_agency
dispatch_to_agency now new_id dto s m = do
  agency_id ← or_throw dto.agency_id bad_request
  found ← gets (λ db. find_first (λ a. a.id == agency_id) db.agencies)
  agency ← or_throw found not_found
  throw_if (not (is_verified agency.verification_status && is_active_agency agency.status))
      bad_request
  member ← gets (is_member_if agency.id dto.requested_courier_id)
  throw_if (not member) bad_request
  offer_to_agency now new_id agency.id s (agency_mission now agency.id dto m)

abbrev pub open_mission : ℕ → Mission → Mission
open_mission now m = record m { expires_at = some (now + 21600000) }

unfoldable pub publish : ℕ → Shipment → Mission → Action Mission
publish now s m = transaction do
  modify (add_mission (open_mission now m))
  update_shipment s.id (λ x. record x {
    dispatch_mode = some DispatchMode.public_pool;
    status = ShipmentStatus.awaiting_assignment;
    dispatched_at = some now;
  })
  modify (
      add_event s.id EventKind.mission_published (EventState.of_shipment s.status)
        (EventState.of_shipment ShipmentStatus.awaiting_assignment))
  pure (open_mission now m)

unfoldable pub dispatch_by :
    DispatchMode → ℕ → ℕ → DispatchRequest → Shipment → Mission → Action Mission
unfolding dispatch_personal dispatch_to_agency publish
dispatch_by DispatchMode.seller_personal_courier now new_id dto s m = dispatch_personal now dto s m
dispatch_by DispatchMode.partner_agency now new_id dto s m = dispatch_to_agency now new_id dto s m
dispatch_by DispatchMode.public_pool now new_id dto s m = publish now s m

-- What follows where no mission is under way for the shipment.
unfoldable pub dispatch_free : ℕ → ℕ → DispatchRequest → Shipment → Action Mission
unfolding dispatch_by check_payment new_mission get_config
dispatch_free now new_id dto s = do
  config ← gets get_config
  order ← order_or_throw s.order_id
  check_payment dto.mode s order config
  leg ← gets (λ db. find_first (λ l. l.shipment_id == s.id) db.legs)
  dispatch_by dto.mode now new_id dto s (new_mission new_id dto s config leg)

unfoldable pub dispatch_shipment : ℕ → ℕ → ℕ → ℕ → DispatchRequest → Bool → Action Mission
unfolding dispatch_free
dispatch_shipment now new_id id seller dto is_admin = do
  found ← gets (λ db. find_first (λ s. s.id == id) db.shipments)
  s ← or_throw found not_found
  owner ← gets (owns_boutique seller s.boutique_id)
  throw_if (not is_admin && not owner) forbidden
  running ← gets (λ db. any (is_running_for s.id) db.missions)
  throw_if running conflict
  dispatch_free now new_id dto s
