-- ===== src/Witnesses/Parcels.antt =====
-- A small database of deliveries on top of the shop's: one parcel with its parts of the money, a
-- courier, two agencies and a mission that is open to all. The digest of a text is its length.
use afrique_os.Common.{ℕ, true, false, none, some, [], ◌∷◌, length}
use afrique_os.Common.Int.{pos}
use afrique_os.Database.Enums.{
  VerificationStatus, BeneficiaryType, SettlementStatus, ShipmentStatus, MissionStatus,
  DispatchMode, DeliveryMode, AgencyStatus, CourierType, CourierStatus,
}
use afrique_os.Database.Rows.{Text, Allocation, Shipment, Mission, Courier, Agency, Access, Db}
use afrique_os.Delivery.Dispatch.{DispatchRequest}
use afrique_os.Witnesses.Shop.{db, held_part}

abbrev pub digest : Text → ℕ
digest = length

abbrev pub right_code : Text
right_code = 49 ∷ 50 ∷ 51 ∷ 52 ∷ []

abbrev pub wrong_code : Text
wrong_code = 49 ∷ 50 ∷ []

abbrev pub parcel : Shipment
parcel = record {
  id = 2000;
  order_id = 1002;
  boutique_id = 10;
  customer_user_id = some 1;
  status = ShipmentStatus.in_transit;
  delivery_mode = DeliveryMode.home;
  dispatch_mode = none;
  quoted_fee = pos 100000;
  assigned_agency_id = none;
  assigned_courier_id = some 70;
  dispatched_at = none;
  delivery_code_hash = some 4;
  delivery_code_expires_at = some 800000;
  delivery_code_attempts = 0;
  delivery_code_locked_until = none;
  guest_tracking_token_hash = some 3;
  picked_up_at = none;
  arrived_at_station_at = none;
  delivered_verified_at = none;
  conformity_deadline_at = none;
  buyer_accepted_at = none;
}

abbrev pub seller_share : Allocation
seller_share = record held_part { shipment_id = some 2000 }

abbrev pub rider_share : Allocation
rider_share = record held_part {
  id = 5001;
  shipment_id = some 2000;
  beneficiary_type = BeneficiaryType.independent_courier;
  beneficiary_id = 70;
  net_amount = pos 90000;
}

abbrev pub waiting_share : Allocation
waiting_share = record held_part {
  id = 5002;
  shipment_id = some 2000;
  status = SettlementStatus.awaiting_buyer_conformity;
  eligible_for_release_at = some 50;
}

abbrev pub free_share : Allocation
free_share = record held_part { id = 5003; status = SettlementStatus.eligible_for_release }

abbrev pub rider : Courier
rider = record {
  id = 70;
  user_id = 7;
  courier_type = CourierType.independent;
  verification_status = VerificationStatus.verified;
  status = CourierStatus.active;
  active_agency_id = none;
  display_name = 65 ∷ [];
  phone = 48 ∷ [];
  balance = pos 0;
  completed_missions = 0;
}

abbrev pub agency : Agency
agency = record {
  id = 80;
  owner_id = 8;
  verification_status = VerificationStatus.verified;
  status = AgencyStatus.active;
  name = 66 ∷ [];
  balance = pos 0;
  completed_deliveries = 0;
}

abbrev pub offer : Mission
offer = record {
  id = 3000;
  shipment_id = 2000;
  leg_id = none;
  mission_mode = DispatchMode.public_pool;
  status = MissionStatus.offered;
  agency_id = none;
  courier_id = none;
  requested_courier_id = none;
  agency_approved_preferred = none;
  agreed_fee = pos 100000;
  commission_rate = 1000;
  commission = pos 10000;
  net_payout = pos 90000;
  is_external_payment = false;
  expires_at = none;
  accepted_at = none;
  picked_up_at = none;
  completed_at = none;
}

abbrev pub open_access : Access
open_access = record {
  id = 9000;
  shipment_id = 2000;
  mission_id = 3000;
  conversation_id = 9100;
  customer_user_id = some 1;
  courier_user_id = 7;
  is_active = true;
}

abbrev pub parcels : Db
parcels = record db {
  shipments = parcel ∷ [];
  allocations = seller_share ∷ rider_share ∷ free_share ∷ [];
  couriers = rider ∷ [];
  agencies = agency ∷ [];
  accesses = open_access ∷ [];
}

-- The same with a mission in the pool.
abbrev pub with_offer : Db
with_offer = record parcels { missions = offer ∷ [] }

-- The same with a part whose time is over.
abbrev pub overdue : Db
overdue = record parcels { allocations = seller_share ∷ waiting_share ∷ [] }

abbrev pub to_pool : DispatchRequest
to_pool = record {
  mode = DispatchMode.public_pool;
  personal_name = none;
  personal_phone = none;
  is_external_payment = none;
  agency_id = none;
  requested_courier_id = none;
  agreed_fee = none;
}
