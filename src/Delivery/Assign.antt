-- ===== src/Delivery/Assign.antt =====
-- assertVerifiedIndependentCourier, listPublicMissionsForIndependentCourier, acceptPublicMission and
-- assignMissionByAgency of backend/src/delivery/delivery.service.ts: who may see and take a mission.
pub mod Once
use afrique_os.Common.{
  ℕ, zero, suc, Bool, true, false, ◌&&◌, ◌||◌, not, Option, none, some, List, [], ◌∷◌, ◌++◌,
  if◌then◌else◌, ◌==◌, any, is_id,
}
use afrique_os.Common.Tables.{find_first, find_many, update_many, count, is_some}
use afrique_os.Database.Enums.{
  MissionStatus, ShipmentStatus, LegStatus, BeneficiaryType, SettlementStatus, CourierType,
  CourierStatus, is_public_pool, is_offered, is_verified, is_active_membership,
}
use afrique_os.Database.Rows.{Text, Shipment, Mission, Courier, Agency, EventKind, EventState, Db}
use afrique_os.Database.Action.{
  Action, pure, gets, or_throw, throw, throw_if, modify, transaction, ◌>>=◌, ◌>>◌, not_found,
  bad_request, forbidden, conflict,
}
use afrique_os.Database.Calls.{
  mission_or_throw, shipment_or_throw, update_order, update_shipment, update_leg, add_event,
}
use afrique_os.Delivery.Access.{activate_conversation_access}
use afrique_os.Delivery.Dispatch.{contact_text, is_active_member}

abbrev is_agency_member : CourierType → Bool
is_agency_member CourierType.agency_member = true
is_agency_member _ = false

abbrev is_active_courier : CourierStatus → Bool
is_active_courier CourierStatus.active = true
is_active_courier _ = false

-- Any agency at all.
abbrev pub is_attached : Courier → Db → Bool
is_attached c db =
    is_agency_member c.courier_type
    || is_some c.active_agency_id
    || any (λ m. m.courier_id == c.id && is_active_membership m.status) db.memberships

abbrev pub is_ready : Courier → Bool
is_ready c = is_verified c.verification_status && is_active_courier c.status

unfoldable pub verified_independent_courier : ℕ → Action Courier
verified_independent_courier user = do
  found ← gets (λ db. find_first (λ c. c.user_id == user) db.couriers)
  c ← or_throw found forbidden
  attached ← gets (is_attached c)
  throw_if attached forbidden
  throw_if (not (is_ready c)) forbidden
  pure c

abbrev pub is_open_mission : Mission → Bool
is_open_mission m =
    is_public_pool m.mission_mode && is_offered m.status && not (is_some m.courier_id)

unfoldable pub list_public_missions : ℕ → Action (List Mission)
unfolding verified_independent_courier
list_public_missions user = do
  c ← verified_independent_courier user
  gets (λ db. find_many is_open_mission db.missions)

abbrev pub is_claimable : ℕ → Mission → Bool
is_claimable id m = m.id == id && is_open_mission m

abbrev pub claim : ℕ → ℕ → Mission → Mission
claim now courier m = record m {
  status = MissionStatus.accepted;
  courier_id = some courier;
  accepted_at = some now;
}

abbrev pub assign_leg : Option ℕ → Action (Unit {0})
assign_leg none = pure tt
assign_leg (some id) = update_leg id (λ l. record l { status = LegStatus.assigned })

abbrev assign_shipment : ℕ → Shipment → Shipment
assign_shipment courier s = record s {
  status = ShipmentStatus.assigned;
  assigned_courier_id = some courier;
}

abbrev pub courier_part : ℕ → Courier → Shipment → Mission → Db → Db
courier_part new_id c s m db = record db {
  allocations =
      record {
        id = new_id;
        order_id = s.order_id;
        shipment_id = some m.shipment_id;
        beneficiary_type = BeneficiaryType.independent_courier;
        beneficiary_id = c.id;
        gross_amount = m.agreed_fee;
        commission_rate = m.commission_rate;
        commission_amount = m.commission;
        net_amount = m.net_payout;
        status = SettlementStatus.awaiting_delivery_verification;
        eligible_for_release_at = none;
        released_at = none;
      }
      ∷ db.allocations;
}

abbrev pub claim_event : Mission → Db → Db
claim_event m =
    add_event m.shipment_id EventKind.public_mission_accepted
      (EventState.of_mission MissionStatus.offered) (EventState.of_mission MissionStatus.accepted)

-- What follows a claim that won.
unfoldable pub after_claim : ℕ → ℕ → Courier → Action Mission
unfolding activate_conversation_access
after_claim new_id id c = do
  m ← mission_or_throw id
  s ← shipment_or_throw m.shipment_id
  update_shipment m.shipment_id (assign_shipment c.id)
  assign_leg m.leg_id
  update_order s.order_id
      (λ o. record o { delivery_contact = some (contact_text c.display_name c.phone) })
  modify (courier_part new_id c s m)
  activate_conversation_access s m.id c.user_id new_id
  modify (claim_event m)
  mission_or_throw m.id

-- `claim.count === 0`
unfoldable pub if_claimed : ℕ → ℕ → ℕ → Courier → Action Mission
unfolding after_claim
if_claimed zero new_id id c = throw conflict
if_claimed (suc claimed) new_id id c = after_claim new_id id c

unfoldable pub claim_mission : ℕ → ℕ → ℕ → Courier → Action Mission
unfolding if_claimed
claim_mission now new_id id c = transaction do
  claimed ← gets (λ db. count (is_claimable id) db.missions)
  modify (λ db. record db { missions = update_many (is_claimable id) (claim now c.id) db.missions })
  if_claimed claimed new_id id c

unfoldable pub accept_public_mission : ℕ → ℕ → ℕ → ℕ → Action Mission
unfolding verified_independent_courier claim_mission
accept_public_mission now new_id id user = do
  c ← verified_independent_courier user
  claim_mission now new_id id c

-- "name - Agence agency (phone)"
abbrev agency_contact : Courier → Agency → Text
agency_contact c a =
    contact_text (c.display_name ++ 32 ∷ 45 ∷ 32 ∷ 65 ∷ 103 ∷ 101 ∷ 110 ∷ 99 ∷ 101 ∷ 32 ∷ a.name)
      c.phone

abbrev is_assignable_status : MissionStatus → Bool
is_assignable_status MissionStatus.offered = true
is_assignable_status MissionStatus.assigned = true
is_assignable_status _ = false

abbrev pub is_assignable : ℕ → ℕ → Mission → Bool
is_assignable id agency m = m.id == id && is_id m.agency_id agency && is_assignable_status m.status

abbrev approved_preferred : Option ℕ → ℕ → Option Bool
approved_preferred none courier = none
approved_preferred (some requested) courier = some (requested == courier)

abbrev pub assign_to : ℕ → ℕ → Option Bool → Mission → Mission
assign_to now courier preferred m = record m {
  status = MissionStatus.accepted;
  courier_id = some courier;
  agency_approved_preferred = preferred;
  accepted_at = some now;
}

abbrev pub assignment_event : Mission → Db → Db
assignment_event m =
    add_event m.shipment_id EventKind.agency_assigned_courier (EventState.of_mission m.status)
      (EventState.of_mission MissionStatus.accepted)

unfoldable pub after_assignment : ℕ → Courier → Agency → Mission → Action Mission
unfolding activate_conversation_access
after_assignment new_id c a m = do
  s ← shipment_or_throw m.shipment_id
  update_shipment m.shipment_id (assign_shipment c.id)
  assign_leg m.leg_id
  update_order s.order_id (λ o. record o { delivery_contact = some (agency_contact c a) })
  activate_conversation_access s m.id c.user_id new_id
  modify (assignment_event m)
  mission_or_throw m.id

unfoldable pub if_assigned : ℕ → ℕ → Courier → Agency → Mission → Action Mission
unfolding after_assignment
if_assigned zero new_id c a m = throw conflict
if_assigned (suc claimed) new_id c a m = after_assignment new_id c a m

unfoldable pub assign_mission : ℕ → ℕ → Courier → Agency → Mission → Action Mission
unfolding if_assigned
assign_mission now new_id c a m = transaction do
  claimed ← gets (λ db. count (is_assignable m.id a.id) db.missions)
  modify (λ db. record db {
    missions =
        update_many (is_assignable m.id a.id)
          (assign_to now c.id (approved_preferred m.requested_courier_id c.id)) db.missions;
  })
  if_assigned claimed new_id c a m

abbrev pub agency_of : Mission → Db → Option Agency
agency_of m db = elim m.agency_id [
  | none ↦ none
  | some id ↦ find_first (λ a. a.id == id) db.agencies
]

unfoldable pub assign_mission_by_agency : ℕ → ℕ → ℕ → ℕ → ℕ → Bool → Action Mission
unfolding assign_mission
assign_mission_by_agency now new_id id owner courier_id is_admin = do
  found ← gets (λ db. find_first (λ m. m.id == id) db.missions)
  m ← or_throw found not_found
  of_agency ← gets (agency_of m)
  a ← or_throw of_agency not_found
  throw_if (not is_admin && not (a.owner_id == owner)) forbidden
  member ← gets (is_active_member a.id courier_id)
  throw_if (not member) bad_request
  courier ← gets (λ db. find_first (λ c. c.id == courier_id) db.couriers)
  c ← or_throw courier bad_request
  throw_if (not (is_ready c)) bad_request
  assign_mission now new_id c a m
