-- ===== src/Delivery/Partners.antt =====
-- adminVerifyAgency, adminVerifyCourier, attachCourierToAgency and detachCourierFromAgency of
-- backend/src/delivery/delivery.service.ts: who may carry, and for whom.
pub mod Exclusive
use afrique_os.Common.{
  ℕ, Bool, true, false, ◌&&◌, not, Option, none, some, ◌∷◌, if◌then◌else◌, ◌==◌, any, is_id,
}
use afrique_os.Common.Tables.{find_first, update_many}
use afrique_os.Database.Enums.{
  VerificationStatus, AgencyStatus, CourierStatus, CourierType, MembershipStatus, MissionStatus,
  is_active_membership, is_public_pool,
}
use afrique_os.Database.Rows.{Courier, Agency, Membership, Mission, Db}
use afrique_os.Database.Action.{
  Action, pure, gets, or_throw, throw_if, modify, transaction, ◌>>=◌, ◌>>◌, not_found, forbidden,
  conflict,
}
use afrique_os.Database.Calls.{update_courier, update_agency}
use afrique_os.Delivery.Config.{or_else}
use afrique_os.Delivery.Finalize.{is_carried}

abbrev agency_status : VerificationStatus → AgencyStatus → AgencyStatus
agency_status VerificationStatus.verified old = AgencyStatus.active
agency_status VerificationStatus.rejected old = AgencyStatus.suspended
agency_status _ old = old

unfoldable pub admin_verify_agency : ℕ → VerificationStatus → Action (Unit {0})
admin_verify_agency id verification = do
  found ← gets (λ db. find_first (λ a. a.id == id) db.agencies)
  agency ← or_throw found not_found
  update_agency id (λ a. record a {
    verification_status = verification;
    status = agency_status verification agency.status;
  })

abbrev courier_status : VerificationStatus → CourierStatus → CourierStatus
courier_status VerificationStatus.verified old = CourierStatus.active
courier_status VerificationStatus.rejected old = CourierStatus.suspended
courier_status _ old = old

unfoldable pub admin_verify_courier : ℕ → VerificationStatus → Action (Unit {0})
admin_verify_courier id verification = do
  found ← gets (λ db. find_first (λ c. c.id == id) db.couriers)
  courier ← or_throw found not_found
  update_courier id (λ c. record c {
    verification_status = verification;
    status = courier_status verification courier.status;
  })

abbrev pub is_pair : ℕ → ℕ → Membership → Bool
is_pair agency courier m = m.agency_id == agency && m.courier_id == courier

abbrev pub is_active_of : ℕ → Membership → Bool
is_active_of courier m = m.courier_id == courier && is_active_membership m.status

abbrev pub is_elsewhere : ℕ → ℕ → Membership → Bool
is_elsewhere agency courier m = is_active_of courier m && not (m.agency_id == agency)

abbrev is_taken_on : MissionStatus → Bool
is_taken_on MissionStatus.assigned = false
is_taken_on s = is_carried s

abbrev pub is_public_work : ℕ → Mission → Bool
is_public_work courier m =
    is_id m.courier_id courier && is_public_pool m.mission_mode && is_taken_on m.status

abbrev pub activate : Bool → Membership → Membership
activate can_be_requested m = record m {
  status = MembershipStatus.active;
  can_be_requested = can_be_requested;
}

abbrev pub new_member : ℕ → ℕ → Bool → Membership
new_member agency courier can_be_requested = record {
  agency_id = agency;
  courier_id = courier;
  status = MembershipStatus.active;
  can_be_requested = can_be_requested;
}

abbrev pub upsert_membership : ℕ → ℕ → Bool → Db → Db
upsert_membership agency courier can_be_requested db =
    if any (is_pair agency courier) db.memberships
    then record db {
      memberships = update_many (is_pair agency courier) (activate can_be_requested) db.memberships;
    }
    else record db { memberships = new_member agency courier can_be_requested ∷ db.memberships }

abbrev pub make_member : ℕ → Courier → Courier
make_member agency c = record c {
  courier_type = CourierType.agency_member;
  active_agency_id = some agency;
}

unfoldable pub record_attachment : ℕ → ℕ → Bool → Action (Unit {0})
record_attachment agency courier can_be_requested = transaction do
  modify (upsert_membership agency courier can_be_requested)
  update_courier courier (make_member agency)

unfoldable pub attach_courier : ℕ → ℕ → ℕ → Option Bool → Bool → Action (Unit {0})
unfolding record_attachment
attach_courier agency_id owner courier_id can_be_requested is_admin = do
  found ← gets (λ db. find_first (λ a. a.id == agency_id) db.agencies)
  agency ← or_throw found not_found
  throw_if (not is_admin && not (agency.owner_id == owner)) forbidden
  profile ← gets (λ db. find_first (λ c. c.id == courier_id) db.couriers)
  courier ← or_throw profile not_found
  elsewhere ← gets (λ db. any (is_elsewhere agency_id courier.id) db.memberships)
  throw_if elsewhere conflict
  busy ← gets (λ db. any (is_public_work courier.id) db.missions)
  throw_if busy conflict
  record_attachment agency_id courier.id (or_else can_be_requested true)

abbrev pub is_agency_work : ℕ → ℕ → Mission → Bool
is_agency_work agency courier m =
    is_id m.agency_id agency && is_id m.courier_id courier && is_carried m.status

abbrev pub is_active_pair : ℕ → ℕ → Membership → Bool
is_active_pair agency courier m = is_pair agency courier m && is_active_membership m.status

abbrev pub detach : Membership → Membership
detach m = record m { status = MembershipStatus.detached }

abbrev pub make_independent : Courier → Courier
make_independent c = record c { courier_type = CourierType.independent; active_agency_id = none }

unfoldable pub record_detachment : ℕ → ℕ → Action (Unit {0})
record_detachment agency courier = transaction do
  modify (λ db. record db {
    memberships = update_many (is_active_pair agency courier) detach db.memberships;
  })
  update_courier courier make_independent

unfoldable pub detach_courier : ℕ → ℕ → ℕ → Bool → Action (Unit {0})
unfolding record_detachment
detach_courier agency_id courier_id actor is_admin = do
  found ← gets (λ db. find_first (λ a. a.id == agency_id) db.agencies)
  agency ← or_throw found not_found
  throw_if (not is_admin && not (agency.owner_id == actor)) forbidden
  busy ← gets (λ db. any (is_agency_work agency_id courier_id) db.missions)
  throw_if busy conflict
  record_detachment agency_id courier_id
