-- ===== src/Delivery/Finalize.antt =====
-- finalizeVerifiedDelivery of backend/src/delivery/delivery.service.ts: what a verified delivery does
-- to the shipment, its mission, its legs, its order, the parts of the money and the conversation.
pub mod Parts
pub mod Held
use afrique_os.Common.{
  ℕ, ◌+◌, ◌*◌, Bool, true, false, ◌&&◌, not, Option, none, some, List, [], ◌∷◌, if◌then◌else◌, ◌==◌,
  is_id,
}
use afrique_os.Common.Int.{ℤ, ◌+ℤ◌}
use afrique_os.Common.Tables.{find_first, find_many, update_many}
use afrique_os.Database.Enums.{
  SettlementStatus, ShipmentStatus, MissionStatus, LegStatus, OrderStatus, HandoverStep, is_seller,
  is_courier, is_agency, is_delivery_part, is_on_hold,
}
use afrique_os.Database.Rows.{
  Allocation, Shipment, Mission, Courier, Agency, EventKind, EventState, Db,
}
use afrique_os.Database.Action.{Action, pure, gets, modify, transaction, ◌>>=◌, ◌>>◌}
use afrique_os.Database.Calls.{
  shipment_or_throw, update_shipment, update_mission, update_order, update_allocation,
  update_courier, update_agency, add_event,
}
use afrique_os.Delivery.Config.{get_config}

abbrev pub is_carried : MissionStatus → Bool
is_carried MissionStatus.assigned = true
is_carried MissionStatus.accepted = true
is_carried MissionStatus.collecting = true
is_carried MissionStatus.carrying = true
is_carried MissionStatus.handover_pending = true
is_carried _ = false

abbrev is_cancelled_leg : LegStatus → Bool
is_cancelled_leg LegStatus.cancelled = true
is_cancelled_leg _ = false

unfoldable pub window_ms : Db → ℕ
unfolding get_config
window_ms db =
    let hours = (get_config db).conformity_hours in (if hours == 0 then 24 else hours) * 3600000

abbrev pub earn : ℕ → Allocation → Allocation
earn now a = record a {
  status = SettlementStatus.eligible_for_release;
  eligible_for_release_at = some now;
}

abbrev pub wait_for_buyer : ℕ → Allocation → Allocation
wait_for_buyer deadline a = record a {
  status = SettlementStatus.awaiting_buyer_conformity;
  eligible_for_release_at = some deadline;
}

abbrev pay_courier : ℤ → Courier → Courier
pay_courier net c = record c {
  balance = c.balance +ℤ net;
  completed_missions = c.completed_missions + 1;
}

abbrev pay_agency : ℤ → Agency → Agency
pay_agency net g = record g {
  balance = g.balance +ℤ net;
  completed_deliveries = g.completed_deliveries + 1;
}

unfoldable pub credit_partner : Allocation → Action (Unit {0})
credit_partner a =
    if is_courier a.beneficiary_type
    then update_courier a.beneficiary_id (pay_courier a.net_amount)
    else if is_agency a.beneficiary_type
    then update_agency a.beneficiary_id (pay_agency a.net_amount)
    else pure tt

-- One part of the money: the carrier's is earned, the seller's waits for the buyer.
unfoldable pub settle_part : ℕ → ℕ → Allocation → Action (Unit {0})
unfolding credit_partner
settle_part now deadline a =
    if is_on_hold a.status
    then pure tt
    else if is_delivery_part a.beneficiary_type
    then (do update_allocation a.id (earn now); credit_partner a)
    else if is_seller a.beneficiary_type
    then update_allocation a.id (wait_for_buyer deadline)
    else pure tt

unfoldable pub settle_each : ℕ → ℕ → List Allocation → Action (Unit {0})
settle_each now deadline [] = pure tt
settle_each now deadline (a ∷ rest) = settle_part now deadline a >> settle_each now deadline rest

abbrev pub complete_mission : ℕ → Option Mission → Action (Unit {0})
complete_mission now none = pure tt
complete_mission now (some m) =
    update_mission m.id
      (λ x. record x { status = MissionStatus.completed; completed_at = some now })

abbrev verified_now : ℕ → ℕ → Shipment → Shipment
verified_now now deadline s = record s {
  status = ShipmentStatus.delivered_verified;
  delivered_verified_at = some now;
  conformity_deadline_at = some deadline;
  delivery_code_hash = none;
}

abbrev pub complete_legs : ℕ → Shipment → Db → Db
complete_legs now s db = record db {
  legs =
      update_many (λ l. l.shipment_id == s.id && not (is_cancelled_leg l.status))
        (λ l. record l { status = LegStatus.completed; arrived_at = some now }) db.legs;
}

unfoldable pub mark_delivered : ℕ → ℕ → Shipment → Option Mission → Action (Unit {0})
mark_delivered now deadline s mission = do
  modify (λ db. record db {
    evidences =
        record { shipment_id = s.id; step = HandoverStep.delivery_to_buyer; is_verified = true }
        ∷ db.evidences;
  })
  update_shipment s.id (verified_now now deadline)
  complete_mission now mission
  modify (complete_legs now s)
  update_order s.order_id (λ o. record o { status = OrderStatus.delivered })

-- The carrier may no longer write to the buyer.
unfoldable pub close_conversation : Shipment → Action (Unit {0})
close_conversation s = do
  modify (λ db. record db {
    accesses =
        update_many (λ a. a.shipment_id == s.id && a.is_active)
          (λ a. record a { is_active = false }) db.accesses;
  })
  modify (
      add_event s.id EventKind.delivery_verified (EventState.of_shipment s.status)
        (EventState.of_shipment ShipmentStatus.delivered_verified))

abbrev pub is_part_of : ℕ → Allocation → Bool
is_part_of id a = is_id a.shipment_id id

abbrev pub carried_mission : ℕ → Db → Option Mission
carried_mission id db = find_first (λ m. m.shipment_id == id && is_carried m.status) db.missions

-- What is done once the shipment is read, with its mission and its parts as they are then.
unfoldable pub deliver : ℕ → ℕ → Shipment → Action (Unit {0})
deliver now deadline s db =
    (mark_delivered now deadline s (carried_mission s.id db)
        >> settle_each now deadline (find_many (is_part_of s.id) db.allocations)
        >> close_conversation s)
      db

unfoldable pub finalize_verified_delivery : ℕ → ℕ → Action (Unit {0})
unfolding deliver
finalize_verified_delivery now id = do
  window ← gets window_ms
  transaction do s ← shipment_or_throw id; deliver now (now + window) s
