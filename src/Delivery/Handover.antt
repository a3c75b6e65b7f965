-- ===== src/Delivery/Handover.antt =====
-- recordHandoverEvidence of backend/src/delivery/delivery.service.ts: what a carrier declares on the
-- way. The texts and the positions of a declaration are left out.
pub mod Unpaid
use afrique_os.Common.{ℕ, Bool, true, false, ◌&&◌, Option, none, some, ◌∷◌, ◌==◌}
use afrique_os.Common.Tables.{find_first}
use afrique_os.Database.Enums.{
  ShipmentStatus, MissionStatus, LegType, LegStatus, OrderStatus, HandoverStep,
}
use afrique_os.Database.Rows.{Shipment, Mission, Leg, EventKind, EventState, Db}
use afrique_os.Database.Action.{
  Action, pure, gets, or_throw, modify, transaction, ◌>>=◌, ◌>>◌, not_found,
}
use afrique_os.Database.Calls.{update_shipment, update_order, update_mission, update_leg, add_event}

abbrev is_transit : LegType → Bool
is_transit LegType.interurban_transit = true
is_transit _ = false

abbrev pub transit_leg : ℕ → Db → Option Leg
transit_leg id db = find_first (λ l. l.shipment_id == id && is_transit l.leg_type) db.legs

abbrev pub set_mission : Option ℕ → (Mission → Mission) → Action (Unit {0})
set_mission none f = pure tt
set_mission (some id) f = update_mission id f

abbrev pub set_leg : Option Leg → (Leg → Leg) → Action (Unit {0})
set_leg none f = pure tt
set_leg (some l) f = update_leg l.id f

-- What each step does to the shipment, and to its order, its mission or its leg between two cities.
unfoldable pub handover_step : HandoverStep → ℕ → Shipment → Option ℕ → Action ShipmentStatus
handover_step HandoverStep.pickup_from_seller now s mission = do
  update_shipment s.id
      (λ x. record x { status = ShipmentStatus.picked_up; picked_up_at = some now })
  update_order s.order_id (λ o. record o { status = OrderStatus.shipping })
  set_mission mission (λ m. record m { status = MissionStatus.carrying; picked_up_at = some now })
  pure ShipmentStatus.picked_up
handover_step HandoverStep.handover_to_carrier now s mission = do
  update_shipment s.id (λ x. record x { status = ShipmentStatus.in_transit })
  leg ← gets (transit_leg s.id)
  set_leg leg (λ l. record l { status = LegStatus.handover_declared })
  pure ShipmentStatus.in_transit
handover_step HandoverStep.arrival_at_station now s mission = do
  update_shipment s.id (λ x. record x {
    status = ShipmentStatus.arrived_at_station;
    arrived_at_station_at = some now;
  })
  leg ← gets (transit_leg s.id)
  set_leg leg (λ l. record l { status = LegStatus.arrived_at_station; arrived_at = some now })
  pure ShipmentStatus.arrived_at_station
handover_step HandoverStep.delivery_to_buyer now s mission = do
  update_shipment s.id (λ x. record x { status = ShipmentStatus.delivery_pending_verification })
  set_mission mission (λ m. record m { status = MissionStatus.handover_pending })
  pure ShipmentStatus.delivery_pending_verification
handover_step _ now s mission = pure s.status

abbrev pub declare_evidence : ℕ → HandoverStep → Db → Db
declare_evidence id step db = record db {
  evidences = record { shipment_id = id; step = step; is_verified = false } ∷ db.evidences;
}

abbrev pub handover_event : Shipment → HandoverStep → ShipmentStatus → Db → Db
handover_event s step next =
    add_event s.id (EventKind.handover step) (EventState.of_shipment s.status)
      (EventState.of_shipment next)

unfoldable pub record_declaration : HandoverStep → ℕ → Shipment → Option ℕ → Action (Unit {0})
unfolding handover_step
record_declaration step now s mission = transaction do
  modify (declare_evidence s.id step)
  next ← handover_step step now s mission
  modify (handover_event s step next)

unfoldable pub record_handover_evidence : HandoverStep → ℕ → ℕ → Option ℕ → Action (Unit {0})
unfolding record_declaration
record_handover_evidence step now id mission = do
  found ← gets (λ db. find_first (λ s. s.id == id) db.shipments)
  s ← or_throw found not_found
  record_declaration step now s mission
