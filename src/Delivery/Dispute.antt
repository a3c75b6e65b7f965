-- ===== src/Delivery/Dispute.antt =====
-- openDispute and resolveDisputeByAdmin of backend/src/delivery/delivery.service.ts. The reference and
-- the texts of a dispute are left out; the reference is made, and not looked up.
pub mod Freeze
use afrique_os.Common.{
  ℕ, Bool, true, false, ◌&&◌, not, Option, none, some, List, ◌∷◌, if◌then◌else◌, ◌==◌, is_id,
}
use afrique_os.Common.Tables.{find_first, find_many, update_many}
use afrique_os.Database.Enums.{
  SettlementStatus, ShipmentStatus, DisputeScope, DisputeStatus, is_seller, is_delivery_part,
  is_on_hold, is_refunded,
}
use afrique_os.Database.Rows.{Text, Allocation, Shipment, Dispute, EventKind, EventState, Db}
use afrique_os.Database.Action.{
  Action, pure, gets, or_throw, modify, transaction, ◌>>=◌, ◌>>◌, not_found,
}
use afrique_os.Database.Calls.{update_shipment, update_dispute, add_event}
use afrique_os.Delivery.Tokens.{check_buyer}
use afrique_os.Refunds.{deduct_all, freeze}

abbrev pub freezes_seller : DisputeScope → Bool
freezes_seller DisputeScope.delivery_only = false
freezes_seller _ = true

abbrev pub freezes_delivery : DisputeScope → Bool
freezes_delivery DisputeScope.product_only = false
freezes_delivery _ = true

abbrev pub is_seller_part : ℕ → Allocation → Bool
is_seller_part id a = is_id a.shipment_id id && is_seller a.beneficiary_type

abbrev pub is_carrier_part : ℕ → Allocation → Bool
is_carrier_part id a = is_id a.shipment_id id && is_delivery_part a.beneficiary_type

abbrev freeze_if : Bool → (Allocation → Bool) → Db → Db
freeze_if false p db = db
freeze_if true p db = record db { allocations = update_many p freeze db.allocations }

abbrev pub new_dispute : ℕ → DisputeScope → Shipment → Dispute
new_dispute new_id scope s = record {
  id = new_id;
  shipment_id = s.id;
  scope = scope;
  status = DisputeStatus.opened;
  seller_frozen = freezes_seller scope;
  delivery_frozen = freezes_delivery scope;
}

unfoldable pub record_dispute : ℕ → DisputeScope → Shipment → Action (Unit {0})
record_dispute new_id scope s = transaction do
  modify (λ db. record db { disputes = new_dispute new_id scope s ∷ db.disputes })
  modify (freeze_if (freezes_seller scope) (is_seller_part s.id))
  modify (freeze_if (freezes_delivery scope) (is_carrier_part s.id))
  update_shipment s.id (λ x. record x { status = ShipmentStatus.under_review })
  modify (
      add_event s.id EventKind.dispute_opened (EventState.of_shipment s.status)
        (EventState.of_shipment ShipmentStatus.under_review))

unfoldable pub open_dispute :
    (Text → ℕ) → ℕ → ℕ → DisputeScope → Option Text → Option ℕ → Action (Unit {0})
unfolding check_buyer record_dispute
open_dispute digest new_id id scope token user = do
  found ← gets (λ db. find_first (λ s. s.id == id) db.shipments)
  s ← or_throw found not_found
  check_buyer digest user token s
  record_dispute new_id scope s

abbrev is_frozen_of : ℕ → Allocation → Bool
is_frozen_of id a = is_id a.shipment_id id && is_on_hold a.status

abbrev pub free_again : ℕ → Allocation → Allocation
free_again now a = record a {
  status = SettlementStatus.eligible_for_release;
  eligible_for_release_at = some now;
}

abbrev refund : Allocation → Allocation
refund a = record a { status = SettlementStatus.refunded }

abbrev is_unrefunded : ℕ → Allocation → Bool
is_unrefunded id a = is_seller_part id a && not (is_refunded a.status)

-- What each resolution does to the money of the shipment.
unfoldable pub settle_resolution : ℕ → ℕ → DisputeStatus → Action (Unit {0})
unfolding deduct_all
settle_resolution now shipment DisputeStatus.resolved_refund_buyer = do
  parts ← gets (λ db. find_many (is_unrefunded shipment) db.allocations)
  modify
      (λ db. record db { allocations = update_many (is_frozen_of shipment) refund db.allocations })
  deduct_all parts
settle_resolution now shipment DisputeStatus.resolved_release_seller = modify (λ db. record db {
  allocations = update_many (is_frozen_of shipment) (free_again now) db.allocations;
})
settle_resolution now shipment DisputeStatus.rejected = modify (λ db. record db {
  allocations = update_many (is_frozen_of shipment) (free_again now) db.allocations;
})
settle_resolution now shipment DisputeStatus.resolved_release_courier = modify (λ db. record db {
  allocations = update_many (is_carrier_part shipment) (free_again now) db.allocations;
})
settle_resolution now shipment _ = pure tt

unfoldable pub resolve_dispute : ℕ → ℕ → DisputeStatus → Action (Unit {0})
unfolding settle_resolution
resolve_dispute now id status = do
  found ← gets (λ db. find_first (λ d. d.id == id) db.disputes)
  d ← or_throw found not_found
  transaction do
    update_dispute d.id (λ x. record x { status = status })
    settle_resolution now d.shipment_id status
