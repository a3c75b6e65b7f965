-- ===== src/Delivery/Conformity.antt =====
-- acceptProductConformity and processEligibleSellerSettlementsAfterConformityWindow of
-- backend/src/delivery/delivery.service.ts: the seller's money is released when the buyer accepts the
-- goods, or when the time for it is over and nothing stands against it.
pub mod Window
use afrique_os.Common.{
  ℕ, Bool, true, false, ◌&&◌, ◌||◌, not, Option, none, some, List, [], ◌∷◌, if◌then◌else◌, ◌==◌,
  leb, any, is_id,
}
use afrique_os.Common.Tables.{find_first, find_many, update_many}
use afrique_os.Database.Enums.{
  SettlementStatus, ShipmentStatus, RefundStatus, DisputeStatus, is_seller, is_on_hold,
  is_delivered_verified, is_buyer_accepted,
}
use afrique_os.Database.Rows.{Text, Allocation, Shipment, EventKind, EventState, Db}
use afrique_os.Database.Action.{
  Action, pure, gets, or_throw, throw_if, modify, transaction, ◌>>=◌, ◌>>◌, not_found, bad_request,
}
use afrique_os.Database.Calls.{update_shipment, update_allocation, add_event}
use afrique_os.Delivery.Tokens.{check_buyer}

abbrev pub release : ℕ → Allocation → Allocation
release now a = record a {
  status = SettlementStatus.eligible_for_release;
  eligible_for_release_at = some now;
}

abbrev pub is_free_seller_part : ℕ → Allocation → Bool
is_free_seller_part id a =
    is_id a.shipment_id id && is_seller a.beneficiary_type && not (is_on_hold a.status)

unfoldable pub accept_conformity : ℕ → Shipment → Action (Unit {0})
accept_conformity now s = transaction do
  update_shipment s.id
      (λ x. record x { status = ShipmentStatus.buyer_accepted; buyer_accepted_at = some now })
  modify (λ db. record db {
    allocations = update_many (is_free_seller_part s.id) (release now) db.allocations;
  })
  modify (
      add_event s.id EventKind.buyer_accepted_conformity (EventState.of_shipment s.status)
        (EventState.of_shipment ShipmentStatus.buyer_accepted))

unfoldable pub accept_product_conformity :
    (Text → ℕ) → ℕ → ℕ → Option ℕ → Option Text → Action (Unit {0})
unfolding check_buyer accept_conformity
accept_product_conformity digest now id user token = do
  found ← gets (λ db. find_first (λ s. s.id == id) db.shipments)
  s ← or_throw found not_found
  check_buyer digest user token s
  throw_if (not (is_delivered_verified s.status || is_buyer_accepted s.status)) bad_request
  accept_conformity now s

abbrev awaits_conformity : SettlementStatus → Bool
awaits_conformity SettlementStatus.awaiting_buyer_conformity = true
awaits_conformity _ = false

abbrev is_open_dispute : DisputeStatus → Bool
is_open_dispute DisputeStatus.opened = true
is_open_dispute DisputeStatus.under_review = true
is_open_dispute _ = false

abbrev is_open_refund : RefundStatus → Bool
is_open_refund RefundStatus.pending = true
is_open_refund RefundStatus.vendor_replied = true
is_open_refund RefundStatus.reviewing = true
is_open_refund RefundStatus.approved = true
is_open_refund _ = false

abbrev is_blocked_shipment : ShipmentStatus → Bool
is_blocked_shipment ShipmentStatus.under_review = true
is_blocked_shipment ShipmentStatus.cancelled = true
is_blocked_shipment _ = false

-- The sellers' parts whose time is over.
abbrev pub is_due : ℕ → Allocation → Bool
is_due now a =
    is_seller a.beneficiary_type
    && awaits_conformity a.status
    && elim a.eligible_for_release_at [ none ↦ false | some t ↦ leb t now ]

-- What stands against a release: an open dispute on the shipment or a shipment that is blocked, or a
-- refund of the order that is still open.
unfoldable pub is_contested : Db → Allocation → Bool
is_contested db a =
    elim a.shipment_id [
      | none ↦ false
      | some id ↦
          any (λ d. d.shipment_id == id && is_open_dispute d.status) db.disputes
          || any (λ s. s.id == id && is_blocked_shipment s.status) db.shipments
    ]
    || any (λ r. r.order_id == a.order_id && is_open_refund r.status) db.refunds

pub record Report : Type 0 where
  pub released : List ℕ
  pub skipped : List ℕ

abbrev pub make_eligible : Allocation → Allocation
make_eligible a = record a { status = SettlementStatus.eligible_for_release }

abbrev add_released : ℕ → Report → Report
add_released id r = record r { released = id ∷ r.released }

abbrev add_skipped : ℕ → Report → Report
add_skipped id r = record r { skipped = id ∷ r.skipped }

-- The loop; the rows of the test were read before it.
unfoldable pub release_each : (Allocation → Bool) → List Allocation → Action Report
release_each contested [] = pure (record { released = []; skipped = [] })
release_each contested (a ∷ rest) =
    let others = release_each contested rest in
    if contested a
    then (do report ← others; pure (add_skipped a.id report))
    else (do update_allocation a.id make_eligible; report ← others; pure (add_released a.id report))

unfoldable pub process_eligible : ℕ → Action Report
unfolding release_each is_contested
process_eligible now = do
  due ← gets (λ db. find_many (is_due now) db.allocations)
  contested ← gets is_contested
  release_each contested due
