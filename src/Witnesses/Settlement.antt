-- ===== src/Witnesses/Settlement.antt =====
-- The laws of the deliveries' money and missions applied to one parcel.
use afrique_os.Common.{ℕ, ◌+◌, ◌≡◌, ◌≢◌, refl, true, ◌&&◌, not, none, some, ◌==◌, ◌||◌}
use afrique_os.Common.Tables.{find_first, find_many, update_many}
use afrique_os.Database.Enums.{DisputeScope, is_eligible}
use afrique_os.Database.Rows.{Allocation, Shipment, Mission, Courier}
use afrique_os.Database.Action.{ok, err, outcome, after, bad_request, forbidden}
use afrique_os.Boutiques.Wallet.{held_amount}
use afrique_os.Delivery.Tokens.{fits_token, is_own_shipment}
use afrique_os.Delivery.Conformity.{process_eligible, is_due, is_contested, make_eligible}
use afrique_os.Delivery.Conformity.Window.{report_of, process_eligible-once}
use afrique_os.Delivery.Finalize.{
  finalize_verified_delivery, is_part_of, window_ms, mark_delivered, settle_each, settle_part,
  close_conversation,
}
use afrique_os.Delivery.Finalize.Parts.{settled, finalize_verified_delivery-settled}
use afrique_os.Delivery.Finalize.Held.{finalize_verified_delivery-held_amount}
use afrique_os.Delivery.Payout.{approve_settlement_payout, pay_out, approve_settlement_payout_once}
use afrique_os.Delivery.Dispute.{open_dispute}
use afrique_os.Delivery.Dispute.Freeze.{
  disputed, open_dispute-disputed, open_dispute-approve_settlement_payout,
}
use afrique_os.Delivery.Assign.{accept_public_mission, is_claimable, claim}
use afrique_os.Delivery.Assign.Once.{MayTake, accept_public_mission_once}
use afrique_os.Delivery.Chat.{
  is_open_access, closed, send_message, finalize_verified_delivery-send_message,
}
use afrique_os.Refunds.{freeze}
use afrique_os.Delivery.Shipments.{
  ShipmentRequest, NewIds, Geography, create_or_get_shipment, new_shipment,
}
use afrique_os.Delivery.Shipments.Once.{create_or_get_shipment_once}
use afrique_os.Witnesses.Shop.{db, paid_order, to_cents}
use afrique_os.Witnesses.Parcels.{
  right_code, wrong_code, digest, parcels, with_offer, offer, overdue, seller_share,
}

process_eligible-once_example : process_eligible 60 overdue ≡ (
  ok (report_of (is_contested overdue) (find_many (is_due 60) overdue.allocations)),
  record overdue {
    allocations =
        update_many
          (λ a. is_due 60 a && not (is_contested overdue a))
          make_eligible
          overdue.allocations;
  },
)
process_eligible-once_example = process_eligible-once 60 overdue (refl, (refl, tt))

finalize_verified_delivery-settled_example :
    (after (finalize_verified_delivery 100 2000) parcels).allocations
    ≡ update_many
        (is_part_of 2000)
        (λ x. settled 100 (100 + window_ms parcels) x x)
        parcels.allocations
unfolding finalize_verified_delivery mark_delivered settle_each settle_part close_conversation
finalize_verified_delivery-settled_example =
    finalize_verified_delivery-settled 100 2000 parcels (refl, (refl, (refl, tt))) refl

finalize_verified_delivery-held_amount_example :
    held_amount 10 (after (finalize_verified_delivery 100 2000) parcels).allocations
    ≡ held_amount 10 parcels.allocations
unfolding finalize_verified_delivery mark_delivered settle_each settle_part close_conversation
finalize_verified_delivery-held_amount_example =
    finalize_verified_delivery-held_amount 100 2000 10 parcels (refl, (refl, (refl, tt)))
      (refl, (refl, (refl, tt))) refl

approve_settlement_payout_once_example :
    ((a : Allocation) × (find_first (λ x. x.id == 5003) parcels.allocations ≡ some a)
      × (is_eligible a.status ≡ true))
    × ((after (approve_settlement_payout 100 5003) parcels).allocations
        ≡ update_many (λ x. x.id == 5003) (pay_out 100) parcels.allocations)
    × (approve_settlement_payout 101 5003 (after (approve_settlement_payout 100 5003) parcels)
        ≡ (err bad_request, after (approve_settlement_payout 100 5003) parcels))
unfolding approve_settlement_payout
approve_settlement_payout_once_example = approve_settlement_payout_once 100 101 5003 parcels refl

open_dispute-disputed_example :
    (s : Shipment) × (find_first (λ x. x.id == 2000) parcels.shipments ≡ some s)
    × (is_own_shipment (some 1) s || fits_token digest none s ≡ true)
    × (after (open_dispute digest 600 2000 DisputeScope.both none (some 1)) parcels
        ≡ disputed 600 DisputeScope.both s parcels)
unfolding open_dispute
open_dispute-disputed_example =
    open_dispute-disputed digest 600 2000 DisputeScope.both none (some 1) parcels refl

open_dispute-approve_settlement_payout_example :
    approve_settlement_payout 100 5000
      (after (open_dispute digest 600 2000 DisputeScope.product_only none (some 1)) parcels)
    ≡ (
      err bad_request,
      after (open_dispute digest 600 2000 DisputeScope.product_only none (some 1)) parcels,
    )
unfolding open_dispute
open_dispute-approve_settlement_payout_example =
    open_dispute-approve_settlement_payout digest 600 2000 DisputeScope.product_only none (some 1)
      parcels 100 5000 (freeze seller_share) refl refl refl

abbrev taken : Mission
taken = claim 100 70 offer

accept_public_mission_once_example :
    (c : Courier) × MayTake 7 with_offer c
    × ((after (accept_public_mission 100 9001 3000 7) with_offer).missions
        ≡ update_many (is_claimable 3000) (claim 100 c.id) with_offer.missions)
    × ((now' new_id' user' : ℕ)
        → (after
              (accept_public_mission now' new_id' 3000 user')
              (after (accept_public_mission 100 9001 3000 7) with_offer)
            ≡ after (accept_public_mission 100 9001 3000 7) with_offer)
          × ((m' : Mission)
              → outcome
                  (accept_public_mission now' new_id' 3000 user')
                  (after (accept_public_mission 100 9001 3000 7) with_offer)
                ≢ ok m'))
unfolding accept_public_mission
accept_public_mission_once_example =
    accept_public_mission_once 100 9001 3000 7 with_offer taken refl

finalize_verified_delivery-send_message_example :
    ((after (finalize_verified_delivery 100 2000) parcels).accesses
      ≡ update_many (is_open_access 2000) closed parcels.accesses)
    × (send_message 2000 7 (after (finalize_verified_delivery 100 2000) parcels)
        ≡ (err forbidden, after (finalize_verified_delivery 100 2000) parcels))
unfolding finalize_verified_delivery mark_delivered settle_each settle_part close_conversation
finalize_verified_delivery-send_message_example =
    finalize_verified_delivery-send_message 100 2000 7 parcels refl

abbrev plain : Geography
plain = record {
  is_greater_cotonou = λ c. true;
  rule_price = λ a b m. none;
  table_type = λ c. none;
  zone_type = λ c. none;
}

abbrev ask : ShipmentRequest
ask = record {
  order_id = 1002;
  mode = none;
  destination_station = none;
  package_size = none;
  origin = 1;
  destination = 1;
  code = right_code;
  token = wrong_code;
}

abbrev other_ask : ShipmentRequest
other_ask = record ask { destination = 2; destination_station = some 4 }

abbrev ids : NewIds
ids = record {
  shipment = 2100;
  first_leg = 2101;
  second_leg = 2102;
  third_leg = 2103;
  allocation = 2104;
}

create_or_get_shipment_once_example :
    create_or_get_shipment to_cents digest plain 8000 other_ask ids
      (after (create_or_get_shipment to_cents digest plain 7000 ask ids) db)
    ≡ (
      ok (new_shipment digest plain 7000 ask ids paid_order),
      after (create_or_get_shipment to_cents digest plain 7000 ask ids) db,
    )
unfolding create_or_get_shipment
create_or_get_shipment_once_example =
    create_or_get_shipment_once to_cents digest plain 7000 8000 ask other_ask ids ids db
      (new_shipment digest plain 7000 ask ids paid_order) refl refl
